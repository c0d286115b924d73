-- ===== src/Lib.antt =====
-- A model of the agent that runs game servers on a node, and what holds of it.
--
-- The agent keeps the containers of the servers that the master assigns to it. The parts here are
-- which ids and paths are accepted, how the output of a container becomes lines, how much of it is
-- kept, who reads it and how much of it a server may send; how a container and its files are set
-- up, the watch over the containers, and how the agent replaces its own binary.
--
--   src/grpc/services/console/history.rs      Console/History and its children
--   src/grpc/services/console/decoder.rs      Console/Decoder and its children
--   src/grpc/services/console/mod.rs          Console/Hub, Console/Hub/Publish
--   src/grpc/services/console/lifecycle.rs    Console/Hub, Console/Hub/Calls
--   src/grpc/services/console/reader.rs       Console/Hub/Publish, Console/Reader
--   src/core/paths.rs                         Core/Paths and its children
--   src/security/protection.rs                Security/Protection and its children
--   src/runtime/docker/provisioning/ports.rs  Runtime/Ports, Runtime/Mapping and their children
--   src/runtime/supervisor.rs                 Runtime/Supervisor and its children
--   src/runtime/docker/configuration.rs       Runtime/Configuration and its children
--   src/runtime/docker/configuration/line.rs  Runtime/Configuration/Lines, Properties and Wanted
--   src/runtime/docker/configuration/structured.rs  Runtime/Configuration/Structured and Settled
--   src/runtime/docker/configuration/xml.rs   Runtime/Configuration/Xml and Elements
--   src/runtime/docker/inspection.rs          Runtime/Inspection, Runtime/Inspection/Startup
--   src/runtime/docker/inspection/disk.rs     Runtime/Disk, Runtime/Disk/Newest
--   src/runtime/update.rs                     Runtime/Update and its children
--   src/storage/backup/crypto.rs              Storage/Crypto and its children
--
-- A definition has the name of the function, constant or type that it models. The decoder turns
-- the bytes of a container's log into lines; `publish_line_when_active` asks the rate limits of
-- src/security/protection.rs about each and pushes it to the history; the hub decides which server
-- has a reader, a channel and a history, and clears all of them when a server is removed. The ids
-- that the hub accepts are those of `validate_id` in src/core/paths.rs. Host ports are reserved in
-- one shared set while a server is provisioned, and backups are encrypted in chunks. The
-- supervisor observes each container, marks in src/security/protection.rs the servers that it
-- stops, and tells the hub of those that are gone. The writers of configuration files share the
-- values of Runtime/Configuration/Values. The agent's own update is staged, activated at the next
-- start, and either committed or rolled back.
--
-- State is passed on: a method on `&mut self`, or on a value behind a mutex, is a function from
-- the state to the state and its result. A result that can fail is an Option, or `Result` with the
-- reason. Text is the list of its bytes, or of
-- its code points where spaces are trimmed. A `HashMap` is an association list and a `HashSet` a
-- list, with their order left to the code; Base/Dict and Base/IdSet say what is read back of them.
-- Where `min_by_key` meets several least keys, the first in the list stands for whichever the map
-- yields. Sizes are those of a 64-bit target: `usize` and `u64` saturate at 2^64 - 1 where the
-- code says so, `+=` on a counter wraps, and a `ConsoleEntry` takes 24 bytes.
--
-- Parameters: `String::from_utf8_lossy` (`lossy`) in the decoder, the base directory of the
-- servers (`base`) in the paths, the parser of timestamps, the cipher of the backups, the ports
-- that are drawn and whether one can be bound, what Docker says of a container, the answer of the
-- server that has an update, SHA-256, the text forms of paths and of the activation state, the
-- value of each environment variable once it is parsed, and every reading of the clock. The
-- lifecycle of the hub is locked for the whole of a call, so a call is one step, and `subscribe`
-- two, since it reads the history after it has given the lock up; what other tasks do while
-- `publish_prepared` waits for its two locks is the argument `meanwhile`. An `Arc` is known by a
-- number that no other has. The calls on the files of an update meet a list of fates, one for each
-- call, and a process that dies has none left.
--
-- Loops: those over a list end with it. The loop that evicts whole histories has the number of
-- entries as fuel, as each round removes one; that this is enough is part of the limit on the
-- cache. The digits of a number have the number as fuel. The search for a port has its 50 rounds.
-- The decryption has one more than the length of the file as fuel, of which each round reads at
-- least four bytes; the brackets of a path have its length, of which each round reads at least two
-- characters.
--
-- Not modelled: the loop of the reader with its waits and delays; what Docker does; provisioning but
-- for its ports; the lifecycle of a container, what `stop` clears of the agent's state included; the
-- parsers and printers of JSON, YAML and XML; the walk over a directory that measures it; the timers of the supervisor; backups but for their
-- encryption; the files of the servers, and the calls over the network. Logging, the build and the
-- tests of the program have no part in it.
pub mod Base
pub mod Console
pub mod Core
pub mod Runtime
pub mod Security
pub mod Storage
pub mod Tests
