-- ===== src/Runtime/Configuration.antt =====
-- How a container is configured: src/runtime/docker/configuration.rs. What Docker is given is its
-- list of environment entries, its command and its temporary file systems.
pub mod Threads
pub mod Values
pub mod Lines
pub mod Properties
pub mod Wanted
pub mod Structured
pub mod Settled
pub mod Xml
pub mod Elements
pub mod Environment
pub mod Repair
use agapornis_agent_rust.Base.Str
use agapornis_agent_rust.Base.Dict
use agapornis_agent_rust.Base.Dict.{Dict}
use agapornis_agent_rust.Base.NatSet
use agapornis_agent_rust.Base.NatSet.{NatSet}
use agapornis_agent_rust.Base.{ℤ, pos, negsuc, is_less, excess, flatten}
use agapornis_agent_rust.Base.{
  ℕ, zero, suc, ◌+◌, ◌-◌, ◌*◌, ◌/◌, ◌%◌, ◌^◌, ◌≤◌, ◌<◌, min, max, ◌≡◌, refl, sym, ap, ◌∙◌, ◌≢◌, ◌↔◌,
  ◌⊎◌, inl, inr, Bool, true, false, not, ◌&&◌, ◌||◌, Option, none, some, List, [], ◌∷◌, ◌++◌, map,
  arith, ltb, leb, ◌==◌, if◌then◌else◌, ==_iff, ltb-eq-false, Bool-cases, Option-cases, is_some,
  length, length-append, take, drop, take-append-drop, All, All-append, IsSuffix, Text, same,
  same_iff, same_refl, codes, u64_max, sat_add, wrapping_add, sat_add_exact,
}

abbrev pub xdg_runtime_dir_key : Text
xdg_runtime_dir_key = codes "XDG_RUNTIME_DIR"

abbrev pub managed_xdg_runtime_dir : Text
managed_xdg_runtime_dir = codes "/tmp/agapornis-runtime"

abbrev pub managed_xdg_runtime_tmpfs_options : Text
managed_xdg_runtime_tmpfs_options =
    codes "rw,nosuid,nodev,noexec,size=16m,mode=0700,uid=999,gid=999"

-- `entry.split_once('=').filter(|(key, _)| *key == XDG_RUNTIME_DIR_KEY)`, the value of it
abbrev pub if_key : Option (Text × Text) → Option Text
if_key none = none
if_key (some (key, value)) = if same key xdg_runtime_dir_key then some value else none

unfoldable pub xdg_value : Text → Option Text
xdg_value entry = if_key (Str.split_once (λ c. c == b'=') entry)

-- The value of the last entry that has the key.
unfoldable pub runtime_environment_value : List Text → Option Text
runtime_environment_value [] = none
runtime_environment_value (entry ∷ values) = elim (runtime_environment_value values) [
  | none ↦ xdg_value entry
  | some value ↦ some value
]

abbrev pub or_managed : Option Text → Text
or_managed none = managed_xdg_runtime_dir
or_managed (some value) =
    if Str.is_empty (Str.trim value) then managed_xdg_runtime_dir else Str.trim value

abbrev pub configured_dir : List Text → Text
configured_dir values = or_managed (runtime_environment_value values)

unfoldable pub other_entries : List Text → List Text
other_entries [] = []
other_entries (entry ∷ values) =
    let rest = other_entries values in if is_some (xdg_value entry) then rest else entry ∷ rest

unfoldable pub runtime_environment : List Text → List Text
runtime_environment values =
    other_entries values ++ (xdg_runtime_dir_key ++ (codes "=" ++ configured_dir values)) ∷ []

-- The script that starts the server, which is a constant of the source.
module _ (launcher : Text) where
  unfoldable pub runtime_server_command : Text → Option (List Text)
  runtime_server_command startup =
      if Str.is_empty (Str.trim startup)
      then none
      else some (
          codes "/bin/sh"
          ∷ (codes "-lc"
              ∷ (launcher ∷ (codes "agapornis-runtime" ∷ ((codes "exec " ++ startup) ∷ [])))))

abbrev pub if_filled : Option Text → Option Text
if_filled none = none
if_filled (some startup) = if Str.is_empty (Str.trim startup) then none else some startup

unfoldable pub legacy_runtime_command : List Text → Option Text
legacy_runtime_command (shell ∷ option ∷ startup ∷ []) =
    if same shell (codes "/bin/sh") && same option (codes "-lc")
    then if_filled (Str.strip_prefix (codes "exec ") startup)
    else none
legacy_runtime_command _ = none

abbrev pub legacy_of : Option (List Text) → Option Text
legacy_of none = none
legacy_of (some command) = legacy_runtime_command command

-- The command after it, and whether it was changed.
unfoldable pub repair_legacy_runtime_command : Text → Option (List Text) → Option (List Text) × Bool
repair_legacy_runtime_command launcher command = elim (legacy_of command) [
  | none ↦ (command, false)
  | some startup ↦ (runtime_server_command launcher startup, true)
]

-- What is used of `HostConfig`.
pub record HostConfig : Type 0 where
  pub tmpfs : Option (Dict Text)

abbrev pub or_empty : Option (Dict Text) → Dict Text
or_empty none = []
or_empty (some m) = m

abbrev pub is_managed : List Text → Bool
is_managed environment = elim (runtime_environment_value environment) [
  | none ↦ false
  | some value ↦ same value managed_xdg_runtime_dir
]

unfoldable pub ensure_runtime_tmpfs : HostConfig → List Text → HostConfig
ensure_runtime_tmpfs host_config environment =
    if is_managed environment
    then record {
      tmpfs = some (
          Dict.insert managed_xdg_runtime_dir managed_xdg_runtime_tmpfs_options
            (or_empty host_config.tmpfs));
    }
    else host_config

abbrev pub has_options : Option Text → Bool
has_options none = false
has_options (some options) = same options managed_xdg_runtime_tmpfs_options

abbrev pub mounted : Option HostConfig → Option Text
mounted none = none
mounted (some config) = elim config.tmpfs [
  | none ↦ none
  | some m ↦ Dict.get managed_xdg_runtime_dir m
]

unfoldable pub runtime_tmpfs_ready : Option HostConfig → List Text → Bool
runtime_tmpfs_ready host_config environment =
    if is_managed environment then has_options (mounted host_config) else true

-- `start.parse()` and `end.parse()`
abbrev pub both : Option ℕ → Option ℕ → Option (ℕ × ℕ)
both (some a) (some b) = some (a, b)
both _ _ = none

unfoldable pub thread_range : Text → Option (ℕ × ℕ)
thread_range segment = elim (Str.split_once (λ c. c == b'-') segment) [
  | none ↦ let thread = Str.parse_unsigned u64_max segment in both thread thread
  | some (start, end) ↦ both (Str.parse_unsigned u64_max start) (Str.parse_unsigned u64_max end)
]

-- `for thread in start..=end`, which are `n` threads.
unfoldable pub select_threads : ℕ → ℕ → NatSet → Option NatSet
select_threads zero start selected = some selected
select_threads (suc n) start selected =
    let rest = select_threads n (suc start) (NatSet.insert start selected) in
    if NatSet.contains start selected then none else rest

unfoldable pub select_range : ℕ → ℕ × ℕ → NatSet → Option NatSet
select_range available (start, end) selected =
    if ltb end start || leb available end
    then none
    else select_threads (suc end - start) start selected

-- The loop over the segments.
unfoldable pub select_segments : ℕ → List Text → NatSet → Option NatSet
select_segments available [] selected = some selected
select_segments available (segment ∷ segments) selected = elim (thread_range segment) [
  | none ↦ none
  | some range ↦ elim (select_range available range selected) [
    | none ↦ none
    | some more ↦ select_segments available segments more
  ]
]

abbrev pub or_unpinned : Text → NatSet → Option Text
or_unpinned value [] = none
or_unpinned value (thread ∷ threads) = some value

-- `none` outside is the error.
unfoldable pub pinned_cpu_set : ℕ → Text → Option (Option Text)
pinned_cpu_set available value =
    let compact = flatten (Str.split_whitespace value) in
    if Str.is_empty compact
    then some none
    else elim (select_segments available (Str.split b',' compact) []) [
      | none ↦ none
      | some selected ↦ some (or_unpinned compact selected)
    ]

-- Over `i64`; the difference is taken only of a smaller positive number.
unfoldable pub effective_disk_limit : ℤ → ℤ → Text → Option ℤ
effective_disk_limit disk swap storage =
    if is_less swap (pos 0)
    then none
    else if same storage (codes "server") && is_less (pos 0) swap
    then if is_less swap disk then some (pos (excess disk swap)) else none
    else some disk

-- `trim_start_matches("./")`
unfoldable pub trim_dot_slash : Text → Text
trim_dot_slash (a ∷ b ∷ s) =
    let rest = trim_dot_slash s in if a == b'.' && b == b'/' then rest else a ∷ b ∷ s
trim_dot_slash s = s

abbrev pub is_quote : ℕ → Bool
is_quote c = c == 39 || c == 34

abbrev pub is_target : Text → Bool
is_target value = Str.ends_with (codes ".jar") value || Str.starts_with (codes "./") value

unfoldable pub first_target : List Text → Option Text
first_target [] = none
first_target (word ∷ words) =
    let value = Str.trim_matches is_quote word in
    let rest = first_target words in if is_target value then some (trim_dot_slash value) else rest

unfoldable pub startup_target : Text → Option Text
startup_target command = first_target (Str.split_whitespace command)
