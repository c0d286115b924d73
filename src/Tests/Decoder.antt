-- ===== src/Tests/Decoder.antt =====
-- The decoder on concrete bytes, with bytes that are read as they are: src/grpc/services/console/decoder.rs.
use agapornis_agent_rust.Console.Decoder
use agapornis_agent_rust.Console.Decoder.{
  LogOutput, stdout, stderr, default_buffer, default_decoder, finish_output,
}
use agapornis_agent_rust.Console.Decoder.Segments.{segments, normalise}
use agapornis_agent_rust.Console.Decoder.Stream.{emitted, lines_from, stream_lines}
use agapornis_agent_rust.Console.Decoder.Streams.{
  stdout_of, stderr_of, console_of, feed, feed-buffers, feed_bounded,
}
use agapornis_agent_rust.Base.{◌≤◌, ◌≡◌, refl, false, List, [], ◌∷◌, ◌++◌, length, Text, codes}

-- A text of ASCII is read as it is.
abbrev as_is : Text → Text
as_is bytes = bytes

abbrev long_line : Text
long_line = codes "abcdef"

abbrev windows_lines : Text
windows_lines = codes "one\r\ntwo\rsix\n"

three_lines :
    lines_from as_is 4 default_buffer windows_lines ≡ codes "one" ∷ codes "two" ∷ codes "six" ∷ []
unfolding Decoder.push Decoder.push_byte Decoder.match_byte Decoder.finish
three_lines = refl

cut_line :
    lines_from as_is 4 default_buffer long_line ≡ (codes "abcd" ++ Decoder.truncation_suffix) ∷ []
unfolding Decoder.push Decoder.push_byte Decoder.match_byte Decoder.finish
cut_line = refl

stream_lines_example :
    lines_from as_is 4 default_buffer windows_lines
    ≡ emitted as_is 4 (segments (normalise false windows_lines))
stream_lines_example = stream_lines as_is 4 windows_lines

abbrev mixed_log : List LogOutput
mixed_log =
    LogOutput.stdout (codes "on")
    ∷ LogOutput.stderr (codes "err\r")
    ∷ LogOutput.stdout (codes "e\n")
    ∷ LogOutput.stderr (codes "\nmore")
    ∷ []

feed-buffers_example :
    ((feed as_is 4 default_decoder mixed_log).0.stdout
      ≡ (Decoder.push as_is 4 default_buffer (stdout_of mixed_log)).0)
    × ((feed as_is 4 default_decoder mixed_log).0.stderr
        ≡ (Decoder.push as_is 4 default_buffer (stderr_of mixed_log)).0)
    × ((feed as_is 4 default_decoder mixed_log).0.console
        ≡ (Decoder.push as_is 4 default_buffer (console_of mixed_log)).0)
feed-buffers_example = feed-buffers as_is 4 mixed_log default_decoder

abbrev cut_messages : List Text
cut_messages = codes "on" ∷ codes "e\r" ∷ codes "\ntw" ∷ codes "o" ∷ []

feed_bounded_example :
    (length (feed as_is 4 default_decoder mixed_log).0.stdout.bytes ≤ 4)
    × (length (feed as_is 4 default_decoder mixed_log).0.stderr.bytes ≤ 4)
    × (length (feed as_is 4 default_decoder mixed_log).0.console.bytes ≤ 4)
feed_bounded_example = feed_bounded as_is 4 mixed_log
