-- ===== src/Console/Decoder.antt =====
-- Console output cut into lines: src/grpc/services/console/decoder.rs.
-- `lossy` stands for `String::from_utf8_lossy`, and `LogOutput` for the messages of the Docker
-- client, which the decoder only takes apart.
pub mod Segments
pub mod Stream
pub mod Streams
use agapornis_agent_rust.Base.{
  ℕ, zero, suc, ◌+◌, ◌-◌, ◌*◌, ◌/◌, ◌%◌, ◌^◌, ◌≤◌, ◌<◌, min, max, ◌≡◌, refl, sym, ap, ◌∙◌, ◌≢◌, ◌↔◌,
  ◌⊎◌, inl, inr, Bool, true, false, not, ◌&&◌, ◌||◌, Option, none, some, List, [], ◌∷◌, ◌++◌, map,
  arith, ltb, leb, ◌==◌, if◌then◌else◌, ==_iff, ltb-eq-false, Bool-cases, Option-cases, is_some,
  length, length-append, take, drop, take-append-drop, All, All-append, IsSuffix, Text, same,
  same_iff, same_refl, codes, u64_max, sat_add, wrapping_add, sat_add_exact,
}

-- " … [truncated]", in UTF-8.
abbrev pub truncation_suffix : Text
truncation_suffix = b' ' ∷ 0xe2 ∷ 0x80 ∷ 0xa6 ∷ codes " [truncated]"

abbrev pub cr : ℕ
cr = 13

abbrev pub lf : ℕ
lf = 10

pub record LineBuffer : Type 0 where
  pub bytes : Text
  pub truncated : Bool
  pub swallow_line_feed : Bool

abbrev pub default_buffer : LineBuffer
default_buffer = record { bytes = []; truncated = false; swallow_line_feed = false }

pub data LogOutput : Type 0 where
  stdout stderr console stdin : Text → LogOutput

pub record ConsoleOutputDecoder : Type 0 where
  pub stdout : LineBuffer
  pub stderr : LineBuffer
  pub console : LineBuffer

abbrev pub default_decoder : ConsoleOutputDecoder
default_decoder = record {
  stdout = default_buffer;
  stderr = default_buffer;
  console = default_buffer;
}

abbrev pub is_empty : Text → Bool
is_empty [] = true
is_empty (_ ∷ _) = false

module _ (lossy : Text → Text) where
  -- `take_line`: the buffer is cleared, and the line is returned.
  abbrev pub take_line : LineBuffer → LineBuffer × Text
  take_line b = (
    record b { bytes = []; truncated = false },
    if b.truncated then lossy b.bytes ++ truncation_suffix else lossy b.bytes,
  )

  -- The `match *byte`, on a buffer that swallows nothing.
  unfoldable pub match_byte : ℕ → LineBuffer → ℕ → LineBuffer × List Text
  match_byte maximum b byte =
      if byte == cr
      then (record (take_line b).0 { swallow_line_feed = true }, (take_line b).1 ∷ [])
      else if byte == lf
      then ((take_line b).0, (take_line b).1 ∷ [])
      else if ltb (length b.bytes) maximum
      then (record b { bytes = b.bytes ++ byte ∷ [] }, [])
      else (record b { truncated = true }, [])

  -- One round of the loop in `push`, with the lines that it adds.
  unfoldable pub push_byte : ℕ → LineBuffer → ℕ → LineBuffer × List Text
  unfolding match_byte
  push_byte maximum b byte =
      if b.swallow_line_feed
      then (if byte == lf
          then (record b { swallow_line_feed = false }, [])
          else match_byte maximum (record b { swallow_line_feed = false }) byte)
      else match_byte maximum b byte

  unfoldable pub push : ℕ → LineBuffer → Text → LineBuffer × List Text
  push maximum b [] = (b, [])
  push maximum b (byte ∷ chunk) =
      let (b', lines) = push_byte maximum b byte in
      let (b'', more) = push maximum b' chunk in (b'', lines ++ more)

  unfoldable pub finish : LineBuffer → List Text
  finish b = if is_empty b.bytes && not b.truncated then [] else (take_line b).1 ∷ []

  -- `ConsoleOutputDecoder::push`
  unfoldable pub push_output :
      ℕ → ConsoleOutputDecoder → LogOutput → ConsoleOutputDecoder × List Text
  push_output maximum d (LogOutput.stdout message) =
      let (b, lines) = push maximum d.stdout message in (record d { stdout = b }, lines)
  push_output maximum d (LogOutput.stderr message) =
      let (b, lines) = push maximum d.stderr message in (record d { stderr = b }, lines)
  push_output maximum d (LogOutput.console message) =
      let (b, lines) = push maximum d.console message in (record d { console = b }, lines)
  push_output maximum d (LogOutput.stdin _) = (d, [])

  -- `ConsoleOutputDecoder::finish`
  unfoldable pub finish_output : ConsoleOutputDecoder → List Text
  finish_output d = finish d.stdout ++ (finish d.stderr ++ finish d.console)
