-- ===== src/Console/Decoder/Streams.antt =====
-- The decoder over a log: its messages cut a stream where they like, and interleave three streams.
use mathlib.Core.List.{append_assoc, append-nil}
use agapornis_agent_rust.Console.Decoder.{
  LineBuffer, default_buffer, LogOutput, ConsoleOutputDecoder, default_decoder, match_byte,
  push_byte, push, finish, push_output, finish_output,
}
use agapornis_agent_rust.Console.Decoder.Segments.{normalise, segments}
use agapornis_agent_rust.Console.Decoder.Stream.{emitted, stream_lines}
use agapornis_agent_rust.Base.{
  flatten, ℕ, ◌≤◌, ◌≡◌, refl, sym, ap, ◌∙◌, false, List, [], ◌∷◌, ◌++◌, map, arith, length,
  length-append, Text,
}

-- The bytes of one stream that a log holds, in order.
abbrev pub stdout_of : List LogOutput → Text
stdout_of [] = []
stdout_of (LogOutput.stdout m ∷ log) = m ++ stdout_of log
stdout_of (LogOutput.stderr m ∷ log) = stdout_of log
stdout_of (LogOutput.console m ∷ log) = stdout_of log
stdout_of (LogOutput.stdin m ∷ log) = stdout_of log

abbrev pub stderr_of : List LogOutput → Text
stderr_of [] = []
stderr_of (LogOutput.stdout m ∷ log) = stderr_of log
stderr_of (LogOutput.stderr m ∷ log) = m ++ stderr_of log
stderr_of (LogOutput.console m ∷ log) = stderr_of log
stderr_of (LogOutput.stdin m ∷ log) = stderr_of log

abbrev pub console_of : List LogOutput → Text
console_of [] = []
console_of (LogOutput.stdout m ∷ log) = console_of log
console_of (LogOutput.stderr m ∷ log) = console_of log
console_of (LogOutput.console m ∷ log) = m ++ console_of log
console_of (LogOutput.stdin m ∷ log) = console_of log

module _ (lossy : Text → Text) (maximum : ℕ) where
  -- The decoder over a whole log, with the lines that it returns on the way.
  unfoldable pub feed : ConsoleOutputDecoder → List LogOutput → ConsoleOutputDecoder × List Text
  feed d [] = (d, [])
  feed d (output ∷ log) =
      let (d', lines) = push_output lossy maximum d output in
      let (d'', more) = feed d' log in (d'', lines ++ more)

  push-append :
      (b : LineBuffer) (s t : Text)
      → push lossy maximum b (s ++ t) ≡ (
        (push lossy maximum (push lossy maximum b s).0 t).0,
        (push lossy maximum b s).1 ++ (push lossy maximum (push lossy maximum b s).0 t).1,
      )
  unfolding push
  push-append b [] t = refl
  push-append b (c ∷ s) t =
      let b' = (push_byte lossy maximum b c).0 in
      rw (push-append b' s t) (λ i. (
        (push lossy maximum (push lossy maximum b' s).0 t).0,
        sym
            (append_assoc (push_byte lossy maximum b c).1 (push lossy maximum b' s).1
              (push lossy maximum (push lossy maximum b' s).0 t).1)
            i,
      ))

  -- However the messages of the three streams interleave and cut their lines, each buffer ends as
  -- if its own stream had come alone and in one piece.
  pub feed-buffers :
      (log : List LogOutput) (d : ConsoleOutputDecoder)
      → ((feed d log).0.stdout ≡ (push lossy maximum d.stdout (stdout_of log)).0)
        × ((feed d log).0.stderr ≡ (push lossy maximum d.stderr (stderr_of log)).0)
        × ((feed d log).0.console ≡ (push lossy maximum d.console (console_of log)).0)
  unfolding feed push_output
  feed-buffers [] d = unfold push in (refl, refl, refl)
  feed-buffers (LogOutput.stdout m ∷ log) d =
      let (a, b, c) = feed-buffers log (record d { stdout = (push lossy maximum d.stdout m).0 }) in
      (
        a ∙ sym (ap (λ (r : LineBuffer × List Text). r.0) (push-append d.stdout m (stdout_of log))),
        b,
        c,
      )
  feed-buffers (LogOutput.stderr m ∷ log) d =
      let (a, b, c) = feed-buffers log (record d { stderr = (push lossy maximum d.stderr m).0 }) in
      (
        a,
        b ∙ sym (ap (λ (r : LineBuffer × List Text). r.0) (push-append d.stderr m (stderr_of log))),
        c,
      )
  feed-buffers (LogOutput.console m ∷ log) d =
      let (a, b, c) =
        feed-buffers log (record d { console = (push lossy maximum d.console m).0 }) in
      (
        a,
        b,
        c
            ∙ sym (
                ap (λ (r : LineBuffer × List Text). r.0)
                  (push-append d.console m (console_of log))),
      )
  feed-buffers (LogOutput.stdin m ∷ log) d = feed-buffers log d

  feed-stdout :
      (ms : List Text) (d : ConsoleOutputDecoder)
      → feed d (map LogOutput.stdout ms) ≡ (
        record d { stdout = (push lossy maximum d.stdout (flatten ms)).0 },
        (push lossy maximum d.stdout (flatten ms)).1,
      )
  unfolding feed push_output
  feed-stdout [] d = unfold push in refl
  feed-stdout (m ∷ ms) d =
      rw
        (
          feed-stdout ms (record d { stdout = (push lossy maximum d.stdout m).0 }),
          push-append d.stdout m (flatten ms),
        )
        refl

  -- A log of one stream gives the lines of that stream, wherever its messages are cut.
  pub feed_single :
      (ms : List Text)
      → (feed default_decoder (map LogOutput.stdout ms)).1
          ++ finish_output lossy (feed default_decoder (map LogOutput.stdout ms)).0
        ≡ emitted lossy maximum (segments (normalise false (flatten ms)))
  unfolding finish_output finish
  feed_single ms =
      rw (feed-stdout ms default_decoder, append-nil)
        (unfold finish in stream_lines lossy maximum (flatten ms))

  abbrev Fits : LineBuffer → Type 0
  Fits b = length b.bytes ≤ maximum

  push_byte-Fits : (b : LineBuffer) (c : ℕ) → Fits b → Fits (push_byte lossy maximum b c).0
  unfolding push_byte match_byte
  push_byte-Fits b c h = ground (arith, length-append b.bytes (c ∷ []))

  push-Fits : (s : Text) (b : LineBuffer) → Fits b → Fits (push lossy maximum b s).0
  unfolding push
  push-Fits [] b h = h
  push-Fits (c ∷ s) b h = push-Fits s (push_byte lossy maximum b c).0 (push_byte-Fits b c h)

  -- No log makes a buffer hold more than `maximum` bytes.
  pub feed_bounded :
      (log : List LogOutput)
      → (length (feed default_decoder log).0.stdout.bytes ≤ maximum)
        × (length (feed default_decoder log).0.stderr.bytes ≤ maximum)
        × (length (feed default_decoder log).0.console.bytes ≤ maximum)
  feed_bounded log =
      let (a, b, c) = feed-buffers log default_decoder in
      (
        rw a (push-Fits (stdout_of log) default_buffer (omega arith)),
        rw b (push-Fits (stderr_of log) default_buffer (omega arith)),
        rw c (push-Fits (console_of log) default_buffer (omega arith)),
      )
