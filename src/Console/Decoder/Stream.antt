-- ===== src/Console/Decoder/Stream.antt =====
-- The lines that the decoder cuts from one stream, against the description of the whole stream.
use agapornis_agent_rust.Console.Decoder.Segments.{
  normalise, join, segments, take_all, take_nil, length-take, take-concat_short, take-concat_long,
  is_empty-take, join-join, segments_end, segments_inside, join-nil-segments,
}
use mathlib.Core.Path.{ap₂}
use mathlib.Core.List.{append_assoc, append-nil}
use agapornis_agent_rust.Console.Decoder.{
  LineBuffer, default_buffer, is_empty, truncation_suffix, take_line, match_byte, push_byte, push,
  finish, cr, lf,
}
use agapornis_agent_rust.Base.{
  ℕ, ◌≤◌, ◌<◌, ◌≡◌, refl, sym, ap, ◌∙◌, inl, inr, Bool, true, false, not, ◌&&◌, ◌||◌, List, [], ◌∷◌,
  ◌++◌, arith, ltb, ◌==◌, if◌then◌else◌, Bool-cases, length, length-append, take, Text,
}

module _ (lossy : Text → Text) (maximum : ℕ) where
  -- A line is cut off at `maximum` bytes, and then marked.
  abbrev pub clip : Text → Text
  clip segment =
      if ltb maximum (length segment)
      then lossy (take maximum segment) ++ truncation_suffix
      else lossy segment

  -- What comes after the last line feed is a line if it is not empty.
  abbrev pub emitted : List Text → List Text
  emitted [] = []
  emitted (x ∷ []) = if is_empty x then [] else clip x ∷ []
  emitted (x ∷ y ∷ rest) = clip x ∷ emitted (y ∷ rest)

  -- The buffer holds what has been read of the current segment.
  record Holds (b : LineBuffer) (segment : Text) : Type 0 where
    cut : b.bytes ≡ take maximum segment
    marked : b.truncated ≡ ltb maximum (length segment)

  take_line-clip :
      (b : LineBuffer) (segment : Text) → Holds b segment → (take_line lossy b).1 ≡ clip segment
  take_line-clip b segment h = elim (Bool-cases (ltb maximum (length segment))) [
    | inl long ↦ rw (h.marked, h.cut, long)
    | inr short ↦ rw (h.marked, h.cut, short) (ap lossy (take_all maximum segment (ground arith)))
  ]

  is_empty_of_Holds :
      (b : LineBuffer) (segment : Text)
      → Holds b segment
      → (is_empty b.bytes && not b.truncated) ≡ is_empty segment
  is_empty_of_Holds b segment h = rw (h.marked, h.cut) (is_empty-take maximum segment)

  finish-emitted :
      (b : LineBuffer) (segment : Text) → Holds b segment → finish lossy b ≡ emitted (segment ∷ [])
  unfolding finish
  finish-emitted b segment h = rw (is_empty_of_Holds b segment h, take_line-clip b segment h)

  Holds-nil : (b : LineBuffer) → b.bytes ≡ [] → b.truncated ≡ false → Holds b []
  Holds-nil b e t = record { cut = e ∙ sym (take_nil maximum); marked = t ∙ ground arith }

  -- A byte that ends no line.
  match_byte-Holds :
      (b : LineBuffer) (segment : Text) (c : ℕ)
      → Holds b segment
      → (c == cr) ≡ false
      → (c == lf) ≡ false
      → Holds (match_byte lossy maximum b c).0 (segment ++ c ∷ [])
        × ((match_byte lossy maximum b c).1 ≡ [])
        × ((match_byte lossy maximum b c).0.swallow_line_feed ≡ b.swallow_line_feed)
  unfolding match_byte
  match_byte-Holds b segment c h e f =
      let n = ap length h.cut ∙ length-take maximum segment in
      let m = length-append segment (c ∷ []) in
      elim (Bool-cases (ltb (length b.bytes) maximum)) [
        | inl room ↦
            let short : length segment < maximum = ground arith in
            rw (e, f, room, match_byte)
              (
                record {
                  cut =
                      rw (take-concat_short maximum segment c short)
                        (ap (λ (t : Text). t ++ c ∷ []) h.cut);
                  marked = h.marked ∙ ground arith;
                },
                refl,
                refl,
              )
        | inr full ↦
            let long : maximum ≤ length segment = ground arith in
            rw (e, f, full, match_byte)
              (
                record {
                  cut = rw (take-concat_long maximum segment c long) h.cut;
                  marked = ground arith;
                },
                refl,
                refl,
              )
      ]

  -- A line end takes the line out of the buffer.
  match_byte_end :
      (b : LineBuffer) (c : ℕ) (after : Bool)
      → b.swallow_line_feed ≡ false
      → (c == cr) ≡ after
      → ((c == cr) || (c == lf)) ≡ true
      → match_byte lossy maximum b c ≡ (
        record { bytes = []; truncated = false; swallow_line_feed = after },
        (take_line lossy b).1 ∷ [],
      )
  unfolding match_byte
  match_byte_end b c after w e f = ground arith

  -- All lines that come of the bytes `s` from buffer `b` on, the last one included.
  abbrev pub lines_from : LineBuffer → Text → List Text
  lines_from b s = (push lossy maximum b s).1 ++ finish lossy (push lossy maximum b s).0

  lines_from-cons :
      (b b' : LineBuffer) (c : ℕ) (s : Text) (lines : List Text)
      → push_byte lossy maximum b c ≡ (b', lines)
      → lines_from b (c ∷ s) ≡ lines ++ lines_from b' s
  unfolding push
  lines_from-cons b b' c s lines e = rw e (append_assoc lines (push lossy maximum b' s).1 _)

  push_byte_match :
      (b : LineBuffer) (c : ℕ)
      → (b.swallow_line_feed && c == lf) ≡ false
      → push_byte lossy maximum b c
        ≡ match_byte lossy maximum (record b { swallow_line_feed = false }) c
  unfolding push_byte
  push_byte_match b c h = ground arith

  push_byte_swallow :
      (b : LineBuffer) (c : ℕ)
      → (b.swallow_line_feed && c == lf) ≡ true
      → push_byte lossy maximum b c ≡ (record b { swallow_line_feed = false }, [])
  unfolding push_byte
  push_byte_swallow b c h = ground arith

  emitted-cons :
      (x : Text) (s : Text) → emitted (x ∷ segments s) ≡ clip x ∷ emitted (join [] (segments s))
  emitted-cons x s = rw (← join-nil-segments s) (emitted-join (segments s))
    where
      emitted-join :
          (l : List Text) → emitted (x ∷ join [] l) ≡ clip x ∷ emitted (join [] (join [] l))
      emitted-join [] = refl
      emitted-join (y ∷ l) = refl

  stream_from :
      (s : Text) (segment : Text) (b : LineBuffer)
      → Holds b segment
      → lines_from b s ≡ emitted (join segment (segments (normalise b.swallow_line_feed s)))
  unfolding segments normalise
  stream_from [] segment b h = unfold push in rw append-nil (finish-emitted b segment h)
  stream_from (c ∷ s) segment b h =
      let ready : LineBuffer = record b { swallow_line_feed = false } in
      let held : Holds ready segment = record { cut = h.cut; marked = h.marked } in
      elim (Bool-cases (b.swallow_line_feed && c == lf)) [
        | inl swallowed ↦
            rw (swallowed, lines_from-cons b _ c s [] (push_byte_swallow b c swallowed))
              (stream_from s segment ready held)
        | inr read ↦ elim (Bool-cases (c == cr || c == lf)) [
          | inl ends ↦
              rw (segments_end b.swallow_line_feed c s read ends, append-nil)
                (lines_from-cons b _ c s _
                    (push_byte_match b c read ∙ match_byte_end ready c (c == cr) refl refl ends)
                  ∙ ap₂ ◌∷◌ (take_line-clip ready segment held)
                      (stream_from s [] _ (Holds-nil _ refl refl))
                  ∙ sym (emitted-cons segment (normalise (c == cr) s)))
          | inr inside ↦
              let e : (c == cr) ≡ false = ground arith in
              let f : (c == lf) ≡ false = ground arith in
              let (more, no_line, flag) = match_byte-Holds ready segment c held e f in
              rw (segments_inside b.swallow_line_feed c s inside, join-join segment c)
                (let ih = rw flag at (stream_from s (segment ++ c ∷ []) _ more) in
                  rw (lines_from-cons b _ c s _ (push_byte_match b c read), no_line) ih)
        ]
      ]

  -- The lines of a stream, from a fresh buffer to its end, are the segments between its line ends,
  -- each cut off at `maximum` bytes and then marked; "\r\n", "\r" and "\n" end a line alike, and
  -- what follows the last line end is a line if it is not empty.
  pub stream_lines :
      (s : Text) → lines_from default_buffer s ≡ emitted (segments (normalise false s))
  stream_lines s =
      stream_from s [] default_buffer (Holds-nil default_buffer refl refl)
      ∙ ap emitted (join-nil-segments (normalise false s))
