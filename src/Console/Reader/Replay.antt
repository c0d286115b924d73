-- ===== src/Console/Reader/Replay.antt =====
-- What a reader does with the lines that Docker sends again after a reconnect.
use agapornis_agent_rust.Base.IdSet
use agapornis_agent_rust.Base.IdSet.{IdSet}
use agapornis_agent_rust.Console.Hub.{ConsoleHub}
use agapornis_agent_rust.Console.Reader.{
  Cursor, ProcessLineOutcome, published, skipped, stale, RawLine, is_before, is_replayed,
  advance_to, advance, split_docker_timestamp, process_docker_line, process_lines,
}
use agapornis_agent_rust.Base.{
  ℕ, ◌≡◌, refl, ◌⊎◌, inl, inr, Bool, true, false, Option, none, some, List, [], ◌∷◌, map, arith,
  ltb, ◌==◌, Bool-cases, Option-cases, is_some, All, Text, same, same_iff, same_refl,
}

advance_to-is_before :
    (t : ℕ) (line : Text) (c : Cursor) → is_before (advance_to t line c) t line ≡ true
unfolding advance_to
advance_to-is_before t line c = elim (Option-cases c.at) [
  | inl e ↦ rw (e, advance_to) (ground (arith, IdSet.contains-insert line line [], same_refl line))
  | inr (current, e) ↦
      rw (e, advance_to)
        (elim (Bool-cases (ltb t current)) [
          | inl old ↦ rw (old, e) (rw old refl)
          | inr late ↦ rw late (elim (Bool-cases (t == current)) [
            | inl now ↦
                rw (now, e)
                  (ground (arith, now, IdSet.contains-insert line line c.lines, same_refl line))
            | inr new ↦ rw new (ground (arith, IdSet.contains-insert line line [], same_refl line))
          ])
        ])
]

-- What was published before stays so.
abbrev IsLater : Cursor → Cursor → Type 0
IsLater c c' = (t : ℕ) (line : Text) → is_before c t line ≡ true → is_before c' t line ≡ true

advance_to-IsLater : (t : ℕ) (line : Text) (c : Cursor) → IsLater c (advance_to t line c)
unfolding advance_to
advance_to-IsLater t line c u other h = elim (Option-cases c.at) [
  | inl e ↦ absurd (let g = rw e at h in cc)
  | inr (current, e) ↦
      let g = rw e at h in
      rw (e, advance_to)
        (elim (Bool-cases (ltb t current)) [
          | inl old ↦ rw (old, e) g
          | inr late ↦ rw late (elim (Bool-cases (t == current)) [
            | inl now ↦ rw (now, e) (ground (arith, g, IdSet.contains-insert line other c.lines))
            | inr new ↦ rw new (ground (arith, g, late, new))
          ])
        ])
]

advance-IsLater : (ts : Option ℕ) (line : Text) (c : Cursor) → IsLater c (advance ts line c)
advance-IsLater none line c = λ t l h. h
advance-IsLater (some t) line c = advance_to-IsLater t line c

Outcome-cases : (o : ProcessLineOutcome) → (o ≡ published) ⊎ ((o ≡ skipped) ⊎ (o ≡ stale))
Outcome-cases published = inl refl
Outcome-cases skipped = inr (inl refl)
Outcome-cases stale = inr (inr refl)

contains-tail :
    (k j : Text) (s : IdSet)
    → IdSet.contains k (j ∷ s) ≡ true
    → same j k ≡ false
    → IdSet.contains k s ≡ true
unfolding IdSet.contains
contains-tail k j s h e = rw e at h

module _ (parse_from_rfc3339 : Text → Option ℕ) where
  -- Whether the line would be skipped under this cutoff.
  abbrev pub is_seen : Cursor → Text → Bool
  is_seen c raw =
      let (timestamp, line) = split_docker_timestamp parse_from_rfc3339 raw in
      is_replayed c timestamp line

  abbrev pub has_timestamp : Text → Bool
  has_timestamp raw = is_some (split_docker_timestamp parse_from_rfc3339 raw).0

  -- One of the lines, sent again.
  abbrev pub IsResent : List RawLine → RawLine → Type 0
  IsResent lines r =
      (IdSet.contains r.raw_line (map (λ (l : RawLine). l.raw_line) lines) ≡ true)
      × (has_timestamp r.raw_line ≡ true)

  is_seen-IsLater :
      (c c' : Cursor) (raw : Text) → IsLater c c' → is_seen c raw ≡ true → is_seen c' raw ≡ true
  is_seen-IsLater c c' raw later h =
      elim (Option-cases (split_docker_timestamp parse_from_rfc3339 raw).0) [
        | inl e ↦ absurd (let g = rw e at h in cc)
        | inr (t, e) ↦ rw e (later t (split_docker_timestamp parse_from_rfc3339 raw).1 (rw e at h))
      ]

  module _ (id : Text) (ticket : ℕ) where
    line_cursor :
        (raw : RawLine) (cutoff cursor : Cursor) (hub : ConsoleHub)
        → IsLater cutoff cursor
        → IsLater cursor (process_docker_line parse_from_rfc3339 id ticket raw cutoff cursor hub).0
          × (has_timestamp raw.raw_line ≡ true
              → is_seen
                  (process_docker_line parse_from_rfc3339 id ticket raw cutoff cursor hub).0
                  raw.raw_line
                ≡ true)
    unfolding process_docker_line
    line_cursor raw cutoff cursor hub later =
        let line = (split_docker_timestamp parse_from_rfc3339 raw.raw_line).1 in
        elim (Bool-cases (is_seen cutoff raw.raw_line)) [
          | inl seen ↦
              rw seen ((λ t l h. h), λ timed. is_seen-IsLater cutoff cursor raw.raw_line later seen)
          | inr fresh ↦ rw fresh (
            advance-IsLater (split_docker_timestamp parse_from_rfc3339 raw.raw_line).0 line cursor,
            λ timed.
                elim (Option-cases (split_docker_timestamp parse_from_rfc3339 raw.raw_line).0) [
                  | inl e ↦ absurd (let g = rw e at timed in cc)
                  | inr (t, e) ↦ rw e (advance_to-is_before t line cursor)
                ],
          )
        ]

    -- A line of a connection that has not stopped, and those after it.
    lines_after :
        (raw : RawLine) (lines : List RawLine) (cutoff cursor : Cursor) (hub : ConsoleHub)
        → (process_lines parse_from_rfc3339 id ticket (raw ∷ lines) cutoff cursor hub).stopped
          ≡ false
        → let (cursor', hub', _, _) =
            process_docker_line parse_from_rfc3339 id ticket raw cutoff cursor hub in
          ((process_lines parse_from_rfc3339 id ticket (raw ∷ lines) cutoff cursor hub).cursor
            ≡ (process_lines parse_from_rfc3339 id ticket lines cutoff cursor' hub').cursor)
          × ((process_lines parse_from_rfc3339 id ticket lines cutoff cursor' hub').stopped ≡ false)
    unfolding process_lines
    lines_after raw lines cutoff cursor hub h =
        elim (Outcome-cases
          (process_docker_line parse_from_rfc3339 id ticket raw cutoff cursor hub).3) [
            | inl e ↦ rw (e, process_lines) (refl, rw (e, process_lines) at h)
            | inr (inl e) ↦ rw (e, process_lines) (refl, rw (e, process_lines) at h)
            | inr (inr e) ↦ absurd (let g = rw (e, process_lines) at h in cc)
          ]

    -- Once a connection ends without a stop, its cursor covers all its lines and what was before.
    lines_cursor :
        (lines : List RawLine) (cutoff cursor : Cursor) (hub : ConsoleHub)
        → IsLater cutoff cursor
        → (process_lines parse_from_rfc3339 id ticket lines cutoff cursor hub).stopped ≡ false
        → IsLater cursor (process_lines parse_from_rfc3339 id ticket lines cutoff cursor hub).cursor
          × ((text : Text)
              → IdSet.contains text (map (λ (r : RawLine). r.raw_line) lines) ≡ true
              → has_timestamp text ≡ true
              → is_seen
                  (process_lines parse_from_rfc3339 id ticket lines cutoff cursor hub).cursor
                  text
                ≡ true)
    lines_cursor [] cutoff cursor hub later h = (
      unfold process_lines in (λ t l g. g),
      λ text listed. absurd (unfold IdSet.contains in let g = listed in cc),
    )
    lines_cursor (raw ∷ lines) cutoff cursor hub later h =
        let (one_later, one_seen) = line_cursor raw cutoff cursor hub later in
        let (same_cursor, goes_on) = lines_after raw lines cutoff cursor hub h in
        let (cursor', hub', _, _) =
          process_docker_line parse_from_rfc3339 id ticket raw cutoff cursor hub in
        let (rest_later, rest_seen) =
          lines_cursor lines cutoff cursor' hub' (λ t l g. one_later t l (later t l g)) goes_on in
        rw same_cursor (
          (λ t l g. rest_later t l (one_later t l g)),
          λ text listed timed. elim (Bool-cases (same raw.raw_line text)) [
            | inl e ↦
                let eq : raw.raw_line ≡ text = (same_iff raw.raw_line text).0 e in
                rw (← eq)
                  (is_seen-IsLater cursor' _ raw.raw_line rest_later (one_seen (rw eq timed)))
            | inr e ↦ rest_seen text (contains-tail text raw.raw_line _ listed e) timed
          ],
        )

    line_skipped :
        (raw : RawLine) (cutoff cursor : Cursor) (hub : ConsoleHub)
        → is_seen cutoff raw.raw_line ≡ true
        → process_docker_line parse_from_rfc3339 id ticket raw cutoff cursor hub
          ≡ (cursor, hub, none, skipped)
    unfolding process_docker_line
    line_skipped raw cutoff cursor hub h = rw h refl

    skips :
        (again : List RawLine) (seen : Cursor) (hub : ConsoleHub)
        → All (λ (r : RawLine). is_seen seen r.raw_line ≡ true) again
        → process_lines parse_from_rfc3339 id ticket again seen seen hub ≡ record {
          cursor = seen;
          hub = hub;
          sent = [];
          received_new_output = false;
          stopped = false;
        }
    unfolding process_lines
    skips [] seen hub a = refl
    skips (raw ∷ again) seen hub a =
        let skip = line_skipped raw seen seen hub a.0 in
        rw (skip, process_lines, skip) (skips again seen hub a.1)

    All-is_seen :
        (lines again : List RawLine) (c : Cursor) (hub : ConsoleHub)
        → (process_lines parse_from_rfc3339 id ticket lines c c hub).stopped ≡ false
        → All (IsResent lines) again
        → All
            (λ (r : RawLine).
              is_seen (process_lines parse_from_rfc3339 id ticket lines c c hub).cursor r.raw_line
              ≡ true)
            again
    All-is_seen lines [] c hub h a = tt
    All-is_seen lines (r ∷ again) c hub h a =
        let (_, seen) = lines_cursor lines c c hub (λ t l g. g) h in
        (seen r.raw_line a.0.0 a.0.1, All-is_seen lines again c hub h a.1)

    -- A reader that reconnects publishes none of the lines again that it had read from the last
    -- connection: those of them that Docker sends again, in any order and number, are skipped, if
    -- they have a timestamp, and leave the hub and the cursor as they were.
    pub process_lines-replay :
        (lines again : List RawLine) (c : Cursor) (hub later_hub : ConsoleHub)
        → (process_lines parse_from_rfc3339 id ticket lines c c hub).stopped ≡ false
        → All (IsResent lines) again
        → let seen = (process_lines parse_from_rfc3339 id ticket lines c c hub).cursor in
          process_lines parse_from_rfc3339 id ticket again seen seen later_hub ≡ record {
            cursor = seen;
            hub = later_hub;
            sent = [];
            received_new_output = false;
            stopped = false;
          }
    process_lines-replay lines again c hub later_hub h a =
        skips again (process_lines parse_from_rfc3339 id ticket lines c c hub).cursor later_hub
          (All-is_seen lines again c hub h a)
