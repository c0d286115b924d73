-- ===== src/Security/Protection/Windows.antt =====
-- How many lines of a server pass in one window, and how often the server is reported.
use agapornis_agent_rust.Base.Dict
use agapornis_agent_rust.Security.Protection.{
  second, elapsed, ConsoleRate, LineDecision, allow, notify, trip, ProtectionState, LineClock,
  observe_rate, observe_line, judge, forget_strikes, reopen_window, counted, new_rate, or_insert,
}
use agapornis_agent_rust.Base.{
  ℕ, suc, ◌+◌, ◌-◌, ◌≤◌, ◌<◌, min, ◌≡◌, refl, ◌∙◌, ◌≢◌, inl, inr, Bool, true, false, Option, none,
  some, List, [], ◌∷◌, arith, ltb, Bool-cases, length, Text, same_refl, u64_max,
}

-- The lines of one server, each with its readings of the clock.
unfoldable pub observe_all :
    Text → List LineClock → ProtectionState → ProtectionState × List LineDecision
observe_all id [] s = (s, [])
observe_all id (t ∷ ts) s =
    let (s', decision) = observe_line t id s in
    let (s'', decisions) = observe_all id ts s' in (s'', decision ∷ decisions)

-- How many lines are let through, and how many put a notice in their place.
abbrev pub allowed : List LineDecision → ℕ
allowed [] = 0
allowed (allow ∷ ds) = suc (allowed ds)
allowed (_ ∷ ds) = allowed ds

abbrev pub notices : List LineDecision → ℕ
notices [] = 0
notices (notify ∷ ds) = suc (notices ds)
notices (trip ∷ ds) = suc (notices ds)
notices (_ ∷ ds) = notices ds

-- All lines fall in the window that opened at `started`.
abbrev pub WithinSecond : ℕ → List LineClock → Type 0
WithinSecond started [] = Unit
WithinSecond started (t ∷ ts) = (elapsed t.window_test started < second) × WithinSecond started ts

-- What one more line of a window does to the entry of its server.
record Observed (limit : ℕ) (r : ConsoleRate) (r' : ConsoleRate) (d : LineDecision) : Type 0 where
  same_window : r'.started ≡ r.started
  one_more : r'.count ≡ r.count + 1
  passes : r.count < limit → (d ≡ allow) × (r'.exceeded ≡ r.exceeded)
  stops : limit ≤ r.count → (d ≢ allow) × (r'.exceeded ≡ true)
  silent : r.exceeded ≡ true → (d ≢ notify) × (d ≢ trip)

forget_strikes-keeps :
    (now : ℕ) (r : ConsoleRate)
    → ((forget_strikes now r).started ≡ r.started)
      × ((forget_strikes now r).count ≡ r.count)
      × ((forget_strikes now r).exceeded ≡ r.exceeded)
unfolding forget_strikes
forget_strikes-keeps now r = ground arith

reopen_window_idle :
    (t : LineClock) (r : ConsoleRate)
    → elapsed t.window_test r.started < second
    → reopen_window t r ≡ r
unfolding reopen_window
reopen_window_idle t r h = ground arith

reopen_window_new :
    (t : LineClock) (r : ConsoleRate)
    → second ≤ elapsed t.window_test r.started
    → reopen_window t r ≡ record r { started = t.reopened; count = 0; exceeded = false }
unfolding reopen_window
reopen_window_new t r h = ground arith

judge-Observed :
    (s : ProtectionState) (t : LineClock) (r : ConsoleRate)
    → r.count < u64_max
    → Observed s.console_lines_per_second r (judge s t (counted r)).0 (judge s t (counted r)).1
unfolding judge
judge-Observed s t r n = record {
  same_window = ground arith;
  one_more = ground arith;
  passes = ground arith;
  stops = ground arith;
  silent = ground arith;
}

-- `Observed` reads three fields of the entry before the line.
Observed-same :
    (limit : ℕ) (q r r' : ConsoleRate) (d : LineDecision)
    → q.started ≡ r.started
    → q.count ≡ r.count
    → q.exceeded ≡ r.exceeded
    → Observed limit q r' d
    → Observed limit r r' d
Observed-same limit q r r' d a b c o = record {
  same_window = o.same_window ∙ a;
  one_more = omega (arith, o.one_more, b);
  passes = λ h. let (x, y) = o.passes (omega (arith, b)) in (x, y ∙ c);
  stops = λ h. o.stops (omega (arith, b));
  silent = λ h. o.silent (c ∙ h);
}

observe_rate-Observed :
    (s : ProtectionState) (t : LineClock) (r : ConsoleRate)
    → elapsed t.window_test r.started < second
    → r.count < u64_max
    → Observed s.console_lines_per_second r (observe_rate s t r).0 (observe_rate s t r).1
unfolding observe_rate
observe_rate-Observed s t r h n =
    let q = forget_strikes t.strike_test r in
    let (a, b, c) = forget_strikes-keeps t.strike_test r in
    rw (reopen_window_idle t q (rw a h))
      (Observed-same s.console_lines_per_second q r _ _ a b c (judge-Observed s t q (rw b n)))

allowed_ne : (d : LineDecision) (ds : List LineDecision) → d ≢ allow → allowed (d ∷ ds) ≡ allowed ds
allowed_ne allow ds h = absurd (h refl)
allowed_ne _ ds h = refl

notices_le : (d : LineDecision) (ds : List LineDecision) → notices (d ∷ ds) ≤ notices ds + 1
notices_le notify ds = omega arith
notices_le _ ds = omega arith

notices_silent :
    (d : LineDecision) (ds : List LineDecision)
    → d ≢ notify
    → d ≢ trip
    → notices (d ∷ ds) ≡ notices ds
notices_silent notify ds h g = absurd (h refl)
notices_silent trip ds h g = absurd (g refl)
notices_silent _ ds h g = refl

abbrev noticed : Bool → ℕ
noticed true = 1
noticed false = 0

observe_line_listed :
    (t : LineClock) (id : Text) (s : ProtectionState) (r : ConsoleRate)
    → Dict.get id s.console ≡ some r
    → observe_line t id s ≡ (
      record s { console = Dict.insert id (observe_rate s t r).0 s.console },
      (observe_rate s t r).1,
    )
unfolding observe_line
observe_line_listed t id s r e = rw e refl

-- The counts of one window, from any entry on.
record Counts (limit : ℕ) (r : ConsoleRate) (n : ℕ) (ds : List LineDecision) : Type 0 where
  lines : allowed ds ≡ min (limit - r.count) n
  reports : notices ds + noticed r.exceeded ≤ 1

Counts-cons :
    (limit : ℕ) (r r' : ConsoleRate) (n : ℕ) (d : LineDecision) (ds : List LineDecision)
    → Observed limit r r' d
    → Counts limit r' n ds
    → Counts limit r (suc n) (d ∷ ds)
Counts-cons limit r r' n d ds o c = elim (Bool-cases (ltb r.count limit)) [
  | inl room ↦
      let (passed, kept) = o.passes (ground arith) in
      rw passed (record {
        lines = omega (arith, c.lines, o.one_more, (let h : r.count < limit = ground arith in h));
        reports = rw (← kept) c.reports;
      })
  | inr full ↦
      let h : limit ≤ r.count = ground arith in
      let (stopped, marked) = o.stops h in
      let k = rw marked at c.reports in
      record {
        lines = allowed_ne d ds stopped ∙ omega (arith, c.lines, o.one_more, h);
        reports = elim (Bool-cases r.exceeded) [
          | inl e ↦ let (a, b) = o.silent e in rw (e, notices_silent d ds a b) k
          | inr e ↦ rw e (omega (arith, notices_le d ds, k))
        ];
      }
]

observe_all-Counts :
    (id : Text) (ts : List LineClock) (s : ProtectionState) (r : ConsoleRate)
    → Dict.get id s.console ≡ some r
    → WithinSecond r.started ts
    → r.count + length ts ≤ u64_max
    → Counts s.console_lines_per_second r (length ts) (observe_all id ts s).1
unfolding observe_all
observe_all-Counts id [] s r e w n = record {
  lines = omega arith;
  reports = elim (Bool-cases r.exceeded) [
    | inl h ↦ rw h (omega arith)
    | inr h ↦ rw h (omega arith)
  ];
}
observe_all-Counts id (t ∷ ts) s r e w n =
    let o = observe_rate-Observed s t r w.0 (omega (arith, n)) in
    let r' = (observe_rate s t r).0 in
    rw (observe_line_listed t id s r e) (
      Counts-cons s.console_lines_per_second r r' (length ts) (observe_rate s t r).1 _ o (
        observe_all-Counts id ts (record s { console = Dict.insert id r' s.console }) r'
          (rw (Dict.get-insert, same_refl) refl) (rw o.same_window w.1)
          (omega (arith, o.one_more, n))))

-- Line `t` opens a window: the server has no entry, or its window is over.
abbrev pub Opens : LineClock → Option ConsoleRate → Type 0
Opens t none = elapsed t.window_test t.inserted < second
Opens t (some r) = second ≤ elapsed t.window_test r.started

-- When that window opens.
abbrev pub opened : LineClock → Option ConsoleRate → ℕ
opened t none = t.inserted
opened t (some r) = t.reopened

opening-Observed :
    (s : ProtectionState) (t : LineClock) (entry : Option ConsoleRate)
    → Opens t entry
    → Observed s.console_lines_per_second
        (new_rate (opened t entry))
        (observe_rate s t (or_insert entry (new_rate t.inserted))).0
        (observe_rate s t (or_insert entry (new_rate t.inserted))).1
opening-Observed s t none h = observe_rate-Observed s t (new_rate t.inserted) h (omega arith)
opening-Observed s t (some r) h =
    unfold observe_rate in
    let q = forget_strikes t.strike_test r in
    let (a, b, c) = forget_strikes-keeps t.strike_test r in
    let fresh : ConsoleRate = record q { started = t.reopened; count = 0; exceeded = false } in
    rw (reopen_window_new t q (rw a h)) (
      Observed-same s.console_lines_per_second fresh (new_rate t.reopened) _ _ refl refl refl
        (judge-Observed s t fresh (omega arith)))

-- When a line opens a window, as the first of its server or a second or more after the last
-- window opened, and `ts` are the lines of that window, which are fewer than 2^64: exactly as
-- many lines pass as the limit on lines per second, or all if there are fewer, and at most one of
-- the others is replaced by a notice.
pub window_exact :
    (id : Text) (t : LineClock) (ts : List LineClock) (s : ProtectionState)
    → Opens t (Dict.get id s.console)
    → WithinSecond (opened t (Dict.get id s.console)) ts
    → suc (length ts) ≤ u64_max
    → (allowed (observe_all id (t ∷ ts) s).1 ≡ min s.console_lines_per_second (suc (length ts)))
      × (notices (observe_all id (t ∷ ts) s).1 ≤ 1)
unfolding observe_all
window_exact id t ts s o w n =
    let entry = Dict.get id s.console in
    let r = new_rate (opened t entry) in
    let first = observe_rate s t (or_insert entry (new_rate t.inserted)) in
    let seen = opening-Observed s t entry o in
    let c = Counts-cons s.console_lines_per_second r first.0 (length ts) first.1 _ seen (
      observe_all-Counts id ts (record s { console = Dict.insert id first.0 s.console }) first.0
        (rw (Dict.get-insert, same_refl) refl) (rw seen.same_window w)
        (omega (arith, seen.one_more, n))) in
    unfold observe_line in (c.lines ∙ omega arith, omega (arith, c.reports))
