-- ===== src/Runtime/Inspection/Startup.antt =====
-- Which parts of the log the checks of a start read.
use agapornis_agent_rust.Base.Str
use agapornis_agent_rust.Base.Dict
use agapornis_agent_rust.Base.IdSet
use agapornis_agent_rust.Security.Protection.{elapsed, second}
use agapornis_agent_rust.Runtime.Inspection.{
  StartupState, StartupCheck, answered, reads_from, begin_startup_check, end_startup_check,
}
use agapornis_agent_rust.Base.{
  ℕ, ◌*◌, ◌≤◌, ◌≡◌, refl, inl, inr, false, Option, none, some, List, [], ◌∷◌, arith, ltb,
  Bool-cases, Option-cases, Text,
}

-- One check, by the clock and in the seconds of the log.
pub record Look : Type 0 where
  pub now : ℕ
  pub noted : ℕ
  pub timestamp : ℕ
  pub started : ℕ

-- A check that reads the log, and from when on.
pub record Window : Type 0 where
  pub from_time : ℕ
  pub look : Look

abbrev pub noted_window : StartupCheck → Look → List Window → List Window
noted_window (answered b) l windows = windows
noted_window (reads_from since) l windows = record { from_time = since; look = l } ∷ windows

-- Checks that do not find the marker, whether its line has not come yet or the log fails.
unfoldable pub look_all : Text → Text → List Look → StartupState → List Window
look_all marker id [] s = []
look_all marker id (l ∷ looks) s =
    let (after, check) = begin_startup_check l.now l.noted l.timestamp l.started marker id s in
    noted_window check l (look_all marker id looks (end_startup_check false id after))

-- Each window begins where the check before it was noted, five seconds ago or more.
abbrev pub AreChained : Option (ℕ × ℕ) → List Window → Type 0
AreChained last [] = Unit
AreChained none (w ∷ windows) = AreChained (some (w.look.noted, w.look.timestamp)) windows
AreChained (some (time, timestamp)) (w ∷ windows) =
    (w.from_time ≡ timestamp)
    × (5 * second ≤ elapsed w.look.now time)
    × AreChained (some (w.look.noted, w.look.timestamp)) windows

not_before : (a b : ℕ) → ltb a b ≡ false → b ≤ a
not_before a b h = ground arith

-- As long as the marker of a start is not found, each check that reads the log reads it from the
-- time noted by the check before it that did, and comes five seconds after that or more. So the checks leave
-- no part out, and a part that one of them failed to read is not read again.
pub look_all-AreChained :
    (marker id : Text) (looks : List Look) (s : StartupState)
    → Str.is_empty marker ≡ false
    → IdSet.contains id s.startup_ready ≡ false
    → AreChained (Dict.get id s.startup_checks) (look_all marker id looks s)
unfolding look_all begin_startup_check end_startup_check
look_all-AreChained marker id [] s m r = tt
look_all-AreChained marker id (l ∷ looks) s m r =
    let after : StartupState = record s {
      startup_checks = Dict.insert id (l.noted, l.timestamp) s.startup_checks;
    } in
    let rest =
      rw (Dict.get-insert_self id (l.noted, l.timestamp) s.startup_checks) at
        (look_all-AreChained marker id looks after m r) in
    rw (m, r)
      (elim (Option-cases (Dict.get id s.startup_checks)) [
        | inl e ↦ rw e rest
        | inr ((last, since), e) ↦ rw e (elim (Bool-cases (ltb (elapsed l.now last) (5 * second))) [
          | inl early ↦ rw early (rw e at (look_all-AreChained marker id looks s m r))
          | inr late ↦ rw late (refl, not_before (elapsed l.now last) (5 * second) late, rest)
        ])
      ])
