-- ===== src/Security/Protection/Marks.antt =====
-- Marks on servers, recovery, and which servers a call is about.
use agapornis_agent_rust.Base.Dict
use agapornis_agent_rust.Security.Protection.{
  second, ProtectionState, LineClock, CommandClock, observe_line, accept_command, status, mark,
  disk_limit_exceeded, is_some_and, clear_disk, manual_recovery, in_manual_recovery, remove,
}
use agapornis_agent_rust.Base.{
  ℕ, ◌+◌, ◌*◌, ◌≡◌, refl, inl, inr, true, false, none, some, ltb, if◌then◌else◌, Bool-cases,
  Option-cases, Text, same,
}

-- What the state holds of one server.
abbrev pub SameFor : Text → ProtectionState → ProtectionState → Type 0
SameFor j s s' =
    (Dict.get j s'.commands ≡ Dict.get j s.commands)
    × (Dict.get j s'.console ≡ Dict.get j s.console)
    × (Dict.get j s'.statuses ≡ Dict.get j s.statuses)
    × (Dict.get j s'.recovery ≡ Dict.get j s.recovery)

-- The calls on the state.
pub data Call : Type 0 where
  observes : LineClock → Call
  accepts : CommandClock → Call
  marks : Text → Call
  clears_disk : Call
  recovers : ℕ → Call
  asks_recovery : ℕ → Call
  removes : Call

abbrev pub after : Call → Text → ProtectionState → ProtectionState
after (observes t) id s = (observe_line t id s).0
after (accepts t) id s = (accept_command t id s).0
after (marks value) id s = mark id value s
after clears_disk id s = clear_disk id s
after (recovers now) id s = manual_recovery now id s
after (asks_recovery now) id s = (in_manual_recovery now id s).0
after removes id s = remove id s

-- No call for one server changes what is held of another.
pub after-SameFor :
    (call : Call) (id j : Text) (s : ProtectionState)
    → same id j ≡ false
    → SameFor j s (after call id s)
unfolding observe_line accept_command mark clear_disk manual_recovery in_manual_recovery remove
after-SameFor (observes t) id j s h = (refl, rw (Dict.get-insert, h) refl, refl, refl)
after-SameFor (accepts t) id j s h = (rw (Dict.get-insert, h) refl, refl, refl, refl)
after-SameFor (marks value) id j s h = (refl, refl, rw (Dict.get-insert, h) refl, refl)
after-SameFor clears_disk id j s h =
    elim (Bool-cases (is_some_and (λ v. same v disk_limit_exceeded) (Dict.get id s.statuses))) [
      | inl e ↦ rw e (refl, refl, rw (Dict.get-remove, h) refl, refl)
      | inr e ↦ rw e (refl, refl, refl, refl)
    ]
after-SameFor (recovers now) id j s h =
    (refl, refl, rw (Dict.get-remove, h) refl, rw (Dict.get-insert, h) refl)
after-SameFor (asks_recovery now) id j s h = elim (Option-cases (Dict.get id s.recovery)) [
  | inl e ↦ rw (e, after, in_manual_recovery) (refl, refl, refl, refl)
  | inr (until, e) ↦
      rw (e, after, in_manual_recovery)
        (elim (Bool-cases (ltb now until)) [
          | inl b ↦ rw b (refl, refl, refl, refl)
          | inr b ↦ rw b (refl, refl, refl, rw (Dict.get-remove, h) refl)
        ])
]
after-SameFor removes id j s h = (
  rw (Dict.get-remove, h) refl,
  rw (Dict.get-remove, h) refl,
  rw (Dict.get-remove, h) refl,
  rw (Dict.get-remove, h) refl,
)

in_manual_recovery_listed :
    (now until : ℕ) (id : Text) (s : ProtectionState)
    → Dict.get id s.recovery ≡ some until
    → in_manual_recovery now id s ≡ (
        if ltb now until
        then (s, true)
        else (record s { recovery = Dict.remove id s.recovery }, false))
unfolding in_manual_recovery
in_manual_recovery_listed now until id s e = rw (e, in_manual_recovery) refl

-- A manual recovery clears the status and lasts 120 seconds: a server asked about later is in
-- recovery exactly until then, and once it is not, its entry is gone.
pub in_manual_recovery-lasts :
    (start now : ℕ) (id : Text) (s : ProtectionState)
    → (status id (manual_recovery start id s) ≡ none)
      × ((in_manual_recovery now id (manual_recovery start id s)).1
          ≡ ltb now (start + 120 * second))
      × (Dict.get id (in_manual_recovery now id (manual_recovery start id s)).0.recovery
          ≡ (if ltb now (start + 120 * second) then some (start + 120 * second) else none))
unfolding status manual_recovery
in_manual_recovery-lasts start now id s =
    let until = start + 120 * second in
    let marked = manual_recovery start id s in
    let listed =
      in_manual_recovery_listed now until id marked (Dict.get-insert_self id until s.recovery) in
    rw listed (elim (Bool-cases (ltb now until)) [
      | inl b ↦
          rw b (Dict.get-remove_self id s.statuses, refl, Dict.get-insert_self id until s.recovery)
      | inr b ↦
          rw b (Dict.get-remove_self id s.statuses, refl, Dict.get-remove_self id marked.recovery)
    ])

-- The mark of an exceeded disk limit is cleared, and no other status is touched by that.
pub clear_disk-status :
    (id : Text) (s : ProtectionState)
    → status id (clear_disk id s)
      ≡ (if is_some_and (λ v. same v disk_limit_exceeded) (status id s) then none else status id s)
unfolding status clear_disk
clear_disk-status id s =
    elim (Bool-cases (is_some_and (λ v. same v disk_limit_exceeded) (Dict.get id s.statuses))) [
      | inl e ↦ rw e (Dict.get-remove_self id s.statuses)
      | inr e ↦ rw e refl
    ]
