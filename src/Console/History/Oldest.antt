-- ===== src/Console/History/Oldest.antt =====
-- `min_by_key` in `evict_to_budget`: the server that was used least recently.
use agapornis_agent_rust.Base.Dict
use agapornis_agent_rust.Base.Dict.{Dict, IsDict, AllValues}
use agapornis_agent_rust.Console.History.{ConsoleHistory, older, oldest}
use agapornis_agent_rust.Base.{
  ℕ, ◌≤◌, ◌≡◌, refl, ◌⊎◌, inl, inr, true, false, none, some, [], ◌∷◌, arith, leb, Bool-cases,
  Option-cases, length, Text, same, same_iff, same_refl,
}

-- Every server but the protected one that is still there was used no earlier than at `a`.
abbrev pub NoneOlder : Text → ℕ → Dict ConsoleHistory → Type 0
NoneOlder p a m =
    (j : Text) (h : ConsoleHistory) → Dict.get j m ≡ some h → same j p ≡ false → a ≤ h.last_access

pub oldest-none : (p : Text) (m : Dict ConsoleHistory) → oldest p m ≡ none → IsDict m → length m ≤ 1
unfolding oldest Dict.contains_key
oldest-none p [] e d = omega arith
oldest-none p ((i, h) ∷ []) e d = omega arith
oldest-none p ((i, h) ∷ (j, k) ∷ m) e d =
    absurd (ground (arith, same_iff i p, same_iff j p, same_iff j i))

-- What `oldest` finds is listed, is not the protected server, and was used first.
pub record IsOldest (p : Text) (m : Dict ConsoleHistory) (id : Text) (a : ℕ) : Type 0 where
  pub history : ConsoleHistory
  pub listed : Dict.get id m ≡ some history
  pub access : history.last_access ≡ a
  pub other : same id p ≡ false
  pub least : NoneOlder p a m

NoneOlder-cons :
    (p : Text) (a : ℕ) (i : Text) (w : ConsoleHistory) (m : Dict ConsoleHistory)
    → (same i p ≡ true) ⊎ (a ≤ w.last_access)
    → NoneOlder p a m
    → NoneOlder p a ((i, w) ∷ m)
unfolding Dict.get
NoneOlder-cons p a i w m c r j h g other = elim (Bool-cases (same i j)) [
  | inl e ↦ ground (arith, same_iff i j)
  | inr e ↦ r j h (ground arith) other
]

NoneOlder-of_none :
    (p : Text) (a : ℕ) (m : Dict ConsoleHistory) → oldest p m ≡ none → NoneOlder p a m
unfolding oldest Dict.get
NoneOlder-of_none p a [] e j h g other = absurd (ground arith)
NoneOlder-of_none p a ((i, w) ∷ m) e j h g other =
    NoneOlder-cons p a i w m (inl (ground arith)) (NoneOlder-of_none p a m (ground arith)) j h g
      other

-- The first entry is passed over, or is the one that is found.
IsOldest-tail :
    (p : Text) (i : Text) (w : ConsoleHistory) (m : Dict ConsoleHistory) {id : Text} {a : ℕ}
    → Dict.contains_key i m ≡ false
    → (same i p ≡ true) ⊎ (a ≤ w.last_access)
    → IsOldest p m id a
    → IsOldest p ((i, w) ∷ m) id a
unfolding Dict.get
IsOldest-tail p i w m {id} {a} d c r = record {
  history = r.history;
  listed = ground (arith, same_iff i id, r.listed, Dict.contains_key_of_get id m r.listed);
  access = r.access;
  other = r.other;
  least = NoneOlder-cons p a i w m c r.least;
}

IsOldest-head :
    (p : Text) (i : Text) (w : ConsoleHistory) (m : Dict ConsoleHistory)
    → same i p ≡ false
    → NoneOlder p w.last_access m
    → IsOldest p ((i, w) ∷ m) i w.last_access
unfolding Dict.get
IsOldest-head p i w m other r = record {
  history = w;
  listed = rw same_refl;
  access = refl;
  other = other;
  least = NoneOlder-cons p w.last_access i w m (inr (omega arith)) r;
}

NoneOlder-mono :
    (p : Text) (a b : ℕ) (m : Dict ConsoleHistory) → a ≤ b → NoneOlder p b m → NoneOlder p a m
NoneOlder-mono p a b m le r j h g other = omega (arith, r j h g other)

-- The first entry, not protected, against what is found in the rest.
older-IsOldest :
    (p : Text) (i : Text) (w : ConsoleHistory) (m : Dict ConsoleHistory) (j : Text) (b : ℕ)
    {id : Text} {a : ℕ}
    → Dict.contains_key i m ≡ false
    → same i p ≡ false
    → IsOldest p m j b
    → older (i, w.last_access) (some (j, b)) ≡ some (id, a)
    → IsOldest p ((i, w) ∷ m) id a
older-IsOldest p i w m j b {id} {a} d other r e = elim (Bool-cases (leb w.last_access b)) [
  | inl le ↦
      let ei : id ≡ i = ground arith in
      let ea : a ≡ w.last_access = ground arith in
      rw (ei, ea) (IsOldest-head p i w m other (NoneOlder-mono p _ b m (ground arith) r.least))
  | inr gt ↦
      let ei : id ≡ j = ground arith in
      let ea : a ≡ b = ground arith in rw (ei, ea) (IsOldest-tail p i w m d (inr (ground arith)) r)
]

pub oldest-IsOldest :
    (p : Text) (m : Dict ConsoleHistory)
    → IsDict m
    → (id : Text) (a : ℕ) → oldest p m ≡ some (id, a)
    → IsOldest p m id a
unfolding oldest
oldest-IsOldest p [] d id a e = absurd (ground arith)
oldest-IsOldest p ((i, w) ∷ m) d id a e = elim (Bool-cases (same i p)) [
  | inl this ↦ IsOldest-tail p i w m d.0 (inl this) (oldest-IsOldest p m d.1 id a (ground arith))
  | inr other ↦ elim (Option-cases (oldest p m)) [
    | inl last ↦
        let ei : id ≡ i = ground arith in
        let ea : a ≡ w.last_access = ground arith in
        rw (ei, ea) (IsOldest-head p i w m other (NoneOlder-of_none p _ m last))
    | inr ((j, b), found) ↦
        older-IsOldest p i w m j b d.0 other (oldest-IsOldest p m d.1 j b found) (ground arith)
  ]
]
