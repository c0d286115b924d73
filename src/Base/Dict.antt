-- ===== src/Base/Dict.antt =====
-- `HashMap<String, V>` as the list of its entries in iteration order, which the source leaves open.
use mathlib.Core.Path.{◌≡◌, refl, subst}
use mathlib.Core.Logic.{inl, inr}
use mathlib.Core.Bool.{Bool, true, false, not, ◌&&◌, ◌||◌}
use mathlib.Core.List.{List, [], ◌∷◌}
use mathlib.Core.Option.{Option, none, some}
use native.Mathlib.Omega.{arith}
use Prim.Native.Nat.{suc}
use agapornis_agent_rust.Base.Lists.{length}
use agapornis_agent_rust.Base.Tests.{if◌then◌else◌, Bool-cases}
use agapornis_agent_rust.Base.Texts.{Text, same, same_iff, same_refl}

abbrev pub Dict {ℓ} : Type ℓ → Type ℓ
Dict V = List (Text × V)

module _ {ℓ} {V : Type ℓ} where
  unfoldable pub get : Text → Dict V → Option V
  get k [] = none
  get k ((j, v) ∷ m) = if same j k then some v else get k m

  unfoldable pub insert : Text → V → Dict V → Dict V
  insert k v [] = (k, v) ∷ []
  insert k v ((j, w) ∷ m) = if same j k then (k, v) ∷ m else (j, w) ∷ insert k v m

  unfoldable pub remove : Text → Dict V → Dict V
  remove k [] = []
  remove k ((j, w) ∷ m) = let rest = remove k m in if same j k then rest else (j, w) ∷ rest

  unfoldable pub contains_key : Text → Dict V → Bool
  contains_key k [] = false
  contains_key k ((j, w) ∷ m) = same j k || contains_key k m

  -- No key is listed twice.
  abbrev pub IsDict : Dict V → Type 0
  IsDict [] = Unit
  IsDict ((j, w) ∷ m) = (contains_key j m ≡ false) × IsDict m

  pub get-insert :
      (k j : Text) (v : V) (m : Dict V)
      → get j (insert k v m) ≡ (if same k j then some v else get j m)
  unfolding get insert
  get-insert k j v [] = refl
  get-insert k j v ((i, w) ∷ m) =
      ground (arith, same_iff k j, same_iff i k, same_iff i j, get-insert k j v m)

  pub get-remove :
      (k j : Text) (m : Dict V) → get j (remove k m) ≡ (if same k j then none else get j m)
  unfolding get remove
  get-remove k j [] = ground arith
  get-remove k j ((i, w) ∷ m) =
      ground (arith, same_iff k j, same_iff i k, same_iff i j, get-remove k j m)

  pub get-insert_self : (k : Text) (v : V) (m : Dict V) → get k (insert k v m) ≡ some v
  get-insert_self k v m = rw (get-insert, same_refl) refl

  pub get-remove_self : (k : Text) (m : Dict V) → get k (remove k m) ≡ none
  get-remove_self k m = rw (get-remove, same_refl) refl

  pub contains_key-insert :
      (k j : Text) (v : V) (m : Dict V)
      → contains_key j (insert k v m) ≡ (same k j || contains_key j m)
  unfolding contains_key insert
  contains_key-insert k j v [] = ground arith
  contains_key-insert k j v ((i, w) ∷ m) =
      ground (arith, same_iff k j, same_iff i k, same_iff i j, contains_key-insert k j v m)

  pub contains_key-remove :
      (k j : Text) (m : Dict V) → contains_key j (remove k m) ≡ (not (same k j) && contains_key j m)
  unfolding contains_key remove
  contains_key-remove k j [] = ground arith
  contains_key-remove k j ((i, w) ∷ m) =
      ground (arith, same_iff k j, same_iff i k, same_iff i j, contains_key-remove k j m)

  pub insert-IsDict : (k : Text) (v : V) (m : Dict V) → IsDict m → IsDict (insert k v m)
  unfolding insert contains_key
  insert-IsDict k v [] d = (refl, tt)
  insert-IsDict k v ((i, w) ∷ m) d =
      ground (arith, same_iff i k, same_iff k i, contains_key-insert k i v m, insert-IsDict k v m)

  pub remove-IsDict : (k : Text) (m : Dict V) → IsDict m → IsDict (remove k m)
  unfolding remove contains_key
  remove-IsDict k [] d = tt
  remove-IsDict k ((i, w) ∷ m) d = ground (arith, contains_key-remove k i m, remove-IsDict k m)

  pub contains_key_of_get :
      (k : Text) (m : Dict V) {v : V} → get k m ≡ some v → contains_key k m ≡ true
  unfolding get contains_key
  contains_key_of_get k [] h = cc
  contains_key_of_get k ((i, w) ∷ m) {v} h = ground (arith, contains_key_of_get k m {v = v})

  pub get_of_contains_key :
      (k : Text) (m : Dict V) → contains_key k m ≡ true → (v : V) × (get k m ≡ some v)
  unfolding get contains_key
  get_of_contains_key k [] h = absurd (ground arith)
  get_of_contains_key k ((i, w) ∷ m) h = elim (Bool-cases (same i k)) [
    | inl e ↦ (w, rw e)
    | inr e ↦ let (v, g) = get_of_contains_key k m (ground arith) in (v, rw e g)
  ]

  pub absent_of_get : (k : Text) (m : Dict V) → get k m ≡ none → contains_key k m ≡ false
  unfolding get contains_key
  absent_of_get k [] h = refl
  absent_of_get k ((i, w) ∷ m) h = ground (arith, absent_of_get k m)

  pub remove_absent : (k : Text) (m : Dict V) → contains_key k m ≡ false → remove k m ≡ m
  unfolding remove contains_key
  remove_absent k [] h = refl
  remove_absent k ((i, w) ∷ m) h = ground (arith, remove_absent k m)

  pub length-remove :
      (k : Text) (m : Dict V)
      → IsDict m
      → contains_key k m ≡ true
      → suc (length (remove k m)) ≡ length m
  unfolding remove contains_key
  length-remove k [] d h = cc
  length-remove k ((i, w) ∷ m) d h =
      ground (arith, same_iff i k, remove_absent k m, length-remove k m)

-- Every value of the map has the property.
abbrev pub AllValues {ℓ κ} : {V : Type ℓ} → (V → Type κ) → Dict V → Type κ
AllValues P [] = Unit
AllValues P ((k, v) ∷ m) = P v × AllValues P m

module _ {ℓ κ} {V : Type ℓ} (P : V → Type κ) where
  pub AllValues-insert :
      (k : Text) (v : V) (m : Dict V) → P v → AllValues P m → AllValues P (insert k v m)
  unfolding insert
  AllValues-insert k v [] p a = (p, tt)
  AllValues-insert k v ((i, w) ∷ m) p a = elim (Bool-cases (same i k)) [
    | inl e ↦ rw e (p, a.1)
    | inr e ↦ rw e (a.0, AllValues-insert k v m p a.1)
  ]

  pub AllValues-remove : (k : Text) (m : Dict V) → AllValues P m → AllValues P (remove k m)
  unfolding remove
  AllValues-remove k [] a = tt
  AllValues-remove k ((i, w) ∷ m) a = elim (Bool-cases (same i k)) [
    | inl e ↦ rw e (AllValues-remove k m a.1)
    | inr e ↦ rw e (a.0, AllValues-remove k m a.1)
  ]

  pub AllValues-get : (k : Text) (m : Dict V) {v : V} → AllValues P m → get k m ≡ some v → P v
  unfolding get
  AllValues-get k [] a h = absurd (ground arith)
  AllValues-get k ((i, w) ∷ m) a h = elim (Bool-cases (same i k)) [
    | inl e ↦ subst P (ground arith) a.0
    | inr e ↦ AllValues-get k m a.1 (ground arith)
  ]
