-- ===== src/Base/IdSet.antt =====
-- `HashSet<String>` as the list of its members in iteration order.
use mathlib.Core.Path.{◌≡◌}
use mathlib.Core.Bool.{Bool, false, not, ◌&&◌, ◌||◌}
use mathlib.Core.List.{List, [], ◌∷◌}
use native.Mathlib.Omega.{arith}
use agapornis_agent_rust.Base.Tests.{if◌then◌else◌}
use agapornis_agent_rust.Base.Texts.{Text, same, same_iff}

abbrev pub IdSet : Type 0
IdSet = List Text

unfoldable pub contains : Text → IdSet → Bool
contains k [] = false
contains k (j ∷ s) = same j k || contains k s

unfoldable pub insert : Text → IdSet → IdSet
unfolding contains
insert k s = if contains k s then s else k ∷ s

unfoldable pub remove : Text → IdSet → IdSet
remove k [] = []
remove k (j ∷ s) = let rest = remove k s in if same j k then rest else j ∷ rest

-- `a.extend(b)`
unfoldable pub extend : IdSet → IdSet → IdSet
extend s [] = s
extend s (k ∷ ks) = extend (insert k s) ks

-- `for id in b { a.remove(&id) }`
unfoldable pub remove_all : IdSet → IdSet → IdSet
remove_all s [] = s
remove_all s (k ∷ ks) = remove_all (remove k s) ks

-- `a.difference(b)`
unfoldable pub difference : IdSet → IdSet → IdSet
difference [] b = []
difference (k ∷ s) b = let rest = difference s b in if contains k b then rest else k ∷ rest

-- No member is listed twice.
abbrev pub IsIdSet : IdSet → Type 0
IsIdSet [] = Unit
IsIdSet (k ∷ s) = (contains k s ≡ false) × IsIdSet s

pub contains-insert :
    (k j : Text) (s : IdSet) → contains j (insert k s) ≡ (same k j || contains j s)
unfolding insert
contains-insert k j s = ground (arith, same_iff k j)

pub contains-remove :
    (k j : Text) (s : IdSet) → contains j (remove k s) ≡ (not (same k j) && contains j s)
unfolding contains remove
contains-remove k j [] = ground arith
contains-remove k j (i ∷ s) =
    ground (arith, same_iff k j, same_iff i k, same_iff i j, contains-remove k j s)

pub contains-extend :
    (s ks : IdSet) (j : Text) → contains j (extend s ks) ≡ (contains j s || contains j ks)
unfolding contains extend
contains-extend s [] j = ground arith
contains-extend s (k ∷ ks) j =
    ground (arith, contains-extend (insert k s) ks j, contains-insert k j s)

pub contains-remove_all :
    (s ks : IdSet) (j : Text) → contains j (remove_all s ks) ≡ (not (contains j ks) && contains j s)
unfolding contains remove_all
contains-remove_all s [] j = ground arith
contains-remove_all s (k ∷ ks) j =
    ground (arith, contains-remove_all (remove k s) ks j, contains-remove k j s)

pub contains-difference :
    (s b : IdSet) (j : Text) → contains j (difference s b) ≡ (contains j s && not (contains j b))
unfolding contains difference
contains-difference [] b j = ground arith
contains-difference (k ∷ s) b j = ground (arith, contains-difference s b j, same_iff k j)

pub insert-IsIdSet : (k : Text) (s : IdSet) → IsIdSet s → IsIdSet (insert k s)
unfolding insert
insert-IsIdSet k s d = ground arith

pub remove-IsIdSet : (k : Text) (s : IdSet) → IsIdSet s → IsIdSet (remove k s)
unfolding contains remove
remove-IsIdSet k [] d = tt
remove-IsIdSet k (i ∷ s) d = ground (arith, contains-remove k i s, remove-IsIdSet k s)

pub extend-IsIdSet : (s ks : IdSet) → IsIdSet s → IsIdSet (extend s ks)
unfolding extend
extend-IsIdSet s [] d = d
extend-IsIdSet s (k ∷ ks) d = extend-IsIdSet (insert k s) ks (insert-IsIdSet k s d)

pub remove_all-IsIdSet : (s ks : IdSet) → IsIdSet s → IsIdSet (remove_all s ks)
unfolding remove_all
remove_all-IsIdSet s [] d = d
remove_all-IsIdSet s (k ∷ ks) d = remove_all-IsIdSet (remove k s) ks (remove-IsIdSet k s d)
