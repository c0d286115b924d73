-- ===== src/Base/NatSet.antt =====
-- `HashSet<u16>` as the list of its members in iteration order.
use Prim.Native.Nat.{ℕ}
use mathlib.Core.Path.{◌≡◌}
use mathlib.Core.Bool.{Bool, false, not, ◌&&◌, ◌||◌}
use mathlib.Core.List.{List, [], ◌∷◌}
use native.Mathlib.Omega.{arith}
use agapornis_agent_rust.Base.Tests.{◌==◌, if◌then◌else◌}

abbrev pub NatSet : Type 0
NatSet = List ℕ

unfoldable pub contains : ℕ → NatSet → Bool
contains k [] = false
contains k (j ∷ s) = j == k || contains k s

unfoldable pub insert : ℕ → NatSet → NatSet
unfolding contains
insert k s = if contains k s then s else k ∷ s

unfoldable pub remove : ℕ → NatSet → NatSet
remove k [] = []
remove k (j ∷ s) = let rest = remove k s in if j == k then rest else j ∷ rest

-- No member is listed twice.
abbrev pub IsNatSet : NatSet → Type 0
IsNatSet [] = Unit
IsNatSet (k ∷ s) = (contains k s ≡ false) × IsNatSet s

pub contains-insert : (k j : ℕ) (s : NatSet) → contains j (insert k s) ≡ (k == j || contains j s)
unfolding insert contains
contains-insert k j s = ground arith

pub contains-remove :
    (k j : ℕ) (s : NatSet) → contains j (remove k s) ≡ (not (k == j) && contains j s)
unfolding contains remove
contains-remove k j [] = ground arith
contains-remove k j (i ∷ s) = ground (arith, contains-remove k j s)

pub remove-IsNatSet : (k : ℕ) (s : NatSet) → IsNatSet s → IsNatSet (remove k s)
unfolding remove
remove-IsNatSet k [] d = tt
remove-IsNatSet k (i ∷ s) d = ground (arith, contains-remove k i s, remove-IsNatSet k s d.1)
