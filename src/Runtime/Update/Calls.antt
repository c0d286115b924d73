-- ===== src/Runtime/Update/Calls.antt =====
-- The files that src/runtime/update.rs touches, by the calls of `std::fs` and `tokio::fs` that it
-- makes. Each call meets a fate: it goes well, or it fails and may leave a torn file, or the
-- process has died, once no fate is left.
use agapornis_agent_rust.Base.Dict
use agapornis_agent_rust.Base.Dict.{Dict}
use mathlib.Core.Option.{map as map_option}
use agapornis_agent_rust.Base.{
  ◌≡◌, refl, Bool, true, false, Option, none, some, List, [], ◌∷◌, ◌++◌, if◌then◌else◌, is_some,
  Text, same,
}

-- The executable, a file of the staging directory beside it, or one that is elsewhere.
pub data Place : Type 0 where
  exe : Place
  staged elsewhere : Text → Place

pub record Files : Type 0 where
  pub executable : Option Text
  pub staging : Dict Text
  pub others : Dict Text

pub data Fate : Type 0 where
  goes_well : Fate
  fails : Option Text → Fate  -- with what a write leaves of its target, if it touched it

pub record Outcome (A : Type 0) : Type 0 where
  pub result : Option A
  pub files : Files
  pub fates : List Fate

abbrev pub File : Type 0 → Type 0
File A = Files → List Fate → Outcome A

abbrev pub same_place : Place → Place → Bool
same_place exe exe = true
same_place (staged n) (staged m) = same n m
same_place (elsewhere n) (elsewhere m) = same n m
same_place _ _ = false

unfoldable pub find : Place → Files → Option Text
find exe f = f.executable
find (staged n) f = Dict.get n f.staging
find (elsewhere n) f = Dict.get n f.others

unfoldable pub put : Place → Text → Files → Files
put exe b f = record f { executable = some b }
put (staged n) b f = record f { staging = Dict.insert n b f.staging }
put (elsewhere n) b f = record f { others = Dict.insert n b f.others }

unfoldable pub delete : Place → Files → Files
delete exe f = record f { executable = none }
delete (staged n) f = record f { staging = Dict.remove n f.staging }
delete (elsewhere n) f = record f { others = Dict.remove n f.others }

module _ {A : Type 0} where
  abbrev pub give : A → File A
  give a f fates = record { result = some a; files = f; fates = fates }

  abbrev pub give_up : File A
  give_up f fates = record { result = none; files = f; fates = fates }

unfoldable pub next : {A B : Type 0} → (A → File B) → Outcome A → Outcome B
next k o = elim o.result [
  | none ↦ record { result = none; files = o.files; fates = o.fates }
  | some a ↦ k a o.files o.fates
]

infixl 5 ◌>>=◌ ◌>>◌
abbrev pub ◌>>=◌ : {A B : Type 0} → File A → (A → File B) → File B
◌>>=◌ m k f fates = next k (m f fates)

abbrev pub ◌>>◌ : {A B : Type 0} → File A → File B → File B
m >> k = m >>= λ _. k

-- One call: what it leaves where it fails, and what it does where it can be done.
unfoldable pub act : (Option Text → Files → Files) → (Files → Option Files) → File Bool
act torn effect f [] = give_up f []
act torn effect f (fails left ∷ fates) = give_up (torn left f) fates
act torn effect f (goes_well ∷ fates) = elim (effect f) [
  | none ↦ give_up f fates
  | some after ↦ give true after fates
]

abbrev pub leave : Place → Option Text → Files → Files
leave p none f = f
leave p (some b) f = put p b f

abbrev pub untouched : Option Text → Files → Files
untouched left f = f

unfoldable pub write : Place → Text → File Bool
write p b = act (leave p) (λ f. some (put p b f))

unfoldable pub copy : Place → Place → File Bool
copy p q = act (leave q) (λ f. map_option (λ b. put q b f) (find p f))

unfoldable pub rename : Place → Place → File Bool
rename p q = act untouched (λ f. map_option (λ b. put q b (delete p f)) (find p f))

unfoldable pub remove_file : Place → File Bool
remove_file p = act untouched (λ f. map_option (λ b. delete p f) (find p f))

unfoldable pub set_permissions : Place → File Bool
set_permissions p = act untouched (λ f. map_option (λ b. f) (find p f))

unfoldable pub read : Place → File Text
read p f [] = give_up f []
read p f (fails left ∷ fates) = give_up f fates
read p f (goes_well ∷ fates) = record { result = find p f; files = f; fates = fates }

-- A path that is resolved, which wants a file there.
unfoldable pub canonicalize : Place → File Place
canonicalize p = act untouched (λ f. map_option (λ b. f) (find p f)) >>= λ _. give p

unfoldable pub create_new : Place → File Bool
create_new p = act untouched (λ f. if is_some (find p f) then none else some (put p [] f))

unfoldable pub append : Place → Text → File Bool
append p b = act (leave p) (λ f. map_option (λ old. put p (old ++ b) f) (find p f))

-- A call that changes none of the files: on a directory, or `sync_all`.
unfoldable pub pass : File Bool
pass = act untouched (λ f. some f)

-- `let _ = call`
unfoldable pub attempt : {A : Type 0} → File A → File Bool
attempt m f fates = let o = m f fates in give (is_some o.result) o.files o.fates

pub find-put :
    (p q : Place) (b : Text) (f : Files)
    → find q (put p b f) ≡ (if same_place p q then some b else find q f)
unfolding find put
find-put exe exe b f = refl
find-put exe (staged m) b f = refl
find-put exe (elsewhere m) b f = refl
find-put (staged n) exe b f = refl
find-put (staged n) (staged m) b f = Dict.get-insert n m b f.staging
find-put (staged n) (elsewhere m) b f = refl
find-put (elsewhere n) exe b f = refl
find-put (elsewhere n) (staged m) b f = refl
find-put (elsewhere n) (elsewhere m) b f = Dict.get-insert n m b f.others

pub find-delete :
    (p q : Place) (f : Files) → find q (delete p f) ≡ (if same_place p q then none else find q f)
unfolding find delete
find-delete exe exe f = refl
find-delete exe (staged m) f = refl
find-delete exe (elsewhere m) f = refl
find-delete (staged n) exe f = refl
find-delete (staged n) (staged m) f = Dict.get-remove n m f.staging
find-delete (staged n) (elsewhere m) f = refl
find-delete (elsewhere n) exe f = refl
find-delete (elsewhere n) (staged m) f = refl
find-delete (elsewhere n) (elsewhere m) f = Dict.get-remove n m f.others
