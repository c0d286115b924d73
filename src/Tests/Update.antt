-- ===== src/Tests/Update.antt =====
-- An update of one byte, staged and activated: src/runtime/update.rs.
use agapornis_agent_rust.Base.Dict
use agapornis_agent_rust.Base.Str
use agapornis_agent_rust.Base.{take-length-append, drop-length-append}
use agapornis_agent_rust.Runtime.Update.{
  Forms, ActivationState, activated_now, rolled_back, marker, failed_agent, rollback_at,
  activate_at,
}
use agapornis_agent_rust.Runtime.Update.Calls.{
  Place, exe, staged, elsewhere, Files, goes_well, fails, find,
}
use agapornis_agent_rust.Runtime.Update.Rules.{Cases, Ensures}
use agapornis_agent_rust.Runtime.Update.Well.{well}
use agapornis_agent_rust.Runtime.Update.Staging.{Response, Digests, target_name, stage}
use agapornis_agent_rust.Runtime.Update.Pending.{IsOwnName, IsBegun, IsKept, IsSafe}
use agapornis_agent_rust.Runtime.Update.Activation.{activate_at-IsSafe}
use agapornis_agent_rust.Runtime.Update.Restoring.{
  IsFaithful, IsRolledBack, rollback_at-IsRolledBack,
}
use agapornis_agent_rust.Runtime.Update.Return.{activate_at-returns}
use agapornis_agent_rust.Runtime.Update.Stuck.{
  Attempt, activation, staging, AllRefused, activate_at-stuck,
}
use agapornis_agent_rust.Runtime.Update.Receiving.{IsQuiet, IsVerified}
use agapornis_agent_rust.Runtime.Update.Verified.{stage-IsVerified}
use agapornis_agent_rust.Base.{
  ◌≡◌, refl, true, false, Option, none, some, List, [], ◌∷◌, ◌++◌, ◌==◌, if◌then◌else◌, length,
  take, drop, Text, same, codes,
}

-- A place as one letter before its name, and the state as its three texts with their lengths.
abbrev place_of : Text → Place
place_of [] = elsewhere []
place_of (c ∷ name) = if c == b'e' then exe else if c == b's' then staged name else elsewhere name

abbrev display : Place → Text
display exe = b'e' ∷ []
display (staged name) = b's' ∷ name
display (elsewhere name) = b'o' ∷ name

abbrev to_json : ActivationState → Text
to_json s =
    length s.previous ∷ (length s.activated ∷ (s.previous ++ (s.activated ++ s.activated_at)))

abbrev from_json : Text → Option ActivationState
from_json (n ∷ (m ∷ rest)) = some (record {
  previous = take n rest;
  activated = take m (drop n rest);
  activated_at = drop m (drop n rest);
})
from_json _ = none

abbrev forms : Forms
forms = record { place_of = place_of; display = display; to_json = to_json; from_json = from_json }

state_read_back : (s : ActivationState) → from_json (to_json s) ≡ some s
state_read_back s = rw (take-length-append s.previous (s.activated ++ s.activated_at)) (
    rw (drop-length-append s.previous (s.activated ++ s.activated_at)) (
      rw
        (
          take-length-append s.activated s.activated_at,
          drop-length-append s.activated s.activated_at,
        )
        refl))

place_found_again : (p : Place) → place_of (display p) ≡ p
place_found_again exe = refl
place_found_again (staged name) = refl
place_found_again (elsewhere name) = refl

forms-IsFaithful : IsFaithful forms
forms-IsFaithful = record { read_back = state_read_back; found_again = place_found_again }

abbrev old : Text
old = codes "old"

abbrev new : Text
new = codes "new"

abbrev name : Text
name = codes "agapornis-agent-1.pending"

abbrev value : Text
value = codes "sagapornis-agent-1.pending"

abbrev files : Files
files = record {
  executable = some old;
  staging = (codes "pending-artifact", value) ∷ ((name, new) ∷ []);
  others = [];
}

name-IsOwnName : IsOwnName name
unfolding same
name-IsOwnName = (refl, refl, refl, refl)

files-IsBegun : IsBegun forms [] name old new value files
unfolding find Dict.get same
files-IsBegun = (refl, refl, refl)

named : place_of (Str.trim value) ≡ staged name
unfolding Str.trim Str.trim_start Str.trim_end_matches Str.trim_start_matches Str.is_whitespace
named = refl

filled : Str.is_empty (Str.trim value) ≡ false
unfolding Str.trim Str.trim_start Str.trim_end_matches Str.trim_start_matches Str.is_whitespace
    Str.is_empty
filled = refl

-- The copy and its name are made, and the write of the state fails half-way.
activate_at-IsSafe_example :
    IsSafe forms [] name old new value
      (activate_at forms [] [] files (well 5 (fails (some (codes "{")) ∷ []))).files
activate_at-IsSafe_example =
    activate_at-IsSafe forms [] [] name old new value files (well 5 (fails (some (codes "{")) ∷ []))
      name-IsOwnName files-IsBegun named

abbrev after : Files
after = record {
  executable = some new;
  staging =
      (codes "previous-agent", old)
      ∷ ((
        codes "activation-state.json",
        to_json (record {
          previous = display (staged (codes "previous-agent"));
          activated = display exe;
          activated_at = [];
        }),
      )
          ∷ []);
  others = [];
}

after-IsKept : IsKept forms [] name old new value after
unfolding find Dict.get same
after-IsKept = (refl, refl)

runs : find exe after ≡ some new
unfolding find
runs = refl

rollback_at-IsRolledBack_example :
    Ensures
      (rollback_at forms (codes "2") after (well 2 (fails none ∷ (goes_well ∷ []))))
      (IsRolledBack old new (codes "2"))
rollback_at-IsRolledBack_example =
    rollback_at-IsRolledBack forms [] (codes "2") name old new value after
      (well 2 (fails none ∷ (goes_well ∷ []))) forms-IsFaithful runs after-IsKept

activate_at-returns_example :
    let first = activate_at forms [] (codes "2") files (well 9 []) in
    let second = activate_at forms [] (codes "2") first.files (well 4 []) in
    (first.result ≡ some activated_now)
    × (find exe first.files ≡ some new)
    × (second.result ≡ some rolled_back)
    × (find exe second.files ≡ some old)
    × (find (failed_agent (codes "2")) second.files ≡ some new)
activate_at-returns_example =
    activate_at-returns forms [] [] (codes "2") name old new value files [] forms-IsFaithful
      name-IsOwnName files-IsBegun named filled

-- 32 bytes, which the sum of the single byte 7 is.
abbrev sum : Text
sum = codes "0123456789abcdef0123456789abcdef"

abbrev digests : Digests
digests = record { hex_decode = λ t. some t; sha256 = λ t. sum }

abbrev response : Response
response = record { is_https = true; content_length = some 1; chunks = some (7 ∷ []) ∷ [] }

abbrev url : Text
url = codes "https://x"

-- A staging of the same artifact again, and then an activation.
abbrev attempts : List Attempt
attempts =
    staging digests url sum (some response) (codes "1") (codes "2") (well 20 [])
    ∷ activation [] [] (well 20 [])
    ∷ []

activate_at-stuck_example :
    let left = (activate_at forms [] [] files (well 8 [])).files in
    (find exe left ≡ some new) × AllRefused forms attempts left
activate_at-stuck_example =
    activate_at-stuck forms [] [] name old new value files attempts name-IsOwnName files-IsBegun
      named filled

abbrev fresh : Files
fresh = record { executable = some old; staging = []; others = [] }

stage-IsVerified_example :
    Ensures
      (stage forms digests url sum (some response) (codes "1") (codes "2") fresh (well 20 []))
      (Cases (IsQuiet (find exe fresh) (find marker fresh)) (λ name g.
        (name ≡ target_name (codes "1"))
        × (Str.starts_with (codes "https://") url ≡ true)
        × (expected : Text) × (digests.hex_decode (Str.trim sum) ≡ some expected)
        × (length expected ≡ 32)
        × IsVerified
            (find exe fresh)
            (find marker fresh)
            forms
            digests
            expected
            (target_name (codes "1"))
            g))
stage-IsVerified_example =
    stage-IsVerified forms digests url sum (some response) (codes "1") (codes "2") fresh
      (well 20 [])
