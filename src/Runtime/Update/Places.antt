-- ===== src/Runtime/Update/Places.antt =====
-- What a file is after a change of another.
use agapornis_agent_rust.Runtime.Update.Calls.{
  Place, exe, staged, elsewhere, Files, same_place, find, put, delete, leave, find-put, find-delete,
}
use agapornis_agent_rust.Base.{◌≡◌, refl, ◌∙◌, true, false, Option, none, some, Text, same_refl}

-- What a call leaves of the other files.
pub put-other :
    (p q : Place) (b : Text) (f : Files) → same_place p q ≡ false → find q (put p b f) ≡ find q f
put-other p q b f h = rw (find-put, h) refl

pub delete-other :
    (p q : Place) (f : Files) → same_place p q ≡ false → find q (delete p f) ≡ find q f
delete-other p q f h = rw (find-delete, h) refl

pub leave-other :
    (p q : Place) (left : Option Text) (f : Files)
    → same_place p q ≡ false
    → find q (leave p left f) ≡ find q f
leave-other p q none f h = refl
leave-other p q (some b) f h = put-other p q b f h

pub moved-other :
    (p r q : Place) (b : Text) (f : Files)
    → same_place p q ≡ false
    → same_place r q ≡ false
    → find q (put r b (delete p f)) ≡ find q f
moved-other p r q b f h i = put-other r q b (delete p f) i ∙ delete-other p q f h

pub same_place_refl : (p : Place) → same_place p p ≡ true
same_place_refl exe = refl
same_place_refl (staged n) = same_refl n
same_place_refl (elsewhere n) = same_refl n

pub put_self : (p : Place) (b : Text) (f : Files) → find p (put p b f) ≡ some b
put_self p b f = rw (find-put, same_place_refl p) refl
