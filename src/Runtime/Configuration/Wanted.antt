-- ===== src/Runtime/Configuration/Wanted.antt =====
-- What the edit of a properties file leaves: each wanted key is set, and the rest is kept.
use mathlib.Core.Path.{subst}
use agapornis_agent_rust.Runtime.Configuration.Values.{Value, Fields, closed, field, is_object}
use agapornis_agent_rust.Runtime.Configuration.Lines.{properties_key, assigned, properties_fields}
use agapornis_agent_rust.Base.{
  ◌≡◌, refl, sym, ◌∙◌, inl, inr, Bool, false, ◌||◌, List, arith, Option-cases, Text, same, same_iff,
}
use agapornis_agent_rust.Runtime.Configuration.Properties.{
  carries, keep, IsKey, Ignores, after, keep-after, IsWritten, after-IsWritten,
}

abbrev pub has_key : Text → Fields → Bool
has_key key closed = false
has_key key (field other value more) = same other key || has_key key more

-- Each key is one that is read back, none is wanted twice, and no value depends on the present one.
abbrev pub IsPlain : Fields → Type 0
IsPlain closed = Unit
IsPlain (field key value more) =
    IsKey key × (is_object value ≡ false) × (has_key key more ≡ false) × IsPlain more

abbrev pub AllSet : (Value → Text) → Fields → List Text → Type 0
AllSet print closed lines = Unit
AllSet print (field key value more) lines =
    IsWritten key (assigned print key value) lines × AllSet print more lines

-- A test that is false of every line that sets one of the keys.
abbrev pub IgnoresAll : (Text → Bool) → Fields → Type 0
IgnoresAll p closed = Unit
IgnoresAll p (field key value more) = Ignores p key × IgnoresAll p more

keep-fields :
    (print : Value → Text) (p : Text → Bool) (find : Fields) (lines : List Text)
    → IsPlain find
    → IgnoresAll p find
    → keep p (properties_fields print find lines) ≡ keep p lines
unfolding properties_fields
keep-fields print p closed lines h i = refl
keep-fields print p (field key value more) lines h i = rw h.1 (
    keep-fields print p more (after print key value h.0 h.1 lines) h.3 i.1
    ∙ keep-after print key value h.0 h.1 p lines i.0)

other_key-Ignores : (key other : Text) → same other key ≡ false → Ignores (carries key) other
other_key-Ignores key other h line c = elim (Option-cases (properties_key line)) [
  | inl e ↦ rw (e, carries) refl
  | inr ((line_key, value), e) ↦
      let f = rw (e, carries) at c in
      rw (e, carries)
        (subst (λ (k : Text). same k key ≡ false) (sym ((same_iff line_key other).0 f)) h)
]

other_keys-IgnoresAll :
    (key : Text) (find : Fields) → has_key key find ≡ false → IgnoresAll (carries key) find
other_keys-IgnoresAll key closed h = tt
other_keys-IgnoresAll key (field other value more) h =
    let a : same other key ≡ false = ground arith in
    let b : has_key key more ≡ false = ground arith in
    (other_key-Ignores key other a, other_keys-IgnoresAll key more b)

properties_fields-AllSet :
    (print : Value → Text) (find : Fields) (lines : List Text)
    → IsPlain find
    → AllSet print find (properties_fields print find lines)
unfolding properties_fields
properties_fields-AllSet print closed lines h = tt
properties_fields-AllSet print (field key value more) lines h =
    let first = after print key value h.0 h.1 lines in
    let set = after-IsWritten print key value h.0 h.1 lines in
    let same_lines =
      keep-fields print (carries key) more first h.3 (other_keys-IgnoresAll key more h.2) in
    rw h.1 (
      record { set_somewhere = rw same_lines set.set_somewhere; set_so = rw same_lines set.set_so },
      properties_fields-AllSet print more first h.3,
    )

-- After the edit every wanted key is set, by the wanted line wherever it is set; and all lines that
-- set none of the keys, the comments among them, are the same as before, in the same order. The
-- keys are ones that a line can set, each wanted once, and no value depends on the present one.
pub properties_fields-sets :
    (print : Value → Text) (find : Fields) (lines : List Text) (p : Text → Bool)
    → IsPlain find
    → IgnoresAll p find
    → AllSet print find (properties_fields print find lines)
      × (keep p (properties_fields print find lines) ≡ keep p lines)
properties_fields-sets print find lines p h i =
    (properties_fields-AllSet print find lines h, keep-fields print p find lines h i)
