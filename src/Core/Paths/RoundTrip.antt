-- ===== src/Core/Paths/RoundTrip.antt =====
-- A path of names, written out and read back.
use agapornis_agent_rust.Base.Str
use agapornis_agent_rust.Base.Str.{in_front}
use agapornis_agent_rust.Core.Paths.{dot_dot, slash, backslash, FilePath, relative}
use agapornis_agent_rust.Core.Paths.Confined.{IsName, Lacks}
use agapornis_agent_rust.Core.Paths.Relative.{parts_of, names, relative-described}
use agapornis_agent_rust.Base.{
  ℕ, ◌≡◌, refl, ap, ◌∙◌, false, ◌||◌, some, [], ◌∷◌, ◌++◌, arith, ◌==◌, All, Text, same,
}

pub has_char-append :
    (c : ℕ) (s t : Text) → Str.has_char c (s ++ t) ≡ (Str.has_char c s || Str.has_char c t)
unfolding Str.has_char
has_char-append c [] t = refl
has_char-append c (d ∷ s) t = rw (has_char-append c s t) (ground arith)

split-append : (c : ℕ) (s t : Text) → Lacks c s → Str.split c (s ++ c ∷ t) ≡ s ∷ Str.split c t
unfolding Str.split Str.has_char
split-append c [] t h = ground arith
split-append c (d ∷ s) t h =
    let e : (d == c) ≡ false = ground arith in
    let f : Str.has_char c s ≡ false = ground arith in rw (e, split-append c s t f) refl

pub split_whole : (c : ℕ) (s : Text) → Lacks c s → Str.split c s ≡ s ∷ []
unfolding Str.split Str.has_char
split_whole c [] h = refl
split_whole c (d ∷ s) h =
    let e : (d == c) ≡ false = ground arith in
    let f : Str.has_char c s ≡ false = ground arith in rw (e, split_whole c s f) refl

split-join :
    (c : ℕ) (n : Text) (ns : FilePath)
    → All (Lacks c) (n ∷ ns)
    → Str.split c (Str.join (c ∷ []) (n ∷ ns)) ≡ n ∷ ns
unfolding Str.join
split-join c n [] a = split_whole c n a.0
split-join c n (m ∷ ns) a =
    split-append c n (Str.join (c ∷ []) (m ∷ ns)) a.0 ∙ ap (◌∷◌ n) (split-join c m ns a.1)

pub replace_char_idle : (s : Text) → Lacks backslash s → Str.replace_char backslash slash s ≡ s
unfolding Str.has_char Str.replace_char
replace_char_idle [] h = refl
replace_char_idle (c ∷ s) h = ground (arith, replace_char_idle s)

pub join-Lacks :
    (ns : FilePath) → All (Lacks backslash) ns → Lacks backslash (Str.join (slash ∷ []) ns)
unfolding Str.join Str.has_char
join-Lacks [] a = refl
join-Lacks (n ∷ []) a = a.0
join-Lacks (n ∷ m ∷ ns) a =
    has_char-append backslash n (slash ∷ Str.join (slash ∷ []) (m ∷ ns))
    ∙ rw (a.0, join-Lacks (m ∷ ns) a.1) refl

names_idle : (ns : FilePath) → All IsName ns → names ns ≡ ns
unfolding names
names_idle [] a = refl
names_idle (n ∷ ns) ((e, f, g, h, k), a) = rw (e, f, names_idle ns a) refl

no_dot_dot : (ns : FilePath) → All IsName ns → Str.any_same dot_dot ns ≡ false
unfolding Str.any_same
no_dot_dot [] a = refl
no_dot_dot (n ∷ ns) ((e, f, g, h, k), a) = rw (g, no_dot_dot ns a) refl

All-slash : (ns : FilePath) → All IsName ns → All (Lacks slash) ns
All-slash [] a = tt
All-slash (n ∷ ns) ((e, f, g, h, k), a) = (h, All-slash ns a)

pub All-backslash : (ns : FilePath) → All IsName ns → All (Lacks backslash) ns
All-backslash [] a = tt
All-backslash (n ∷ ns) ((e, f, g, h, k), a) = (k, All-backslash ns a)

-- A path of names, written with slashes, is read back by `relative` as it is.
pub relative-join : (ns : FilePath) → All IsName ns → relative (Str.join (slash ∷ []) ns) ≡ some ns
unfolding parts_of
relative-join [] a =
    relative-described _
    ∙ unfold Str.join Str.split Str.replace_char names Str.is_empty same Str.any_same in refl
relative-join (n ∷ ns) a =
    let b = All-backslash (n ∷ ns) a in
    relative-described (Str.join (slash ∷ []) (n ∷ ns))
    ∙ rw
        (
          replace_char_idle _ (join-Lacks (n ∷ ns) b),
          split-join slash n ns (All-slash (n ∷ ns) a),
          no_dot_dot (n ∷ ns) a,
          names_idle (n ∷ ns) a,
        )
        refl
