-- ===== src/Console/Decoder/Segments.antt =====
-- The lines of a whole stream, described without the decoder, and what the proofs need of them.
use mathlib.Core.List.{append_assoc}
use agapornis_agent_rust.Console.Decoder.{is_empty, cr, lf}
use agapornis_agent_rust.Base.{
  ℕ, zero, suc, ◌≤◌, ◌<◌, min, ◌≡◌, refl, sym, ap, inl, inr, Bool, true, false, not, ◌&&◌, ◌||◌,
  List, [], ◌∷◌, ◌++◌, arith, ltb, ◌==◌, if◌then◌else◌, Bool-cases, length, take, Text,
}

-- Every line end as one line feed: "\r\n" and "\r" count as "\n". The flag says that the byte
-- before was a "\r".
unfoldable pub normalise : Bool → Text → Text
normalise after_cr [] = []
normalise after_cr (c ∷ s) =
    let rest = normalise (c == cr) s in
    if after_cr && c == lf then normalise false s else (if c == cr then lf else c) ∷ rest

-- A segment in front of the first one.
abbrev pub join : Text → List Text → List Text
join front [] = front ∷ []
join front (x ∷ xs) = (front ++ x) ∷ xs

-- The segments between line feeds.
unfoldable pub segments : Text → List Text
segments [] = [] ∷ []
segments (c ∷ s) = let rest = segments s in if c == lf then [] ∷ rest else join (c ∷ []) rest

pub take_all : (n : ℕ) (s : Text) → length s ≤ n → take n s ≡ s
take_all zero [] h = refl
take_all zero (c ∷ s) h = absurd (omega arith)
take_all (suc n) [] h = refl
take_all (suc n) (c ∷ s) h = ap (◌∷◌ c) (take_all n s (omega arith))

pub take_nil : (n : ℕ) → take {A = ℕ} n [] ≡ []
take_nil zero = refl
take_nil (suc n) = refl

pub length-take : (n : ℕ) (s : Text) → length (take n s) ≡ min n (length s)
length-take zero s = omega arith
length-take (suc n) [] = omega arith
length-take (suc n) (c ∷ s) = omega (arith, length-take n s)

pub take-concat_short :
    (n : ℕ) (s : Text) (c : ℕ) → length s < n → take n (s ++ c ∷ []) ≡ take n s ++ c ∷ []
take-concat_short zero s c h = absurd (omega arith)
take-concat_short (suc n) [] c h = ap (◌∷◌ c) (take_nil n)
take-concat_short (suc n) (d ∷ s) c h = ap (◌∷◌ d) (take-concat_short n s c (omega arith))

pub take-concat_long : (n : ℕ) (s : Text) (c : ℕ) → n ≤ length s → take n (s ++ c ∷ []) ≡ take n s
take-concat_long zero s c h = refl
take-concat_long (suc n) [] c h = absurd (omega arith)
take-concat_long (suc n) (d ∷ s) c h = ap (◌∷◌ d) (take-concat_long n s c (omega arith))

pub is_empty-take :
    (n : ℕ) (s : Text) → (is_empty (take n s) && not (ltb n (length s))) ≡ is_empty s
is_empty-take zero [] = ground arith
is_empty-take zero (c ∷ s) = ground arith
is_empty-take (suc n) [] = ground arith
is_empty-take (suc n) (c ∷ s) = refl

pub join-join :
    (front : Text) (c : ℕ) (l : List Text) → join front (join (c ∷ []) l) ≡ join (front ++ c ∷ []) l
join-join front c [] = refl
join-join front c (x ∷ l) = ap (λ (t : Text). t ∷ l) (sym (append_assoc front (c ∷ []) x))

pub join-nil-segments : (s : Text) → join [] (segments s) ≡ segments s
unfolding segments
join-nil-segments [] = refl
join-nil-segments (c ∷ s) = elim (Bool-cases (c == lf)) [
  | inl e ↦ rw e refl
  | inr e ↦ rw e (join-join [] c (segments s))
]

pub segments_end :
    (after_cr : Bool) (c : ℕ) (s : Text)
    → (after_cr && c == lf) ≡ false
    → (c == cr || c == lf) ≡ true
    → segments (normalise after_cr (c ∷ s)) ≡ [] ∷ segments (normalise (c == cr) s)
unfolding normalise segments
segments_end after_cr c s read ends = ground arith

pub segments_inside :
    (after_cr : Bool) (c : ℕ) (s : Text)
    → (c == cr || c == lf) ≡ false
    → segments (normalise after_cr (c ∷ s)) ≡ join (c ∷ []) (segments (normalise false s))
unfolding normalise segments
segments_inside after_cr c s inside =
    let e : (c == cr) ≡ false = ground arith in
    let f : (c == lf) ≡ false = ground arith in
    rw (e, f) (elim (Bool-cases after_cr) [ inl t ↦ rw (t, f) refl | inr t ↦ rw (t, f) refl ])
