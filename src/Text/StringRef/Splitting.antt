-- ===== src/Text/StringRef/Splitting.antt =====
-- The pieces that Split of StringRefUtil.hpp gives.
use http_filtering_engine.Base.{
  Bytes, ℕ, zero, suc, ◌+◌, ◌<◌, false, ◌≡◌, ◌≢◌, refl, subst, [], ◌∷◌, ◌++◌, List, ◌==◌, length,
  length-append, drop, take-append_length, some, none, All, arith,
}
use http_filtering_engine.Text.StringRef.{find_char, split_loop, split}

-- A text with a character, and without the delimiter.
abbrev IsPiece : ℕ → Bytes → Type 0
IsPiece delim p = (0 < length p) × All (λ c. c ≢ delim) p

-- The pieces with a delimiter after each, and a last text.
abbrev pub joined : ℕ → List Bytes → Bytes → Bytes
joined delim [] last = last
joined delim (p ∷ ps) last = p ++ (delim ∷ joined delim ps last)

find_char-none : (delim : ℕ) (p : Bytes) → All (λ c. c ≢ delim) p → find_char delim p ≡ none
unfolding find_char
find_char-none delim [] h = refl
find_char-none delim (c ∷ p) h = ground (arith, h.0, find_char-none delim p h.1)

find_char-piece :
    (delim : ℕ) (p rest : Bytes)
    → All (λ c. c ≢ delim) p
    → find_char delim (p ++ (delim ∷ rest)) ≡ some (length p)
unfolding find_char
find_char-piece delim [] rest h = ground arith
find_char-piece delim (c ∷ p) rest h = ground (arith, h.0, find_char-piece delim p rest h.1)

drop_past : (p : Bytes) (d : ℕ) (t : Bytes) → drop (length p + 1) (p ++ (d ∷ t)) ≡ t
drop_past [] d t = refl
drop_past (c ∷ p) d t =
    let e : suc (length p + 1) ≡ suc (length p) + 1 = omega arith in
    subst (λ n. drop n (c ∷ (p ++ (d ∷ t))) ≡ t) e (drop_past p d t)

joined_pos :
    (delim : ℕ) (pieces : List Bytes) (last : Bytes)
    → 0 < length last
    → 0 < length (joined delim pieces last)
joined_pos delim [] last h = h
joined_pos delim (p ∷ ps) last h = omega (arith, length-append {0} p (delim ∷ joined delim ps last))

-- For pieces that are not empty and without the delimiter, `Split` gives all but the last.
split-joined :
    (fuel delim : ℕ) (pieces : List Bytes) (last : Bytes)
    → All (IsPiece delim) pieces
    → IsPiece delim last
    → length pieces < fuel
    → split fuel (joined delim pieces last) delim ≡ some pieces
unfolding split split_loop
split-joined zero delim ps last h l n = absurd (omega arith)
split-joined (suc fuel) delim [] last h l n = rw (find_char-none delim last l.1) refl
split-joined (suc fuel) delim (p ∷ ps) last h l n =
    let rest = joined delim ps last in
    let more : (length p + 1 == length (p ++ (delim ∷ rest))) ≡ false =
      ground (arith, length-append {0} p (delim ∷ rest), joined_pos delim ps last l.0) in
    let first : (length p == 0) ≡ false = ground (arith, h.0.0) in
    let ih : split_loop fuel delim rest (find_char delim rest) ≡ some ps =
      split-joined fuel delim ps last h.1 l (omega arith) in
    rw
      (
        find_char-piece delim p rest h.0.1,
        more,
        first,
        drop_past p delim rest,
        ih,
        take-append_length p (delim ∷ rest),
      )
      refl
