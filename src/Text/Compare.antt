-- ===== src/Text/Compare.antt =====
-- `strcasecmp` of the C library on `c_str()` texts, as the order of BaseHttpTransaction.hpp's
-- `CaseInsensitiveComparer` uses it.
use http_filtering_engine.Base.{
  ◌≡◌, ◌↔◌, refl, sym, ◌∙◌, [], ◌∷◌, Bool, true, false, Bytes, ltb, ◌==◌, if◌then◌else◌, ◌&&◌, ◌||◌,
  map, arith, Bool-cases, inl, inr, to_lower, bytes_eq, bytes_eq_iff,
}

-- The text in front of the first NUL byte.
unfoldable pub c_str : Bytes → Bytes
c_str [] = []
c_str (c ∷ cs) = if c == 0 then [] else c ∷ c_str cs

-- The order of texts of bytes.
unfoldable lex_ltb : Bytes → Bytes → Bool
lex_ltb [] [] = false
lex_ltb [] (y ∷ ys) = true
lex_ltb (x ∷ xs) [] = false
lex_ltb (x ∷ xs) (y ∷ ys) = ltb x y || (x == y && lex_ltb xs ys)

lex_ltb_irrefl : (a : Bytes) → lex_ltb a a ≡ false
unfolding lex_ltb
lex_ltb_irrefl [] = refl
lex_ltb_irrefl (x ∷ a) = ground (arith, lex_ltb_irrefl a)

lex_ltb_trans : (a b c : Bytes) → lex_ltb a b ≡ true → lex_ltb b c ≡ true → lex_ltb a c ≡ true
unfolding lex_ltb
lex_ltb_trans [] [] c h k = cc
lex_ltb_trans [] (y ∷ b) [] h k = cc
lex_ltb_trans [] (y ∷ b) (z ∷ c) h k = refl
lex_ltb_trans (x ∷ a) [] c h k = cc
lex_ltb_trans (x ∷ a) (y ∷ b) [] h k = cc
lex_ltb_trans (x ∷ a) (y ∷ b) (z ∷ c) h k = ground (arith, lex_ltb_trans a b c)

lex_ltb-total : (a b : Bytes) → lex_ltb a b ≡ false → lex_ltb b a ≡ false → a ≡ b
unfolding lex_ltb
lex_ltb-total [] [] h k = refl
lex_ltb-total [] (y ∷ b) h k = cc
lex_ltb-total (x ∷ a) [] h k = cc
lex_ltb-total (x ∷ a) (y ∷ b) h k = ground (arith, lex_ltb-total a b)

-- The key by which two names are compared.
unfoldable fold_name : Bytes → Bytes
unfolding c_str to_lower
fold_name s = map to_lower (c_str s)

-- `CaseInsensitiveComparer::operator()`.
unfoldable pub less : Bytes → Bytes → Bool
unfolding lex_ltb fold_name
less a b = lex_ltb (fold_name a) (fold_name b)

-- Neither is less than the other: the names are equal up to the case of ASCII letters.
unfoldable pub same : Bytes → Bytes → Bool
unfolding bytes_eq fold_name
same a b = bytes_eq (fold_name a) (fold_name b)

same_iff : (a b : Bytes) → (same a b ≡ true) ↔ (fold_name a ≡ fold_name b)
unfolding same
same_iff a b = unfold same in bytes_eq_iff (fold_name a) (fold_name b)

pub same_refl : (a : Bytes) → same a a ≡ true
same_refl a = (same_iff a a).1 refl

pub same_comm : (a b : Bytes) → same a b ≡ same b a
same_comm a b = ground (arith, same_iff a b, same_iff b a)

pub less_irrefl : (a : Bytes) → less a a ≡ false
unfolding less
less_irrefl a = lex_ltb_irrefl (fold_name a)

pub less_trans : (a b c : Bytes) → less a b ≡ true → less b c ≡ true → less a c ≡ true
unfolding less
less_trans a b c = lex_ltb_trans (fold_name a) (fold_name b) (fold_name c)

-- Two names that neither way are less are the same, and the same names are not less.
pub same_of_not_less : (a b : Bytes) → less a b ≡ false → less b a ≡ false → same a b ≡ true
unfolding less
same_of_not_less a b h k = (same_iff a b).1 (lex_ltb-total (fold_name a) (fold_name b) h k)

less-false_of_same : (a b : Bytes) → same a b ≡ true → less a b ≡ false
unfolding less
less-false_of_same a b h = rw ((same_iff a b).0 h) (lex_ltb_irrefl (fold_name b))

pub same-false_of_less : (a b : Bytes) → less a b ≡ true → same a b ≡ false
same-false_of_less a b h = ground (arith, less-false_of_same a b)

-- The same names stand at the same place of the order.
pub less-same_left : (a b c : Bytes) → same a b ≡ true → less a c ≡ less b c
unfolding less
less-same_left a b c h = rw ((same_iff a b).0 h)

less-same_right : (a b c : Bytes) → same a b ≡ true → less c a ≡ less c b
unfolding less
less-same_right a b c h = rw ((same_iff a b).0 h)

pub same-same_left : (a b c : Bytes) → same a b ≡ true → same a c ≡ same b c
unfolding same
same-same_left a b c h = rw ((same_iff a b).0 h)

-- `not (b < a)` is a total preorder.
pub less-le_trans : (a b c : Bytes) → less a b ≡ true → less c b ≡ false → less a c ≡ true
less-le_trans a b c h k = elim (Bool-cases (less b c)) [
  | inl l ↦ less_trans a b c h l
  | inr l ↦ sym (less-same_right b c a (same_of_not_less b c l k)) ∙ h
]

pub le_trans : (a b c : Bytes) → less b a ≡ false → less c b ≡ false → less c a ≡ false
le_trans a b c h k = ground (arith, less-le_trans c a b)
