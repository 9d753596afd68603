-- ===== src/Text/StringRef/Agreement.antt =====
-- Equal of StringRefUtil.hpp and the hashing of StringHashUtils.hpp against plain equality.
use http_filtering_engine.Base.{
  Bytes, ℕ, suc, true, ◌≡◌, refl, ap, sym, subst, ◌∙◌, [], ◌∷◌, map, ==_iff, bytes_eq, bytes_eq_iff,
  bytes_eq_refl, to_upper, length, get_or, arith, Bool-cases, inl, inr,
}
use http_filtering_engine.External.{Library, IequalsFoldsCase}
use http_filtering_engine.Text.StringRef.{equal, icase_hash, icase_equal}

equal_refl : (a : Bytes) → equal a a ≡ true
unfolding equal
equal_refl a = ground (arith, bytes_eq_refl a)

-- `Equal` is equality of texts.
equal-bytes_eq : (lhs rhs : Bytes) → equal lhs rhs ≡ bytes_eq lhs rhs
unfolding equal
equal-bytes_eq lhs rhs = elim (Bool-cases (bytes_eq lhs rhs)) [
  | inl same ↦
      let e = (bytes_eq_iff lhs rhs).0 same in
      subst (λ r. equal lhs r ≡ bytes_eq lhs r) e (equal_refl lhs ∙ sym (bytes_eq_refl lhs))
  | inr other ↦ ground arith
]

length-map : (a : Bytes) → length (map to_upper a) ≡ length a
length-map [] = refl
length-map (c ∷ a) = ap suc (length-map a)

icase_hash-map :
    (h : ℕ → ℕ → ℕ) (a b : Bytes) (seed : ℕ)
    → map to_upper a ≡ map to_upper b
    → icase_hash h a seed ≡ icase_hash h b seed
unfolding icase_hash
icase_hash-map h [] [] seed e = refl
icase_hash-map h [] (y ∷ b) seed e = absurd (cc)
icase_hash-map h (x ∷ a) [] seed e = absurd (cc)
icase_hash-map h (x ∷ a) (y ∷ b) seed e =
    let f : to_upper x ≡ to_upper y = cc in
    let g : map to_upper a ≡ map to_upper b = cc in
    ap (λ u. icase_hash h a (h seed u)) f ∙ icase_hash-map h a b (h seed (to_upper y)) g

first-map :
    (a b : Bytes)
    → map to_upper a ≡ map to_upper b
    → to_upper (get_or a 0 0) ≡ to_upper (get_or b 0 0)
first-map [] [] e = refl
first-map [] (y ∷ b) e = absurd (cc)
first-map (x ∷ a) [] e = absurd (cc)
first-map (x ∷ a) (y ∷ b) e = cc

pub icase_equal-folds :
    (lib : Library) (a b : Bytes)
    → IequalsFoldsCase lib
    → icase_equal lib a b ≡ bytes_eq (map to_upper a) (map to_upper b)
unfolding icase_equal
icase_equal-folds lib a b folds = elim (Bool-cases (bytes_eq (map to_upper a) (map to_upper b))) [
  | inl same ↦
      let e = (bytes_eq_iff (map to_upper a) (map to_upper b)).0 same in
      let n : length a ≡ length b = sym (length-map a) ∙ (ap length e ∙ length-map b) in
      ground (
        arith,
        folds a b,
        first-map a b e,
        n,
        same,
        ==_iff (length a) (length b),
        ==_iff (to_upper (get_or a 0 0)) (to_upper (get_or b 0 0)),
      )
  | inr other ↦ ground (arith, folds a b, other)
]

-- Texts that `ICaseStringEquality` finds equal have the same `ICaseStringHash`, whatever
-- `boost::hash_combine` is.
icase_hash-icase_equal :
    (lib : Library) (hash_combine : ℕ → ℕ → ℕ) (a b : Bytes) (seed : ℕ)
    → IequalsFoldsCase lib
    → icase_equal lib a b ≡ true
    → icase_hash hash_combine a seed ≡ icase_hash hash_combine b seed
icase_hash-icase_equal lib hash_combine a b seed folds e =
    icase_hash-map hash_combine a b seed (
      (bytes_eq_iff (map to_upper a) (map to_upper b)).0
        (sym (icase_equal-folds lib a b folds) ∙ e))
