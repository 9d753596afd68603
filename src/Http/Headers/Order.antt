-- ===== src/Http/Headers/Order.antt =====
-- The ranges of a sorted multimap against lookup by name.
use http_filtering_engine.Base.{
  Bytes, [], ◌∷◌, ◌++◌, true, false, ◌≡◌, refl, ap, sym, arith, Bool-cases, inl, inr,
}
use http_filtering_engine.Text.Compare.{
  less, same_of_not_less, same-false_of_less, le_trans, less-le_trans, same_comm,
}
use http_filtering_engine.Http.Headers.{
  HeaderMap, keep, before, from_lower, up_to, beyond, equal_range, behind, Above, IsSorted, lookup,
  others,
}

-- All entries are above a lesser name.
pub Above-mono : (a b : Bytes) (m : HeaderMap) → less b a ≡ false → Above b m → Above a m
Above-mono a b [] h k = tt
Above-mono a b ((j, v) ∷ m) h k = (le_trans a b j h k.0, Above-mono a b m h k.1)

-- Behind an entry that is greater than the name, nothing is under the name.
pub lookup-greater :
    (name j : Bytes) (m : HeaderMap) → less name j ≡ true → Above j m → lookup name m ≡ []
unfolding keep
lookup-greater name j [] h k = refl
lookup-greater name j ((i, v) ∷ m) h k =
    ground (arith, same-false_of_less name i, less-le_trans name j i, lookup-greater name j m)

others-greater :
    (name j : Bytes) (m : HeaderMap) → less name j ≡ true → Above j m → others name m ≡ m
unfolding keep
others-greater name j [] h k = refl
others-greater name j ((i, v) ∷ m) h k =
    ground (arith, same-false_of_less name i, less-le_trans name j i, others-greater name j m)

up_to-lookup :
    (name : Bytes) (m : HeaderMap) → IsSorted m → Above name m → up_to name m ≡ lookup name m
unfolding up_to keep
up_to-lookup name [] s a = refl
up_to-lookup name ((j, v) ∷ m) s a = elim (Bool-cases (less name j)) [
  | inl l ↦ rw (l, same-false_of_less name j l) (sym (lookup-greater name j m l s.0))
  | inr l ↦ rw (l, same_of_not_less name j l a.0) (ap (◌∷◌ (j, v)) (up_to-lookup name m s.1 a.1))
]

beyond-others :
    (name : Bytes) (m : HeaderMap) → IsSorted m → Above name m → beyond name m ≡ others name m
unfolding beyond keep
beyond-others name [] s a = refl
beyond-others name ((j, v) ∷ m) s a = elim (Bool-cases (less name j)) [
  | inl l ↦
      rw (l, same-false_of_less name j l) (ap (◌∷◌ (j, v)) (sym (others-greater name j m l s.0)))
  | inr l ↦ rw (l, same_of_not_less name j l a.0) (beyond-others name m s.1 a.1)
]

-- `equal_range` of a sorted map is all the entries under the name.
pub equal_range-lookup :
    (name : Bytes) (m : HeaderMap) → IsSorted m → equal_range name m ≡ lookup name m
unfolding equal_range keep
equal_range-lookup name [] s = refl
equal_range-lookup name ((j, v) ∷ m) s = elim (Bool-cases (less j name)) [
  | inl l ↦
      rw (l, from_lower, same_comm name j, same-false_of_less j name l)
        (equal_range-lookup name m s.1)
  | inr l ↦ rw (l, from_lower) (up_to-lookup name ((j, v) ∷ m) s (l, Above-mono name j m l s.0))
]

-- The entries before and behind the range are those under other names.
pub before-behind-others :
    (name : Bytes) (m : HeaderMap) → IsSorted m → before name m ++ behind name m ≡ others name m
unfolding before behind keep
before-behind-others name [] s = refl
before-behind-others name ((j, v) ∷ m) s = elim (Bool-cases (less j name)) [
  | inl l ↦
      rw (l, from_lower, same_comm name j, same-false_of_less j name l)
        (ap (◌∷◌ (j, v)) (before-behind-others name m s.1))
  | inr l ↦ rw (l, from_lower) (beyond-others name ((j, v) ∷ m) s (l, Above-mono name j m l s.0))
]
