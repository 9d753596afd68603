-- ===== src/Http/Headers/Laws.antt =====
-- What inserting, filtering and erasing do to the order and to the entries under a name.
use http_filtering_engine.Base.{
  Bytes, [], ◌∷◌, ◌++◌, Bool, true, false, if◌then◌else◌, ◌≡◌, refl, ap, ◌∙◌, sym, arith,
  Bool-cases, inl, inr, append-nil,
}
use http_filtering_engine.Text.Compare.{
  less, same, same-same_left, same-false_of_less, same_comm, same_refl, less_trans, less_irrefl,
  less-same_left,
}
use http_filtering_engine.Http.Headers.Order.{Above-mono, lookup-greater}
use http_filtering_engine.Http.Headers.{
  Header, HeaderMap, keep, insert, Above, IsSorted, lookup, others,
}

Above-keep : (p : Header → Bool) (a : Bytes) (m : HeaderMap) → Above a m → Above a (keep p m)
unfolding keep
Above-keep p a [] h = tt
Above-keep p a ((j, v) ∷ m) h = ground (arith, Above-keep p a m)

-- Erasing keeps the order.
pub IsSorted-keep : (p : Header → Bool) (m : HeaderMap) → IsSorted m → IsSorted (keep p m)
unfolding keep
IsSorted-keep p [] s = tt
IsSorted-keep p ((j, v) ∷ m) s = ground (arith, IsSorted-keep p m, Above-keep p j m)

Above-insert :
    (a name value : Bytes) (m : HeaderMap)
    → less name a ≡ false
    → Above a m
    → Above a (insert name value m)
unfolding insert
Above-insert a name value [] h k = (h, tt)
Above-insert a name value ((j, v) ∷ m) h k = ground (arith, Above-insert a name value m h)

less-asymm : (a b : Bytes) → less a b ≡ true → less b a ≡ false
less-asymm a b h = ground (arith, less_trans a b a, less_irrefl a)

-- Inserting keeps the order.
pub IsSorted-insert :
    (name value : Bytes) (m : HeaderMap) → IsSorted m → IsSorted (insert name value m)
unfolding insert
IsSorted-insert name value [] s = (tt, tt)
IsSorted-insert name value ((j, v) ∷ m) s = elim (Bool-cases (less name j)) [
  | inl l ↦ rw l ((less-asymm name j l, Above-mono name j m (less-asymm name j l) s.0), s)
  | inr l ↦ rw l (Above-insert j name value m l s.0, IsSorted-insert name value m s.1)
]

-- The entry goes in front of a greater one: nothing from there on is under its name.
lookup-before :
    (q name value j v : Bytes) (m : HeaderMap)
    → less name j ≡ true
    → Above j m
    → lookup q ((name, value) ∷ (j, v) ∷ m)
      ≡ lookup q ((j, v) ∷ m) ++ (if same q name then (name, value) ∷ [] else [])
unfolding keep
lookup-before q name value j v m l a = elim (Bool-cases (same q name)) [
  | inl e ↦
      let g : less q j ≡ true = less-same_left q name j e ∙ l in
      rw (e, same-false_of_less q j g, lookup-greater q j m g a) refl
  | inr e ↦ rw e (sym (append-nil (lookup q ((j, v) ∷ m))))
]

lookup-later :
    (q : Bytes) (e : Header) (m n rest : HeaderMap)
    → lookup q n ≡ lookup q m ++ rest
    → lookup q (e ∷ n) ≡ lookup q (e ∷ m) ++ rest
unfolding keep
lookup-later q e m n rest h = elim (Bool-cases (same q e.0)) [
  | inl t ↦ rw t (ap (◌∷◌ e) h)
  | inr t ↦ rw t h
]

-- A new entry is the last one under its name, and nothing changes under another.
pub lookup-insert :
    (q name value : Bytes) (m : HeaderMap)
    → IsSorted m
    → lookup q (insert name value m)
      ≡ lookup q m ++ (if same q name then (name, value) ∷ [] else [])
unfolding insert keep
lookup-insert q name value [] s = ground arith
lookup-insert q name value ((j, v) ∷ m) s = elim (Bool-cases (less name j)) [
  | inl l ↦ rw l (lookup-before q name value j v m l s.0)
  | inr l ↦
      rw l (lookup-later q (j, v) m (insert name value m) _ (lookup-insert q name value m s.1))
]

-- The entries under other names are left alone.
others-insert :
    (name value : Bytes) (m : HeaderMap) → others name (insert name value m) ≡ others name m
unfolding insert keep
others-insert name value [] = rw (same_refl name)
others-insert name value ((j, v) ∷ m) = ground (arith, same_refl name, others-insert name value m)

pub lookup-others :
    (q name : Bytes) (m : HeaderMap)
    → lookup q (others name m) ≡ (if same q name then [] else lookup q m)
unfolding keep
lookup-others q name [] = ground arith
lookup-others q name ((j, v) ∷ m) = elim (Bool-cases (same name j)) [
  | inl e ↦
      rw (e, lookup-others q name m, same_comm q j, ← same-same_left name j q e, same_comm name q)
        (elim (Bool-cases (same q name)) [ inl t ↦ rw t | inr t ↦ rw t ])
  | inr e ↦
      rw (e, lookup-others q name m)
        (elim (Bool-cases (same q name)) [
          | inl t ↦ rw (t, same-same_left q name j t, e)
          | inr t ↦ rw t
        ])
]
