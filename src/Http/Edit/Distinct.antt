-- ===== src/Http/Edit/Distinct.antt =====
-- Repeated headers and AddHeader.
use http_filtering_engine.Base.{
  Bytes, Bool, true, false, [], ◌∷◌, ◌≡◌, refl, arith, Bool-cases, inl, inr,
}
use http_filtering_engine.External.{Library}
use http_filtering_engine.Text.Compare.{
  same, less, same_refl, same_comm, same-false_of_less, less-le_trans,
}
use http_filtering_engine.Http.Headers.{
  Header, HeaderMap, Above, keep, insert, IsSorted, lookup, others,
}
use http_filtering_engine.Http.Headers.Order.{equal_range-lookup}
use http_filtering_engine.Http.Headers.Laws.{IsSorted-keep, lookup-others}
use http_filtering_engine.Http.Edit.Lookup.{erase_range-others}
use http_filtering_engine.Http.State.{Transaction}
use http_filtering_engine.Http.Edit.{has_value, add_header, remove_header}

-- No entry of the name has the value.
abbrev Unlike : Library → Header → HeaderMap → Type 0
Unlike lib e [] = Unit
Unlike lib e (f ∷ m) = ((same e.0 f.0 ≡ true) → lib.iequals e.1 f.1 ≡ false) × Unlike lib e m

-- No entry repeats one in front of it.
abbrev pub IsDistinct : Library → HeaderMap → Type 0
IsDistinct lib [] = Unit
IsDistinct lib (e ∷ m) = Unlike lib e m × IsDistinct lib m

module _ (lib : Library) where
  Unlike-keep :
      (p : Header → Bool) (e : Header) (m : HeaderMap) → Unlike lib e m → Unlike lib e (keep p m)
  unfolding keep
  Unlike-keep p e [] u = tt
  Unlike-keep p e (f ∷ m) u = elim (Bool-cases (p f)) [
    | inl h ↦ rw h (u.0, Unlike-keep p e m u.1)
    | inr h ↦ rw h (Unlike-keep p e m u.1)
  ]

  IsDistinct-keep :
      (p : Header → Bool) (m : HeaderMap) → IsDistinct lib m → IsDistinct lib (keep p m)
  unfolding keep
  IsDistinct-keep p [] d = tt
  IsDistinct-keep p (e ∷ m) d = elim (Bool-cases (p e)) [
    | inl h ↦ rw h (Unlike-keep p e m d.0, IsDistinct-keep p m d.1)
    | inr h ↦ rw h (IsDistinct-keep p m d.1)
  ]

  Unlike-insert :
      (e : Header) (name value : Bytes) (m : HeaderMap)
      → ((same e.0 name ≡ true) → lib.iequals e.1 value ≡ false)
      → Unlike lib e m
      → Unlike lib e (insert name value m)
  unfolding insert
  Unlike-insert e name value [] h u = (h, tt)
  Unlike-insert e name value (f ∷ m) h u = elim (Bool-cases (less name f.0)) [
    | inl l ↦ rw l (h, u)
    | inr l ↦ rw l (u.0, Unlike-insert e name value m h u.1)
  ]

  -- Greater entries are under other names.
  Unlike-greater :
      (name value j : Bytes) (m : HeaderMap)
      → less name j ≡ true
      → Above j m
      → Unlike lib (name, value) m
  Unlike-greater name value j [] l a = tt
  Unlike-greater name value j ((i, v) ∷ m) l a = (
    λ e. ground (arith, same-false_of_less name i (less-le_trans name j i l a.0)),
    Unlike-greater name value j m l a.1,
  )

  -- The value is not among the headers of the name, whether the first is one of them or not.
  unheld-tail :
      (name value : Bytes) (f : Header) (m : HeaderMap)
      → has_value lib value (lookup name (f ∷ m)) ≡ false
      → has_value lib value (lookup name m) ≡ false
  unfolding has_value keep
  unheld-tail name value f m h = ground arith

  unheld-head :
      (name value : Bytes) (f : Header) (m : HeaderMap)
      → has_value lib value (lookup name (f ∷ m)) ≡ false
      → same f.0 name ≡ true
      → lib.iequals f.1 value ≡ false
  unfolding has_value keep
  unheld-head name value f m h e = ground (arith, same_comm f.0 name)

  -- Behind a sorted prefix the new entry repeats nothing.
  IsDistinct-insert :
      (name value : Bytes) (m : HeaderMap)
      → IsSorted m
      → has_value lib value (lookup name m) ≡ false
      → IsDistinct lib m
      → IsDistinct lib (insert name value m)
  unfolding insert has_value keep
  IsDistinct-insert name value [] s h d = (tt, tt)
  IsDistinct-insert name value (f ∷ m) s h d = elim (Bool-cases (less name f.0)) [
    | inl l ↦ rw l (
      (λ e. ground (arith, same-false_of_less name f.0 l), Unlike-greater name value f.0 m l s.0),
      d,
    )
    | inr l ↦ rw l (
      Unlike-insert f name value m (unheld-head name value f m h) d.0,
      IsDistinct-insert name value m s.1 (unheld-tail name value f m h) d.1,
    )
  ]

  lookup-others_self : (name : Bytes) (m : HeaderMap) → lookup name (others name m) ≡ []
  lookup-others_self name m = rw (lookup-others name name m, same_refl name)

  -- `AddHeader`, with `replaceIfExists` and without, on headers in the multimap's order of which
  -- none repeats the name and value of one in front of it, keeps them so.
  pub add_header-IsDistinct :
      (name value : Bytes) (b : Bool) (t : Transaction)
      → IsSorted t.headers
      → IsDistinct lib t.headers
      → IsDistinct lib (add_header lib name value b t).headers
  unfolding add_header
  add_header-IsDistinct name value true t s d = rw (erase_range-others name t.headers s) (
      IsDistinct-insert name value (others name t.headers) (IsSorted-keep _ t.headers s)
        (rw (lookup-others_self name t.headers) (unfold has_value in refl))
        (IsDistinct-keep _ t.headers d))
  add_header-IsDistinct name value false t s d =
      rw (equal_range-lookup name t.headers s)
        (elim (Bool-cases (has_value lib value (lookup name t.headers))) [
          | inl e ↦ rw e d
          | inr e ↦ rw e (IsDistinct-insert name value t.headers s e d)
        ])

  pub remove_header-IsDistinct :
      (name : Bytes) (t : Transaction)
      → IsSorted t.headers
      → IsDistinct lib t.headers
      → IsDistinct lib (remove_header name t).headers
  unfolding remove_header
  remove_header-IsDistinct name t s d =
      rw (erase_range-others name t.headers s) (IsDistinct-keep _ t.headers d)
