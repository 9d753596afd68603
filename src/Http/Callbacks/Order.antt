-- ===== src/Http/Callbacks/Order.antt =====
-- The parts of the multimap around a name, and their order when a value grows.
use http_filtering_engine.Base.{Bytes, [], ◌∷◌, ◌++◌, ◌≡◌, refl, sym, subst, arith}
use http_filtering_engine.Http.Headers.{
  HeaderMap, Above, IsSorted, before, from_lower, up_to, beyond, behind, equal_range,
}
use http_filtering_engine.Http.Callbacks.{append_last, append_value}

-- The ranges of a name are the parts of the map, in any order.
before-from_lower : (name : Bytes) (m : HeaderMap) → before name m ++ from_lower name m ≡ m
unfolding before from_lower
before-from_lower name [] = refl
before-from_lower name ((j, v) ∷ m) = ground (arith, before-from_lower name m)

up_to-beyond : (name : Bytes) (m : HeaderMap) → up_to name m ++ beyond name m ≡ m
unfolding up_to beyond
up_to-beyond name [] = refl
up_to-beyond name ((j, v) ∷ m) = ground (arith, up_to-beyond name m)

ranges : (name : Bytes) (m : HeaderMap) → before name m ++ (equal_range name m ++ behind name m) ≡ m
unfolding equal_range behind
ranges name m = rw (up_to-beyond name (from_lower name m)) (before-from_lower name m)

Above-append_last :
    (text j : Bytes) (r n : HeaderMap) → Above j (r ++ n) → Above j (append_last text r ++ n)
unfolding append_last
Above-append_last text j [] n h = h
Above-append_last text j (e ∷ []) n h = h
Above-append_last text j (e ∷ f ∷ r) n h = (h.0, Above-append_last text j (f ∷ r) n h.1)

IsSorted-append_last :
    (text : Bytes) (r n : HeaderMap) → IsSorted (r ++ n) → IsSorted (append_last text r ++ n)
unfolding append_last
IsSorted-append_last text [] n h = h
IsSorted-append_last text (e ∷ []) n h = h
IsSorted-append_last text (e ∷ f ∷ r) n h =
    (Above-append_last text e.0 (f ∷ r) n h.0, IsSorted-append_last text (f ∷ r) n h.1)

Above-middle :
    (text j : Bytes) (l r n : HeaderMap)
    → Above j (l ++ (r ++ n))
    → Above j (l ++ (append_last text r ++ n))
Above-middle text j [] r n h = Above-append_last text j r n h
Above-middle text j (e ∷ l) r n h = (h.0, Above-middle text j l r n h.1)

IsSorted-middle :
    (text : Bytes) (l r n : HeaderMap)
    → IsSorted (l ++ (r ++ n))
    → IsSorted (l ++ (append_last text r ++ n))
IsSorted-middle text [] r n h = IsSorted-append_last text r n h
IsSorted-middle text (e ∷ l) r n h =
    (Above-middle text e.0 l r n h.0, IsSorted-middle text l r n h.1)

-- A value that grows keeps the order.
pub append_value-IsSorted :
    (name text : Bytes) (m : HeaderMap) → IsSorted m → IsSorted (append_value name text m)
unfolding append_value
append_value-IsSorted name text m s =
    IsSorted-middle text (before name m) (equal_range name m) (behind name m)
      (subst IsSorted (sym (ranges name m)) s)
