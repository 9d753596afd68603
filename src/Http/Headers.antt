-- ===== src/Http/Headers.antt =====
-- `HttpHeaderMap` of BaseHttpTransaction.hpp: a `std::multimap` from names to values under
-- `CaseInsensitiveComparer`, as the list of its entries in order. An iterator range is the list of
-- the entries in it; erasing a range leaves the entries before and behind it.
pub mod Order
pub mod Laws
use http_filtering_engine.Base.{
  Bytes, List, [], ◌∷◌, ◌++◌, Bool, true, false, not, if◌then◌else◌, ◌≡◌,
}
use http_filtering_engine.Text.Compare.{less, same}

abbrev pub Header : Type 0
Header = Bytes × Bytes

abbrev pub HeaderMap : Type 0
HeaderMap = List Header

-- The entries that pass a test, in order.
unfoldable pub keep {ℓ} : {A : Type ℓ} → (A → Bool) → List A → List A
keep p [] = []
keep p (x ∷ xs) = if p x then x ∷ keep p xs else keep p xs

-- `[begin, lower_bound (name))`, and `[lower_bound (name), end)`.
unfoldable pub before : Bytes → HeaderMap → HeaderMap
before name [] = []
before name ((j, v) ∷ m) = if less j name then (j, v) ∷ before name m else []

unfoldable pub from_lower : Bytes → HeaderMap → HeaderMap
from_lower name [] = []
from_lower name ((j, v) ∷ m) = if less j name then from_lower name m else (j, v) ∷ m

-- The entries up to the first that is greater than `name`, and the others.
unfoldable pub up_to : Bytes → HeaderMap → HeaderMap
up_to name [] = []
up_to name ((j, v) ∷ m) = if less name j then [] else (j, v) ∷ up_to name m

unfoldable pub beyond : Bytes → HeaderMap → HeaderMap
beyond name [] = []
beyond name ((j, v) ∷ m) = if less name j then (j, v) ∷ m else beyond name m

-- `equal_range`: from the lower bound to the upper bound.
unfoldable pub equal_range : Bytes → HeaderMap → HeaderMap
unfolding from_lower up_to
equal_range name m = up_to name (from_lower name m)

-- What stands behind the range.
unfoldable pub behind : Bytes → HeaderMap → HeaderMap
unfolding from_lower beyond
behind name m = beyond name (from_lower name m)

-- `insert`: at the upper bound of the name.
unfoldable pub insert : Bytes → Bytes → HeaderMap → HeaderMap
insert name value [] = (name, value) ∷ []
insert name value ((j, v) ∷ m) =
    if less name j then (name, value) ∷ (j, v) ∷ m else (j, v) ∷ insert name value m

-- The order that every multimap keeps: no entry is less than one in front of it.
abbrev pub Above : Bytes → HeaderMap → Type 0
Above name [] = Unit
Above name ((j, v) ∷ m) = (less j name ≡ false) × Above name m

abbrev pub IsSorted : HeaderMap → Type 0
IsSorted [] = Unit
IsSorted ((j, v) ∷ m) = Above j m × IsSorted m

-- The entries under a name, by the definition that needs no order.
abbrev pub lookup : Bytes → HeaderMap → HeaderMap
lookup name = keep (λ e. same name e.0)

-- The entries under other names.
abbrev pub others : Bytes → HeaderMap → HeaderMap
others name = keep (λ e. not (same name e.0))
