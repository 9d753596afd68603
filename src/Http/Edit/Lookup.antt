-- ===== src/Http/Edit/Lookup.antt =====
-- What AddHeader and RemoveHeader do to the headers found under every name, and to the order.
use http_filtering_engine.Base.{
  Bytes, Bool, true, false, [], ◌∷◌, ◌++◌, if◌then◌else◌, ◌≡◌, Bool-cases, inl, inr, append-nil,
}
use http_filtering_engine.External.{Library}
use http_filtering_engine.Text.Compare.{same}
use http_filtering_engine.Http.Headers.{HeaderMap, equal_range, IsSorted, lookup, others}
use http_filtering_engine.Http.Headers.Order.{equal_range-lookup, before-behind-others}
use http_filtering_engine.Http.Headers.Laws.{
  IsSorted-keep, IsSorted-insert, lookup-insert, lookup-others,
}
use http_filtering_engine.Http.State.{Transaction}
use http_filtering_engine.Http.Edit.{has_value, erase_range, add_header, remove_header, get_header}

-- The headers under a name, as the program's own lookup is specified.
abbrev pub found : Bytes → Transaction → HeaderMap
found name t = lookup name t.headers

pub erase_range-others :
    (name : Bytes) (m : HeaderMap) → IsSorted m → erase_range name m ≡ others name m
unfolding erase_range
erase_range-others name m s = before-behind-others name m s

pub remove_header-IsSorted :
    (name : Bytes) (t : Transaction) → IsSorted t.headers → IsSorted (remove_header name t).headers
unfolding remove_header
remove_header-IsSorted name t s =
    rw (erase_range-others name t.headers s) (IsSorted-keep _ t.headers s)

pub add_header-IsSorted :
    (lib : Library) (name value : Bytes) (b : Bool) (t : Transaction)
    → IsSorted t.headers
    → IsSorted (add_header lib name value b t).headers
unfolding add_header
add_header-IsSorted lib name value true t s =
    rw (erase_range-others name t.headers s)
      (IsSorted-insert name value _ (IsSorted-keep _ t.headers s))
add_header-IsSorted lib name value false t s =
    elim (Bool-cases (has_value lib value (equal_range name t.headers))) [
      | inl e ↦ rw e s
      | inr e ↦ rw e (IsSorted-insert name value t.headers s)
    ]

-- `GetHeader` on headers in the multimap's order finds every header whose name is equal up to case,
-- in order, and no other.
pub get_header-found :
    (name : Bytes) (t : Transaction) → IsSorted t.headers → get_header name t ≡ found name t
unfolding get_header
get_header-found name t s = equal_range-lookup name t.headers s

-- `RemoveHeader(name)`, on headers in the multimap's order, leaves nothing under the name, and what
-- is found under other names is as before.
pub found-remove_header :
    (q name : Bytes) (t : Transaction)
    → IsSorted t.headers
    → found q (remove_header name t) ≡ (if same q name then [] else found q t)
unfolding remove_header
found-remove_header q name t s =
    rw (erase_range-others name t.headers s) (lookup-others q name t.headers)

-- `AddHeader` with `replaceIfExists`, on headers in the multimap's order: the new header is the
-- only one found under its name, and what is found under other names is as before.
pub found-add_header_replace :
    (lib : Library) (q name value : Bytes) (t : Transaction)
    → IsSorted t.headers
    → found q (add_header lib name value true t)
      ≡ (if same q name then (name, value) ∷ [] else found q t)
unfolding add_header
found-add_header_replace lib q name value t s =
    rw
      (
        erase_range-others name t.headers s,
        lookup-insert q name value (others name t.headers) (IsSorted-keep _ t.headers s),
        lookup-others q name t.headers,
      )
      (elim (Bool-cases (same q name)) [ inl e ↦ rw e | inr e ↦ rw e (append-nil (found q t)) ])

-- `AddHeader` without `replaceIfExists`, on headers in the multimap's order: the header is put
-- behind those of its name unless one of them has its value, and what is found under other names is
-- as before.
pub found-add_header_keep :
    (lib : Library) (q name value : Bytes) (t : Transaction)
    → IsSorted t.headers
    → found q (add_header lib name value false t) ≡ (
        if has_value lib value (found name t)
        then found q t
        else found q t ++ (if same q name then (name, value) ∷ [] else []))
unfolding add_header
found-add_header_keep lib q name value t s =
    rw (equal_range-lookup name t.headers s)
      (elim (Bool-cases (has_value lib value (found name t))) [
        | inl e ↦ rw e
        | inr e ↦ rw e (lookup-insert q name value t.headers s)
      ])
