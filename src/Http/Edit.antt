-- ===== src/Http/Edit.antt =====
-- The header operations of BaseHttpTransaction.cpp: AddHeader, both RemoveHeader, GetHeader.
pub mod Lookup
pub mod Removal
pub mod Distinct
use http_filtering_engine.Base.{
  Bytes, ℕ, zero, suc, Bool, true, false, [], ◌∷◌, ◌++◌, if◌then◌else◌, ◌||◌, Option, some, none,
}
use http_filtering_engine.External.{Library}
use http_filtering_engine.Text.Compare.{c_str}
use http_filtering_engine.Http.Headers.{HeaderMap, before, behind, equal_range, insert}
use http_filtering_engine.Http.State.{Transaction}

-- The loop of `AddHeader`: whether an entry of the range has the value.
unfoldable pub has_value : Library → Bytes → HeaderMap → Bool
has_value lib value [] = false
has_value lib value (e ∷ range) = lib.iequals e.1 value || has_value lib value range

-- `m_headers` with the range of a name erased.
unfoldable pub erase_range : Bytes → HeaderMap → HeaderMap
unfolding before behind
erase_range name m = before name m ++ behind name m

-- `AddHeader`.
unfoldable pub add_header : Library → Bytes → Bytes → Bool → Transaction → Transaction
unfolding has_value erase_range insert equal_range
add_header lib name value replace_if_exists t =
    if replace_if_exists
    then record t { headers = insert name value (erase_range name t.headers) }
    else if has_value lib value (equal_range name t.headers)
    then t
    else record t { headers = insert name value t.headers }

-- `RemoveHeader(name)`.
unfoldable pub remove_header : Bytes → Transaction → Transaction
unfolding erase_range
remove_header name t = record t { headers = erase_range name t.headers }

-- The loop of `RemoveHeader(name, value)` over what is left of the range. The iterator advances
-- only when an entry is erased. With no fuel left the result is `none`.
unfoldable pub remove_value_loop : Library → ℕ → Bytes → HeaderMap → Option HeaderMap
unfolding c_str
remove_value_loop lib zero value range = none
remove_value_loop lib (suc fuel) value [] = some []
remove_value_loop lib (suc fuel) value (e ∷ range) = elim (lib.iequals (c_str e.1) (c_str value)) [
  | true ↦ remove_value_loop lib fuel value range
  | false ↦ remove_value_loop lib fuel value (e ∷ range)
]

-- `RemoveHeader(name, value)`; `none` while the loop has not ended.
unfoldable pub remove_header_value : Library → ℕ → Bytes → Bytes → Transaction → Option Transaction
unfolding remove_value_loop equal_range before behind
remove_header_value lib fuel name value t =
    elim (remove_value_loop lib fuel value (equal_range name t.headers)) [
      | none ↦ none
      | some range ↦
          some (record t { headers = before name t.headers ++ (range ++ behind name t.headers) })
    ]

-- `GetHeader`: the range of the name.
unfoldable pub get_header : Bytes → Transaction → HeaderMap
unfolding equal_range
get_header name t = equal_range name t.headers
