-- ===== src/Http/Edit/Removal.antt =====
-- The loop of RemoveHeader(name, value) of BaseHttpTransaction.cpp.
use http_filtering_engine.Base.{
  Bytes, ℕ, zero, suc, Bool, true, false, [], ◌∷◌, ◌&&◌, ◌≡◌, refl, arith, length, ◌<◌, some, none,
}
use http_filtering_engine.External.{Library}
use http_filtering_engine.Text.Compare.{c_str}
use http_filtering_engine.Http.Headers.{HeaderMap, equal_range}
use http_filtering_engine.Http.State.{Transaction}
use http_filtering_engine.Http.Edit.{
  remove_header, get_header, remove_value_loop, remove_header_value,
}

-- Every entry has the value, up to case and up to the first NUL byte.
abbrev all_have_value : Library → Bytes → HeaderMap → Bool
all_have_value lib value [] = true
all_have_value lib value (e ∷ range) =
    lib.iequals (c_str e.1) (c_str value) && all_have_value lib value range

loop_ends :
    (lib : Library) (fuel : ℕ) (value : Bytes) (range : HeaderMap)
    → length range < fuel
    → all_have_value lib value range ≡ true
    → remove_value_loop lib fuel value range ≡ some []
unfolding remove_value_loop
loop_ends lib zero value range l h = absurd (omega arith)
loop_ends lib (suc fuel) value [] l h = refl
loop_ends lib (suc fuel) value (e ∷ range) l h = ground (arith, loop_ends lib fuel value range)

loop_stuck :
    (lib : Library) (fuel : ℕ) (value : Bytes) (range : HeaderMap)
    → all_have_value lib value range ≡ false
    → remove_value_loop lib fuel value range ≡ none
unfolding remove_value_loop
loop_stuck lib zero value range h = refl
loop_stuck lib (suc fuel) value [] h = cc
loop_stuck lib (suc fuel) value (e ∷ range) h =
    ground (arith, loop_stuck lib fuel value range, loop_stuck lib fuel value (e ∷ range))

-- `RemoveHeader(name, value)` ends where every header of the name has the value, after at most one
-- round more than there are such headers, and does what `RemoveHeader(name)` does.
remove_header_value-all :
    (lib : Library) (fuel : ℕ) (name value : Bytes) (t : Transaction)
    → all_have_value lib value (get_header name t) ≡ true
    → length (get_header name t) < fuel
    → remove_header_value lib fuel name value t ≡ some (remove_header name t)
unfolding remove_header_value get_header remove_header
remove_header_value-all lib fuel name value t h l =
    rw (loop_ends lib fuel value (equal_range name t.headers) l h, remove_header_value)

-- `RemoveHeader(name, value)` never ends when one of the headers of the name has a value that does
-- not match: however many rounds its loop is given, it has no result.
pub remove_header_value_diverges :
    (lib : Library) (fuel : ℕ) (name value : Bytes) (t : Transaction)
    → all_have_value lib value (get_header name t) ≡ false
    → remove_header_value lib fuel name value t ≡ none
unfolding remove_header_value get_header
remove_header_value_diverges lib fuel name value t h =
    rw (loop_stuck lib fuel value (equal_range name t.headers) h, remove_header_value)
