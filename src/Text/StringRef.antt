-- ===== src/Text/StringRef.antt =====
-- Equal and Split of src/te/util/string/StringRefUtil.hpp, and the hashing of
-- src/te/httpengine/util/hash/StringHashUtils.hpp.
pub mod Agreement
pub mod Splitting
use http_filtering_engine.Base.{
  Bytes, ℕ, zero, suc, ◌+◌, ◌-◌, ◌≤◌, ◌<◌, Bool, true, false, not, ◌&&◌, ◌||◌, ◌≡◌, ◌≢◌, ◌↔◌, refl,
  ap, ap₂, sym, ◌∙◌, [], ◌∷◌, ◌++◌, List, map, if◌then◌else◌, leb, ltb, ◌==◌, ==_iff, bytes_eq,
  bytes_eq_iff, to_upper, length, length-append, get_or, take, drop, Option, some, none, All, arith,
  Bool-cases, inl, inr,
}
use http_filtering_engine.External.{Library, IequalsFoldsCase}

-- `Equal`; `std::memcmp` on as many bytes as both have.
unfoldable pub equal : Bytes → Bytes → Bool
unfolding bytes_eq
equal lhs rhs =
    let size = length lhs in
    if not (size == length rhs)
    then false
    else if leb 4 size
    then if (get_or lhs 0 0 == get_or rhs 0 0)
        && ((get_or lhs 1 0 == get_or rhs 1 0)
            && ((get_or lhs (size - 1) 0 == get_or rhs (size - 1) 0)
                && (get_or lhs (size - 2) 0 == get_or rhs (size - 2) 0)))
      then bytes_eq lhs rhs
      else false
    else bytes_eq lhs rhs

-- `string_ref::find` of a character.
unfoldable pub find_char : ℕ → Bytes → Option ℕ
find_char delim [] = none
find_char delim (c ∷ cs) =
    if c == delim then some 0 else elim (find_char delim cs) [ none ↦ none | some i ↦ some (i + 1) ]

-- The loop of `Split`, on the place that was found last. A delimiter in front is taken off without
-- a new search. The results are in order; none is out of fuel.
unfoldable pub split_loop : ℕ → ℕ → Bytes → Option ℕ → Option (List Bytes)
split_loop zero delim what i = none
split_loop (suc fuel) delim what none = some []
split_loop (suc fuel) delim what (some i) =
    let rest = drop (i + 1) what in
    let stay = split_loop fuel delim rest (some i) in
    let search = split_loop fuel delim rest (find_char delim rest) in
    if i + 1 == length what then some [] else elim (if i == 0 then stay else search) [
      | none ↦ none
      | some pieces ↦ some (take i what ∷ pieces)
    ]

-- `Split`.
unfoldable pub split : ℕ → Bytes → ℕ → Option (List Bytes)
split fuel what delim = split_loop fuel delim what (find_char delim what)

-- `ICaseStringHash`, with `boost::hash_combine`.
unfoldable pub icase_hash : (ℕ → ℕ → ℕ) → Bytes → ℕ → ℕ
icase_hash hash_combine [] seed = seed
icase_hash hash_combine (c ∷ cs) seed = icase_hash hash_combine cs (hash_combine seed (to_upper c))

-- `ICaseStringEquality`: the first character of an empty text is its NUL byte.
unfoldable pub icase_equal : Library → Bytes → Bytes → Bool
icase_equal lib a b =
    if not (length a == length b)
    then false
    else if not (to_upper (get_or a 0 0) == to_upper (get_or b 0 0))
    then false
    else lib.iequals a b
