-- ===== src/Text/Stoi.antt =====
-- `std::stoi` in base 10, as C++ documents it: leading white space and a sign, then digits, as far as
-- they go. No digit, or a number that an `int` does not hold, throws: the result is `none`.
use http_filtering_engine.Base.{
  ℕ, zero, suc, ◌+◌, ◌-◌, ◌*◌, [], ◌∷◌, Bytes, Bool, true, false, leb, ltb, ◌==◌, ◌&&◌, ◌||◌,
  if◌then◌else◌, Option, some, none, ℤ, pos, negsuc,
}

abbrev is_space : ℕ → Bool
is_space c = c == b' ' || (leb 9 c && leb c 13)

unfoldable skip_spaces : Bytes → Bytes
skip_spaces [] = []
skip_spaces (c ∷ cs) = let rest = skip_spaces cs in if is_space c then rest else c ∷ cs

-- The value of the leading digits, with what is read already; `none` before the first digit.
unfoldable leading_digits : Option ℕ → Bytes → Option ℕ
leading_digits seen [] = seen
leading_digits seen (c ∷ cs) =
    let sum : ℕ = elim seen [ none ↦ 0 | some n ↦ n ] in
    let rest = leading_digits (some (sum * 10 + (c - b'0'))) cs in
    if leb b'0' c && leb c b'9' then rest else seen

abbrev in_range : Bool → ℕ → Option ℤ
in_range true zero = some (pos 0)
in_range true (suc n) = if ltb n 2147483648 then some (negsuc n) else none
in_range false n = if ltb n 2147483648 then some (pos n) else none

abbrev with_sign : Bool → Option ℕ → Option ℤ
with_sign minus none = none
with_sign minus (some n) = in_range minus n

abbrev signed : Bytes → Option ℤ
signed [] = none
signed (c ∷ cs) =
    if c == b'-'
    then with_sign true (leading_digits none cs)
    else if c == b'+'
    then with_sign false (leading_digits none cs)
    else with_sign false (leading_digits none (c ∷ cs))

unfoldable pub stoi : Bytes → Option ℤ
unfolding skip_spaces leading_digits
stoi text = signed (skip_spaces text)
