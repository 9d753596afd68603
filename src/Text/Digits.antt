-- ===== src/Text/Digits.antt =====
-- Numbers printed in base 10 (`std::to_string`) and in base 16 (`std::hex`), and read back.
use http_filtering_engine.Base.{
  ℕ, zero, suc, ◌+◌, ◌-◌, ◌*◌, ◌/◌, ◌%◌, ◌<◌, ◌≤◌, ◌≡◌, refl, ◌∙◌, ap, [], ◌∷◌, true, false, Bytes,
  ltb, leb, if◌then◌else◌, ◌&&◌, All, is_empty, arith, Option, some, none, Bool-cases, inl, inr,
}
use native.Mathlib.Nat.{div-add-mod', mod-lt, div-lt_self}

-- A digit below 16, in lower case.
unfoldable digit : ℕ → ℕ
digit n = if ltb n 10 then b'0' + n else b'a' + (n - 10)

-- The digits of `n` in base `b`, in front of what is written already.
unfoldable digits_onto : ℕ → ℕ → ℕ → Bytes → Bytes
digits_onto b zero n acc = acc
digits_onto b (suc f) n acc = elim (ltb n b) [
  | true ↦ digit n ∷ acc
  | false ↦ digits_onto b f (n / b) (digit (n % b) ∷ acc)
]

-- A number `n` has at most `n + 1` digits.
unfoldable pub to_string : ℕ → Bytes
unfolding digits_onto digit
to_string n = digits_onto 10 (suc n) n []

unfoldable pub to_hex : ℕ → Bytes
unfolding digits_onto digit
to_hex n = digits_onto 16 (suc n) n []

-- The value of a hexadecimal digit, which a decimal one is too.
unfoldable digit_value : ℕ → Option ℕ
digit_value c =
    if leb b'0' c && leb c b'9'
    then some (c - b'0')
    else if leb b'a' c && leb c b'f'
    then some (c - b'a' + 10)
    else none

-- The value of a text of digits, most significant first.
unfoldable value_onto : ℕ → ℕ → Bytes → Option ℕ
value_onto b acc [] = some acc
value_onto b acc (c ∷ cs) = elim (digit_value c) [
  | none ↦ none
  | some d ↦ if ltb d b then value_onto b (acc * b + d) cs else none
]

unfoldable pub read_number : ℕ → Bytes → Option ℕ
unfolding value_onto digit_value
read_number b cs = if is_empty cs then none else value_onto b 0 cs

digit_value-digit : (n : ℕ) → n < 16 → digit_value (digit n) ≡ some n
unfolding digit digit_value
digit_value-digit n h = ground arith

abbrev pub IsDigit : ℕ → Type 0
IsDigit c = (c ≡ b'\r' → ⊥) × (c ≡ b'\n' → ⊥)

digit-IsDigit : (n : ℕ) → IsDigit (digit n)
unfolding digit
digit-IsDigit n = ground arith

module _ (b : ℕ) (low : 2 ≤ b) (high : b ≤ 16) where
  value_onto-digit :
      (acc n : ℕ) (cs : Bytes)
      → n < b
      → value_onto b acc (digit n ∷ cs) ≡ value_onto b (acc * b + n) cs
  unfolding value_onto
  value_onto-digit acc n cs h = ground (arith, digit_value-digit n)

  shrinks : (n : ℕ) {f : ℕ} → n < suc f → ltb n b ≡ false → n / b < f
  shrinks n h large = let s : n / b < n = div-lt_self (ground arith) low in omega arith

  value_onto-digits_onto :
      (f n : ℕ) (acc : Bytes) → n < f → value_onto b 0 (digits_onto b f n acc) ≡ value_onto b n acc
  unfolding digits_onto
  value_onto-digits_onto zero n acc h = absurd (omega arith)
  value_onto-digits_onto (suc f) n acc h = elim (Bool-cases (ltb n b)) [
    | inl small ↦
        rw (small, digits_onto)
          (value_onto-digit 0 n acc (ground arith) ∙ ap (λ m. value_onto b m acc) (omega arith))
    | inr large ↦
        rw (large, digits_onto)
          (value_onto-digits_onto f (n / b) (digit (n % b) ∷ acc) (shrinks n h large)
            ∙ value_onto-digit (n / b) (n % b) acc (mod-lt n (omega arith))
            ∙ ap (λ m. value_onto b m acc) (div-add-mod' n b))
  ]

-- A nonempty text stays so when digits are put in front.
is_empty-digits_onto : (b f n c : ℕ) (acc : Bytes) → is_empty (digits_onto b f n (c ∷ acc)) ≡ false
unfolding digits_onto
is_empty-digits_onto b zero n c acc = refl
is_empty-digits_onto b (suc f) n c acc =
    ground (arith, is_empty-digits_onto b f (n / b) (digit (n % b)) (c ∷ acc))

is_empty-digits : (b f n : ℕ) → is_empty (digits_onto b (suc f) n []) ≡ false
unfolding digits_onto
is_empty-digits b f n = ground (arith, is_empty-digits_onto b f (n / b) (digit (n % b)) [])

-- No digit is a carriage return or a line feed.
digits_onto-IsDigit :
    (b f n : ℕ) (acc : Bytes) → All IsDigit acc → All IsDigit (digits_onto b f n acc)
unfolding digits_onto
digits_onto-IsDigit b zero n acc h = h
digits_onto-IsDigit b (suc f) n acc h = elim (Bool-cases (ltb n b)) [
  | inl small ↦ rw (small, digits_onto) (digit-IsDigit n, h)
  | inr large ↦
      rw (large, digits_onto)
        (digits_onto-IsDigit b f (n / b) (digit (n % b) ∷ acc) (digit-IsDigit (n % b), h))
]

pub to_hex-IsDigit : (n : ℕ) → All IsDigit (to_hex n)
unfolding to_hex
to_hex-IsDigit n = digits_onto-IsDigit 16 (suc n) n [] tt

-- What `std::to_string` prints reads back as the number.
pub read_number-to_string : (n : ℕ) → read_number 10 (to_string n) ≡ some n
unfolding read_number
read_number-to_string n =
    unfold to_string in
    rw (is_empty-digits 10 n n)
      (value_onto-digits_onto 10 (omega arith) (omega arith) (suc n) n [] (omega arith))

-- What `std::hex` prints reads back as the number.
pub read_number-to_hex : (n : ℕ) → read_number 16 (to_hex n) ≡ some n
unfolding read_number
read_number-to_hex n =
    unfold to_hex in
    rw (is_empty-digits 16 n n)
      (value_onto-digits_onto 16 (omega arith) (omega arith) (suc n) n [] (omega arith))
