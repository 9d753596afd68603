-- ===== src/Http/Head/RoundTrip.antt =====
-- The printed head against a reader of heads by RFC 7230.
use http_filtering_engine.Base.{
  Bytes, ℕ, zero, suc, [], ◌∷◌, ◌++◌, crlf, if◌then◌else◌, ◌==◌, Option, some, none, ◌≡◌, ◌≢◌, refl,
  sym, ap, ◌∙◌, All, arith, length, append_assoc, length-append, ◌<◌, ◌≤◌,
}
use http_filtering_engine.External.{Library}
use http_filtering_engine.Http.Headers.{Header, HeaderMap}
use http_filtering_engine.Http.State.{Transaction, Result, ok, thrown}
use http_filtering_engine.Http.State
use http_filtering_engine.Http.Head.{header_lines, headers_to_string, start_line, with_status}

-- The bytes in front of the first `stop`, and the text from there on.
unfoldable pub until : ℕ → Bytes → Option (Bytes × Bytes)
until stop [] = none
until stop (c ∷ cs) =
    if c == stop
    then some ([], c ∷ cs)
    else elim (until stop cs) [ none ↦ none | some (l, rest) ↦ some (c ∷ l, rest) ]

-- The text behind a prefix of one byte.
unfoldable pub expect : ℕ → Bytes → Option Bytes
expect b [] = none
expect b (c ∷ cs) = if c == b then some cs else none

infixl 5 ◌>>=◌
abbrev ◌>>=◌ {ℓ κ} : {A : Type ℓ} {B : Type κ} → Option A → (A → Option B) → Option B
none >>= f = none
some a >>= f = f a

-- One field, `name: value`, up to the carriage return behind it.
unfoldable pub read_field : Bytes → Option (Header × Bytes)
unfolding until expect
read_field text = do
  (name, r1) ← until b':' text
  r2 ← expect b':' r1
  r3 ← expect b' ' r2
  (value, r4) ← until b'\r' r3
  some ((name, value), r4)

-- The fields of a head by RFC 7230: lines that end in CRLF, and an empty line behind the last.
unfoldable pub read_fields : ℕ → Bytes → Option (HeaderMap × Bytes)
read_fields zero text = none
read_fields (suc fuel) text = do
  r1 ← expect b'\r' text
  r2 ← expect b'\n' r1
  elim (expect b'\r' r2) [
    | some r3 ↦ do body ← expect b'\n' r3; some ([], body)
    | none ↦ do (e, r3) ← read_field r2; (m, body) ← read_fields fuel r3; some (e ∷ m, body)
  ]

-- The start line, the headers and what follows the head.
unfoldable pub read_head : Bytes → Option (Bytes × HeaderMap × Bytes)
read_head text = do
  (line, r1) ← until b'\r' text
  (m, body) ← read_fields (length text) r1
  some (line, m, body)

abbrev pub Lacks : ℕ → Bytes → Type 0
Lacks stop = All (λ c. c ≢ stop)

-- No name has a colon or a carriage return, and no value has a carriage return.
abbrev pub IsPlain : Header → Type 0
IsPlain e = All (λ c. c ≢ b':') e.0 × All (λ c. c ≢ b'\r') e.0 × All (λ c. c ≢ b'\r') e.1

pub until-Lacks :
    (stop : ℕ) (l rest : Bytes)
    → Lacks stop l
    → until stop (l ++ (stop ∷ rest)) ≡ some (l, stop ∷ rest)
unfolding until
until-Lacks stop [] rest h = ground arith
until-Lacks stop (c ∷ l) rest h = ground (arith, until-Lacks stop l rest h.1)

read_field-plain :
    (name value rest : Bytes)
    → IsPlain (name, value)
    → read_field (name ++ (b':' ∷ b' ' ∷ (value ++ (b'\r' ∷ rest))))
      ≡ some ((name, value), b'\r' ∷ rest)
unfolding read_field
read_field-plain name value rest h =
    rw (until-Lacks b':' name (b' ' ∷ (value ++ (b'\r' ∷ rest))) h.0, read_field)
      (rw (until-Lacks b'\r' value rest h.2))

-- A name, or an empty one and its colon, does not begin with a carriage return.
expect-name : (name rest : Bytes) → Lacks b'\r' name → expect b'\r' (name ++ (b':' ∷ rest)) ≡ none
unfolding expect
expect-name [] rest h = refl
expect-name (c ∷ name) rest h = ground arith

-- What ends the head, and the body.
abbrev rest_of_head : Bytes → Bytes
rest_of_head body = crlf ++ (crlf ++ body)

lines_begin :
    (m : HeaderMap) (body : Bytes) → (r : Bytes) × (header_lines m ++ rest_of_head body ≡ b'\r' ∷ r)
unfolding header_lines
lines_begin [] body = (_, refl)
lines_begin ((name, value) ∷ m) body = (_, refl)

lines_regroup :
    (name value : Bytes) (m : HeaderMap) (body : Bytes)
    → header_lines ((name, value) ∷ m) ++ rest_of_head body
      ≡ b'\r' ∷ b'\n' ∷ (name ++ (b':' ∷ b' ' ∷ (value ++ (header_lines m ++ rest_of_head body))))
unfolding header_lines
lines_regroup name value m body = simp append_assoc

expect-cons : (b : ℕ) (rest : Bytes) → expect b (b ∷ rest) ≡ some rest
unfolding expect
expect-cons b rest = ground arith

read_fields-field :
    (fuel : ℕ) (name value r : Bytes) (m : HeaderMap) (body : Bytes)
    → IsPlain (name, value)
    → read_fields fuel (b'\r' ∷ r) ≡ some (m, body)
    → read_fields (suc fuel) (b'\r' ∷ b'\n' ∷ (name ++ (b':' ∷ b' ' ∷ (value ++ (b'\r' ∷ r)))))
      ≡ some ((name, value) ∷ m, body)
unfolding read_fields
read_fields-field fuel name value r m body h k = ground (
  arith,
  expect-cons b'\r' (b'\n' ∷ (name ++ (b':' ∷ b' ' ∷ (value ++ (b'\r' ∷ r))))),
  expect-cons b'\n' (name ++ (b':' ∷ b' ' ∷ (value ++ (b'\r' ∷ r)))),
  expect-name name (b' ' ∷ (value ++ (b'\r' ∷ r))) h.1,
  read_field-plain name value r h,
  k,
)

read_fields-lines :
    (fuel : ℕ) (m : HeaderMap) (body : Bytes)
    → length m < fuel
    → All IsPlain m
    → read_fields fuel (header_lines m ++ rest_of_head body) ≡ some (m, body)
read_fields-lines zero m body l h = absurd (omega arith)
read_fields-lines (suc fuel) [] body l h = unfold read_fields header_lines expect in refl
read_fields-lines (suc fuel) ((name, value) ∷ m) body l h =
    let (r, e) = lines_begin m body in
    ap (read_fields (suc fuel)) (lines_regroup name value m body)
    ∙ ap
        (λ rest. read_fields (suc fuel) (b'\r' ∷ b'\n' ∷ (name ++ (b':' ∷ b' ' ∷ (value ++ rest)))))
        e
    ∙ read_fields-field fuel name value r m body h.0
        (ap (read_fields fuel) (sym e) ∙ read_fields-lines fuel m body (omega arith) h.1)

length-header_lines : (m : HeaderMap) → length m ≤ length (header_lines m)
unfolding header_lines
length-header_lines [] = omega arith
length-header_lines ((name, value) ∷ m) = omega (
  arith,
  length-header_lines m,
  length-append name (b':' ∷ b' ' ∷ (value ++ header_lines m)),
  length-append value (header_lines m),
)

-- What was printed, by the transaction afterwards.
printed :
    (lib : Library) (r : Result Transaction) (t' : Transaction) (head : Bytes)
    → State.◌>>=◌ {B = Transaction × Bytes} r
        (λ u. ok (u, start_line lib u ++ (header_lines u.headers ++ (crlf ++ crlf))))
      ≡ ok (t', head)
    → head ≡ start_line lib t' ++ (header_lines t'.headers ++ (crlf ++ crlf))
printed lib (ok u) t' head e = ground arith
printed lib thrown t' head e = cc

printed-head :
    (lib : Library) (t t' : Transaction) (head : Bytes)
    → headers_to_string lib t ≡ ok (t', head)
    → head ≡ start_line lib t' ++ (header_lines t'.headers ++ (crlf ++ crlf))
unfolding headers_to_string
printed-head lib t t' head e = printed lib (with_status t) t' head e

read_head-parts :
    (line body : Bytes) (m : HeaderMap)
    → Lacks b'\r' line
    → All IsPlain m
    → read_head ((line ++ (header_lines m ++ (crlf ++ crlf))) ++ body) ≡ some (line, m, body)
unfolding read_head
read_head-parts line body m s h =
    let l : length m < length (line ++ (header_lines m ++ rest_of_head body)) = omega (
      arith,
      length-header_lines m,
      length-append line (header_lines m ++ rest_of_head body),
      length-append (header_lines m) (rest_of_head body),
    ) in
    rw (
      append_assoc,
      append_assoc,
      (lines_begin m body).1,
      until-Lacks b'\r' line (lines_begin m body).0 s,
      ← (lines_begin m body).1,
      read_fields-lines (length (line ++ (header_lines m ++ rest_of_head body))) m body l h,
    )

-- The head that either class prints, with any body behind it, reads back as the start line, the
-- headers in their order and the body, if the start line has no carriage return, no header's name
-- has a colon or a carriage return, and no value has a carriage return.
pub read_head-headers_to_string :
    (lib : Library) (t t' : Transaction) (head body : Bytes)
    → headers_to_string lib t ≡ ok (t', head)
    → All (λ c. c ≢ b'\r') (start_line lib t')
    → All IsPlain t'.headers
    → read_head (head ++ body) ≡ some (start_line lib t', t'.headers, body)
read_head-headers_to_string lib t t' head body e s h =
    ap (λ text. read_head (text ++ body)) (printed-head lib t t' head e)
    ∙ read_head-parts (start_line lib t') body t'.headers s h
