-- ===== src/Bridge/TlsPeek/Hello.antt =====
-- A client hello as RFC 5246 and RFC 6066 lay it out, and what OnTlsPeek of TlsCapableHttpBridge.hpp
-- finds in it.
use http_filtering_engine.Base.{
  Bytes, ℕ, suc, ◌+◌, ◌/◌, ◌%◌, ◌<◌, ◌≡◌, refl, ◌∙◌, ap, sym, List, [], ◌∷◌, ◌++◌, append_assoc,
  length-append, take-append_length, drop-append_length, false, true, length, get_or, take, drop,
  ◌==◌, arith,
}
use native.Mathlib.Nat.{zero-add}
use http_filtering_engine.Bridge.TlsPeek.{
  extension, named, add_size, size_of_pair, name_at, walk_round, walk_loop,
}
use http_filtering_engine.Bridge.TlsPeek.Reading.{
  pair_at, add_size_small, extension_round_skip, extension_round_names, part_round_named,
}

-- A length in two bytes.
abbrev pub two_bytes : ℕ → Bytes → Bytes
two_bytes n rest = n / 256 ∷ (n % 256 ∷ rest)

-- A length whose two bytes are both below 128, as those of type `char` that are not negative.
abbrev pub IsPlainLength : ℕ → Type 0
IsPlainLength n = (n / 256 < 128) × (n % 256 < 128)

-- An extension other than that of the names.
pub record Extension : Type 0 where
  pub high : ℕ
  pub low : ℕ
  pub body : Bytes

abbrev IsOther : Extension → Type 0
IsOther x = ((size_of_pair x.high x.low == 0) ≡ false) × IsPlainLength (length x.body)

abbrev pub AllOther : List Extension → Type 0
AllOther [] = Unit
AllOther (x ∷ xs) = IsOther x × AllOther xs

abbrev pub extensions_onto : List Extension → Bytes → Bytes
extensions_onto [] rest = rest
extensions_onto (x ∷ xs) rest =
    x.high ∷ (x.low ∷ two_bytes (length x.body) (x.body ++ extensions_onto xs rest))

-- The extension of the names with one name of kind 0, and what follows. The lengths of the extension
-- and of the list of names are any.
abbrev pub names_onto : ℕ → ℕ → Bytes → Bytes → Bytes
names_onto size list name rest =
    0 ∷ (0 ∷ two_bytes size (two_bytes list (0 ∷ two_bytes (length name) (name ++ rest))))

one_more : (n i : ℕ) → suc n + i ≡ suc (n + i)
one_more n i = omega arith

get_or_append :
    (pre rest : Bytes) (i : ℕ) → get_or (pre ++ rest) (length pre + i) 0 ≡ get_or rest i 0
get_or_append [] rest i = ap (λ j. get_or rest j 0) (omega arith)
get_or_append (c ∷ pre) rest i =
    ap (λ j. get_or (c ∷ (pre ++ rest)) j 0) (one_more (length pre) i) ∙ get_or_append pre rest i

size_of_two_bytes : (n : ℕ) → IsPlainLength n → size_of_pair (n / 256) (n % 256) ≡ n
unfolding size_of_pair
size_of_two_bytes n h = ground arith

-- The byte at an index behind a known part.
pub byte_at :
    (bytes pre rest : Bytes) (i j : ℕ)
    → bytes ≡ pre ++ rest
    → j ≡ length pre + i
    → get_or bytes j 0 ≡ get_or rest i 0
byte_at bytes pre rest i j e f = rw (e, f) (get_or_append pre rest i)

-- The length in the two bytes at an index.
pub length_at :
    (bytes pre rest : Bytes) (n i j : ℕ)
    → bytes ≡ pre ++ rest
    → j ≡ length pre + i
    → get_or rest i 0 ≡ n / 256
    → get_or rest (suc i) 0 ≡ n % 256
    → IsPlainLength n
    → pair_at bytes j ≡ n
length_at bytes pre rest n i j e f high low plain =
    rw
      (
        byte_at bytes pre rest i j e f,
        byte_at bytes pre rest (suc i) (j + 1) e (omega (arith, f)),
        high,
        low,
      )
      (size_of_two_bytes n plain)

positive : (n : ℕ) → (n == 0) ≡ false → 0 < n
positive n h = ground arith

module _ (size list : ℕ) (name tail : Bytes) (named_well : IsPlainLength (length name))
    (nonempty : (length name == 0) ≡ false) (bytes : Bytes) (n : length bytes < 16384) where
  -- The extension of the names is found in two rounds.
  names_found :
      (fuel : ℕ) (pre : Bytes)
      → bytes ≡ pre ++ names_onto size list name tail
      → walk_loop (suc (suc fuel)) bytes (extension (length pre)) ≡ named name
  unfolding walk_loop walk_round name_at
  names_found fuel pre e =
      let shown : Bytes =
        0 ∷ (0 ∷ two_bytes size (two_bytes list (0 ∷ two_bytes (length name) []))) in
      let all : Bytes = names_onto size list name tail in
      let e' : bytes ≡ (pre ++ shown) ++ (name ++ tail) =
        e ∙ sym (append_assoc pre shown (name ++ tail)) in
      let long : length pre + 9 + (length name + length tail) ≡ length bytes = omega (
        arith,
        ap length e',
        length-append (pre ++ shown) (name ++ tail),
        length-append pre shown,
        length-append name tail,
      ) in
      let kind : (pair_at bytes (length pre) == 0) ≡ true = rw (
        byte_at bytes pre all 0 (length pre) e (omega arith),
        byte_at bytes pre all 1 (length pre + 1) e refl,
      ) in
      let zero_kind : (get_or bytes (length pre + 6) 0 == 0) ≡ true =
        rw (byte_at bytes pre all 6 (length pre + 6) e refl) in
      let count : pair_at bytes (length pre + 6 + 1) ≡ length name =
        length_at bytes pre all (length name) 7 (length pre + 6 + 1) e (omega arith) refl refl
          named_well in
      let place : length pre + 6 + 3 ≡ length (pre ++ shown) =
        omega (arith, length-append pre shown) in
      let cut : take (length name) (drop (length pre + 6 + 3) bytes) ≡ name =
        rw (place, e', drop-append_length (pre ++ shown) (name ++ tail))
          (take-append_length name tail) in
      rw
        (
          walk_loop,
          extension_round_names bytes (length pre) n
              (omega (arith, long, positive (length name) nonempty)) kind,
          part_round_named bytes (length pre + 6) (pair_at bytes (length pre + 2)) n
              (omega (arith, long)) zero_kind,
          count,
        )
        (rw nonempty (ap named cut))

  pub others_found :
      (fuel : ℕ) (xs : List Extension) (pre : Bytes)
      → AllOther xs
      → bytes ≡ pre ++ extensions_onto xs (names_onto size list name tail)
      → walk_loop (length xs + suc (suc fuel)) bytes (extension (length pre)) ≡ named name
  unfolding walk_loop walk_round
  others_found fuel [] pre h e = rw zero-add (names_found fuel pre e)
  others_found fuel (x ∷ xs) pre h e =
      let head : Bytes = x.high ∷ (x.low ∷ two_bytes (length x.body) x.body) in
      let rest : Bytes = extensions_onto xs (names_onto size list name tail) in
      let e' : bytes ≡ (pre ++ head) ++ rest = e ∙ sym (append_assoc pre head rest) in
      let long : length bytes ≡ length pre + (4 + (length x.body + length rest)) =
        omega (arith, ap length e', length-append (pre ++ head) rest, length-append pre head) in
      let kind : (pair_at bytes (length pre) == 0) ≡ false =
        rw
          (
            byte_at bytes pre (head ++ rest) 0 (length pre) e (omega arith),
            byte_at bytes pre (head ++ rest) 1 (length pre + 1) e refl,
          )
          h.0.0 in
      let width : pair_at bytes (length pre + 2) ≡ length x.body =
        length_at bytes pre (head ++ rest) (length x.body) 2 (length pre + 2) e refl refl refl
          h.0.1 in
      let next : add_size (length pre + 4) (pair_at bytes (length pre + 2)) ≡ length (pre ++ head) =
        rw (width, add_size_small (length pre + 4) (length x.body) (omega (arith, long)))
          (omega (arith, length-append pre head)) in
      rw
        (
          one_more (length xs) (suc (suc fuel)),
          walk_loop,
          extension_round_skip bytes (length pre) n (omega (arith, long)) kind,
          next,
        )
        (others_found fuel xs (pre ++ head) h.1 e')
