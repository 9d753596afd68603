-- ===== src/Bridge/TlsPeek/Reading.antt =====
-- The rounds of OnTlsPeek of TlsCapableHttpBridge.hpp where they read inside of the buffer.
use http_filtering_engine.Base.{
  Bytes, ℕ, ◌+◌, ◌<◌, ◌≤◌, ◌≡◌, ap, true, false, length, get_or, ltb, ◌==◌, arith,
}
use http_filtering_engine.Bridge.TlsPeek.{
  extension, part, Stride, go_on, add_size, size_of_pair, within_bounds, checked, reading,
  reading_pair, extension_round, part_round, name_at, stop,
}

pub add_size_small : (a b : ℕ) → a + b < 65536 → add_size a b ≡ a + b
unfolding add_size
add_size_small a b h = omega arith

abbrev pub pair_at : Bytes → ℕ → ℕ
pair_at bytes i = size_of_pair (get_or bytes i 0) (get_or bytes (i + 1) 0)

module _ (bytes : Bytes) (i : ℕ) (k : ℕ → Stride) where
  pub reading_lem : i < 16384 → reading bytes i k ≡ k (get_or bytes i 0)
  unfolding reading
  reading_lem h = ground arith

  pub reading_pair_lem : i + 1 < 16384 → reading_pair bytes i k ≡ k (pair_at bytes i)
  unfolding reading_pair reading
  reading_pair_lem h =
      let e : ltb i 16384 ≡ true = ground arith in
      let f : ltb (i + 1) 16384 ≡ true = ground arith in rw (add_size_small i 1 (omega arith), e, f)

pub checked_lem : (n p : ℕ) (s : Stride) → p < 16384 → p ≤ n → checked n p s ≡ s
unfolding checked within_bounds
checked_lem n p s h k = ground arith

pub in_buffer : (i : ℕ) → i < 16384 → ltb i 16384 ≡ true
in_buffer i h = ground arith

-- An extension of another kind is stepped over.
pub extension_round_skip :
    (bytes : Bytes) (p : ℕ)
    → length bytes < 16384
    → p + 4 ≤ length bytes
    → (pair_at bytes p == 0) ≡ false
    → extension_round bytes p ≡ go_on (extension (add_size (p + 4) (pair_at bytes (p + 2))))
unfolding extension_round
extension_round_skip bytes p n h kind =
    let inside : ltb p (length bytes) ≡ true = ground arith in
    rw (
      inside,
      add_size_small p 4 (omega arith),
      add_size_small p 2 (omega arith),
      checked_lem (length bytes) (p + 4) _ (omega arith) h,
      in_buffer p (omega arith),
      add_size_small p 1 (omega arith),
      in_buffer (p + 1) (omega arith),
      in_buffer (p + 2) (omega arith),
      add_size_small (p + 2) 1 (omega arith),
      in_buffer (p + 2 + 1) (omega arith),
      kind,
    )

-- The extension of the names is entered.
pub extension_round_names :
    (bytes : Bytes) (p : ℕ)
    → length bytes < 16384
    → p + 10 ≤ length bytes
    → (pair_at bytes p == 0) ≡ true
    → extension_round bytes p ≡ go_on (part (p + 6) (pair_at bytes (p + 2)))
unfolding extension_round
extension_round_names bytes p n h kind =
    let inside : ltb p (length bytes) ≡ true = ground arith in
    let deep : p + 4 + 2 + 4 < 16384 = omega arith in
    rw
      (
        inside,
        add_size_small p 4 (omega arith),
        add_size_small p 2 (omega arith),
        checked_lem (length bytes) (p + 4) _ (omega arith) (omega arith),
        in_buffer p (omega arith),
        add_size_small p 1 (omega arith),
        in_buffer (p + 1) (omega arith),
        in_buffer (p + 2) (omega arith),
        add_size_small (p + 2) 1 (omega arith),
        in_buffer (p + 2 + 1) (omega arith),
        kind,
        add_size_small (p + 4) 2 (omega arith),
        add_size_small (p + 4 + 2) 4 (omega arith),
        checked_lem (length bytes) (p + 4 + 2 + 4) _ (omega arith) (omega arith),
      )
      (ap (λ q. go_on (part q (pair_at bytes (p + 2)))) (omega arith))

-- A part of kind 0 is the name.
pub part_round_named :
    (bytes : Bytes) (q size : ℕ)
    → length bytes < 16384
    → q + 3 ≤ length bytes
    → (get_or bytes q 0 == 0) ≡ true
    → part_round bytes q size ≡ stop (name_at bytes (q + 3) (pair_at bytes (q + 1)))
unfolding part_round
part_round_named bytes q size n h kind =
    let inside : ltb q (length bytes) ≡ true = ground arith in
    rw (
      inside,
      add_size_small q 3 (omega arith),
      add_size_small q 1 (omega arith),
      checked_lem (length bytes) (q + 3) _ (omega arith) h,
      in_buffer (q + 1) (omega arith),
      add_size_small (q + 1) 1 (omega arith),
      in_buffer (q + 1 + 1) (omega arith),
      in_buffer q (omega arith),
      kind,
    )
