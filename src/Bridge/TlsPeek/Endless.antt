-- ===== src/Bridge/TlsPeek/Endless.antt =====
-- Where the walk of OnTlsPeek of TlsCapableHttpBridge.hpp does not come to an end.
use http_filtering_engine.Base.{
  Bytes, ℕ, zero, suc, ◌+◌, ◌<◌, ◌≤◌, ◌≡◌, refl, false, length, get_or, ◌==◌, arith,
}
use http_filtering_engine.Bridge.TlsPeek.{
  extension, go_on, endless, add_size, size_of_pair, hello_fields, walk_round, walk_loop,
  walk_hello,
}
use http_filtering_engine.Bridge.TlsPeek.Reading.{pair_at, extension_round_skip}

-- A size of four less than nothing takes the walk back over the head of its extension.
steps_back : (p h : ℕ) → p < 16384 → add_size (p + 4) (size_of_pair h 252) ≡ p
unfolding add_size size_of_pair
steps_back p h s = omega arith

module _ (bytes : Bytes) (p : ℕ) (n : length bytes < 16384) (h : p + 4 ≤ length bytes)
    (kind : (pair_at bytes p == 0) ≡ false) (low : get_or bytes (p + 2 + 1) 0 ≡ 252) where
  back : add_size (p + 4) (pair_at bytes (p + 2)) ≡ p
  back = rw low (steps_back p (get_or bytes (p + 2) 0) (omega arith))

  walk_loop-endless : (fuel : ℕ) → walk_loop fuel bytes (extension p) ≡ endless
  unfolding walk_loop walk_round
  walk_loop-endless zero = refl
  walk_loop-endless (suc fuel) =
      rw (walk_loop, extension_round_skip bytes p n h kind, back) (walk_loop-endless fuel)

  -- The walk of `OnTlsPeek` does not end on a hello, shorter than the buffer, whose first extension
  -- is of another kind than that of the names and has a length with the low byte 252: however many
  -- rounds it is given, it is still at that extension. The extension's head is inside of the hello.
  pub walk_hello-endless :
      (fuel : ℕ) → hello_fields bytes ≡ go_on (extension p) → walk_hello fuel bytes ≡ endless
  unfolding walk_hello
  walk_hello-endless fuel e = rw (walk_hello, e) (walk_loop-endless fuel)
