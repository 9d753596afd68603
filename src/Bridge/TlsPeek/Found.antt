-- ===== src/Bridge/TlsPeek/Found.antt =====
-- The fields of a client hello in front of its extensions, and the name that OnTlsPeek of
-- TlsCapableHttpBridge.hpp takes from the whole.
use http_filtering_engine.Base.{
  Bytes, ℕ, ◌+◌, ◌<◌, ◌≤◌, ◌≡◌, refl, ◌∙◌, ap, sym, [], ◌∷◌, ◌++◌, append_assoc, length-append,
  length, get_or, arith,
}
use http_filtering_engine.Bridge.TlsPeek.{extension, go_on, add_size, size_of_char, hello_fields}
use http_filtering_engine.Bridge.TlsPeek.Reading.{pair_at, add_size_small, checked_lem, in_buffer}
use http_filtering_engine.Bridge.TlsPeek.Hello.{two_bytes, IsPlainLength, byte_at, length_at}

-- The session's id, the cipher suites and the compression methods, each with its length, and the
-- length of the extensions, which the program does not use.
abbrev pub fields_onto : Bytes → Bytes → Bytes → ℕ → Bytes → Bytes
fields_onto session suites methods total rest =
    length session
    ∷ (session
        ++ two_bytes (length suites)
            (suites ++ (length methods ∷ (methods ++ two_bytes total rest))))

small_char : (n : ℕ) → n < 128 → size_of_char n ≡ n
unfolding size_of_char
small_char n h = ground arith

module _ (head session suites methods : Bytes) (total : ℕ) (rest bytes : Bytes)
    (e : bytes ≡ head ++ fields_onto session suites methods total rest) (n : length bytes < 16384)
    (forty_three : length head ≡ 43) (few : length session < 128)
    (plain : IsPlainLength (length suites)) (methods_few : length methods < 128) where
  abbrev a1 : Bytes
  a1 = head ++ (length session ∷ session)

  abbrev a2 : Bytes
  a2 = a1 ++ two_bytes (length suites) suites

  abbrev a3 : Bytes
  a3 = a2 ++ (length methods ∷ methods)

  abbrev a4 : Bytes
  a4 = a3 ++ two_bytes total []

  abbrev r3 : Bytes
  r3 = two_bytes total rest

  abbrev r2 : Bytes
  r2 = length methods ∷ (methods ++ r3)

  abbrev r1 : Bytes
  r1 = two_bytes (length suites) (suites ++ r2)

  e1 : bytes ≡ a1 ++ r1
  e1 = e ∙ sym (append_assoc head (length session ∷ session) r1)

  e2 : bytes ≡ a2 ++ r2
  e2 = e1 ∙ sym (append_assoc a1 (two_bytes (length suites) suites) r2)

  e3 : bytes ≡ a3 ++ r3
  e3 = e2 ∙ sym (append_assoc a2 (length methods ∷ methods) r3)

  pub e4 : bytes ≡ a4 ++ rest
  e4 = e3 ∙ sym (append_assoc a3 (two_bytes total []) rest)

  p1 : length a1 ≡ 43 + (length session + 1)
  p1 = omega (arith, forty_three, length-append head (length session ∷ session))

  p2 : length a2 ≡ length a1 + (length suites + 2)
  p2 = omega (arith, length-append a1 (two_bytes (length suites) suites))

  p3 : length a3 ≡ length a2 + (length methods + 1)
  p3 = omega (arith, length-append a2 (length methods ∷ methods))

  p4 : length a4 ≡ length a3 + 2
  p4 = omega (arith, length-append a3 (two_bytes total []))

  long : length a4 ≤ length bytes
  long = omega (arith, ap length e4, length-append a4 rest)

  session_length : size_of_char (get_or bytes 43 0) ≡ length session
  session_length =
      rw
        (byte_at bytes head (fields_onto session suites methods total rest) 0 43 e
          (omega (arith, forty_three)))
        (small_char (length session) few)

  methods_length : size_of_char (get_or bytes (length a2) 0) ≡ length methods
  methods_length =
      rw (byte_at bytes a2 r2 0 (length a2) e2 (omega arith))
        (small_char (length methods) methods_few)

  suites_length : pair_at bytes (length a1) ≡ length suites
  suites_length =
      length_at bytes a1 r1 (length suites) 0 (length a1) e1 (omega arith) refl refl plain

  q1 : add_size 43 (add_size (length session) 1) ≡ length a1
  q1 =
      rw
        (
          add_size_small (length session) 1 (omega arith),
          add_size_small 43 (length session + 1) (omega arith),
        )
        (sym p1)

  q2 : add_size (length a1) (add_size (length suites) 2) ≡ length a2
  q2 =
      rw
        (
          add_size_small (length suites) 2 (omega (arith, p1, p2, p3, p4, long)),
          add_size_small (length a1) (length suites + 2) (omega (arith, p1, p2, p3, p4, long)),
        )
        (sym p2)

  q3 : add_size (length a2) (add_size (length methods) 1) ≡ length a3
  q3 =
      rw
        (
          add_size_small (length methods) 1 (omega arith),
          add_size_small (length a2) (length methods + 1) (omega (arith, p3, p4, long)),
        )
        (sym p3)

  q4 : add_size (length a3) 2 ≡ length a4
  q4 = rw (add_size_small (length a3) 2 (omega (arith, p4, long))) (sym p4)

  pub fields_found : hello_fields bytes ≡ go_on (extension (length a4))
  unfolding hello_fields
  fields_found = rw (
    session_length,
    q1,
    add_size_small (length a1) 1 (omega (arith, p2, p3, p4, long)),
    checked_lem (length bytes) (length a1 + 1) _ (omega (arith, p2, p3, p4, long))
        (omega (arith, p2, p3, p4, long)),
    in_buffer (length a1) (omega (arith, p2, p3, p4, long)),
    in_buffer (length a1 + 1) (omega (arith, p2, p3, p4, long)),
    suites_length,
    q2,
    checked_lem (length bytes) (length a2) _ (omega (arith, p3, p4, long))
        (omega (arith, p3, p4, long)),
    in_buffer (length a2) (omega (arith, p3, p4, long)),
    methods_length,
    q3,
    add_size_small (length a3) 1 (omega (arith, p4, long)),
    checked_lem (length bytes) (length a3 + 1) _ (omega (arith, p4, long))
        (omega (arith, p4, long)),
    in_buffer (length a3) (omega (arith, p4, long)),
    in_buffer (length a3 + 1) (omega (arith, p4, long)),
    q4,
    checked_lem (length bytes) (length a4) _ (omega (arith, long)) long,
  )
