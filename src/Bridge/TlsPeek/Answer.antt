-- ===== src/Bridge/TlsPeek/Answer.antt =====
-- OnTlsPeek of TlsCapableHttpBridge.hpp on a whole client hello.
use http_filtering_engine.Base.{
  Bytes, ℕ, suc, ◌+◌, ◌<◌, ◌≡◌, refl, List, [], ◌∷◌, ◌++◌, some, length-append, false, true, length,
  ltb, ◌==◌, arith,
}
use http_filtering_engine.Bridge.State.{Bridge, success, resolve}
use http_filtering_engine.Bridge.Requests.{service}
use http_filtering_engine.Bridge.TlsPeek.{
  named, walk_hello, is_tls_version, is_client_hello, after_walk, on_tls_peek,
}
use http_filtering_engine.Bridge.TlsPeek.Hello.{
  two_bytes, IsPlainLength, Extension, AllOther, extensions_onto, names_onto, others_found,
}
use http_filtering_engine.Bridge.TlsPeek.Found.{fields_onto, fields_found, e4}

-- The parts of a hello: its version's second byte, the lengths of record and message and the client's
-- version and random bytes, the fields that each have a length in front, the extensions in front of
-- that of the names, and the name.
pub record Hello : Type 0 where
  pub minor : ℕ
  pub first_length : ℕ
  pub second_length : ℕ
  pub random : Bytes
  pub session : Bytes
  pub suites : Bytes
  pub methods : Bytes
  pub total : ℕ
  pub others : List Extension
  pub size : ℕ
  pub list : ℕ
  pub name : Bytes
  pub tail : Bytes

abbrev hello_head : Hello → Bytes
hello_head h = 22 ∷ (3 ∷ (h.minor ∷ (h.first_length ∷ (h.second_length ∷ (1 ∷ h.random)))))

abbrev pub hello_bytes : Hello → Bytes
hello_bytes h =
    hello_head h
    ++ fields_onto h.session h.suites h.methods h.total
        (extensions_onto h.others (names_onto h.size h.list h.name h.tail))

-- No length has a byte of 128 or more, and the whole is shorter than the buffer.
pub record IsWellFormed (h : Hello) : Type 0 where
  pub later_version : 0 < h.minor
  pub signed_version : h.minor < 128
  pub head_length : length h.random ≡ 37
  pub short_session : length h.session < 128
  pub plain_suites : IsPlainLength (length h.suites)
  pub short_methods : length h.methods < 128
  pub other_extensions : AllOther h.others
  pub plain_name : IsPlainLength (length h.name)
  pub some_name : (length h.name == 0) ≡ false
  pub fits : length (hello_bytes h) < 16384

long_enough : (n : ℕ) → 43 < n → ltb 43 n ≡ true
long_enough n h = ground arith

module _ (h : Hello) (w : IsWellFormed h) (fuel : ℕ) where
  walk_hello-found : walk_hello (length h.others + suc (suc fuel)) (hello_bytes h) ≡ named h.name
  unfolding walk_hello
  walk_hello-found =
      let head : length (hello_head h) ≡ 43 = omega (arith, w.head_length) in
      let rest : Bytes = extensions_onto h.others (names_onto h.size h.list h.name h.tail) in
      let bytes : Bytes = hello_bytes h in
      rw
        (
          walk_hello,
          fields_found (hello_head h) h.session h.suites h.methods h.total rest bytes refl w.fits
              head w.short_session w.plain_suites w.short_methods,
        )
        (others_found h.size h.list h.name h.tail w.plain_name w.some_name bytes w.fits fuel
          h.others
          ((((hello_head h ++ (length h.session ∷ h.session))
                ++ two_bytes (length h.suites) h.suites)
              ++ (length h.methods ∷ h.methods))
            ++ two_bytes h.total [])
          w.other_extensions
          (e4 (hello_head h) h.session h.suites h.methods h.total rest bytes refl w.fits head
            w.short_session w.plain_suites w.short_methods))

  -- `OnTlsPeek` finds the name in a client hello: for a record of a handshake whose version is 3.1
  -- or later, with a session id, cipher suites, compression methods, any extensions of other kinds
  -- and then that of the names with one name of kind 0, it sets the bridge's host to the name and
  -- its port to 443 and starts a resolve, within two rounds more than there are other extensions.
  -- The hello is shorter than the buffer of 16384 bytes, its name is not empty, and no byte of its
  -- version and of the lengths that are read is 128 or more.
  pub on_tls_peek-hello :
      (b : Bridge)
      → on_tls_peek (length h.others + suc (suc fuel)) success (hello_bytes h) b
        ≡ some (
          record b { upstream_host = h.name; upstream_host_port = 443 },
          resolve h.name (service true),
        )
  unfolding on_tls_peek is_tls_version is_client_hello after_walk
  on_tls_peek-hello b =
      let enough : ltb 43 (length (hello_bytes h)) ≡ true = long_enough (length (hello_bytes h)) (
        omega (
          arith,
          w.head_length,
          length-append (hello_head h) (
              fields_onto h.session h.suites h.methods h.total
                (extensions_onto h.others (names_onto h.size h.list h.name h.tail))),
        )) in
      let first : ltb 0 h.minor ≡ true = ground (arith, w.later_version) in
      let second : ltb h.minor 128 ≡ true = ground (arith, w.signed_version) in
      rw (enough, first, second, walk_hello-found)
