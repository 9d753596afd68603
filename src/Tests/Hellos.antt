-- ===== src/Tests/Hellos.antt =====
-- Client hellos at concrete inputs.
use http_filtering_engine.Base.{
  Bytes, true, [], ◌∷◌, ◌++◌, ◌≡◌, refl, codes, some, replicate, arith,
}
use http_filtering_engine.Bridge.State.{success, resolve}
use http_filtering_engine.Bridge.Requests.{service}
use http_filtering_engine.Bridge.TlsPeek.{
  extension, go_on, endless, bad_index, add_size, size_of_pair, size_of_char, within_bounds,
  checked, reading, reading_pair, hello_fields, walk_hello, on_tls_peek,
}
use http_filtering_engine.Bridge.TlsPeek.Endless.{walk_hello-endless}
use http_filtering_engine.Bridge.TlsPeek.Answer.{
  Hello, IsWellFormed, hello_bytes, on_tls_peek-hello,
}
use http_filtering_engine.Tests.Bridges.{joined}

-- An extension of kind 0x0101 whose length is 0x00FC.
abbrev circling : Bytes
circling = replicate 49 0 ++ (1 ∷ 1 ∷ 0 ∷ 252 ∷ [])

circling_fields : hello_fields circling ≡ go_on (extension 49)
unfolding hello_fields checked reading_pair reading within_bounds add_size size_of_pair size_of_char
circling_fields = refl

walk_hello-endless_example : walk_hello 1000 circling ≡ endless
unfolding size_of_pair
walk_hello-endless_example =
    walk_hello-endless circling 49 (omega arith) (omega arith) refl refl 1000 circling_fields

abbrev small_hello : Hello
small_hello = record {
  minor = 1;
  first_length = 0;
  second_length = 90;
  random = replicate 37 7;
  session = 5 ∷ 6 ∷ [];
  suites = 0 ∷ 47 ∷ [];
  methods = 0 ∷ [];
  total = 20;
  others = record { high = 0; low = 23; body = 1 ∷ [] } ∷ [];
  size = 8;
  list = 6;
  name = codes "a.b";
  tail = [];
}

small_hello-IsWellFormed : IsWellFormed small_hello
unfolding size_of_pair
small_hello-IsWellFormed = record {
  later_version = omega arith;
  signed_version = omega arith;
  head_length = refl;
  short_session = omega arith;
  plain_suites = omega arith;
  short_methods = omega arith;
  other_extensions = ((refl, omega arith), tt);
  plain_name = omega arith;
  some_name = refl;
  fits = omega arith;
}

on_tls_peek-hello_example :
    on_tls_peek 7 success (hello_bytes small_hello) joined
    ≡ some (
      record joined { upstream_host = codes "a.b"; upstream_host_port = 443 },
      resolve (codes "a.b") (service true),
    )
on_tls_peek-hello_example = on_tls_peek-hello small_hello small_hello-IsWellFormed 4 joined

-- A session id's length of 211 leads to an index in front of the buffer.
before_buffer : walk_hello 9 (replicate 43 0 ++ (211 ∷ 0 ∷ [])) ≡ bad_index
unfolding walk_hello hello_fields checked reading_pair reading within_bounds add_size size_of_pair
    size_of_char
before_buffer = refl
