-- ===== src/Tests/Library.antt =====
-- Concrete functions for what the program calls elsewhere: `iequals` folds case, each filter puts a
-- byte in front, and the parser reports one header.
use http_filtering_engine.Base.{
  Bytes, ℕ, true, [], ◌∷◌, Option, some, none, ◌≡◌, refl, map, bytes_eq, to_upper, codes, length,
  ◌==◌, if◌then◌else◌, arith,
}
use http_filtering_engine.External.{
  Library, Parser, Execution, Callback, Event, IequalsFoldsCase, GzipUndoes, ZlibUndoes,
  StoppedIsError,
}
use http_filtering_engine.External
use http_filtering_engine.Http.Headers.{HeaderMap}
use http_filtering_engine.Http.State.{Transaction, http1_1, new_response}

-- A filter and the one that undoes it.
abbrev framed : ℕ → Bytes → Option Bytes
framed b text = some (b ∷ text)

abbrev unframed : ℕ → Bytes → Option Bytes
unframed b [] = none
unframed b (c ∷ text) = if c == b then some text else none

abbrev pub parser : Parser
parser = record {
  http_major = 1;
  http_minor = 1;
  status_code = 200;
  method = 1;
  http_errno = 0;
  upgrade = 0;
  content_length = 0;
}

abbrev pub callback : Event → Callback
callback e = record { parser = parser; stops_at = 0; event = e }

abbrev pub run_of : Bytes → Execution
run_of bytes = record {
  callbacks =
      callback External.message_begin
      ∷ callback (External.header_field (codes "Ho"))
      ∷ callback (External.header_field (codes "st"))
      ∷ callback (External.header_value (codes "a.b"))
      ∷ callback External.headers_complete
      ∷ [];
  parser = parser;
  nparsed = length bytes;
}

abbrev pub toy : Library
toy = record {
  iequals = λ a b. bytes_eq (map to_upper a) (map to_upper b);
  ifind_first = λ a b. bytes_eq a b;
  gzip_compress = framed 1;
  gzip_decompress = unframed 1;
  zlib_compress = framed 2;
  zlib_decompress = unframed 2;
  http_method_str = λ _. codes "GET";
  execute = λ _ bytes. run_of bytes;
  stopped = λ p. record p { http_errno = 8 };
  execute_both = λ bytes. (0, codes "body");
}

pub toy-IequalsFoldsCase : IequalsFoldsCase toy
toy-IequalsFoldsCase a b = refl

unframed-framed : (b : ℕ) (p c : Bytes) → framed b p ≡ some c → unframed b c ≡ some p
unframed-framed b p c e = ground arith

pub toy-GzipUndoes : GzipUndoes toy
toy-GzipUndoes = unframed-framed 1

toy-ZlibUndoes : ZlibUndoes toy
toy-ZlibUndoes = unframed-framed 2

toy-StoppedIsError : StoppedIsError toy
toy-StoppedIsError p e = ground arith

-- A response whose headers are given.
abbrev pub with_headers : HeaderMap → Transaction
with_headers m = record (new_response parser http1_1 200 (codes "abc")) {
  headers = m;
  payload = codes "text";
  payload_complete = true;
  last_header_field_fresh = true;
}

abbrev pub two_headers : Transaction
two_headers = with_headers ((codes "Accept", codes "a") ∷ (codes "host", codes "b") ∷ [])
