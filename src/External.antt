-- ===== src/External.antt =====
-- What the program calls and this repository does not hold, as parameters: boost's string
-- algorithms and compression filters, and the http_parser library. What the program relies on is
-- stated as named hypotheses, each with an instance in the modules of tests.
use http_filtering_engine.Base.{
  Bytes, ℕ, Bool, Option, some, ◌≡◌, ◌≢◌, List, map, bytes_eq, to_upper,
}

-- The fields of `struct http_parser` that the program reads.
pub record Parser : Type 0 where
  pub http_major : ℕ
  pub http_minor : ℕ
  pub status_code : ℕ
  pub method : ℕ
  pub http_errno : ℕ
  pub upgrade : ℕ
  pub content_length : ℕ

-- The callbacks of `http_parser_settings` that the parser makes, with their data.
pub data Event : Type 0 where
  message_begin headers_complete message_complete chunk_header chunk_complete : Event
  url status header_field header_value body : Bytes → Event

-- A callback, the parser as it is when the callback is made, and the number of bytes that
-- `http_parser_execute` returns if the callback stops it.
pub record Callback : Type 0 where
  pub parser : Parser
  pub stops_at : ℕ
  pub event : Event

-- What one call of `http_parser_execute` does when every callback returns 0: the callbacks in
-- order, the parser afterwards and the number of bytes parsed.
pub record Execution : Type 0 where
  pub callbacks : List Callback
  pub parser : Parser
  pub nparsed : ℕ

-- A compression filter that throws has the result `none`.
pub record Library : Type 0 where
  pub iequals : Bytes → Bytes → Bool
  -- Whether `boost::ifind_first` finds its second argument in the first.
  pub ifind_first : Bytes → Bytes → Bool
  pub gzip_compress : Bytes → Option Bytes
  pub gzip_decompress : Bytes → Option Bytes
  pub zlib_compress : Bytes → Option Bytes
  pub zlib_decompress : Bytes → Option Bytes
  pub http_method_str : ℕ → Bytes
  pub execute : Parser → Bytes → Execution
  -- The parser after a callback returned a nonzero value.
  pub stopped : Parser → Parser
  -- A fresh parser of kind `HTTP_BOTH` over a whole message: its error and the body that it reports.
  pub execute_both : Bytes → ℕ × Bytes

-- `boost::iequals` compares texts after folding the case of their characters.
abbrev pub IequalsFoldsCase : Library → Type 0
IequalsFoldsCase lib = (a b : Bytes) → lib.iequals a b ≡ bytes_eq (map to_upper a) (map to_upper b)

-- A filter undoes the other filter of its pair.
abbrev pub GzipUndoes : Library → Type 0
GzipUndoes lib = (p c : Bytes) → lib.gzip_compress p ≡ some c → lib.gzip_decompress c ≡ some p

abbrev pub ZlibUndoes : Library → Type 0
ZlibUndoes lib = (p c : Bytes) → lib.zlib_compress p ≡ some c → lib.zlib_decompress c ≡ some p

-- A callback's nonzero result is an error of the parser.
abbrev pub StoppedIsError : Library → Type 0
StoppedIsError lib = (p : Parser) → (lib.stopped p).http_errno ≢ 0
