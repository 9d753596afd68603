-- ===== src/Http/Head.antt =====
-- `OnUrl`, `OnStatus` and `HeadersToString` of HttpRequest.cpp and HttpResponse.cpp.
pub mod RoundTrip
pub mod Keeps
use http_filtering_engine.Base.{
  Bytes, ℕ, [], ◌∷◌, ◌++◌, codes, crlf, if◌then◌else◌, ◌==◌, is_empty, Bool,
}
use http_filtering_engine.External.{Library, Parser}
use http_filtering_engine.Http.Headers.{HeaderMap}
use http_filtering_engine.Http.State.{
  HttpProtocolVersion, http1, http1_1, http2, Transaction, Kind, request, response, Result, ok,
  ◌>>=◌,
}
use http_filtering_engine.Http.Status.{version_string, set_status_code}

-- The version that both callbacks read off the parser.
unfoldable parsed_version : Parser → HttpProtocolVersion
parsed_version p =
    if p.http_major == 1
    then (if p.http_minor == 0 then http1 else http1_1)
    else if p.http_major == 2
    then http2
    else http1_1

-- `HttpRequest::OnUrl`; a response's parser has a callback that does nothing.
unfoldable pub on_url : Bytes → Transaction → Transaction
unfolding parsed_version
on_url at t = elim t.kind [
  | request uri method ↦ record t {
    http_version = parsed_version t.parser;
    kind = request at t.parser.method;
  }
  | response code text ↦ t
]

-- `HttpResponse::OnStatus`; a request's parser has a callback that does nothing. The text that the
-- parser passes is not used.
unfoldable pub on_status : Transaction → Result Transaction
unfolding parsed_version set_status_code
on_status t = elim t.kind [
  | request uri method ↦ ok t
  | response code text ↦
      set_status_code t.parser.status_code (record t { http_version = parsed_version t.parser })
]

-- The loop over `m_headers`.
unfoldable pub header_lines : HeaderMap → Bytes
header_lines [] = []
header_lines ((name, value) ∷ m) = crlf ++ (name ++ (b':' ∷ b' ' ∷ (value ++ header_lines m)))

-- A response that has no status string takes one from the parser first.
unfoldable pub with_status : Transaction → Result Transaction
unfolding on_status
with_status t = elim t.kind [
  | request uri method ↦ ok t
  | response code text ↦ if is_empty text then on_status t else ok t
]

unfoldable pub start_line : Library → Transaction → Bytes
unfolding version_string
start_line lib t = elim t.kind [
  | request uri method ↦
      lib.http_method_str method ++ (b' ' ∷ (uri ++ (b' ' ∷ version_string t.http_version)))
  | response code text ↦ text
]

-- `HeadersToString`, and so `HeadersToVector`, of either class.
unfoldable pub headers_to_string : Library → Transaction → Result (Transaction × Bytes)
headers_to_string lib t = do
  t' ← with_status t
  ok (t', start_line lib t' ++ (header_lines t'.headers ++ (crlf ++ crlf)))
