-- ===== src/Http/State.antt =====
-- The state of `BaseHttpTransaction` and of its two subclasses, with the plain accessors.
use http_filtering_engine.Base.{Bytes, ℕ, Bool, false, [], ◌∷◌, ◌++◌, List, ℤ, pos}
use http_filtering_engine.External.{Parser}
use http_filtering_engine.Http.Headers.{HeaderMap}

pub data HttpProtocolVersion : Type 0 where
  http1 http1_1 http2 : HttpProtocolVersion

-- The subclass, with the fields that it adds: the request's URI and method (HttpRequest.hpp), the
-- response's status code and status string (HttpResponse.hpp).
pub data Kind : Type 0 where
  request : Bytes → ℕ → Kind
  response : ℕ → Bytes → Kind

-- The callbacks of EventReporter. Of a report the model keeps which callback is called.
pub data Severity : Type 0 where
  info warning error : Severity

-- `m_httpParser` is never null here: the constructors allocate it and set its `data`, so the guards
-- of the parser's callbacks against null pointers do not fire.
pub record Transaction : Type 0 where
  pub kind : Kind
  pub parser : Parser
  pub http_version : HttpProtocolVersion
  pub headers : HeaderMap
  pub last_header : Bytes
  pub last_header_value_fresh : Bool
  pub last_header_field_fresh : Bool
  pub buffer : Bytes
  pub payload : Bytes
  pub headers_complete : Bool
  pub headers_sent : Bool
  pub payload_complete : Bool
  pub should_block : ℤ
  pub consume_all_before_sending : Bool
  pub reports : List Severity

-- Code that may throw: an exception leaves the operation, and the state with it.
pub data Result {ℓ} (A : Type ℓ) : Type ℓ where
  ok : A → Result A
  thrown : Result A

infixl 5 ◌>>=◌
abbrev pub ◌>>=◌ {ℓ κ} : {A : Type ℓ} {B : Type κ} → Result A → (A → Result B) → Result B
ok a >>= f = f a
thrown >>= f = thrown

-- `ReportInfo`, `ReportWarning` and `ReportError`.
abbrev pub report : Severity → Transaction → Transaction
report s t = record t { reports = t.reports ++ s ∷ [] }

-- The members as the constructors leave them; `m_httpVersion`, the method and the status code have
-- no initial value in the source, so they are arguments.
unfoldable pub new_request : Parser → HttpProtocolVersion → ℕ → Bytes → Transaction
new_request parser version method bytes = record {
  kind = request [] method;
  parser = parser;
  http_version = version;
  headers = [];
  last_header = [];
  last_header_value_fresh = false;
  last_header_field_fresh = false;
  buffer = bytes;
  payload = [];
  headers_complete = false;
  headers_sent = false;
  payload_complete = false;
  should_block = pos 0;
  consume_all_before_sending = false;
  reports = [];
}

unfoldable pub new_response : Parser → HttpProtocolVersion → ℕ → Bytes → Transaction
unfolding new_request
new_response parser version code bytes = record (new_request parser version 0 bytes) {
  kind = response code [];
}

unfoldable set_http_version : HttpProtocolVersion → Transaction → Transaction
set_http_version v t = record t { http_version = v }

unfoldable pub set_should_block : ℤ → Transaction → Transaction
set_should_block category t = record t { should_block = category }

unfoldable pub set_consume_all_before_sending : Bool → Transaction → Transaction
set_consume_all_before_sending value t = record t { consume_all_before_sending = value }

-- `HttpRequest::RequestURI` and `HttpRequest::Method`; a response has neither.
unfoldable set_request_uri : Bytes → Transaction → Transaction
set_request_uri value t = elim t.kind [
  | request uri method ↦ record t { kind = request value method }
  | response code text ↦ t
]

unfoldable set_method : ℕ → Transaction → Transaction
set_method value t = elim t.kind [
  | request uri method ↦ record t { kind = request uri value }
  | response code text ↦ t
]

-- `HttpResponse::StatusString`; a request has none.
unfoldable set_status_string : Bytes → Transaction → Transaction
set_status_string value t = elim t.kind [
  | request uri method ↦ t
  | response code text ↦ record t { kind = response code value }
]
