-- ===== src/Bridge/State.antt =====
-- The members of TlsCapableHttpBridge.hpp, the completions of asynchronous operations, the
-- operations that a handler may start, and `Kill` with the stream's timer.
use http_filtering_engine.Base.{
  Bytes, ℕ, Bool, true, false, [], ◌∷◌, ◌++◌, List, Option, if◌then◌else◌,
}
use http_filtering_engine.External.{Parser}
use http_filtering_engine.Http.State.{
  HttpProtocolVersion, Transaction, Severity, new_request, new_response,
}

-- What a bridge meets and does not define: the filtering callbacks of the program that uses the
-- engine, the texts of `std::ctime` for now and for the epoch, `boost::trim`, the parsers that
-- `http_parser_init` makes, and what the members without an initial value hold.
pub record Outside : Type 0 where
  -- From the heads of the request and of the response to the next action and the custom response
  -- that the callback writes.
  pub on_message_begin : Bytes → Bytes → ℕ × Bytes
  -- From heads and payloads to whether to block, and the custom response.
  pub on_message_end : Bytes → Option Bytes → Bytes → Option Bytes → Bool × Bytes
  pub now : Bytes
  pub epoch : Bytes
  pub trim : Bytes → Bytes
  pub request_parser : Parser
  pub response_parser : Parser
  -- What the certificate store gives for a host, if it does not throw, and whether `SSL_set_SSL_CTX`
  -- takes it.
  pub server_context : Bytes → Option ℕ
  pub takes_context : ℕ → Bool
  -- The numbers of `HPE_INVALID_METHOD` and `HPE_UNKNOWN`.
  pub invalid_method : ℕ
  pub unknown_error : ℕ
  pub unset_version : HttpProtocolVersion
  pub unset_code : ℕ

-- How an asynchronous operation ends. `ssl_failed` is any other error of the TLS library, `failed`
-- any other error.
pub data Completion : Type 0 where
  success eof ssl_short_read ssl_failed aborted failed : Completion

-- `m_streamTimer`.
pub data Timer : Type 0 where
  unset infinite : Timer
  minutes : ℕ → Timer

-- `sockets_open` says that neither socket has been closed. Of the reports the model keeps which
-- callback is called; those of a transaction are kept with it.
pub record Bridge : Type 0 where
  pub is_tls : Bool
  pub should_terminate : Bool
  pub request : Transaction
  pub response : Transaction
  pub has_upstream_cert : Bool
  pub upstream_host : Bytes
  pub upstream_host_port : ℕ
  pub killed : Bool
  pub keep_alive : Bool
  pub sockets_open : Bool
  pub timer : Timer
  pub reports : List Severity

-- The asynchronous operation that a handler starts, named after the handler of its completion, or
-- none. A write has its bytes, a resolve its host and service.
pub data Operation : Type 0 where
  nothing upstream_headers upstream_read downstream_headers downstream_read : Operation
  initial_peek tls_peek connect upstream_handshake downstream_handshake : Operation
  upstream_write downstream_write : Bytes → Operation
  resolve : Bytes → Bytes → Operation
  -- The volley of `StartPassthroughVolley` with its first bytes; or first a resolve, with a port, and
  -- a connect of its own.
  volley connect_volley : Bytes → Operation
  resolve_volley : Bytes → ℕ → Bytes → Operation

abbrev pub Turn : Type 0
Turn = Bridge × Operation

abbrev pub say : Severity → Bridge → Bridge
say s b = record b { reports = b.reports ++ s ∷ [] }

-- `SetStreamTimeout`.
unfoldable pub set_stream_timeout : ℕ → Bridge → Bridge
set_stream_timeout m b = record b { timer = minutes m }

-- `SetInfiniteStreamTimeout`.
unfoldable set_infinite_stream_timeout : Bridge → Bridge
set_infinite_stream_timeout b = record b { timer = infinite }

-- `Kill`: the sockets are closed, and what they waited for is cancelled.
unfoldable pub kill : Bridge → Bridge
unfolding set_infinite_stream_timeout
kill b =
    if b.killed
    then b
    else record (set_infinite_stream_timeout (record b { sockets_open = false })) { killed = true }

-- A handler that ends with `Kill`.
abbrev pub give_up : Bridge → Turn
give_up b = (kill b, nothing)

unfoldable pub fresh_request : Outside → Bytes → Transaction
unfolding new_request
fresh_request o bytes = new_request o.request_parser o.unset_version o.unset_code bytes

unfoldable pub fresh_response : Outside → Transaction
unfolding new_response
fresh_response o = new_response o.response_parser o.unset_version o.unset_code []

-- Either constructor.
unfoldable pub new_bridge : Outside → Bool → Bridge
unfolding fresh_request fresh_response
new_bridge o tls = record {
  is_tls = tls;
  should_terminate = false;
  request = fresh_request o [];
  response = fresh_response o;
  has_upstream_cert = false;
  upstream_host = [];
  upstream_host_port = 0;
  killed = false;
  keep_alive = true;
  sockets_open = true;
  timer = unset;
  reports = [];
}
