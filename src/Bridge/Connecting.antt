-- ===== src/Bridge/Connecting.antt =====
-- How a bridge starts, connects and shakes hands: both `Start`, OnResolve and OnUpstreamConnect of
-- TlsCapableHttpBridge.cpp with VerifyServerCertificateCallback, and OnUpstreamHandshake,
-- OnDownstreamHandshake and OnStreamTimeout of TlsCapableHttpBridge.hpp.
use http_filtering_engine.Base.{
  ℕ, zero, suc, Bool, true, false, not, ◌&&◌, if◌then◌else◌, ltb, some, none,
}
use http_filtering_engine.External.{Library}
use http_filtering_engine.Http.State.{info, error, Result, ok}
use http_filtering_engine.Bridge.State.{
  Outside, Completion, success, ssl_short_read, ssl_failed, aborted, Bridge, downstream_read,
  tls_peek, connect, upstream_handshake, downstream_handshake, Turn, say, set_stream_timeout, kill,
  give_up,
}
use http_filtering_engine.Bridge.Reading.{client, server, is_error, fail, read_into, write_to}
use http_filtering_engine.Bridge.Answers.{try_initiate_http_transaction}

-- `Start` of either bridge.
unfoldable pub start_bridge : Bridge → Turn
unfolding set_stream_timeout try_initiate_http_transaction
start_bridge b =
    if b.is_tls
    then (set_stream_timeout 5 b, tls_peek)
    else try_initiate_http_transaction (set_stream_timeout 5 b)

-- `OnResolve`. The bridge for TLS reports each endpoint: `endpoints` says how many there are. A port
-- that was parsed is set on copies of the endpoints.
unfoldable say_endpoints : ℕ → Bridge → Bridge
say_endpoints zero b = b
say_endpoints (suc n) b = say_endpoints n (say info b)

unfoldable pub on_resolve : Completion → ℕ → Bridge → Turn
unfolding fail set_stream_timeout say_endpoints
on_resolve e endpoints b =
    if is_error e
    then fail e b
    else let b1 = set_stream_timeout 5 b in
      (if b.is_tls then say_endpoints endpoints b1 else b1, connect)

-- `OnUpstreamConnect` of the bridge for TCP.
unfoldable pub on_upstream_connect_tcp : Library → Completion → Bridge → Result Turn
unfolding fail read_into write_to
on_upstream_connect_tcp lib e b =
    if is_error e
    then ok (fail e b)
    else if not b.request.payload_complete && b.request.consume_all_before_sending
    then ok (read_into client downstream_read b)
    else write_to lib server client b

-- `OnUpstreamConnect` of the bridge for TLS; the flag says whether the callback that verifies the
-- server's certificate could be set.
unfoldable pub on_upstream_connect_tls : Completion → Bool → Bridge → Turn
unfolding fail set_stream_timeout
on_upstream_connect_tls e callback_set b =
    if is_error e
    then fail e b
    else let b1 = set_stream_timeout 5 b in
      if callback_set then (b1, upstream_handshake) else give_up (say error b1)

unfoldable pub on_upstream_connect : Library → Completion → Bool → Bridge → Result Turn
unfolding on_upstream_connect_tcp on_upstream_connect_tls
on_upstream_connect lib e callback_set b =
    if b.is_tls
    then ok (on_upstream_connect_tls e callback_set b)
    else on_upstream_connect_tcp lib e b

-- `VerifyServerCertificateCallback`, with the platform's answer for the chain.
unfoldable pub verify_server_certificate : Bool → Bridge → Bridge × Bool
verify_server_certificate verified b =
    if b.is_tls then (record b { has_upstream_cert = verified }, verified) else (b, false)

abbrev is_ssl_error : Completion → Bool
is_ssl_error ssl_short_read = true
is_ssl_error ssl_failed = true
is_ssl_error _ = false

-- The reports of `OnUpstreamHandshake` when it did not get a certificate.
unfoldable say_handshake : Completion → Bridge → Bridge
say_handshake e b =
    let b1 = if is_error e then say error b else b in
    let b2 = if is_ssl_error e then say error b1 else b1 in
    if b.has_upstream_cert then b2 else say error b2

-- `OnUpstreamHandshake`.
unfoldable pub on_upstream_handshake : Outside → Completion → Bridge → Turn
unfolding say_handshake set_stream_timeout
on_upstream_handshake o e b =
    if not (is_error e) && b.has_upstream_cert
    then elim (o.server_context b.upstream_host) [
      | none ↦ give_up (say error (say error b))
      | some context ↦
          if o.takes_context context
          then (set_stream_timeout 5 b, downstream_handshake)
          else give_up (say error b)
    ]
    else give_up (say_handshake e b)

-- `SetLinger` and `SetNoDelay`, given whether the socket takes the option, and `SocketHasData`, given
-- how many bytes can be read.
unfoldable set_linger : Bool → Bridge → Bridge
set_linger takes b = if takes then b else say error b

unfoldable pub set_no_delay : Bool → Bridge → Bridge
set_no_delay takes b = if takes then b else say error b

unfoldable socket_has_data : ℕ → Bool
socket_has_data bytes_readable = ltb 0 bytes_readable

-- `OnDownstreamHandshake`, given whether the server's and the client's socket take the option.
unfoldable pub on_downstream_handshake : Bool → Bool → Completion → Bridge → Turn
unfolding try_initiate_http_transaction set_no_delay
on_downstream_handshake server_takes client_takes e b =
    if is_error e
    then give_up (say error b)
    else try_initiate_http_transaction (set_no_delay client_takes (set_no_delay server_takes b))

-- `OnStreamTimeout`: an aborted wait is ignored.
unfoldable pub on_stream_timeout : Completion → Bridge → Bridge
on_stream_timeout success b = kill b
on_stream_timeout aborted b = b
on_stream_timeout _ b = kill (say error b)
