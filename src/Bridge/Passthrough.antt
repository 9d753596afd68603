-- ===== src/Bridge/Passthrough.antt =====
-- The volley of TlsCapableHttpBridge.hpp, which passes bytes on as they are: StartPassthroughVolley,
-- HandleDownstreamPassthrough, HandleUpstreamPassthrough, and the handlers of the resolve and the
-- connect that OnInitialPeek puts in front.
pub mod Flows
pub mod InOrder
use http_filtering_engine.Base.{Bytes, [], not, if◌then◌else◌, is_empty}
use http_filtering_engine.Http.State.{info, error}
use http_filtering_engine.Bridge.State.{
  Completion, success, Bridge, volley, connect_volley, Turn, say, set_stream_timeout, kill, give_up,
}
use http_filtering_engine.Bridge.Reading.{Peer, client, server, is_error, closes}

-- What one direction of the volley does next: a read from a peer, or a write to one.
pub data Relay : Type 0 where
  rest : Relay
  read_from : Peer → Relay
  write_bytes : Peer → Bytes → Relay

-- `HandleDownstreamPassthrough`, with the bytes read from the client.
unfoldable pub handle_downstream_passthrough : Completion → Bytes → Bridge → Bridge × Relay
unfolding set_stream_timeout kill
handle_downstream_passthrough e bytes b =
    if is_error e
    then (kill b, rest)
    else let b1 = set_stream_timeout 5 b in
      if not (is_empty bytes)
      then (b1, write_bytes server bytes)
      else if closes e
      then (kill (say info b1), rest)
      else (b1, read_from client)

-- `HandleUpstreamPassthrough`, with the bytes read from the server.
unfoldable pub handle_upstream_passthrough : Completion → Bytes → Bridge → Bridge × Relay
unfolding set_stream_timeout kill
handle_upstream_passthrough e bytes b =
    if is_error e
    then (kill b, rest)
    else let b1 = set_stream_timeout 5 b in
      if not (is_empty bytes)
      then (b1, write_bytes client bytes)
      else if closes e
      then (kill (say info b1), rest)
      else (b1, read_from server)

-- The handlers of their writes. `closeAfter` is the one of the read, which had no error; a write that
-- fails is followed by nothing.
unfoldable pub on_relayed : Peer → Completion → Bridge → Bridge × Relay
on_relayed from e b = if is_error e then (b, rest) else (b, read_from from)

-- `StartPassthroughVolley`, with the error of its write of the first bytes, and what both directions
-- do next: they begin as if a read had put in no bytes.
pub record Volley : Type 0 where
  pub bridge : Bridge
  pub downstream : Relay
  pub upstream : Relay

unfoldable pub start_passthrough_volley : Completion → Bridge → Volley
unfolding handle_downstream_passthrough handle_upstream_passthrough set_stream_timeout
start_passthrough_volley written b =
    let b1 = set_stream_timeout 5 (say info b) in
    let b2 = if is_error written then say error b1 else b1 in
    let down = handle_downstream_passthrough success [] b2 in
    let up = handle_upstream_passthrough success [] down.0 in
    record { bridge = up.0; downstream = down.1; upstream = up.1 }

-- The handlers of the resolve and of the connect in front of the volley. The port is set on a copy of
-- the endpoint, so the connect goes to the service's own.
unfoldable pub on_volley_resolve : Completion → Bytes → Bridge → Turn
on_volley_resolve e bytes b = if is_error e then give_up (say info b) else (b, connect_volley bytes)

unfoldable pub on_volley_connect : Completion → Bytes → Bridge → Turn
on_volley_connect e bytes b = if is_error e then give_up (say info b) else (b, volley bytes)
