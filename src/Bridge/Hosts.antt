-- ===== src/Bridge/Hosts.antt =====
-- Which server OnDownstreamHeaders of TlsCapableHttpBridge.hpp sends a request to.
use http_filtering_engine.Base.{
  Bytes, Bool, true, false, ◌≡◌, [], ◌∷◌, is_empty, Option, some, none,
}
use http_filtering_engine.External.{Library}
use http_filtering_engine.Http.Headers.{HeaderMap}
use http_filtering_engine.Http.Names.{host}
use http_filtering_engine.Http.State.{Transaction}
use http_filtering_engine.Http.Edit.{get_header}
use http_filtering_engine.Bridge.State.{
  Outside, Completion, Bridge, Operation, upstream_write, downstream_read, resolve, Turn,
}
use http_filtering_engine.Bridge.Requests.{cut_at_colon}

-- The host that a request is for: its first Host header, trimmed, up to the first colon.
abbrev first_host : Outside → HeaderMap → Option Bytes
first_host o [] = none
first_host o (h ∷ range) = some (cut_at_colon (o.trim h.1)).0

abbrev requested_host : Outside → Transaction → Option Bytes
requested_host o t = first_host o (get_header host t)

-- The operations that bring a request nearer to a server.
abbrev is_for_server : Operation → Bool
is_for_server (upstream_write bytes) = true
is_for_server (resolve name service) = true
is_for_server downstream_read = true
is_for_server _ = false

abbrev KeepsServer : Bridge → Bridge → Type 0
KeepsServer b u = is_empty b.upstream_host ≡ false → u.upstream_host ≡ b.upstream_host

-- What is for the server is for the host that the request asks for, and a server, once there is
-- one, stays.
abbrev pub Directed : Outside → Bridge → Turn → Type 0
Directed o b t =
    (is_for_server t.1 ≡ true → requested_host o t.0.request ≡ some t.0.upstream_host)
    × KeepsServer b t.0

module _ (lib : Library) (o : Outside) (b : Bridge) (e : Completion) where
  -- The bridge's server is still the one of `b`.
  abbrev Stays : Bridge → Type 0
  Stays u = u.upstream_host ≡ b.upstream_host
