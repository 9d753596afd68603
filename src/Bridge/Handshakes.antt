-- ===== src/Bridge/Handshakes.antt =====
-- The handshake of TlsCapableHttpBridge.hpp with the server, together with the certificate store
-- that the bridges share: VerifyServerCertificateCallback for each certificate of the chain, and
-- then OnUpstreamHandshake with GetServerContext.
pub mod Shown
use http_filtering_engine.Base.{
  Bytes, ℕ, Bool, true, false, not, ◌&&◌, List, [], ◌∷◌, if◌then◌else◌, Option, some, none,
}
use http_filtering_engine.Bridge.State.{
  Outside, Completion, Bridge, Turn, Operation, downstream_handshake,
}
use http_filtering_engine.Bridge.Reading.{is_error}
use http_filtering_engine.Bridge.Connecting.{verify_server_certificate, on_upstream_handshake}
use http_filtering_engine.Certificates.Store.{Calls, Context, Store}
use http_filtering_engine.Certificates.Server.{Original, get_server_context}

-- A bridge's handshake with its server: what the platform answers for each certificate, how the
-- handshake ends, the server's certificate, what OpenSSL answers, and whether the client's socket
-- takes a context.
pub record Visit : Type 0 where
  pub bridge : Bridge
  pub answers : List Bool
  pub completion : Completion
  pub original : Option Original
  pub calls : Calls
  pub takes : Bool
  pub outside : Outside

-- The bridge after the callbacks of its chain.
unfoldable pub verify_all : List Bool → Bridge → Bridge
unfolding verify_server_certificate
verify_all [] b = b
verify_all (answer ∷ answers) b = verify_all answers (verify_server_certificate answer b).0

unfoldable pub id_of : Option Context → Option ℕ
id_of none = none
id_of (some k) = some k.id

-- What the store answers, and the store then, if it is asked.
unfoldable pub served : Visit → Bridge → Store → Store × Option Context
unfolding get_server_context
served v b s =
    if not (is_error v.completion) && b.has_upstream_cert
    then get_server_context v.calls b.upstream_host v.original s
    else (s, none)

-- The bridge and what it starts, the store, and the context of the client's socket.
pub record Shaken : Type 0 where
  pub turn : Turn
  pub store : Store
  pub context : Option Context

unfoldable pub shake : Visit → Store → Shaken
shake v s =
    let b = verify_all v.answers v.bridge in
    let r = served v b s in
    let o = record v.outside { server_context = λ _. id_of r.1; takes_context = λ _. v.takes } in
    record {
      turn = on_upstream_handshake o v.completion b;
      store = r.0;
      context = if v.takes then r.1 else none;
    }
