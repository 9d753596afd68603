-- ===== src/Http/Codec/Completion.antt =====
-- The conversion of a complete message, from its start to its end.
use http_filtering_engine.Base.{Bool, true, ◌≡◌, subst, ◌++◌}
use http_filtering_engine.External.{Library}
use http_filtering_engine.Http.Headers.{IsSorted}
use http_filtering_engine.Http.State.{Transaction, Kind, HttpProtocolVersion, ok}
use http_filtering_engine.Http.Results.{Holds, Holds-bind}
use http_filtering_engine.Http.Head.{headers_to_string}
use http_filtering_engine.Http.Head.Keeps.{headers_to_string-Holds}
use http_filtering_engine.Http.Codec.Outcomes.{Settled, use_converted-Settled}
use http_filtering_engine.Http.Codec.{convert_payload}

-- A complete message whose headers are in order.
abbrev IsReady : Transaction → Type 0
IsReady t = IsSorted t.headers × (t.payload_complete ≡ true)

IsReady-kept :
    (t : Transaction) (k : Kind) (v : HttpProtocolVersion)
    → IsReady t
    → IsReady (record t { kind = k; http_version = v })
IsReady-kept t k v s = s

-- Where the conversion of a complete message, whose headers are in the multimap's order, returns
-- true, the message is one of a fixed length around some payload: its only Content-Length is the
-- payload's size, it has no Transfer-Encoding and no Content-Encoding, and its headers are in
-- order.
pub convert_payload-Settled :
    (lib : Library) (t : Transaction) (r : Transaction × Bool)
    → IsSorted t.headers
    → t.payload_complete ≡ true
    → convert_payload lib t ≡ ok r
    → Settled r
unfolding convert_payload
convert_payload-Settled lib t r s c e = subst (Holds Settled) e (
    Holds-bind (λ p. IsReady p.0) Settled (headers_to_string lib t) _
      (headers_to_string-Holds IsReady IsReady-kept lib t (s, c))
      (λ p h. use_converted-Settled lib (lib.execute_both (p.1 ++ p.0.payload)) p.0 h.0 h.1))
