-- ===== src/Bridge/Asking.antt =====
-- Predicates through the writes and the questions of the handlers of TlsCapableHttpBridge.hpp.
use http_filtering_engine.Base.{
  Bytes, Bool, true, false, not, ◌≡◌, Option, some, none, if◌then◌else◌,
}
use http_filtering_engine.External.{Library}
use http_filtering_engine.Http.State.{Transaction, ok, Kind, HttpProtocolVersion}
use http_filtering_engine.Http.Results.{Holds, Holds-bind, by_if}
use http_filtering_engine.Http.Head.Keeps.{headers_to_string-Holds}
use http_filtering_engine.Http.Head.{headers_to_string}
use http_filtering_engine.Http.Payload.{get_write_buffer, put_head}
use http_filtering_engine.Bridge.State.{
  Outside, Bridge, Operation, upstream_write, downstream_write, Turn,
}
use http_filtering_engine.Bridge.Judgement.{should_block_transaction}
use http_filtering_engine.Bridge.Judgement.Refusal.{
  SameMessage, SameOptional, IsPage, Verdict, should_block_transaction-Verdict,
}
use http_filtering_engine.Bridge.Reading.{Peer, client, server, message, put_message, write_to}
use http_filtering_engine.Bridge.Answers.{ask_both}
use http_filtering_engine.Bridge.Requests.{ask}

-- The operation that writes to a peer.
abbrev write_op : Peer → Bytes → Operation
write_op client bytes = downstream_write bytes
write_op server bytes = upstream_write bytes

-- What a write leaves alone of its message.
abbrev StableInWrite : (Transaction → Type 0) → Type 0
StableInWrite K =
    (t : Transaction) (k : Kind) (v : HttpProtocolVersion) (payload : Bytes) (sent : Bool)
    → K t
    → K (record t { kind = k; http_version = v; payload = payload; headers_sent = sent })

module _ (lib : Library) (K : Transaction → Type 0) (stable : StableInWrite K) where
  put_head-Holds : (t : Transaction) → K t → Holds K (put_head lib t)
  unfolding put_head
  put_head-Holds t h =
      Holds-bind (λ r. K r.0) K (headers_to_string lib t) _
        (headers_to_string-Holds K (λ u k v s. stable u k v u.payload u.headers_sent s) lib t h)
        (λ r s. stable r.0 r.0.kind r.0.http_version _ _ s)

  get_write_buffer-Holds : (t : Transaction) → K t → Holds (λ r. K r.0) (get_write_buffer lib t)
  unfolding get_write_buffer
  get_write_buffer-Holds t h =
      Holds-bind K (λ r. K r.0) (if not t.headers_sent then put_head lib t else ok t) _
        (by_if (Holds K) (not t.headers_sent) _ _ (put_head-Holds t h) h) (λ r s. s)

  -- A write of a message with `K`.
  pub write_to-Holds :
      (P : Turn → Type 0) (to peer : Peer) (b : Bridge)
      → ((t : Transaction) (bytes : Bytes) → K t → P (put_message peer t b, write_op to bytes))
      → K (message peer b)
      → Holds P (write_to lib to peer b)
  unfolding write_to
  write_to-Holds P client peer b f h =
      Holds-bind (λ r. K r.0) P (get_write_buffer lib (message peer b)) _
        (get_write_buffer-Holds (message peer b) h) (λ r s. f r.0 r.1 s)
  write_to-Holds P server peer b f h =
      Holds-bind (λ r. K r.0) P (get_write_buffer lib (message peer b)) _
        (get_write_buffer-Holds (message peer b) h) (λ r s. f r.0 r.1 s)

module _ (lib : Library) (o : Outside) (b : Bridge) (P : Bridge × Bool → Type 0) where
  put_judged :
      (q : Transaction) (p : Option Transaction) (blocks : Bool)
      → SameOptional (some b.response) p
      → ((t : Transaction)
          → SameMessage b.response t
          → P (record b { request = q; response = t }, blocks))
      → Holds P (elim p [
        | none ↦ ok (record b { request = q }, blocks)
        | some t ↦ ok (record b { request = q; response = t }, blocks)
      ])
  put_judged q none blocks s f = elim s [ ]
  put_judged q (some t) blocks s f = f t s

  -- The answer for both messages, from what it leaves of them.
  pub ask_both-Holds :
      ((q t : Transaction) (blocks : Bool)
        → (blocks ≡ true → IsPage lib o q)
        → (blocks ≡ false → SameMessage b.request q)
        → SameMessage b.response t
        → P (record b { request = q; response = t }, blocks))
      → Holds P (ask_both lib o b)
  unfolding ask_both
  ask_both-Holds f =
      Holds-bind (Verdict lib o b.request (some b.response)) P
        (should_block_transaction lib o b.request (some b.response)) _
        (should_block_transaction-Verdict lib o b.request (some b.response))
        (λ j v.
          put_judged j.request j.response j.blocks v.2 (λ t s. f j.request t j.blocks v.0 v.1 s))

  -- The answer for the request alone.
  pub ask-Holds :
      ((q : Transaction) (blocks : Bool)
        → (blocks ≡ true → IsPage lib o q)
        → (blocks ≡ false → SameMessage b.request q)
        → P (record b { request = q }, blocks))
      → Holds P (ask lib o b)
  unfolding ask
  ask-Holds f =
      Holds-bind (Verdict lib o b.request none) P (should_block_transaction lib o b.request none) _
        (should_block_transaction-Verdict lib o b.request none)
        (λ j v. f j.request j.blocks v.0 v.1)
