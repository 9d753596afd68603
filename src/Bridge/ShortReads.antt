-- ===== src/Bridge/ShortReads.antt =====
-- What the handlers of TlsCapableHttpBridge.hpp do behind a TLS connection that was cut off.
use http_filtering_engine.Base.{
  Bytes, ℕ, Bool, true, false, ◌&&◌, ◌≡◌, ◌≢◌, refl, if◌then◌else◌, is_nonneg, is_empty, not,
  bytes_eq, [], ◌∷◌, arith, Option, some, none,
}
use http_filtering_engine.External.{Library}
use http_filtering_engine.Http.Headers.{HeaderMap}
use http_filtering_engine.Http.State.{Transaction, Result, ◌>>=◌}
use http_filtering_engine.Http.Results.{Holds, Holds-bind, Holds-any, by_if}
use http_filtering_engine.Http.Edit.{add_header}
use http_filtering_engine.Bridge.State.{
  Outside, ssl_short_read, Bridge, nothing, Turn, set_stream_timeout,
}
use http_filtering_engine.Bridge.Judgement.Refusal.{SameMessage, IsPage}
use http_filtering_engine.Bridge.Reading.{Peer, client, server, message, fail}
use http_filtering_engine.Bridge.Answers.{
  ask_both, refuse, pass_response_headers, take_response_headers, on_upstream_headers,
  pass_response, take_response, on_upstream_read,
}
use http_filtering_engine.Bridge.Requests.{
  ask, clean_request, cut_at_colon, take_port, direct, direct_by_host, pass_request,
  pass_request_headers, take_request_headers, on_downstream_headers, on_downstream_read,
}
use http_filtering_engine.Bridge.Outcomes.{IsWhole, receive-Holds}
use http_filtering_engine.Bridge.Asking.{write_to-Holds, ask_both-Holds, ask-Holds}

-- Where an operation is started, the message of the peer is there in full.
abbrev pub StartsWhole : Peer → Turn → Type 0
StartsWhole peer t = t.1 ≢ nothing → IsWhole (message peer t.0)

IsWhole-same : (t u : Transaction) → SameMessage t u → IsWhole t → IsWhole u
IsWhole-same t u s w = ground arith

clean_request-Whole : (lib : Library) (t : Transaction) → IsWhole t → IsWhole (clean_request lib t)
unfolding clean_request add_header
clean_request-Whole lib t w = w

module _ (lib : Library) (o : Outside) where
  IsWhole-answer :
      (t q : Transaction) (blocks : Bool)
      → (blocks ≡ true → IsPage lib o q)
      → (blocks ≡ false → SameMessage t q)
      → IsWhole t
      → IsWhole q
  IsWhole-answer t q true page same w = (page refl).3
  IsWhole-answer t q false page same w = IsWhole-same t q (same refl) w

  pass_response-Whole :
      (b : Bridge)
      → IsWhole b.response
      → Holds (StartsWhole server) (pass_response lib ssl_short_read b)
  unfolding pass_response
  pass_response-Whole b w =
      write_to-Holds lib IsWhole (λ t k v p s h. h) (StartsWhole server) client server b
        (λ t bytes h _. h) w

  pass_response_headers-Whole :
      (b : Bridge)
      → IsWhole b.response
      → Holds (StartsWhole server) (pass_response_headers lib ssl_short_read b)
  unfolding pass_response_headers
  pass_response_headers-Whole b w =
      write_to-Holds lib IsWhole (λ t k v p s h. h) (StartsWhole server) client server _
        (λ t bytes h _. h) w

  refuse-Whole : (b : Bridge) → IsWhole b.response → Holds (StartsWhole server) (refuse lib b)
  unfolding refuse
  refuse-Whole b w =
      write_to-Holds lib (λ _. Unit) (λ t k v p s h. tt) (StartsWhole server) client client _
        (λ t bytes h _. w) tt

  -- An answer for both, and then a block page or the response.
  ask_both-Whole :
      (b : Bridge) (pass : Bridge → Result Turn)
      → ((u : Bridge) → IsWhole u.response → Holds (StartsWhole server) (pass u))
      → IsWhole b.response
      → Holds
          (StartsWhole server)
          (ask_both lib o b >>= (λ r. if r.1 then refuse lib r.0 else pass r.0))
  ask_both-Whole b pass f w =
      Holds-bind (λ r. IsWhole r.0.response) (StartsWhole server) (ask_both lib o b) _
        (ask_both-Holds lib o b (λ r. IsWhole r.0.response)
          (λ q t blocks _ _ s. IsWhole-same b.response t s w))
        (λ r h. by_if (Holds (StartsWhole server)) r.1 _ _ (refuse-Whole r.0 h) (f r.0 h))

  take_response_headers-Whole :
      (b : Bridge)
      → IsWhole b.response
      → Holds (StartsWhole server) (take_response_headers lib o ssl_short_read b)
  unfolding take_response_headers
  take_response_headers-Whole b w =
      by_if (Holds (StartsWhole server)) (is_nonneg b.request.should_block) _ _
        (ask_both-Whole b (pass_response_headers lib ssl_short_read) pass_response_headers-Whole w)
        (pass_response_headers-Whole b w)

  take_response-Whole :
      (b : Bridge)
      → IsWhole b.response
      → Holds (StartsWhole server) (take_response lib o ssl_short_read b)
  unfolding take_response
  take_response-Whole b w =
      by_if (Holds (StartsWhole server))
        (is_nonneg b.request.should_block
          && b.response.payload_complete
          && b.response.consume_all_before_sending)
        _ _ (ask_both-Whole b (pass_response lib ssl_short_read) pass_response-Whole w)
        (pass_response-Whole b w)

  pass_request-Whole :
      (b : Bridge)
      → IsWhole b.request
      → Holds (StartsWhole client) (pass_request lib ssl_short_read b)
  unfolding pass_request set_stream_timeout
  pass_request-Whole b w =
      write_to-Holds lib IsWhole (λ t k v p s h. h) (StartsWhole client) server client _
        (λ t bytes h _. h) w

  direct-Whole :
      (name : Bytes) (b : Bridge)
      → IsWhole b.request
      → Holds (StartsWhole client) (direct lib ssl_short_read name b)
  unfolding direct set_stream_timeout
  direct-Whole name b w =
      by_if (Holds (StartsWhole client)) (is_empty b.upstream_host) _ _ (λ _. w)
        (by_if (Holds (StartsWhole client)) (not (bytes_eq name b.upstream_host)) _ _
          (λ h. absurd (h refl)) (pass_request-Whole b w))

  take_port-Whole :
      (port : Option Bytes) (b : Bridge) → IsWhole b.request → IsWhole (take_port port b).request
  unfolding take_port
  take_port-Whole none b w = w
  take_port-Whole (some text) b w = ground arith

  direct_by_host-Whole :
      (range : HeaderMap) (b : Bridge)
      → IsWhole b.request
      → Holds (StartsWhole client) (direct_by_host lib o ssl_short_read range b)
  unfolding direct_by_host fail
  direct_by_host-Whole [] b w = λ h. absurd (h refl)
  direct_by_host-Whole (h ∷ range) b w =
      direct-Whole _ _ (take_port-Whole (cut_at_colon (o.trim h.1)).1 b w)

  pass_request_headers-Whole :
      (b : Bridge)
      → IsWhole b.request
      → Holds (StartsWhole client) (pass_request_headers lib o ssl_short_read b)
  unfolding pass_request_headers
  pass_request_headers-Whole b w = direct_by_host-Whole _ _ (clean_request-Whole lib b.request w)

  take_request_headers-Whole :
      (b : Bridge)
      → IsWhole b.request
      → Holds (StartsWhole client) (take_request_headers lib o ssl_short_read b)
  unfolding take_request_headers
  take_request_headers-Whole b w =
      Holds-bind (λ r. IsWhole r.0.request) (StartsWhole client) (ask lib o b) _
        (ask-Holds lib o b (λ r. IsWhole r.0.request)
          (λ q blocks page same. IsWhole-answer b.request q blocks page same w))
        (λ r h.
          by_if (Holds (StartsWhole client)) r.1 _ _
            (write_to-Holds lib IsWhole (λ t k v p s i. i) (StartsWhole client) client client r.0
              (λ t bytes i _. i) h)
            (pass_request_headers-Whole r.0 h))

  -- When a read ends with a TLS short read, each of the four handlers of reads, if it returns and
  -- starts an operation, does so with a message that is there in full, its headers and its payload:
  -- a response for the handlers of reads from the server, a request for those of reads from the
  -- client. So nothing is passed on of a message that was cut off.
  pub short_read_starts-Whole :
      (n : ℕ) (b : Bridge)
      → Holds (StartsWhole server) (on_upstream_headers lib o ssl_short_read n b)
        × Holds (StartsWhole server) (on_upstream_read lib o ssl_short_read n b)
        × Holds (StartsWhole client) (on_downstream_headers lib o ssl_short_read n b)
        × Holds (StartsWhole client) (on_downstream_read lib ssl_short_read n b)
  unfolding on_upstream_headers on_upstream_read on_downstream_headers on_downstream_read
  short_read_starts-Whole n b = (
    receive-Holds (StartsWhole server) (λ _. Unit) (λ _ _ h. absurd (h refl)) (λ _ _ _. tt) server
        (take_response_headers lib o ssl_short_read) ssl_short_read
        (λ u _ w. take_response_headers-Whole u (w refl)) lib n b tt (Holds-any _),
    receive-Holds (StartsWhole server) (λ _. Unit) (λ _ _ h. absurd (h refl)) (λ _ _ _. tt) server
        (take_response lib o ssl_short_read) ssl_short_read
        (λ u _ w. take_response-Whole u (w refl)) lib n b tt (Holds-any _),
    receive-Holds (StartsWhole client) (λ _. Unit) (λ _ _ h. absurd (h refl)) (λ _ _ _. tt) client
        (take_request_headers lib o ssl_short_read) ssl_short_read
        (λ u _ w. take_request_headers-Whole u (w refl)) lib n b tt (Holds-any _),
    receive-Holds (StartsWhole client) (λ _. Unit) (λ _ _ h. absurd (h refl)) (λ _ _ _. tt) client
        (pass_request lib ssl_short_read) ssl_short_read (λ u _ w. pass_request-Whole u (w refl))
        lib n b tt (Holds-any _),
  )
