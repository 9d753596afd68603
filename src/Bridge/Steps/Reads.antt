-- ===== src/Bridge/Steps/Reads.antt =====
-- What the handlers of reads leave the bridge of TlsCapableHttpBridge.hpp waiting for.
use http_filtering_engine.Base.{
  Bytes, ℕ, Bool, true, false, not, ◌&&◌, ◌||◌, ◌≡◌, [], ◌∷◌, if◌then◌else◌, is_empty, bytes_eq,
  is_nonneg,
}
use http_filtering_engine.External.{Library}
use http_filtering_engine.Http.Headers.{HeaderMap}
use http_filtering_engine.Http.State.{Result, ◌>>=◌}
use http_filtering_engine.Http.Results.{Holds, Holds-bind, Holds-any, by_if}
use http_filtering_engine.Bridge.State.{
  Outside, Completion, success, Bridge, nothing, Turn, give_up, set_stream_timeout,
}
use http_filtering_engine.Bridge.Reading.{
  Peer, client, server, closes, receive, fail, read_into, write_to, is_error,
}
use http_filtering_engine.Bridge.Answers.{
  ask_both, refuse, remove_headers, hidden_from_client, wants_more, pass_response_headers,
  take_response_headers, on_upstream_headers, pass_response, take_response, on_upstream_read,
}
use http_filtering_engine.Bridge.Requests.{
  ask, cut_at_colon, take_port, direct, direct_by_host, pass_request, pass_request_headers,
  take_request_headers, on_downstream_headers, on_downstream_read,
}
use http_filtering_engine.Bridge.Preview.{
  ParseResult, is_http, not_http, http_with_upgrade, failure, preview, pass_upgrade, act_on,
  on_initial_peek,
}
use http_filtering_engine.Bridge.Connecting.{
  on_upstream_connect, on_upstream_connect_tcp, on_upstream_connect_tls,
}
use http_filtering_engine.Bridge.Outcomes.{kill-killed, fail-Holds, receive-Holds}
use http_filtering_engine.Bridge.Asking.{write_to-Holds}

-- A bridge that waits for no operation has been killed.
abbrev pub Settled : Turn → Type 0
Settled t = t.1 ≡ nothing → t.0.killed ≡ true

pub give_up-Settled : (b : Bridge) → Settled (give_up b)
give_up-Settled b _ = kill-killed b

pub fail-Settled : (e : Completion) (b : Bridge) → Settled (fail e b)
fail-Settled e b = fail-Holds Settled (λ _. Unit) (λ u _. give_up-Settled u) (λ _ _ _. tt) e b tt

module _ (lib : Library) where
  pub write_to-Settled : (to peer : Peer) (b : Bridge) → Holds Settled (write_to lib to peer b)
  write_to-Settled client peer b =
      write_to-Holds lib (λ _. Unit) (λ t k v p z i. tt) Settled client peer b (λ t bytes _ h. cc)
        tt
  write_to-Settled server peer b =
      write_to-Holds lib (λ _. Unit) (λ t k v p z i. tt) Settled server peer b (λ t bytes _ h. cc)
        tt

  pub receive-Settled :
      (peer : Peer) (accepted : Bridge → Result Turn) (e : Completion) (n : ℕ) (b : Bridge)
      → ((u : Bridge) → Holds Settled (accepted u))
      → Holds Settled (receive lib peer accepted e n b)
  receive-Settled peer accepted e n b f =
      receive-Holds Settled (λ _. Unit) (λ u _. give_up-Settled u) (λ _ _ _. tt) peer accepted e
        (λ u _ _. f u) lib n b tt (Holds-any _)

  pub pass_response-Settled : (e : Completion) (b : Bridge) → Holds Settled (pass_response lib e b)
  unfolding pass_response read_into
  pass_response-Settled e b =
      by_if (Holds Settled) (wants_more e b.response) _ _ (λ h. cc)
        (write_to-Settled client server b)

  pub pass_response_headers-Settled :
      (e : Completion) (b : Bridge) → Holds Settled (pass_response_headers lib e b)
  unfolding pass_response_headers read_into set_stream_timeout
  pass_response_headers-Settled e b =
      by_if (Holds Settled) (wants_more e (remove_headers hidden_from_client b.response)) _ _
        (λ h. cc) (write_to-Settled client server _)

  pub pass_request-Settled : (e : Completion) (b : Bridge) → Holds Settled (pass_request lib e b)
  unfolding pass_request read_into
  pass_request-Settled e b =
      by_if (Holds Settled) (wants_more e b.request) _ _ (λ h. cc)
        (write_to-Settled server client _)

  module _ (o : Outside) (e : Completion) where
    pub ask_both-Settled :
        (b : Bridge) (pass : Bridge → Result Turn)
        → ((u : Bridge) → Holds Settled (pass u))
        → Holds Settled (ask_both lib o b >>= (λ r. if r.1 then refuse lib r.0 else pass r.0))
    unfolding refuse
    ask_both-Settled b pass f =
        Holds-bind (λ _. Unit) Settled (ask_both lib o b) _ (Holds-any _)
          (λ r _. by_if (Holds Settled) r.1 _ _ (write_to-Settled client client _) (f r.0))

    pub on_upstream_headers-Settled :
        (n : ℕ) (b : Bridge) → Holds Settled (on_upstream_headers lib o e n b)
    unfolding on_upstream_headers take_response_headers read_into
    on_upstream_headers-Settled n b =
        receive-Settled server (take_response_headers lib o e) e n b (λ u.
          by_if (Holds Settled) (not (closes e) && not u.response.headers_complete) _ _ (λ h. cc)
            (by_if (Holds Settled) (is_nonneg u.request.should_block) _ _
              (ask_both-Settled u _ (pass_response_headers-Settled e))
              (pass_response_headers-Settled e u)))

    pub on_upstream_read-Settled :
        (n : ℕ) (b : Bridge) → Holds Settled (on_upstream_read lib o e n b)
    unfolding on_upstream_read take_response
    on_upstream_read-Settled n b = receive-Settled server (take_response lib o e) e n b (λ u.
        by_if (Holds Settled)
          (is_nonneg u.request.should_block
            && u.response.payload_complete
            && u.response.consume_all_before_sending)
          _ _ (ask_both-Settled u _ (pass_response-Settled e)) (pass_response-Settled e u))

    pub direct_by_host-Settled :
        (range : HeaderMap) (b : Bridge) → Holds Settled (direct_by_host lib o e range b)
    unfolding direct_by_host direct
    direct_by_host-Settled [] b = fail-Settled e _
    direct_by_host-Settled (h ∷ range) b =
        let parts = cut_at_colon (o.trim h.1) in
        let u = take_port parts.1 b in
        by_if (Holds Settled) (is_empty u.upstream_host) _ _ (λ i. cc)
          (by_if (Holds Settled) (not (bytes_eq parts.0 u.upstream_host)) _ _ (give_up-Settled _)
            (pass_request-Settled e u))

    pub on_downstream_headers-Settled :
        (n : ℕ) (b : Bridge) → Holds Settled (on_downstream_headers lib o e n b)
    unfolding on_downstream_headers take_request_headers pass_request_headers read_into
    on_downstream_headers-Settled n b =
        receive-Settled client (take_request_headers lib o e) e n b (λ u.
          by_if (Holds Settled) (not (closes e) && not u.request.headers_complete) _ _ (λ h. cc)
            (Holds-bind (λ _. Unit) Settled (ask lib o u) _ (Holds-any _)
              (λ r _.
                by_if (Holds Settled) r.1 _ _ (write_to-Settled client client _)
                  (direct_by_host-Settled _ _))))

    pub on_upstream_connect-Settled :
        (set : Bool) (b : Bridge) → Holds Settled (on_upstream_connect lib e set b)
    unfolding on_upstream_connect on_upstream_connect_tcp on_upstream_connect_tls read_into
    on_upstream_connect-Settled set b =
        by_if (Holds Settled) b.is_tls _ _
          (by_if Settled (is_error e) _ _ (fail-Settled e b)
            (by_if Settled set _ _ (λ h. cc) (give_up-Settled _)))
          (by_if (Holds Settled) (is_error e) _ _ (fail-Settled e b) (
            by_if (Holds Settled)
              (not b.request.payload_complete && b.request.consume_all_before_sending) _ _ (λ h. cc)
              (write_to-Settled server client b)))

  pub on_downstream_read-Settled :
      (e : Completion) (n : ℕ) (b : Bridge) → Holds Settled (on_downstream_read lib e n b)
  unfolding on_downstream_read
  on_downstream_read-Settled e n b =
      receive-Settled client (pass_request lib e) e n b (pass_request-Settled e)

  pub act_on-Settled :
      (o : Outside) (r : ParseResult × Bytes) (bytes : Bytes) (b : Bridge)
      → Holds Settled (act_on lib o r bytes b)
  unfolding act_on pass_upgrade
  act_on-Settled o (failure, name) bytes b = give_up-Settled _
  act_on-Settled o (is_http, name) bytes b = on_downstream_headers-Settled o success _ _
  act_on-Settled o (http_with_upgrade, name) bytes b =
      by_if Settled b.is_tls _ _ (λ h. cc)
        (by_if Settled (is_empty name) _ _ (give_up-Settled _) (λ h. cc))
  act_on-Settled o (not_http, name) bytes b =
      by_if (Holds Settled) b.is_tls _ _ (λ h. cc) (give_up-Settled _)

  pub on_initial_peek-Settled :
      (o : Outside) (e : Completion) (bytes : Bytes) (b : Bridge)
      → (is_error e || is_empty bytes) ≡ false
      → Holds Settled (on_initial_peek lib o e bytes b)
  unfolding on_initial_peek
  on_initial_peek-Settled o e bytes b h = rw h (act_on-Settled o (preview lib o bytes) bytes _)
