-- ===== src/Bridge/Steps/Ends.antt =====
-- What the handlers of writes, of connecting and of the timer leave the bridge of
-- TlsCapableHttpBridge.hpp and .cpp waiting for.
use http_filtering_engine.Base.{
  Bool, Bytes, ℕ, not, ◌&&◌, ◌||◌, if◌then◌else◌, length, is_positive, is_nonzero, Option, some,
  none, ltb,
}
use http_filtering_engine.Http.State.{error}
use http_filtering_engine.Http.Results.{by_if}
use http_filtering_engine.Bridge.State.{
  Outside, Completion, success, eof, ssl_short_read, ssl_failed, aborted, failed, Bridge, Operation,
  downstream_handshake, Turn, give_up, say, set_stream_timeout,
}
use http_filtering_engine.Bridge.Reading.{read_into, is_error}
use http_filtering_engine.Bridge.Answers.{
  finish_transaction, start_over, try_initiate_http_transaction, on_downstream_write,
}
use http_filtering_engine.Bridge.Requests.{on_upstream_write}
use http_filtering_engine.Bridge.Connecting.{
  on_resolve, on_upstream_handshake, on_downstream_handshake, on_stream_timeout,
}
use http_filtering_engine.Bridge.TlsPeek.{
  Walk, named, unnamed, out_of_bounds, bad_index, endless, after_walk, walk_hello,
  min_tls_hello_length, is_tls_version, is_client_hello, on_tls_peek,
}
use http_filtering_engine.Bridge.Outcomes.{kill-killed}
use http_filtering_engine.Bridge.Steps.Reads.{Settled, fail-Settled, give_up-Settled}

pub on_downstream_write-Settled :
    (o : Outside) (e : Completion) (b : Bridge) → Settled (on_downstream_write o e b)
unfolding on_downstream_write finish_transaction start_over try_initiate_http_transaction read_into
on_downstream_write-Settled o e b = by_if Settled b.should_terminate _ _ (give_up-Settled b) (
    by_if Settled (is_positive b.request.should_block) _ _ (give_up-Settled b) (
      by_if Settled (is_positive b.response.should_block) _ _ (give_up-Settled b) (
        by_if Settled (is_error e) _ _ (fail-Settled e b) (
          by_if Settled (not b.response.payload_complete) _ _ (λ h. cc)
            (by_if Settled (not b.keep_alive) _ _ (give_up-Settled b) (
              by_if Settled
                (is_nonzero b.request.should_block || is_nonzero b.response.should_block) _ _
                (give_up-Settled b) (λ h. cc)))))))

pub on_upstream_write-Settled : (e : Completion) (b : Bridge) → Settled (on_upstream_write e b)
unfolding on_upstream_write read_into
on_upstream_write-Settled e b = by_if Settled b.should_terminate _ _ (give_up-Settled b) (
    by_if Settled (is_error e) _ _ (fail-Settled e b)
      (by_if Settled (not b.request.payload_complete) _ _ (λ h. cc) (λ h. cc)))

pub on_resolve-Settled :
    (e : Completion) (endpoints : ℕ) (b : Bridge) → Settled (on_resolve e endpoints b)
unfolding on_resolve
on_resolve-Settled e endpoints b = by_if Settled (is_error e) _ _ (fail-Settled e b) (λ h. cc)

offered-Settled :
    (o : Outside) (c : Option ℕ) (b : Bridge)
    → Settled (elim c [
      | none ↦ give_up (say error (say error b))
      | some context ↦
          if o.takes_context context
          then (set_stream_timeout 5 b, downstream_handshake)
          else give_up (say error b)
    ])
offered-Settled o none b = give_up-Settled _
offered-Settled o (some c) b = by_if Settled (o.takes_context c) _ _ (λ h. cc) (give_up-Settled _)

pub on_upstream_handshake-Settled :
    (o : Outside) (e : Completion) (b : Bridge) → Settled (on_upstream_handshake o e b)
unfolding on_upstream_handshake
on_upstream_handshake-Settled o e b =
    by_if Settled (not (is_error e) && b.has_upstream_cert) _ _
      (offered-Settled o (o.server_context b.upstream_host) b) (give_up-Settled _)

pub on_downstream_handshake-Settled :
    (server_takes client_takes : Bool) (e : Completion) (b : Bridge)
    → Settled (on_downstream_handshake server_takes client_takes e b)
unfolding on_downstream_handshake try_initiate_http_transaction
on_downstream_handshake-Settled server_takes client_takes e b =
    by_if Settled (is_error e) _ _ (give_up-Settled _) (λ h. cc)

abbrev pub OptionHolds : (Turn → Type 0) → Option Turn → Type 0
OptionHolds P none = Unit
OptionHolds P (some t) = P t

after_walk-Settled : (w : Walk) (b : Bridge) → OptionHolds Settled (after_walk w b)
unfolding after_walk
after_walk-Settled (named name) b = λ h. cc
after_walk-Settled unnamed b = give_up-Settled _
after_walk-Settled out_of_bounds b = give_up-Settled b
after_walk-Settled bad_index b = tt
after_walk-Settled endless b = tt

pub on_tls_peek-Settled :
    (fuel : ℕ) (e : Completion) (bytes : Bytes) (b : Bridge)
    → OptionHolds Settled (on_tls_peek fuel e bytes b)
unfolding on_tls_peek
on_tls_peek-Settled fuel e bytes b =
    by_if (OptionHolds Settled) (is_error e) _ _ (give_up-Settled _) (
      by_if (OptionHolds Settled) (not (ltb min_tls_hello_length (length bytes))) _ _
        (give_up-Settled b)
        (by_if (OptionHolds Settled) (not (is_tls_version bytes)) _ _ (give_up-Settled _) (
          by_if (OptionHolds Settled) (not (is_client_hello bytes)) _ _ (give_up-Settled _)
            (after_walk-Settled (walk_hello fuel bytes) b))))

pub on_stream_timeout-Settled :
    (e : Completion) (b : Bridge) (next : Operation)
    → Settled (b, next)
    → Settled (on_stream_timeout e b, next)
unfolding on_stream_timeout
on_stream_timeout-Settled success b next s h = kill-killed b
on_stream_timeout-Settled aborted b next s h = s h
on_stream_timeout-Settled eof b next s h = kill-killed _
on_stream_timeout-Settled ssl_short_read b next s h = kill-killed _
on_stream_timeout-Settled ssl_failed b next s h = kill-killed _
on_stream_timeout-Settled failed b next s h = kill-killed _
