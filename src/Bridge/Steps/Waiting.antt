-- ===== src/Bridge/Steps/Waiting.antt =====
-- What a step of the bridge leaves it waiting for.
use http_filtering_engine.Base.{false, ◌≡◌, subst, length}
use http_filtering_engine.External.{Library}
use http_filtering_engine.Http.Results.{Holds, by_if}
use http_filtering_engine.Bridge.State.{Outside, Turn}
use http_filtering_engine.Bridge.Reading.{client, server, is_error}
use http_filtering_engine.Bridge.Passthrough.{on_volley_resolve, on_volley_connect}
use http_filtering_engine.Bridge.Steps.{
  Ending, fill, is_lost_peek, Step, upstream_headers_end, upstream_read_end, downstream_headers_end,
  downstream_read_end, upstream_write_end, downstream_write_end, resolve_end, connect_end,
  certificate_verified, upstream_handshake_end, downstream_handshake_end, initial_peek_end,
  tls_peek_end, volley_resolved, volley_connected, timer_ended,
}
use http_filtering_engine.Bridge.Steps.Reads.{
  Settled, give_up-Settled, on_downstream_headers-Settled, on_downstream_read-Settled,
  on_initial_peek-Settled, on_upstream_connect-Settled, on_upstream_headers-Settled,
  on_upstream_read-Settled,
}
use http_filtering_engine.Bridge.Steps.Ends.{
  OptionHolds, on_downstream_handshake-Settled, on_downstream_write-Settled, on_resolve-Settled,
  on_stream_timeout-Settled, on_tls_peek-Settled, on_upstream_handshake-Settled,
  on_upstream_write-Settled,
}

module _ {lib : Library} {o : Outside} where
  -- No step loses a bridge: if it waits for an operation or has been killed, so it does or has
  -- after the step, be it the end of an operation with or without an error, the verification of the
  -- server's certificate, or the end of the timer. The exception is a first read of a transaction
  -- that fails or reads nothing; handlers that throw, and peeks of a client hello that do not end
  -- or read outside of the buffer, make no step.
  pub Step-Settled :
      {x : Ending} {s t : Turn}
      → Step lib o x s t
      → is_lost_peek x s.1 ≡ false
      → Settled s
      → Settled t
  unfolding is_lost_peek on_volley_resolve on_volley_connect
  Step-Settled (upstream_headers_end x b t r) h s =
      subst (Holds Settled) r
        (on_upstream_headers-Settled lib o x.completion (length x.bytes) (fill server x.bytes b))
  Step-Settled (upstream_read_end x b t r) h s =
      subst (Holds Settled) r
        (on_upstream_read-Settled lib o x.completion (length x.bytes) (fill server x.bytes b))
  Step-Settled (downstream_headers_end x b t r) h s =
      subst (Holds Settled) r
        (on_downstream_headers-Settled lib o x.completion (length x.bytes) (fill client x.bytes b))
  Step-Settled (downstream_read_end x b t r) h s =
      subst (Holds Settled) r
        (on_downstream_read-Settled lib x.completion (length x.bytes) (fill client x.bytes b))
  Step-Settled (upstream_write_end x b written) h s = on_upstream_write-Settled x.completion b
  Step-Settled (downstream_write_end x b written) h s = on_downstream_write-Settled o x.completion b
  Step-Settled (resolve_end x b name service endpoints) h s =
      on_resolve-Settled x.completion endpoints b
  Step-Settled (connect_end x b callback_set t r) h s =
      subst (Holds Settled) r (on_upstream_connect-Settled lib o x.completion callback_set b)
  Step-Settled (certificate_verified x b verified) h s = λ i. cc
  Step-Settled (upstream_handshake_end x b) h s = on_upstream_handshake-Settled o x.completion b
  Step-Settled (downstream_handshake_end server_takes client_takes x b) h s =
      on_downstream_handshake-Settled server_takes client_takes x.completion b
  Step-Settled (initial_peek_end x b t r) h s =
      subst (Holds Settled) r (on_initial_peek-Settled lib o x.completion x.bytes b h)
  Step-Settled (tls_peek_end x b fuel t r) h s =
      subst (OptionHolds Settled) r (on_tls_peek-Settled fuel x.completion x.bytes b)
  Step-Settled (volley_resolved x b name first port) h s =
      by_if Settled (is_error x.completion) _ _ (give_up-Settled _) (λ i. cc)
  Step-Settled (volley_connected x b first) h s =
      by_if Settled (is_error x.completion) _ _ (give_up-Settled _) (λ i. cc)
  Step-Settled (timer_ended x b next) h s = on_stream_timeout-Settled x.completion b next s
