-- ===== src/Bridge/Reuse.antt =====
-- When OnDownstreamWrite of TlsCapableHttpBridge.hpp uses the connections for one more transaction.
use http_filtering_engine.Base.{
  Bool, true, false, not, ◌&&◌, ◌≡◌, refl, [], ℤ, pos, negsuc, zero, suc, is_positive, is_nonzero,
  arith,
}
use http_filtering_engine.Bridge.State.{
  Outside, Completion, Bridge, Operation, initial_peek, set_stream_timeout, fresh_request,
  fresh_response,
}
use http_filtering_engine.Bridge.Reading.{is_error, fail, read_into}
use http_filtering_engine.Bridge.Answers.{
  finish_transaction, start_over, try_initiate_http_transaction, on_downstream_write,
}

abbrev pub is_peek : Operation → Bool
is_peek initial_peek = true
is_peek _ = false

-- Nothing was blocked or whitelisted.
abbrev pub is_plain : Bridge → Bool
is_plain b = not (is_nonzero b.request.should_block) && not (is_nonzero b.response.should_block)

-- The response was written in full, to a client that is still there.
abbrev pub is_delivered : Completion → Bridge → Bool
is_delivered e b = not b.should_terminate && not (is_error e) && b.response.payload_complete

-- A bridge as for a first transaction, but for the server that it is connected to.
abbrev pub IsFresh : Outside → Bridge → Bridge → Type 0
IsFresh o b u =
    (u.request ≡ fresh_request o [])
    × (u.response ≡ fresh_response o)
    × (u.should_terminate ≡ false)
    × (u.upstream_host ≡ b.upstream_host)
    × (u.killed ≡ b.killed)

nonzero_of_positive : (z : ℤ) → is_positive z ≡ true → is_nonzero z ≡ true
nonzero_of_positive (pos zero) h = cc
nonzero_of_positive (pos (suc n)) h = refl
nonzero_of_positive (negsuc n) h = cc

-- `OnDownstreamWrite` begins another transaction on the same connections exactly when no peer has
-- closed, the write had no error, the response is complete, it is to be kept alive, and neither
-- message is blocked or whitelisted. Both messages are then as new, the flag to terminate is
-- cleared, and the host and whether the bridge is killed are as before.
pub on_downstream_write_reuses :
    (o : Outside) (e : Completion) (b : Bridge)
    → let t = on_downstream_write o e b in
      (is_peek t.1 ≡ (is_delivered e b && b.keep_alive && is_plain b))
      × (is_peek t.1 ≡ true → IsFresh o b t.0)
unfolding on_downstream_write finish_transaction start_over try_initiate_http_transaction read_into
    fail set_stream_timeout
on_downstream_write_reuses o e b =
    ground (
      arith,
      nonzero_of_positive b.request.should_block,
      nonzero_of_positive b.response.should_block,
    )
