-- ===== src/Bridge/Reading.antt =====
-- The way in which the four handlers of reads of TlsCapableHttpBridge.hpp begin, and what they share
-- when they start the next operation.
use http_filtering_engine.Base.{ℕ, Bool, true, false, not, ◌&&◌, ◌||◌, if◌then◌else◌, ◌==◌}
use http_filtering_engine.External.{Library}
use http_filtering_engine.Http.State.{Transaction, info, warning, error, Result, ok, ◌>>=◌}
use http_filtering_engine.Http.Callbacks.{parse}
use http_filtering_engine.Http.Payload.{get_read_buffer, get_write_buffer}
use http_filtering_engine.Bridge.State.{
  Completion, success, eof, ssl_short_read, Bridge, Operation, Turn, say, give_up, upstream_write,
  downstream_write,
}

-- `closeAfter` and `wasSslShortRead`.
abbrev pub closes : Completion → Bool
closes eof = true
closes ssl_short_read = true
closes _ = false

abbrev pub is_short : Completion → Bool
is_short ssl_short_read = true
is_short _ = false

-- `error` as a condition.
abbrev pub is_error : Completion → Bool
is_error success = false
is_error _ = true

-- The errors with which a handler of a read goes on.
abbrev pub tolerates : Completion → Bool
tolerates success = true
tolerates e = closes e

-- Whose message a read is part of: `m_request` or `m_response`.
pub data Peer : Type 0 where
  client server : Peer

abbrev pub message : Peer → Bridge → Transaction
message client b = b.request
message server b = b.response

abbrev pub put_message : Peer → Transaction → Bridge → Bridge
put_message client t b = record b { request = t }
put_message server t b = record b { response = t }

-- The end of a handler: an error is reported, and the bridge killed.
unfoldable pub fail : Completion → Bridge → Turn
fail e b = give_up (if is_error e then say error b else b)

-- From the call of `Parse` on, with what the handler does with a message that it accepts.
unfoldable pub after_parse :
    Peer → (Bridge → Result Turn) → Completion → Bridge → Transaction × Bool → Result Turn
unfolding fail
after_parse peer accepted e b (t, parsed) =
    let b1 = put_message peer t b in
    if not parsed
    then ok (fail e (say error b1))
    else if is_short e && (not t.payload_complete || not t.headers_complete)
    then ok (give_up (say info b1))
    else accepted (if is_short e then say warning b1 else b1)

-- `m_shouldTerminate`, set when a peer has closed.
abbrev pub note_close : Completion → Bridge → Bridge
note_close e b = if closes e then record b { should_terminate = true } else b

-- The handler of a read that has put `n` bytes in the message's buffer.
unfoldable pub receive :
    Library → Peer → (Bridge → Result Turn) → Completion → ℕ → Bridge → Result Turn
unfolding after_parse fail
receive lib peer accepted e n b =
    if not (tolerates e)
    then ok (fail e b)
    else if closes e && not (is_short e) && n == 0
    then ok (give_up b)
    else let b1 = note_close e b in parse lib n (message peer b1) >>= after_parse peer accepted e b1

-- A read into the buffer that `GetReadBuffer` hands out.
unfoldable pub read_into : Peer → Operation → Bridge → Turn
read_into peer next b = (put_message peer (get_read_buffer (message peer b)).0 b, next)

-- A write of the buffer that `GetWriteBuffer` hands out, to the client or to the server.
unfoldable pub write_to : Library → Peer → Peer → Bridge → Result Turn
write_to lib client peer b =
    get_write_buffer lib (message peer b)
    >>= (λ r. ok (put_message peer r.0 b, downstream_write r.1))
write_to lib server peer b =
    get_write_buffer lib (message peer b) >>= (λ r. ok (put_message peer r.0 b, upstream_write r.1))
