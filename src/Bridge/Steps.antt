-- ===== src/Bridge/Steps.antt =====
-- The bridge of TlsCapableHttpBridge.hpp and .cpp under the completions of its operations: which
-- handler runs, and what the bridge then waits for.
pub mod Reads
pub mod Ends
pub mod Waiting
use http_filtering_engine.Base.{
  Bytes, ℕ, Bool, true, false, ◌||◌, ◌++◌, ◌≡◌, refl, is_empty, length, drop, Option, some,
}
use http_filtering_engine.External.{Library}
use http_filtering_engine.Http.State.{Transaction, Result, ok}
use http_filtering_engine.Bridge.State.{
  Outside, Completion, Bridge, Operation, nothing, upstream_headers, upstream_read,
  downstream_headers, downstream_read, initial_peek, tls_peek, connect, upstream_handshake,
  downstream_handshake, upstream_write, downstream_write, resolve, volley, connect_volley,
  resolve_volley, Turn,
}
use http_filtering_engine.Bridge.Reading.{Peer, client, server, message, put_message, is_error}
use http_filtering_engine.Bridge.Answers.{
  on_upstream_headers, on_upstream_read, on_downstream_write,
}
use http_filtering_engine.Bridge.Requests.{
  on_downstream_headers, on_downstream_read, on_upstream_write,
}
use http_filtering_engine.Bridge.Preview.{on_initial_peek}
use http_filtering_engine.Bridge.Connecting.{
  on_resolve, on_upstream_connect, verify_server_certificate, on_upstream_handshake,
  on_downstream_handshake, on_stream_timeout,
}
use http_filtering_engine.Bridge.TlsPeek.{on_tls_peek}
use http_filtering_engine.Bridge.Passthrough.{on_volley_resolve, on_volley_connect}

-- How the pending operation ends: with an error or not, and with the bytes that it read.
pub record Ending : Type 0 where
  pub completion : Completion
  pub bytes : Bytes

-- The bytes that a read has put in a message's buffer.
unfoldable pub fill : Peer → Bytes → Bridge → Bridge
fill peer bytes b =
    let t = message peer b in
    put_message peer (record t { buffer = bytes ++ drop (length bytes) t.buffer }) b

-- A step: the pending operation ends and its handler returns, the stream's timer ends, or the
-- server's certificate is verified. A volley is followed no further.
pub data Step (lib : Library) (o : Outside) : Ending → Turn → Turn → Type 0 where
  upstream_headers_end :
      (x : Ending) (b : Bridge) (t : Turn)
      → on_upstream_headers lib o x.completion (length x.bytes) (fill server x.bytes b) ≡ ok t
      → Step lib o x (b, upstream_headers) t
  upstream_read_end :
      (x : Ending) (b : Bridge) (t : Turn)
      → on_upstream_read lib o x.completion (length x.bytes) (fill server x.bytes b) ≡ ok t
      → Step lib o x (b, upstream_read) t
  downstream_headers_end :
      (x : Ending) (b : Bridge) (t : Turn)
      → on_downstream_headers lib o x.completion (length x.bytes) (fill client x.bytes b) ≡ ok t
      → Step lib o x (b, downstream_headers) t
  downstream_read_end :
      (x : Ending) (b : Bridge) (t : Turn)
      → on_downstream_read lib x.completion (length x.bytes) (fill client x.bytes b) ≡ ok t
      → Step lib o x (b, downstream_read) t
  upstream_write_end :
      (x : Ending) (b : Bridge) (written : Bytes)
      → Step lib o x (b, upstream_write written) (on_upstream_write x.completion b)
  downstream_write_end :
      (x : Ending) (b : Bridge) (written : Bytes)
      → Step lib o x (b, downstream_write written) (on_downstream_write o x.completion b)
  resolve_end :
      (x : Ending) (b : Bridge) (name service : Bytes) (endpoints : ℕ)
      → Step lib o x (b, resolve name service) (on_resolve x.completion endpoints b)
  connect_end :
      (x : Ending) (b : Bridge) (callback_set : Bool) (t : Turn)
      → on_upstream_connect lib x.completion callback_set b ≡ ok t
      → Step lib o x (b, connect) t
  certificate_verified :
      (x : Ending) (b : Bridge) (verified : Bool)
      → Step lib o x
          (b, upstream_handshake)
          ((verify_server_certificate verified b).0, upstream_handshake)
  upstream_handshake_end :
      (x : Ending) (b : Bridge)
      → Step lib o x (b, upstream_handshake) (on_upstream_handshake o x.completion b)
  downstream_handshake_end :
      (server_takes client_takes : Bool) (x : Ending) (b : Bridge)
      → Step lib o x
          (b, downstream_handshake)
          (on_downstream_handshake server_takes client_takes x.completion b)
  initial_peek_end :
      (x : Ending) (b : Bridge) (t : Turn)
      → on_initial_peek lib o x.completion x.bytes b ≡ ok t
      → Step lib o x (b, initial_peek) t
  tls_peek_end :
      (x : Ending) (b : Bridge) (fuel : ℕ) (t : Turn)
      → on_tls_peek fuel x.completion x.bytes b ≡ some t
      → Step lib o x (b, tls_peek) t
  volley_resolved :
      (x : Ending) (b : Bridge) (name first : Bytes) (port : ℕ)
      → Step lib o x (b, resolve_volley name port first) (on_volley_resolve x.completion first b)
  volley_connected :
      (x : Ending) (b : Bridge) (first : Bytes)
      → Step lib o x (b, connect_volley first) (on_volley_connect x.completion first b)
  timer_ended :
      (x : Ending) (b : Bridge) (next : Operation)
      → Step lib o x (b, next) (on_stream_timeout x.completion b, next)

-- A peek that fails, or reads nothing.
unfoldable pub is_lost_peek : Ending → Operation → Bool
is_lost_peek x initial_peek = is_error x.completion || is_empty x.bytes
is_lost_peek x _ = false
