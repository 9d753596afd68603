-- ===== src/Http/Callbacks.antt =====
-- The callbacks of BaseHttpTransaction.cpp that http_parser makes, and `Parse`. A callback's result
-- is the state and the `int` that it returns, with `true` for 0.
pub mod Order
pub mod Invariant
pub mod Acceptance
pub mod Pieces
pub mod Whole
pub mod Repeated
pub mod Chunks
use http_filtering_engine.Base.{
  Bytes, ℕ, Bool, true, false, not, [], ◌∷◌, ◌++◌, List, if◌then◌else◌, is_empty, crlf, ◌==◌, take,
  pos,
}
use http_filtering_engine.External.{Library, Parser, Event, Callback, Execution}
use http_filtering_engine.External
use http_filtering_engine.Text.Digits.{to_hex}
use http_filtering_engine.Http.Headers.{HeaderMap, before, behind, equal_range}
use http_filtering_engine.Http.State.{Transaction, Severity, error, report, Result, ok, ◌>>=◌}
use http_filtering_engine.Http.Edit.{add_header}
use http_filtering_engine.Http.Head.{on_url, on_status}
use http_filtering_engine.Http.Codec.{convert_payload}

-- `OnMessageBegin`. The payload is not cleared.
unfoldable pub on_message_begin : Transaction → Transaction
on_message_begin t = record t {
  payload_complete = false;
  consume_all_before_sending = false;
  should_block = pos 0;
  headers = [];
  headers_sent = false;
  headers_complete = false;
  last_header = [];
  last_header_value_fresh = false;
  last_header_field_fresh = false;
}

-- `OnHeadersComplete`.
unfoldable pub on_headers_complete : Transaction → Transaction
on_headers_complete t = record t { headers_complete = true; headers_sent = false }

-- `OnMessageComplete`, which ignores the result of the conversion.
unfoldable pub on_message_complete : Library → Transaction → Result Transaction
on_message_complete lib t =
    let t1 = record t { payload_complete = true } in
    if t.consume_all_before_sending then convert_payload lib t1 >>= (λ r. ok r.0) else ok t1

-- `OnChunkHeader`: the length of the chunk is in the parser's `content_length`.
unfoldable pub on_chunk_header : Transaction → Transaction
on_chunk_header t = record t { payload = t.payload ++ (to_hex t.parser.content_length ++ crlf) }

-- `OnChunkComplete`.
unfoldable pub on_chunk_complete : Transaction → Transaction
on_chunk_complete t = record t { payload = t.payload ++ crlf }

-- `OnHeaderField`: a new name, or more of the last one.
unfoldable pub take_field : Bytes → Transaction → Transaction
take_field text t = record t {
  last_header = if t.last_header_field_fresh then text else t.last_header ++ text;
  last_header_field_fresh = false;
  last_header_value_fresh = true;
}

unfoldable pub on_header_field : Bytes → Transaction → Transaction × Bool
unfolding take_field
on_header_field text t =
    if is_empty text then (report error (take_field text t), false) else (take_field text t, true)

-- The last entry of a range, with more text behind its value.
unfoldable pub append_last : Bytes → HeaderMap → HeaderMap
append_last text [] = []
append_last text (e ∷ []) = (e.0, e.1 ++ text) ∷ []
append_last text (e ∷ f ∷ range) = e ∷ append_last text (f ∷ range)

-- The branch of `OnHeaderValue` for more of the value that was entered last.
unfoldable pub append_value : Bytes → Bytes → HeaderMap → HeaderMap
unfolding append_last
append_value name text m = before name m ++ (append_last text (equal_range name m) ++ behind name m)

-- The branch for a new value.
unfoldable pub enter_value : Library → Bytes → Transaction → Transaction
enter_value lib text t = record (add_header lib t.last_header text false t) {
  last_header_value_fresh = false;
}

-- `OnHeaderValue`.
unfoldable pub on_header_value : Library → Bytes → Transaction → Transaction × Bool
unfolding enter_value append_value
on_header_value lib text t =
    let t1 = record t { last_header_field_fresh = true } in
    if is_empty t.last_header
    then (report error t1, false)
    else if t.last_header_value_fresh
    then (enter_value lib text t1, true)
    else (record t1 { headers = append_value t.last_header text t.headers }, true)

-- `OnBody`.
unfoldable pub on_body : Bytes → Transaction → Transaction
on_body text t = record t { payload = t.payload ++ text }

-- The callback that `http_parser_settings` has for an event. `on_url` and `on_status` are the
-- subclasses' own.
unfoldable pub dispatch : Library → Event → Transaction → Result (Transaction × Bool)
dispatch lib External.message_begin t = ok (on_message_begin t, true)
dispatch lib External.headers_complete t = ok (on_headers_complete t, true)
dispatch lib External.message_complete t = on_message_complete lib t >>= (λ t'. ok (t', true))
dispatch lib External.chunk_header t = ok (on_chunk_header t, true)
dispatch lib External.chunk_complete t = ok (on_chunk_complete t, true)
dispatch lib (External.url text) t = ok (on_url text t, true)
dispatch lib (External.status text) t = on_status t >>= (λ t'. ok (t', true))
dispatch lib (External.header_field text) t = ok (on_header_field text t)
dispatch lib (External.header_value text) t = ok (on_header_value lib text t)
dispatch lib (External.body text) t = ok (on_body text t, true)

-- The callbacks of one call of `http_parser_execute`, and the bytes parsed: those of the whole call,
-- or those up to a callback that stops it.
unfoldable pub run_callbacks :
    Library → Execution → List Callback → Transaction → Result (Transaction × ℕ)
run_callbacks lib run [] t = ok (record t { parser = run.parser }, run.nparsed)
run_callbacks lib run (c ∷ cs) t = dispatch lib c.event (record t { parser = c.parser }) >>= (λ r.
    elim r.1 [
      | true ↦ run_callbacks lib run cs r.0
      | false ↦ ok (record r.0 { parser = lib.stopped r.0.parser }, c.stops_at)
    ])

-- The checks of `Parse` behind the call.
unfoldable pub check_parsed : ℕ → Transaction × ℕ → Transaction × Bool
check_parsed received (t, nparsed) =
    if t.parser.upgrade == 1
    then (report error t, false)
    else if not (t.parser.http_errno == 0)
    then (report error t, false)
    else if not (nparsed == received)
    then (report error t, false)
    else (t, true)

-- `Parse`.
unfoldable pub parse : Library → ℕ → Transaction → Result (Transaction × Bool)
unfolding run_callbacks check_parsed
parse lib received t =
    let run = lib.execute t.parser (take received t.buffer) in
    run_callbacks lib run run.callbacks t >>= (λ r. ok (check_parsed received r))
