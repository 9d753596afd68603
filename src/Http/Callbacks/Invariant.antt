-- ===== src/Http/Callbacks/Invariant.antt =====
-- The multimap's order through the callbacks and through `Parse`.
use http_filtering_engine.Base.{
  Bytes, ℕ, Bool, true, false, not, [], ◌∷◌, ◌++◌, List, is_empty, ◌==◌, Option, some, none, take,
}
use http_filtering_engine.External.{Library, Parser, Event, Callback, Execution, StoppedIsError}
use http_filtering_engine.External
use http_filtering_engine.Http.Headers.{IsSorted}
use http_filtering_engine.Http.State.{Transaction, Kind, HttpProtocolVersion}
use http_filtering_engine.Http.Edit.Lookup.{add_header-IsSorted}
use http_filtering_engine.Http.Head.{on_status, headers_to_string}
use http_filtering_engine.Http.Codec.{
  convert_payload, use_converted, decompress_payload, decompress_detected, decompress_as,
  report_failure,
}
use http_filtering_engine.Http.Codec.Outcomes.{Decoded, decoder, decompress_as-Decoded}
use http_filtering_engine.Http.Payload.{is_payload_compressed}
use http_filtering_engine.Http.Payload.Framing.{set_payload-IsSorted}
use http_filtering_engine.Http.Results.{Holds, Holds-bind, by_if, by_flag}
use http_filtering_engine.Http.Head.Keeps.{on_url-Holds, on_status-Holds, headers_to_string-Holds}
use http_filtering_engine.Http.Callbacks.Order.{append_value-IsSorted}
use http_filtering_engine.Http.Callbacks.{
  on_message_begin, on_headers_complete, on_chunk_header, on_chunk_complete, on_body,
  on_header_field, on_header_value, enter_value, take_field, dispatch, on_message_complete,
  run_callbacks, check_parsed, parse,
}

-- The headers are in order, as every operation on the multimap needs.
abbrev pub Ordered : Transaction → Type 0
Ordered t = IsSorted t.headers

abbrev pub OrderedFirst {ℓ} : {A : Type ℓ} → Transaction × A → Type 0
OrderedFirst r = Ordered r.0

Ordered-kept :
    (t : Transaction) (k : Kind) (v : HttpProtocolVersion)
    → Ordered t
    → Ordered (record t { kind = k; http_version = v })
Ordered-kept t k v s = s

Decoded-Ordered :
    (decode : Bytes → Option Bytes) (t : Transaction) (r : Transaction × Bool)
    → Ordered t
    → Decoded decode t r
    → OrderedFirst r
Decoded-Ordered decode t (t', true) s (p, e, f, s') = s'
Decoded-Ordered decode t (t', false) s h = rw h s

detected-Ordered :
    (lib : Library) (d : Option Bytes) (t : Transaction)
    → Ordered t
    → OrderedFirst (decompress_detected lib d t)
unfolding decompress_detected
detected-Ordered lib none t s = s
detected-Ordered lib (some encoding) t s =
    Decoded-Ordered (decoder lib encoding) t (decompress_as lib encoding t) s
      (decompress_as-Decoded lib encoding t s)

decompress_payload-Ordered :
    (lib : Library) (t : Transaction) → Ordered t → OrderedFirst (decompress_payload lib t)
unfolding decompress_payload
decompress_payload-Ordered lib t s =
    by_if OrderedFirst (not t.payload_complete) _ _ s
      (by_if OrderedFirst (not (is_payload_compressed t)) _ _ s (detected-Ordered lib _ t s))

report_failure-Ordered : (r : Transaction × Bool) → OrderedFirst r → OrderedFirst (report_failure r)
unfolding report_failure
report_failure-Ordered (t, true) h = h
report_failure-Ordered (t, false) h = h

use_converted-Ordered :
    (lib : Library) (r : ℕ × Bytes) (t : Transaction)
    → Ordered t
    → OrderedFirst (use_converted lib r t)
unfolding use_converted
use_converted-Ordered lib (errno, body) t s = by_if OrderedFirst (not (errno == 0)) _ _ s (
    by_if OrderedFirst (is_empty body) _ _ s (
      by_if OrderedFirst (not (is_payload_compressed t)) _ _
        (set_payload-IsSorted lib body false t s)
        (report_failure-Ordered _
          (decompress_payload-Ordered lib (record t { payload = body }) s))))

-- A conversion keeps the order whatever its outcome.
convert_payload-Ordered :
    (lib : Library) (t : Transaction) → Ordered t → Holds OrderedFirst (convert_payload lib t)
unfolding convert_payload
convert_payload-Ordered lib t s =
    Holds-bind OrderedFirst OrderedFirst (headers_to_string lib t) _
      (headers_to_string-Holds Ordered Ordered-kept lib t s)
      (λ r h. use_converted-Ordered lib (lib.execute_both (r.1 ++ r.0.payload)) r.0 h)

on_message_complete-Ordered :
    (lib : Library) (t : Transaction) → Ordered t → Holds Ordered (on_message_complete lib t)
unfolding on_message_complete
on_message_complete-Ordered lib t s =
    by_if (Holds Ordered) t.consume_all_before_sending _ _
      (Holds-bind OrderedFirst Ordered (convert_payload lib (record t { payload_complete = true }))
        _ (convert_payload-Ordered lib (record t { payload_complete = true }) s) (λ r h. h))
      s

on_header_field-Ordered :
    (text : Bytes) (t : Transaction) → Ordered t → OrderedFirst (on_header_field text t)
unfolding on_header_field take_field
on_header_field-Ordered text t s = by_if OrderedFirst (is_empty text) _ _ s s

on_header_value-Ordered :
    (lib : Library) (text : Bytes) (t : Transaction)
    → Ordered t
    → OrderedFirst (on_header_value lib text t)
unfolding on_header_value enter_value
on_header_value-Ordered lib text t s = by_if OrderedFirst (is_empty t.last_header) _ _ s (
    by_if OrderedFirst t.last_header_value_fresh _ _
      (add_header-IsSorted lib t.last_header text false
        (record t { last_header_field_fresh = true }) s)
      (append_value-IsSorted t.last_header text t.headers s))

-- Every callback keeps the order.
dispatch-Ordered :
    (lib : Library) (e : Event) (t : Transaction)
    → Ordered t
    → Holds OrderedFirst (dispatch lib e t)
unfolding dispatch on_message_begin on_headers_complete on_chunk_header on_chunk_complete on_body
dispatch-Ordered lib External.message_begin t s = tt
dispatch-Ordered lib External.headers_complete t s = s
dispatch-Ordered lib External.message_complete t s =
    Holds-bind Ordered OrderedFirst (on_message_complete lib t) _
      (on_message_complete-Ordered lib t s) (λ t' h. h)
dispatch-Ordered lib External.chunk_header t s = s
dispatch-Ordered lib External.chunk_complete t s = s
dispatch-Ordered lib (External.url text) t s = on_url-Holds Ordered Ordered-kept text t s
dispatch-Ordered lib (External.status text) t s =
    Holds-bind Ordered OrderedFirst (on_status t) _ (on_status-Holds Ordered Ordered-kept t s)
      (λ t' h. h)
dispatch-Ordered lib (External.header_field text) t s = on_header_field-Ordered text t s
dispatch-Ordered lib (External.header_value text) t s = on_header_value-Ordered lib text t s
dispatch-Ordered lib (External.body text) t s = s

run_callbacks-Ordered :
    (lib : Library) (run : Execution) (cs : List Callback) (t : Transaction)
    → Ordered t
    → Holds OrderedFirst (run_callbacks lib run cs t)
unfolding run_callbacks
run_callbacks-Ordered lib run [] t s = s
run_callbacks-Ordered lib run (c ∷ cs) t s =
    Holds-bind OrderedFirst OrderedFirst (dispatch lib c.event (record t { parser = c.parser })) _
      (dispatch-Ordered lib c.event (record t { parser = c.parser }) s)
      (λ r h. by_flag (Holds OrderedFirst) r.1 _ _ (run_callbacks-Ordered lib run cs r.0 h) h)

check_parsed-Ordered :
    (received : ℕ) (r : Transaction × ℕ) → OrderedFirst r → OrderedFirst (check_parsed received r)
unfolding check_parsed
check_parsed-Ordered received (t, n) h = by_if OrderedFirst (t.parser.upgrade == 1) _ _ h (
    by_if OrderedFirst (not (t.parser.http_errno == 0)) _ _ h
      (by_if OrderedFirst (not (n == received)) _ _ h h))

-- From a transaction whose headers are in the multimap's order, `Parse` returns, unless it throws,
-- one whose headers are so: whatever callbacks http_parser makes, with whatever texts, and whether
-- or not the message is converted at its end.
pub parse-Ordered :
    (lib : Library) (received : ℕ) (t : Transaction)
    → Ordered t
    → Holds OrderedFirst (parse lib received t)
unfolding parse
parse-Ordered lib received t s =
    let run = lib.execute t.parser (take received t.buffer) in
    Holds-bind OrderedFirst OrderedFirst (run_callbacks lib run run.callbacks t) _
      (run_callbacks-Ordered lib run run.callbacks t s) (check_parsed-Ordered received)
