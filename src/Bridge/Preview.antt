-- ===== src/Bridge/Preview.antt =====
-- PreviewParser and `OnInitialPeek` of TlsCapableHttpBridge.hpp: what the first bytes of a client are
-- taken for.
use http_filtering_engine.Base.{
  Bytes, ℕ, ◌+◌, false, not, ◌&&◌, ◌||◌, [], ◌∷◌, List, if◌then◌else◌, Option, some, none, bytes_eq,
  is_empty, length, drop, ltb, ◌==◌,
}
use http_filtering_engine.External.{Library, Parser, Callback, Event}
use http_filtering_engine.External
use http_filtering_engine.Text.Stoi.{stoi}
use http_filtering_engine.Http.Names.{host}
use http_filtering_engine.Http.State.{info, warning, error, Result, ok}
use http_filtering_engine.Bridge.State.{
  Outside, Completion, success, Bridge, nothing, volley, resolve_volley, Turn, say,
  set_stream_timeout, give_up, fresh_request,
}
use http_filtering_engine.Bridge.Reading.{is_error}
use http_filtering_engine.Bridge.Requests.{on_downstream_headers, to_u16}

-- `HeaderCbData`, whose map is the list of its entries, one for each name.
pub record HeaderCbData : Type 0 where
  pub headers : List (Bytes × Bytes)
  pub last_header_name : Bytes

pub data ParseResult : Type 0 where
  is_http not_http http_with_upgrade failure : ParseResult

-- `headers[name] = value` and `headers.find(name)`; names are compared as they are.
unfoldable assign : Bytes → Bytes → List (Bytes × Bytes) → List (Bytes × Bytes)
assign name value [] = (name, value) ∷ []
assign name value (e ∷ m) = if bytes_eq e.0 name then (name, value) ∷ m else e ∷ assign name value m

unfoldable find_value : Bytes → List (Bytes × Bytes) → Option Bytes
find_value name [] = none
find_value name (e ∷ m) = if bytes_eq e.0 name then some e.1 else find_value name m

-- `onHeaderField` and `onHeaderValue`; the other callbacks keep nothing that is read.
unfoldable note_event : Event → HeaderCbData → HeaderCbData
unfolding assign
note_event (External.header_field text) d = record d { last_header_name = text }
note_event (External.header_value text) d = record d {
  headers = assign d.last_header_name text d.headers;
}
note_event _ d = d

unfoldable note_events : List Callback → HeaderCbData → HeaderCbData
note_events [] d = d
note_events (c ∷ cs) d = note_events cs (note_event c.event d)

abbrev value_or_empty : Option Bytes → Bytes
value_or_empty none = []
value_or_empty (some v) = v

-- What `Parse` answers, from the parser and the host that was found.
unfoldable classify : Outside → Parser → Bytes → ParseResult
classify o p name =
    if p.upgrade == 1
    then (if is_empty name then failure else http_with_upgrade)
    else if not (p.http_errno == 0)
        && (p.http_errno == o.invalid_method || p.http_errno == o.unknown_error)
    then not_http
    else if is_empty name
    then failure
    else is_http

-- `PreviewParser::Parse`, with the host that it puts out.
unfoldable pub preview : Library → Outside → Bytes → ParseResult × Bytes
unfolding note_events note_event find_value classify
preview lib o bytes =
    let run = lib.execute o.request_parser bytes in
    let seen = note_events run.callbacks (record { headers = []; last_header_name = [] }) in
    let name = value_or_empty (find_value host seen.headers) in
    if is_empty bytes then (failure, []) else (classify o run.parser name, name)

-- What stands before the last colon of a text.
unfoldable before_last_colon : Bytes → Option Bytes
before_last_colon [] = none
before_last_colon (c ∷ cs) = elim (before_last_colon cs) [
  | some p ↦ some (c ∷ p)
  | none ↦ if c == b':' then some [] else none
]

abbrev port_or_zero : Bytes → ℕ
port_or_zero text = elim (stoi text) [ none ↦ 0 | some n ↦ to_u16 n ]

-- `parsedHost` and `customPort`: the text is cut first, and the port then looked for in what is left.
unfoldable split_host : Bytes → Bytes × ℕ
unfolding before_last_colon stoi
split_host name = elim (before_last_colon name) [
  | none ↦ (name, 0)
  | some p ↦ (p, if ltb (length p + 1) (length p) then port_or_zero (drop (length p + 1) p) else 0)
]

-- The case of HTTP with an upgrade.
unfoldable pub pass_upgrade : Bytes → Bytes → Bridge → Turn
unfolding split_host set_stream_timeout
pass_upgrade bytes name b =
    let b1 = say info b in
    if b.is_tls
    then (b1, volley bytes)
    else if is_empty name
    then give_up (say warning (set_stream_timeout 5 b1))
    else (set_stream_timeout 5 b1, resolve_volley (split_host name).0 (split_host name).1 bytes)

-- The cases of the `switch`.
unfoldable pub act_on : Library → Outside → ParseResult × Bytes → Bytes → Bridge → Result Turn
unfolding pass_upgrade on_downstream_headers fresh_request set_stream_timeout
act_on lib o (failure, name) bytes b = ok (give_up (say error b))
act_on lib o (is_http, name) bytes b =
    on_downstream_headers lib o success (length bytes) (record (set_stream_timeout 5 b) {
      request = fresh_request o bytes;
      should_terminate = false;
    })
act_on lib o (http_with_upgrade, name) bytes b = ok (pass_upgrade bytes name b)
act_on lib o (not_http, name) bytes b =
    if b.is_tls then ok (say info b, volley bytes) else ok (give_up (say error b))

-- `OnInitialPeek` with the bytes read. After an error, or with no bytes, nothing is done: the call of
-- `Kill` at the end is commented out.
unfoldable pub on_initial_peek : Library → Outside → Completion → Bytes → Bridge → Result Turn
unfolding preview act_on set_stream_timeout
on_initial_peek lib o e bytes b =
    if is_error e || is_empty bytes
    then ok (b, nothing)
    else act_on lib o (preview lib o bytes) bytes (set_stream_timeout 5 b)
