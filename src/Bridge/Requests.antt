-- ===== src/Bridge/Requests.antt =====
-- The handlers of TlsCapableHttpBridge.hpp that relay a request: OnDownstreamHeaders,
-- OnDownstreamRead and OnUpstreamWrite.
use http_filtering_engine.Base.{
  Bytes, ℕ, ◌-◌, ◌%◌, Bool, true, false, not, [], ◌∷◌, List, if◌then◌else◌, Option, some, none,
  ◌&&◌, bytes_eq, codes, is_empty, ◌==◌, ℤ, pos, negsuc,
}
use http_filtering_engine.External.{Library}
use http_filtering_engine.Text.Stoi.{stoi}
use http_filtering_engine.Http.Headers.{HeaderMap}
use http_filtering_engine.Http.Names.{
  accept_encoding, gzip, x_sdhc, avail_dictionary, alternate_protocol, alt_svc, public_key_pins,
  public_key_pins_report_only, host,
}
use http_filtering_engine.Http.State.{Transaction, warning, error, Result, ok, ◌>>=◌}
use http_filtering_engine.Http.Edit.{add_header, get_header}
use http_filtering_engine.Bridge.State.{
  Outside, Completion, Bridge, downstream_headers, downstream_read, upstream_headers, resolve, Turn,
  say, set_stream_timeout, give_up,
}
use http_filtering_engine.Bridge.Judgement.{should_block_transaction}
use http_filtering_engine.Bridge.Reading.{
  client, server, closes, is_error, fail, receive, read_into, write_to,
}
use http_filtering_engine.Bridge.Answers.{remove_headers, wants_more}

-- The call of `ShouldBlockTransaction` on the request alone.
unfoldable pub ask : Library → Outside → Bridge → Result (Bridge × Bool)
ask lib o b =
    should_block_transaction lib o b.request none
    >>= (λ j. ok (record b { request = j.request }, j.blocks))

-- The headers that no server gets to see.
abbrev hidden_from_server : List Bytes
hidden_from_server =
    x_sdhc ∷ avail_dictionary ∷ alternate_protocol ∷ alt_svc ∷ public_key_pins
    ∷ public_key_pins_report_only ∷ []

-- What is done to the headers of a request that is not blocked.
unfoldable pub clean_request : Library → Transaction → Transaction
unfolding remove_headers
clean_request lib t = remove_headers hidden_from_server (add_header lib accept_encoding gzip true t)

-- A text up to the first colon, and what follows it.
unfoldable pub cut_at_colon : Bytes → Bytes × Option Bytes
cut_at_colon [] = ([], none)
cut_at_colon (c ∷ cs) =
    let rest = cut_at_colon cs in if c == b':' then ([], some cs) else (c ∷ rest.0, rest.1)

-- `static_cast<uint16_t>` of an `int`.
abbrev pub to_u16 : ℤ → ℕ
to_u16 (pos n) = n % 65536
to_u16 (negsuc n) = 65535 - n % 65536

-- `m_upstreamHostPort` from what follows the colon.
unfoldable pub take_port : Option Bytes → Bridge → Bridge
unfolding stoi
take_port none b = b
take_port (some text) b = elim (stoi text) [
  | none ↦ say warning b
  | some n ↦ record b { upstream_host_port = to_u16 n }
]

abbrev pub service : Bool → Bytes
service true = codes "https"
service false = codes "http"

-- The request is read on, or written to the server.
unfoldable pub pass_request : Library → Completion → Bridge → Result Turn
unfolding set_stream_timeout read_into write_to
pass_request lib e b =
    if wants_more e b.request
    then ok (read_into client downstream_read (set_stream_timeout 5 b))
    else write_to lib server client (set_stream_timeout 5 b)

-- The host of the request against the server's, and the operation that follows.
unfoldable pub direct : Library → Completion → Bytes → Bridge → Result Turn
unfolding set_stream_timeout pass_request
direct lib e name b =
    if is_empty b.upstream_host
    then ok
        (record (set_stream_timeout 5 b) { upstream_host = name }, resolve name (service b.is_tls))
    else if not (bytes_eq name b.upstream_host)
    then ok (give_up b)
    else pass_request lib e b

-- The part of `OnDownstreamHeaders` behind `GetHeader(Host)`.
unfoldable pub direct_by_host : Library → Outside → Completion → HeaderMap → Bridge → Result Turn
unfolding fail cut_at_colon take_port direct
direct_by_host lib o e [] b = ok (fail e (say error b))
direct_by_host lib o e (h ∷ range) b =
    let parts = cut_at_colon (o.trim h.1) in direct lib e parts.0 (take_port parts.1 b)

unfoldable pub pass_request_headers : Library → Outside → Completion → Bridge → Result Turn
unfolding clean_request get_header direct_by_host
pass_request_headers lib o e b =
    let b1 = record b { request = clean_request lib b.request } in
    direct_by_host lib o e (get_header host b1.request) b1

unfoldable pub take_request_headers : Library → Outside → Completion → Bridge → Result Turn
unfolding ask read_into write_to pass_request_headers
take_request_headers lib o e b =
    if not (closes e) && not b.request.headers_complete
    then ok (read_into client downstream_headers b)
    else ask lib o b
      >>= (λ r. if r.1 then write_to lib client client r.0 else pass_request_headers lib o e r.0)

-- `OnDownstreamHeaders`.
unfoldable pub on_downstream_headers : Library → Outside → Completion → ℕ → Bridge → Result Turn
unfolding receive take_request_headers
on_downstream_headers lib o e = receive lib client (take_request_headers lib o e) e

-- `OnDownstreamRead`. The filtering callbacks are not asked.
unfoldable pub on_downstream_read : Library → Completion → ℕ → Bridge → Result Turn
unfolding receive pass_request
on_downstream_read lib e = receive lib client (pass_request lib e) e

-- `OnUpstreamWrite`.
unfoldable pub on_upstream_write : Completion → Bridge → Turn
unfolding fail read_into set_stream_timeout
on_upstream_write e b =
    if b.should_terminate
    then give_up b
    else if is_error e
    then fail e b
    else if not b.request.payload_complete
    then read_into client downstream_read (set_stream_timeout 5 b)
    else read_into server upstream_headers (set_stream_timeout 5 b)
