-- ===== src/Bridge/Answers.antt =====
-- The handlers of TlsCapableHttpBridge.hpp that relay a response: OnUpstreamHeaders, OnUpstreamRead
-- and OnDownstreamWrite, and `TryInitiateHttpTransaction`, with which a transaction begins.
use http_filtering_engine.Base.{
  Bytes, ℕ, Bool, true, false, not, ◌&&◌, ◌||◌, [], ◌∷◌, List, if◌then◌else◌, some, none, bytes_eq,
  codes, pos, is_nonneg, is_positive, is_nonzero,
}
use http_filtering_engine.External.{Library}
use http_filtering_engine.Http.Headers.{HeaderMap}
use http_filtering_engine.Http.Names.{
  connection, get_dictionary, alternate_protocol, alt_svc, public_key_pins,
  public_key_pins_report_only,
}
use http_filtering_engine.Http.State.{
  HttpProtocolVersion, http1, http1_1, http2, Transaction, Result, ok, ◌>>=◌, set_should_block,
}
use http_filtering_engine.Http.Edit.{remove_header, get_header}
use http_filtering_engine.Bridge.State.{
  Outside, Completion, Bridge, upstream_headers, upstream_read, initial_peek, Turn,
  set_stream_timeout, give_up, fresh_request, fresh_response,
}
use http_filtering_engine.Bridge.Judgement.{should_block_transaction}
use http_filtering_engine.Bridge.Reading.{
  client, server, closes, is_error, fail, receive, read_into, write_to,
}

-- The call of `ShouldBlockTransaction` on both messages, and the bridge behind it.
unfoldable pub ask_both : Library → Outside → Bridge → Result (Bridge × Bool)
ask_both lib o b = should_block_transaction lib o b.request (some b.response) >>= (λ j.
    elim j.response [
      | none ↦ ok (record b { request = j.request }, j.blocks)
      | some t ↦ ok (record b { request = j.request; response = t }, j.blocks)
    ])

-- The block page is written to the client, from the request's buffer.
unfoldable pub refuse : Library → Bridge → Result Turn
unfolding write_to set_should_block
refuse lib b =
    write_to lib client client (record b { request = set_should_block (pos 1) b.request })

-- The headers that no client gets to see.
abbrev pub hidden_from_client : List Bytes
hidden_from_client =
    get_dictionary ∷ alternate_protocol ∷ alt_svc ∷ public_key_pins ∷ public_key_pins_report_only
    ∷ []

-- One call of `RemoveHeader` for each name, in order.
unfoldable pub remove_headers : List Bytes → Transaction → Transaction
unfolding remove_header
remove_headers [] t = t
remove_headers (name ∷ names) t = remove_headers names (remove_header name t)

-- The loop over the Connection headers.
unfoldable without_close : HeaderMap → Bool → Bool
without_close [] keep = keep
without_close (e ∷ range) keep =
    without_close range (if bytes_eq e.1 (codes "close") then false else keep)

abbrev is_persistent : HttpProtocolVersion → Bool
is_persistent http1 = false
is_persistent http1_1 = true
is_persistent http2 = true

-- `m_keepAlive`, from the request's version and the response's headers.
unfoldable wants_keep_alive : Bridge → Bool
unfolding without_close get_header
wants_keep_alive b =
    without_close (get_header connection b.response) (is_persistent b.request.http_version)

-- Whether the rest of a message has to be read first.
abbrev pub wants_more : Completion → Transaction → Bool
wants_more e t = not (closes e) && not t.payload_complete && t.consume_all_before_sending

-- The part of `OnUpstreamHeaders` for a response that is not blocked.
unfoldable pub pass_response_headers : Library → Completion → Bridge → Result Turn
unfolding remove_headers wants_keep_alive set_stream_timeout read_into write_to
pass_response_headers lib e b =
    let b1 = record b { response = remove_headers hidden_from_client b.response } in
    let b2 = set_stream_timeout 5 (record b1 { keep_alive = wants_keep_alive b1 }) in
    if wants_more e b2.response
    then ok (read_into server upstream_read b2)
    else write_to lib client server b2

-- A response may be blocked unless the request is whitelisted.
unfoldable pub take_response_headers : Library → Outside → Completion → Bridge → Result Turn
unfolding ask_both refuse pass_response_headers read_into
take_response_headers lib o e b =
    if not (closes e) && not b.response.headers_complete
    then ok (read_into server upstream_headers b)
    else if is_nonneg b.request.should_block
    then ask_both lib o b >>= (λ r. if r.1 then refuse lib r.0 else pass_response_headers lib e r.0)
    else pass_response_headers lib e b

-- `OnUpstreamHeaders`.
unfoldable pub on_upstream_headers : Library → Outside → Completion → ℕ → Bridge → Result Turn
unfolding receive take_response_headers
on_upstream_headers lib o e = receive lib server (take_response_headers lib o e) e

-- The part of `OnUpstreamRead` behind the question.
unfoldable pub pass_response : Library → Completion → Bridge → Result Turn
unfolding set_stream_timeout read_into write_to
pass_response lib e b =
    if wants_more e b.response
    then ok (read_into server upstream_read (set_stream_timeout 5 b))
    else write_to lib client server b

unfoldable pub take_response : Library → Outside → Completion → Bridge → Result Turn
unfolding ask_both refuse pass_response
take_response lib o e b =
    if is_nonneg b.request.should_block
      && b.response.payload_complete
      && b.response.consume_all_before_sending
    then ask_both lib o b >>= (λ r. if r.1 then refuse lib r.0 else pass_response lib e r.0)
    else pass_response lib e b

-- `OnUpstreamRead`.
unfoldable pub on_upstream_read : Library → Outside → Completion → ℕ → Bridge → Result Turn
unfolding receive take_response
on_upstream_read lib o e = receive lib server (take_response lib o e) e

-- `TryInitiateHttpTransaction`.
unfoldable pub try_initiate_http_transaction : Bridge → Turn
unfolding set_stream_timeout
try_initiate_http_transaction b = (set_stream_timeout 5 b, initial_peek)

-- The bridge with new transactions, for the next request on the same connections.
unfoldable pub start_over : Outside → Bridge → Turn
unfolding set_stream_timeout fresh_request fresh_response try_initiate_http_transaction
start_over o b = try_initiate_http_transaction (record (set_stream_timeout 5 b) {
  request = fresh_request o [];
  response = fresh_response o;
  should_terminate = false;
})

-- A whole response has been written.
unfoldable pub finish_transaction : Outside → Bridge → Turn
unfolding start_over
finish_transaction o b =
    if not b.keep_alive
    then give_up b
    else if is_nonzero b.request.should_block || is_nonzero b.response.should_block
    then give_up b
    else start_over o b

-- `OnDownstreamWrite`.
unfoldable pub on_downstream_write : Outside → Completion → Bridge → Turn
unfolding finish_transaction fail read_into set_stream_timeout
on_downstream_write o e b =
    if b.should_terminate
    then give_up b
    else if is_positive b.request.should_block
    then give_up b
    else if is_positive b.response.should_block
    then give_up b
    else if is_error e
    then fail e b
    else if not b.response.payload_complete
    then read_into server upstream_read (set_stream_timeout 5 b)
    else finish_transaction o b
