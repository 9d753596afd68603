-- ===== src/Http/Payload.antt =====
-- The payload operations of BaseHttpTransaction.cpp: SetPayload, Make204, the questions about the
-- content, GetReadBuffer and GetWriteBuffer.
pub mod Framing
pub mod Writing
use http_filtering_engine.Base.{
  Bytes, ℕ, ◌-◌, Bool, true, false, not, ◌&&◌, ◌||◌, [], ◌∷◌, ◌++◌, codes, if◌then◌else◌, length,
  replicate, is_empty, Option, some, none, ltb,
}
use http_filtering_engine.External.{Library}
use http_filtering_engine.Text.Digits.{to_string}
use http_filtering_engine.Http.Headers.{HeaderMap}
use http_filtering_engine.Http.Names.{
  content_length, content_encoding, transfer_encoding, content_type, chunked, content_type_json,
  content_type_html, content_type_text, content_type_image, content_type_css,
  content_type_javascript,
}
use http_filtering_engine.Http.State.{
  HttpProtocolVersion, http1, http1_1, http2, Transaction, Result, ok, ◌>>=◌,
}
use http_filtering_engine.Http.Edit.{add_header, remove_header, get_header}
use http_filtering_engine.Http.Head.{headers_to_string}

-- The three calls of `RemoveHeader` in `SetPayload`.
unfoldable pub remove_framing : Transaction → Transaction
remove_framing t =
    remove_header content_encoding
      (remove_header transfer_encoding (remove_header content_length t))

-- `SetPayload(std::vector<char>&&, bool)`.
unfoldable pub set_payload : Library → Bytes → Bool → Transaction → Transaction
set_payload lib payload includes_headers t =
    let t1 = record t { payload = payload; payload_complete = true } in
    if includes_headers
    then record t1 { headers = []; headers_sent = true; headers_complete = true }
    else add_header lib content_length (to_string (length payload)) true (remove_framing t1)

-- `SetPayload(const std::vector<char>&, bool)`: the same on a copy.
unfoldable pub set_payload_copy : Library → Bytes → Bool → Transaction → Transaction
set_payload_copy lib payload includes_headers t =
    let t1 = record t { payload = payload; payload_complete = true } in
    if includes_headers
    then record t1 { headers = []; headers_sent = true; headers_complete = true }
    else add_header lib content_length (to_string (length payload)) true (remove_framing t1)

-- The text of `Make204`, with what `std::ctime` gives for now and for the epoch.
unfoldable pub text_204 : HttpProtocolVersion → Bytes → Bytes → Bytes
text_204 version now epoch =
    codes "HTTP/"
    ++ (elim version [ http1 ↦ codes "1.0" | http1_1 ↦ codes "1.1" | http2 ↦ codes "2.0" ]
        ++ (codes " 204 No Content\r\nDate: "
            ++ (now
                ++ (codes "\r\nExpires: " ++ (epoch ++ codes "\r\nContent-Length: 0\r\n\r\n")))))

-- `Make204`.
unfoldable pub make_204 : Bytes → Bytes → Transaction → Transaction
unfolding text_204
make_204 now epoch t = record t {
  payload = text_204 t.http_version now epoch;
  headers = [];
  headers_sent = true;
  headers_complete = true;
  payload_complete = true;
}

-- `IsPayloadChunked`: the first Transfer-Encoding header alone is asked.
unfoldable is_payload_chunked : Library → Transaction → Bool
unfolding get_header
is_payload_chunked lib t = elim (get_header transfer_encoding t) [
  | [] ↦ false
  | e ∷ range ↦ lib.iequals e.1 chunked
]

-- `IsPayloadCompressed`.
unfoldable pub is_payload_compressed : Transaction → Bool
unfolding get_header
is_payload_compressed t = not (is_empty (get_header content_encoding t))

-- The loop of `DoesContentTypeMatch`.
unfoldable any_matches : (Bytes → Bool) → HeaderMap → Bool
any_matches test [] = false
any_matches test (e ∷ range) = test e.1 || any_matches test range

unfoldable does_content_type_match : Library → Bytes → Transaction → Bool
unfolding any_matches get_header
does_content_type_match lib type t =
    any_matches (λ v. lib.iequals v type) (get_header content_type t)

unfoldable does_content_type_contain : Library → Bytes → Transaction → Bool
unfolding any_matches get_header
does_content_type_contain lib type t =
    any_matches (λ v. lib.ifind_first v type) (get_header content_type t)

unfoldable is_payload_json : Library → Transaction → Bool
unfolding does_content_type_contain
is_payload_json lib = does_content_type_contain lib content_type_json

unfoldable is_payload_html : Library → Transaction → Bool
unfolding does_content_type_contain
is_payload_html lib = does_content_type_contain lib content_type_html

-- `IsPayloadText`: JSON and HTML count as text.
unfoldable is_payload_text : Library → Transaction → Bool
unfolding does_content_type_contain
is_payload_text lib t =
    if does_content_type_contain lib content_type_text t
    then true
    else if does_content_type_contain lib content_type_html t
    then true
    else does_content_type_contain lib content_type_json t

unfoldable is_payload_image : Library → Transaction → Bool
unfolding does_content_type_contain
is_payload_image lib = does_content_type_contain lib content_type_image

unfoldable is_payload_css : Library → Transaction → Bool
unfolding does_content_type_contain
is_payload_css lib = does_content_type_contain lib content_type_css

unfoldable is_payload_javascript : Library → Transaction → Bool
unfolding does_content_type_contain
is_payload_javascript lib = does_content_type_contain lib content_type_javascript

-- `PayloadBufferReadSize`.
abbrev payload_buffer_read_size : ℕ
payload_buffer_read_size = 131072

-- `resize`, when it makes a vector longer.
pub grow : ℕ → Bytes → Bytes
grow size buffer = buffer ++ replicate (size - length buffer) 0

-- `GetReadBuffer`: the transaction, and the size of the buffer that it hands out.
unfoldable pub get_read_buffer : Transaction → Transaction × ℕ
get_read_buffer t =
    let t1 =
      if ltb (length t.buffer) payload_buffer_read_size
      then record t { buffer = grow payload_buffer_read_size t.buffer }
      else t in
    let t2 =
      if t1.headers_complete && not t1.consume_all_before_sending
      then record t1 { payload = [] }
      else t1 in
    (t2, payload_buffer_read_size)

-- The branch of `GetWriteBuffer` that puts the head in front of the payload.
unfoldable pub put_head : Library → Transaction → Result Transaction
put_head lib t = do
  (t', head) ← headers_to_string lib t
  ok (record t' { payload = head ++ t'.payload; headers_sent = true })

-- `GetWriteBuffer`: the transaction, and the bytes to write.
unfoldable pub get_write_buffer : Library → Transaction → Result (Transaction × Bytes)
get_write_buffer lib t = do
  t' ← (if not t.headers_sent then put_head lib t else ok t)
  ok (t', t'.payload)
