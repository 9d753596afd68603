-- ===== src/Tests/Messages.antt =====
-- Heads, payloads and conversions at concrete inputs.
use http_filtering_engine.Base.{
  Bool, Bytes, true, false, [], ◌∷◌, ◌++◌, some, ◌≡◌, ◌≢◌, refl, codes, All, arith, drop,
}
use http_filtering_engine.Http.Headers.{IsSorted}
use http_filtering_engine.Http.State.{Transaction, ok, http1_1, new_request}
use http_filtering_engine.Http.Head.{headers_to_string, start_line, with_status, header_lines}
use http_filtering_engine.Http.Head.RoundTrip.{read_head, IsPlain, read_head-headers_to_string}
use http_filtering_engine.Http.Payload.{set_payload, put_head, get_write_buffer}
use http_filtering_engine.Http.Payload.Framing.{IsFramed, set_payload-IsFramed}
use http_filtering_engine.Http.Payload.Writing.{get_write_buffer_reads}
use http_filtering_engine.Http.Codec.{compress_gzip, decompress_payload, use_converted}
use http_filtering_engine.Http.Codec.Outcomes.{Settled}
use http_filtering_engine.Http.Codec.Undo.{Restores, decompress_payload-compress_gzip}
use http_filtering_engine.Http.Callbacks.{run_callbacks}
use http_filtering_engine.Http.Callbacks.Chunks.{chunked_callbacks, read_chunks, chunks_read_back}
use http_filtering_engine.Text.Compare.{less}
use http_filtering_engine.Http.Codec.{convert_payload}
use http_filtering_engine.Http.Codec.Completion.{convert_payload-Settled}
use http_filtering_engine.Tests.Library.{
  toy, toy-IequalsFoldsCase, toy-GzipUndoes, two_headers, with_headers, parser, run_of,
}

sorted : IsSorted two_headers.headers
unfolding less
sorted = ((refl, tt), (tt, tt))

set_payload-IsFramed_example :
    IsFramed (codes "hello") (set_payload toy (codes "hello") false two_headers)
set_payload-IsFramed_example = set_payload-IsFramed toy (codes "hello") two_headers sorted

decompress_payload-compress_gzip_example :
    ((compress_gzip toy two_headers).1 ≡ true)
    × Restores two_headers.payload (decompress_payload toy (compress_gzip toy two_headers).0)
decompress_payload-compress_gzip_example =
    decompress_payload-compress_gzip toy toy-IequalsFoldsCase toy-GzipUndoes
      (1 ∷ two_headers.payload) two_headers sorted refl refl refl

-- A response whose payload is in gzip.
abbrev zipped : Transaction
zipped = record (with_headers ((codes "content-encoding", codes "GZIP") ∷ [])) {
  payload = 1 ∷ codes "text";
}

chunks_read_back_example :
    (t' : Transaction) × (run_callbacks toy
        (run_of [])
        (chunked_callbacks parser ((codes "ab" ∷ codes "c" ∷ []) ∷ []))
        two_headers
      ≡ ok (t', 0))
    × (read_chunks 2 (drop 4 t'.payload) ≡ some (codes "abc", []))
chunks_read_back_example =
    chunks_read_back toy (run_of []) parser ((codes "ab" ∷ codes "c" ∷ []) ∷ []) two_headers
      (refl, tt)

-- A request with two headers, and the head that is printed for it.
abbrev get_request : Transaction
get_request = record (new_request parser http1_1 1 []) {
  headers = two_headers.headers;
  payload = codes "text";
}

abbrev head : Bytes
head = codes "GET  HTTP/1.1\r\nAccept: a\r\nhost: b\r\n\r\n"

head-printed : headers_to_string toy get_request ≡ ok (get_request, head)
unfolding headers_to_string new_request with_status start_line header_lines
head-printed = refl

line-plain : All (λ c. c ≢ b'\r') (start_line toy get_request)
unfolding start_line new_request
line-plain = ground arith

headers-IsPlain : All IsPlain get_request.headers
headers-IsPlain = ground arith

read_head-headers_to_string_example :
    read_head (head ++ codes "text")
    ≡ some (start_line toy get_request, get_request.headers, codes "text")
read_head-headers_to_string_example =
    read_head-headers_to_string toy get_request get_request head (codes "text") head-printed
      line-plain headers-IsPlain

-- The request once its head is out.
abbrev sent : Transaction
sent = record get_request { headers_sent = true; payload = head ++ codes "text" }

first_write : get_write_buffer toy get_request ≡ ok (sent, head ++ codes "text")
unfolding get_write_buffer headers_to_string new_request put_head with_status start_line
    header_lines
first_write = refl

sent-plain : All (λ c. c ≢ b'\r') (start_line toy sent)
unfolding start_line new_request
sent-plain = ground arith

get_write_buffer_reads_example :
    read_head (head ++ codes "text") ≡ some (start_line toy sent, sent.headers, get_request.payload)
get_write_buffer_reads_example =
    get_write_buffer_reads toy get_request sent (head ++ codes "text") (unfold new_request in refl)
      first_write sent-plain headers-IsPlain

-- A complete request, and what its conversion gives.
abbrev whole : Transaction
whole = record get_request { payload_complete = true }

abbrev converted : Transaction × Bool
converted = use_converted toy (0, codes "body") whole

convert-whole : convert_payload toy whole ≡ ok converted
unfolding convert_payload headers_to_string with_status new_request
convert-whole = refl

convert_payload-Settled_example : Settled converted
convert_payload-Settled_example =
    convert_payload-Settled toy whole converted sorted refl convert-whole
