-- ===== src/Http/Codec.antt =====
-- Compression, decompression and dechunking in BaseHttpTransaction.cpp. boost's filters and the
-- second http_parser are parameters; that `malloc` fails is not modelled.
pub mod Undo
pub mod Outcomes
pub mod Failure
pub mod Completion
use http_filtering_engine.Base.{
  Bytes, ℕ, Bool, true, false, not, [], ◌∷◌, ◌++◌, if◌then◌else◌, is_empty, Option, some, none,
  ◌==◌,
}
use http_filtering_engine.External.{Library}
use http_filtering_engine.Http.Names.{content_encoding, transfer_encoding, gzip, deflate}
use http_filtering_engine.Http.State.{
  Transaction, Severity, warning, error, report, Result, ok, ◌>>=◌,
}
use http_filtering_engine.Http.Edit.{add_header, remove_header, get_header}
use http_filtering_engine.Http.Head.{headers_to_string}
use http_filtering_engine.Http.Payload.{set_payload, set_payload_copy, is_payload_compressed}

-- What `CompressGzip` and `CompressDeflate` do with the text of their filter: the payload is
-- replaced, and the encoding header put back, since `SetPayload` removes it.
unfoldable pub put_compressed : Library → Bytes → Bytes → Transaction → Transaction
put_compressed lib encoding compressed t =
    add_header lib content_encoding encoding true
      (remove_header content_encoding (set_payload_copy lib compressed false t))

-- `CompressGzip`.
unfoldable pub compress_gzip : Library → Transaction → Transaction × Bool
compress_gzip lib t =
    if is_empty t.payload then (report warning t, false) else elim (lib.gzip_compress t.payload) [
      | none ↦ (report error t, false)
      | some compressed ↦ (put_compressed lib gzip compressed t, true)
    ]

-- `CompressDeflate`.
unfoldable pub compress_deflate : Library → Transaction → Transaction × Bool
compress_deflate lib t =
    if is_empty t.payload then (report warning t, false) else elim (lib.zlib_compress t.payload) [
      | none ↦ (report error t, false)
      | some compressed ↦ (put_compressed lib deflate compressed t, true)
    ]

-- `DecompressGzip`.
unfoldable pub decompress_gzip : Library → Transaction → Transaction × Bool
decompress_gzip lib t =
    if is_empty t.payload then (report error t, false) else elim (lib.gzip_decompress t.payload) [
      | none ↦ (report error t, false)
      | some decompressed ↦ (set_payload lib decompressed false t, true)
    ]

-- `DecompressDeflate`.
unfoldable pub decompress_deflate : Library → Transaction → Transaction × Bool
decompress_deflate lib t =
    if is_empty t.payload then (report error t, false) else elim (lib.zlib_decompress t.payload) [
      | none ↦ (report error t, false)
      | some decompressed ↦ (set_payload lib decompressed false t, true)
    ]

-- `detectedEncoding` by the first Content-Encoding header; `none` where it is unknown.
unfoldable pub detect_encoding : Library → Transaction → Option Bytes
detect_encoding lib t = elim (get_header content_encoding t) [
  | [] ↦ some []
  | e ∷ range ↦
      if lib.iequals e.1 gzip
      then some gzip
      else if lib.iequals e.1 deflate
      then some deflate
      else none
]

-- The end of either branch of `DecompressPayload`.
unfoldable pub after_decompression : Transaction × Bool → Transaction × Bool
after_decompression (t, true) =
    (remove_header transfer_encoding (remove_header content_encoding t), true)
after_decompression (t, false) = (report error t, false)

unfoldable pub decompress_as : Library → Bytes → Transaction → Transaction × Bool
decompress_as lib encoding t =
    if is_empty encoding
    then (report error t, false)
    else if lib.iequals encoding deflate
    then after_decompression (decompress_deflate lib t)
    else after_decompression (decompress_gzip lib t)

unfoldable pub decompress_detected : Library → Option Bytes → Transaction → Transaction × Bool
decompress_detected lib none t = (report error t, false)
decompress_detected lib (some encoding) t = decompress_as lib encoding t

-- `DecompressPayload`.
unfoldable pub decompress_payload : Library → Transaction → Transaction × Bool
decompress_payload lib t =
    if not t.payload_complete
    then (t, false)
    else if not (is_payload_compressed t)
    then (t, true)
    else decompress_detected lib (detect_encoding lib t) t

-- The branch of the conversion for a compressed payload: a failure is reported once more.
unfoldable pub report_failure : Transaction × Bool → Transaction × Bool
report_failure (t, true) = (t, true)
report_failure (t, false) = (report error t, false)

-- What the conversion does with the parser's error and with the body that it reported.
unfoldable pub use_converted : Library → ℕ × Bytes → Transaction → Transaction × Bool
use_converted lib (errno, body) t =
    if not (errno == 0)
    then (report error (report error t), false)
    else if is_empty body
    then (report warning t, false)
    else if not (is_payload_compressed t)
    then (set_payload lib body false t, true)
    else report_failure (decompress_payload lib (record t { payload = body }))

-- `ConvertPayloadFromChunkedToFixedLength`.
unfoldable pub convert_payload : Library → Transaction → Result (Transaction × Bool)
convert_payload lib t = do
  (t', head) ← headers_to_string lib t
  ok (use_converted lib (lib.execute_both (head ++ t'.payload)) t')
