-- ===== src/Http/Codec/Failure.antt =====
-- The conversion where it reports failure.
use http_filtering_engine.Base.{
  Bytes, ℕ, Bool, true, false, not, is_empty, if◌then◌else◌, ◌==◌, Option, some, none, ◌≡◌, refl,
  ap, ◌∙◌, inl, inr, ◌⊎◌,
}
use http_filtering_engine.External.{Library}
use http_filtering_engine.Http.Headers.{IsSorted}
use http_filtering_engine.Http.State.{Transaction, error, report}
use http_filtering_engine.Http.Payload.{is_payload_compressed}
use http_filtering_engine.Http.Codec.Outcomes.{if_run, Decoded, decoder, decompress_as-Decoded}
use http_filtering_engine.Http.Codec.{
  detect_encoding, decompress_detected, decompress_payload, report_failure, use_converted,
}

-- With failure the headers are as they were, and the payload is as it was or one other.
abbrev FailsWith : Transaction → Bytes → Transaction × Bool → Type 0
FailsWith t body (u, true) = Unit
FailsWith t body (u, false) =
    (u.headers ≡ t.headers) × ((u.payload ≡ t.payload) ⊎ (u.payload ≡ body))

if-FailsWith :
    (t : Transaction) (body : Bytes) (b : Bool) (r q : Transaction × Bool)
    → FailsWith t body r
    → FailsWith t body q
    → FailsWith t body (if b then r else q)
if-FailsWith t body true r q h k = h
if-FailsWith t body false r q h k = k

Decoded-FailsWith :
    (decode : Bytes → Option Bytes) (t : Transaction) (body : Bytes) (r : Transaction × Bool)
    → Decoded decode (record t { payload = body }) r
    → FailsWith t body r
Decoded-FailsWith decode t body (u, true) h = tt
Decoded-FailsWith decode t body (u, false) h =
    (ap (λ (v : Transaction). v.headers) h, inr (ap (λ (v : Transaction). v.payload) h))

detected-FailsWith :
    (lib : Library) (d : Option Bytes) (t : Transaction) (body : Bytes)
    → IsSorted t.headers
    → FailsWith t body (decompress_detected lib d (record t { payload = body }))
unfolding decompress_detected
detected-FailsWith lib none t body s = (refl, inr refl)
detected-FailsWith lib (some encoding) t body s =
    Decoded-FailsWith (decoder lib encoding) t body _
      (decompress_as-Decoded lib encoding (record t { payload = body }) s)

decompress_payload-FailsWith :
    (lib : Library) (t : Transaction) (body : Bytes)
    → IsSorted t.headers
    → FailsWith t body (decompress_payload lib (record t { payload = body }))
unfolding decompress_payload
decompress_payload-FailsWith lib t body s =
    if-FailsWith t body (not t.payload_complete) _ _ (refl, inr refl)
      (if-FailsWith t body (not (is_payload_compressed (record t { payload = body }))) _ _ tt
        (detected-FailsWith lib _ t body s))

report_failure-FailsWith :
    (t : Transaction) (body : Bytes) (r : Transaction × Bool)
    → FailsWith t body r
    → FailsWith t body (report_failure r)
unfolding report_failure
report_failure-FailsWith t body (u, true) h = tt
report_failure-FailsWith t body (u, false) h = h

-- Where the conversion of a message, whose headers are in the multimap's order, reports failure,
-- the headers are as they were, and the payload is as it was or the body without its chunks.
pub use_converted-FailsWith :
    (lib : Library) (errno : ℕ) (body : Bytes) (t : Transaction)
    → IsSorted t.headers
    → FailsWith t body (use_converted lib (errno, body) t)
unfolding use_converted
use_converted-FailsWith lib errno body t s =
    if-FailsWith t body (not (errno == 0)) _ _ (refl, inl refl)
      (if-FailsWith t body (is_empty body) _ _ (refl, inl refl)
        (if-FailsWith t body (not (is_payload_compressed t)) _ _ tt
          (report_failure-FailsWith t body _ (decompress_payload-FailsWith lib t body s))))

unknown_fails :
    (lib : Library) (t : Transaction)
    → t.payload_complete ≡ true
    → is_payload_compressed t ≡ true
    → detect_encoding lib t ≡ none
    → report_failure (decompress_payload lib t) ≡ (report error (report error t), false)
unfolding report_failure decompress_payload decompress_detected
unknown_fails lib t c k d = ap report_failure (
    if_run t.payload_complete (is_payload_compressed t) _ _ _ c k
    ∙ ap (λ o. decompress_detected lib o t) d)

same_headers :
    (lib : Library) (body : Bytes) (t : Transaction)
    → (is_payload_compressed (record t { payload = body }) ≡ is_payload_compressed t)
      × (detect_encoding lib (record t { payload = body }) ≡ detect_encoding lib t)
unfolding is_payload_compressed detect_encoding
same_headers lib body t = (refl, refl)

-- The conversion of a complete message, whose body the parser reports without an error and not
-- empty, and whose Content-Encoding is one that is not known, reports two errors and failure, and
-- leaves the body without its chunks as the payload under the headers as they were.
pub use_converted_unknown :
    (lib : Library) (body : Bytes) (t : Transaction)
    → is_empty body ≡ false
    → t.payload_complete ≡ true
    → is_payload_compressed t ≡ true
    → detect_encoding lib t ≡ none
    → use_converted lib (0, body) t
      ≡ (report error (report error (record t { payload = body })), false)
unfolding use_converted
use_converted_unknown lib body t n c k d =
    rw (n, k)
      (unknown_fails lib (record t { payload = body }) c ((same_headers lib body t).0 ∙ k)
        ((same_headers lib body t).1 ∙ d))
