-- ===== src/Http/Codec/Outcomes.antt =====
-- The outcomes of DecompressPayload and of the conversion.
use http_filtering_engine.Base.{
  Bytes, ℕ, Bool, true, false, not, [], if◌then◌else◌, is_empty, Option, some, none, ◌==◌, ◌≡◌,
  refl, ◌∙◌, arith, Bool-cases, inl, inr, Option-cases,
}
use http_filtering_engine.External.{Library}
use http_filtering_engine.Http.Names.{content_encoding, transfer_encoding, content_length, deflate}
use http_filtering_engine.Http.Headers.{IsSorted}
use http_filtering_engine.Http.State.{Transaction, Severity, error, report}
use http_filtering_engine.Http.Edit.Lookup.{found, found-remove_header, remove_header-IsSorted}
use http_filtering_engine.Http.Edit.{remove_header}
use http_filtering_engine.Http.Payload.{set_payload, is_payload_compressed}
use http_filtering_engine.Http.Payload.Framing.{
  IsFramed, set_payload-IsFramed, set_payload-IsSorted,
}
use http_filtering_engine.Text.Compare.{same}
use http_filtering_engine.Http.Codec.{
  decompress_gzip, decompress_deflate, detect_encoding, after_decompression, decompress_as,
  decompress_detected, decompress_payload, report_failure, use_converted,
}

-- The last of three branches.
pub if_run {ℓ} :
    {A : Type ℓ} (b k : Bool) (x y z : A)
    → b ≡ true
    → k ≡ true
    → (if not b then x else if not k then y else z) ≡ z
if_run b k x y z h i = ground arith

abbrev without_encodings : Transaction → Transaction
without_encodings t = remove_header transfer_encoding (remove_header content_encoding t)

found-without_encodings :
    (q : Bytes) (t : Transaction)
    → IsSorted t.headers
    → found q (without_encodings t)
      ≡ (if same q transfer_encoding then [] else if same q content_encoding then [] else found q t)
found-without_encodings q t s = rw (
  found-remove_header q transfer_encoding (remove_header content_encoding t)
      (remove_header-IsSorted content_encoding t s),
  found-remove_header q content_encoding t s,
)

-- The two RemoveHeader calls behind a decompression find nothing to remove.
pub IsFramed-remove :
    (payload : Bytes) (t : Transaction)
    → IsSorted t.headers
    → IsFramed payload t
    → IsFramed payload (without_encodings t)
IsFramed-remove payload t s f = record {
  has_payload = unfold remove_header in f.has_payload;
  complete = unfold remove_header in f.complete;
  one_length = found-without_encodings content_length t s ∙ unfold same in f.one_length;
  length_reads = f.length_reads;
  no_transfer_encoding = found-without_encodings transfer_encoding t s ∙ unfold same in refl;
  no_content_encoding = found-without_encodings content_encoding t s ∙ unfold same in refl;
}

-- Nothing has changed but the reports.
abbrev OnlyReports : Transaction → Transaction → Type 0
OnlyReports t t' = t' ≡ record t { reports = t'.reports }

-- The result of a decoder: a sorted message of fixed length with what the filter gave, or a report.
abbrev pub Decoded : (Bytes → Option Bytes) → Transaction → Transaction × Bool → Type 0
Decoded decode t (t', true) =
    (p : Bytes) × (decode t.payload ≡ some p) × IsFramed p t' × IsSorted t'.headers
Decoded decode t (t', false) = OnlyReports t t'

set_payload-Decoded :
    (lib : Library) (decode : Bytes → Option Bytes) (p : Bytes) (t : Transaction)
    → IsSorted t.headers
    → decode t.payload ≡ some p
    → Decoded decode t (set_payload lib p false t, true)
set_payload-Decoded lib decode p t s e =
    (p, e, set_payload-IsFramed lib p t s, set_payload-IsSorted lib p false t s)

decompress_gzip-Decoded :
    (lib : Library) (t : Transaction)
    → IsSorted t.headers
    → Decoded lib.gzip_decompress t (decompress_gzip lib t)
unfolding decompress_gzip
decompress_gzip-Decoded lib t s = elim (Bool-cases (is_empty t.payload)) [
  | inl e ↦ rw e refl
  | inr e ↦ elim (Option-cases (lib.gzip_decompress t.payload)) [
    | inl n ↦ rw (e, n) refl
    | inr (p, n) ↦ rw (e, n) (set_payload-Decoded lib lib.gzip_decompress p t s n)
  ]
]

decompress_deflate-Decoded :
    (lib : Library) (t : Transaction)
    → IsSorted t.headers
    → Decoded lib.zlib_decompress t (decompress_deflate lib t)
unfolding decompress_deflate
decompress_deflate-Decoded lib t s = elim (Bool-cases (is_empty t.payload)) [
  | inl e ↦ rw e refl
  | inr e ↦ elim (Option-cases (lib.zlib_decompress t.payload)) [
    | inl n ↦ rw (e, n) refl
    | inr (p, n) ↦ rw (e, n) (set_payload-Decoded lib lib.zlib_decompress p t s n)
  ]
]

OnlyReports-report :
    (s : Severity) (t t' : Transaction) → OnlyReports t t' → OnlyReports t (report s t')
OnlyReports-report s t t' h = rw h refl

after_decompression-Decoded :
    (decode : Bytes → Option Bytes) (t : Transaction) (r : Transaction × Bool)
    → Decoded decode t r
    → Decoded decode t (after_decompression r)
unfolding after_decompression
after_decompression-Decoded decode t (t', true) (p, e, f, s) = (
  p,
  e,
  IsFramed-remove p t' s f,
  remove_header-IsSorted transfer_encoding (remove_header content_encoding t')
      (remove_header-IsSorted content_encoding t' s),
)
after_decompression-Decoded decode t (t', false) h = OnlyReports-report error t t' h

report_failure-Decoded :
    (decode : Bytes → Option Bytes) (t : Transaction) (r : Transaction × Bool)
    → Decoded decode t r
    → Decoded decode t (report_failure r)
unfolding report_failure
report_failure-Decoded decode t (t', true) h = h
report_failure-Decoded decode t (t', false) h = OnlyReports-report error t t' h

-- Which filter the payload went through.
abbrev pub decoder : Library → Bytes → Bytes → Option Bytes
decoder lib encoding =
    if is_empty encoding
    then (λ _. none)
    else if lib.iequals encoding deflate
    then lib.zlib_decompress
    else lib.gzip_decompress

pub decompress_as-Decoded :
    (lib : Library) (encoding : Bytes) (t : Transaction)
    → IsSorted t.headers
    → Decoded (decoder lib encoding) t (decompress_as lib encoding t)
unfolding decompress_as
decompress_as-Decoded lib encoding t s = elim (Bool-cases (is_empty encoding)) [
  | inl e ↦ rw e refl
  | inr e ↦ elim (Bool-cases (lib.iequals encoding deflate)) [
    | inl d ↦
        rw (e, d)
          (after_decompression-Decoded lib.zlib_decompress t (decompress_deflate lib t)
            (decompress_deflate-Decoded lib t s))
    | inr d ↦
        rw (e, d)
          (after_decompression-Decoded lib.gzip_decompress t (decompress_gzip lib t)
            (decompress_gzip-Decoded lib t s))
  ]
]

-- With success the message is framed around some payload, and sorted.
abbrev pub Settled : Transaction × Bool → Type 0
Settled (t, true) = (p : Bytes) × IsFramed p t × IsSorted t.headers
Settled (t, false) = Unit

Decoded-Settled :
    (decode : Bytes → Option Bytes) (t : Transaction) (r : Transaction × Bool)
    → Decoded decode t r
    → Settled r
Decoded-Settled decode t (t', true) (p, e, f, s) = (p, f, s)
Decoded-Settled decode t (t', false) h = tt

detected-Settled :
    (lib : Library) (t : Transaction) (d : Option Bytes)
    → IsSorted t.headers
    → Settled (decompress_detected lib d t)
unfolding decompress_detected
detected-Settled lib t none s = tt
detected-Settled lib t (some encoding) s =
    Decoded-Settled (decoder lib encoding) t (decompress_as lib encoding t)
      (decompress_as-Decoded lib encoding t s)

if-Settled :
    (b : Bool) (r q : Transaction × Bool)
    → (b ≡ true → Settled r)
    → (b ≡ false → Settled q)
    → Settled (if b then r else q)
if-Settled true r q h k = h refl
if-Settled false r q h k = k refl

-- Where `DecompressPayload` of a complete and compressed message, whose headers are in the
-- multimap's order, reports success, the message is one of a fixed length around some payload, and
-- its headers are in order.
pub decompress_payload_outcome :
    (lib : Library) (t : Transaction)
    → IsSorted t.headers
    → t.payload_complete ≡ true
    → is_payload_compressed t ≡ true
    → Settled (decompress_payload lib t)
unfolding decompress_payload
decompress_payload_outcome lib t s c k =
    if-Settled (not t.payload_complete) _ _ (λ h. ground (arith))
      (λ _.
        if-Settled (not (is_payload_compressed t)) _ _ (λ h. ground (arith))
          (λ _. detected-Settled lib t (detect_encoding lib t) s))

report_failure-Settled : (r : Transaction × Bool) → Settled r → Settled (report_failure r)
unfolding report_failure
report_failure-Settled (t, true) h = h
report_failure-Settled (t, false) h = tt

-- Where the conversion of a complete message, whose headers are in the multimap's order, reports
-- success, the message is one of a fixed length around some payload, and its headers are in order.
pub use_converted-Settled :
    (lib : Library) (r : ℕ × Bytes) (t : Transaction)
    → IsSorted t.headers
    → t.payload_complete ≡ true
    → Settled (use_converted lib r t)
unfolding use_converted
use_converted-Settled lib (errno, body) t s c =
    if-Settled (not (errno == 0)) _ _ (λ h. tt)
      (λ _.
        if-Settled (is_empty body) _ _ (λ h. tt)
          (λ _.
            if-Settled (not (is_payload_compressed t)) _ _
              (λ h.
                (body, set_payload-IsFramed lib body t s, set_payload-IsSorted lib body false t s))
              (λ h. report_failure-Settled (decompress_payload lib (record t { payload = body })) (
                decompress_payload_outcome lib (record t { payload = body }) s c
                  (unfold is_payload_compressed in ground arith)))))
