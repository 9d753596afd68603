-- ===== src/Http/Codec/Undo.antt =====
-- The compressions followed by DecompressPayload.
use http_filtering_engine.Base.{
  Bytes, Bool, true, false, [], ◌∷◌, if◌then◌else◌, is_empty, Option, bytes_eq, to_upper, some,
  none, ◌≡◌, refl, sym, subst, ap, ◌∙◌,
}
use http_filtering_engine.External.{Library, IequalsFoldsCase, GzipUndoes, ZlibUndoes}
use http_filtering_engine.Http.Names.{content_encoding, gzip, deflate}
use http_filtering_engine.Http.Headers.{IsSorted}
use http_filtering_engine.Http.State.{Transaction}
use http_filtering_engine.Http.Edit.Lookup.{
  found, found-add_header_replace, remove_header-IsSorted, add_header-IsSorted, get_header-found,
}
use http_filtering_engine.Http.Edit.{add_header, remove_header}
use http_filtering_engine.Http.Payload.{
  remove_framing, set_payload, set_payload_copy, is_payload_compressed,
}
use http_filtering_engine.Http.Payload.Framing.{
  IsFramed, set_payload-IsFramed, set_payload-IsSorted,
}
use http_filtering_engine.Text.Compare.{same}
use http_filtering_engine.Http.Codec.Outcomes.{if_run, IsFramed-remove}
use http_filtering_engine.Http.Codec.{
  put_compressed, compress_gzip, compress_deflate, decompress_gzip, decompress_deflate,
  detect_encoding, after_decompression, decompress_as, decompress_detected, decompress_payload,
}

-- A complete message whose payload is encoded, and that says how.
record IsEncoded (encoding payload : Bytes) (t : Transaction) : Type 0 where
  complete : t.payload_complete ≡ true
  has_payload : t.payload ≡ payload
  ordered : IsSorted t.headers
  says : found content_encoding t ≡ (content_encoding, encoding) ∷ []

put_compressed_complete :
    (lib : Library) (encoding c : Bytes) (t : Transaction)
    → (put_compressed lib encoding c t).payload_complete ≡ true
unfolding put_compressed set_payload_copy add_header remove_header remove_framing
put_compressed_complete lib encoding c t = refl

put_compressed_payload :
    (lib : Library) (encoding c : Bytes) (t : Transaction)
    → (put_compressed lib encoding c t).payload ≡ c
unfolding put_compressed set_payload_copy add_header remove_header remove_framing
put_compressed_payload lib encoding c t = refl

put_compressed-IsEncoded :
    (lib : Library) (encoding c : Bytes) (t : Transaction)
    → IsSorted t.headers
    → IsEncoded encoding c (put_compressed lib encoding c t)
unfolding put_compressed set_payload_copy set_payload
put_compressed-IsEncoded lib encoding c t s =
    let u = set_payload lib c false t in
    let v = remove_header content_encoding u in
    let sv = remove_header-IsSorted content_encoding u (set_payload-IsSorted lib c false t s) in
    record {
      complete = put_compressed_complete lib encoding c t;
      has_payload = put_compressed_payload lib encoding c t;
      ordered = add_header-IsSorted lib content_encoding encoding true v sv;
      says =
          found-add_header_replace lib content_encoding content_encoding encoding v sv
          ∙ unfold same in refl;
    }

says_compressed :
    (encoding payload : Bytes) (t : Transaction)
    → IsEncoded encoding payload t
    → is_payload_compressed t ≡ true
unfolding is_payload_compressed
says_compressed encoding payload t e =
    rw (get_header-found content_encoding t e.ordered, e.says) refl

detects :
    (lib : Library) (encoding payload : Bytes) (t : Transaction)
    → IsEncoded encoding payload t
    → detect_encoding lib t ≡ (
        if lib.iequals encoding gzip
        then some gzip
        else if lib.iequals encoding deflate
        then some deflate
        else none)
unfolding detect_encoding
detects lib encoding payload t e =
    rw (detect_encoding, get_header-found content_encoding t e.ordered, e.says) refl

-- `DecompressPayload` of a message that says how it is encoded.
decompress-IsEncoded :
    (lib : Library) (encoding payload : Bytes) (t : Transaction) (o : Option Bytes)
    → IsEncoded encoding payload t
    → detect_encoding lib t ≡ o
    → decompress_payload lib t ≡ decompress_detected lib o t
unfolding decompress_payload
decompress-IsEncoded lib encoding payload t o e d =
    if_run t.payload_complete (is_payload_compressed t) _ _ _ e.complete
      (says_compressed encoding payload t e)
    ∙ ap (λ x. decompress_detected lib x t) d

-- A result that restores a message: success, and the message is one of a fixed length.
abbrev pub Restores : Bytes → Transaction × Bool → Type 0
Restores payload r = (r.1 ≡ true) × IsFramed payload r.0

restored :
    (lib : Library) (payload : Bytes) (t : Transaction)
    → IsSorted t.headers
    → Restores payload (after_decompression (set_payload lib payload false t, true))
unfolding after_decompression
restored lib payload t s = (
  refl,
  IsFramed-remove payload (set_payload lib payload false t)
      (set_payload-IsSorted lib payload false t s) (set_payload-IsFramed lib payload t s),
)

gunzip_run :
    (lib : Library) (payload : Bytes) (t : Transaction)
    → is_empty t.payload ≡ false
    → lib.gzip_decompress t.payload ≡ some payload
    → decompress_gzip lib t ≡ (set_payload lib payload false t, true)
unfolding decompress_gzip
gunzip_run lib payload t n g = rw (n, g) refl

inflate_run :
    (lib : Library) (payload : Bytes) (t : Transaction)
    → is_empty t.payload ≡ false
    → lib.zlib_decompress t.payload ≡ some payload
    → decompress_deflate lib t ≡ (set_payload lib payload false t, true)
unfolding decompress_deflate
inflate_run lib payload t n g = rw (n, g) refl

module _ (lib : Library) (folds : IequalsFoldsCase lib) where
  gzip-gzip : lib.iequals gzip gzip ≡ true
  gzip-gzip = folds gzip gzip ∙ unfold bytes_eq to_upper in refl

  gzip-deflate : lib.iequals gzip deflate ≡ false
  gzip-deflate = folds gzip deflate ∙ unfold bytes_eq to_upper in refl

  deflate-gzip : lib.iequals deflate gzip ≡ false
  deflate-gzip = folds deflate gzip ∙ unfold bytes_eq to_upper in refl

  deflate-deflate : lib.iequals deflate deflate ≡ true
  deflate-deflate = folds deflate deflate ∙ unfold bytes_eq to_upper in refl

  gunzips :
      (payload c : Bytes) (t : Transaction)
      → IsEncoded gzip c t
      → is_empty c ≡ false
      → lib.gzip_decompress c ≡ some payload
      → Restores payload (decompress_payload lib t)
  unfolding decompress_detected decompress_as
  gunzips payload c t e n g =
      let p = sym e.has_payload in
      let d = detects lib gzip c t e ∙ rw gzip-gzip refl in
      let r =
        gunzip_run lib payload t (subst (λ x. is_empty x ≡ false) p n)
          (subst (λ x. lib.gzip_decompress x ≡ some payload) p g) in
      rw (decompress-IsEncoded lib gzip c t (some gzip) e d, gzip-deflate, r)
        (restored lib payload t e.ordered)

  inflates :
      (payload c : Bytes) (t : Transaction)
      → IsEncoded deflate c t
      → is_empty c ≡ false
      → lib.zlib_decompress c ≡ some payload
      → Restores payload (decompress_payload lib t)
  unfolding decompress_detected decompress_as
  inflates payload c t e n g =
      let p = sym e.has_payload in
      let d = detects lib deflate c t e ∙ rw (deflate-gzip, deflate-deflate) refl in
      let r =
        inflate_run lib payload t (subst (λ x. is_empty x ≡ false) p n)
          (subst (λ x. lib.zlib_decompress x ≡ some payload) p g) in
      rw (decompress-IsEncoded lib deflate c t (some deflate) e d, deflate-deflate, r)
        (restored lib payload t e.ordered)

  -- `CompressGzip` and then `DecompressPayload` restore the payload: for headers in the multimap's
  -- order, a payload that is not empty, and a gzip filter that gives a text that is not empty, both
  -- return true, and the message is then one of a fixed length around the payload. The gzip filters
  -- are taken to undo each other, and `iequals` to fold case.
  pub decompress_payload-compress_gzip :
      (undoes : GzipUndoes lib) (c : Bytes) (t : Transaction)
      → IsSorted t.headers
      → is_empty t.payload ≡ false
      → lib.gzip_compress t.payload ≡ some c
      → is_empty c ≡ false
      → ((compress_gzip lib t).1 ≡ true)
        × Restores t.payload (decompress_payload lib (compress_gzip lib t).0)
  unfolding compress_gzip
  decompress_payload-compress_gzip undoes c t s n g m =
      rw (n, g)
        (
          refl,
          gunzips t.payload c (put_compressed lib gzip c t)
              (put_compressed-IsEncoded lib gzip c t s) m (undoes t.payload c g),
        )

  -- `CompressDeflate` and then `DecompressPayload` restore the payload: for headers in the
  -- multimap's order, a payload that is not empty, and a zlib filter that gives a text that is not
  -- empty, both return true, and the message is then one of a fixed length around the payload. The
  -- zlib filters are taken to undo each other, and `iequals` to fold case.
  decompress_payload-compress_deflate :
      (undoes : ZlibUndoes lib) (c : Bytes) (t : Transaction)
      → IsSorted t.headers
      → is_empty t.payload ≡ false
      → lib.zlib_compress t.payload ≡ some c
      → is_empty c ≡ false
      → ((compress_deflate lib t).1 ≡ true)
        × Restores t.payload (decompress_payload lib (compress_deflate lib t).0)
  unfolding compress_deflate
  decompress_payload-compress_deflate undoes c t s n g m =
      rw (n, g)
        (
          refl,
          inflates t.payload c (put_compressed lib deflate c t)
              (put_compressed-IsEncoded lib deflate c t s) m (undoes t.payload c g),
        )
