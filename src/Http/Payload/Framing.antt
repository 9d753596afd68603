-- ===== src/Http/Payload/Framing.antt =====
-- After SetPayload the headers frame the payload: one Content-Length, of its size, and no encoding.
use http_filtering_engine.Base.{
  Bytes, Bool, true, false, [], ◌∷◌, if◌then◌else◌, ◌≡◌, refl, ap, ◌∙◌, arith, length, some, ◌||◌,
}
use http_filtering_engine.External.{Library}
use http_filtering_engine.Text.Digits.{to_string, read_number, read_number-to_string}
use http_filtering_engine.Text.Compare.{same}
use http_filtering_engine.Http.Headers.{IsSorted}
use http_filtering_engine.Http.Names.{content_length, content_encoding, transfer_encoding}
use http_filtering_engine.Http.State.{Transaction}
use http_filtering_engine.Http.Edit.Lookup.{
  found, found-remove_header, found-add_header_replace, add_header-IsSorted, remove_header-IsSorted,
}
use http_filtering_engine.Http.Edit.{add_header, remove_header}
use http_filtering_engine.Http.Payload.{remove_framing, set_payload}

-- The headers that `SetPayload` removes.
abbrev is_framing : Bytes → Bool
is_framing q = same q content_encoding || (same q transfer_encoding || same q content_length)

remove_framing-IsSorted :
    (t : Transaction) → IsSorted t.headers → IsSorted (remove_framing t).headers
unfolding remove_framing
remove_framing-IsSorted t s =
    let t1 = remove_header content_length t in
    let t2 = remove_header transfer_encoding t1 in
    remove_header-IsSorted content_encoding t2
      (remove_header-IsSorted transfer_encoding t1 (remove_header-IsSorted content_length t s))

found-remove_framing :
    (q : Bytes) (t : Transaction)
    → IsSorted t.headers
    → found q (remove_framing t) ≡ (if is_framing q then [] else found q t)
unfolding remove_framing
found-remove_framing q t s =
    let t1 = remove_header content_length t in
    let t2 = remove_header transfer_encoding t1 in
    let s1 = remove_header-IsSorted content_length t s in
    rw
      (
        found-remove_header q content_encoding t2 (remove_header-IsSorted transfer_encoding t1 s1),
        found-remove_header q transfer_encoding t1 s1,
        found-remove_header q content_length t s,
      )
      (ground arith)

module _ (lib : Library) (payload : Bytes) where
  pub set_payload-IsSorted :
      (b : Bool) (t : Transaction)
      → IsSorted t.headers
      → IsSorted (set_payload lib payload b t).headers
  unfolding set_payload
  set_payload-IsSorted true t s = tt
  set_payload-IsSorted false t s =
      let t1 = record t { payload = payload; payload_complete = true } in
      add_header-IsSorted lib content_length (to_string (length payload)) true (remove_framing t1)
        (remove_framing-IsSorted t1 s)

  -- What is found under every name after `SetPayload(payload)`.
  pub found-set_payload :
      (q : Bytes) (t : Transaction)
      → IsSorted t.headers
      → found q (set_payload lib payload false t) ≡ (
          if same q content_length
          then (content_length, to_string (length payload)) ∷ []
          else if is_framing q
          then []
          else found q t)
  unfolding set_payload
  found-set_payload q t s =
      let t1 = record t { payload = payload; payload_complete = true } in
      rw (
        found-add_header_replace lib q content_length (to_string (length payload))
            (remove_framing t1) (remove_framing-IsSorted t1 s),
        found-remove_framing q t1 s,
      )

-- A message of fixed length: its only Content-Length is the size of its payload, in decimal, and no
-- header says that the payload is chunked or compressed.
pub record IsFramed (payload : Bytes) (t : Transaction) : Type 0 where
  pub has_payload : t.payload ≡ payload
  pub complete : t.payload_complete ≡ true
  pub one_length : found content_length t ≡ (content_length, to_string (length payload)) ∷ []
  pub length_reads : read_number 10 (to_string (length payload)) ≡ some (length payload)
  pub no_transfer_encoding : found transfer_encoding t ≡ []
  pub no_content_encoding : found content_encoding t ≡ []

-- `AddHeader` and `RemoveHeader` write the headers alone.
remove_framing_rest :
    (t : Transaction) → remove_framing t ≡ record t { headers = (remove_framing t).headers }
unfolding remove_framing remove_header
remove_framing_rest t = refl

set_payload_rest :
    (lib : Library) (payload : Bytes) (t : Transaction)
    → set_payload lib payload false t ≡ record t {
      payload = payload;
      payload_complete = true;
      headers = (set_payload lib payload false t).headers;
    }
unfolding set_payload add_header remove_framing remove_header
set_payload_rest lib payload t = refl

-- `SetPayload(payload)` on headers in the multimap's order makes a complete message of fixed length
-- with that payload: its only Content-Length is the payload's size in decimal, which reads back as
-- that size, and it has no Transfer-Encoding and no Content-Encoding.
pub set_payload-IsFramed :
    (lib : Library) (payload : Bytes) (t : Transaction)
    → IsSorted t.headers
    → IsFramed payload (set_payload lib payload false t)
set_payload-IsFramed lib payload t s = record {
  has_payload = ap (λ u. u.payload) (set_payload_rest lib payload t);
  complete = ap (λ u. u.payload_complete) (set_payload_rest lib payload t);
  one_length = found-set_payload lib payload content_length t s ∙ unfold same in refl;
  length_reads = read_number-to_string (length payload);
  no_transfer_encoding = found-set_payload lib payload transfer_encoding t s ∙ unfold same in refl;
  no_content_encoding = found-set_payload lib payload content_encoding t s ∙ unfold same in refl;
}
