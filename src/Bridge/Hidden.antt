-- ===== src/Bridge/Hidden.antt =====
-- The headers that OnUpstreamHeaders and OnDownstreamHeaders of TlsCapableHttpBridge.hpp remove.
use http_filtering_engine.Base.{
  Bytes, ℕ, codes, Bool, true, false, not, ◌&&◌, ◌||◌, ◌≡◌, refl, ◌∙◌, sym, subst, List, [], ◌∷◌,
  if◌then◌else◌, pos, is_nonneg, is_positive, arith, Bool-cases, inl, inr,
}
use http_filtering_engine.External.{Library}
use http_filtering_engine.Text.Compare.{same}
use http_filtering_engine.Http.Headers.{IsSorted}
use http_filtering_engine.Http.State.{Transaction, set_should_block}
use http_filtering_engine.Http.Results.{Holds, Holds-bind, by_if}
use http_filtering_engine.Http.Callbacks.Invariant.{Ordered, parse-Ordered}
use http_filtering_engine.Http.Edit.{remove_header}
use http_filtering_engine.Http.Edit.Lookup.{found, found-remove_header, remove_header-IsSorted}
use http_filtering_engine.Http.Payload.{get_read_buffer}
use http_filtering_engine.Bridge.State.{
  Outside, Completion, Bridge, Operation, upstream_read, downstream_write, Turn, set_stream_timeout,
}
use http_filtering_engine.Bridge.Reading.{client, server, closes, note_close, read_into}
use http_filtering_engine.Bridge.Answers.{
  ask_both, refuse, hidden_from_client, remove_headers, wants_more, pass_response_headers,
  take_response_headers, on_upstream_headers,
}
use http_filtering_engine.Bridge.Outcomes.{receive-Holds}
use http_filtering_engine.Bridge.Asking.{write_to-Holds, ask_both-Holds}

-- Whether a name is one of a list, up to case.
abbrev is_among : Bytes → List Bytes → Bool
is_among q [] = false
is_among q (name ∷ names) = same q name || is_among q names

-- Removing a list of headers, where the headers are in the multimap's order, leaves just what is
-- found under the other names.
found-remove_headers :
    (q : Bytes) (names : List Bytes) (t : Transaction)
    → IsSorted t.headers
    → found q (remove_headers names t) ≡ (if is_among q names then [] else found q t)
unfolding remove_headers
found-remove_headers q [] t s = refl
found-remove_headers q (name ∷ names) t s =
    found-remove_headers q names (remove_header name t) (remove_header-IsSorted name t s)
    ∙ rw (found-remove_header q name t s) (elim (Bool-cases (same q name)) [
      | inl e ↦ rw e (elim (Bool-cases (is_among q names)) [ inl f ↦ rw f | inr f ↦ rw f ])
      | inr e ↦ rw e
    ])

-- The names that no client gets to see, written out.
abbrev pub withheld : List Bytes
withheld =
    codes "Get-Dictionary"
    ∷ codes "Alternate-Protocol"
    ∷ codes "Alt-Svc"
    ∷ codes "Public-Key-Pins"
    ∷ codes "Public-Key-Pins-Report-Only"
    ∷ []

withheld-is : (q : Bytes) → is_among q withheld ≡ is_among q hidden_from_client
withheld-is q = refl

-- The operations with which a response goes on its way to the client.
abbrev passes_on : Operation → Bool
passes_on (downstream_write bytes) = true
passes_on upstream_read = true
passes_on _ = false

-- A response that goes on to the client has none of the headers that are hidden from it.
abbrev pub Hides : Turn → Type 0
Hides t =
    passes_on t.1 ≡ true
    → is_positive t.0.request.should_block ≡ false
    → (q : Bytes) → is_among q withheld ≡ true
    → found q t.0.response ≡ []

abbrev Clean : Transaction → Type 0
Clean t = (q : Bytes) → is_among q withheld ≡ true → found q t ≡ []

if_true : {A : Type 0} (b : Bool) (x y : A) → b ≡ true → (if b then x else y) ≡ x
if_true true x y h = refl
if_true false x y h = cc

blocked : (t : Transaction) → t.should_block ≡ pos 1 → is_positive t.should_block ≡ false → ⊥
blocked t i w = ground arith

note_close-Ordered :
    (e : Completion) (b : Bridge) → Ordered b.response → Ordered (note_close e b).response
note_close-Ordered e b s = by_if (λ (u : Bridge). Ordered u.response) (closes e) _ _ s s

remove_headers-Clean : (t : Transaction) → Ordered t → Clean (remove_headers hidden_from_client t)
remove_headers-Clean t s q h =
    found-remove_headers q hidden_from_client t s ∙ if_true _ _ _ (sym (withheld-is q) ∙ h)

found-get_read_buffer : (q : Bytes) (t : Transaction) → found q (get_read_buffer t).0 ≡ found q t
unfolding get_read_buffer
found-get_read_buffer q t = ground arith

module _ (lib : Library) (o : Outside) (e : Completion) where
  pass_response_headers-Hides :
      (b : Bridge) → Ordered b.response → Holds Hides (pass_response_headers lib e b)
  unfolding pass_response_headers set_stream_timeout read_into
  pass_response_headers-Hides b s =
      let t = remove_headers hidden_from_client b.response in
      by_if (Holds Hides) (wants_more e t) _ _
        (λ _ _ q h. found-get_read_buffer q t ∙ remove_headers-Clean b.response s q h)
        (write_to-Holds lib Clean (λ u k v p z i. i) Hides client server _ (λ u bytes i _ _. i)
          (remove_headers-Clean b.response s))

  refuse-Hides : (b : Bridge) → Holds Hides (refuse lib b)
  unfolding refuse set_should_block
  refuse-Hides b =
      write_to-Holds lib (λ t. t.should_block ≡ pos 1) (λ t k v p z i. i) Hides client client _
        (λ t bytes i _ w. absurd (blocked t i w)) refl

  take_response_headers-Hides :
      (b : Bridge) → Ordered b.response → Holds Hides (take_response_headers lib o e b)
  unfolding take_response_headers read_into
  take_response_headers-Hides b s =
      by_if (Holds Hides) (not (closes e) && not b.response.headers_complete) _ _ (λ h. cc)
        (by_if (Holds Hides) (is_nonneg b.request.should_block) _ _
          (Holds-bind (λ r. Ordered r.0.response) Hides (ask_both lib o b) _
            (ask_both-Holds lib o b (λ r. Ordered r.0.response)
              (λ q t blocks _ _ w. subst IsSorted (sym w.0) s))
            (λ r h.
              by_if (Holds Hides) r.1 _ _ (refuse-Hides r.0) (pass_response_headers-Hides r.0 h)))
          (pass_response_headers-Hides b s))

  -- If `OnUpstreamHeaders` returns and starts a write to the client, or a read of the rest of the
  -- response, and the request is not marked as blocked, then the response has no header whose name
  -- is up to case, and up to a NUL byte, one of Get-Dictionary, Alternate-Protocol, Alt-Svc,
  -- Public-Key-Pins and Public-Key-Pins-Report-Only. The response's headers are in the multimap's
  -- order to begin with.
  pub on_upstream_headers-Hides :
      (n : ℕ) (b : Bridge) → Ordered b.response → Holds Hides (on_upstream_headers lib o e n b)
  unfolding on_upstream_headers
  on_upstream_headers-Hides n b s =
      receive-Holds Hides (λ u. Ordered u.response) (λ u _ h. cc) (λ z u i. i) server
        (take_response_headers lib o e) e (λ u i _. take_response_headers-Hides u i) lib n b s
        (parse-Ordered lib n (note_close e b).response (note_close-Ordered e b s))
