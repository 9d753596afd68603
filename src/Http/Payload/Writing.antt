-- ===== src/Http/Payload/Writing.antt =====
-- What GetWriteBuffer hands out.
use http_filtering_engine.Base.{
  Bytes, Bool, true, false, not, ◌++◌, if◌then◌else◌, ◌≡◌, ◌≢◌, refl, sym, ap, subst, ◌∙◌, All,
  arith, some, Bool-cases, inl, inr,
}
use http_filtering_engine.External.{Library}
use http_filtering_engine.Http.State
use http_filtering_engine.Http.State.{Transaction, Result, ok, thrown}
use http_filtering_engine.Http.Head.{headers_to_string, start_line, with_status, on_status}
use http_filtering_engine.Http.Status.{set_status_code}
use http_filtering_engine.Http.Head.RoundTrip.{read_head, read_head-headers_to_string, IsPlain}
use http_filtering_engine.Http.Payload.{put_head, get_write_buffer}

-- The head that was put in front, and the transaction with it.
put_head_inv :
    (lib : Library) (t t' : Transaction)
    → put_head lib t ≡ ok t'
    → (u : Transaction) × (head : Bytes) × (headers_to_string lib t ≡ ok (u, head))
      × (t' ≡ record u { payload = head ++ u.payload; headers_sent = true })
unfolding put_head
put_head_inv lib t t' e = go (headers_to_string lib t) refl e
  where
    go :
        (r : Result (Transaction × Bytes))
        → headers_to_string lib t ≡ r
        → State.◌>>=◌ {B = Transaction} r
            (λ p. ok (record p.0 { payload = p.1 ++ p.0.payload; headers_sent = true }))
          ≡ ok t'
        → (u : Transaction) × (head : Bytes) × (headers_to_string lib t ≡ ok (u, head))
          × (t' ≡ record u { payload = head ++ u.payload; headers_sent = true })
    go (ok (u, head)) h k = (u, head, h, ground arith)
    go thrown h k = absurd (cc)

if_fresh {ℓ} : {A : Type ℓ} (sent : Bool) (x y : A) → sent ≡ false → (if not sent then x else y) ≡ x
if_fresh true x y e = cc
if_fresh false x y e = refl

get_write_buffer_inv :
    (lib : Library) (t t' : Transaction) (bytes : Bytes)
    → get_write_buffer lib t ≡ ok (t', bytes)
    → (bytes ≡ t'.payload) × ((if not t.headers_sent then put_head lib t else ok t) ≡ ok t')
unfolding get_write_buffer
get_write_buffer_inv lib t t' bytes e = ground arith

-- The head is out after any call.
get_write_buffer-headers_sent :
    (lib : Library) (t t' : Transaction) (bytes : Bytes)
    → get_write_buffer lib t ≡ ok (t', bytes)
    → t'.headers_sent ≡ true
get_write_buffer-headers_sent lib t t' bytes e =
    let inv = get_write_buffer_inv lib t t' bytes e in
    elim (Bool-cases t.headers_sent) [
      | inl sent ↦ ground (arith, inv.1)
      | inr fresh ↦
          let e' : put_head lib t ≡ ok t' = sym (if_fresh t.headers_sent _ _ fresh) ∙ inv.1 in
          let (u, head, h, k) = put_head_inv lib t t' e' in rw k
    ]

-- Once `GetWriteBuffer` has returned, a second call hands out the same bytes and changes nothing:
-- the head is written once.
get_write_buffer_twice :
    (lib : Library) (t t' : Transaction) (bytes : Bytes)
    → get_write_buffer lib t ≡ ok (t', bytes)
    → get_write_buffer lib t' ≡ ok (t', bytes)
unfolding get_write_buffer
get_write_buffer_twice lib t t' bytes e =
    rw (get_write_buffer-headers_sent lib t t' bytes e, (get_write_buffer_inv lib t t' bytes e).0)

-- Giving a response its status leaves the payload alone.
with_status-payload : (t u : Transaction) → with_status t ≡ ok u → u.payload ≡ t.payload
unfolding with_status on_status set_status_code
with_status-payload t u e = ground arith

headers_to_string-payload :
    (lib : Library) (t u : Transaction) (head : Bytes)
    → headers_to_string lib t ≡ ok (u, head)
    → u.payload ≡ t.payload
unfolding headers_to_string
headers_to_string-payload lib t u head e = ground (arith, with_status-payload t u)

-- What the payload reads as once the head stands in front of it.
abbrev Reads : Library → Bytes → Transaction → Type 0
Reads lib body w =
    All (λ c. c ≢ b'\r') (start_line lib w)
    → All IsPlain w.headers
    → read_head w.payload ≡ some (start_line lib w, w.headers, body)

Reads-with_head :
    (lib : Library) (t t' u : Transaction) (head : Bytes)
    → headers_to_string lib t ≡ ok (u, head)
    → t' ≡ record u { payload = head ++ u.payload; headers_sent = true }
    → Reads lib t.payload t'
unfolding start_line
Reads-with_head lib t t' u head printed k = subst (Reads lib t.payload) (sym k) λ s h.
    ap (λ p. read_head (head ++ p)) (headers_to_string-payload lib t u head printed)
    ∙ read_head-headers_to_string lib t u head t.payload printed s h

-- Until the head is out, what `GetWriteBuffer` hands out, if it does not throw, reads as the start
-- line, the headers in their order and the payload, if the start line has no carriage return, no
-- header's name has a colon or a carriage return, and no value has a carriage return.
pub get_write_buffer_reads :
    (lib : Library) (t t' : Transaction) (bytes : Bytes)
    → t.headers_sent ≡ false
    → get_write_buffer lib t ≡ ok (t', bytes)
    → All (λ c. c ≢ b'\r') (start_line lib t')
    → All IsPlain t'.headers
    → read_head bytes ≡ some (start_line lib t', t'.headers, t.payload)
get_write_buffer_reads lib t t' bytes fresh e s h =
    let inv = get_write_buffer_inv lib t t' bytes e in
    let e' : put_head lib t ≡ ok t' = sym (if_fresh t.headers_sent _ _ fresh) ∙ inv.1 in
    let (u, head, printed, k) = put_head_inv lib t t' e' in
    ap read_head inv.0 ∙ Reads-with_head lib t t' u head printed k s h
