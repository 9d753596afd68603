-- ===== src/Bridge/Passthrough/InOrder.antt =====
-- What the volley of TlsCapableHttpBridge.hpp delivers.
use http_filtering_engine.Base.{
  Bytes, [], ◌∷◌, ◌++◌, ◌≡◌, refl, sym, subst, ap, ◌∙◌, append_assoc, append-nil, true, arith, ◌⊎◌,
  inl, inr,
}
use http_filtering_engine.Bridge.State.{Completion, success, Bridge}
use http_filtering_engine.Bridge.Reading.{Peer, client, server, is_error}
use http_filtering_engine.Bridge.Passthrough.{
  Relay, rest, read_from, write_bytes, handle_downstream_passthrough, handle_upstream_passthrough,
  on_relayed,
}
use http_filtering_engine.Bridge.Passthrough.Flows.{
  Flow, Volleying, other, flow, put_flow, handle_passthrough, after_read, after_write, Step, send,
  read, read_fails, written, write_fails, Reach, here, next, starting,
}

-- What is on its way between the unread and the delivered: nothing during a read, the bytes that
-- are being written, and after a failure what was lost.
abbrev Between : Peer → Relay → Bytes → Type 0
Between p rest bytes = Unit {0}
Between p (read_from q) bytes = (q ≡ p) × (bytes ≡ [])
Between p (write_bytes q text) bytes = (q ≡ other p) × (bytes ≡ text)

pub record IsInOrder (p : Peer) (f : Flow) : Type 0 where
  pub between : Bytes
  pub kept : f.sent ≡ f.delivered ++ (between ++ f.unread)
  pub placed : Between p f.relay between

-- A direction's part of a state after a change of either.
flow-put : (p : Peer) (b : Bridge) (f : Flow) (s : Volleying) → flow p (put_flow p b f s) ≡ f
flow-put client b f s = refl
flow-put server b f s = refl

handled :
    (p : Peer) (bytes : Bytes) (b : Bridge)
    → Between p (handle_passthrough p success bytes b).1 bytes
unfolding handle_downstream_passthrough handle_upstream_passthrough
handled client [] b = (refl, refl)
handled client (x ∷ bytes) b = (refl, refl)
handled server [] b = (refl, refl)
handled server (x ∷ bytes) b = (refl, refl)

handled_error :
    (p : Peer) (e : Completion) (b : Bridge)
    → is_error e ≡ true
    → (handle_passthrough p e [] b).1 ≡ rest
unfolding handle_downstream_passthrough handle_upstream_passthrough
handled_error client e b h = ground arith
handled_error server e b h = ground arith

relayed_error :
    (p : Peer) (e : Completion) (b : Bridge) → is_error e ≡ true → (on_relayed p e b).1 ≡ rest
unfolding on_relayed
relayed_error p e b h = ground arith

pub record AreInOrder (s : Volleying) : Type 0 where
  pub down_order : IsInOrder client s.down
  pub up_order : IsInOrder server s.up

order_of : (p : Peer) (s : Volleying) → AreInOrder s → IsInOrder p (flow p s)
order_of client s o = o.down_order
order_of server s o = o.up_order

put_flow-AreInOrder :
    (p : Peer) (b : Bridge) (f : Flow) (s : Volleying)
    → IsInOrder p f
    → AreInOrder s
    → AreInOrder (put_flow p b f s)
put_flow-AreInOrder client b f s i o = record { down_order = i; up_order = o.up_order }
put_flow-AreInOrder server b f s i o = record { down_order = o.down_order; up_order = i }

send-IsInOrder :
    (p : Peer) (bytes : Bytes) (f : Flow)
    → IsInOrder p f
    → IsInOrder p (record f { sent = f.sent ++ bytes; unread = f.unread ++ bytes })
send-IsInOrder p bytes f o = record {
  between = o.between;
  kept =
      ap (λ l. l ++ bytes) o.kept
      ∙ (append_assoc f.delivered (o.between ++ f.unread) bytes
          ∙ ap (λ l. f.delivered ++ l) (append_assoc o.between f.unread bytes));
  placed = o.placed;
}

-- Nothing is on its way during a read.
nothing_between :
    (p : Peer) (f : Flow) (o : IsInOrder p f)
    → f.relay ≡ read_from p
    → f.sent ≡ f.delivered ++ f.unread
nothing_between p f o e =
    let b : Between p (read_from p) o.between = subst (λ r. Between p r o.between) e o.placed in
    o.kept ∙ ap (λ l. f.delivered ++ (l ++ f.unread)) b.1

bytes_between :
    (p : Peer) (f : Flow) (o : IsInOrder p f) (bytes : Bytes)
    → f.relay ≡ write_bytes (other p) bytes
    → f.sent ≡ f.delivered ++ (bytes ++ f.unread)
bytes_between p f o bytes e =
    let b : Between p (write_bytes (other p) bytes) o.between =
      subst (λ r. Between p r o.between) e o.placed in
    o.kept ∙ ap (λ l. f.delivered ++ (l ++ f.unread)) b.1

read-AreInOrder :
    (p : Peer) (bytes others : Bytes) (s : Volleying)
    → (flow p s).relay ≡ read_from p
    → (flow p s).unread ≡ bytes ++ others
    → AreInOrder s
    → AreInOrder (after_read p success bytes others s)
unfolding after_read
read-AreInOrder p bytes others s e u o =
    put_flow-AreInOrder p _ _ s
      (record {
        between = bytes;
        kept =
            nothing_between p (flow p s) (order_of p s o) e ∙ ap (λ l. (flow p s).delivered ++ l) u;
        placed = handled p bytes s.bridge;
      })
      o

read_fails-AreInOrder :
    (p : Peer) (e : Completion) (s : Volleying)
    → (flow p s).relay ≡ read_from p
    → is_error e ≡ true
    → AreInOrder s
    → AreInOrder (after_read p e [] (flow p s).unread s)
unfolding after_read
read_fails-AreInOrder p e s r h o =
    put_flow-AreInOrder p _ _ s
      (record {
        between = [];
        kept = nothing_between p (flow p s) (order_of p s o) r;
        placed = subst (λ q. Between p q []) (sym (handled_error p e s.bridge h)) tt;
      })
      o

-- A write of a part of what is on its way.
part-kept :
    (p : Peer) (part lost : Bytes) (s : Volleying)
    → (flow p s).relay ≡ write_bytes (other p) (part ++ lost)
    → AreInOrder s
    → (flow p s).sent ≡ ((flow p s).delivered ++ part) ++ (lost ++ (flow p s).unread)
part-kept p part lost s e o =
    let f = flow p s in
    bytes_between p f (order_of p s o) (part ++ lost) e
    ∙ (ap (λ l. f.delivered ++ l) (append_assoc part lost f.unread)
        ∙ sym (append_assoc f.delivered part (lost ++ f.unread)))

written-AreInOrder :
    (p : Peer) (bytes : Bytes) (s : Volleying)
    → (flow p s).relay ≡ write_bytes (other p) bytes
    → AreInOrder s
    → AreInOrder (after_write p success bytes s)
unfolding after_write
written-AreInOrder p bytes s e o =
    put_flow-AreInOrder p _ _ s
      (record {
        between = [];
        kept = part-kept p bytes [] s (e ∙ ap (write_bytes (other p)) (sym (append-nil bytes))) o;
        placed = (refl, refl);
      })
      o

write_fails-AreInOrder :
    (p : Peer) (e : Completion) (part lost : Bytes) (s : Volleying)
    → (flow p s).relay ≡ write_bytes (other p) (part ++ lost)
    → is_error e ≡ true
    → AreInOrder s
    → AreInOrder (after_write p e part s)
unfolding after_write
write_fails-AreInOrder p e part lost s r h o =
    put_flow-AreInOrder p _ _ s
      (record {
        between = lost;
        kept = part-kept p part lost s r o;
        placed = subst (λ q. Between p q lost) (sym (relayed_error p e s.bridge h)) tt;
      })
      o

Step-AreInOrder : {s t : Volleying} → Step s t → AreInOrder s → AreInOrder t
Step-AreInOrder (send p bytes s) o =
    put_flow-AreInOrder p _ _ s (send-IsInOrder p bytes (flow p s) (order_of p s o)) o
Step-AreInOrder (read p bytes others s e u) o = read-AreInOrder p bytes others s e u o
Step-AreInOrder (read_fails p e s r h) o = read_fails-AreInOrder p e s r h o
Step-AreInOrder (written p bytes s e) o = written-AreInOrder p bytes s e o
Step-AreInOrder (write_fails p e part lost s r h) o = write_fails-AreInOrder p e part lost s r h o

Reach-AreInOrder : {s t : Volleying} → Reach s t → AreInOrder s → AreInOrder t
Reach-AreInOrder here o = o
Reach-AreInOrder (next r p) o = Step-AreInOrder p (Reach-AreInOrder r o)

starting-AreInOrder : (first : Bytes) (b : Bridge) → AreInOrder (starting first b)
unfolding starting handle_downstream_passthrough handle_upstream_passthrough
starting-AreInOrder first b = record {
  down_order = record { between = []; kept = sym (append-nil first); placed = (refl, refl) };
  up_order = record { between = []; kept = refl; placed = (refl, refl) };
}

-- The delivered bytes are what was sent first, and while the direction goes on the others are on
-- their way or unread.
abbrev pub Delivers : Peer → Flow → Type 0
Delivers p f =
    ((others : Bytes) × (f.sent ≡ f.delivered ++ others))
    × ((f.relay ≡ rest)
        ⊎ ((f.relay ≡ read_from p) × (f.sent ≡ f.delivered ++ f.unread))
        ⊎ ((bytes : Bytes) × (f.relay ≡ write_bytes (other p) bytes)
            × (f.sent ≡ f.delivered ++ (bytes ++ f.unread))))

going :
    (p : Peer) (f : Flow) (r : Relay)
    → f.relay ≡ r
    → IsInOrder p f
    → (f.relay ≡ rest)
      ⊎ ((f.relay ≡ read_from p) × (f.sent ≡ f.delivered ++ f.unread))
      ⊎ ((bytes : Bytes) × (f.relay ≡ write_bytes (other p) bytes)
          × (f.sent ≡ f.delivered ++ (bytes ++ f.unread)))
going p f rest e o = inl e
going p f (read_from q) e o =
    let b : Between p (read_from q) o.between = subst (λ r. Between p r o.between) e o.placed in
    let r = e ∙ ap read_from b.0 in inr (inl (r, nothing_between p f o r))
going p f (write_bytes q text) e o =
    let b : Between p (write_bytes q text) o.between =
      subst (λ r. Between p r o.between) e o.placed in
    let r = e ∙ ap (λ x. write_bytes x text) b.0 in inr (inr (text, r, bytes_between p f o text r))

delivers : (p : Peer) (f : Flow) → IsInOrder p f → Delivers p f
delivers p f o = ((o.between ++ f.unread, o.kept), going p f f.relay refl o)

-- The volley passes bytes on in order. Let its first bytes have been written to the server, and let
-- then the peers send, and the reads and writes of the two directions end with or without an error,
-- in any order. In each direction the bytes delivered are the first of those that its source has
-- sent. If the direction has not stopped, then it waits for a read from its source, and all others
-- are unread, or for a write to the other peer, and the others are the bytes of that write and then
-- the unread ones. A read that fails is taken to put in no bytes, and a write that fails may write
-- a part of its own.
pub Reach-Delivers :
    (first : Bytes) (b : Bridge) (p : Peer) (s : Volleying)
    → Reach (starting first b) s
    → Delivers p (flow p s)
Reach-Delivers first b p s r =
    delivers p (flow p s) (order_of p s (Reach-AreInOrder r (starting-AreInOrder first b)))
