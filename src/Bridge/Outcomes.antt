-- ===== src/Bridge/Outcomes.antt =====
-- Predicates on what the handlers of TlsCapableHttpBridge.hpp leave, through the parts that they
-- share.
use http_filtering_engine.Base.{ℕ, Bool, true, false, not, ◌&&◌, ◌||◌, ◌≡◌, refl, ◌==◌, arith}
use http_filtering_engine.External.{Library}
use http_filtering_engine.Http.State.{Transaction, Severity, warning, Result}
use http_filtering_engine.Http.Results.{Holds, Holds-bind, by_if, by_test}
use http_filtering_engine.Http.Callbacks.{parse}
use http_filtering_engine.Bridge.State.{Bridge, Turn, Completion, say, kill, give_up}
use http_filtering_engine.Bridge.Reading.{
  Peer, client, server, message, put_message, is_short, is_error, closes, tolerates, fail,
  after_parse, note_close, receive,
}

-- A message that is there in full.
abbrev pub IsWhole : Transaction → Type 0
IsWhole t = (t.payload_complete && t.headers_complete) ≡ true

pub kill-killed : (b : Bridge) → (kill b).killed ≡ true
unfolding kill
kill-killed b = ground arith

IsWhole-of :
    (t : Transaction) → (not t.payload_complete || not t.headers_complete) ≡ false → IsWhole t
IsWhole-of t h = ground arith

message-put_message :
    (peer : Peer) (t : Transaction) (b : Bridge) → message peer (put_message peer t b) ≡ t
message-put_message client t b = refl
message-put_message server t b = refl

message-say : (peer : Peer) (s : Severity) (b : Bridge) → message peer (say s b) ≡ message peer b
message-say client s b = refl
message-say server s b = refl

-- A predicate `P` on turns that `Kill` meets, on what the handler of a read leaves, where `R` holds
-- of the bridge. The handler's own part is run on bridges with `R`, and where the read was short on
-- a whole message.
module _ (P : Turn → Type 0) (R : Bridge → Type 0) (killed : (b : Bridge) → R b → P (give_up b))
    (said : (s : Severity) (b : Bridge) → R b → R (say s b)) where
  pub fail-Holds : (e : Completion) (b : Bridge) → R b → P (fail e b)
  unfolding fail
  fail-Holds e b h =
      by_if (λ z. P (give_up z)) (is_error e) _ _ (killed _ (said _ b h)) (killed b h)

  module _ (peer : Peer) (accepted : Bridge → Result Turn) (e : Completion)
      (goes_on : (b : Bridge)
        → R b
        → (is_short e ≡ true → IsWhole (message peer b))
        → Holds P (accepted b)) where
    after_parse-Holds :
        (b : Bridge) (r : Transaction × Bool)
        → R (put_message peer r.0 b)
        → Holds P (after_parse peer accepted e b r)
    unfolding after_parse
    after_parse-Holds b (t, parsed) h =
        let b1 = put_message peer t b in
        by_if (Holds P) (not parsed) _ _ (fail-Holds e _ (said _ b1 h)) (
          by_test (Holds P) (is_short e && (not t.payload_complete || not t.headers_complete)) _ _
            (λ _. killed _ (said _ b1 h))
            (λ w.
              by_test (λ z. Holds P (accepted z)) (is_short e) _ _
                (λ s. goes_on _ (said _ b1 h) (λ _.
                  rw (message-say peer warning b1, message-put_message peer t b)
                    (IsWhole-of t (rw s at w))))
                (λ s. goes_on _ h (λ i. cc))))

    pub receive-Holds :
        (lib : Library) (n : ℕ) (b : Bridge)
        → R b
        → Holds
            (λ r. R (put_message peer r.0 (note_close e b)))
            (parse lib n (message peer (note_close e b)))
        → Holds P (receive lib peer accepted e n b)
    unfolding receive
    receive-Holds lib n b r h = by_if (Holds P) (not (tolerates e)) _ _ (fail-Holds e b r) (
        by_if (Holds P) (closes e && not (is_short e) && n == 0) _ _ (killed b r) (
          Holds-bind (λ z. R (put_message peer z.0 (note_close e b))) P
            (parse lib n (message peer (note_close e b))) _ h (after_parse-Holds (note_close e b))))
