-- ===== src/Diversion/Loop/Forwarding.antt =====
-- What the loop of `WinDiverter::RunDiversion` sends on of the packets that it receives.
use http_filtering_engine.Http.Results.{by_option, by_test}
use http_filtering_engine.Base.{
  Bool, true, false, List, [], ◌∷◌, Option, none, some, ◌≡◌, refl, sym, ◌∙◌,
}
use http_filtering_engine.Diversion.State.{Packet}
use http_filtering_engine.Diversion.Packets.{Rewritten, is_socks_payload}
use http_filtering_engine.Diversion.Loop.Turns.{IsForward, Handled, run_turn-Handled}
use http_filtering_engine.Diversion.Loop.{
  Received, no_event, refused, broken, at_once, awaited, Round, Thread, receive_packet,
  put_diverter, run_round, Ran, and_sent, run_diversion,
}

unfoldable pub packet_of : Received → Option Packet
packet_of no_event = none
packet_of refused = none
packet_of broken = none
packet_of (at_once p) = some p
packet_of (awaited p) = some p

-- What is sent in some turns: nothing once `m_running` is false or where nothing is received, and
-- otherwise the packet's forward, in the order of the turns, unless the packet is blocked.
pub data Forwards (block_tor : Bool) : List Round → List Rewritten → Type 0 where
  no_rounds : Forwards block_tor [] []
  stopped :
      {r : Round} {rounds : List Round} → r.running ≡ false → Forwards block_tor (r ∷ rounds) []
  nothing_received :
      {r : Round} {rounds : List Round} {sent : List Rewritten}
      → packet_of r.received ≡ none
      → Forwards block_tor rounds sent
      → Forwards block_tor (r ∷ rounds) sent
  forwarded :
      {r : Round} {rounds : List Round} {sent : List Rewritten} (p : Packet) {q : Rewritten}
      → packet_of r.received ≡ some p
      → IsForward p q
      → Forwards block_tor rounds sent
      → Forwards block_tor (r ∷ rounds) (q ∷ sent)
  blocked :
      {r : Round} {rounds : List Round} {sent : List Rewritten} (p : Packet)
      → packet_of r.received ≡ some p
      → block_tor ≡ true
      → is_socks_payload r.outside p ≡ true
      → Forwards block_tor rounds sent
      → Forwards block_tor (r ∷ rounds) sent

receive_packet-packet_of : (g : Received) (t : Thread) → (receive_packet g t).1 ≡ packet_of g
unfolding receive_packet packet_of
receive_packet-packet_of no_event t = refl
receive_packet-packet_of refused t = refl
receive_packet-packet_of broken t = refl
receive_packet-packet_of (at_once p) t = refl
receive_packet-packet_of (awaited p) t = refl

Handled-Forwards :
    (block_tor : Bool) (r : Round) (rounds : List Round) (p : Packet) (o : Option Rewritten)
    (later : Ran)
    → packet_of r.received ≡ some p
    → Handled block_tor r.outside p o
    → Forwards block_tor rounds later.sent
    → Forwards block_tor (r ∷ rounds) (and_sent o later).sent
unfolding Handled and_sent
Handled-Forwards block_tor r rounds p none later e h f = blocked p e h.0 h.1 f
Handled-Forwards block_tor r rounds p (some q) later e h f = forwarded p e h f

round-Forwards :
    (block_tor : Bool) (r : Round) (rounds : List Round) (t : Thread) (later : Ran)
    → Forwards block_tor rounds later.sent
    → Forwards block_tor (r ∷ rounds) (and_sent (run_round block_tor r t).1 later).sent
unfolding run_round and_sent
round-Forwards block_tor r rounds t later f =
    let begun = put_diverter r.meanwhile t in
    let e = receive_packet-packet_of r.received begun in
    by_option
      (λ (x : Thread × Option Rewritten). Forwards block_tor (r ∷ rounds) (and_sent x.1 later).sent)
      (receive_packet r.received begun).1 _ _ (λ n. nothing_received (sym e ∙ n) f)
      (λ p i.
        Handled-Forwards block_tor r rounds p _ later (sym e ∙ i)
          (run_turn-Handled block_tor r.os r.outside p (receive_packet r.received begun).0.turn) f)

-- The loop of `RunDiversion` loses, repeats and reorders nothing. Whatever its receives give,
-- whatever the other threads change in between, and until `m_running` is false, each packet that it
-- receives is sent on once, in order, unless it is one that asks for a SOCKS connection and the
-- build blocks these. What is sent on has the packet's payload and flags, each header's addresses
-- as they were or exchanged; and it is the packet itself, or it goes inbound and has all its
-- checksums replaced.
pub run_diversion-Forwards :
    (block_tor : Bool) (rounds : List Round) (t : Thread)
    → Forwards block_tor rounds (run_diversion block_tor rounds t).sent
unfolding run_diversion
run_diversion-Forwards block_tor [] t = no_rounds
run_diversion-Forwards block_tor (r ∷ rounds) t =
    by_test (λ (x : Ran). Forwards block_tor (r ∷ rounds) x.sent) r.running _ _
      (λ _.
        round-Forwards block_tor r rounds t _
          (run_diversion-Forwards block_tor rounds (run_round block_tor r t).0))
      stopped
