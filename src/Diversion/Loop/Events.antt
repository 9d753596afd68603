-- ===== src/Diversion/Loop/Events.antt =====
-- The event objects of the loop of `WinDiverter::RunDiversion`.
use http_filtering_engine.Http.Results.{by_option}
use http_filtering_engine.Base.{
  ℕ, ◌+◌, Bool, true, false, if◌then◌else◌, List, [], ◌∷◌, Option, none, some, ◌≡◌, refl, ap, arith,
}
use http_filtering_engine.Diversion.Packets.{Rewritten}
use http_filtering_engine.Diversion.Loop.{
  report_error, free_tables, Received, no_event, refused, broken, at_once, awaited, Round, Thread,
  receive_packet, put_diverter, run_round, Ran, and_sent, run_diversion,
}

-- The event objects that some turns make and do not close.
unfoldable unclosed : Received → ℕ
unclosed no_event = 0
unclosed refused = 1
unclosed broken = 0
unclosed (at_once p) = 1
unclosed (awaited p) = 0

unfoldable all_unclosed : List Round → ℕ
unfolding unclosed
all_unclosed [] = 0
all_unclosed (r ∷ rounds) =
    let others = all_unclosed rounds in if r.running then unclosed r.received + others else 0

receive_packet-events :
    (g : Received) (t : Thread) → (receive_packet g t).0.events ≡ t.events + unclosed g
unfolding receive_packet unclosed report_error put_diverter
receive_packet-events no_event t = omega arith
receive_packet-events refused t = refl
receive_packet-events broken t = omega arith
receive_packet-events (at_once p) t = refl
receive_packet-events (awaited p) t = omega arith

run_round-events :
    (block_tor : Bool) (r : Round) (t : Thread)
    → (run_round block_tor r t).0.events ≡ t.events + unclosed r.received
unfolding run_round put_diverter
run_round-events block_tor r t =
    let begun = put_diverter r.meanwhile t in
    let e = receive_packet-events r.received begun in
    by_option (λ (x : Thread × Option Rewritten). x.0.events ≡ t.events + unclosed r.received)
      (receive_packet r.received begun).1 _ _ (λ n. e) (λ p i. e)

and_sent-thread : (o : Option Rewritten) (r : Ran) → (and_sent o r).thread ≡ r.thread
unfolding and_sent
and_sent-thread none r = refl
and_sent-thread (some q) r = refl

while_running :
    (b : Bool) (x y : Ran) (k n m : ℕ)
    → x.thread.events ≡ k + n
    → y.thread.events ≡ k + m
    → (if b then x else y).thread.events ≡ k + (if b then n else m)
while_running true x y k n m h i = h
while_running false x y k n m h i = i

-- Behind the loop there are as many event objects more that were not closed as there were turns
-- whose receive had a packet at once, or failed at once.
run_diversion-events :
    (block_tor : Bool) (rounds : List Round) (t : Thread)
    → (run_diversion block_tor rounds t).thread.events ≡ t.events + all_unclosed rounds
unfolding run_diversion all_unclosed free_tables
run_diversion-events block_tor [] t = omega arith
run_diversion-events block_tor (r ∷ rounds) t =
    let turned = run_round block_tor r t in
    let rest = run_diversion block_tor rounds turned.0 in
    let induction = run_diversion-events block_tor rounds turned.0 in
    let first = run_round-events block_tor r t in
    let same = ap (λ (x : Thread). x.events) (and_sent-thread turned.1 rest) in
    while_running r.running (and_sent turned.1 rest)
      (record { thread = free_tables t; sent = []; has_ended = true }) t.events
      (unclosed r.received + all_unclosed rounds) 0 (omega arith) (omega arith)
