-- ===== src/Diversion/Loop.antt =====
-- The loop of `WinDiverter::RunDiversion` in one thread, built with HTTP_FILTERING_ENGINE_USE_EX as
-- the project files have it: from the receive of a packet to the send. Turn by turn, the other
-- threads may have changed what they share.
pub mod Turns
pub mod Forwarding
pub mod Events
use http_filtering_engine.Base.{
  ℕ, ◌+◌, Bool, true, false, if◌then◌else◌, List, [], ◌∷◌, ◌++◌, Option, none, some,
}
use http_filtering_engine.Http.State.{Severity, error}
use http_filtering_engine.Diversion.State.{Diverter, Packet}
use http_filtering_engine.Diversion.Process.{System}
use http_filtering_engine.Diversion.Packets.{Tables, Turn, Rewritten, run_turn}

-- How a receive goes: the event object is not made; the call fails at once, with another error than
-- that it is pending; the pending operation fails; or there is a packet, at once or after a wait.
pub data Received : Type 0 where
  no_event refused broken : Received
  at_once awaited : Packet → Received

-- What one turn meets: `m_running`, the changes by other threads, the receive, the system, and the
-- byte behind the payload.
pub record Round : Type 0 where
  pub running : Bool
  pub meanwhile : Diverter → Diverter
  pub received : Received
  pub os : System
  pub outside : ℕ → ℕ

-- The thread's state and the shared one, and how many event objects were made and not closed.
pub record Thread : Type 0 where
  pub turn : Turn
  pub events : ℕ

-- The locals at the start, and the sizes of the structures of the tables.
unfoldable pub new_thread : ℕ → ℕ → Diverter → Thread
new_thread initial4 initial6 d = record {
  turn = record {
    diverter = d;
    tables = record {
      table4 = none;
      size4 = 0;
      table6 = none;
      size6 = 0;
      initial4 = initial4;
      initial6 = initial6;
    };
  };
  events = 0;
}

unfoldable pub put_diverter : (Diverter → Diverter) → Thread → Thread
put_diverter f t = record t { turn = record t.turn { diverter = f t.turn.diverter } }

unfoldable pub report_error : Thread → Thread
unfolding put_diverter
report_error t = put_diverter (λ d. record d { reports = d.reports ++ error ∷ [] }) t

-- The receive. The event object is closed only behind a wait.
unfoldable pub receive_packet : Received → Thread → Thread × Option Packet
unfolding report_error
receive_packet no_event t = (report_error t, none)
receive_packet refused t = (report_error (record t { events = t.events + 1 }), none)
receive_packet broken t = (report_error t, none)
receive_packet (at_once p) t = (record t { events = t.events + 1 }, some p)
receive_packet (awaited p) t = (t, some p)

-- One turn, with what it gives to `WinDivertSendEx`, whose result is ignored.
unfoldable pub run_round : Bool → Round → Thread → Thread × Option Rewritten
unfolding receive_packet put_diverter
run_round block_tor r t =
    let got = receive_packet r.received (put_diverter r.meanwhile t) in
    elim got.1 [
      | none ↦ (got.0, none)
      | some p ↦
          let done = run_turn block_tor r.os r.outside p got.0.turn in
          (record got.0 { turn = done.0 }, done.1)
    ]

-- After the loop.
unfoldable pub free_tables : Thread → Thread
free_tables t = record t {
  turn = record t.turn { tables = record t.turn.tables { table4 = none; table6 = none } };
}

-- The thread at the end of a run, what it has sent, with whether all checksums are replaced, and
-- whether the loop has ended.
pub record Ran : Type 0 where
  pub thread : Thread
  pub sent : List Rewritten
  pub has_ended : Bool

unfoldable pub and_sent : Option Rewritten → Ran → Ran
and_sent none r = r
and_sent (some q) r = record r { sent = q ∷ r.sent }

unfoldable pub run_diversion : Bool → List Round → Thread → Ran
unfolding run_round free_tables and_sent
run_diversion block_tor [] t = record { thread = t; sent = []; has_ended = false }
run_diversion block_tor (r ∷ rounds) t =
    let turned = run_round block_tor r t in
    let rest = run_diversion block_tor rounds turned.0 in
    if r.running
    then and_sent turned.1 rest
    else record { thread = free_tables t; sent = []; has_ended = true }
