-- ===== src/Tests/Packets.antt =====
-- The diversion at concrete packets.
use http_filtering_engine.Base.{
  Bytes, ℕ, Bool, List, true, false, [], ◌∷◌, some, none, ◌≡◌, ◌≢◌, refl, codes, arith, inl, ◌==◌,
}
use http_filtering_engine.Diversion.State.{
  Diverter, TcpHeader, Addresses, Words, inbound, outbound, new_diverter,
}
use http_filtering_engine.Diversion.Socks.{is_socks_proxy_connect}
use http_filtering_engine.Diversion.Process.{System, rows, failed, get_packet_process}
use http_filtering_engine.Diversion.Packets.{
  Turn, divert_packet, run_turn, swapped, divert_ports, from_proxy, to_web, is_local_v4,
}
use http_filtering_engine.Diversion.Translation.{v4_packet, answer}
use http_filtering_engine.Diversion.Flows.{tcp_packet, client_sees_server_v4, own_connections_pass}
use http_filtering_engine.Diversion.Bounds.{is_socks_proxy_connect-inside}
use http_filtering_engine.Diversion.Loop.{
  Received, no_event, refused, at_once, awaited, Round, Thread, new_thread, run_diversion,
}
use http_filtering_engine.Diversion.Loop.Forwarding.{Forwards, run_diversion-Forwards}
use http_filtering_engine.Diversion.Lifecycle.{Service, null}

-- Listeners on ports 8080 and 8443; the flows of port 5000 are filtered.
abbrev diverter : Diverter
diverter = record (new_diverter 100) {
  http_listener_port = 36895;
  https_listener_port = 64288;
  v4_should_filter = λ port. port == 5000;
  v6_should_filter = λ port. port == 5000;
}

-- From port 5000 to port 443, and to 8.8.8.8 or to 10.0.0.1.
abbrev tcp : TcpHeader
tcp = record { src_port = 5000; dst_port = 47873; syn = 1 }

abbrev public : Addresses ℕ
public = record { src_addr = 167772161; dst_addr = 134744072 }

abbrev private : Addresses ℕ
private = record { src_addr = 167772161; dst_addr = 16777226 }

abbrev words : Words
words = record { word0 = 1; word1 = 2; word2 = 3; word3 = 4 }

abbrev public6 : Addresses Words
public6 = record { src_addr = words; dst_addr = record words { word0 = 9 } }

distinct : diverter.http_listener_port ≢ diverter.https_listener_port
distinct = ground arith

client : from_proxy diverter tcp ≡ false
unfolding from_proxy
client = refl

web : to_web tcp ≡ true
unfolding to_web
web = refl

client_sees_server_v4_example :
    (divert_packet true (λ _. 0) tcp (v4_packet outbound public tcp none) diverter ≡ (
      diverter,
      some (v4_packet inbound (swapped public) (divert_ports diverter tcp) none, true),
    ))
    × (divert_packet true
          (λ _. 0)
          (answer (divert_ports diverter tcp))
          (v4_packet outbound public (answer (divert_ports diverter tcp)) none)
          diverter
        ≡ (diverter, some (v4_packet inbound (swapped public) (answer tcp) none, true)))
client_sees_server_v4_example =
    client_sees_server_v4 true (λ _. 0) diverter tcp distinct client web public none none refl
      (unfold is_local_v4 in refl) (unfold divert_ports in refl)

-- The same ports the other way round: nothing is filtered.
abbrev other : TcpHeader
other = record tcp { src_port = 5001 }

-- A system whose table gives the connection of port 5000 to process 100.
abbrev os : System
os = record {
  table4 =
      λ _. rows ((record { local_addr = 167772161; local_port = 5000; owning_pid = 100 }) ∷ []);
  table4_again = λ _. failed;
  table6 = λ _. failed;
  table6_again = λ _. failed;
  malloc = λ _. true;
  open_process = λ _. true;
  image_name = λ _. some (codes "C:\\a.exe");
  firewall_check = λ _. true;
}

abbrev turn : Turn
turn = record {
  diverter = record diverter { this_pid = 100 };
  tables = record {
    table4 = none;
    size4 = 0;
    table6 = none;
    size6 = 0;
    initial4 = 28;
    initial6 = 60;
  };
}

own_connections_pass_example :
    (run_turn true os (λ _. 0) (tcp_packet (some public) none tcp none) turn).1
    ≡ some (tcp_packet (some public) none tcp none, false)
own_connections_pass_example =
    own_connections_pass true os (λ _. 0) tcp public none turn (omega arith)
      (inl (unfold get_packet_process in refl)) (unfold from_proxy in refl)

-- A request by domain name of one byte, with a port in front of its end.
abbrev by_name : Bytes
by_name = 5 ∷ 1 ∷ 0 ∷ 3 ∷ 1 ∷ 97 ∷ 0 ∷ 80 ∷ []

is_socks_proxy_connect-inside_example :
    is_socks_proxy_connect (λ _. 0) by_name ≡ is_socks_proxy_connect (λ i. i) by_name
is_socks_proxy_connect-inside_example =
    is_socks_proxy_connect-inside (λ _. 0) (λ i. i) by_name (ground arith)

-- A diverter that was never started.
abbrev service : Service
service = record {
  running = false;
  threads = 0;
  diversion_handle = null;
  quic_block_handle = null;
  opened = 7 ∷ [];
}

-- A packet that comes after a wait, a receive that fails, and a packet that is there at once.
abbrev round : Received → Bool → Round
round received running = record {
  running = running;
  meanwhile = λ d. d;
  received = received;
  os = os;
  outside = λ _. 0;
}

abbrev rounds : List Round
rounds =
    round (awaited (tcp_packet (some public) none tcp none)) true
    ∷ round refused true
    ∷ round (at_once (tcp_packet (some public) none other none)) true
    ∷ round no_event false
    ∷ []

abbrev thread : Thread
thread = new_thread 28 60 diverter

run_diversion-Forwards_example : Forwards true rounds (run_diversion true rounds thread).sent
run_diversion-Forwards_example = run_diversion-Forwards true rounds thread
