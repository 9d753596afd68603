-- ===== src/Diversion/Packets.antt =====
-- `WinDiverter::RunDiversion`: what one turn of the loop does with a packet that WinDivert received.
-- Turns of the threads are taken one after another. The build with HTTP_FE_BLOCK_TOR is the
-- argument `block_tor`.
use http_filtering_engine.Base.{
  ℕ, ◌/◌, ◌%◌, Bool, true, false, not, ◌||◌, ◌&&◌, ltb, ◌==◌, if◌then◌else◌, is_empty, List, [],
  ◌∷◌, ◌++◌, Option, none, some,
}
use http_filtering_engine.Http.State.{Severity, info}
use http_filtering_engine.Diversion.Socks.{is_v4_address_private, is_socks_proxy_connect}
use http_filtering_engine.Diversion.State.{
  Diverter, Packet, TcpHeader, Addresses, Words, inbound, outbound, put_at, standard_http_port,
  standard_https_port,
}
use http_filtering_engine.Diversion.Process.{
  System, Table, get_packet_process, get_packet_process6, binary_path,
}

-- The tables of one thread, with their sizes, and the sizes of the structures.
pub record Tables : Type 0 where
  pub table4 : Table
  pub size4 : ℕ
  pub table6 : Table
  pub size6 : ℕ
  pub initial4 : ℕ
  pub initial6 : ℕ

-- The thread's state and the shared one.
pub record Turn : Type 0 where
  pub diverter : Diverter
  pub tables : Tables

-- Whether the flows of a process are filtered, by its identifier.
unfoldable pub wants_filter : System → ℕ → ℕ → Bool
unfolding binary_path
wants_filter os this_pid pid =
    if pid == this_pid
    then false
    else if pid == 4
    then false
    else let path = (binary_path os pid).0 in
      if is_empty path then false else os.firewall_check path

-- The reports of the same branches.
unfoldable path_reports : System → ℕ → ℕ → List Severity
unfolding binary_path
path_reports os this_pid pid = if pid == this_pid || pid == 4 then [] else (binary_path os pid).1

-- A new connection: its process, and whether it is filtered, are noted under its source port.
unfoldable pub note_v4 : System → ℕ → Addresses ℕ → Turn → Turn
unfolding wants_filter path_reports put_at get_packet_process
note_v4 os port addresses s =
    let d = s.diverter in
    let found =
      get_packet_process os s.tables.initial4 port addresses.src_addr s.tables.table4
        s.tables.size4 in
    record {
      diverter = record d {
        v4_pid_map = put_at port found.pid d.v4_pid_map;
        v4_should_filter = put_at port (wants_filter os d.this_pid found.pid) d.v4_should_filter;
        reports = d.reports ++ (found.reports ++ path_reports os d.this_pid found.pid);
      };
      tables = record (s.tables) { table4 = found.table; size4 = found.size };
    }

unfoldable note_v6 : System → ℕ → Addresses Words → Turn → Turn
unfolding wants_filter path_reports put_at get_packet_process6
note_v6 os port addresses s =
    let d = s.diverter in
    let found =
      get_packet_process6 os s.tables.initial6 port addresses.src_addr s.tables.table6
        s.tables.size6 in
    record {
      diverter = record d {
        v6_pid_map = put_at port found.pid d.v6_pid_map;
        v6_should_filter = put_at port (wants_filter os d.this_pid found.pid) d.v6_should_filter;
        reports = d.reports ++ (found.reports ++ path_reports os d.this_pid found.pid);
      };
      tables = record (s.tables) { table6 = found.table; size6 = found.size };
    }

unfoldable pub if_v4 : {A : Type 0} → (Addresses ℕ → A → A) → Packet → A → A
if_v4 f p a = elim p.ipv4 [ none ↦ a | some addresses ↦ f addresses a ]

unfoldable pub if_v6 : {A : Type 0} → (Addresses Words → A → A) → Packet → A → A
if_v6 f p a = elim p.ipv6 [ none ↦ a | some addresses ↦ f addresses a ]

-- The first part of a turn: only a packet that opens a connection is noted.
unfoldable pub note_connection : System → TcpHeader → Packet → Turn → Turn
unfolding note_v4 note_v6 if_v4 if_v6
note_connection os tcp p s =
    if ltb 0 tcp.syn
    then if_v6 (note_v6 os tcp.src_port) p (if_v4 (note_v4 os tcp.src_port) p s)
    else s

-- The packet and `modifiedPacket`.
abbrev pub Rewritten : Type 0
Rewritten = Packet × Bool

abbrev pub swapped {ℓ} : {A : Type ℓ} → Addresses A → Addresses A
swapped a = record { src_addr = a.dst_addr; dst_addr = a.src_addr }

-- The ports behind a rewriting: of the proxy's answer, and of a client's packet.
unfoldable pub answer_ports : Diverter → TcpHeader → TcpHeader
unfolding standard_http_port standard_https_port
answer_ports d tcp = record tcp {
  src_port =
      if tcp.src_port == d.http_listener_port then standard_http_port else standard_https_port;
}

unfoldable pub divert_ports : Diverter → TcpHeader → TcpHeader
unfolding standard_http_port
divert_ports d tcp = record tcp {
  dst_port =
      if tcp.dst_port == standard_http_port then d.http_listener_port else d.https_listener_port;
}

unfoldable pub from_proxy : Diverter → TcpHeader → Bool
from_proxy d tcp = tcp.src_port == d.http_listener_port || tcp.src_port == d.https_listener_port

unfoldable pub to_web : TcpHeader → Bool
unfolding standard_http_port standard_https_port
to_web tcp = tcp.dst_port == standard_http_port || tcp.dst_port == standard_https_port

-- The IPv4 part of the diversion.
unfoldable pub rewrite_v4 : Diverter → TcpHeader → Addresses ℕ → Rewritten → Rewritten
unfolding from_proxy to_web answer_ports divert_ports
rewrite_v4 d tcp a (p, modified) =
    if from_proxy d tcp
    then (
      record p { direction = inbound; ipv4 = some (swapped a); tcp = some (answer_ports d tcp) },
      true,
    )
    else if to_web tcp && d.v4_should_filter tcp.src_port
    then (
      record p { direction = inbound; ipv4 = some (swapped a); tcp = some (divert_ports d tcp) },
      true,
    )
    else (p, modified)

-- The IPv6 part.
unfoldable pub rewrite_v6 : Diverter → TcpHeader → Addresses Words → Rewritten → Rewritten
unfolding from_proxy to_web answer_ports divert_ports
rewrite_v6 d tcp a (p, modified) =
    if from_proxy d tcp
    then (
      record p { direction = inbound; ipv6 = some (swapped a); tcp = some (answer_ports d tcp) },
      true,
    )
    else if to_web tcp && d.v6_should_filter tcp.src_port
    then (
      record p { direction = inbound; ipv6 = some (swapped a); tcp = some (divert_ports d tcp) },
      true,
    )
    else (p, modified)

unfoldable pub rewrite_any_v4 : Diverter → TcpHeader → Option (Addresses ℕ) → Rewritten → Rewritten
unfolding rewrite_v4
rewrite_any_v4 d tcp none r = r
rewrite_any_v4 d tcp (some a) r = rewrite_v4 d tcp a r

unfoldable pub rewrite_any_v6 :
    Diverter → Option TcpHeader → Option (Addresses Words) → Rewritten → Rewritten
unfolding rewrite_v6
rewrite_any_v6 d tcp none r = r
rewrite_any_v6 d none (some a) r = r
rewrite_any_v6 d (some tcp) (some a) r = rewrite_v6 d tcp a r

-- Both parts: the second one reads the TCP header as the first one left it.
unfoldable pub rewrite : Diverter → TcpHeader → Rewritten → Rewritten
unfolding rewrite_any_v4 rewrite_any_v6
rewrite d tcp (p, modified) =
    let r = rewrite_any_v4 d tcp p.ipv4 (p, modified) in rewrite_any_v6 d r.0.tcp p.ipv6 r

-- Whether the flow is one to filter whose destination is private: the first two bytes of
-- `DstAddr`, which is in network order, are its lowest ones.
unfoldable pub filtered_v4 : Diverter → TcpHeader → Packet → Bool
filtered_v4 d tcp p = elim p.ipv4 [ none ↦ false | some a ↦ d.v4_should_filter tcp.src_port ]

unfoldable pub is_local_v4 : Diverter → TcpHeader → Packet → Bool
unfolding is_v4_address_private
is_local_v4 d tcp p = elim p.ipv4 [
  | none ↦ false
  | some a ↦
      d.v4_should_filter tcp.src_port
      && is_v4_address_private (a.dst_addr % 256) (a.dst_addr / 256 % 256)
]

unfoldable pub is_socks_payload : (ℕ → ℕ) → Packet → Bool
unfolding is_socks_proxy_connect
is_socks_payload outside p = elim p.payload [
  | none ↦ false
  | some text ↦ is_socks_proxy_connect outside text
]

-- The parts of a turn behind the note of a connection; `none` when the packet is not sent on.
unfoldable pub divert_packet :
    Bool → (ℕ → ℕ) → TcpHeader → Packet → Diverter → Diverter × Option Rewritten
unfolding filtered_v4 is_local_v4 is_socks_payload rewrite
divert_packet block_tor outside tcp p d =
    let modified = filtered_v4 d tcp p in
    if not (is_local_v4 d tcp p)
    then (d, some (rewrite d tcp (p, modified)))
    else if block_tor && is_socks_payload outside p
    then (record d { reports = d.reports ++ info ∷ [] }, none)
    else (d, some (p, modified))

-- One turn of `RunDiversion` after a packet was received: the state, and the packet that is sent
-- with whether all its checksums are replaced.
unfoldable pub run_turn : Bool → System → (ℕ → ℕ) → Packet → Turn → Turn × Option Rewritten
unfolding note_connection divert_packet
run_turn block_tor os outside p s = elim p.direction [
  | inbound ↦ (s, some (p, false))
  | outbound ↦ elim p.tcp [
    | none ↦ (s, some (p, false))
    | some tcp ↦
        let s1 = note_connection os tcp p s in
        let r = divert_packet block_tor outside tcp p s1.diverter in
        (record s1 { diverter = r.0 }, r.1)
  ]
]
