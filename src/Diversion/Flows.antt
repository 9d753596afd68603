-- ===== src/Diversion/Flows.antt =====
-- Packets of a flow through the parts of a turn of WinDiverter::RunDiversion.
use http_filtering_engine.Base.{
  Bytes, ℕ, ◌<◌, Bool, true, false, ◌&&◌, if◌then◌else◌, Option, none, some, ◌≡◌, ◌≢◌, refl, ◌∙◌,
  arith, ◌⊎◌,
}
use http_filtering_engine.Diversion.State.{
  Diverter, Packet, TcpHeader, Addresses, Words, inbound, outbound, put_at,
}
use http_filtering_engine.Diversion.Process.{System, get_packet_process}
use http_filtering_engine.Diversion.Packets.{
  Turn, divert_ports, from_proxy, to_web, rewrite, rewrite_v4, rewrite_v6, rewrite_any_v4,
  rewrite_any_v6, is_local_v4, is_socks_payload, filtered_v4, swapped, divert_packet,
  note_connection, note_v4, if_v4, if_v6, wants_filter, run_turn,
}
use http_filtering_engine.Diversion.Translation.{
  v4_packet, v6_packet, answer, rewrite_v4-client, rewrite_v4-answer, rewrite_v6-client,
  rewrite_v6-answer,
}

-- A packet with a TCP header.
abbrev pub tcp_packet :
    Option (Addresses ℕ) → Option (Addresses Words) → TcpHeader → Option Bytes → Packet
tcp_packet o4 o6 tcp text = record {
  direction = outbound;
  ipv4 = o4;
  ipv6 = o6;
  tcp = some tcp;
  payload = text;
}

-- A packet that is neither the proxy's nor one of a flow that is marked as filtered, for IPv4 or
-- for IPv6, is sent on as it is, with no checksum replaced.
divert_packet-unfiltered :
    (block_tor : Bool) (outside : ℕ → ℕ) (d : Diverter) (tcp : TcpHeader)
    (o4 : Option (Addresses ℕ)) (o6 : Option (Addresses Words)) (text : Option Bytes)
    → from_proxy d tcp ≡ false
    → d.v4_should_filter tcp.src_port ≡ false
    → d.v6_should_filter tcp.src_port ≡ false
    → divert_packet block_tor outside tcp (tcp_packet o4 o6 tcp text) d
      ≡ (d, some (tcp_packet o4 o6 tcp text, false))
unfolding divert_packet is_local_v4 filtered_v4 rewrite rewrite_any_v4 rewrite_any_v6 rewrite_v4
    rewrite_v6
divert_packet-unfiltered block_tor outside d tcp none none text n f g = refl
divert_packet-unfiltered block_tor outside d tcp (some a) none text n f g = ground arith
divert_packet-unfiltered block_tor outside d tcp none (some b) text n f g = ground arith
divert_packet-unfiltered block_tor outside d tcp (some a) (some b) text n f g = ground arith

is_local_v4-unfiltered :
    (d : Diverter) (tcp : TcpHeader) (a : Addresses ℕ) (text : Option Bytes)
    → d.v4_should_filter tcp.src_port ≡ false
    → is_local_v4 d tcp (v4_packet outbound a tcp text) ≡ false
unfolding is_local_v4
is_local_v4-unfiltered d tcp a text f = rw f refl

divert_v4-unfiltered :
    (block_tor : Bool) (outside : ℕ → ℕ) (d : Diverter) (tcp : TcpHeader) (a : Addresses ℕ)
    (text : Option Bytes)
    → from_proxy d tcp ≡ false
    → d.v4_should_filter tcp.src_port ≡ false
    → (divert_packet block_tor outside tcp (tcp_packet (some a) none tcp text) d).1
      ≡ some (tcp_packet (some a) none tcp text, false)
unfolding divert_packet is_local_v4 filtered_v4 rewrite rewrite_any_v4 rewrite_any_v6 rewrite_v4
divert_v4-unfiltered block_tor outside d tcp a text n f = ground arith

module _ (block_tor : Bool) (outside : ℕ → ℕ) (d : Diverter) (tcp : TcpHeader)
    (distinct : d.http_listener_port ≢ d.https_listener_port) (client : from_proxy d tcp ≡ false)
    (web : to_web tcp ≡ true) where
  divert_packet-client :
      (a : Addresses ℕ) (text : Option Bytes)
      → d.v4_should_filter tcp.src_port ≡ true
      → is_local_v4 d tcp (v4_packet outbound a tcp text) ≡ false
      → divert_packet block_tor outside tcp (v4_packet outbound a tcp text) d
        ≡ (d, some (v4_packet inbound (swapped a) (divert_ports d tcp) text, true))
  unfolding divert_packet
  divert_packet-client a text f l =
      rw l (rw (rewrite_v4-client d tcp distinct client web a text _ f) refl)

  divert_packet-answer :
      (a : Addresses ℕ) (text : Option Bytes)
      → d.v4_should_filter (divert_ports d tcp).dst_port ≡ false
      → divert_packet block_tor outside
          (answer (divert_ports d tcp))
          (v4_packet outbound a (answer (divert_ports d tcp)) text)
          d
        ≡ (d, some (v4_packet inbound (swapped a) (answer tcp) text, true))
  unfolding divert_packet
  divert_packet-answer a text f =
      rw (is_local_v4-unfiltered d (answer (divert_ports d tcp)) a text f) (
        rw
          (rewrite_v4-answer d tcp distinct client web a text (
            filtered_v4 d (answer (divert_ports d tcp))
              (v4_packet outbound a (answer (divert_ports d tcp)) text)))
          refl)

  -- A client's IPv4 connection to a web server goes through the proxy, and the client sees the
  -- server. The packet has one of the web ports as its destination and does not come from the
  -- proxy; its flow is filtered and its destination not private; the two listeners have distinct
  -- ports, and the port that answers is not marked as filtered itself. Then the packet is turned
  -- inbound, with its addresses exchanged and the listener's port as its destination, and the
  -- listener's answer to it is turned inbound as the answer that the server itself would have sent.
  pub client_sees_server_v4 :
      (a : Addresses ℕ) (text text' : Option Bytes)
      → d.v4_should_filter tcp.src_port ≡ true
      → is_local_v4 d tcp (v4_packet outbound a tcp text) ≡ false
      → d.v4_should_filter (divert_ports d tcp).dst_port ≡ false
      → (divert_packet block_tor outside tcp (v4_packet outbound a tcp text) d
          ≡ (d, some (v4_packet inbound (swapped a) (divert_ports d tcp) text, true)))
        × (divert_packet block_tor outside
              (answer (divert_ports d tcp))
              (v4_packet outbound a (answer (divert_ports d tcp)) text')
              d
            ≡ (d, some (v4_packet inbound (swapped a) (answer tcp) text', true)))
  client_sees_server_v4 a text text' f l g =
      (divert_packet-client a text f l, divert_packet-answer a text' g)

  -- A client's IPv6 connection to a web server goes through the proxy, and the client sees the
  -- server, under the conditions on ports of IPv4: one of the web ports as the destination, a
  -- source port that is filtered and not a listener's, and listeners with distinct ports. No
  -- address counts as private.
  pub client_sees_server_v6 :
      (a : Addresses Words) (text text' : Option Bytes)
      → d.v6_should_filter tcp.src_port ≡ true
      → (divert_packet block_tor outside tcp (v6_packet outbound a tcp text) d
          ≡ (d, some (v6_packet inbound (swapped a) (divert_ports d tcp) text, true)))
        × (divert_packet block_tor outside
              (answer (divert_ports d tcp))
              (v6_packet outbound a (answer (divert_ports d tcp)) text')
              d
            ≡ (d, some (v6_packet inbound (swapped a) (answer tcp) text', true)))
  unfolding divert_packet is_local_v4 filtered_v4
  client_sees_server_v6 a text text' f = (
    rw (rewrite_v6-client d tcp distinct client web a text false f) refl,
    rw (rewrite_v6-answer d tcp distinct client web a text' false) refl,
  )

-- A filtered flow's packet to a private IPv4 address is sent on as it is, with its checksums
-- replaced, except that the build that blocks SOCKS proxies drops a connection request to one.
divert_packet-local :
    (block_tor : Bool) (outside : ℕ → ℕ) (d : Diverter) (tcp : TcpHeader) (a : Addresses ℕ)
    (o6 : Option (Addresses Words)) (text : Option Bytes)
    → is_local_v4 d tcp (tcp_packet (some a) o6 tcp text) ≡ true
    → (divert_packet block_tor outside tcp (tcp_packet (some a) o6 tcp text) d).1 ≡ (
        if block_tor && is_socks_payload outside (tcp_packet (some a) o6 tcp text)
        then none
        else some (tcp_packet (some a) o6 tcp text, true))
unfolding divert_packet is_local_v4 filtered_v4
divert_packet-local block_tor outside d tcp a o6 text l = ground arith

-- A flow of the program itself, or of the system process, is not filtered.
wants_filter-own :
    (os : System) (this_pid pid : ℕ)
    → (pid ≡ this_pid) ⊎ (pid ≡ 4)
    → wants_filter os this_pid pid ≡ false
unfolding wants_filter
wants_filter-own os this_pid pid h = ground arith

-- The process that a packet's connection belongs to, by the table of connections.
abbrev process_of : System → TcpHeader → Addresses ℕ → Turn → ℕ
process_of os tcp a s =
    (get_packet_process os s.tables.initial4 tcp.src_port a.src_addr s.tables.table4
      s.tables.size4).pid

note_v4-own :
    (os : System) (tcp : TcpHeader) (a : Addresses ℕ) (s : Turn)
    → (process_of os tcp a s ≡ s.diverter.this_pid) ⊎ (process_of os tcp a s ≡ 4)
    → (note_v4 os tcp.src_port a s).diverter.v4_should_filter tcp.src_port ≡ false
unfolding note_v4 put_at
note_v4-own os tcp a s h =
    rw (wants_filter-own os s.diverter.this_pid (process_of os tcp a s) h) (ground arith)

note_connection-v4 :
    (os : System) (tcp : TcpHeader) (a : Addresses ℕ) (text : Option Bytes) (s : Turn)
    → 0 < tcp.syn
    → note_connection os tcp (tcp_packet (some a) none tcp text) s ≡ note_v4 os tcp.src_port a s
unfolding note_connection if_v4 if_v6
note_connection-v4 os tcp a text s y = ground arith

note_v4-from_proxy :
    (os : System) (tcp : TcpHeader) (a : Addresses ℕ) (s : Turn)
    → from_proxy (note_v4 os tcp.src_port a s).diverter tcp ≡ from_proxy s.diverter tcp
unfolding note_v4 from_proxy
note_v4-from_proxy os tcp a s = refl

-- A packet that opens a connection of the program itself, or of the system process, is sent on as
-- it is, unless it comes from a listener's port: so the proxy's own requests leave the machine. The
-- packet is one of IPv4 with its SYN flag set, and the process is the one that the table of
-- connections gives for it.
pub own_connections_pass :
    (block_tor : Bool) (os : System) (outside : ℕ → ℕ) (tcp : TcpHeader) (a : Addresses ℕ)
    (text : Option Bytes) (s : Turn)
    → 0 < tcp.syn
    → (process_of os tcp a s ≡ s.diverter.this_pid) ⊎ (process_of os tcp a s ≡ 4)
    → from_proxy s.diverter tcp ≡ false
    → (run_turn block_tor os outside (tcp_packet (some a) none tcp text) s).1
      ≡ some (tcp_packet (some a) none tcp text, false)
unfolding run_turn
own_connections_pass block_tor os outside tcp a text s y h n =
    rw (note_connection-v4 os tcp a text s y) (
      divert_v4-unfiltered block_tor outside (note_v4 os tcp.src_port a s).diverter tcp a text
        (note_v4-from_proxy os tcp a s ∙ n) (note_v4-own os tcp a s h))
