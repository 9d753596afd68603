-- ===== src/Diversion/Translation.antt =====
-- The rewriting of packets by WinDiverter::RunDiversion, and the answers to rewritten packets.
use http_filtering_engine.Base.{
  ℕ, ◌<◌, Bool, true, false, Option, none, some, ◌≡◌, ◌≢◌, refl, ap, arith, Bytes,
}
use http_filtering_engine.Diversion.State.{
  get_http_listener_port, set_http_listener_port, get_https_listener_port, set_https_listener_port,
}
use http_filtering_engine.Diversion.State.{
  Diverter, Packet, TcpHeader, Addresses, Words, Direction, inbound, outbound, htons,
}
use http_filtering_engine.Diversion.Packets.{
  answer_ports, divert_ports, from_proxy, to_web, rewrite, rewrite_v4, rewrite_v6, rewrite_any_v4,
  rewrite_any_v6, swapped,
}

-- A port is the same after two swaps of its bytes, so the accessors of a listener's port agree.
htons-htons : (port : ℕ) → port < 65536 → htons (htons port) ≡ port
unfolding htons
htons-htons port h = omega arith

-- Each listener's port, a 16-bit number, is read back as it was set, though it is kept in network
-- order.
pub get_listener_port-set :
    (port : ℕ) (d : Diverter)
    → port < 65536
    → (get_http_listener_port (set_http_listener_port port d) ≡ port)
      × (get_https_listener_port (set_https_listener_port port d) ≡ port)
unfolding get_http_listener_port set_http_listener_port get_https_listener_port
    set_https_listener_port
get_listener_port-set port d h = (htons-htons port h, htons-htons port h)

-- Packets with a TCP header and one kind of IP header.
abbrev pub v4_packet : Direction → Addresses ℕ → TcpHeader → Option Bytes → Packet
v4_packet direction a tcp text = record {
  direction = direction;
  ipv4 = some a;
  ipv6 = none;
  tcp = some tcp;
  payload = text;
}

abbrev pub v6_packet : Direction → Addresses Words → TcpHeader → Option Bytes → Packet
v6_packet direction a tcp text = record {
  direction = direction;
  ipv4 = none;
  ipv6 = some a;
  tcp = some tcp;
  payload = text;
}

-- The header of an answer to a packet with this header: the ports exchanged.
abbrev pub answer : TcpHeader → TcpHeader
answer tcp = record { src_port = tcp.dst_port; dst_port = tcp.src_port; syn = 0 }

module _ (d : Diverter) (tcp : TcpHeader)
    (distinct : d.http_listener_port ≢ d.https_listener_port) where
  -- The answer to a diverted packet comes from the proxy.
  answer-from_proxy : from_proxy d (answer (divert_ports d tcp)) ≡ true
  unfolding from_proxy divert_ports
  answer-from_proxy = ground arith

  answer_ports-divert_ports :
      to_web tcp ≡ true → answer_ports d (answer (divert_ports d tcp)) ≡ answer tcp
  unfolding to_web answer_ports divert_ports
  answer_ports-divert_ports h =
      ap (λ port. record { src_port = port; dst_port = tcp.src_port; syn = 0 }) (ground arith)

  module _ (client : from_proxy d tcp ≡ false) (web : to_web tcp ≡ true) where
    pub rewrite_v4-client :
        (a : Addresses ℕ) (text : Option Bytes) (m : Bool)
        → d.v4_should_filter tcp.src_port ≡ true
        → rewrite d tcp (v4_packet outbound a tcp text, m)
          ≡ (v4_packet inbound (swapped a) (divert_ports d tcp) text, true)
    unfolding rewrite rewrite_any_v4 rewrite_any_v6 rewrite_v4
    rewrite_v4-client a text m f = rw (client, web, f) refl

    pub rewrite_v4-answer :
        (a : Addresses ℕ) (text : Option Bytes) (m : Bool)
        → rewrite d
            (answer (divert_ports d tcp))
            (v4_packet outbound a (answer (divert_ports d tcp)) text, m)
          ≡ (v4_packet inbound (swapped a) (answer tcp) text, true)
    unfolding rewrite rewrite_any_v4 rewrite_any_v6 rewrite_v4
    rewrite_v4-answer a text m = rw (answer-from_proxy, answer_ports-divert_ports web) refl

    pub rewrite_v6-client :
        (a : Addresses Words) (text : Option Bytes) (m : Bool)
        → d.v6_should_filter tcp.src_port ≡ true
        → rewrite d tcp (v6_packet outbound a tcp text, m)
          ≡ (v6_packet inbound (swapped a) (divert_ports d tcp) text, true)
    unfolding rewrite rewrite_any_v4 rewrite_any_v6 rewrite_v6
    rewrite_v6-client a text m f = rw (client, web, f) refl

    pub rewrite_v6-answer :
        (a : Addresses Words) (text : Option Bytes) (m : Bool)
        → rewrite d
            (answer (divert_ports d tcp))
            (v6_packet outbound a (answer (divert_ports d tcp)) text, m)
          ≡ (v6_packet inbound (swapped a) (answer tcp) text, true)
    unfolding rewrite rewrite_any_v4 rewrite_any_v6 rewrite_v6
    rewrite_v6-answer a text m = rw (answer-from_proxy, answer_ports-divert_ports web) refl
