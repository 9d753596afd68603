-- ===== src/Diversion/State.antt =====
-- The state of WinDiverter, its ports, and the packets as WinDivert's parser gives them. Ports and
-- addresses are kept as the packet's header has them, in network order.
use http_filtering_engine.Base.{
  Bytes, ℕ, ◌+◌, ◌*◌, ◌/◌, ◌%◌, Bool, false, ◌==◌, if◌then◌else◌, List, Option,
}
use http_filtering_engine.Http.State.{Severity}

-- `htons` and `ntohs` on a little-endian machine: the two bytes of a 16-bit number swapped.
unfoldable pub htons : ℕ → ℕ
htons port = port % 256 * 256 + port / 256 % 256

-- `StandardHttpPort` and `StandardHttpsPort`.
unfoldable pub standard_http_port : ℕ
unfolding htons
standard_http_port = htons 80

unfoldable pub standard_https_port : ℕ
unfolding htons
standard_https_port = htons 443

-- The members that the diversion of packets uses. The arrays are functions of the index, which is
-- a port in network order.
pub record Diverter : Type 0 where
  pub http_listener_port : ℕ
  pub https_listener_port : ℕ
  pub this_pid : ℕ
  pub v4_pid_map : ℕ → ℕ
  pub v6_pid_map : ℕ → ℕ
  pub v4_should_filter : ℕ → Bool
  pub v6_should_filter : ℕ → Bool
  pub reports : List Severity

-- One entry of an array is written.
unfoldable pub put_at {ℓ} : {A : Type ℓ} → ℕ → A → (ℕ → A) → (ℕ → A)
put_at i a f j = if j == i then a else f j

-- The constructor, for the process with this identifier.
unfoldable pub new_diverter : ℕ → Diverter
new_diverter pid = record {
  http_listener_port = 0;
  https_listener_port = 0;
  this_pid = pid;
  v4_pid_map = λ _. 0;
  v6_pid_map = λ _. 0;
  v4_should_filter = λ _. false;
  v6_should_filter = λ _. false;
  reports = List.[];
}

unfoldable pub get_http_listener_port : Diverter → ℕ
unfolding htons
get_http_listener_port d = htons d.http_listener_port

unfoldable pub set_http_listener_port : ℕ → Diverter → Diverter
unfolding htons
set_http_listener_port port d = record d { http_listener_port = htons port }

unfoldable pub get_https_listener_port : Diverter → ℕ
unfolding htons
get_https_listener_port d = htons d.https_listener_port

unfoldable pub set_https_listener_port : ℕ → Diverter → Diverter
unfolding htons
set_https_listener_port port d = record d { https_listener_port = htons port }

pub data Direction : Type 0 where
  outbound inbound : Direction

-- Source and destination of an IPv4 header (32-bit words) or of an IPv6 header (four words each).
pub record Addresses {ℓ} (A : Type ℓ) : Type ℓ where
  pub src_addr : A
  pub dst_addr : A

pub record Words : Type 0 where
  pub word0 : ℕ
  pub word1 : ℕ
  pub word2 : ℕ
  pub word3 : ℕ

pub record TcpHeader : Type 0 where
  pub src_port : ℕ
  pub dst_port : ℕ
  pub syn : ℕ

-- A captured packet: the headers that it has, and its payload.
pub record Packet : Type 0 where
  pub direction : Direction
  pub ipv4 : Option (Addresses ℕ)
  pub ipv6 : Option (Addresses Words)
  pub tcp : Option TcpHeader
  pub payload : Option Bytes
