-- ===== src/Diversion/Socks.antt =====
-- BaseDiverter.cpp: private IPv4 addresses and SOCKS connection requests.
use http_filtering_engine.Base.{
  Bytes, ℕ, ◌+◌, ◌*◌, Bool, true, false, not, ◌&&◌, ◌||◌, ltb, leb, ◌==◌, if◌then◌else◌, get_or,
  length,
}

-- `IsV4AddressPrivate`, on the first two bytes.
unfoldable pub is_v4_address_private : ℕ → ℕ → Bool
is_v4_address_private a b =
    if a == 127 || a == 10
    then true
    else if a == 192
    then b == 168
    else if a == 172
    then leb 16 b && leb b 31
    else false

-- The byte at a position. A position behind the payload reads what `outside` has for it, whatever
-- the packet's buffer holds there.
unfoldable pub byte_at : (ℕ → ℕ) → Bytes → ℕ → ℕ
byte_at outside payload i = get_or payload i (outside i)

-- The 16-bit port number at a position.
unfoldable pub port_at : (ℕ → ℕ) → Bytes → ℕ → ℕ
unfolding byte_at
port_at outside payload i = byte_at outside payload i * 256 + byte_at outside payload (i + 1)

unfoldable pub is_web_port : ℕ → Bool
is_web_port port = port == 80 || port == 443

-- The tests that the version 4 request and the version 5 request by IPv4 address share.
unfoldable pub is_public_web : (ℕ → ℕ) → Bytes → ℕ → Bool
unfolding byte_at port_at is_web_port is_v4_address_private
is_public_web outside payload at =
    is_web_port (port_at outside payload at)
    && not (is_v4_address_private (byte_at outside payload 4) (byte_at outside payload 5))

-- The switch over the address type of version 5, with the tests that its branches end in.
unfoldable pub socks5_switch : ℕ → ℕ → ℕ → Bool → Bool → Bool → Bool
socks5_switch type domain_length size by_v4 by_domain by_v6 =
    if type == 1
    then (if ltb size 10 then false else by_v4)
    else if type == 3
    then (if ltb size (domain_length + 6) then false else by_domain)
    else if type == 4
    then (if ltb size 22 then false else by_v6)
    else false

unfoldable pub is_socks5_connect : (ℕ → ℕ) → Bytes → Bool
unfolding byte_at socks5_switch is_public_web port_at is_web_port
is_socks5_connect outside payload =
    let domain_length = byte_at outside payload 4 in
    socks5_switch (byte_at outside payload 3) domain_length (length payload)
      (is_public_web outside payload 8) (is_web_port (port_at outside payload (5 + domain_length)))
      (is_web_port (port_at outside payload 20))

-- `IsSocksProxyConnect` on a payload that is there.
unfoldable pub is_socks_proxy_connect : (ℕ → ℕ) → Bytes → Bool
unfolding byte_at is_public_web is_socks5_connect
is_socks_proxy_connect outside payload =
    let version = byte_at outside payload 0 in
    if ltb (length payload) 8
    then false
    else if version == 4
    then is_public_web outside payload 2
    else if version == 5
    then byte_at outside payload 1 == 1 && is_socks5_connect outside payload
    else false
