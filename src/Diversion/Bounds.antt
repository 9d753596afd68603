-- ===== src/Diversion/Bounds.antt =====
-- What is read of a SOCKS request, and how the table of connections is kept.
use http_filtering_engine.Base.{
  Bytes, ℕ, ◌+◌, ◌<◌, ◌≤◌, Bool, ltb, ◌==◌, if◌then◌else◌, get_or, length, ◌≡◌, ◌≢◌, refl, ap, ap₂,
  ◌∙◌, [], ◌∷◌, zero, suc, Bool-cases, inl, inr, arith, Option, none, some,
}
use http_filtering_engine.Diversion.Socks.{
  is_socks_proxy_connect, is_socks5_connect, socks5_switch, is_public_web, byte_at, port_at,
  is_web_port,
}
use http_filtering_engine.Diversion.Process.{
  System, Table, Found, Answer, insufficient, rows, failed, allocate, first_table, from_rows,
  from_answer, grow_table, answered, get_packet_process,
}

get_or-inside :
    (payload : Bytes) (i a b : ℕ) → i < length payload → get_or payload i a ≡ get_or payload i b
get_or-inside [] i a b h = absurd (omega (arith, h))
get_or-inside (x ∷ payload) zero a b h = refl
get_or-inside (x ∷ payload) (suc i) a b h = get_or-inside payload i a b (omega (arith, h))

module _ (o o' : ℕ → ℕ) where
  -- A position of the payload reads the same whatever stands behind it.
  byte_at-inside :
      (payload : Bytes) (i : ℕ) → i < length payload → byte_at o payload i ≡ byte_at o' payload i
  unfolding byte_at
  byte_at-inside payload i h = get_or-inside payload i (o i) (o' i) h

  port_at-inside :
      (payload : Bytes) (i : ℕ)
      → i + 1 < length payload
      → port_at o payload i ≡ port_at o' payload i
  unfolding port_at
  port_at-inside payload i h =
      rw (byte_at-inside payload i (omega (arith, h)), byte_at-inside payload (i + 1) h) refl

  is_public_web-inside :
      (payload : Bytes) (i : ℕ)
      → i + 1 < length payload
      → 5 < length payload
      → is_public_web o payload i ≡ is_public_web o' payload i
  unfolding is_public_web
  is_public_web-inside payload i h k =
      rw
        (
          port_at-inside payload i h,
          byte_at-inside payload 4 (omega (arith, k)),
          byte_at-inside payload 5 k,
        )
        refl

  socks5_switch_cong :
      (type domain_length size : ℕ) (v d w v' d' w' : Bool)
      → (10 ≤ size → v ≡ v')
      → (domain_length + 6 ≤ size → d ≡ d')
      → (22 ≤ size → w ≡ w')
      → socks5_switch type domain_length size v d w ≡ socks5_switch type domain_length size v' d' w'
  unfolding socks5_switch
  socks5_switch_cong type domain_length size v d w v' d' w' h k l = ground arith

  -- The payload is not a request by domain name that ends one byte early.
  is_socks5_connect-inside :
      (payload : Bytes)
      → 8 ≤ length payload
      → length payload ≢ get_or payload 4 0 + 6
      → is_socks5_connect o payload ≡ is_socks5_connect o' payload
  unfolding is_socks5_connect byte_at
  is_socks5_connect-inside payload h k =
      let n = byte_at o' payload 4 in
      let fifth : n ≡ get_or payload 4 0 = get_or-inside payload 4 (o' 4) 0 (omega (arith, h)) in
      ap₂
        (λ t m.
          socks5_switch t m (length payload) (is_public_web o payload 8)
            (is_web_port (port_at o payload (5 + m))) (is_web_port (port_at o payload 20)))
        (byte_at-inside payload 3 (omega (arith, h))) (byte_at-inside payload 4 (omega (arith, h)))
      ∙ socks5_switch_cong (byte_at o' payload 3) n (length payload) _ _ _ _ _ _
          (λ l. is_public_web-inside payload 8 (omega (arith, l)) (omega (arith, l)))
          (λ l. ap is_web_port (port_at-inside payload (5 + n) (omega (arith, l, k, fifth))))
          (λ l. ap is_web_port (port_at-inside payload 20 (omega (arith, l))))

  -- `IsSocksProxyConnect` reads nothing behind the payload, unless the payload's length is 6 more
  -- than its fifth byte: its answer is the same whatever bytes are there, each position having a
  -- byte of its own.
  pub is_socks_proxy_connect-inside :
      (payload : Bytes)
      → length payload ≢ get_or payload 4 0 + 6
      → is_socks_proxy_connect o payload ≡ is_socks_proxy_connect o' payload
  unfolding is_socks_proxy_connect
  is_socks_proxy_connect-inside payload k = elim (Bool-cases (ltb (length payload) 8)) [
    | inl s ↦ rw s refl
    | inr s ↦
        let h : 8 ≤ length payload = ground (arith, s) in
        rw
          (
            s,
            byte_at-inside payload 0 (omega (arith, h)),
            byte_at-inside payload 1 (omega (arith, h)),
            is_socks5_connect-inside payload h k,
            is_public_web-inside payload 2 (omega (arith, h)) (omega (arith, h)),
          )
          refl
  ]

-- The thread's table and its `currentTableSize`: a null pointer and 0, or a buffer of that size.
abbrev IsBuffer : Table → ℕ → Type 0
IsBuffer none size = size ≡ 0
IsBuffer (some m) size = m ≡ size

from_rows-IsBuffer :
    (o : Option ℕ) (table : Table) (size : ℕ)
    → IsBuffer table size
    → IsBuffer (from_rows o table size).table (from_rows o table size).size
unfolding from_rows
from_rows-IsBuffer none table size h = h
from_rows-IsBuffer (some pid) table size h = h

from_answer-IsBuffer :
    (port addr : ℕ) (table : Table) (size : ℕ) (a : Answer ℕ)
    → IsBuffer table size
    → IsBuffer (from_answer port addr table size a).table (from_answer port addr table size a).size
unfolding from_answer
from_answer-IsBuffer port addr table size (rows rs) h = from_rows-IsBuffer _ table size h
from_answer-IsBuffer port addr table size failed h = refl
from_answer-IsBuffer port addr table size (insufficient n) h = refl

-- What stands in a result of `GetPacketProcess`.
abbrev pub Keeps : Found → Type 0
Keeps f = IsBuffer f.table f.size

-- A split on an option that keeps the equation.
by_option {ℓ} :
    {A : Type 0} {B : Type ℓ} (P : B → Type 0) (o : Option A) (x : B) (f : A → B)
    → P x
    → ((a : A) → o ≡ some a → P (f a))
    → P (elim o [ none ↦ x | some a ↦ f a ])
by_option P none x f h k = h
by_option P (some a) x f h k = k a refl

allocate-size : (os : System) (n m : ℕ) → allocate os n ≡ some m → m ≡ n
unfolding allocate
allocate-size os n m h = ground arith

grow_table-Keeps : (os : System) (port addr n : ℕ) → Keeps (grow_table os port addr n)
unfolding grow_table
grow_table-Keeps os port addr n =
    by_option Keeps (allocate os n) _ _ refl (λ m e.
      from_answer-IsBuffer port addr (some m) n (os.table4_again n) (allocate-size os n m e))

answered-Keeps :
    (os : System) (port addr m s : ℕ) (a : Answer ℕ) → m ≡ s → Keeps (answered os port addr m s a)
unfolding answered
answered-Keeps os port addr m s (insufficient n) h = grow_table-Keeps os port addr n
answered-Keeps os port addr m s (rows rs) h = from_answer-IsBuffer port addr (some m) s (rows rs) h
answered-Keeps os port addr m s failed h = from_answer-IsBuffer port addr (some m) s failed h

first_table-IsBuffer :
    (os : System) (initial : ℕ) (table : Table) (size : ℕ) (m : ℕ)
    → IsBuffer table size
    → first_table os initial table size ≡ some m
    → m ≡ (if size == 0 then initial else size)
unfolding first_table allocate
first_table-IsBuffer os initial none size m h e = ground arith
first_table-IsBuffer os initial (some k) size m h e = ground arith

-- `GetPacketProcess` for IPv4 keeps its thread's table, whatever the system answers and whether or
-- not memory is left: from no table and size 0, or a buffer of just that size, it goes to no table
-- and size 0, or a buffer of just that size.
get_packet_process-IsBuffer :
    (os : System) (initial port addr : ℕ) (table : Table) (size : ℕ)
    → IsBuffer table size
    → Keeps (get_packet_process os initial port addr table size)
unfolding get_packet_process
get_packet_process-IsBuffer os initial port addr table size h =
    by_option Keeps (first_table os initial table size) _ _ refl (λ m e.
      answered-Keeps os port addr m (if size == 0 then initial else size) (os.table4 _)
        (first_table-IsBuffer os initial table size m h e))
