-- ===== src/Diversion/Process.antt =====
-- WinDiverter.cpp, the process behind a packet: both GetPacketProcess and
-- GetPacketProcessBinaryPath. What Windows answers is a parameter.
use http_filtering_engine.Base.{
  Bytes, ℕ, ◌%◌, Bool, not, ◌==◌, ◌&&◌, if◌then◌else◌, List, [], ◌∷◌, Option, none, some, codes,
}
use http_filtering_engine.Http.State.{Severity, warning, error}
use http_filtering_engine.Diversion.State.{Words}

-- A row of the table of TCP connections, of `MIB_TCPTABLE2` or `MIB_TCP6TABLE2`.
pub record Row {ℓ} (A : Type ℓ) : Type ℓ where
  pub local_addr : A
  pub local_port : ℕ
  pub owning_pid : ℕ

-- What `GetTcpTable2` answers: the buffer is too small, and the size that it takes; the rows; or
-- another error.
pub data Answer {ℓ} (A : Type ℓ) : Type ℓ where
  insufficient : ℕ → Answer A
  rows : List (Row A) → Answer A
  failed : Answer A

-- What the system answers while one packet is handled: the tables on the first call and on the
-- second one, by the size of the buffer; `malloc`; `OpenProcess`; `QueryFullProcessImageNameA`; and
-- the client's firewall callback.
pub record System : Type 0 where
  pub table4 : ℕ → Answer ℕ
  pub table4_again : ℕ → Answer ℕ
  pub table6 : ℕ → Answer Words
  pub table6_again : ℕ → Answer Words
  pub malloc : ℕ → Bool
  pub open_process : ℕ → Bool
  pub image_name : ℕ → Option Bytes
  pub firewall_check : Bytes → Bool

-- The loop over the rows. The upper bits of the port may be junk.
unfoldable find_pid {ℓ} : {A : Type ℓ} → (A → Bool) → ℕ → List (Row A) → Option ℕ
find_pid same_addr port [] = none
find_pid same_addr port (row ∷ rest) =
    let later = find_pid same_addr port rest in
    if same_addr row.local_addr && row.local_port % 65536 == port
    then some row.owning_pid
    else later

-- The thread's table: `none` for a null pointer, or the size of the buffer.
abbrev pub Table : Type 0
Table = Option ℕ

-- The result of `GetPacketProcess`: the process, the table and its `currentTableSize` afterwards,
-- and the reports.
pub record Found : Type 0 where
  pub pid : ℕ
  pub table : Table
  pub size : ℕ
  pub reports : List Severity

unfoldable pub allocate : System → ℕ → Table
allocate os size = if os.malloc size then some size else none

-- The table before the first call: allocated when its size is still 0.
unfoldable pub first_table : System → ℕ → Table → ℕ → Table
unfolding allocate
first_table os initial table size = if size == 0 then allocate os initial else table

-- What follows the last call of `GetTcpTable2`; a size of 0 goes with a table that is freed.
unfoldable pub from_rows : Option ℕ → Table → ℕ → Found
from_rows (some pid) table size = record { pid = pid; table = table; size = size; reports = [] }
from_rows none table size = record { pid = 4; table = table; size = size; reports = warning ∷ [] }

unfoldable pub from_answer : ℕ → ℕ → Table → ℕ → Answer ℕ → Found
unfolding find_pid from_rows
from_answer port addr table size (rows rs) =
    from_rows (find_pid (λ a. a == addr) port rs) table size
from_answer port addr table size failed = record {
  pid = 4;
  table = none;
  size = 0;
  reports = error ∷ warning ∷ [];
}
from_answer port addr table size (insufficient n) = record {
  pid = 4;
  table = none;
  size = 0;
  reports = error ∷ warning ∷ [];
}

-- The second call, with a buffer of the size that the first one asked for.
unfoldable pub grow_table : System → ℕ → ℕ → ℕ → Found
unfolding allocate from_answer
grow_table os port addr n = elim (allocate os n) [
  | none ↦ record { pid = 0; table = none; size = 0; reports = error ∷ [] }
  | some m ↦ from_answer port addr (some m) n (os.table4_again n)
]

-- What follows the first call, with a table of `m` bytes and `currentTableSize` of `s`.
unfoldable pub answered : System → ℕ → ℕ → ℕ → ℕ → Answer ℕ → Found
unfolding grow_table from_answer
answered os port addr m s (insufficient n) = grow_table os port addr n
answered os port addr m s (rows rs) = from_answer port addr (some m) s (rows rs)
answered os port addr m s failed = from_answer port addr (some m) s failed

-- `GetPacketProcess` for IPv4. `initial` is `sizeof (MIB_TCPTABLE2)`.
unfoldable pub get_packet_process : System → ℕ → ℕ → ℕ → Table → ℕ → Found
unfolding first_table answered
get_packet_process os initial port addr table size =
    let s = if size == 0 then initial else size in
    elim (first_table os initial table size) [
      | none ↦ record { pid = 0; table = none; size = 0; reports = error ∷ [] }
      | some m ↦ answered os port addr m s (os.table4 s)
    ]

-- `GetPacketProcessBinaryPath`, empty when the path is not known. The report of the debug build is
-- left out.
unfoldable pub binary_path : System → ℕ → Bytes × List Severity
binary_path os pid =
    if pid == 4
    then (codes "SYSTEM", [])
    else if not (os.open_process pid)
    then ([], [])
    else elim (os.image_name pid) [ none ↦ ([], error ∷ []) | some name ↦ (name, []) ]

-- The IPv6 version: no warning, and 0 in place of 4. `memcmp` compares four bytes of the address.
unfoldable from_answer6 : ℕ → Words → Table → ℕ → Answer Words → Found
unfolding find_pid
from_answer6 port addr table size (rows rs) =
    elim (find_pid (λ (a : Words). a.word0 == addr.word0) port rs) [
      | some pid ↦ record { pid = pid; table = table; size = size; reports = [] }
      | none ↦ record { pid = 0; table = table; size = size; reports = [] }
    ]
from_answer6 port addr table size failed = record {
  pid = 0;
  table = none;
  size = 0;
  reports = error ∷ [];
}
from_answer6 port addr table size (insufficient n) = record {
  pid = 0;
  table = none;
  size = 0;
  reports = error ∷ [];
}

-- `GetPacketProcess` for IPv6. The test behind the second `malloc` is of another pointer, which is
-- never null, so the second call is made whether or not the table was allocated.
unfoldable pub get_packet_process6 : System → ℕ → ℕ → Words → Table → ℕ → Found
unfolding first_table allocate from_answer6
get_packet_process6 os initial port addr table size =
    let s = if size == 0 then initial else size in
    elim (first_table os initial table size) [
      | none ↦ record { pid = 0; table = none; size = 0; reports = error ∷ [] }
      | some m ↦ elim (os.table6 s) [
        | insufficient n ↦ from_answer6 port addr (allocate os n) n (os.table6_again n)
        | rows rs ↦ from_answer6 port addr (some m) s (rows rs)
        | failed ↦ from_answer6 port addr (some m) s failed
      ]
    ]
