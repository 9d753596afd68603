-- ===== src/Diversion/Lifecycle.antt =====
-- `WinDiverter::Run` and `Stop`: the handles and threads of the diverter. What WinDivert and the
-- machine answer is a parameter; the parameters of the queue and the check of the filter's text
-- are left out.
pub mod Balance
use http_filtering_engine.Base.{ℕ, ◌+◌, Bool, true, false, not, ◌==◌, if◌then◌else◌, List, [], ◌∷◌}
use http_filtering_engine.Http.Headers.{keep}

-- A handle is null at first, the invalid one when an open fails or after a close, or an open one.
pub data Handle : Type 0 where
  null invalid : Handle
  handle : ℕ → Handle

-- `opened` has the handles that WinDivert has open for the program.
pub record Service : Type 0 where
  pub running : Bool
  pub threads : ℕ
  pub diversion_handle : Handle
  pub quic_block_handle : Handle
  pub opened : List ℕ

-- A handle that `WinDivertOpen` gives is open from then on.
unfoldable pub note_open : Handle → List ℕ → List ℕ
note_open null opened = opened
note_open invalid opened = opened
note_open (handle n) opened = n ∷ opened

unfoldable pub is_invalid : Handle → Bool
is_invalid null = false
is_invalid invalid = true
is_invalid (handle n) = false

-- The state once both handles were asked for.
unfoldable pub with_handles : Handle → Handle → Service → Service
unfolding note_open
with_handles d q s = record s {
  diversion_handle = d;
  quic_block_handle = q;
  opened = note_open q (note_open d s.opened);
}

-- `Run`, with what the two calls of `WinDivertOpen` give and the number of cores: the state, and
-- whether it returns without an exception. The members keep what was assigned before a throw.
unfoldable pub run : Handle → Handle → ℕ → Service → Service × Bool
unfolding with_handles is_invalid
run d q cores s =
    if s.running
    then (s, true)
    else if is_invalid d
    then (with_handles d q s, false)
    else if is_invalid q
    then (with_handles d q s, false)
    else (record (with_handles d q s) { running = true; threads = s.threads + cores }, true)

-- `WinDivertClose`, guarded by the tests of the handle.
unfoldable pub close : Handle → List ℕ → List ℕ
unfolding keep
close null opened = opened
close invalid opened = opened
close (handle n) opened = keep (λ m. not (m == n)) opened

-- The handle behind such a guard.
unfoldable pub after_close : Handle → Handle
after_close null = null
after_close invalid = invalid
after_close (handle n) = invalid

-- `Stop`. The threads are joined.
unfoldable pub stop : Service → Service
unfolding close after_close
stop s =
    if s.running
    then record s {
      running = false;
      threads = 0;
      diversion_handle = after_close s.diversion_handle;
      quic_block_handle = after_close s.quic_block_handle;
      opened = close s.quic_block_handle (close s.diversion_handle s.opened);
    }
    else s
