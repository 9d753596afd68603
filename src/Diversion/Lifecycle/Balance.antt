-- ===== src/Diversion/Lifecycle/Balance.antt =====
-- `Run` followed by `Stop`.
use http_filtering_engine.Base.{
  ℕ, ◌+◌, true, false, not, ◌==◌, if◌then◌else◌, List, [], ◌∷◌, ◌≡◌, ◌≢◌, refl, ap, ◌∙◌, All, arith,
}
use http_filtering_engine.Http.Headers.{keep}
use http_filtering_engine.Diversion.Lifecycle.{
  invalid, handle, Service, note_open, is_invalid, with_handles, run, close, after_close, stop,
}

-- A handle that is not among the open ones.
abbrev pub IsFresh : ℕ → List ℕ → Type 0
IsFresh n opened = All (λ m. m ≢ n) opened

keep-IsFresh :
    (n : ℕ) (opened : List ℕ) → IsFresh n opened → keep (λ m. not (m == n)) opened ≡ opened
unfolding keep
keep-IsFresh n [] h = refl
keep-IsFresh n (m ∷ opened) h = ground (arith, keep-IsFresh n opened h.1)

close-note_open :
    (a b : ℕ) (opened : List ℕ)
    → IsFresh a opened
    → IsFresh b opened
    → a ≢ b
    → close (handle b) (close (handle a) (b ∷ a ∷ opened)) ≡ opened
unfolding close keep
close-note_open a b opened h k n = ground (arith, keep-IsFresh a opened h, keep-IsFresh b opened k)

-- The state of a diverter that started.
abbrev started : ℕ → ℕ → ℕ → Service → Service
started a b cores s = record s {
  running = true;
  threads = s.threads + cores;
  diversion_handle = handle a;
  quic_block_handle = handle b;
  opened = b ∷ a ∷ s.opened;
}

run-started :
    (a b cores : ℕ) (s : Service)
    → s.running ≡ false
    → run (handle a) (handle b) cores s ≡ (started a b cores s, true)
unfolding run with_handles note_open is_invalid
run-started a b cores s r = ap (λ b'. if b' then (s, true) else (started a b cores s, true)) r

stop-started :
    (a b cores : ℕ) (s : Service)
    → IsFresh a s.opened
    → IsFresh b s.opened
    → a ≢ b
    → stop (started a b cores s) ≡ record s {
      running = false;
      threads = 0;
      diversion_handle = invalid;
      quic_block_handle = invalid;
    }
unfolding stop after_close
stop-started a b cores s h k n =
    ap
      (λ opened. record s {
        running = false;
        threads = 0;
        diversion_handle = invalid;
        quic_block_handle = invalid;
        opened = opened;
      })
      (close-note_open a b s.opened h k n)

-- A stopped diverter without threads, given two distinct handles that were not open, starts, with a
-- thread for each core, and `Stop` then closes both handles and nothing else: it is stopped without
-- threads, its handles are invalid, and the same handles are open as before the start.
pub stop-run :
    (a b cores : ℕ) (s : Service)
    → s.running ≡ false
    → s.threads ≡ 0
    → IsFresh a s.opened
    → IsFresh b s.opened
    → a ≢ b
    → ((run (handle a) (handle b) cores s).1 ≡ true)
      × ((run (handle a) (handle b) cores s).0.running ≡ true)
      × ((run (handle a) (handle b) cores s).0.threads ≡ cores)
      × (stop (run (handle a) (handle b) cores s).0 ≡ record s {
        running = false;
        threads = 0;
        diversion_handle = invalid;
        quic_block_handle = invalid;
      })
stop-run a b cores s r t h k n =
    rw (run-started a b cores s r)
      (refl, refl, ap (λ m. m + cores) t ∙ omega arith, stop-started a b cores s h k n)

-- When a stopped diverter's second handle fails to open, `Run` throws, and the first handle is
-- still open after `Stop`.
stop-run_leaks :
    (a cores : ℕ) (s : Service)
    → s.running ≡ false
    → (run (handle a) invalid cores s).1 ≡ false
      × ((stop (run (handle a) invalid cores s).0).opened ≡ a ∷ s.opened)
unfolding run stop with_handles note_open is_invalid
stop-run_leaks a cores s r = ground arith
