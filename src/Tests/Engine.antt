-- ===== src/Tests/Engine.antt =====
-- The engine, its acceptors and the C interface at concrete inputs.
use http_filtering_engine.Base.{
  ℕ, true, false, [], ◌∷◌, ◌≡◌, refl, codes, some, none, arith, subst, ◌+◌, ◌-◌,
}
use http_filtering_engine.Diversion.Lifecycle.{invalid, Handle, run, is_invalid}
use http_filtering_engine.Control.Acceptor.{
  client, failure, Acceptor, Listening, stop_accepting, Reach, here, next, handle, handle_accept,
  fresh_acceptor, new_acceptor, opened_acceptor, init_contexts,
}
use http_filtering_engine.Control.Acceptor.Loop.{
  stop_accepting-ends, stop_accepting-late, failed_accept-ends,
}
use http_filtering_engine.Control.Diverting.{new_diversion_control}
use http_filtering_engine.Control.Engine.{
  Engine, Meets, returned, thrown, start, start_http, start_https, start_diversion, start_threads,
  new_engine, map_option, stop_engine, engine_http_port, opened_of,
}
use http_filtering_engine.Control.Engine.Running.{IsMet}
use http_filtering_engine.Control.Engine.Cycle.{
  Diverts, Rests, start-Diverts, stop_engine-start, start-invalid,
}
use http_filtering_engine.Control.Process.{
  Process, Creation, fe_ctl_create, fe_ctl_start, fe_ctl_destroy, fe_ctl_destroy_unsafe,
  fe_ctl_is_running, ca_path, after_start, delete_engine, is_joinable,
}
use http_filtering_engine.Control.Process.Ends.{
  Used, created, started, fe_ctl_destroy-ends, fe_ctl_destroy_unsafe-cleans,
}

abbrev listening : ℕ → Listening
listening port = record { bound = some port; reuses = true; loads = true; flags_set = true }

abbrev well : Handle → Meets
well second = record {
  http_listening = λ _. listening 50000;
  https_listening = λ _. listening 50001;
  http_made = true;
  https_made = true;
  pid = 77;
  diversion_handle = Handle.handle 5;
  quic_block_handle = second;
  cores = 4;
  spawned = 8;
}

abbrev engine : Engine
engine = record {
  has_firewall_check = true;
  ca_bundle = codes "none";
  http_listener_port = 0;
  https_listener_port = 0;
  proxy_num_threads = 2;
  proxy_service_threads = 0;
  io_service = none;
  has_store = true;
  diversion_control = none;
  http_acceptor = none;
  https_acceptor = none;
  is_running = false;
}

engine-IsMet : (second : Handle) → IsMet (well second) engine 50000 50001 5 second
engine-IsMet second = record {
  stopped = refl;
  stored = refl;
  checked = refl;
  no_threads = refl;
  http_bound = refl;
  https_bound = refl;
  http_made = refl;
  https_made = refl;
  first = refl;
  second = refl;
  enough = omega arith;
}

start-Diverts_example :
    ((start (well (Handle.handle 6)) engine).1 ≡ returned)
    × Diverts 50000 50001 (start (well (Handle.handle 6)) engine).0
start-Diverts_example =
    start-Diverts (well (Handle.handle 6)) engine 50000 50001 5 (Handle.handle 6)
      (engine-IsMet (Handle.handle 6)) 6 refl (omega arith) (omega arith)

stop_engine-start_example :
    Rests [] (stop_engine true true (start (well (Handle.handle 6)) engine).0)
stop_engine-start_example =
    stop_engine-start (well (Handle.handle 6)) engine 50000 50001 5 (Handle.handle 6)
      (engine-IsMet (Handle.handle 6)) 6 refl tt tt (ground arith)

start-invalid_example :
    let e' = (start (well invalid) engine).0 in
    ((start (well invalid) engine).1 ≡ thrown)
    × (engine_http_port e' ≡ 0)
    × (stop_engine true true e' ≡ e')
    × (map_option (λ (p : Acceptor). p.pending) e'.http_acceptor ≡ some 1)
    × (map_option (λ (p : Acceptor). p.pending) e'.https_acceptor ≡ some 1)
    × (opened_of e'.diversion_control ≡ 5 ∷ [])
start-invalid_example =
    start-invalid (well invalid) engine 50000 50001 5 invalid (engine-IsMet invalid) refl

abbrev waiting : Acceptor
waiting = record (fresh_acceptor false (codes "none") 50000) { pending = 1 }

abbrev stopped_one : Acceptor
stopped_one = handle_accept failure true (record (stop_accepting true waiting) { ready = [] })

stop_accepting-ends_example : (stopped_one.pending ≡ 0) × (stopped_one.sessions ≡ 0)
unfolding stop_accepting
stop_accepting-ends_example =
    stop_accepting-ends waiting stopped_one refl
      (next here (handle failure true [] (stop_accepting true waiting) refl))

abbrev late : Acceptor
late = record (fresh_acceptor false (codes "none") 50000) { ready = client ∷ [] }

stop_accepting-late_example :
    (b : Acceptor) × Reach (stop_accepting true late) b × (b.pending ≡ 1) × (b.sessions ≡ 0 + 1)
stop_accepting-late_example = stop_accepting-late late refl refl refl

abbrev failed : Acceptor
failed = record (fresh_acceptor false (codes "none") 50000) { ready = failure ∷ [] }

failed_accept-ends_example :
    let b = handle_accept failure true (record failed { ready = [] }) in
    (b.pending ≡ 0) × (b.sessions ≡ 0) × (b.reports ≡ [])
failed_accept-ends_example =
    failed_accept-ends failed (handle_accept failure true (record failed { ready = [] })) refl refl
      (next here (handle failure true [] failed refl))

abbrev creation : Creation
creation = record {
  has_firewall_check = true;
  ca_bundle = none;
  ca_bundle_length = 0;
  http_listener_port = 0;
  https_listener_port = 0;
  num_thread = 2;
  hardware_concurrency = 8;
  wsa_starts = true;
  store_made = true;
  trusted = true;
}

abbrev process : Process
process = record { engine = none; wsa_startups = 0; is_terminated = false; errors = 0 }

abbrev made_process : Process
made_process = record process { engine = some engine; wsa_startups = 1 }

made_process_made : fe_ctl_create creation process ≡ made_process
unfolding fe_ctl_create ca_path new_engine
made_process_made = refl

made_process_used : Used made_process
made_process_used = subst Used made_process_made (created creation process refl)

abbrev busy : Process
busy = (fe_ctl_start (well (Handle.handle 6)) made_process).0

busy_used : Used busy
busy_used = started (well (Handle.handle 6)) made_process_used (λ e w. ground arith)

busy_there : busy.engine ≡ some (start (well (Handle.handle 6)) engine).0
unfolding fe_ctl_start after_start start start_http start_https start_diversion start_threads
    new_acceptor opened_acceptor init_contexts new_diversion_control run is_invalid
busy_there = refl

fe_ctl_destroy-ends_example : (fe_ctl_destroy busy).is_terminated ≡ fe_ctl_is_running busy
unfolding start start_http start_https start_diversion start_threads new_acceptor opened_acceptor
    init_contexts new_diversion_control run is_invalid
fe_ctl_destroy-ends_example =
    fe_ctl_destroy-ends busy (start (well (Handle.handle 6)) engine).0 busy_used busy_there
      (omega arith)

fe_ctl_destroy_unsafe-cleans_example :
    ((fe_ctl_destroy_unsafe true true busy).is_terminated ≡ false)
    × ((fe_ctl_destroy_unsafe true true busy).engine ≡ none)
    × ((fe_ctl_destroy_unsafe true true busy).wsa_startups ≡ busy.wsa_startups - 1)
fe_ctl_destroy_unsafe-cleans_example = fe_ctl_destroy_unsafe-cleans busy true true busy_used

-- The process is ended.
busy_destroyed : (fe_ctl_destroy busy).is_terminated ≡ true
unfolding fe_ctl_destroy delete_engine is_joinable fe_ctl_start after_start start start_http
    start_https start_diversion start_threads new_acceptor opened_acceptor init_contexts
    new_diversion_control run is_invalid
busy_destroyed = refl
