-- ===== src/Control/Engine/Running.antt =====
-- A call of Start of HttpFilteringEngineControl.cpp whose listeners get their ports.
use http_filtering_engine.Base.{
  ℕ, ◌+◌, ◌≤◌, Bool, true, false, List, if◌then◌else◌, ltb, some, ◌≡◌, refl, ap, ap₂, ◌∙◌, arith,
}
use http_filtering_engine.Diversion.State.{
  new_diverter, set_http_listener_port, set_https_listener_port,
}
use http_filtering_engine.Diversion.Lifecycle.{
  Service, Handle, null, invalid, handle, run, is_invalid,
}
use http_filtering_engine.Control.Acceptor.{Acceptor, opened_acceptor, accept_connections}
use http_filtering_engine.Control.Acceptor.New.{new_acceptor_lem}
use http_filtering_engine.Control.Diverting.{new_diversion_control}
use http_filtering_engine.Control.Engine.{
  Engine, Meets, returned, thrown, has_threads, opened_of, start_threads, start_diversion,
  start_https, start_http, start,
}

-- A stopped engine, and a start that nothing hinders: the listeners get the ports, WinDivert gives
-- the first handle, and the second one as given.
pub record IsMet (m : Meets) (e : Engine) (http https a : ℕ) (q : Handle) : Type 0 where
  pub stopped : e.is_running ≡ false
  pub stored : e.has_store ≡ true
  pub checked : e.has_firewall_check ≡ true
  pub no_threads : has_threads e.diversion_control ≡ false
  pub http_bound : (m.http_listening e.http_listener_port).bound ≡ some http
  pub https_bound : (m.https_listening e.https_listener_port).bound ≡ some https
  pub http_made : m.http_made ≡ true
  pub https_made : m.https_made ≡ true
  pub first : m.diversion_handle ≡ handle a
  pub second : m.quic_block_handle ≡ q
  pub enough : e.proxy_num_threads ≤ m.spawned

abbrev pub fresh_service : List ℕ → Service
fresh_service opened = record {
  running = false;
  threads = 0;
  diversion_handle = null;
  quic_block_handle = null;
  opened = opened;
}

new_diversion_control_lem :
    (pid : ℕ) (c : Bool) (opened : List ℕ)
    → c ≡ true
    → new_diversion_control pid c opened
      ≡ some (record { diverter = new_diverter pid; service = fresh_service opened })
unfolding new_diversion_control
new_diversion_control_lem pid c opened h = rw (h, new_diversion_control) refl

-- The engine that a start leaves, from its two acceptors.
abbrev pub running_engine : Meets → ℕ → Handle → Acceptor → Acceptor → Engine → Engine
running_engine m a q http https e = record e {
  io_service = some false;
  http_acceptor = some http;
  https_acceptor = some https;
  diversion_control = some (record {
    diverter =
        set_https_listener_port https.port (set_http_listener_port http.port (new_diverter m.pid));
    service = (run (handle a) q m.cores (fresh_service (opened_of e.diversion_control))).0;
  });
  proxy_service_threads = e.proxy_service_threads + e.proxy_num_threads;
  is_running = true;
}

module _ (m : Meets) (e : Engine) (http https a : ℕ) (q : Handle)
    (w : IsMet m e http https a q) where
  abbrev pub http_there : Acceptor
  http_there = opened_acceptor false e.ca_bundle false (m.http_listening e.http_listener_port) http

  abbrev pub https_there : Acceptor
  https_there =
      opened_acceptor true e.ca_bundle e.has_store (m.https_listening e.https_listener_port) https

  abbrev begun : Engine
  begun = record e {
    io_service = some false;
    http_acceptor = some http_there;
    https_acceptor = some https_there;
  }

  -- The engine that starts, and the one whose diverter does not.
  abbrev pub started : Engine
  started =
      running_engine m a q (accept_connections true http_there).0
        (accept_connections true https_there).0 e

  abbrev pub refused : Engine
  refused = record started {
    proxy_service_threads = e.proxy_service_threads;
    is_running = e.is_running;
  }

  diversion_started :
      (b : ℕ) → q ≡ handle b → start_diversion m http_there https_there begun ≡ (started, returned)
  unfolding start_diversion start_threads run is_invalid
  diversion_started b same =
      let ha = ap (λ made. accept_connections made http_there) w.http_made in
      let hb = ap (λ made. accept_connections made https_there) w.https_made in
      let d =
        new_diversion_control_lem m.pid e.has_firewall_check (opened_of e.diversion_control)
          w.checked in
      let t : ltb m.spawned e.proxy_num_threads ≡ false = ground (arith, w.enough) in
      let r =
        ap₂ (λ x y. run x y m.cores (fresh_service (opened_of e.diversion_control))) w.first
          (w.second ∙ same) in
      rw (same, start_diversion, d, w.no_threads, r, run, ha, hb, start_threads, t) refl

  diversion_refused :
      q ≡ invalid → start_diversion m http_there https_there begun ≡ (refused, thrown)
  unfolding start_diversion run is_invalid
  diversion_refused same =
      let ha = ap (λ made. accept_connections made http_there) w.http_made in
      let hb = ap (λ made. accept_connections made https_there) w.https_made in
      let d =
        new_diversion_control_lem m.pid e.has_firewall_check (opened_of e.diversion_control)
          w.checked in
      let r =
        ap₂ (λ x y. run x y m.cores (fresh_service (opened_of e.diversion_control))) w.first
          (w.second ∙ same) in
      rw (same, start_diversion, d, w.no_threads, r, run, ha, hb) refl

  start_https_lem :
      start_https m http_there
        (record e { io_service = some false; http_acceptor = some http_there })
      ≡ start_diversion m http_there https_there begun
  unfolding start_https
  start_https_lem =
      rw
        (
          start_https,
          new_acceptor_lem true e.ca_bundle e.has_store (m.https_listening e.https_listener_port)
              https w.https_bound (ground (arith, w.stored)),
        )
        refl

  start_http_lem :
      start_http m (record e { io_service = some false })
      ≡ start_https m http_there
          (record e { io_service = some false; http_acceptor = some http_there })
  unfolding start_http
  start_http_lem =
      rw
        (
          start_http,
          new_acceptor_lem false e.ca_bundle false (m.http_listening e.http_listener_port) http
              w.http_bound refl,
        )
        refl

  begins : start m e ≡ start_diversion m http_there https_there begun
  unfolding start
  begins =
      ap (λ r. if r then (e, returned) else start_http m (record e { io_service = some false }))
        w.stopped
      ∙ (start_http_lem ∙ start_https_lem)

  pub start-started : (b : ℕ) → q ≡ handle b → start m e ≡ (started, returned)
  start-started b same = begins ∙ diversion_started b same

  pub start-refused : q ≡ invalid → start m e ≡ (refused, thrown)
  start-refused same = begins ∙ diversion_refused same
