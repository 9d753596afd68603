-- ===== src/Control/Engine.antt =====
-- HttpFilteringEngineControl of src/te/httpengine/HttpFilteringEngineControl.cpp, with the diverter
-- that mitm/diversion/DiversionControl.cpp forwards to. Locks are left out: the calls of one engine
-- are taken one after another.
pub mod Running
pub mod Cycle
use http_filtering_engine.Base.{
  Bytes, ℕ, ◌+◌, ◌<◌, Bool, true, false, not, ◌&&◌, List, [], ◌∷◌, if◌then◌else◌, ltb, Option, some,
  none,
}
use http_filtering_engine.Diversion.State.{
  Diverter, new_diverter, set_http_listener_port, set_https_listener_port,
}
use http_filtering_engine.Diversion.Lifecycle.{Service, Handle, null, run, stop}
use http_filtering_engine.Control.Diverting.{
  DiversionControl, new_diversion_control, control_set_http_port, control_set_https_port,
  control_run, control_stop,
}
use http_filtering_engine.Control.Acceptor.{
  Acceptor, Listening, new_acceptor, accept_connections, stop_accepting,
}

-- The members. `io_service` is the service, if it was made, with whether it is stopped; `opened`
-- has the handles that WinDivert has open while there is no diverter.
pub record Engine : Type 0 where
  pub has_firewall_check : Bool
  pub ca_bundle : Bytes
  pub http_listener_port : ℕ
  pub https_listener_port : ℕ
  pub proxy_num_threads : ℕ
  pub proxy_service_threads : ℕ
  pub io_service : Option Bool
  pub has_store : Bool
  pub diversion_control : Option DiversionControl
  pub http_acceptor : Option Acceptor
  pub https_acceptor : Option Acceptor
  pub is_running : Bool

-- What one call of `Start` meets. The listeners are opened for the ports that are asked for;
-- `spawned` is how many threads can be made before one throws.
pub record Meets : Type 0 where
  pub http_listening : ℕ → Listening
  pub https_listening : ℕ → Listening
  pub http_made : Bool
  pub https_made : Bool
  pub pid : ℕ
  pub diversion_handle : Handle
  pub quic_block_handle : Handle
  pub cores : ℕ
  pub spawned : ℕ

-- How `Start` ends. The process ends where an object with threads is destroyed.
pub data Outcome : Type 0 where
  returned thrown terminated : Outcome

abbrev pub has_threads : Option DiversionControl → Bool
has_threads none = false
has_threads (some d) = ltb 0 d.service.threads

-- The handles that are open as a new diverter is made.
abbrev pub opened_of : Option DiversionControl → List ℕ
opened_of none = []
opened_of (some d) = d.service.opened

-- The loop that makes the threads, and the end.
unfoldable pub start_threads : Meets → Engine → Engine × Outcome
start_threads m e =
    if ltb m.spawned e.proxy_num_threads
    then (record e { proxy_service_threads = e.proxy_service_threads + m.spawned }, thrown)
    else (
      record e {
        proxy_service_threads = e.proxy_service_threads + e.proxy_num_threads;
        is_running = true;
      },
      returned,
    )

-- From the first `AcceptConnections` on. A new diverter takes the place of the old one.
unfoldable pub start_diversion : Meets → Acceptor → Acceptor → Engine → Engine × Outcome
start_diversion m http https e =
    let http' = (accept_connections m.http_made http).0 in
    let https' = (accept_connections m.https_made https).0 in
    let e' = record e { http_acceptor = some http'; https_acceptor = some https' } in
    elim (new_diversion_control m.pid e.has_firewall_check (opened_of e.diversion_control)) [
      | none ↦ (e', thrown)
      | some d ↦
          let ported = control_set_https_port https'.port (control_set_http_port http'.port d) in
          let r = control_run m.diversion_handle m.quic_block_handle m.cores ported in
          let e2 = record e' { diversion_control = some r.0 } in
          if has_threads e.diversion_control
          then (e', terminated)
          else if r.1
          then start_threads m e2
          else (e2, thrown)
    ]

-- The two acceptors. Each is there from its construction on.
unfoldable pub start_https : Meets → Acceptor → Engine → Engine × Outcome
start_https m http e =
    elim (new_acceptor true e.ca_bundle e.has_store (m.https_listening e.https_listener_port)) [
      | none ↦ (e, thrown)
      | some https ↦ start_diversion m http https (record e { https_acceptor = some https })
    ]

unfoldable pub start_http : Meets → Engine → Engine × Outcome
start_http m e =
    elim (new_acceptor false e.ca_bundle false (m.http_listening e.http_listener_port)) [
      | none ↦ (e, thrown)
      | some http ↦ start_https m http (record e { http_acceptor = some http })
    ]

-- `Start`.
unfoldable pub start : Meets → Engine → Engine × Outcome
start m e =
    if e.is_running then (e, returned) else start_http m (record e { io_service = some false })

abbrev pub map_option {ℓ κ} : {A : Type ℓ} {B : Type κ} → (A → B) → Option A → Option B
map_option f none = none
map_option f (some a) = some (f a)

-- `Stop`, given whether the two cancels report no error. The threads are joined.
unfoldable pub stop_engine : Bool → Bool → Engine → Engine
unfolding stop_accepting stop
stop_engine http_cancels https_cancels e =
    if e.is_running
    then record e {
      http_acceptor = map_option (stop_accepting http_cancels) e.http_acceptor;
      https_acceptor = map_option (stop_accepting https_cancels) e.https_acceptor;
      diversion_control = map_option control_stop e.diversion_control;
      io_service = map_option (λ _. true) e.io_service;
      proxy_service_threads = 0;
      is_running = false;
    }
    else e

abbrev port_of : Option Acceptor → ℕ
port_of none = 0
port_of (some a) = a.port

-- `GetHttpListenerPort` and `GetHttpsListenerPort`.
unfoldable pub engine_http_port : Engine → ℕ
engine_http_port e = if e.is_running then port_of e.http_acceptor else 0

unfoldable pub engine_https_port : Engine → ℕ
engine_https_port e = if e.is_running then port_of e.https_acceptor else 0

-- The constructor, given whether the store can be made and the system trusts it; none where it
-- throws.
unfoldable pub new_engine : Bool → Bytes → ℕ → ℕ → ℕ → Bool → Bool → Option Engine
new_engine has_firewall_check ca_bundle http https threads store_made trusted =
    if store_made && trusted
    then some (record {
      has_firewall_check = has_firewall_check;
      ca_bundle = ca_bundle;
      http_listener_port = http;
      https_listener_port = https;
      proxy_num_threads = threads;
      proxy_service_threads = 0;
      io_service = none;
      has_store = true;
      diversion_control = none;
      http_acceptor = none;
      https_acceptor = none;
      is_running = false;
    })
    else none
