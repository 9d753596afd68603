-- ===== src/Control/Engine/Cycle.antt =====
-- What calls of Start and Stop of HttpFilteringEngineControl.cpp come to.
use http_filtering_engine.Base.{
  ℕ, ◌<◌, true, false, List, [], ◌∷◌, some, ◌≡◌, ◌≢◌, refl, ap, ◌∙◌, arith, ltb,
}
use http_filtering_engine.Diversion.State.{
  htons, new_diverter, get_http_listener_port, get_https_listener_port, set_http_listener_port,
  set_https_listener_port,
}
use http_filtering_engine.Diversion.Translation.{get_listener_port-set}
use http_filtering_engine.Diversion.Lifecycle.{
  Service, Handle, invalid, handle, run, with_handles, note_open, is_invalid,
}
use http_filtering_engine.Diversion.Lifecycle.Balance.{IsFresh, stop-run}
use http_filtering_engine.Control.Acceptor.{Acceptor, accept_connections, stop_accepting}
use http_filtering_engine.Control.Acceptor.New.{opened_acceptor-IsNew, accept_connections-IsNew}
use http_filtering_engine.Control.Diverting.{DiversionControl}
use http_filtering_engine.Control.Engine.{
  Engine, Meets, returned, thrown, has_threads, opened_of, start, map_option, stop_engine,
  engine_http_port, engine_https_port,
}
use http_filtering_engine.Control.Engine.Running.{
  IsMet, running_engine, http_there, https_there, refused, start-started, start-refused,
  fresh_service,
}

-- The diverter sends to the ports, and the engine says that it listens there.
pub record Diverts (http https : ℕ) (e : Engine) : Type 0 where
  pub running : e.is_running ≡ true
  pub http_port : engine_http_port e ≡ http
  pub https_port : engine_https_port e ≡ https
  pub http_accepts : map_option (λ (a : Acceptor). a.pending) e.http_acceptor ≡ some 1
  pub https_accepts : map_option (λ (a : Acceptor). a.pending) e.https_acceptor ≡ some 1
  pub http_diverted :
      map_option (λ (d : DiversionControl). get_http_listener_port d.diverter) e.diversion_control
      ≡ some http
  pub https_diverted :
      map_option (λ (d : DiversionControl). get_https_listener_port d.diverter) e.diversion_control
      ≡ some https
  pub diverter_runs :
      map_option (λ (d : DiversionControl). d.service.running) e.diversion_control ≡ some true

-- Nothing of the engine is left at work.
pub record Rests (opened : List ℕ) (e : Engine) : Type 0 where
  pub running : e.is_running ≡ false
  pub threads : e.proxy_service_threads ≡ 0
  pub http_port : engine_http_port e ≡ 0
  pub https_port : engine_https_port e ≡ 0
  pub http_accepts : map_option (λ (a : Acceptor). a.pending) e.http_acceptor ≡ some 0
  pub https_accepts : map_option (λ (a : Acceptor). a.pending) e.https_acceptor ≡ some 0
  pub no_threads : has_threads e.diversion_control ≡ false
  pub handles : opened_of e.diversion_control ≡ opened

stopped-port : (e : Engine) → e.is_running ≡ false → engine_http_port e ≡ 0
unfolding engine_http_port
stopped-port e r = ground arith

stopped-stop_engine : (e : Engine) → e.is_running ≡ false → stop_engine true true e ≡ e
unfolding stop_engine
stopped-stop_engine e r = ground arith

-- An acceptor at the port that waits for its first client.
abbrev Waits : ℕ → Acceptor → Type 0
Waits port a = (a.port ≡ port) × (a.pending ≡ 1) × (a.ready ≡ [])

running_engine-Diverts :
    (m : Meets) (a b http https : ℕ) (p q : Acceptor) (e : Engine)
    → Waits http p
    → Waits https q
    → http < 65536
    → https < 65536
    → Diverts http https (running_engine m a (handle b) p q e)
unfolding engine_http_port engine_https_port run is_invalid get_http_listener_port
    set_http_listener_port get_https_listener_port set_https_listener_port
running_engine-Diverts m a b http https p q e v w h k =
    let d = new_diverter m.pid in
    let one = (get_listener_port-set http d h).0 in
    let two = (get_listener_port-set https d k).1 in
    record {
      running = refl;
      http_port = v.0;
      https_port = w.0;
      http_accepts = ap some v.1;
      https_accepts = ap some w.1;
      http_diverted = ap some (ap (λ n. htons (htons n)) v.0 ∙ one);
      https_diverted = ap some (ap (λ n. htons (htons n)) w.0 ∙ two);
      diverter_runs = refl;
    }

running_engine-Rests :
    (m : Meets) (a b http https : ℕ) (p q : Acceptor) (e : Engine)
    → Waits http p
    → Waits https q
    → e.is_running ≡ false
    → IsFresh a (opened_of e.diversion_control)
    → IsFresh b (opened_of e.diversion_control)
    → a ≢ b
    → Rests
        (opened_of e.diversion_control)
        (stop_engine true true (running_engine m a (handle b) p q e))
unfolding engine_http_port engine_https_port stop_engine stop_accepting
running_engine-Rests m a b http https p q e v w r x y n =
    let opened = opened_of e.diversion_control in
    let s = stop-run a b m.cores (fresh_service opened) refl refl x y n in
    record {
      running = refl;
      threads = refl;
      http_port = refl;
      https_port = refl;
      http_accepts = refl;
      https_accepts = refl;
      no_threads = ap (λ (t : Service). ltb 0 t.threads) s.3;
      handles = ap (λ (t : Service). t.opened) s.3;
    }

module _ (m : Meets) (e : Engine) (http https a : ℕ) (q : Handle)
    (w : IsMet m e http https a q) where
  http_there-Waits : Waits http (accept_connections true (http_there m e http https a q w)).0
  http_there-Waits =
      accept_connections-IsNew http _
        (opened_acceptor-IsNew false e.ca_bundle false (m.http_listening e.http_listener_port) http)

  https_there-Waits : Waits https (accept_connections true (https_there m e http https a q w)).0
  https_there-Waits = accept_connections-IsNew https _ (
      opened_acceptor-IsNew true e.ca_bundle e.has_store (m.https_listening e.https_listener_port)
        https)

  -- A start that nothing hinders puts the proxy to work. The engine is stopped and has its store, a
  -- firewall callback and no threads left; both listeners get 16-bit ports, both acceptors make
  -- their first bridge, WinDivert gives both handles, and the threads can be made. Then `Start`
  -- returns, the engine runs, and it says that it listens on the two ports; each acceptor waits for
  -- one client; and the diverter runs and sends to these two ports.
  pub start-Diverts :
      (b : ℕ)
      → q ≡ handle b
      → http < 65536
      → https < 65536
      → ((start m e).1 ≡ returned) × Diverts http https (start m e).0
  start-Diverts b same h k =
      rw (start-started m e http https a q w b same, same)
        (refl, running_engine-Diverts m a b http https _ _ e http_there-Waits https_there-Waits h k)

  -- `Stop` undoes such a start, if neither cancel reports an error and WinDivert's two handles are
  -- distinct and were not open: nothing runs, the proxy's and the diverter's threads are joined,
  -- the ports are 0, no accept is waiting, and the same handles are open as before.
  pub stop_engine-start :
      (b : ℕ)
      → q ≡ handle b
      → IsFresh a (opened_of e.diversion_control)
      → IsFresh b (opened_of e.diversion_control)
      → a ≢ b
      → Rests (opened_of e.diversion_control) (stop_engine true true (start m e).0)
  stop_engine-start b same x y n =
      rw (start-started m e http https a q w b same, same)
        (running_engine-Rests m a b http https _ _ e http_there-Waits https_there-Waits w.stopped x
          y n)

  -- When such a start fails because WinDivert does not give the second handle, `Start` throws and
  -- the engine says that it has no port and does not run, so `Stop` changes nothing; but both
  -- acceptors go on waiting for clients, and the first handle stays open.
  pub start-invalid :
      q ≡ invalid
      → let e' = (start m e).0 in
        ((start m e).1 ≡ thrown)
        × (engine_http_port e' ≡ 0)
        × (stop_engine true true e' ≡ e')
        × (map_option (λ (p : Acceptor). p.pending) e'.http_acceptor ≡ some 1)
        × (map_option (λ (p : Acceptor). p.pending) e'.https_acceptor ≡ some 1)
        × (opened_of e'.diversion_control ≡ a ∷ opened_of e.diversion_control)
  unfolding run is_invalid with_handles note_open
  start-invalid same = rw (start-refused m e http https a q w same) (
    refl,
    stopped-port (refused m e http https a q w) w.stopped,
    stopped-stop_engine (refused m e http https a q w) w.stopped,
    ap some http_there-Waits.1,
    ap some https_there-Waits.1,
    ap (λ r. (run (handle a) r m.cores (fresh_service (opened_of e.diversion_control))).0.opened)
        same,
  )
