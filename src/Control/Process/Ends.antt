-- ===== src/Control/Process/Ends.antt =====
-- How the C interface of HttpFilteringEngineCAPI.cpp leaves the process.
use http_filtering_engine.Base.{
  Bytes, ℕ, ◌-◌, ◌<◌, ◌≤◌, Bool, true, false, ◌&&◌, if◌then◌else◌, Option, some, none, ◌≡◌, ◌≢◌,
  refl, subst, arith,
}
use http_filtering_engine.Diversion.Lifecycle.{run, stop, with_handles, is_invalid}
use http_filtering_engine.Http.Results.{by_test, by_if, by_option}
use http_filtering_engine.Control.Acceptor.{Acceptor, new_acceptor}
use http_filtering_engine.Control.Diverting.{DiversionControl, new_diversion_control}
use http_filtering_engine.Control.Engine.{
  Engine, Meets, Outcome, returned, thrown, terminated, has_threads, new_engine, start, start_http,
  start_https, start_diversion, start_threads, stop_engine, map_option,
}
use http_filtering_engine.Control.Process.{
  Process, Creation, fe_ctl_create, fe_ctl_destroy, fe_ctl_destroy_unsafe, fe_ctl_start,
  fe_ctl_stop, fe_ctl_is_running, after_start, is_joinable, delete_engine,
}

-- A split on an option.
by_either {ℓ} :
    {A B : Type 0} (P : B → Type ℓ) (o : Option A) (x : B) (f : A → B)
    → P x
    → ((a : A) → P (f a))
    → P (elim o [ none ↦ x | some a ↦ f a ])
by_either P none x f h k = h
by_either P (some a) x f h k = k a

some_inj : {A : Type 0} {a b : A} → some a ≡ some b → a ≡ b
some_inj e = cc

-- A diverter that is stopped has no threads.
abbrev DiverterRests : Option DiversionControl → Type 0
DiverterRests none = Unit
DiverterRests (some d) = d.service.running ≡ false → d.service.threads ≡ 0

stop-DiverterRests :
    (o : Option DiversionControl)
    → DiverterRests o
    → let stopped =
        map_option (λ (d : DiversionControl). record d { service = stop d.service }) o in
      DiverterRests stopped × (has_threads stopped ≡ false)
unfolding stop
stop-DiverterRests none h = (tt, refl)
stop-DiverterRests (some d) h = ground (arith, h)

-- Threads run exactly while the engine does.
pub record IsOrderly (e : Engine) : Type 0 where
  pub at_rest :
      e.is_running ≡ false
      → (e.proxy_service_threads ≡ 0) × (has_threads e.diversion_control ≡ false)
  pub diverter : DiverterRests e.diversion_control
  pub at_work : e.is_running ≡ true → e.proxy_service_threads ≡ e.proxy_num_threads

-- Every call of `Start` can make its threads.
abbrev pub Enough : Meets → Engine → Type 0
Enough m e = e.proxy_num_threads ≤ m.spawned

-- `Start` leaves such an engine, and the process alive.
abbrev GoesWell : Engine × Outcome → Type 0
GoesWell s = IsOrderly s.0 × (s.1 ≢ terminated)

start_diversion-GoesWell :
    (m : Meets) (http https : Acceptor) (e : Engine)
    → Enough m e
    → e.is_running ≡ false
    → IsOrderly e
    → GoesWell (start_diversion m http https e)
unfolding start_diversion start_threads new_diversion_control run with_handles is_invalid
start_diversion-GoesWell m http https e n r o =
    (ground (arith, o.at_rest, o.at_work), ground (arith, o.at_rest))

start_https-GoesWell :
    (m : Meets) (http : Acceptor) (e : Engine)
    → Enough m e
    → e.is_running ≡ false
    → IsOrderly e
    → GoesWell (start_https m http e)
unfolding start_https
start_https-GoesWell m http e n r o =
    by_either GoesWell
      (new_acceptor true e.ca_bundle e.has_store (m.https_listening e.https_listener_port)) _ _
      (o, λ h. cc)
      λ https.
        start_diversion-GoesWell m http https (record e { https_acceptor = some https }) n r
          (record { at_rest = o.at_rest; diverter = o.diverter; at_work = o.at_work })

start_http-GoesWell :
    (m : Meets) (e : Engine)
    → Enough m e
    → e.is_running ≡ false
    → IsOrderly e
    → GoesWell (start_http m e)
unfolding start_http
start_http-GoesWell m e n r o =
    by_either GoesWell
      (new_acceptor false e.ca_bundle false (m.http_listening e.http_listener_port)) _ _
      (o, λ h. cc)
      λ http.
        start_https-GoesWell m http (record e { http_acceptor = some http }) n r
          (record { at_rest = o.at_rest; diverter = o.diverter; at_work = o.at_work })

start-GoesWell : (m : Meets) (e : Engine) → Enough m e → IsOrderly e → GoesWell (start m e)
unfolding start
start-GoesWell m e n o =
    by_test GoesWell e.is_running _ _ (λ _. (o, λ h. cc))
      λ r.
        start_http-GoesWell m (record e { io_service = some false }) n r
          (record { at_rest = o.at_rest; diverter = o.diverter; at_work = o.at_work })

stop_engine-IsOrderly : (x y : Bool) (e : Engine) → IsOrderly e → IsOrderly (stop_engine x y e)
unfolding stop_engine
stop_engine-IsOrderly x y e o =
    let d = stop-DiverterRests e.diversion_control o.diverter in
    by_if IsOrderly e.is_running _ _
      (record { at_rest = λ _. (refl, d.1); diverter = d.0; at_work = λ h. cc }) o

-- What every engine that the interface has given out satisfies.
pub record IsSound (p : Process) : Type 0 where
  pub alive : p.is_terminated ≡ false
  pub orderly : (e : Engine) → p.engine ≡ some e → IsOrderly e

-- A process that has created an engine, and started and stopped it as often as it likes; whenever
-- it starts it, its threads can be made.
pub data Used : Process → Type 0 where
  created : (c : Creation) (p : Process) → p.is_terminated ≡ false → Used (fe_ctl_create c p)
  started :
      {p : Process} (m : Meets)
      → Used p
      → ((e : Engine) → p.engine ≡ some e → Enough m e)
      → Used (fe_ctl_start m p).0
  stopped : {p : Process} (x y : Bool) → Used p → Used (fe_ctl_stop x y p)

new_engine-IsOrderly :
    (f : Bool) (ca : Bytes) (http https n : ℕ) (made trusted : Bool) (e : Engine)
    → new_engine f ca http https n made trusted ≡ some e
    → IsOrderly e
unfolding new_engine
new_engine-IsOrderly f ca http https n made trusted =
    by_if (λ o. (e : Engine) → o ≡ some e → IsOrderly e) (made && trusted) _ _
      (λ e w.
        subst IsOrderly (some_inj w)
          (record { at_rest = λ _. (refl, refl); diverter = tt; at_work = λ h. cc }))
      (λ e w. absurd (cc))

create-IsSound :
    (c : Creation) (p : Process) → p.is_terminated ≡ false → IsSound (fe_ctl_create c p)
unfolding fe_ctl_create
create-IsSound c p a =
    by_if IsSound c.wsa_starts _ _
      (record { alive = a; orderly = new_engine-IsOrderly _ _ _ _ _ _ _ })
      (record { alive = a; orderly = λ e w. absurd (cc) })

after_start-IsSound :
    (o : Outcome) (e : Engine) (p : Process)
    → p.is_terminated ≡ false
    → o ≢ terminated
    → IsOrderly e
    → IsSound (after_start o e p).0
unfolding after_start
after_start-IsSound returned e p a n o = record {
  alive = a;
  orderly = λ e' w. subst IsOrderly (some_inj w) o;
}
after_start-IsSound thrown e p a n o = record {
  alive = a;
  orderly = λ e' w. subst IsOrderly (some_inj w) o;
}
after_start-IsSound terminated e p a n o = absurd (n refl)

stop-IsSound : (x y : Bool) (p : Process) → IsSound p → IsSound (fe_ctl_stop x y p)
unfolding fe_ctl_stop
stop-IsSound x y p s =
    by_option (λ q. IsSound q) p.engine _ _ (λ _. s)
      λ e w. record {
        alive = s.alive;
        orderly =
            λ e' f. subst IsOrderly (some_inj f) (stop_engine-IsOrderly x y e (s.orderly e w));
      }

start-IsSound :
    (m : Meets) (p : Process)
    → ((e : Engine) → p.engine ≡ some e → Enough m e)
    → IsSound p
    → IsSound (fe_ctl_start m p).0
unfolding fe_ctl_start
start-IsSound m p n s =
    by_option (λ (q : Process × Bool). IsSound q.0) p.engine _ _ (λ _. s)
      λ e w.
        let g = start-GoesWell m e (n e w) (s.orderly e w) in
        after_start-IsSound (start m e).1 (start m e).0 p s.alive g.1 g.0

Used-IsSound : {p : Process} → Used p → IsSound p
Used-IsSound (created c p a) = create-IsSound c p a
Used-IsSound (started m u n) = start-IsSound m _ n (Used-IsSound u)
Used-IsSound (stopped x y u) = stop-IsSound x y _ (Used-IsSound u)

-- In a process that created an engine and then started and stopped it in any order, each start with
-- enough threads to be had, an engine of at least one thread is destroyed by `fe_ctl_destroy`
-- without ending the process just if it is not running.
pub fe_ctl_destroy-ends :
    (p : Process) (e : Engine)
    → Used p
    → p.engine ≡ some e
    → 0 < e.proxy_num_threads
    → (fe_ctl_destroy p).is_terminated ≡ fe_ctl_is_running p
unfolding fe_ctl_destroy fe_ctl_is_running delete_engine is_joinable
fe_ctl_destroy-ends p e u w n =
    let s = Used-IsSound u in
    let o = s.orderly e w in rw w (ground (arith, s.alive, o.at_rest, o.at_work))

resting : (e : Engine) → IsOrderly e → e.is_running ≡ false → is_joinable e ≡ false
unfolding is_joinable
resting e o r = ground (arith, o.at_rest)

stop_engine-rests : (x y : Bool) (e : Engine) → (stop_engine x y e).is_running ≡ false
unfolding stop_engine
stop_engine-rests x y e = ground arith

stopped_first :
    (x y : Bool) (e : Engine)
    → IsOrderly e
    → is_joinable (if e.is_running then stop_engine x y e else e) ≡ false
stopped_first x y e o =
    by_test (λ e'. is_joinable e' ≡ false) e.is_running _ _
      (λ _. resting (stop_engine x y e) (stop_engine-IsOrderly x y e o) (stop_engine-rests x y e))
      (λ r. resting e o r)

-- In such a process `fe_ctl_destroy_unsafe`, whether the engine runs or not, does not end the
-- process, and leaves no engine and one start of Winsock less.
pub fe_ctl_destroy_unsafe-cleans :
    (p : Process) (x y : Bool)
    → Used p
    → ((fe_ctl_destroy_unsafe x y p).is_terminated ≡ false)
      × ((fe_ctl_destroy_unsafe x y p).engine ≡ none)
      × ((fe_ctl_destroy_unsafe x y p).wsa_startups ≡ p.wsa_startups - 1)
unfolding fe_ctl_destroy_unsafe delete_engine
fe_ctl_destroy_unsafe-cleans p x y u =
    let s = Used-IsSound u in
    by_option
      (λ (q : Process).
        (q.is_terminated ≡ false) × (q.engine ≡ none) × (q.wsa_startups ≡ p.wsa_startups - 1))
      p.engine _ _ (λ w. (s.alive, w, refl))
      λ e w. rw (s.alive, stopped_first x y e (s.orderly e w)) (refl, refl, refl)
