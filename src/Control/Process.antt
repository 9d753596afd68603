-- ===== src/Control/Process.antt =====
-- The C interface of src/te/httpengine/HttpFilteringEngineCAPI.cpp on Windows, for the one engine
-- of a process. A build without debug checks is taken: its asserts do nothing.
pub mod Ends
use http_filtering_engine.Base.{
  Bytes, ℕ, zero, suc, ◌+◌, ◌-◌, ◌%◌, Bool, true, false, not, ◌&&◌, ◌||◌, List, [], ◌∷◌,
  if◌then◌else◌, ltb, ◌==◌, Option, some, none, codes, is_empty, take,
}
use http_filtering_engine.Control.Engine.{
  Engine, Meets, Outcome, returned, thrown, terminated, has_threads, new_engine, start, stop_engine,
  engine_http_port, engine_https_port,
}

-- The pointer that the client has, if it is not null; how often Winsock was started and not cleaned
-- up; whether the process has been ended; and the errors that were reported.
pub record Process : Type 0 where
  pub engine : Option Engine
  pub wsa_startups : ℕ
  pub is_terminated : Bool
  pub errors : ℕ

-- What `fe_ctl_create` is given and meets. A path that is a null pointer is none.
pub record Creation : Type 0 where
  pub has_firewall_check : Bool
  pub ca_bundle : Option Bytes
  pub ca_bundle_length : ℕ
  pub http_listener_port : ℕ
  pub https_listener_port : ℕ
  pub num_thread : ℕ
  pub hardware_concurrency : ℕ
  pub wsa_starts : Bool
  pub store_made : Bool
  pub trusted : Bool

-- `caPath`. The path has at least as many bytes as are said.
unfoldable pub ca_path : Option Bytes → ℕ → Bytes
ca_path none length = codes "none"
ca_path (some path) length = if length == 0 then codes "none" else take length path

-- `fe_ctl_create`: the pointer is null where something fails.
unfoldable pub fe_ctl_create : Creation → Process → Process
unfolding ca_path
fe_ctl_create c p =
    if c.wsa_starts
    then record p {
      wsa_startups = p.wsa_startups + 1;
      engine =
          new_engine c.has_firewall_check (ca_path c.ca_bundle c.ca_bundle_length)
            c.http_listener_port c.https_listener_port
            (if c.num_thread == 0 then c.hardware_concurrency else c.num_thread) c.store_made
            c.trusted;
    }
    else record p { engine = none }

-- Whether an object with a thread that is not joined would be destroyed.
unfoldable pub is_joinable : Engine → Bool
is_joinable e = ltb 0 e.proxy_service_threads || has_threads e.diversion_control

-- `delete` of the engine: its destructor gives up the trust, and then the members are destroyed.
unfoldable pub delete_engine : Engine → Process → Process
unfolding is_joinable
delete_engine e p = record p { engine = none; is_terminated = p.is_terminated || is_joinable e }

-- `WSACleanup`.
abbrev wsa_cleanup : Process → Process
wsa_cleanup p = record p { wsa_startups = p.wsa_startups - 1 }

-- `fe_ctl_destroy`. Where the process is ended, nothing after it is done.
unfoldable pub fe_ctl_destroy : Process → Process
unfolding delete_engine
fe_ctl_destroy p = elim p.engine [
  | none ↦ wsa_cleanup p
  | some e ↦ let q = delete_engine e p in if q.is_terminated then q else wsa_cleanup q
]

-- `fe_ctl_destroy_unsafe`, given whether the cancels of a stop report no error.
unfoldable pub fe_ctl_destroy_unsafe : Bool → Bool → Process → Process
unfolding delete_engine stop_engine
fe_ctl_destroy_unsafe http_cancels https_cancels p = elim p.engine [
  | none ↦ wsa_cleanup p
  | some e ↦
      let e' = if e.is_running then stop_engine http_cancels https_cancels e else e in
      let q = delete_engine e' p in if q.is_terminated then q else wsa_cleanup q
]

-- The end of `fe_ctl_start`, by how `Start` ends.
unfoldable pub after_start : Outcome → Engine → Process → Process × Bool
after_start returned e p = (record p { engine = some e }, true)
after_start thrown e p = (record p { engine = some e; errors = p.errors + 1 }, false)
after_start terminated e p = (record p { engine = some e; is_terminated = true }, false)

-- `fe_ctl_start` and `fe_ctl_stop`.
unfoldable pub fe_ctl_start : Meets → Process → Process × Bool
unfolding start after_start
fe_ctl_start m p = elim p.engine [
  | none ↦ (p, false)
  | some e ↦ after_start (start m e).1 (start m e).0 p
]

unfoldable pub fe_ctl_stop : Bool → Bool → Process → Process
unfolding stop_engine
fe_ctl_stop http_cancels https_cancels p = elim p.engine [
  | none ↦ p
  | some e ↦ record p { engine = some (stop_engine http_cancels https_cancels e) }
]

unfoldable pub fe_ctl_is_running : Process → Bool
fe_ctl_is_running p = elim p.engine [ none ↦ false | some e ↦ e.is_running ]

-- The ports are cut to 16 bits.
unfoldable fe_ctl_get_http_listener_port : Process → ℕ
unfolding engine_http_port
fe_ctl_get_http_listener_port p = elim p.engine [ none ↦ 0 | some e ↦ engine_http_port e % 65536 ]

unfoldable fe_ctl_get_https_listener_port : Process → ℕ
unfolding engine_https_port
fe_ctl_get_https_listener_port p = elim p.engine [ none ↦ 0 | some e ↦ engine_https_port e % 65536 ]
