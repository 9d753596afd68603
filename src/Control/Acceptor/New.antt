-- ===== src/Control/Acceptor/New.antt =====
-- What the constructor of TlsCapableHttpAcceptor.hpp leaves.
use http_filtering_engine.Base.{
  Bytes, ℕ, Bool, true, false, not, ◌&&◌, ◌||◌, [], some, ◌≡◌, refl, codes, bytes_eq, arith,
}
use http_filtering_engine.Http.State.{Severity, info, warning, error}
use http_filtering_engine.Http.Results.{by_if}
use http_filtering_engine.Control.Acceptor.{
  Acceptor, Listening, new_acceptor, opened_acceptor, init_contexts, accept_connections,
  fresh_acceptor, report_unless, say,
}

-- A new acceptor that listens on the port and does not accept yet.
pub record IsNew (port : ℕ) (a : Acceptor) : Type 0 where
  pub at_port : a.port ≡ port
  pub idle : a.pending ≡ 0
  pub none_ready : a.ready ≡ []
  pub driven : a.has_service ≡ true

report_unless-IsNew :
    (port : ℕ) (b : Bool) (v : Severity) (a : Acceptor)
    → IsNew port a
    → IsNew port (report_unless b v a)
report_unless-IsNew port true v a n = n
report_unless-IsNew port false v a n = record {
  at_port = n.at_port;
  idle = n.idle;
  none_ready = n.none_ready;
  driven = n.driven;
}

init_contexts-IsNew :
    (port : ℕ) (l : Listening) (a : Acceptor) → IsNew port a → IsNew port (init_contexts l a)
unfolding init_contexts
init_contexts-IsNew port l a n = report_unless-IsNew port l.flags_set warning _ (
    by_if (IsNew port) (bytes_eq a.ca_bundle (codes "none")) _ _ n
      (by_if (IsNew port) l.loads _ _ (said info) (said error)))
  where
    said : (v : Severity) → IsNew port (say v (say info (record a { verifies = true })))
    said v = record {
      at_port = n.at_port;
      idle = n.idle;
      none_ready = n.none_ready;
      driven = n.driven;
    }

pub opened_acceptor-IsNew :
    (is_tls : Bool) (ca : Bytes) (has_store : Bool) (l : Listening) (port : ℕ)
    → IsNew port (opened_acceptor is_tls ca has_store l port)
unfolding opened_acceptor
opened_acceptor-IsNew is_tls ca has_store l port =
    let fresh : IsNew port (fresh_acceptor is_tls ca port) = record {
      at_port = refl;
      idle = refl;
      none_ready = refl;
      driven = refl;
    } in
    let b =
      report_unless-IsNew port l.reuses error _
        (report_unless-IsNew port (is_tls || not has_store) warning _ fresh) in
    by_if (IsNew port) is_tls _ _ (init_contexts-IsNew port l _ b) b

pub new_acceptor_lem :
    (is_tls : Bool) (ca : Bytes) (has_store : Bool) (l : Listening) (port : ℕ)
    → l.bound ≡ some port
    → (is_tls && not has_store) ≡ false
    → new_acceptor is_tls ca has_store l ≡ some (opened_acceptor is_tls ca has_store l port)
unfolding new_acceptor
new_acceptor_lem is_tls ca has_store l port b e = rw (e, b) refl

init_contexts-verifies :
    (b : Bool) (l : Listening) (ca : Bytes) (port : ℕ)
    → (init_contexts l (report_unless b error (fresh_acceptor true ca port))).verifies
      ≡ not (bytes_eq ca (codes "none"))
unfolding init_contexts
init_contexts-verifies true l ca port = ground arith
init_contexts-verifies false l ca port = ground arith

-- A TLS acceptor's client context asks for verification just if a path other than none is given.
new_acceptor-verifies :
    (ca : Bytes) (l : Listening) (port : ℕ)
    → l.bound ≡ some port
    → (a : Acceptor) × (new_acceptor true ca true l ≡ some a)
      × (a.port ≡ port)
      × (a.verifies ≡ not (bytes_eq ca (codes "none")))
unfolding opened_acceptor
new_acceptor-verifies ca l port b = (
  opened_acceptor true ca true l port,
  new_acceptor_lem true ca true l port b refl,
  (opened_acceptor-IsNew true ca true l port).at_port,
  init_contexts-verifies l.reuses l ca port,
)

-- A first accept.
pub accept_connections-IsNew :
    (port : ℕ) (a : Acceptor)
    → IsNew port a
    → ((accept_connections true a).0.port ≡ port)
      × ((accept_connections true a).0.pending ≡ 1)
      × ((accept_connections true a).0.ready ≡ [])
unfolding accept_connections
accept_connections-IsNew port a n = ground (arith, n.at_port, n.idle, n.none_ready, n.driven)
