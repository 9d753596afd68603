-- ===== src/Control/Acceptor.antt =====
-- TlsCapableHttpAcceptor of src/te/httpengine/mitm/secure/TlsCapableHttpAcceptor.hpp, as a build
-- without its debug checks has it. What the sockets, the contexts and the allocations do is a
-- parameter of each operation.
pub mod New
pub mod Loop
use http_filtering_engine.Base.{
  Bytes, ℕ, zero, suc, ◌+◌, Bool, true, false, not, ◌&&◌, ◌||◌, List, [], ◌∷◌, ◌++◌, if◌then◌else◌,
  codes, bytes_eq, Option, some, none, replicate, ◌≡◌,
}
use http_filtering_engine.Http.State.{Severity, info, warning, error}

-- How an `async_accept` ends, once its handler is called.
pub data Accepted : Type 0 where
  client failure : Accepted

-- The members, with the listener's port, the accepts that wait for a client, the handlers of ended
-- accepts that wait for a thread, and the number of bridges that were started. `verifies` says
-- whether the client context asks for the server's certificate to be verified.
pub record Acceptor : Type 0 where
  pub has_service : Bool
  pub is_tls : Bool
  pub ca_bundle : Bytes
  pub port : ℕ
  pub verifies : Bool
  pub pending : ℕ
  pub ready : List Accepted
  pub sessions : ℕ
  pub reports : List Severity

-- What the constructor meets: the port that the listener gets, unless `open`, the options, `bind` or
-- `listen` throw; and whether the address can be reused, the bundle loads and the flag is set.
pub record Listening : Type 0 where
  pub bound : Option ℕ
  pub reuses : Bool
  pub loads : Bool
  pub flags_set : Bool

abbrev pub say : Severity → Acceptor → Acceptor
say severity a = record a { reports = severity ∷ a.reports }

abbrev pub report_unless : Bool → Severity → Acceptor → Acceptor
report_unless true severity a = a
report_unless false severity a = say severity a

-- `InitContexts`.
unfoldable pub init_contexts : Listening → Acceptor → Acceptor
unfolding bytes_eq
init_contexts l a = report_unless l.flags_set warning (
    if bytes_eq a.ca_bundle (codes "none")
    then a
    else if l.loads
    then say info (say info (record a { verifies = true }))
    else say error (say info (record a { verifies = true })))

-- The members before the listener is open.
abbrev pub fresh_acceptor : Bool → Bytes → ℕ → Acceptor
fresh_acceptor is_tls ca_bundle port = record {
  has_service = true;
  is_tls = is_tls;
  ca_bundle = ca_bundle;
  port = port;
  verifies = false;
  pending = 0;
  ready = [];
  sessions = 0;
  reports = [];
}

-- The constructor once the listener has its port.
unfoldable pub opened_acceptor : Bool → Bytes → Bool → Listening → ℕ → Acceptor
unfolding init_contexts
opened_acceptor is_tls ca_bundle has_store l port =
    let a =
      report_unless (is_tls || not has_store) warning (fresh_acceptor is_tls ca_bundle port) in
    let b = report_unless l.reuses error a in if is_tls then init_contexts l b else b

-- The constructor, given whether there is a certificate store; none where it throws.
unfoldable pub new_acceptor : Bool → Bytes → Bool → Listening → Option Acceptor
unfolding opened_acceptor
new_acceptor is_tls ca_bundle has_store l = if is_tls && not has_store then none else elim l.bound [
  | none ↦ none
  | some port ↦ some (opened_acceptor is_tls ca_bundle has_store l port)
]

-- `AcceptConnections`, given whether the bridge and the accept can be made.
unfoldable pub accept_connections : Bool → Acceptor → Acceptor × Bool
accept_connections made a =
    if a.has_service
    then if made then (record a { pending = a.pending + 1 }, true) else (say error a, false)
    else (a, false)

-- `StopAccepting`, given whether `cancel` reports no error: every accept that waits ends with an
-- error. What has ended is not touched.
unfoldable pub stop_accepting : Bool → Acceptor → Acceptor
stop_accepting cancels a =
    if cancels
    then record a { pending = 0; ready = a.ready ++ replicate a.pending failure }
    else say error a

-- `HandleAccept`: the error's text is put together and dropped.
unfoldable pub handle_accept : Accepted → Bool → Acceptor → Acceptor
unfolding accept_connections
handle_accept client made a =
    let r = accept_connections made (record a { sessions = a.sessions + 1 }) in
    report_unless r.1 error r.0
handle_accept failure made a = a

-- What happens between calls: a waiting accept ends, or a thread calls a handler.
pub data Step : Acceptor → Acceptor → Type 0 where
  arrive :
      (how : Accepted) (n : ℕ) (a : Acceptor)
      → a.pending ≡ suc n
      → Step a (record a { pending = n; ready = a.ready ++ (how ∷ []) })
  handle :
      (how : Accepted) (made : Bool) (rest : List Accepted) (a : Acceptor)
      → a.ready ≡ how ∷ rest
      → Step a (handle_accept how made (record a { ready = rest }))

pub data Reach (a : Acceptor) : Acceptor → Type 0 where
  here : Reach a a
  next : {b c : Acceptor} → Reach a b → Step b c → Reach a c
