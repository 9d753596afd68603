-- ===== src/Control/Acceptor/Loop.antt =====
-- The loop of accepts of TlsCapableHttpAcceptor.hpp.
use http_filtering_engine.Base.{
  ℕ, zero, suc, ◌+◌, ◌≤◌, Bool, true, List, [], ◌∷◌, length, length-append, replicate, ◌≡◌, refl,
  subst, ◌∙◌, ap, arith, All,
}
use http_filtering_engine.Control.Acceptor.{
  Accepted, client, failure, Acceptor, stop_accepting, handle_accept, Step, arrive, handle, Reach,
  here, next,
}

-- Accepts that wait for a client or for their handler.
abbrev outstanding : Acceptor → ℕ
outstanding a = a.pending + length a.ready

handle_accept-outstanding :
    (how : Accepted) (made : Bool) (rest : List Accepted) (a : Acceptor)
    → outstanding (handle_accept how made (record a { ready = rest })) ≤ a.pending + length rest + 1
unfolding handle_accept
handle_accept-outstanding client made rest a = ground arith
handle_accept-outstanding failure made rest a = omega arith

Step-outstanding : {a b : Acceptor} → Step a b → outstanding b ≤ outstanding a
Step-outstanding (arrive how n a e) = omega (arith, e, length-append {0} a.ready (how ∷ []))
Step-outstanding (handle how made rest a e) =
    omega (arith, ap length e, handle_accept-outstanding how made rest a)

-- No step adds to the accepts that wait for a client or for their handler.
Reach-outstanding : (a b : Acceptor) → Reach a b → outstanding b ≤ outstanding a
Reach-outstanding a b here = omega arith
Reach-outstanding a b (next r p) = omega (arith, Step-outstanding p, Reach-outstanding a _ r)

-- No accept waits for a client, and those that wait for their handler have failed.
pub record IsOver (a : Acceptor) : Type 0 where
  pub nothing_pending : a.pending ≡ 0
  pub failures : All (λ how. how ≡ failure) a.ready

-- A step from there serves nobody and reports nothing.
record Keeps (a b : Acceptor) : Type 0 where
  over : IsOver b
  sessions : b.sessions ≡ a.sessions
  reports : b.reports ≡ a.reports

failed-Keeps :
    (made : Bool) (rest : List Accepted) (a : Acceptor)
    → a.pending ≡ 0
    → All (λ how. how ≡ failure) rest
    → Keeps a (handle_accept failure made (record a { ready = rest }))
unfolding handle_accept
failed-Keeps made rest a h f = record {
  over = record { nothing_pending = h; failures = f };
  sessions = refl;
  reports = refl;
}

Step-Keeps : {a b : Acceptor} → Step a b → IsOver a → Keeps a b
Step-Keeps (arrive how n a e) o = absurd (omega (arith, e, o.nothing_pending))
Step-Keeps (handle client made rest a e) o =
    let f : All (λ how. how ≡ failure) (client ∷ rest) =
      subst (All λ how. how ≡ failure) e o.failures in
    absurd (cc (f.0))
Step-Keeps (handle failure made rest a e) o =
    let f : All (λ how. how ≡ failure) (failure ∷ rest) =
      subst (All λ how. how ≡ failure) e o.failures in
    failed-Keeps made rest a o.nothing_pending f.1

Reach-Keeps : {a b : Acceptor} → Reach a b → IsOver a → Keeps a b
Reach-Keeps here o = record { over = o; sessions = refl; reports = refl }
Reach-Keeps (next r p) o =
    let k = Reach-Keeps r o in
    let l = Step-Keeps p k.over in
    record { over = l.over; sessions = l.sessions ∙ k.sessions; reports = l.reports ∙ k.reports }

replicate-failure : (n : ℕ) → All (λ how. how ≡ failure) (replicate n failure)
replicate-failure zero = tt
replicate-failure (suc n) = (refl, replicate-failure n)

-- When no handler of an ended accept is waiting to be called, `StopAccepting` whose cancel reports
-- no error ends the loop: whatever happens afterwards, no accept is waiting and no further bridge
-- is started.
pub stop_accepting-ends :
    (a b : Acceptor)
    → a.ready ≡ []
    → Reach (stop_accepting true a) b
    → (b.pending ≡ 0) × (b.sessions ≡ a.sessions)
unfolding stop_accepting
stop_accepting-ends a b e r =
    let o : IsOver (stop_accepting true a) = record {
      nothing_pending = refl;
      failures = rw e (replicate-failure a.pending);
    } in
    let k = Reach-Keeps r o in (k.over.nothing_pending, k.sessions)

-- When a client has been accepted and its handler is waiting to be called, `StopAccepting` does not
-- end the loop: the handler may still run, start a bridge, and leave an accept waiting.
pub stop_accepting-late :
    (a : Acceptor)
    → a.has_service ≡ true
    → a.ready ≡ client ∷ []
    → a.pending ≡ 0
    → (b : Acceptor) × Reach (stop_accepting true a) b
      × (b.pending ≡ 1)
      × (b.sessions ≡ a.sessions + 1)
unfolding stop_accepting handle_accept
stop_accepting-late a s e p =
    let stopped = stop_accepting true a in
    let b = handle_accept client true (record stopped { ready = [] }) in
    (b, next here (handle client true [] stopped (rw (e, p) refl)), ground arith, ground arith)

-- One failed accept ends the loop for good: from then on, whatever happens, no accept is waiting,
-- no bridge is started and nothing is reported.
pub failed_accept-ends :
    (a b : Acceptor)
    → a.pending ≡ 0
    → a.ready ≡ failure ∷ []
    → Reach a b
    → (b.pending ≡ 0) × (b.sessions ≡ a.sessions) × (b.reports ≡ a.reports)
failed_accept-ends a b p e r =
    let o : IsOver a = record { nothing_pending = p; failures = rw e (refl, tt) } in
    let k = Reach-Keeps r o in (k.over.nothing_pending, k.sessions, k.reports)
