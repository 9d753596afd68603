-- ===== src/Bridge/Handshakes/Shown.antt =====
-- The contexts that the clients of several bridges are shown.
use http_filtering_engine.Base.{
  Bytes, ℕ, Bool, true, false, not, ◌&&◌, List, [], ◌∷◌, map, to_lower, if◌then◌else◌, Option, some,
  none, ◌≡◌, refl, sym, ap, ◌∙◌, arith, inl, inr, Option-cases,
}
use http_filtering_engine.Http.Results.{by_if}
use http_filtering_engine.Bridge.State.{
  Outside, Completion, Bridge, downstream_handshake, nothing, kill,
}
use http_filtering_engine.Bridge.Reading.{is_error}
use http_filtering_engine.Bridge.Connecting.{verify_server_certificate, on_upstream_handshake}
use http_filtering_engine.Certificates.Store.{Context, Store, find_host}
use http_filtering_engine.Certificates.Server.{get_server_context}
use http_filtering_engine.Certificates.Again.{get_server_context-found, get_server_context-keeps}
use http_filtering_engine.Bridge.Handshakes.{Visit, verify_all, id_of, served, shake}

-- The platform's answer for the last certificate, or what was there before.
abbrev pub last_answer : Bool → List Bool → Bool
last_answer before [] = before
last_answer before (answer ∷ answers) = last_answer answer answers

abbrev pub host_of : Visit → Bytes
host_of v = map to_lower v.bridge.upstream_host

verify_all-host :
    (answers : List Bool) (b : Bridge) → (verify_all answers b).upstream_host ≡ b.upstream_host
unfolding verify_all verify_server_certificate
verify_all-host [] b = refl
verify_all-host (answer ∷ answers) b =
    verify_all-host answers (verify_server_certificate answer b).0 ∙ ground arith

verified-is :
    (answer : Bool) (b : Bridge)
    → b.is_tls ≡ true
    → (verify_server_certificate answer b).0.has_upstream_cert ≡ answer
unfolding verify_server_certificate
verified-is answer b tls = ground arith

verify_all-last :
    (answers : List Bool) (b : Bridge)
    → b.is_tls ≡ true
    → (verify_all answers b).has_upstream_cert ≡ last_answer b.has_upstream_cert answers
unfolding verify_all verify_server_certificate
verify_all-last [] b tls = refl
verify_all-last (answer ∷ answers) b tls =
    verify_all-last answers (verify_server_certificate answer b).0 (ground arith)
    ∙ ap (λ c. last_answer c answers) (verified-is answer b tls)

-- What a handshake with the client takes.
pub record Serves (v : Visit) (s : Store) (k : Context) : Type 0 where
  pub shown : (shake v s).context ≡ some k
  pub fine : is_error v.completion ≡ false
  pub verified : last_answer v.bridge.has_upstream_cert v.answers ≡ true
  pub found : find_host (host_of v) (shake v s).store.hosts ≡ some k

handshake-started :
    (o : Outside) (e : Completion) (b : Bridge)
    → (on_upstream_handshake o e b).1 ≡ downstream_handshake
    → (is_error e ≡ false)
      × (b.has_upstream_cert ≡ true)
      × (c : ℕ) × (o.server_context b.upstream_host ≡ some c)
      × (o.takes_context c ≡ true)
unfolding on_upstream_handshake
handshake-started o e b h = elim (Option-cases (o.server_context b.upstream_host)) [
  | inl nobody ↦ absurd (ground arith)
  | inr k ↦ (ground arith, ground arith, k.0, k.1, ground arith)
]

id_of-some : (o : Option Context) (c : ℕ) → id_of o ≡ some c → (k : Context) × (o ≡ some k)
unfolding id_of
id_of-some none c e = cc
id_of-some (some k) c e = (k, refl)

served-asked :
    (v : Visit) (b : Bridge) (s : Store)
    → is_error v.completion ≡ false
    → b.has_upstream_cert ≡ true
    → served v b s ≡ get_server_context v.calls b.upstream_host v.original s
unfolding served
served-asked v b s f h = rw (f, h) refl

served-found :
    (v : Visit) (b : Bridge) (s : Store) (k : Context)
    → is_error v.completion ≡ false
    → b.has_upstream_cert ≡ true
    → (served v b s).1 ≡ some k
    → find_host (map to_lower b.upstream_host) (served v b s).0.hosts ≡ some k
served-found v b s k f h e =
    get_server_context-found v.calls b.upstream_host v.original s (served v b s).0 k
      (sym (served-asked v b s f h) ∙ ap (λ x. ((served v b s).0, x)) e)

-- When the handshake with the client starts, a context of the store is what the client is shown.
pub shake-Serves :
    (v : Visit) (s : Store)
    → v.bridge.is_tls ≡ true
    → (shake v s).turn.1 ≡ downstream_handshake
    → (k : Context) × Serves v s k
unfolding shake
shake-Serves v s tls h =
    let b = verify_all v.answers v.bridge in
    let r = served v b s in
    let o = record v.outside { server_context = λ _. id_of r.1; takes_context = λ _. v.takes } in
    let p = handshake-started o v.completion b h in
    let k = id_of-some r.1 p.2 p.3 in
    (
      k.0,
      record {
        shown = ap (λ t. if t then r.1 else none) p.4 ∙ k.1;
        fine = p.0;
        verified = sym (verify_all-last v.answers v.bridge tls) ∙ p.1;
        found =
            ap (λ x. find_host (map to_lower x) r.0.hosts)
              (sym (verify_all-host v.answers v.bridge))
            ∙ served-found v b s k.0 p.0 p.1 k.1;
      },
    )

-- Some handshakes, one after the other.
pub data Visited (s : Store) : Store → Type 0 where
  here : Visited s s
  next : {t : Store} (v : Visit) → Visited s t → Visited s (shake v t).store

shake-keeps :
    (v : Visit) (s : Store) (name : Bytes) (k : Context)
    → find_host name s.hosts ≡ some k
    → find_host name (shake v s).store.hosts ≡ some k
unfolding shake served
shake-keeps v s name k e =
    let b = verify_all v.answers v.bridge in
    let g = get_server_context v.calls b.upstream_host v.original s in
    by_if (λ (x : Store × Option Context). find_host name x.0.hosts ≡ some k)
      (not (is_error v.completion) && b.has_upstream_cert) _ _
      (get_server_context-keeps v.calls b.upstream_host v.original s g.0 g.1 name k refl e) e

Visited-keeps :
    (name : Bytes) (k : Context) {s t : Store}
    → Visited s t
    → find_host name s.hosts ≡ some k
    → find_host name t.hosts ≡ some k
Visited-keeps name k here e = e
Visited-keeps name k (next {t = t} v r) e = shake-keeps v t name k (Visited-keeps name k r e)

some_inj : {A : Type 0} {a b : A} → some a ≡ some b → a ≡ b
some_inj e = cc

-- Where a bridge's handshake with its server leads to one with the client, the client is shown a
-- context, and so is the client of every later such bridge to the same host, up to case: the same
-- context, whatever handshakes of other bridges come in between and whatever certificates their
-- servers have. In both, the platform accepted the last certificate that it was asked about, or a
-- certificate was there before. Both bridges are for TLS.
pub shake-same :
    (v w : Visit) (s t : Store)
    → v.bridge.is_tls ≡ true
    → w.bridge.is_tls ≡ true
    → (shake v s).turn.1 ≡ downstream_handshake
    → Visited (shake v s).store t
    → (shake w t).turn.1 ≡ downstream_handshake
    → host_of w ≡ host_of v
    → (k : Context) × ((shake v s).context ≡ some k)
      × ((shake w t).context ≡ some k)
      × (last_answer v.bridge.has_upstream_cert v.answers ≡ true)
      × (last_answer w.bridge.has_upstream_cert w.answers ≡ true)
shake-same v w s t tls tls' h r h' same =
    let a = shake-Serves v s tls h in
    let b = shake-Serves w t tls' h' in
    let kept = Visited-keeps (host_of v) a.0 (next w r) a.1.found in
    let there = ap (λ x. find_host x (shake w t).store.hosts) (sym same) ∙ b.1.found in
    let agree = some_inj (sym there ∙ kept) in
    (a.0, a.1.shown, b.1.shown ∙ ap some agree, a.1.verified, b.1.verified)

and_false : (a b : Bool) → b ≡ false → (a && b) ≡ false
and_false true b h = h
and_false false b h = refl

kill-killed : (b : Bridge) → (kill b).killed ≡ true
unfolding kill
kill-killed b = ground arith

none_either : (b : Bool) → ◌≡◌ {A = Option Context} (if b then none else none) none
none_either true = refl
none_either false = refl

handshake-refused :
    (o : Outside) (e : Completion) (b : Bridge)
    → b.has_upstream_cert ≡ false
    → ((on_upstream_handshake o e b).1 ≡ nothing) × ((on_upstream_handshake o e b).0.killed ≡ true)
unfolding on_upstream_handshake
handshake-refused o e b h =
    rw (on_upstream_handshake, and_false (not (is_error e)) b.has_upstream_cert h)
      (refl, kill-killed _)

served-refused :
    (v : Visit) (b : Bridge) (s : Store) → b.has_upstream_cert ≡ false → served v b s ≡ (s, none)
unfolding served
served-refused v b s h =
    rw (served, and_false (not (is_error v.completion)) b.has_upstream_cert h) refl

-- No certificate is made for a server that was not verified. If the platform refuses the last
-- certificate that it is asked about, or it is asked about none and there was none before, then a
-- TLS bridge's handshake leaves the certificate store as it was, gives the client's socket no
-- context, starts no operation and leaves the bridge killed.
pub shake_unverified :
    (v : Visit) (s : Store)
    → v.bridge.is_tls ≡ true
    → last_answer v.bridge.has_upstream_cert v.answers ≡ false
    → ((shake v s).store ≡ s)
      × ((shake v s).context ≡ none)
      × ((shake v s).turn.1 ≡ nothing)
      × ((shake v s).turn.0.killed ≡ true)
unfolding shake
shake_unverified v s tls e =
    let b = verify_all v.answers v.bridge in
    let h = verify_all-last v.answers v.bridge tls ∙ e in
    let r = served-refused v b s h in
    let o = record v.outside {
      server_context = λ _. id_of (served v b s).1;
      takes_context = λ _. v.takes;
    } in
    let t = handshake-refused o v.completion b h in
    (
      ap (λ (x : Store × Option Context). x.0) r,
      ap (λ (x : Store × Option Context). if v.takes then x.1 else none) r ∙ none_either v.takes,
      t.0,
      t.1,
    )
