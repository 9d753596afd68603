-- ===== src/Certificates/Again.antt =====
-- Calls of GetServerContext of BaseInMemoryCertificateStore.cpp one after the other.
use http_filtering_engine.Base.{
  Bytes, false, ◌≡◌, refl, ◌∙◌, ap, sym, subst, List, map, Option, some, none, to_lower, inl,
}
use http_filtering_engine.Certificates.Store.{
  Calls, Context, Object, Store, follow, require, find_host,
}
use http_filtering_engine.Certificates.Entering.{
  enter_host-keeps, enter_hosts-keeps, enter_hosts-Entered, enter_host-found,
}
use http_filtering_engine.Certificates.Server.{
  Original, enter_host, enter_hosts, enter_context, get_server_context,
}
use http_filtering_engine.Certificates.Hosts.{Ends, get_server_context-Ends}

-- Where the host was not there, its insertion succeeds, so nothing is thrown.
pub enter_context-returns :
    (domains : List Bytes) (host : Bytes) (k : Context) (objects : List Object) (t : Store)
    → find_host host t.hosts ≡ none
    → enter_context domains host k objects t ≡ (
      record t { hosts = (enter_host host k (enter_hosts domains k (t.hosts, false))).0 },
      some k,
    )
unfolding enter_context require follow
enter_context-returns domains host k objects t e =
    let r = enter_hosts domains k (t.hosts, false) in
    let q =
      enter_host-found host k r.0 r.1 (enter_hosts-Entered domains host k t.hosts false (inl e)) in
    rw (q.1) refl

-- A call ends with the host's context, or leaves the hosts as they were.
call-Ends :
    (Q : Context → Store → Type 0) (c : Calls) (hostname : Bytes) (original : Option Original)
    (s : Store)
    → ((found : Context) → find_host (map to_lower hostname) s.hosts ≡ some found → Q found s)
    → ((domains : List Bytes) (k : Context) (t : Store)
        → t.hosts ≡ s.hosts
        → find_host (map to_lower hostname) t.hosts ≡ none
        → Q k (record t {
          hosts = (enter_host (map to_lower hostname) k (enter_hosts domains k (t.hosts, false))).0;
        }))
    → Ends Q (λ t. t.hosts ≡ s.hosts) (get_server_context c hostname original s)
unfolding Ends
call-Ends Q c hostname original s old new =
    get_server_context-Ends s.hosts Q c hostname original s refl old λ w domains k objects t e.
      let there = ap (find_host (map to_lower hostname)) e ∙ w in
      subst (Ends Q λ t. t.hosts ≡ s.hosts)
        (sym (enter_context-returns domains (map to_lower hostname) k objects t there))
        (new domains k t e there)

returned :
    (hostname : Bytes) (c : Calls) (original : Option Original) (s : Store)
    → Ends
        (λ k t. find_host (map to_lower hostname) t.hosts ≡ some k)
        (λ t. t.hosts ≡ s.hosts)
        (get_server_context c hostname original s)
returned hostname c original s =
    call-Ends (λ k t. find_host (map to_lower hostname) t.hosts ≡ some k) c hostname original s
      (λ _ w. w)
      λ domains k t _ w.
        let r = enter_hosts domains k (t.hosts, false) in
        (enter_host-found (map to_lower hostname) k r.0 r.1
          (enter_hosts-Entered domains (map to_lower hostname) k t.hosts false (inl w))).0

-- What is returned has been entered for the host.
pub get_server_context-found :
    (c : Calls) (hostname : Bytes) (original : Option Original) (s t : Store) (k : Context)
    → get_server_context c hostname original s ≡ (t, some k)
    → find_host (map to_lower hostname) t.hosts ≡ some k
unfolding Ends
get_server_context-found c hostname original s t k e =
    subst
      (Ends (λ k t. find_host (map to_lower hostname) t.hosts ≡ some k) (λ t. t.hosts ≡ s.hosts)) e
      (returned hostname c original s)

-- The context that a call of `GetServerContext` returns for a host is the host's from then on:
-- every later call, for the host in any case and with any certificate, returns it and changes
-- nothing.
pub get_server_context-again :
    (c : Calls) (hostname : Bytes) (original : Option Original) (s t : Store) (k : Context)
    (d : Calls) (again : Bytes) (shown : Option Original)
    → get_server_context c hostname original s ≡ (t, some k)
    → map to_lower again ≡ map to_lower hostname
    → get_server_context d again shown t ≡ (t, some k)
unfolding get_server_context
get_server_context-again c hostname original s t k d again shown e same =
    let w = get_server_context-found c hostname original s t k e in
    rw (get_server_context, same, w) refl

kept :
    (hostname : Bytes) (c : Calls) (original : Option Original) (s : Store) (name : Bytes)
    (k : Context)
    → find_host name s.hosts ≡ some k
    → Ends
        (λ _ t. find_host name t.hosts ≡ some k)
        (λ t. t.hosts ≡ s.hosts)
        (get_server_context c hostname original s)
kept hostname c original s name k w =
    call-Ends (λ _ t. find_host name t.hosts ≡ some k) c hostname original s (λ _ _. w)
      λ domains d t e _.
        let r = enter_hosts domains d (t.hosts, false) in
        enter_host-keeps name (map to_lower hostname) d k r.0 r.1
          (enter_hosts-keeps domains name d k t.hosts false (ap (find_host name) e ∙ w))

by_end :
    (name : Bytes) (k : Context) (s t : Store) (answer : Option Context)
    → find_host name s.hosts ≡ some k
    → Ends (λ _ u. find_host name u.hosts ≡ some k) (λ u. u.hosts ≡ s.hosts) (t, answer)
    → find_host name t.hosts ≡ some k
unfolding Ends
by_end name k s t none w e = ap (find_host name) e ∙ w
by_end name k s t (some _) w e = e

-- No call of `GetServerContext`, whether it returns or throws, and whatever alternative names the
-- server's certificate has, takes from a host the context that it has.
pub get_server_context-keeps :
    (c : Calls) (hostname : Bytes) (original : Option Original) (s t : Store)
    (answer : Option Context) (name : Bytes) (k : Context)
    → get_server_context c hostname original s ≡ (t, answer)
    → find_host name s.hosts ≡ some k
    → find_host name t.hosts ≡ some k
get_server_context-keeps c hostname original s t answer name k e w = by_end name k s t answer w (
    subst (Ends (λ _ u. find_host name u.hosts ≡ some k) (λ u. u.hosts ≡ s.hosts)) e
      (kept hostname c original s name k w))
