-- ===== src/Certificates/Destroy/Aliases.antt =====
-- What an alternative name of a server's certificate does to the destructor of
-- BaseInMemoryCertificateStore.cpp.
use http_filtering_engine.Base.{
  Bytes, ◌+◌, ◌<◌, Bool, true, false, ◌≡◌, ◌≢◌, refl, ◌∙◌, ap, [], ◌∷◌, ◌++◌, List, map, to_lower,
  Option, some, none, arith, inl, bytes_eq_iff,
}
use http_filtering_engine.Certificates.Store.{Context, Store, same_object, find_host}
use http_filtering_engine.Certificates.Server.{
  Original, Subject, san_domains, enter_host, enter_hosts, get_server_context,
}
use http_filtering_engine.Certificates.Entering.{
  Hosts, enter_host-keeps, enter_hosts-keeps, enter_hosts-Entered, enter_host-found,
}
use http_filtering_engine.Certificates.Shown.{
  succeeding, made_context, made_objects, get_server_context-new,
}
use http_filtering_engine.Certificates.Destroy.{destroy, destroy-twice, objects_of, names_with}

-- Host names that have a context.
one-name :
    (name : Bytes) (k : Context) (m : Hosts) → find_host name m ≡ some k → 0 < names_with k.id m
unfolding find_host names_with
one-name name k [] h = cc
one-name name k ((other, d) ∷ m) h = ground (arith, one-name name k m)

two-names :
    (a b : Bytes) (k : Context) (m : Hosts)
    → a ≢ b
    → find_host a m ≡ some k
    → find_host b m ≡ some k
    → 1 < names_with k.id m
unfolding find_host names_with
two-names a b k [] d h i = cc
two-names a b k ((other, c) ∷ m) d h i = ground (
  arith,
  two-names a b k m d,
  one-name a k m,
  one-name b k m,
  bytes_eq_iff other a,
  bytes_eq_iff other b,
)

enter_hosts-append :
    (before after : List Bytes) (k : Context) (r : Hosts × Bool)
    → enter_hosts (before ++ after) k r ≡ enter_hosts after k (enter_hosts before k r)
unfolding enter_hosts
enter_hosts-append [] after k r = refl
enter_hosts-append (name ∷ before) after k r =
    enter_hosts-append before after k (enter_host name k r)

-- A name among the domains that is new is entered, and stays.
enter_hosts-found :
    (before after : List Bytes) (name : Bytes) (k : Context) (m : Hosts)
    → find_host name m ≡ none
    → find_host name (enter_hosts (before ++ name ∷ after) k (m, false)).0 ≡ some k
unfolding enter_hosts
enter_hosts-found before after name k m e =
    let r = enter_hosts before k (m, false) in
    let entered = enter_hosts-Entered before name k m false (inl e) in
    let there = (enter_host-found name k r.0 r.1 entered).0 in
    ap (λ (x : Hosts × Bool). find_host name x.0)
      (enter_hosts-append before (name ∷ after) k (m, false))
    ∙ enter_hosts-keeps after name k k _ _ there

objects_of-made :
    (s : Store)
    → objects_of (s.made + 1 + 1 + 1) (made_objects s) ≡ 1 + objects_of (s.made + 1 + 1 + 1) s.owned
unfolding objects_of same_object
objects_of-made s = ground arith

-- One visit to a site with an alternative name dooms the store's destructor. If `GetServerContext`
-- is called for a new host, every call of OpenSSL succeeds, and one of the original's alternative
-- names that are DNS names without NUL bytes is, in lower case, neither the host nor a host that is
-- there, then the destructor of the store that the call leaves uses a context that it has deleted.
-- The store has its authority and key, the original has a subject, and the number of the new
-- context is not in use.
pub get_server_context-doomed :
    (hostname : Bytes) (original : Original) (subject : Subject) (s : Store)
    (before after : List Bytes) (name : Bytes)
    → s.has_ca ≡ true
    → s.has_ca_key ≡ true
    → find_host (map to_lower hostname) s.hosts ≡ none
    → original.subject ≡ some subject
    → san_domains original.alternatives ≡ before ++ name ∷ after
    → name ≢ map to_lower hostname
    → find_host name s.hosts ≡ none
    → objects_of (s.made + 1 + 1 + 1) s.owned ≡ 0
    → destroy (get_server_context succeeding hostname (some original) s).0 ≡ none
get_server_context-doomed hostname original subject s before after name ca key new there names other
      unknown fresh =
    let host = map to_lower hostname in
    let k = made_context original subject s in
    let domains = san_domains original.alternatives in
    let r = enter_hosts domains k (s.hosts, false) in
    let first : find_host name r.0 ≡ some k =
      ap (λ l. find_host name (enter_hosts l k (s.hosts, false)).0) names
      ∙ enter_hosts-found before after name k s.hosts unknown in
    let named = enter_host-keeps name host k k r.0 r.1 first in
    let own =
      (enter_host-found host k r.0 r.1
        (enter_hosts-Entered domains host k s.hosts false (inl new))).0 in
    let two = two-names name host k (enter_host host k r).0 other named own in
    let t = record s {
      hosts = (enter_host host k r).0;
      owned = made_objects s;
      made = s.made + 1 + 1 + 1 + 1;
    } in
    ap (λ (x : Store × Option Context). destroy x.0)
      (get_server_context-new hostname original subject s ca key new there)
    ∙ destroy-twice t k.id (omega (arith, objects_of-made s, fresh, two))
