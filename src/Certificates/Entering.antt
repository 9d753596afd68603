-- ===== src/Certificates/Entering.antt =====
-- The entries that GetServerContext of BaseInMemoryCertificateStore.cpp makes in the map of hosts.
use http_filtering_engine.Base.{
  Bytes, Bool, true, ◌≡◌, [], ◌∷◌, List, bytes_eq_refl, bytes_eq_iff, some, none, ◌⊎◌, arith,
}
use http_filtering_engine.Certificates.Store.{Context, find_host}
use http_filtering_engine.Certificates.Server.{enter_host, enter_hosts}

abbrev pub Hosts : Type 0
Hosts = List (Bytes × Context)

-- What was entered is found again.
pub enter_host-keeps :
    (name host : Bytes) (c d : Context) (m : Hosts) (done : Bool)
    → find_host name m ≡ some d
    → find_host name (enter_host host c (m, done)).0 ≡ some d
unfolding enter_host find_host
enter_host-keeps name host c d m done e = ground (arith, bytes_eq_iff host name)

pub enter_hosts-keeps :
    (hosts : List Bytes) (name : Bytes) (c d : Context) (m : Hosts) (done : Bool)
    → find_host name m ≡ some d
    → find_host name (enter_hosts hosts c (m, done)).0 ≡ some d
unfolding enter_hosts
enter_hosts-keeps [] name c d m done e = e
enter_hosts-keeps (host ∷ hosts) name c d m done e =
    enter_hosts-keeps hosts name c d _ _ (enter_host-keeps name host c d m done e)

-- A host is not there yet, or has the context that is being entered, and an insertion is noted.
abbrev Entered : Bytes → Context → Hosts × Bool → Type 0
Entered host c r = (find_host host r.0 ≡ none) ⊎ (find_host host r.0 ≡ some c × r.1 ≡ true)

enter_host-Entered :
    (name host : Bytes) (c : Context) (m : Hosts) (done : Bool)
    → Entered host c (m, done)
    → Entered host c (enter_host name c (m, done))
unfolding enter_host find_host
enter_host-Entered name host c m done e = ground (arith, bytes_eq_iff name host)

pub enter_hosts-Entered :
    (names : List Bytes) (host : Bytes) (c : Context) (m : Hosts) (done : Bool)
    → Entered host c (m, done)
    → Entered host c (enter_hosts names c (m, done))
unfolding enter_hosts
enter_hosts-Entered [] host c m done e = e
enter_hosts-Entered (name ∷ names) host c m done e =
    enter_hosts-Entered names host c _ _ (enter_host-Entered name host c m done e)

-- After its own entry, a host has the context.
pub enter_host-found :
    (host : Bytes) (c : Context) (m : Hosts) (done : Bool)
    → Entered host c (m, done)
    → find_host host (enter_host host c (m, done)).0 ≡ some c
      × (enter_host host c (m, done)).1 ≡ true
unfolding enter_host find_host
enter_host-found host c m done e = ground (arith, bytes_eq_refl host)
