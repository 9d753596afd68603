-- ===== src/Tests/Certificates.antt =====
-- A certificate store at concrete inputs.
use http_filtering_engine.Base.{
  Bool, Bytes, List, false, [], ◌∷◌, ◌≡◌, refl, codes, arith, some, none, true, to_lower, bytes_eq,
}
use http_filtering_engine.Text.Compare.{c_str}
use http_filtering_engine.Bridge.State.{success, new_bridge, downstream_handshake, nothing}
use http_filtering_engine.Bridge.Connecting.{verify_server_certificate, on_upstream_handshake}
use http_filtering_engine.Bridge.Handshakes.{Visit, verify_all, id_of, served, shake}
use http_filtering_engine.Bridge.Handshakes.Shown.{last_answer, here, shake-same, shake_unverified}
use http_filtering_engine.Tests.Bridges.{guarded}
use http_filtering_engine.Certificates.Store.{
  Context, ec_key, pkey, x509, context, Store, follow, alloc, require, find_host, same_object,
}
use http_filtering_engine.Certificates.Issue.{
  Names, generate_ec_key, generate_self_signed_cert, issue_certificate, require_authority,
  require_issuer, new_store,
}
use http_filtering_engine.Certificates.Server.{
  dns, other, Original, Subject, names_of, san_domains, san_dns_string, enter_host, enter_hosts,
  enter_context, spoof, spoof_original, get_server_context,
}
use http_filtering_engine.Certificates.Destroy.{destroy, objects_of, names_with}
use http_filtering_engine.Certificates.Destroy.Once.{HasEach, Leaves, destroy-Leaves}
use http_filtering_engine.Certificates.Destroy.Aliases.{get_server_context-doomed}
use http_filtering_engine.Certificates.Shown.{succeeding, likeness}

abbrev proxy_names : Names
proxy_names = record {
  country = codes "US";
  organization = codes "Proxy";
  common_name = codes "Proxy CA";
}

abbrev fresh : Store
fresh = record {
  has_ca = true;
  has_ca_key = true;
  hosts = [];
  owned = x509 2 ∷ pkey 1 ∷ ec_key 0 ∷ [];
  made = 3;
}

-- The constructor's store.
made_store : new_store succeeding proxy_names ≡ (fresh, some tt)
unfolding new_store generate_ec_key generate_self_signed_cert issue_certificate require_authority
    follow alloc require
made_store = refl

abbrev site_subject : Subject
site_subject = record {
  country = none;
  organization = some (codes "Site");
  common_name = some (codes "a.b");
}

abbrev site : Original
site = record {
  subject = some site_subject;
  alternatives = dns (codes "A.b") ∷ other ∷ dns (codes "*.a.b") ∷ [];
}

abbrev site_context : Context
site_context = record { id = 6; number = 5; certificate = likeness site site_subject; key = 4 }

abbrev visited : Store
visited = record fresh {
  hosts = (codes "*.a.b", site_context) ∷ (codes "a.b", site_context) ∷ [];
  owned = context 6 ∷ x509 5 ∷ pkey 4 ∷ ec_key 3 ∷ fresh.owned;
  made = 7;
}

visit : get_server_context succeeding (codes "a.B") (some site) fresh ≡ (visited, some site_context)
unfolding get_server_context spoof_original spoof generate_ec_key issue_certificate require_issuer
    require alloc follow enter_context enter_hosts enter_host find_host san_domains san_dns_string
    names_of c_str to_lower bytes_eq
visit = refl

-- A later call that fails.
refused_call : get_server_context succeeding (codes "c.d") none visited ≡ (visited, none)
unfolding get_server_context spoof_original find_host to_lower bytes_eq
refused_call = refl

get_server_context-doomed_example :
    destroy (get_server_context succeeding (codes "a.B") (some site) fresh).0 ≡ none
unfolding san_domains find_host objects_of same_object c_str to_lower bytes_eq
get_server_context-doomed_example =
    get_server_context-doomed (codes "a.B") site site_subject fresh (codes "a.b" ∷ []) []
      (codes "*.a.b") refl refl refl refl refl (λ e. ground arith) refl refl

-- A store whose only host has a context of its own.
abbrev single : Store
single = record visited { hosts = (codes "a.b", site_context) ∷ [] }

single-HasEach : HasEach single.hosts single.owned
unfolding names_with objects_of same_object
single-HasEach id = ground arith

destroy-Leaves_example : Leaves single.hosts single.owned (destroy single)
destroy-Leaves_example = destroy-Leaves single single-HasEach

-- Two bridges to the same host, the second one by another spelling and after its server has changed
-- its certificate; and one whose server's certificate is refused.
abbrev secure : Bytes → List Bool → Visit
secure host answers = record {
  bridge = record (new_bridge guarded true) { upstream_host = host };
  answers = answers;
  completion = success;
  original = some site;
  calls = succeeding;
  takes = true;
  outside = guarded;
}

abbrev first_visit : Visit
first_visit = secure (codes "a.B") (true ∷ true ∷ [])

abbrev second_visit : Visit
second_visit = record (secure (codes "A.b") (true ∷ [])) { original = none }

abbrev later : Store
later = (shake first_visit fresh).store

first_starts : (shake first_visit fresh).turn.1 ≡ downstream_handshake
unfolding shake served verify_all verify_server_certificate new_bridge id_of on_upstream_handshake
    get_server_context spoof_original spoof generate_ec_key issue_certificate require_issuer require
    alloc follow enter_context enter_hosts enter_host find_host san_domains san_dns_string names_of
    c_str to_lower bytes_eq
first_starts = refl

second_starts : (shake second_visit later).turn.1 ≡ downstream_handshake
unfolding shake served verify_all verify_server_certificate new_bridge id_of on_upstream_handshake
    get_server_context spoof_original spoof generate_ec_key issue_certificate require_issuer require
    alloc follow enter_context enter_hosts enter_host find_host san_domains san_dns_string names_of
    c_str to_lower bytes_eq
second_starts = refl

shake-same_example :
    (k : Context) × ((shake first_visit fresh).context ≡ some k)
    × ((shake second_visit later).context ≡ some k)
    × (last_answer first_visit.bridge.has_upstream_cert first_visit.answers ≡ true)
    × (last_answer second_visit.bridge.has_upstream_cert second_visit.answers ≡ true)
unfolding new_bridge to_lower
shake-same_example =
    shake-same first_visit second_visit fresh later refl refl first_starts here second_starts refl

abbrev refused_visit : Visit
refused_visit = secure (codes "a.B") (true ∷ false ∷ [])

shake_unverified_example :
    ((shake refused_visit fresh).store ≡ fresh)
    × ((shake refused_visit fresh).context ≡ none)
    × ((shake refused_visit fresh).turn.1 ≡ nothing)
    × ((shake refused_visit fresh).turn.0.killed ≡ true)
unfolding new_bridge
shake_unverified_example = shake_unverified refused_visit fresh refl refl
