-- ===== src/Certificates/Shown.antt =====
-- The certificate that GetServerContext of BaseInMemoryCertificateStore.cpp shows for a new host.
use http_filtering_engine.Base.{
  Bytes, ℕ, ◌+◌, Bool, true, false, ◌||◌, ◌≡◌, refl, ◌∙◌, ap, ◌&&◌, if◌then◌else◌, arith, [], ◌∷◌,
  List, map, is_empty, Option, some, none, to_lower,
}
use http_filtering_engine.Text.Compare.{c_str}
use http_filtering_engine.Certificates.Store.{
  Calls, Certificate, Context, Object, ec_key, pkey, x509, context, Store, follow, alloc, require,
  find_host,
}
use http_filtering_engine.Certificates.Issue.{generate_ec_key, require_issuer, issue_certificate}
use http_filtering_engine.Certificates.Server.{
  Original, Subject, names_of, san_domains, san_dns_string, enter_context, spoof, spoof_original,
  get_server_context, enter_host, enter_hosts,
}
use http_filtering_engine.Certificates.Again.{enter_context-returns}

-- Every call succeeds.
abbrev pub succeeding : Calls
succeeding = record {
  ec_key_new = true;
  ec_key_generated = true;
  pkey_new = true;
  pkey_set = true;
  x509_new = true;
  version_set = true;
  serial_set = true;
  pubkey_set = true;
  name_there = true;
  country_entered = true;
  organization_entered = true;
  common_name_entered = true;
  constraints_made = true;
  own_issuer_set = true;
  usage_made = true;
  ca_name_there = true;
  issuer_set = true;
  identifier_made = true;
  issued_signed = true;
  alternatives_made = true;
  signed = true;
  certificate_used = true;
  key_used = true;
}

-- What a certificate for the server says.
abbrev pub likeness : Original → Subject → Certificate
likeness original subject = record {
  country = c_str (names_of subject).country;
  organization = c_str (names_of subject).organization;
  common_name = c_str (names_of subject).common_name;
  is_ca = false;
  alternatives = san_dns_string (san_domains original.alternatives);
  is_signed = true;
}

or_true : (b : Bool) → (b || true) ≡ true
or_true true = refl
or_true false = refl

issuer_there : (x : ℕ) (s : Store) → s.has_ca ≡ true → require_issuer succeeding x s ≡ (s, some tt)
unfolding require_issuer require follow
issuer_there x s ca = rw (ca) refl

-- Where every call succeeds, the host is entered, with four objects more.
spoof-enter :
    (host : Bytes) (original : Original) (subject : Subject) (s : Store)
    → s.has_ca ≡ true
    → let e = s.made in
      let p = e + 1 in
      let x = p + 1 in
      let k = x + 1 in
      spoof succeeding host original subject s
      ≡ enter_context
          (san_domains original.alternatives)
          host
          (record { id = k; number = x; certificate = likeness original subject; key = p })
          (pkey p ∷ (x509 x ∷ (context k ∷ [])))
          (record s {
            owned = context k ∷ (x509 x ∷ (pkey p ∷ (ec_key e ∷ s.owned)));
            made = k + 1;
          })
unfolding spoof generate_ec_key issue_certificate require alloc follow
spoof-enter host original subject s ca =
    let x = s.made + 1 + 1 in
    let t = record s {
      owned = x509 x ∷ (pkey (s.made + 1) ∷ (ec_key s.made ∷ s.owned));
      made = x + 1;
    } in
    rw
      (issuer_there x t ca, or_true (is_empty (san_dns_string (san_domains original.alternatives))))
      refl

-- The certificate that is shown, if any.
abbrev pub shown : Option Context → Option Certificate
shown none = none
shown (some k) = some k.certificate

-- The context that such a call makes, and the objects that are there then.
abbrev pub made_context : Original → Subject → Store → Context
made_context original subject s =
    let p = s.made + 1 in
    record { id = p + 1 + 1; number = p + 1; certificate = likeness original subject; key = p }

abbrev pub made_objects : Store → List Object
made_objects s =
    let p = s.made + 1 in
    context (p + 1 + 1) ∷ (x509 (p + 1) ∷ (pkey p ∷ (ec_key s.made ∷ s.owned)))

both : (a b : Bool) → a ≡ true → b ≡ true → (a && b) ≡ true
both a b h k = ground arith

asked :
    (hostname : Bytes) (original : Original) (s : Store)
    → find_host (map to_lower hostname) s.hosts ≡ none
    → get_server_context succeeding hostname (some original) s ≡ (
        if s.has_ca && s.has_ca_key
        then spoof_original succeeding (map to_lower hostname) (some original) s
        else (s, none))
unfolding get_server_context
asked hostname original s new = rw (get_server_context, new) refl

subject-spoof :
    (host : Bytes) (original : Original) (subject : Subject) (s : Store)
    → original.subject ≡ some subject
    → spoof_original succeeding host (some original) s ≡ spoof succeeding host original subject s
unfolding spoof_original spoof
subject-spoof host original subject s there = rw (spoof_original, there) refl

-- The whole outcome of a call for a new host where everything succeeds.
pub get_server_context-new :
    (hostname : Bytes) (original : Original) (subject : Subject) (s : Store)
    → s.has_ca ≡ true
    → s.has_ca_key ≡ true
    → find_host (map to_lower hostname) s.hosts ≡ none
    → original.subject ≡ some subject
    → let k = made_context original subject s in
      let domains = san_domains original.alternatives in
      get_server_context succeeding hostname (some original) s ≡ (
        record s {
          hosts = (enter_host (map to_lower hostname) k (enter_hosts domains k (s.hosts, false))).0;
          owned = made_objects s;
          made = s.made + 1 + 1 + 1 + 1;
        },
        some k,
      )
get_server_context-new hostname original subject s ca key new there =
    let host = map to_lower hostname in
    let k = made_context original subject s in
    let objects = pkey k.key ∷ (x509 k.number ∷ (context k.id ∷ [])) in
    let t = record s { owned = made_objects s; made = s.made + 1 + 1 + 1 + 1 } in
    asked hostname original s new
    ∙ (ap (λ b. if b then spoof_original succeeding host (some original) s else (s, none))
          (both s.has_ca s.has_ca_key ca key)
        ∙ (subject-spoof host original subject s there
            ∙ (spoof-enter host original subject s ca
                ∙ enter_context-returns (san_domains original.alternatives) host k objects t new)))

-- What is shown where everything succeeds, and the objects that are made and not freed.
get_server_context-objects :
    (hostname : Bytes) (original : Original) (subject : Subject) (s : Store)
    → s.has_ca ≡ true
    → s.has_ca_key ≡ true
    → find_host (map to_lower hostname) s.hosts ≡ none
    → original.subject ≡ some subject
    → let r = get_server_context succeeding hostname (some original) s in
      let p = s.made + 1 in
      (shown r.1 ≡ some (likeness original subject))
      × (r.0.owned ≡ context (p + 1 + 1) ∷ (x509 (p + 1) ∷ (pkey p ∷ (ec_key s.made ∷ s.owned))))
get_server_context-objects hostname original subject s ca key new there =
    rw (get_server_context-new hostname original subject s ca key new there) (refl, refl)
