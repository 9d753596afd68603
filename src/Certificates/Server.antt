-- ===== src/Certificates/Server.antt =====
-- GetServerContext of BaseInMemoryCertificateStore.cpp.
use http_filtering_engine.Base.{
  Bytes, Bool, true, false, ◌&&◌, ◌||◌, [], ◌∷◌, ◌++◌, List, map, if◌then◌else◌, Option, some, none,
  codes, to_lower, length, ◌==◌, is_empty,
}
use http_filtering_engine.Text.Compare.{c_str}
use http_filtering_engine.Certificates.Store.{
  Calls, Context, Object, pkey, x509, context, M, pure, ◌>>=◌, ◌>>◌, alloc, require, find_host,
}
use http_filtering_engine.Certificates.Issue.{Names, generate_ec_key, issue_certificate}

-- `GENERAL_NAME`: the data of a DNS name, or any other kind.
pub data GeneralName : Type 0 where
  dns : Bytes → GeneralName
  other : GeneralName

-- The certificate of the server: its subject, if it is there, with each text as
-- `X509_NAME_get_text_by_NID` copies it, in at most 1023 bytes, if it is there; and its alternative
-- names.
pub record Subject : Type 0 where
  pub country : Option Bytes
  pub organization : Option Bytes
  pub common_name : Option Bytes

pub record Original : Type 0 where
  pub subject : Option Subject
  pub alternatives : List GeneralName

-- A length below 0 counts as 0.
abbrev pub text_or_empty : Option Bytes → Bytes
text_or_empty none = []
text_or_empty (some text) = text

unfoldable pub names_of : Subject → Names
names_of s = record {
  country = text_or_empty s.country;
  organization = text_or_empty s.organization;
  common_name = text_or_empty s.common_name;
}

-- `sanDomains`: the DNS names without a NUL byte, in lower case.
unfoldable pub san_domains : List GeneralName → List Bytes
unfolding c_str to_lower
san_domains [] = []
san_domains (other ∷ names) = san_domains names
san_domains (dns text ∷ names) =
    let rest = san_domains names in
    if length (c_str text) == length text then map to_lower (c_str text) ∷ rest else rest

-- `sanDnsString`.
unfoldable pub more_dns : List Bytes → Bytes
more_dns [] = []
more_dns (domain ∷ domains) = codes ",DNS:" ++ (domain ++ more_dns domains)

unfoldable pub san_dns_string : List Bytes → Bytes
unfolding more_dns
san_dns_string [] = []
san_dns_string (domain ∷ domains) = codes "DNS:" ++ (domain ++ more_dns domains)

-- An insertion where nothing is found; the flag says that there was one.
unfoldable pub enter_host :
    Bytes → Context → List (Bytes × Context) × Bool → List (Bytes × Context) × Bool
unfolding find_host
enter_host host c (m, done) = elim (find_host host m) [
  | none ↦ ((host, c) ∷ m, true)
  | some d ↦ (m, done)
]

unfoldable pub enter_hosts :
    List Bytes → Context → List (Bytes × Context) × Bool → List (Bytes × Context) × Bool
unfolding enter_host
enter_hosts [] c r = r
enter_hosts (host ∷ hosts) c r = enter_hosts hosts c (enter_host host c r)

-- The end of `GetServerContext`: the domains and then the host are entered.
unfoldable pub enter_context : List Bytes → Bytes → Context → List Object → M Context
enter_context domains host c objects s =
    let r = enter_host host c (enter_hosts domains c (s.hosts, false)) in
    (require r.1 objects >> pure c) (record s { hosts = r.0 })

-- The part that makes a certificate and a context.
unfoldable pub spoof : Calls → Bytes → Original → Subject → M Context
spoof c host original subject = do
  p ← generate_ec_key c
  x ← issue_certificate c false false (names_of subject)
  let domains = san_domains original.alternatives
  let owned : List Object = pkey p ∷ (x509 x.0 ∷ [])
  require (is_empty (san_dns_string domains) || c.alternatives_made) owned
  require c.signed owned
  k ← alloc context
  require c.certificate_used owned
  require c.key_used owned
  enter_context domains host
      (record {
        id = k;
        number = x.0;
        certificate = record x.1 { alternatives = san_dns_string domains; is_signed = true };
        key = p;
      })
      (pkey p ∷ (x509 x.0 ∷ (context k ∷ [])))

unfoldable pub spoof_original : Calls → Bytes → Option Original → M Context
spoof_original c host none s = (s, none)
spoof_original c host (some original) s = elim original.subject [
  | none ↦ (s, none)
  | some subject ↦ spoof c host original subject s
]

-- `GetServerContext`.
unfoldable pub get_server_context : Calls → Bytes → Option Original → M Context
get_server_context c hostname original s =
    let host = map to_lower hostname in
    elim (find_host host s.hosts) [
      | some found ↦ (s, some found)
      | none ↦ if s.has_ca && s.has_ca_key then spoof_original c host original s else (s, none)
    ]
