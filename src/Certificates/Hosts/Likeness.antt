-- ===== src/Certificates/Hosts/Likeness.antt =====
-- The certificates that GetServerContext of BaseInMemoryCertificateStore.cpp shows for new hosts.
use http_filtering_engine.Base.{
  Bytes, Bool, true, false, ◌≡◌, ◌≢◌, List, [], ◌∷◌, ◌++◌, map, All, codes, Option, some, none, ◌⊎◌,
  to_lower,
}
use http_filtering_engine.Certificates.Store.{Calls, Certificate, Store}
use http_filtering_engine.Certificates.Issue.{Names, entry}
use http_filtering_engine.Certificates.Server.{GeneralName, dns, other, Original, Subject}

abbrev pub HasNoNul : Bytes → Type 0
HasNoNul text = All (λ c. c ≢ 0) text

-- The DNS names among the alternative names, in their order and in lower case, without those that
-- have a NUL byte.
pub data DnsNames : List GeneralName → List Bytes → Type 0 where
  no_more : DnsNames [] []
  named :
      {names : List GeneralName} {domains : List Bytes} (text : Bytes)
      → HasNoNul text
      → DnsNames names domains
      → DnsNames (dns text ∷ names) (map to_lower text ∷ domains)
  with_nul :
      {names : List GeneralName} {domains : List Bytes} (before after : Bytes)
      → DnsNames names domains
      → DnsNames (dns (before ++ (0 ∷ after)) ∷ names) domains
  no_dns :
      {names : List GeneralName} {domains : List Bytes}
      → DnsNames names domains
      → DnsNames (other ∷ names) domains

-- A text of a subject up to its first NUL byte.
abbrev pub IsText : Option Bytes → Bytes → Type 0
IsText none t = t ≡ []
IsText (some text) t = HasNoNul t × ((text ≡ t) ⊎ ((after : Bytes) × (text ≡ t ++ (0 ∷ after))))

-- The same, if it could be entered.
abbrev pub IsEntry : Bool → Option Bytes → Bytes → Type 0
IsEntry true text t = IsText text t
IsEntry false text t = t ≡ []

abbrev pub comma_separated : List Bytes → Bytes
comma_separated [] = []
comma_separated (text ∷ []) = text
comma_separated (text ∷ next ∷ texts) = text ++ (codes "," ++ comma_separated (next ∷ texts))

-- What a certificate in a server's place says.
pub record Resembles (c : Calls) (original : Original) (t : Certificate) : Type 0 where
  pub subject : Subject
  pub there : original.subject ≡ some subject
  pub country : IsEntry c.country_entered subject.country t.country
  pub organization : IsEntry c.organization_entered subject.organization t.organization
  pub common_name : IsEntry c.common_name_entered subject.common_name t.common_name
  pub domains : List Bytes
  pub names : DnsNames original.alternatives domains
  pub listed : t.alternatives ≡ comma_separated (map (λ domain. codes "DNS:" ++ domain) domains)
  pub plain : t.is_ca ≡ false
  pub signed : t.is_signed ≡ true

-- What IssueCertificate writes for a server.
record Issued (c : Calls) (names : Names) (t : Certificate) : Type 0 where
  country : t.country ≡ entry c.country_entered names.country
  organization : t.organization ≡ entry c.organization_entered names.organization
  common_name : t.common_name ≡ entry c.common_name_entered names.common_name
  plain : t.is_ca ≡ false
