-- ===== src/Certificates/Hosts/Returning.antt =====
-- When GetServerContext of BaseInMemoryCertificateStore.cpp returns a context for a new host.
use http_filtering_engine.Base.{
  Bytes, Bool, true, false, not, ◌&&◌, ◌||◌, ◌≡◌, List, [], ◌∷◌, Option, some, none, ◌==◌,
}
use http_filtering_engine.Certificates.Store.{Calls, Context, Store}
use http_filtering_engine.Certificates.Server.{GeneralName, dns, other, Original}

abbrev pub all_of : List Bool → Bool
all_of [] = true
all_of (b ∷ bs) = b && all_of bs

abbrev pub returns : {A : Type 0} → Store × Option A → Bool
returns (s, none) = false
returns (s, some a) = true

abbrev pub has_subject : Original → Bool
has_subject original = elim original.subject [ none ↦ false | some subject ↦ true ]

abbrev pub is_plain : Bytes → Bool
is_plain [] = true
is_plain (c ∷ text) = let rest = is_plain text in not (c == 0) && rest

-- Whether one of the alternative names is a DNS name without a NUL byte.
abbrev pub has_dns : List GeneralName → Bool
has_dns [] = false
has_dns (other ∷ names) = has_dns names
has_dns (dns text ∷ names) = let rest = has_dns names in is_plain text || rest

-- The calls that a new certificate and its context need: a key, the certificate with its issuer,
-- its signature and its use by the context.
abbrev pub needed : Calls → Original → List Bool
needed c original =
    c.ec_key_new
    ∷ c.ec_key_generated
    ∷ c.pkey_new
    ∷ c.pkey_set
    ∷ c.x509_new
    ∷ c.version_set
    ∷ c.serial_set
    ∷ c.pubkey_set
    ∷ c.name_there
    ∷ c.ca_name_there
    ∷ c.issuer_set
    ∷ c.identifier_made
    ∷ (not (has_dns original.alternatives) || c.alternatives_made)
    ∷ c.signed
    ∷ c.certificate_used
    ∷ c.key_used
    ∷ []

-- Code that returns just if a test holds, and what holds then.
data Passes {A : Type 0} (P : Store → Type 0) : Bool → Store × Option A → Type 0 where
  passed : (a : A) (s : Store) → P s → Passes P true (s, some a)
  stopped : (s : Store) → Passes P false (s, none)

module _ (hosts : List (Bytes × Context)) (has_ca : Bool) where
  -- The hosts and the authority are as they were.
  abbrev Kept : Store → Type 0
  Kept s = (s.hosts ≡ hosts) × (s.has_ca ≡ has_ca)

  abbrev keying : Calls → List Bool
  keying c = c.ec_key_new ∷ c.ec_key_generated ∷ c.pkey_new ∷ c.pkey_set ∷ []

  abbrev issuing : Calls → List Bool
  issuing c =
      c.x509_new ∷ c.version_set ∷ c.serial_set ∷ c.pubkey_set ∷ c.name_there ∷ has_ca
      ∷ c.ca_name_there ∷ c.issuer_set ∷ c.identifier_made ∷ []

  abbrev using : Calls → Original → List Bool
  using c original =
      (not (has_dns original.alternatives) || c.alternatives_made)
      ∷ c.signed
      ∷ c.certificate_used
      ∷ c.key_used
      ∷ []
