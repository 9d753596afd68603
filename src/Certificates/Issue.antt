-- ===== src/Certificates/Issue.antt =====
-- GenerateEcKey, Addx509Extension, IssueCertificate, GenerateSelfSignedCert and the constructor of
-- BaseInMemoryCertificateStore.cpp.
use http_filtering_engine.Base.{
  Bytes, ℕ, Bool, true, false, not, ◌||◌, [], ◌∷◌, if◌then◌else◌, Option, some,
}
use http_filtering_engine.Text.Compare.{c_str}
use http_filtering_engine.Certificates.Store.{
  Calls, Certificate, ec_key, pkey, x509, Store, M, pure, ◌>>=◌, ◌>>◌, alloc, require,
}

-- The texts of a subject.
pub record Names : Type 0 where
  pub country : Bytes
  pub organization : Bytes
  pub common_name : Bytes

-- `GenerateEcKey`. The EC key is never freed: `EVP_PKEY_set1_EC_KEY` takes a reference of its own.
unfoldable pub generate_ec_key : Calls → M ℕ
generate_ec_key c = do
  require c.ec_key_new []
  e ← alloc ec_key
  require c.ec_key_generated []
  require c.pkey_new []
  p ← alloc pkey
  require c.pkey_set (pkey p ∷ [])
  pure p

-- The part for the certificate of an authority, and the part for any other.
unfoldable pub require_authority : Calls → ℕ → M (Unit {0})
require_authority c x = do
  require c.constraints_made (x509 x ∷ [])
  require c.own_issuer_set (x509 x ∷ [])
  require c.usage_made (x509 x ∷ [])

unfoldable pub require_issuer : Calls → ℕ → M (Unit {0})
require_issuer c x s =
    (do
      require s.has_ca (x509 x ∷ [])
      require c.ca_name_there (x509 x ∷ [])
      require c.issuer_set (x509 x ∷ []))
      s

-- An entry of the subject: a text up to its first NUL byte. Failures are ignored.
abbrev pub entry : Bool → Bytes → Bytes
entry entered text = if entered then c_str text else []

-- `IssueCertificate`, with whether it is given a key to sign with. It throws in place of returning a
-- null pointer. The result is the object and what it says.
unfoldable pub issue_certificate : Calls → Bool → Bool → Names → M (ℕ × Certificate)
issue_certificate c signs is_ca names = do
  require c.x509_new []
  x ← alloc x509
  require c.version_set (x509 x ∷ [])
  require c.serial_set (x509 x ∷ [])
  require c.pubkey_set (x509 x ∷ [])
  require c.name_there (x509 x ∷ [])
  (if is_ca then require_authority c x else require_issuer c x)
  require c.identifier_made (x509 x ∷ [])
  require (not signs || c.issued_signed) (x509 x ∷ [])
  pure (
    x,
    record {
      country = entry c.country_entered names.country;
      organization = entry c.organization_entered names.organization;
      common_name = entry c.common_name_entered names.common_name;
      is_ca = is_ca;
      alternatives = [];
      is_signed = signs;
    },
  )

-- `GenerateSelfSignedCert`.
unfoldable pub generate_self_signed_cert : Calls → Names → M (ℕ × Certificate)
generate_self_signed_cert c names = issue_certificate c true true names

-- The constructor.
unfoldable pub new_store : Calls → Names → Store × Option (Unit {0})
new_store c names =
    (do
      p ← generate_ec_key c
      x ← generate_self_signed_cert c names
      λ s. (record s { has_ca = true; has_ca_key = true }, some tt))
      (record { has_ca = false; has_ca_key = false; hosts = []; owned = []; made = 0 })
