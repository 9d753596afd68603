-- ===== src/Certificates/Pem.antt =====
-- BaseInMemoryCertificateStore::GetRootCertificatePEM.
use http_filtering_engine.Base.{
  Bytes, ℕ, ◌+◌, ◌-◌, Bool, [], not, if◌then◌else◌, Option, some, none,
}
use http_filtering_engine.Certificates.Store.{Store}

-- What OpenSSL answers: whether a BIO is made, the text that `PEM_write_bio_X509` puts into it if it
-- does not fail, and whether the BIO has a buffer with data.
pub record Writing : Type 0 where
  pub bio_made : Bool
  pub written : Option Bytes
  pub has_data : Bool

-- The text that the BIO holds; empty where the write failed.
unfoldable pub text_of : Writing → Bytes
text_of w = elim w.written [ none ↦ [] | some text ↦ if w.has_data then text else [] ]

-- The text, and how many BIOs are there afterwards: each path behind `BIO_new` frees its own.
unfoldable pub store_pem : Writing → Store → ℕ → Bytes × ℕ
unfolding text_of
store_pem w s bios =
    if not s.has_ca
    then ([], bios)
    else if not w.bio_made
    then ([], bios)
    else let made = bios + 1 in (text_of w, made - 1)
