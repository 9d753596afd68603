-- ===== src/Certificates/Extension.antt =====
-- Addx509Extension of BaseInMemoryCertificateStore.cpp.
use http_filtering_engine.Base.{
  Bytes, ℕ, ◌+◌, ◌-◌, Bool, true, false, not, List, [], ◌∷◌, ◌++◌, if◌then◌else◌, ◌≡◌, refl, arith,
}
use http_filtering_engine.Text.Compare.{c_str}

-- The extensions of the certificate, each a number and a value, and how many arrays and extension
-- objects are there.
pub record Extending : Type 0 where
  pub extensions : List (ℕ × Bytes)
  pub arrays : ℕ
  pub objects : ℕ

-- Given whether `X509V3_EXT_conf_nid` makes an extension and whether `X509_add_ext` adds a copy of
-- it, which is not looked at. The value is copied with a NUL byte behind it.
unfoldable pub add_x509_extension : Bool → Bool → ℕ → Bytes → Extending → Extending × Bool
add_x509_extension made added nid value s =
    let copied = record s { arrays = s.arrays + 1 } in
    if not made
    then (record copied { arrays = copied.arrays - 1 }, false)
    else let with_object = record copied { objects = copied.objects + 1 } in
      let extended =
        if added
        then record with_object { extensions = s.extensions ++ (nid, c_str value) ∷ [] }
        else with_object in
      (record extended { objects = extended.objects - 1; arrays = extended.arrays - 1 }, true)

-- Nothing stays behind on any branch. A failure of `X509V3_EXT_conf_nid` is told; one of
-- `X509_add_ext` is not, and leaves the certificate without the extension.
add_x509_extension_lem :
    (made added : Bool) (nid : ℕ) (value : Bytes) (s : Extending)
    → let r = add_x509_extension made added nid value s in
      (r.1 ≡ made)
      × (r.0.arrays ≡ s.arrays)
      × (r.0.objects ≡ s.objects)
      × (r.0.extensions ≡ (
          if made
          then (if added then s.extensions ++ (nid, c_str value) ∷ [] else s.extensions)
          else s.extensions))
unfolding add_x509_extension
add_x509_extension_lem true true nid value s = (refl, omega arith, omega arith, refl)
add_x509_extension_lem true false nid value s = (refl, omega arith, omega arith, refl)
add_x509_extension_lem false added nid value s = (refl, omega arith, refl, refl)
