-- ===== src/Certificates/Windows.antt =====
-- WindowsInMemoryCertificateStore of src/te/httpengine/mitm/secure/WindowsInMemoryCertificateStore.cpp.
-- What Windows does is a parameter.
pub mod Trust
use http_filtering_engine.Base.{
  Bytes, ℕ, zero, suc, ◌+◌, Bool, true, false, not, ◌&&◌, List, [], ◌∷◌, ◌++◌, if◌then◌else◌,
  bytes_eq, take, Option, some, none,
}
use http_filtering_engine.Text.Compare.{c_str}

-- A certificate of the system's store: its display name and its encoding.
pub record OsCertificate : Type 0 where
  pub display_name : Bytes
  pub encoded : Bytes

-- Windows: whether the store can be opened, whether `CertGetNameString` finds a name and
-- `CertDeleteCertificateFromStore` deletes a certificate, and the store after
-- `CertAddEncodedCertificateToStore`, whether that succeeds or not.
pub record System : Type 0 where
  pub opens : Bool
  pub is_named : OsCertificate → Bool
  pub deletes : OsCertificate → Bool
  pub add : Bytes → List OsCertificate → List OsCertificate

-- `shouldRemove`: the name goes through a buffer of 128 bytes.
unfoldable pub should_remove : System → Bytes → OsCertificate → Bool
unfolding c_str bytes_eq
should_remove w name c = w.is_named c && bytes_eq (c_str (take 127 c.display_name)) name

-- The loop, between the certificates that were seen since it last began and those that are left.
-- After a deletion it begins again. The result is the store and whether nothing was thrown; none
-- if the fuel is used up.
unfoldable pub revoke_loop :
    ℕ
    → System
    → Bytes
    → List OsCertificate
    → List OsCertificate
    → Option (List OsCertificate × Bool)
unfolding should_remove
revoke_loop zero w name seen left = none
revoke_loop (suc fuel) w name seen [] = some (seen, true)
revoke_loop (suc fuel) w name seen (c ∷ left) =
    let again = revoke_loop fuel w name [] (seen ++ left) in
    let further = revoke_loop fuel w name (seen ++ (c ∷ [])) left in
    if should_remove w name c
    then if w.deletes c then again else some (seen ++ (c ∷ left), false)
    else further

-- `RevokeOsTrust`.
unfoldable pub revoke_os_trust :
    ℕ → System → Bytes → List OsCertificate → Option (List OsCertificate × Bool)
revoke_os_trust fuel w name store =
    if w.opens then revoke_loop fuel w name [] store else some (store, false)

-- What `EstablishOsTrust` does after `RevokeOsTrust`: nothing looks at whether the certificate was
-- added.
unfoldable pub after_revoke :
    System → Option Bytes → List OsCertificate × Bool → List OsCertificate × Bool
after_revoke w ca (store, false) = (store, false)
after_revoke w none (store, true) = (store, false)
after_revoke w (some encoded) (store, true) =
    if w.opens then (w.add encoded store, true) else (store, false)

-- `EstablishOsTrust`: where it does not throw, it returns true.
unfoldable pub establish_os_trust :
    ℕ → System → Bytes → Option Bytes → List OsCertificate → Option (List OsCertificate × Bool)
establish_os_trust fuel w name ca store = elim (revoke_os_trust fuel w name store) [
  | none ↦ none
  | some r ↦ some (after_revoke w ca r)
]
