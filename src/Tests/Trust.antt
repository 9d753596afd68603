-- ===== src/Tests/Trust.antt =====
-- The system's certificate store and texts at concrete inputs.
use http_filtering_engine.Base.{
  Bytes, Bool, true, List, [], ◌∷◌, ◌++◌, ◌≡◌, refl, codes, some, arith, bytes_eq,
}
use http_filtering_engine.Text.Compare.{c_str}
use http_filtering_engine.Certificates.Windows.{
  OsCertificate, System, should_remove, establish_os_trust, revoke_os_trust, revoke_loop,
  after_revoke,
}
use http_filtering_engine.Certificates.Windows.Trust.{IsEstablished, establish_os_trust-replaces}
use http_filtering_engine.Text.StringRef.{split, split_loop, find_char}

abbrev windows : System
windows = record {
  opens = true;
  is_named = λ _. true;
  deletes = λ _. true;
  add = λ encoded store. store ++ (record { display_name = codes "P"; encoded = encoded } ∷ []);
}

abbrev certificate : Bytes → OsCertificate
certificate name = record { display_name = name; encoded = [] }

abbrev os_store : List OsCertificate
os_store = certificate (codes "P") ∷ certificate (codes "Q") ∷ certificate (codes "P") ∷ []

establish_os_trust-replaces_example :
    (r : List OsCertificate × Bool) × (establish_os_trust 16 windows
        (codes "P")
        (some (1 ∷ []))
        os_store
      ≡ some r)
    × IsEstablished windows (codes "P") (1 ∷ []) os_store r
establish_os_trust-replaces_example =
    establish_os_trust-replaces windows (codes "P") (1 ∷ []) os_store 16 (omega arith)

trusted :
    establish_os_trust 16 windows (codes "P") (some (1 ∷ [])) os_store
    ≡ some
        (certificate (codes "Q") ∷ record { display_name = codes "P"; encoded = 1 ∷ [] } ∷ [], true)
unfolding establish_os_trust revoke_os_trust revoke_loop after_revoke should_remove c_str bytes_eq
trusted = refl

-- A delimiter in front: the rest is taken off byte by byte.
front : split 9 (codes ",ab") b',' ≡ some ([] ∷ [] ∷ [])
unfolding split split_loop find_char
front = refl
