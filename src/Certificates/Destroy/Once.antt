-- ===== src/Certificates/Destroy/Once.antt =====
-- The destructor of BaseInMemoryCertificateStore.cpp where each host name has an object of its own.
use http_filtering_engine.Base.{
  Bytes, ℕ, ◌+◌, ◌<◌, ◌≤◌, true, ◌≡◌, refl, ◌∙◌, ap, [], ◌∷◌, List, if◌then◌else◌, Option, some,
  none, arith,
}
use http_filtering_engine.Certificates.Store.{Context, Object, pkey, x509, context, Store, free_all}
use http_filtering_engine.Certificates.Destroy.{
  owns, destroy_contexts, destroy, objects_of, names_with, objects_of-entry,
}

-- Every context that a host name has is there as often as host names have it.
abbrev pub HasEach : List (Bytes × Context) → List Object → Type 0
HasEach hosts owned = (id : ℕ) → names_with id hosts ≤ objects_of id owned

owns-there : (id : ℕ) (ys : List Object) → 0 < objects_of id ys → owns (context id) ys ≡ true
unfolding owns objects_of
owns-there id [] h = absurd (omega arith)
owns-there id (y ∷ ys) h = ground (arith, owns-there id ys)

-- What the destructor leaves: of each context as many objects less as host names had it.
abbrev pub Leaves : List (Bytes × Context) → List Object → Option (List Object) → Type 0
Leaves hosts owned r =
    (left : List Object) × (r ≡ some left)
    × ((id : ℕ) → objects_of id left + names_with id hosts ≡ objects_of id owned)

names-first :
    (name : Bytes) (k : Context) (hosts : List (Bytes × Context))
    → 0 < names_with k.id ((name, k) ∷ hosts)
unfolding names_with
names-first name k hosts = ground arith

destroy_contexts-Leaves :
    (hosts : List (Bytes × Context)) (owned : List Object)
    → HasEach hosts owned
    → Leaves hosts owned (destroy_contexts hosts owned)
unfolding destroy_contexts names_with
destroy_contexts-Leaves [] owned h = (owned, refl, λ id. omega arith)
destroy_contexts-Leaves ((name, k) ∷ hosts) owned h =
    let there = owns-there k.id owned (omega (arith, names-first name k hosts, h k.id)) in
    let left = free_all (pkey k.key ∷ (x509 k.number ∷ (context k.id ∷ []))) owned in
    let each : HasEach hosts left = λ id. ground (arith, objects_of-entry id k owned there, h id) in
    let r = destroy_contexts-Leaves hosts left each in
    (
      r.0,
      ap (λ b. if b then destroy_contexts hosts left else none) there ∙ r.1,
      λ id. ground (arith, objects_of-entry id k owned there, r.2 id),
    )

-- Where the store has at least as many objects of each context as host names that have it, the
-- destructor ends without using a deleted context, and frees for each host name one object of its
-- context, and no other context.
pub destroy-Leaves : (s : Store) → HasEach s.hosts s.owned → Leaves s.hosts s.owned (destroy s)
unfolding destroy
destroy-Leaves s h = destroy_contexts-Leaves s.hosts s.owned h
