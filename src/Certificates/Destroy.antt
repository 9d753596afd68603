-- ===== src/Certificates/Destroy.antt =====
-- The destructor of BaseInMemoryCertificateStore.cpp.
pub mod Once
pub mod Aliases
use http_filtering_engine.Base.{
  Bytes, ℕ, ◌+◌, ◌<◌, ◌==◌, Bool, true, false, ◌||◌, ◌≡◌, refl, ◌∙◌, [], ◌∷◌, List, if◌then◌else◌,
  Option, some, none, arith,
}
use http_filtering_engine.Http.Results.{by_test}
use http_filtering_engine.Certificates.Store.{
  Context, Object, ec_key, pkey, x509, context, Store, same_object, free, free_all,
}

unfoldable owns : Object → List Object → Bool
unfolding same_object
owns x [] = false
owns x (y ∷ ys) = let rest = owns x ys in same_object x y || rest

-- The loop, in the order of the map. It reads the context of each entry, frees its key and its
-- certificate and deletes it. Without a result, a context was used after it was deleted.
unfoldable destroy_contexts : List (Bytes × Context) → List Object → Option (List Object)
unfolding owns free_all
destroy_contexts [] owned = some owned
destroy_contexts ((_, k) ∷ hosts) owned =
    let rest =
      destroy_contexts hosts
        (free_all (pkey k.key ∷ (x509 k.number ∷ (context k.id ∷ []))) owned) in
    if owns (context k.id) owned then rest else none

-- The destructor.
unfoldable pub destroy : Store → Option (List Object)
unfolding destroy_contexts
destroy s = destroy_contexts s.hosts s.owned

-- How many objects are the context, and how many names have it.
unfoldable pub objects_of : ℕ → List Object → ℕ
unfolding same_object
objects_of id [] = 0
objects_of id (y ∷ ys) =
    let rest = objects_of id ys in if same_object (context id) y then 1 + rest else rest

unfoldable pub names_with : ℕ → List (Bytes × Context) → ℕ
names_with id [] = 0
names_with id ((_, k) ∷ hosts) =
    let rest = names_with id hosts in if k.id == id then 1 + rest else rest

-- What is no context is never taken for one.
same-other :
    (id : ℕ) (x y : Object)
    → same_object (context id) x ≡ false
    → same_object x y ≡ true
    → same_object (context id) y ≡ false
unfolding same_object
same-other id x (ec_key m) d e = refl
same-other id x (pkey m) d e = refl
same-other id x (x509 m) d e = refl
same-other id (context n) (context m) d e = ground arith
same-other id (ec_key n) (context m) d e = ground arith
same-other id (pkey n) (context m) d e = ground arith
same-other id (x509 n) (context m) d e = ground arith

objects_of-free_other :
    (id : ℕ) (x : Object) (ys : List Object)
    → same_object (context id) x ≡ false
    → objects_of id (free x ys) ≡ objects_of id ys
unfolding objects_of free
objects_of-free_other id x [] d = refl
objects_of-free_other id x (y ∷ ys) d =
    ground (arith, same-other id x y d, objects_of-free_other id x ys d)

owns-free_other :
    (id : ℕ) (x : Object) (ys : List Object)
    → same_object (context id) x ≡ false
    → owns (context id) (free x ys) ≡ owns (context id) ys
unfolding owns free
owns-free_other id x [] d = refl
owns-free_other id x (y ∷ ys) d = ground (arith, same-other id x y d, owns-free_other id x ys d)

-- Deleting a context that is there takes one object of it, and none of another.
objects_of-free_context :
    (id n : ℕ) (ys : List Object)
    → owns (context n) ys ≡ true
    → objects_of id (free (context n) ys) + (if n == id then 1 else 0) ≡ objects_of id ys
unfolding objects_of free same_object owns
objects_of-free_context id n [] e = ground arith
objects_of-free_context id n (context m ∷ ys) e = ground (arith, objects_of-free_context id n ys)
objects_of-free_context id n (ec_key m ∷ ys) e = objects_of-free_context id n ys e
objects_of-free_context id n (pkey m ∷ ys) e = objects_of-free_context id n ys e
objects_of-free_context id n (x509 m ∷ ys) e = objects_of-free_context id n ys e

-- What the deletion of an entry leaves of a context.
objects_of-entry :
    (id : ℕ) (k : Context) (owned : List Object)
    → owns (context k.id) owned ≡ true
    → objects_of id (free_all (pkey k.key ∷ (x509 k.number ∷ (context k.id ∷ []))) owned)
        + (if k.id == id then 1 else 0)
      ≡ objects_of id owned
unfolding free_all same_object
objects_of-entry id k owned e =
    let one = free (pkey k.key) owned in
    let two = free (x509 k.number) one in
    let there =
      owns-free_other k.id (x509 k.number) one refl
      ∙ owns-free_other k.id (pkey k.key) owned refl in
    objects_of-free_context id k.id two (there ∙ e)
    ∙ (objects_of-free_other id (x509 k.number) one refl
        ∙ objects_of-free_other id (pkey k.key) owned refl)

destroy_contexts-twice :
    (hosts : List (Bytes × Context)) (id : ℕ) (owned : List Object)
    → objects_of id owned < names_with id hosts
    → destroy_contexts hosts owned ≡ none
unfolding destroy_contexts names_with
destroy_contexts-twice [] id owned h = ground arith
destroy_contexts-twice ((_, k) ∷ hosts) id owned h =
    let left = free_all (pkey k.key ∷ (x509 k.number ∷ (context k.id ∷ []))) owned in
    by_test (λ r. r ≡ none) (owns (context k.id) owned) (destroy_contexts hosts left) none
      (λ e. destroy_contexts-twice hosts id left (ground (arith, objects_of-entry id k owned e)))
      (λ _. refl)

-- Where more host names have a context than there are objects of it, in whatever order the map
-- lists them, the destructor uses a context that it has deleted.
pub destroy-twice :
    (s : Store) (id : ℕ) → objects_of id s.owned < names_with id s.hosts → destroy s ≡ none
unfolding destroy
destroy-twice s id h = destroy_contexts-twice s.hosts id s.owned h
