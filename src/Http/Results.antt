-- ===== src/Http/Results.antt =====
-- Predicates on results that may be missing, and splits on the tests of a body.
use http_filtering_engine.Base.{
  Bytes, ℕ, Bool, true, false, if◌then◌else◌, ◌≡◌, refl, Option, none, some,
}
use http_filtering_engine.Http.State.{Result, ok, thrown, ◌>>=◌, Kind, request, response}

-- What is in a result, if there is one.
abbrev pub Holds {ℓ} : {A : Type ℓ} → (A → Type 0) → Result A → Type 0
Holds P (ok a) = P a
Holds P thrown = Unit

pub Holds-bind {ℓ κ} :
    {A : Type ℓ} {B : Type κ} (P : A → Type 0) (Q : B → Type 0) (r : Result A) (f : A → Result B)
    → Holds P r
    → ((a : A) → P a → Holds Q (f a))
    → Holds Q (r >>= f)
Holds-bind P Q (ok a) f h k = k a h
Holds-bind P Q thrown f h k = tt

pub Holds-any {ℓ} : {A : Type ℓ} (r : Result A) → Holds (λ _. Unit) r
Holds-any (ok a) = tt
Holds-any thrown = tt

-- A split on a test, and on a callback's result.
pub by_if {ℓ} :
    {B : Type ℓ} (P : B → Type 0) (b : Bool) (x y : B) → P x → P y → P (if b then x else y)
by_if P true x y h k = h
by_if P false x y h k = k

pub by_option {ℓ} :
    {A B : Type 0} (P : B → Type ℓ) (o : Option A) (x : B) (f : A → B)
    → (o ≡ none → P x)
    → ((a : A) → o ≡ some a → P (f a))
    → P (elim o [ none ↦ x | some a ↦ f a ])
by_option P none x f h k = h refl
by_option P (some a) x f h k = k a refl

pub by_flag {ℓ} :
    {B : Type ℓ} (P : B → Type 0) (b : Bool) (x y : B)
    → P x
    → P y
    → P (elim b [ true ↦ x | false ↦ y ])
by_flag P true x y h k = h
by_flag P false x y h k = k

-- A split on the subclass.
pub by_kind {ℓ} :
    {B : Type ℓ} (P : B → Type 0) (k : Kind) (f : Bytes → ℕ → B) (g : ℕ → Bytes → B)
    → ((u : Bytes) (m : ℕ) → P (f u m))
    → ((c : ℕ) (s : Bytes) → P (g c s))
    → P (elim k [ request u m ↦ f u m | response c s ↦ g c s ])
by_kind P (request u m) f g h i = h u m
by_kind P (response c s) f g h i = i c s

-- A split on a test that keeps its value.
pub by_test {ℓ} :
    {B : Type ℓ} (P : B → Type 0) (b : Bool) (x y : B)
    → (b ≡ true → P x)
    → (b ≡ false → P y)
    → P (if b then x else y)
by_test P true x y h k = h refl
by_test P false x y h k = k refl

pub Holds-all {ℓ} : {A : Type ℓ} (P : A → Type 0) → ((a : A) → P a) → (r : Result A) → Holds P r
Holds-all P f (ok a) = f a
Holds-all P f thrown = tt
