-- ===== src/Certificates/Store.antt =====
-- The members of BaseInMemoryCertificateStore.hpp, the objects of OpenSSL that the store owns, and
-- code that works on both and may throw.
use http_filtering_engine.Base.{
  Bytes, ℕ, ◌+◌, Bool, true, false, [], ◌∷◌, List, if◌then◌else◌, ◌==◌, bytes_eq, Option, some,
  none,
}

-- What OpenSSL answers in one call of the store, each call's success as a flag. `EC_KEY_new_by_curve`
-- and the like make an object if they succeed. An extension that was made is taken to be added:
-- `Addx509Extension` does not look at what `X509_add_ext` returns.
pub record Calls : Type 0 where
  pub ec_key_new : Bool
  pub ec_key_generated : Bool
  pub pkey_new : Bool
  pub pkey_set : Bool
  pub x509_new : Bool
  pub version_set : Bool
  pub serial_set : Bool
  pub pubkey_set : Bool
  pub name_there : Bool
  pub country_entered : Bool
  pub organization_entered : Bool
  pub common_name_entered : Bool
  pub constraints_made : Bool
  pub own_issuer_set : Bool
  pub usage_made : Bool
  pub ca_name_there : Bool
  pub issuer_set : Bool
  pub identifier_made : Bool
  pub issued_signed : Bool
  pub alternatives_made : Bool
  pub signed : Bool
  pub certificate_used : Bool
  pub key_used : Bool

-- What a certificate says, as far as the store writes it.
pub record Certificate : Type 0 where
  pub country : Bytes
  pub organization : Bytes
  pub common_name : Bytes
  pub is_ca : Bool
  pub alternatives : Bytes
  pub is_signed : Bool

-- A server's context: the object's number, the certificate and the number of its object, and the
-- number of the key.
pub record Context : Type 0 where
  pub id : ℕ
  pub number : ℕ
  pub certificate : Certificate
  pub key : ℕ

pub data Object : Type 0 where
  ec_key pkey x509 context : ℕ → Object

-- `m_hostContexts` is a map of the C++ library with the equality of texts. `owned` has the objects
-- that were made and not freed, `made` how many were made.
pub record Store : Type 0 where
  pub has_ca : Bool
  pub has_ca_key : Bool
  pub hosts : List (Bytes × Context)
  pub owned : List Object
  pub made : ℕ

-- Code that may throw, with the store that it leaves in either case.
abbrev pub M : Type 0 → Type 0
M A = Store → Store × Option A

abbrev pub pure : {A : Type 0} → A → M A
pure a s = (s, some a)

unfoldable pub follow : {A B : Type 0} → (A → M B) → Store × Option A → Store × Option B
follow f (s, none) = (s, none)
follow f (s, some a) = f a s

infixl 5 ◌>>=◌ ◌>>◌
abbrev pub ◌>>=◌ : {A B : Type 0} → M A → (A → M B) → M B
◌>>=◌ m f s = follow f (m s)

abbrev pub ◌>>◌ : {B : Type 0} → M (Unit {0}) → M B → M B
m >> k = m >>= λ _. k

unfoldable pub same_object : Object → Object → Bool
same_object (ec_key a) (ec_key b) = a == b
same_object (pkey a) (pkey b) = a == b
same_object (x509 a) (x509 b) = a == b
same_object (context a) (context b) = a == b
same_object _ _ = false

unfoldable pub free : Object → List Object → List Object
unfolding same_object
free x [] = []
free x (y ∷ ys) = let rest = free x ys in if same_object x y then ys else y ∷ rest

unfoldable pub free_all : List Object → List Object → List Object
unfolding free
free_all [] owned = owned
free_all (x ∷ xs) owned = free_all xs (free x owned)

-- An object is made.
unfoldable pub alloc : (ℕ → Object) → M ℕ
alloc kind s = (record s { owned = kind s.made ∷ s.owned; made = s.made + 1 }, some s.made)

-- Where the test fails, the objects are freed and an exception thrown.
unfoldable pub require : Bool → List Object → M (Unit {0})
unfolding free_all
require true objects s = (s, some tt)
require false objects s = (record s { owned = free_all objects s.owned }, none)

-- `m_hostContexts.find`.
unfoldable pub find_host : Bytes → List (Bytes × Context) → Option Context
find_host host [] = none
find_host host ((name, c) ∷ m) = if bytes_eq name host then some c else find_host host m
