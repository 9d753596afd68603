-- ===== src/Certificates/Hosts.antt =====
-- What GetServerContext of BaseInMemoryCertificateStore.cpp leaves in the map of hosts.
pub mod Likeness
pub mod Returning
use http_filtering_engine.Base.{
  Bytes, ℕ, Bool, true, false, ◌&&◌, ◌≡◌, ◌∙◌, ap, sym, List, map, if◌then◌else◌, Option, some,
  none, to_lower,
}
use http_filtering_engine.Certificates.Store.{
  Calls, Context, Object, Store, M, follow, alloc, require, find_host,
}
use http_filtering_engine.Certificates.Issue.{
  Names, generate_ec_key, require_authority, require_issuer, issue_certificate,
}
use http_filtering_engine.Certificates.Server.{
  Original, Subject, names_of, enter_context, spoof, spoof_original, get_server_context,
}
use http_filtering_engine.Http.Results.{by_if, by_option}
use http_filtering_engine.Certificates.Entering.{Hosts}

-- What holds when code returns, and when it throws.
unfoldable pub Ends :
    {A : Type 0} → (A → Store → Type 0) → (Store → Type 0) → Store × Option A → Type 0
Ends Q E (s, none) = E s
Ends Q E (s, some a) = Q a s

-- A split on an option that keeps its value.
module _ (h : Hosts) where
  abbrev pub Has : Store → Type 0
  Has s = s.hosts ≡ h

  abbrev pub Keeps : {A : Type 0} → M A → Type 0
  Keeps m = (s : Store) → s.hosts ≡ h → Ends (λ _. Has) Has (m s)

  follow-Ends :
      {A B : Type 0} (Q : B → Store → Type 0) (f : A → M B) (r : Store × Option A)
      → Ends (λ _. Has) Has r
      → ((a : A) (s : Store) → Has s → Ends Q Has (f a s))
      → Ends Q Has (follow f r)
  unfolding Ends follow
  follow-Ends Q f (s, none) e k = e
  follow-Ends Q f (s, some a) e k = k a s e

  pure-Ends : {A : Type 0} (a : A) (s : Store) → Has s → Ends {A = A} (λ _. Has) Has (s, some a)
  unfolding Ends
  pure-Ends a s e = e

  require-Ends :
      (b : Bool) (objects : List Object) (s : Store)
      → Has s
      → Ends (λ _. Has) Has (require b objects s)
  unfolding require Ends
  require-Ends true objects s e = e
  require-Ends false objects s e = e

  alloc-Ends : (kind : ℕ → Object) (s : Store) → Has s → Ends (λ _. Has) Has (alloc kind s)
  unfolding alloc Ends
  alloc-Ends kind s e = e

  -- One step, and what follows it.
  require_then :
      {B : Type 0} (Q : B → Store → Type 0) (f : Unit {0} → M B) (b : Bool) (objects : List Object)
      (s : Store)
      → Has s
      → ((a : Unit {0}) (t : Store) → Has t → Ends Q Has (f a t))
      → Ends Q Has (follow f (require b objects s))
  require_then Q f b objects s e k = follow-Ends Q f _ (require-Ends b objects s e) k

  alloc_then :
      {B : Type 0} (Q : B → Store → Type 0) (f : ℕ → M B) (kind : ℕ → Object) (s : Store)
      → Has s
      → ((a : ℕ) (t : Store) → Has t → Ends Q Has (f a t))
      → Ends Q Has (follow f (alloc kind s))
  alloc_then Q f kind s e k = follow-Ends Q f _ (alloc-Ends kind s e) k

  generate_ec_key-Keeps : (c : Calls) → Keeps (generate_ec_key c)
  unfolding generate_ec_key
  generate_ec_key-Keeps c s e = require_then _ _ _ _ _ e λ _ _ e. alloc_then _ _ _ _ e λ _ _ e.
      require_then _ _ _ _ _ e λ _ _ e.
        require_then _ _ _ _ _ e
          λ _ _ e. alloc_then _ _ _ _ e λ _ _ e. require_then _ _ _ _ _ e λ _ _ e. pure-Ends _ _ e

  require_authority-Keeps : (c : Calls) (x : ℕ) → Keeps (require_authority c x)
  unfolding require_authority
  require_authority-Keeps c x s e =
      require_then _ _ _ _ _ e λ _ _ e. require_then _ _ _ _ _ e λ _ t e. require-Ends _ _ t e

  require_issuer-Keeps : (c : Calls) (x : ℕ) → Keeps (require_issuer c x)
  unfolding require_issuer
  require_issuer-Keeps c x s e =
      require_then _ _ _ _ _ e λ _ _ e. require_then _ _ _ _ _ e λ _ t e. require-Ends _ _ t e

  require_kind-Keeps :
      (is_ca : Bool) (c : Calls) (x : ℕ)
      → Keeps (if is_ca then require_authority c x else require_issuer c x)
  require_kind-Keeps true c x = require_authority-Keeps c x
  require_kind-Keeps false c x = require_issuer-Keeps c x

  issue_certificate-Keeps :
      (c : Calls) (signs is_ca : Bool) (names : Names)
      → Keeps (issue_certificate c signs is_ca names)
  unfolding issue_certificate
  issue_certificate-Keeps c signs is_ca names s e = require_then _ _ _ _ _ e λ _ _ e.
      alloc_then _ _ _ _ e λ x _ e. require_then _ _ _ _ _ e λ _ _ e.
        require_then _ _ _ _ _ e λ _ _ e. require_then _ _ _ _ _ e λ _ _ e.
          require_then _ _ _ _ _ e λ _ t e.
            follow-Ends _ _ _ (require_kind-Keeps is_ca c x t e) λ _ _ e.
              require_then _ _ _ _ _ e λ _ _ e. require_then _ _ _ _ _ e λ _ t e. pure-Ends _ t e

  -- What holds of the entries at the end holds of the whole.
  spoof-Ends :
      (Q : Context → Store → Type 0) (c : Calls) (host : Bytes) (original : Original)
      (subject : Subject)
      → ((domains : List Bytes) (k : Context) (objects : List Object) (t : Store)
          → Has t
          → Ends Q Has (enter_context domains host k objects t))
      → (s : Store) → Has s
      → Ends Q Has (spoof c host original subject s)
  unfolding spoof
  spoof-Ends Q c host original subject k s e =
      follow-Ends Q _ _ (generate_ec_key-Keeps c s e) λ _ t e.
        follow-Ends Q _ _ (issue_certificate-Keeps c false false (names_of subject) t e) λ _ _ e.
          require_then Q _ _ _ _ e λ _ _ e. require_then Q _ _ _ _ e λ _ _ e.
            alloc_then Q _ _ _ e λ _ _ e.
              require_then Q _ _ _ _ e λ _ _ e. require_then Q _ _ _ _ e λ _ t e. k _ _ _ t e

  spoof_original-Ends :
      (Q : Context → Store → Type 0) (c : Calls) (host : Bytes) (original : Option Original)
      → ((domains : List Bytes) (k : Context) (objects : List Object) (t : Store)
          → Has t
          → Ends Q Has (enter_context domains host k objects t))
      → (s : Store) → Has s
      → Ends Q Has (spoof_original c host original s)
  unfolding spoof_original Ends
  spoof_original-Ends Q c host none k s e = e
  spoof_original-Ends Q c host (some original) k s e =
      by_option (Ends Q Has) original.subject _ _ (λ _. e)
        λ subject _. spoof-Ends Q c host original subject k s e

  pub get_server_context-Ends :
      (Q : Context → Store → Type 0) (c : Calls) (hostname : Bytes) (original : Option Original)
      (s : Store)
      → Has s
      → ((found : Context) → find_host (map to_lower hostname) s.hosts ≡ some found → Q found s)
      → (find_host (map to_lower hostname) h ≡ none
          → (domains : List Bytes) (k : Context) (objects : List Object) (t : Store) → Has t
          → Ends Q Has (enter_context domains (map to_lower hostname) k objects t))
      → Ends Q Has (get_server_context c hostname original s)
  unfolding get_server_context Ends
  get_server_context-Ends Q c hostname original s e old new =
      by_option (Ends Q Has) (find_host (map to_lower hostname) s.hosts) _ _
        (λ w.
          by_if (Ends Q Has) (s.has_ca && s.has_ca_key) _ _
            (spoof_original-Ends Q c (map to_lower hostname) original
              (new (ap (find_host (map to_lower hostname)) (sym e) ∙ w)) s e)
            e)
        old
