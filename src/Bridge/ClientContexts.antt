-- ===== src/Bridge/ClientContexts.antt =====
-- InitClientContext of TlsCapableHttpBridge.cpp, which nothing calls any more: the contexts for
-- servers by host, with the certificate store of the stream's own context. The lock makes its calls
-- one after another.
use http_filtering_engine.Base.{
  Bytes, ℕ, map, to_upper, ◌+◌, Bool, List, [], ◌∷◌, ◌++◌, if◌then◌else◌, bytes_eq, bytes_eq_iff,
  bytes_eq_refl, Option, some, none, ◌≡◌, refl, sym, ap, ◌∙◌, arith, Option-cases, inl, inr,
}
use http_filtering_engine.External.{Library, IequalsFoldsCase}
use http_filtering_engine.Text.StringRef.{icase_equal}
use http_filtering_engine.Text.StringRef.Agreement.{icase_equal-folds}
use http_filtering_engine.Http.State.{Severity, error}

-- `s_clientContexts`, as numbers of contexts; how many were made; and to how many contexts the
-- default certificate store was given, each of which frees it.
pub record ClientContexts : Type 0 where
  pub contexts : List (Bytes × ℕ)
  pub made : ℕ
  pub store_owners : ℕ
  pub reports : List Severity

-- `std::unordered_map::find`, by `ICaseStringEquality`.
unfoldable find_context : Library → Bytes → List (Bytes × ℕ) → Option ℕ
unfolding icase_equal
find_context lib host [] = none
find_context lib host ((name, c) ∷ m) =
    if icase_equal lib name host then some c else find_context lib host m

-- `SSL_CTX_set_cert_store`, or the report: whether the stream has a context, and whether that has a
-- certificate store.
unfoldable share_store : Bool → Bool → ClientContexts → ClientContexts
share_store has_default has_store s =
    if has_default
    then if has_store
      then record s { store_owners = s.store_owners + 1 }
      else record s { reports = s.reports ++ error ∷ [] }
    else record s { reports = s.reports ++ error ∷ [] }

-- `InitClientContext`, with the context that the stream has afterwards.
unfoldable init_client_context : Library → Bool → Bool → Bytes → ClientContexts → ClientContexts × ℕ
unfolding find_context share_store
init_client_context lib has_default has_store host s = elim (find_context lib host s.contexts) [
  | some c ↦ (s, c)
  | none ↦
      let shared = share_store has_default has_store s in
      (record shared { contexts = (host, s.made) ∷ s.contexts; made = s.made + 1 }, s.made)
]

entered : Bool → Bool → Bytes → ClientContexts → ClientContexts
entered d e host s = record (share_store d e s) {
  contexts = (host, s.made) ∷ s.contexts;
  made = s.made + 1;
}

-- The search by the name in capital letters.
find_capitals : Bytes → List (Bytes × ℕ) → Option ℕ
find_capitals u [] = none
find_capitals u ((name, c) ∷ m) =
    if bytes_eq (map to_upper name) u then some c else find_capitals u m

find_capitals-first :
    (u host : Bytes) (k : ℕ) (m : List (Bytes × ℕ))
    → map to_upper host ≡ u
    → find_capitals u ((host, k) ∷ m) ≡ some k
unfolding find_capitals
find_capitals-first u host k m e = rw (e, bytes_eq_refl u) refl

find_capitals-later :
    (u host : Bytes) (c k : ℕ) (m : List (Bytes × ℕ))
    → find_capitals (map to_upper host) m ≡ none
    → find_capitals u m ≡ some k
    → find_capitals u ((host, c) ∷ m) ≡ some k
unfolding find_capitals
find_capitals-later u host c k m h i = ground (arith, bytes_eq_iff (map to_upper host) u)

module _ (lib : Library) (folds : IequalsFoldsCase lib) where
  find_context-capitals :
      (host : Bytes) (m : List (Bytes × ℕ))
      → find_context lib host m ≡ find_capitals (map to_upper host) m
  unfolding find_context find_capitals
  find_context-capitals host [] = refl
  find_context-capitals host ((name, c) ∷ m) =
      rw (icase_equal-folds lib name host folds, find_context-capitals host m) refl

  init-old :
      (d e : Bool) (host : Bytes) (k : ℕ) (s : ClientContexts)
      → find_context lib host s.contexts ≡ some k
      → init_client_context lib d e host s ≡ (s, k)
  unfolding init_client_context
  init-old d e host k s h = rw (init_client_context, h) refl

  init-new :
      (d e : Bool) (host : Bytes) (s : ClientContexts)
      → find_context lib host s.contexts ≡ none
      → init_client_context lib d e host s ≡ (entered d e host s, s.made)
  unfolding init_client_context entered
  init-new d e host s h = rw (init_client_context, h) refl

  found-first :
      (host name : Bytes) (k : ℕ) (m : List (Bytes × ℕ))
      → map to_upper name ≡ map to_upper host
      → find_context lib name ((host, k) ∷ m) ≡ some k
  found-first host name k m e =
      find_context-capitals name ((host, k) ∷ m)
      ∙ find_capitals-first (map to_upper name) host k m (sym e)

  found-later :
      (host name : Bytes) (c k : ℕ) (m : List (Bytes × ℕ))
      → find_context lib host m ≡ none
      → find_context lib name m ≡ some k
      → find_context lib name ((host, c) ∷ m) ≡ some k
  found-later host name c k m h i =
      find_context-capitals name ((host, c) ∷ m)
      ∙ find_capitals-later (map to_upper name) host c k m (sym (find_context-capitals host m) ∙ h)
          (sym (find_context-capitals name m) ∙ i)

  same-found :
      (host name : Bytes) (m : List (Bytes × ℕ))
      → map to_upper name ≡ map to_upper host
      → find_context lib name m ≡ find_context lib host m
  same-found host name m e =
      find_context-capitals name m
      ∙ (ap (λ u. find_capitals u m) e ∙ sym (find_context-capitals host m))

  -- The context of a host is its context from then on, however its letters' case is written, and no
  -- call takes another host's.
  init_client_context-again :
      (d e d' e' : Bool) (host same name : Bytes) (k : ℕ) (s : ClientContexts)
      → map to_upper same ≡ map to_upper host
      → find_context lib name s.contexts ≡ some k
      → let r = init_client_context lib d e host s in
        (init_client_context lib d' e' same r.0 ≡ r) × (find_context lib name r.0.contexts ≡ some k)
  unfolding entered
  init_client_context-again d e d' e' host same name k s eq known =
      elim (Option-cases (find_context lib host s.contexts)) [
        | inl new ↦
            let made = init-new d e host s new in
            (
              ap (λ (z : ClientContexts × ℕ). init_client_context lib d' e' same z.0) made
                  ∙ (init-old d' e' same s.made (entered d e host s)
                        (found-first host same s.made s.contexts eq)
                      ∙ sym made),
              ap (λ (z : ClientContexts × ℕ). find_context lib name z.0.contexts) made
                  ∙ found-later host name s.made k s.contexts new known,
            )
        | inr (c, old) ↦
            let made = init-old d e host c s old in
            (
              ap (λ (z : ClientContexts × ℕ). init_client_context lib d' e' same z.0) made
                  ∙ (init-old d' e' same c s (same-found host same s.contexts eq ∙ old) ∙ sym made),
              ap (λ (z : ClientContexts × ℕ). find_context lib name z.0.contexts) made ∙ known,
            )
      ]
