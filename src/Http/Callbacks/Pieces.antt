-- ===== src/Http/Callbacks/Pieces.antt =====
-- What more of a value does to the headers found under a name.
use http_filtering_engine.Base.{
  Bytes, Bool, true, [], ◌∷◌, ◌++◌, List, if◌then◌else◌, ◌≡◌, refl, sym, ◌∙◌, ap, arith, Bool-cases,
  inl, inr, append-nil, All,
}
use http_filtering_engine.Text.Compare.{same, same_comm, same-same_left}
use http_filtering_engine.Http.Headers.{Header, HeaderMap, IsSorted, keep, lookup, before, behind}
use http_filtering_engine.Http.Headers.Order.{equal_range-lookup, before-behind-others}
use http_filtering_engine.Http.Headers.Laws.{lookup-others}
use http_filtering_engine.Http.Callbacks.{append_last, append_value}

keep-append {ℓ} :
    {A : Type ℓ} (p : A → Bool) (xs ys : List A) → keep p (xs ++ ys) ≡ keep p xs ++ keep p ys
unfolding keep
keep-append p [] ys = refl
keep-append p (x ∷ xs) ys = elim (Bool-cases (p x)) [
  | inl e ↦ rw e (ap (◌∷◌ x) (keep-append p xs ys))
  | inr e ↦ rw e (keep-append p xs ys)
]

-- All entries are under the name.
abbrev IsUnder : Bytes → HeaderMap → Type 0
IsUnder name r = All (λ (e : Header). same name e.0 ≡ true) r

lookup-IsUnder : (name : Bytes) (m : HeaderMap) → IsUnder name (lookup name m)
unfolding keep
lookup-IsUnder name [] = tt
lookup-IsUnder name (e ∷ m) = elim (Bool-cases (same name e.0)) [
  | inl k ↦ rw k (k, lookup-IsUnder name m)
  | inr k ↦ rw k (lookup-IsUnder name m)
]

append_last-IsUnder :
    (name text : Bytes) (r : HeaderMap) → IsUnder name r → IsUnder name (append_last text r)
unfolding append_last
append_last-IsUnder name text [] h = tt
append_last-IsUnder name text (e ∷ []) h = h
append_last-IsUnder name text (e ∷ f ∷ r) h = (h.0, append_last-IsUnder name text (f ∷ r) h.1)

lookup-under :
    (q name : Bytes) (r : HeaderMap) → IsUnder name r → lookup q r ≡ (if same q name then r else [])
unfolding keep
lookup-under q name [] h = ground arith
lookup-under q name (e ∷ r) h = elim (Bool-cases (same q name)) [
  | inl k ↦
      rw (k, same-same_left q name e.0 k, h.0) (ap (◌∷◌ e) (lookup-under q name r h.1 ∙ rw k refl))
  | inr k ↦
      rw (k, same_comm q e.0, ← same-same_left name e.0 q h.0, same_comm name q, k)
        (lookup-under q name r h.1 ∙ rw k refl)
]

append-empty {ℓ} : {A : Type ℓ} (xs ys : List A) → xs ++ ys ≡ [] → (xs ≡ []) × (ys ≡ [])
append-empty [] ys h = (refl, h)
append-empty (x ∷ xs) ys h = grind arith

-- What stands around the range is what is under other names.
around :
    (q name : Bytes) (m : HeaderMap)
    → IsSorted m
    → lookup q (before name m) ++ lookup q (behind name m)
      ≡ (if same q name then [] else lookup q m)
around q name m s =
    sym (keep-append (λ e. same q e.0) (before name m) (behind name m))
    ∙ ap (lookup q) (before-behind-others name m s)
    ∙ lookup-others q name m

-- More of a value changes the last header of the name and no other.
pub lookup-append_value :
    (q name text : Bytes) (m : HeaderMap)
    → IsSorted m
    → lookup q (append_value name text m)
      ≡ (if same q name then append_last text (lookup name m) else lookup q m)
unfolding append_value
lookup-append_value q name text m s =
    let p : Header → Bool = λ e. same q e.0 in
    let r = append_last text (lookup name m) in
    rw
      (
        equal_range-lookup name m s,
        keep-append p (before name m) (r ++ behind name m),
        keep-append p r (behind name m),
        lookup-under q name r
            (append_last-IsUnder name text (lookup name m) (lookup-IsUnder name m)),
      )
      (elim (Bool-cases (same q name)) [
        | inl k ↦
            let e =
              append-empty (lookup q (before name m)) (lookup q (behind name m))
                (around q name m s ∙ rw k refl) in
            rw (k, e.0, e.1) (append-nil r)
        | inr k ↦ rw k (around q name m s ∙ rw k refl)
      ])

pub append_last-snoc :
    (text name v : Bytes) (b : HeaderMap)
    → append_last text (b ++ ((name, v) ∷ [])) ≡ b ++ ((name, v ++ text) ∷ [])
unfolding append_last
append_last-snoc text name v [] = refl
append_last-snoc text name v (e ∷ []) = refl
append_last-snoc text name v (e ∷ f ∷ b) = ap (◌∷◌ e) (append_last-snoc text name v (f ∷ b))
