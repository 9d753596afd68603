-- ===== src/Http/Callbacks/Whole.antt =====
-- OnHeaderField and OnHeaderValue on a header whose name and value come in pieces.
use http_filtering_engine.Base.{
  join, Bytes, Bool, true, false, [], ◌∷◌, ◌++◌, List, if◌then◌else◌, is_empty, ◌≡◌, refl, sym, ap₂,
  subst, ◌∙◌, ap, arith, Bool-cases, inl, inr, append-nil, append_assoc, All,
}
use http_filtering_engine.External.{Library}
use http_filtering_engine.Text.Compare.{same, same_refl, same-same_left}
use http_filtering_engine.Http.Headers.{HeaderMap, IsSorted, keep, lookup}
use http_filtering_engine.Http.State.{Transaction}
use http_filtering_engine.Http.Edit.{add_header, has_value}
use http_filtering_engine.Http.Edit.Lookup.{found, found-add_header_keep, add_header-IsSorted}
use http_filtering_engine.Http.Callbacks.Order.{append_value-IsSorted}
use http_filtering_engine.Http.Callbacks.Pieces.{lookup-append_value, append_last-snoc}
use http_filtering_engine.Http.Callbacks.{
  on_header_field, on_header_value, append_last, append_value, enter_value, take_field,
}

-- Callbacks in a row, up to one that does not return 0.
abbrev pub in_turn :
    (Bytes → Transaction → Transaction × Bool) → List Bytes → Transaction → Transaction × Bool
in_turn callback [] t = (t, true)
in_turn callback (text ∷ texts) t =
    let r = callback text t in elim r.1 [ true ↦ in_turn callback texts r.0 | false ↦ (r.0, false) ]

-- The callbacks of one header.
abbrev pub deliver : Library → List Bytes → List Bytes → Transaction → Transaction × Bool
deliver lib names values t =
    in_turn (on_header_value lib) values (in_turn on_header_field names t).0

abbrev pub NonEmpty : Bytes → Type 0
NonEmpty text = is_empty text ≡ false

-- The state behind the callbacks of the name.
abbrev pub named : Bytes → Transaction → Transaction
named name t = record t {
  last_header = name;
  last_header_field_fresh = false;
  last_header_value_fresh = true;
}

pub in_turn_step :
    (callback : Bytes → Transaction → Transaction × Bool) (x : Bytes) (texts : List Bytes)
    (t t' : Transaction)
    → callback x t ≡ (t', true)
    → in_turn callback (x ∷ texts) t ≡ in_turn callback texts t'
in_turn_step callback x texts t t' h =
    ap
      (λ (r : Transaction × Bool). elim r.1 as (λ _. Transaction × Bool) [
        | true ↦ in_turn callback texts r.0
        | false ↦ (r.0, false)
      ])
      h

more_name :
    (x name : Bytes) (t : Transaction)
    → NonEmpty x
    → on_header_field x (named name t) ≡ (named (name ++ x) t, true)
unfolding on_header_field take_field
more_name x name t h = rw h refl

more_names :
    (texts : List Bytes) (name : Bytes) (t : Transaction)
    → All NonEmpty texts
    → in_turn on_header_field texts (named name t) ≡ (named (name ++ join texts) t, true)
more_names [] name t h = rw (append-nil name) refl
more_names (x ∷ texts) name t h =
    in_turn_step on_header_field x texts (named name t) (named (name ++ x) t)
      (more_name x name t h.0)
    ∙ more_names texts (name ++ x) t h.1
    ∙ ap (λ n. (named n t, true)) (append_assoc name x (join texts))

new_name :
    (x : Bytes) (t : Transaction)
    → t.last_header_field_fresh ≡ true
    → NonEmpty x
    → on_header_field x t ≡ (named x t, true)
unfolding on_header_field take_field
new_name x t f h = rw h (ap (λ b. (named (if b then x else t.last_header ++ x) t, true)) f)

-- The callbacks of a name.
pub take_names :
    (x : Bytes) (texts : List Bytes) (t : Transaction)
    → t.last_header_field_fresh ≡ true
    → NonEmpty x
    → All NonEmpty texts
    → in_turn on_header_field (x ∷ texts) t ≡ (named (x ++ join texts) t, true)
take_names x texts t f h k =
    in_turn_step on_header_field x texts t (named x t) (new_name x t f h) ∙ more_names texts x t k

-- One header more, and no other change, under every name.
abbrev pub Gains : Bytes → Bytes → Transaction → Transaction → Type 0
Gains name value t t' =
    (q : Bytes) → found q t' ≡ found q t ++ (if same q name then (name, value) ∷ [] else [])

-- The state while the value of the last header is entered.
abbrev Entering : Bytes → Bytes → Transaction → Transaction → Type 0
Entering name value t u =
    (u.last_header ≡ name)
    × (u.last_header_value_fresh ≡ false)
    × IsSorted u.headers
    × Gains name value t u

pub new_value :
    (lib : Library) (name x : Bytes) (t : Transaction)
    → NonEmpty name
    → on_header_value lib x (named name t)
      ≡ (enter_value lib x (record (named name t) { last_header_field_fresh = true }), true)
unfolding on_header_value
new_value lib name x t n = rw n refl

add_header_name :
    (lib : Library) (name x : Bytes) (t : Transaction)
    → (add_header lib name x false t).last_header ≡ t.last_header
unfolding add_header
add_header_name lib name x t = ground arith

-- The first piece of a value.
enter_value-Entering :
    (lib : Library) (name x : Bytes) (t : Transaction)
    → IsSorted t.headers
    → has_value lib x (found name t) ≡ false
    → Entering name x t
        (enter_value lib x (record (named name t) { last_header_field_fresh = true }))
unfolding enter_value
enter_value-Entering lib name x t s h =
    let u = record (named name t) { last_header_field_fresh = true } in
    (
      add_header_name lib name x u,
      refl,
      add_header-IsSorted lib name x false u s,
      λ q. found-add_header_keep lib q name x u s ∙ rw h refl,
    )

-- The state behind another piece.
abbrev pub longer : Bytes → Transaction → Transaction
longer x u = record u {
  last_header_field_fresh = true;
  headers = append_value u.last_header x u.headers;
}

pub more_value :
    (lib : Library) (x : Bytes) (u : Transaction)
    → NonEmpty u.last_header
    → u.last_header_value_fresh ≡ false
    → on_header_value lib x u ≡ (longer x u, true)
unfolding on_header_value
more_value lib x u n f = ground arith

lookup-same : (q name : Bytes) (m : HeaderMap) → same q name ≡ true → lookup q m ≡ lookup name m
unfolding keep
lookup-same q name [] h = refl
lookup-same q name (e ∷ m) h = rw (same-same_left q name e.0 h, lookup-same q name m h) refl

found-longer :
    (name v x q : Bytes) (t u : Transaction)
    → u.last_header ≡ name
    → IsSorted u.headers
    → Gains name v t u
    → found q (longer x u) ≡ found q t ++ (if same q name then (name, v ++ x) ∷ [] else [])
found-longer name v x q t u l s g =
    lookup-append_value q u.last_header x u.headers s
    ∙ ap (λ n. if same q n then append_last x (found n u) else found q u) l
    ∙ elim (Bool-cases (same q name)) [
      | inl k ↦ rw k (
          ap (append_last x) (g name ∙ rw (same_refl name) refl)
          ∙ append_last-snoc x name v (found name t)
          ∙ ap (λ r. r ++ ((name, v ++ x) ∷ [])) (sym (lookup-same q name t.headers k)))
      | inr k ↦ rw k (g q ∙ rw k refl)
    ]

longer-Entering :
    (name v x : Bytes) (t u : Transaction)
    → Entering name v t u
    → Entering name (v ++ x) t (longer x u)
longer-Entering name v x t u (l, f, s, g) = (
  l,
  f,
  append_value-IsSorted u.last_header x u.headers s,
  λ q. found-longer name v x q t u l s g,
)

take_values :
    (lib : Library) (name v : Bytes) (xs : List Bytes) (t u : Transaction)
    → NonEmpty name
    → Entering name v t u
    → (in_turn (on_header_value lib) xs u).1 ≡ true
      × Entering name (v ++ join xs) t (in_turn (on_header_value lib) xs u).0
take_values lib name v [] t u n e = (refl, subst (λ w. Entering name w t u) (sym (append-nil v)) e)
take_values lib name v (x ∷ xs) t u n e =
    let step =
      in_turn_step (on_header_value lib) x xs u (longer x u)
        (more_value lib x u (ap is_empty e.0 ∙ n) e.1) in
    let later =
      take_values lib name (v ++ x) xs t (longer x u) n (longer-Entering name v x t u e) in
    (
      ap (λ r. r.1) step ∙ later.0,
      subst (λ (p : Bytes × (Transaction × Bool)). Entering name p.0 t p.1.0)
          (ap₂ (λ a b. (a, b)) (append_assoc v x (join xs)) (sym step)) later.1,
    )

pub nonempty_append : (a b : Bytes) → NonEmpty a → NonEmpty (a ++ b)
nonempty_append [] b h = ground arith
nonempty_append (x ∷ a) b h = refl

-- A header that no header repeats arrives whole. http_parser passes its name in one or more
-- nonempty pieces and its value in one or more pieces; the headers are in the multimap's order, the
-- name is a new one, and no header of the name has the first piece of the value as its value. Then
-- no callback fails, and the headers found under every name are those before, with, under this
-- name, one more: the joined name with the joined value.
pub deliver-Gains :
    (lib : Library) (n : Bytes) (ns : List Bytes) (v : Bytes) (vs : List Bytes) (t : Transaction)
    → IsSorted t.headers
    → t.last_header_field_fresh ≡ true
    → NonEmpty n
    → All NonEmpty ns
    → has_value lib v (found (n ++ join ns) t) ≡ false
    → (deliver lib (n ∷ ns) (v ∷ vs) t).1 ≡ true
      × Gains (n ++ join ns) (v ++ join vs) t (deliver lib (n ∷ ns) (v ∷ vs) t).0
deliver-Gains lib n ns v vs t s f h k d =
    let name = n ++ join ns in
    let e = nonempty_append n (join ns) h in
    let u = enter_value lib v (record (named name t) { last_header_field_fresh = true }) in
    let values = in_turn (on_header_value lib) in
    let same_run : deliver lib (n ∷ ns) (v ∷ vs) t ≡ values vs u =
      ap (λ (r : Transaction × Bool). values (v ∷ vs) r.0) (take_names n ns t f h k)
      ∙ in_turn_step (on_header_value lib) v vs (named name t) u (new_value lib name v t e) in
    let later = take_values lib name v vs t u e (enter_value-Entering lib name v t s d) in
    subst (λ (r : Transaction × Bool). (r.1 ≡ true) × Gains name (v ++ join vs) t r.0)
      (sym same_run) (later.0, later.1.3)
