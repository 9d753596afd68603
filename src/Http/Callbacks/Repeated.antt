-- ===== src/Http/Callbacks/Repeated.antt =====
-- OnHeaderValue on a header that repeats one, and whose value comes in pieces.
use http_filtering_engine.Base.{
  join, Bytes, Bool, true, false, [], ◌∷◌, ◌++◌, List, if◌then◌else◌, ◌≡◌, refl, ◌∙◌, ap, All,
}
use http_filtering_engine.External.{Library}
use http_filtering_engine.Text.Compare.{same}
use http_filtering_engine.Http.Headers.{IsSorted}
use http_filtering_engine.Http.Headers.Order.{equal_range-lookup}
use http_filtering_engine.Http.State.{Transaction}
use http_filtering_engine.Http.Edit.{add_header, has_value}
use http_filtering_engine.Http.Edit.Lookup.{found}
use http_filtering_engine.Http.Callbacks.Pieces.{lookup-append_value}
use http_filtering_engine.Http.Callbacks.Whole.{
  deliver, NonEmpty, in_turn, in_turn_step, named, take_names, new_value, more_value, longer,
  nonempty_append,
}
use http_filtering_engine.Http.Callbacks.{on_header_value, append_last, enter_value}

-- The state behind a first piece that adds nothing.
abbrev repeated : Bytes → Transaction → Transaction
repeated name t = record t {
  last_header = name;
  last_header_field_fresh = true;
  last_header_value_fresh = false;
}

enter_value-repeated :
    (lib : Library) (name v : Bytes) (t : Transaction)
    → IsSorted t.headers
    → has_value lib v (found name t) ≡ true
    → enter_value lib v (record (named name t) { last_header_field_fresh = true }) ≡ repeated name t
unfolding enter_value add_header
enter_value-repeated lib name v t s h = rw (equal_range-lookup name t.headers s, h) refl

deliver-repeated :
    (lib : Library) (n : Bytes) (ns : List Bytes) (v x : Bytes) (t : Transaction)
    → IsSorted t.headers
    → t.last_header_field_fresh ≡ true
    → NonEmpty n
    → All NonEmpty ns
    → has_value lib v (found (n ++ join ns) t) ≡ true
    → deliver lib (n ∷ ns) (v ∷ x ∷ []) t ≡ (longer x (repeated (n ++ join ns) t), true)
deliver-repeated lib n ns v x t s f h k d =
    let name = n ++ join ns in
    let e = nonempty_append n (join ns) h in
    let values = in_turn (on_header_value lib) in
    ap (λ (r : Transaction × Bool). values (v ∷ x ∷ []) r.0) (take_names n ns t f h k)
    ∙ in_turn_step (on_header_value lib) v (x ∷ []) (named name t) (repeated name t)
        (new_value lib name v t e ∙ ap (λ u. (u, true)) (enter_value-repeated lib name v t s d))
    ∙ in_turn_step (on_header_value lib) x [] (repeated name t) (longer x (repeated name t))
        (more_value lib x (repeated name t) e refl)

-- A header that repeats one, and whose value goes on, changes the one that it repeats. http_parser
-- passes its name in nonempty pieces, and its value in two; the headers are in the multimap's
-- order, the name is a new one, and a header of the name has the first piece as its value, up to
-- case. Then the second piece is appended to the value of the last header of the name, and what is
-- found under other names is as before.
deliver-append_last :
    (lib : Library) (n : Bytes) (ns : List Bytes) (v x : Bytes) (t : Transaction) (q : Bytes)
    → IsSorted t.headers
    → t.last_header_field_fresh ≡ true
    → NonEmpty n
    → All NonEmpty ns
    → has_value lib v (found (n ++ join ns) t) ≡ true
    → found q (deliver lib (n ∷ ns) (v ∷ x ∷ []) t).0
      ≡ (if same q (n ++ join ns) then append_last x (found (n ++ join ns) t) else found q t)
deliver-append_last lib n ns v x t q s f h k d =
    ap (λ (r : Transaction × Bool). found q r.0) (deliver-repeated lib n ns v x t s f h k d)
    ∙ lookup-append_value q (n ++ join ns) x t.headers s
