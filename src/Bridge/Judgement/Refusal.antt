-- ===== src/Bridge/Judgement/Refusal.antt =====
-- What ShouldBlockTransaction leaves of the messages that it is asked about.
use http_filtering_engine.Base.{
  Bytes, ℕ, Bool, true, false, not, ◌&&◌, ◌||◌, ◌≡◌, refl, ◌⊎◌, if◌then◌else◌, is_empty, Option,
  some, none, Bool-cases, inl, inr, ◌==◌, arith, pos,
}
use http_filtering_engine.External.{Library}
use http_filtering_engine.Http.State.{
  Transaction, ok, set_should_block, set_consume_all_before_sending,
}
use http_filtering_engine.Http.Results.{Holds, Holds-bind, by_if}
use http_filtering_engine.Http.Head.{headers_to_string}
use http_filtering_engine.Http.Head.Keeps.{headers_to_string-Holds}
use http_filtering_engine.Http.Payload.{set_payload, make_204, text_204, get_write_buffer}
use http_filtering_engine.Bridge.State.{Outside}
use http_filtering_engine.Bridge.Judgement.{
  Judged, if_present, is_inspected, inspected_payload, optional_headers, block_page, judge_end,
  mark, carry_out, should_block_transaction,
}

-- Whatever is written of a message, and whether it is there in full.
abbrev pub SameMessage : Transaction → Transaction → Type 0
SameMessage t u =
    (u.headers ≡ t.headers)
    × (u.payload ≡ t.payload)
    × (u.headers_sent ≡ t.headers_sent)
    × (u.headers_complete ≡ t.headers_complete)
    × (u.payload_complete ≡ t.payload_complete)

abbrev pub SameOptional : Option Transaction → Option Transaction → Type 0
SameOptional none none = Unit
SameOptional (some t) (some u) = SameMessage t u
SameOptional _ _ = ⊥

-- A text that a filtering callback gave.
abbrev IsAnswer : Outside → Bytes → Type 0
IsAnswer o custom =
    ((h k : Bytes) × ((o.on_message_begin h k).1 ≡ custom))
    ⊎ ((h : Bytes) × (body : Option Bytes) × (k : Bytes) × (answer_body : Option Bytes)
        × ((o.on_message_end h body k answer_body).1 ≡ custom))

-- All that is written of the message is a block page: the text that a callback gave, or, where it
-- gave none, the 204 of `Make204`. It is there in full.
abbrev pub IsPage : Library → Outside → Transaction → Type 0
IsPage lib o t =
    (custom : Bytes) × IsAnswer o custom
    × (get_write_buffer lib t
        ≡ ok (t, if is_empty custom then text_204 t.http_version o.now o.epoch else custom))
    × ((t.payload_complete && t.headers_complete) ≡ true)

abbrev pub Verdict : Library → Outside → Transaction → Option Transaction → Judged → Type 0
Verdict lib o q p j =
    (j.blocks ≡ true → IsPage lib o j.request)
    × (j.blocks ≡ false → SameMessage q j.request)
    × SameOptional p j.response

SameMessage-refl : (t : Transaction) → SameMessage t t
SameMessage-refl t = (refl, refl, refl, refl, refl)

SameOptional-refl : (p : Option Transaction) → SameOptional p p
SameOptional-refl none = tt
SameOptional-refl (some t) = SameMessage-refl t

-- A page with any category is written as it is.
block_page-IsPage :
    (lib : Library) (o : Outside) (custom : Bytes) (t : Transaction)
    → IsAnswer o custom
    → IsPage lib o (block_page lib o custom t)
      × IsPage lib o (set_should_block (pos 1) (block_page lib o custom t))
unfolding block_page set_payload make_204 get_write_buffer set_should_block
block_page-IsPage lib o custom t given = elim (Bool-cases (is_empty custom)) [
  | inl e ↦ ((custom, given, rw e, rw e), (custom, given, rw e, rw e))
  | inr e ↦ ((custom, given, rw e, rw e), (custom, given, rw e, rw e))
]

SameOptional-if_present :
    (f : Transaction → Transaction) (p u : Option Transaction)
    → ((t : Transaction) → SameMessage t (f t))
    → SameOptional p u
    → SameOptional p (if_present f u)
unfolding if_present
SameOptional-if_present f none none keeps r = tt
SameOptional-if_present f none (some u) keeps r = elim r [ ]
SameOptional-if_present f (some t) none keeps r = elim r [ ]
SameOptional-if_present f (some t) (some u) keeps r = ground (arith, keeps u)

module _ (lib : Library) (o : Outside) (q : Transaction) (p : Option Transaction) where
  judge_end-Verdict :
      (h k : Bytes) (q1 : Transaction) (p1 : Option Transaction)
      → SameMessage q q1
      → SameOptional p p1
      → Verdict lib o q p (judge_end lib o h k q1 p1)
  unfolding judge_end
  judge_end-Verdict h k q1 p1 s r =
      let answer : Bool × Bytes =
        o.on_message_end h (inspected_payload (some q1)) k (inspected_payload p1) in
      let given : IsAnswer o answer.1 =
        inr (h, inspected_payload (some q1), k, inspected_payload p1, refl) in
      by_if (Verdict lib o q p) answer.0 _ _
        (
          (λ _.
              by_if (IsPage lib o) (is_empty answer.1) _ _
                (block_page-IsPage lib o answer.1 q1 given).1
                (block_page-IsPage lib o answer.1 q1 given).0),
          (λ e. cc),
          r,
        )
        ((λ e. cc), (λ _. s), r)

  carry_out-Verdict :
      (a : ℕ × Bytes) (q1 : Transaction) (p1 : Option Transaction)
      → IsAnswer o a.1
      → SameMessage q q1
      → SameOptional p p1
      → Verdict lib o q p (carry_out lib o a q1 p1)
  unfolding carry_out mark set_should_block set_consume_all_before_sending
  carry_out-Verdict (action, custom) q1 p1 given s r =
      let kept = λ (f : Transaction → Transaction) (k : (t : Transaction) → SameMessage t (f t)).
        SameOptional-if_present f p p1 k r in
      by_if (Verdict lib o q p) (action == 0) _ _
        ((λ e. cc), (λ _. s), kept _ (λ t. SameMessage-refl t))
        (by_if (Verdict lib o q p) (action == 1) _ _
          ((λ e. cc), (λ _. s), kept _ (λ t. SameMessage-refl t))
          (by_if (Verdict lib o q p) (action == 2) _ _
            (
              (λ _. (block_page-IsPage lib o custom q1 given).1),
              (λ e. cc),
              kept _ (λ t. SameMessage-refl t),
            )
            (by_if (Verdict lib o q p) (action == 3) _ _
              ((λ e. cc), (λ _. s), kept _ (λ t. SameMessage-refl t)) ((λ e. cc), (λ _. s), r))))

optional_headers-Same :
    (lib : Library) (p : Option Transaction)
    → Holds (λ r. SameOptional p r.0) (optional_headers lib p)
unfolding optional_headers
optional_headers-Same lib none = tt
optional_headers-Same lib (some t) =
    Holds-bind (λ r. SameMessage t r.0) (λ r. SameOptional (some t) r.0) (headers_to_string lib t) _
      (headers_to_string-Holds (SameMessage t) (λ u k v s. s) lib t (SameMessage-refl t)) (λ r s. s)

-- Where `ShouldBlockTransaction` returns and says to block, all that the request's write buffer
-- hands out then is a block page: a text that a filtering callback gave or, where it is empty, that
-- of `Make204`; and the request is there in full. Where it says not to block, the request's
-- headers, payload, and flags of what is sent and complete are as before. Those of a response are
-- as before in either case.
pub should_block_transaction-Verdict :
    (lib : Library) (o : Outside) (q : Transaction) (p : Option Transaction)
    → Holds (Verdict lib o q p) (should_block_transaction lib o q p)
unfolding should_block_transaction
should_block_transaction-Verdict lib o q p =
    Holds-bind (λ r. SameMessage q r.0) (Verdict lib o q p) (headers_to_string lib q) _
      (headers_to_string-Holds (SameMessage q) (λ u k v s. s) lib q (SameMessage-refl q))
      (λ r s.
        Holds-bind (λ z. SameOptional p z.0) (Verdict lib o q p) (optional_headers lib p) _
          (optional_headers-Same lib p)
          (λ z w.
            by_if (Verdict lib o q p)
              ((is_inspected (some r.0) && not (is_inspected z.0))
                || (is_inspected (some r.0) && is_inspected z.0))
              _ _ (judge_end-Verdict lib o q p r.1 z.1 r.0 z.0 s w)
              (carry_out-Verdict lib o q p (o.on_message_begin r.1 z.1) r.0 z.0
                (inl (r.1, z.1, refl)) s w)))
