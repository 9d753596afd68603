-- ===== src/Control/Defaults.antt =====
-- The callbacks that the constructor of HttpFilteringEngineControl
-- (src/te/httpengine/HttpFilteringEngineControl.cpp) puts in the place of missing ones, and what
-- the bridges' ShouldBlockTransaction makes of them.
use http_filtering_engine.Base.{
  Bytes, ℕ, Bool, false, not, ◌&&◌, ◌||◌, [], Option, some, none, ◌≡◌, refl, pos,
}
use http_filtering_engine.External.{Library}
use http_filtering_engine.Http.State.{
  Transaction, Result, ok, thrown, set_should_block, set_consume_all_before_sending,
}
use http_filtering_engine.Http.Results.{Holds, Holds-bind, by_if}
use http_filtering_engine.Http.Head.{headers_to_string}
use http_filtering_engine.Http.Head.Keeps.{headers_to_string-Holds}
use http_filtering_engine.Bridge.State.{Outside}
use http_filtering_engine.Bridge.Judgement.Refusal.{
  SameMessage, SameOptional, Verdict, should_block_transaction-Verdict,
}
use http_filtering_engine.Bridge.Judgement.{
  Judged, is_inspected, optional_headers, judge_end, if_present, mark, carry_out,
  should_block_transaction,
}

-- `DummyOnMessageBeginCallback`: the next action stays the 0 that it was set to, and nothing is
-- written.
unfoldable dummy_on_message_begin : Bytes → Bytes → ℕ × Bytes
dummy_on_message_begin request_headers response_headers = (0, [])

-- `DummyOnMessageEndCallback`, which leaves `shouldBlock` at false.
unfoldable dummy_on_message_end : Bytes → Option Bytes → Bytes → Option Bytes → Bool × Bytes
dummy_on_message_end request_headers request_body response_headers response_body = (false, [])

-- What the engine keeps of the callbacks that its constructor is given, and hands to each bridge.
unfoldable keep_begin : Option (Bytes → Bytes → ℕ × Bytes) → Bytes → Bytes → ℕ × Bytes
unfolding dummy_on_message_begin
keep_begin none = dummy_on_message_begin
keep_begin (some f) = f

unfoldable keep_end :
    Option (Bytes → Option Bytes → Bytes → Option Bytes → Bool × Bytes)
    → Bytes
    → Option Bytes
    → Bytes
    → Option Bytes
    → Bool × Bytes
unfolding dummy_on_message_end
keep_end none = dummy_on_message_end
keep_end (some f) = f

pub with_callbacks :
    Option (Bytes → Bytes → ℕ × Bytes)
    → Option (Bytes → Option Bytes → Bytes → Option Bytes → Bool × Bytes)
    → Outside
    → Outside
with_callbacks begin end o = record o {
  on_message_begin = keep_begin begin;
  on_message_end = keep_end end;
}

abbrev pub IsUnblocked : Option Transaction → Type 0
IsUnblocked none = Unit
IsUnblocked (some t) = t.should_block ≡ pos 0

-- The message is let through with the headers, payloads and flags that it had.
abbrev pub IsPassed : Transaction → Option Transaction → Judged → Type 0
IsPassed q p j =
    (j.blocks ≡ false)
    × SameMessage q j.request
    × SameOptional p j.response
    × (IsUnblocked (some q) → IsUnblocked (some j.request))
    × (IsUnblocked p → IsUnblocked j.response)

abbrev IsLetThrough : Transaction → Option Transaction → Judged → Type 0
IsLetThrough q p j =
    (j.blocks ≡ false)
    × (IsUnblocked (some q) → IsUnblocked (some j.request))
    × (IsUnblocked p → IsUnblocked j.response)

if_present-IsUnblocked :
    (f : Transaction → Transaction) (p : Option Transaction)
    → ((t : Transaction) → (f t).should_block ≡ pos 0)
    → IsUnblocked (if_present f p)
unfolding if_present
if_present-IsUnblocked f none u = tt
if_present-IsUnblocked f (some t) u = u t

optional_headers-IsUnblocked :
    (lib : Library) (p : Option Transaction)
    → Holds (λ r. IsUnblocked p → IsUnblocked r.0) (optional_headers lib p)
unfolding optional_headers
optional_headers-IsUnblocked lib none = λ u. u
optional_headers-IsUnblocked lib (some t) =
    let Kept : Transaction → Type 0 = λ r. IsUnblocked (some t) → IsUnblocked (some r) in
    Holds-bind (λ r. Kept r.0) (λ r. IsUnblocked (some t) → IsUnblocked r.0)
      (headers_to_string lib t) _ (headers_to_string-Holds Kept (λ u k v h. h) lib t (λ u. u))
      (λ r s. s)

Holds-both :
    {A : Type 0} {R : A → Type 0} (P Q : A → Type 0) (r : Result A)
    → Holds P r
    → Holds Q r
    → ((a : A) → P a → Q a → R a)
    → Holds R r
Holds-both P Q (ok a) p q f = f a p q
Holds-both P Q thrown p q f = tt

module _ (lib : Library) (o : Outside) (q : Transaction) (p : Option Transaction) where
  -- What the bridges of an engine without callbacks meet.
  abbrev silent : Outside
  silent = with_callbacks none none o

  judge_end-IsLetThrough :
      (h k : Bytes) (q1 : Transaction) (p1 : Option Transaction)
      → (IsUnblocked (some q) → IsUnblocked (some q1))
      → (IsUnblocked p → IsUnblocked p1)
      → IsLetThrough q p (judge_end lib silent h k q1 p1)
  unfolding judge_end with_callbacks keep_end dummy_on_message_end
  judge_end-IsLetThrough h k q1 p1 s r = (refl, s, r)

  carry_out-IsLetThrough :
      (h k : Bytes) (q1 : Transaction) (p1 : Option Transaction)
      → IsLetThrough q p (carry_out lib silent (silent.on_message_begin h k) q1 p1)
  unfolding carry_out with_callbacks keep_begin dummy_on_message_begin mark set_should_block
      set_consume_all_before_sending
  carry_out-IsLetThrough h k q1 p1 =
      (refl, (λ _. refl), (λ _. if_present-IsUnblocked _ p1 (λ t. refl)))

  silent-IsLetThrough : Holds (IsLetThrough q p) (should_block_transaction lib silent q p)
  unfolding should_block_transaction
  silent-IsLetThrough =
      let Kept : Transaction → Type 0 = λ r. IsUnblocked (some q) → IsUnblocked (some r) in
      Holds-bind (λ r. Kept r.0) (IsLetThrough q p) (headers_to_string lib q) _
        (headers_to_string-Holds Kept (λ u k v h. h) lib q (λ u. u))
        (λ r s.
          Holds-bind (λ z. IsUnblocked p → IsUnblocked z.0) (IsLetThrough q p)
            (optional_headers lib p) _ (optional_headers-IsUnblocked lib p)
            (λ z w.
              by_if (IsLetThrough q p)
                ((is_inspected (some r.0) && not (is_inspected z.0))
                  || (is_inspected (some r.0) && is_inspected z.0))
                _ _ (judge_end-IsLetThrough r.1 z.1 r.0 z.0 s w)
                (carry_out-IsLetThrough r.1 z.1 r.0 z.0)))

  -- An engine that is given no callbacks filters nothing. With the callbacks that its constructor
  -- takes in their place, `ShouldBlockTransaction`, where it returns, does not say to block,
  -- inspected or not; both messages keep their headers, payloads and flags of what is sent and
  -- complete; and one that is not marked as blocked or whitelisted is still not marked.
  pub with_callbacks-IsPassed :
      Holds (IsPassed q p) (should_block_transaction lib (with_callbacks none none o) q p)
  with_callbacks-IsPassed =
      Holds-both (IsLetThrough q p) (Verdict lib silent q p)
        (should_block_transaction lib silent q p) silent-IsLetThrough
        (should_block_transaction-Verdict lib silent q p) (λ j l v. (l.0, v.1 l.0, v.2, l.1, l.2))
