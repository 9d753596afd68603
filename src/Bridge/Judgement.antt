-- ===== src/Bridge/Judgement.antt =====
-- `ShouldBlockTransaction`: the filtering callbacks are asked, and their answer is carried out.
pub mod Refusal
use http_filtering_engine.Base.{
  Bytes, ℕ, Bool, true, false, not, ◌&&◌, ◌||◌, [], if◌then◌else◌, is_empty, Option, some, none,
  ◌==◌, ℤ, pos, negsuc,
}
use http_filtering_engine.External.{Library}
use http_filtering_engine.Http.State.{
  Transaction, Result, ok, ◌>>=◌, set_should_block, set_consume_all_before_sending,
}
use http_filtering_engine.Http.Head.{headers_to_string}
use http_filtering_engine.Http.Payload.{set_payload, make_204}
use http_filtering_engine.Bridge.State.{Outside}

-- The two transactions, the second of which may be a null pointer, and the answer.
pub record Judged : Type 0 where
  pub request : Transaction
  pub response : Option Transaction
  pub blocks : Bool

unfoldable pub if_present : (Transaction → Transaction) → Option Transaction → Option Transaction
if_present f none = none
if_present f (some t) = some (f t)

-- `GetConsumeAllBeforeSending() && IsPayloadComplete()`.
unfoldable pub is_inspected : Option Transaction → Bool
is_inspected none = false
is_inspected (some t) = t.consume_all_before_sending && t.payload_complete

unfoldable pub inspected_payload : Option Transaction → Option Bytes
unfolding is_inspected
inspected_payload none = none
inspected_payload (some t) = if is_inspected (some t) then some t.payload else none

unfoldable pub optional_headers : Library → Option Transaction → Result (Option Transaction × Bytes)
optional_headers lib none = ok (none, [])
optional_headers lib (some t) = headers_to_string lib t >>= (λ r. ok (some r.0, r.1))

-- The block page: the callback's own, or 204.
unfoldable pub block_page : Library → Outside → Bytes → Transaction → Transaction
block_page lib o custom t =
    if is_empty custom then make_204 o.now o.epoch t else set_payload lib custom true t

-- The branch of `m_onMessageEnd`. A custom page is set without a category.
unfoldable pub judge_end :
    Library → Outside → Bytes → Bytes → Transaction → Option Transaction → Judged
unfolding block_page inspected_payload set_should_block
judge_end lib o request_headers response_headers q p =
    let answer =
      o.on_message_end request_headers (inspected_payload (some q)) response_headers
        (inspected_payload p) in
    let page = block_page lib o answer.1 q in
    if answer.0
    then record {
      request = if is_empty answer.1 then set_should_block (pos 1) page else page;
      response = p;
      blocks = true;
    }
    else record { request = q; response = p; blocks = false }

-- What the next actions 0, 1 and 3 set on either transaction.
unfoldable pub mark : ℤ → Bool → Transaction → Transaction
unfolding set_should_block set_consume_all_before_sending
mark category consume t = set_consume_all_before_sending consume (set_should_block category t)

-- The `switch` on the next action.
unfoldable pub carry_out : Library → Outside → ℕ × Bytes → Transaction → Option Transaction → Judged
unfolding mark if_present block_page set_should_block
carry_out lib o (action, custom) q p =
    if action == 0
    then record {
      request = mark (pos 0) false q;
      response = if_present (mark (pos 0) false) p;
      blocks = false;
    }
    else if action == 1
    then record {
      request = mark (pos 0) true q;
      response = if_present (mark (pos 0) true) p;
      blocks = false;
    }
    else if action == 2
    then record {
      request = set_should_block (pos 1) (block_page lib o custom q);
      response = if_present (set_should_block (pos 1)) p;
      blocks = true;
    }
    else if action == 3
    then record {
      request = mark (negsuc 0) false q;
      response = if_present (mark (negsuc 0) false) p;
      blocks = false;
    }
    else record { request = q; response = p; blocks = false }

-- `ShouldBlockTransaction`.
unfoldable pub should_block_transaction :
    Library → Outside → Transaction → Option Transaction → Result Judged
unfolding optional_headers is_inspected judge_end carry_out
should_block_transaction lib o q p = do
  (q1, request_headers) ← headers_to_string lib q
  (p1, response_headers) ← optional_headers lib p
  let inspect_request = is_inspected (some q1)
  let inspect_response = is_inspected p1
  ok (
      if (inspect_request && not inspect_response) || (inspect_request && inspect_response)
      then judge_end lib o request_headers response_headers q1 p1
      else carry_out lib o (o.on_message_begin request_headers response_headers) q1 p1)
