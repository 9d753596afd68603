-- ===== src/Bridge/Streaming.antt =====
-- ShouldBlockTransaction of TlsCapableHttpBridge.hpp with the channel that it claims: the filtering
-- callbacks write a response of their own through the channel's writer, while other transactions
-- claim, write and end channels of theirs.
pub mod Refines
use http_filtering_engine.Base.{
  Bytes, ℕ, Bool, true, false, not, ◌&&◌, ◌||◌, [], List, ◌∷◌, ◌++◌, if◌then◌else◌, Option, some,
  none, ◌≡◌,
}
use http_filtering_engine.External.{Library}
use http_filtering_engine.Http.State.{Transaction, Result, ok, thrown, ◌>>=◌}
use http_filtering_engine.Http.Head.{headers_to_string}
use http_filtering_engine.Bridge.State.{Outside}
use http_filtering_engine.Bridge.Judgement.{
  Judged, is_inspected, inspected_payload, optional_headers, judge_end, carry_out,
}
use http_filtering_engine.Channels.Sharing.{
  Holder, System, IsFresh, claimed, written_through, ended, Step,
}

-- The filtering callbacks, with whether the writer that they are given is not a null pointer: the
-- next action or whether to block, and the texts that they write, one after the other.
pub record Filter : Type 0 where
  pub begin : Bytes → Bytes → Bool → ℕ × List Bytes
  pub end : Bytes → Option Bytes → Bytes → Option Bytes → Bool → Bool × List Bytes

-- What is read in front of the claim, and which of the callbacks is to be asked.
pub record Question : Type 0 where
  pub request : Transaction
  pub response : Option Transaction
  pub request_headers : Bytes
  pub response_headers : Bytes
  pub asks_end : Bool

unfoldable pub ask_filter : Library → Transaction → Option Transaction → Result Question
unfolding optional_headers is_inspected
ask_filter lib q p = do
  (q1, request_headers) ← headers_to_string lib q
  (p1, response_headers) ← optional_headers lib p
  let inspect_request = is_inspected (some q1)
  let inspect_response = is_inspected p1
  ok (record {
    request = q1;
    response = p1;
    request_headers = request_headers;
    response_headers = response_headers;
    asks_end = (inspect_request && not inspect_response) || (inspect_request && inspect_response);
  })

unfoldable pub asked_end : Filter → Question → Bool → Bool × List Bytes
unfolding inspected_payload
asked_end f x writes =
    f.end x.request_headers (inspected_payload (some x.request)) x.response_headers
      (inspected_payload x.response) writes

unfoldable pub asked_begin : Filter → Question → Bool → ℕ × List Bytes
asked_begin f x writes = f.begin x.request_headers x.response_headers writes

-- What the callback writes.
unfoldable pub texts_of : Filter → Question → Bool → List Bytes
unfolding asked_end asked_begin
texts_of f x writes = if x.asks_end then (asked_end f x writes).1 else (asked_begin f x writes).1

-- Callbacks that answer as the filter's do, with the response that they have written.
unfoldable pub answering : Filter → Bool → (List Bytes → Bytes) → Outside → Outside
answering f writes custom o = record o {
  on_message_begin = λ h k. let a = f.begin h k writes in (a.0, custom a.1);
  on_message_end =
      λ h body k answer_body. let a = f.end h body k answer_body writes in (a.0, custom a.1);
}

-- The rest, with what `customBlockResponse` holds then.
unfoldable pub carry_out_answer : Library → Outside → Filter → Question → Bool → Bytes → Judged
unfolding answering judge_end carry_out asked_begin
carry_out_answer lib o f x writes custom =
    if x.asks_end
    then judge_end lib (answering f writes (λ _. custom) o) x.request_headers x.response_headers
        x.request x.response
    else carry_out lib (answering f writes (λ _. custom) o) ((asked_begin f x writes).0, custom)
        x.request x.response

-- From one state to another a holder writes the texts, and other holders make steps in between.
pub data Writes (arrays i : ℕ) : List Bytes → System → System → Type 0 where
  all_written : {s : System} → Writes arrays i [] s s
  writes_one :
      {texts : List Bytes} {s t : System} (h : Holder) (text : Bytes)
      → s.holders i ≡ some h
      → Writes arrays i texts (written_through i h text s) t
      → Writes arrays i (text ∷ texts) s t
  meanwhile :
      {texts : List Bytes} {s u t : System}
      → Step arrays s u
      → u.holders i ≡ s.holders i
      → Writes arrays i texts u t
      → Writes arrays i texts s t

-- `myStreamChannel` has a writer.
unfoldable pub gives_writer : ℕ → System → Bool
gives_writer i s = elim (s.holders i) [ none ↦ false | some h ↦ h.channel.has_writer ]

-- `ShouldBlockTransaction` as the holder `i`, with its vector: the states before and after, and the
-- result. A callback does not call a writer that is a null pointer.
pub data Judges (arrays i vector : ℕ) (lib : Library) (o : Outside) (f : Filter) (q : Transaction)
    (p : Option Transaction) : System → System → Result Judged → Type 0 where
  throws :
      {s : System} → ask_filter lib q p ≡ thrown → Judges arrays i vector lib o f q p s s thrown
  judges :
      {s t : System} (x : Question) (writes : Bool) (h : Holder)
      → ask_filter lib q p ≡ ok x
      → s.holders i ≡ none
      → IsFresh vector s
      → s.channels.vectors vector ≡ []
      → gives_writer i (claimed arrays i vector s) ≡ writes
      → (writes ≡ false → texts_of f x writes ≡ [])
      → Writes arrays i (texts_of f x writes) (claimed arrays i vector s) t
      → t.holders i ≡ some h
      → Judges arrays i vector lib o f q p s
          (ended i h t)
          (ok (carry_out_answer lib o f x writes (t.channels.vectors vector)))
