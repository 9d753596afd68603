-- ===== src/Bridge/Streaming/Refines.antt =====
-- ShouldBlockTransaction with its channel, as seen by one transaction: as if the callbacks handed
-- their response back.
use http_filtering_engine.Base.{
  join, Bytes, ℕ, Bool, true, false, [], List, ◌∷◌, ◌++◌, if◌then◌else◌, Option, some, none, ◌≡◌,
  refl, sym, subst, ap, ◌∙◌, append_assoc, append-nil, arith, Bool-cases, inl, inr,
}
use http_filtering_engine.External.{Library}
use http_filtering_engine.Http.State.{Transaction, Result, ok, thrown, ◌>>=◌}
use http_filtering_engine.Bridge.State.{Outside}
use http_filtering_engine.Bridge.Judgement.{Judged, should_block_transaction}
use http_filtering_engine.Channels.{put, new_channel, claim_next_channel}
use http_filtering_engine.Channels.Sharing.{
  Holder, System, IsFresh, claimed, written_through, ended, claim, write_one, end_one, Reach, next,
  unused,
}
use http_filtering_engine.Channels.Sharing.Isolation.{vectors-written}
use http_filtering_engine.Bridge.Streaming.{
  Filter, Question, ask_filter, texts_of, answering, carry_out_answer, Writes, all_written,
  writes_one, meanwhile, gives_writer, Judges, throws, judges,
}

Writes-Reach :
    {arrays i : ℕ} {texts : List Bytes} {r s t : System}
    → Writes arrays i texts s t
    → Reach arrays r s
    → Reach arrays r t
Writes-Reach all_written reach = reach
Writes-Reach {i = i} (writes_one h text e w) reach =
    Writes-Reach w (next reach (write_one i h text _ e))
Writes-Reach (meanwhile step e w) reach = Writes-Reach w (next reach step)

-- A holder that has not changed but for what was written through it.
pub record HasWritten (i : ℕ) (h : Holder) (text : Bytes) (t : System) : Type 0 where
  pub holder : Holder
  pub there : t.holders i ≡ some holder
  pub same_vector : holder.vector ≡ h.vector
  pub says : h.channel.is_valid ≡ true → holder.written ≡ h.written ++ text
  pub silent : h.channel.is_valid ≡ false → holder.written ≡ h.written

same_holder :
    (i : ℕ) (h k : Holder) (s : System) → s.holders i ≡ some h → s.holders i ≡ some k → h ≡ k
same_holder i h k s e f = cc

after_write : Holder → Bytes → Holder
after_write h text = if h.channel.is_valid then record h { written = h.written ++ text } else h

written-there :
    (i : ℕ) (h : Holder) (text : Bytes) (s : System)
    → (written_through i h text s).holders i ≡ some (after_write h text)
unfolding written_through put after_write
written-there i h text s = ground arith

after_write-HasWritten :
    (i : ℕ) (h : Holder) (text more : Bytes) (t : System)
    → HasWritten i (after_write h text) more t
    → HasWritten i h (text ++ more) t
unfolding after_write
after_write-HasWritten i h text more t w = elim (Bool-cases h.channel.is_valid) [
  | inl e ↦
      let grown = record h { written = h.written ++ text } in
      let v : HasWritten i grown more t =
        subst (λ k. HasWritten i k more t) (ap (λ b. if b then grown else h) e) w in
      record {
        holder = v.holder;
        there = v.there;
        same_vector = v.same_vector;
        says = λ d. v.says d ∙ append_assoc h.written text more;
        silent = λ d. absurd (cc);
      }
  | inr e ↦
      let grown = record h { written = h.written ++ text } in
      let v : HasWritten i h more t =
        subst (λ k. HasWritten i k more t) (ap (λ b. if b then grown else h) e) w in
      record {
        holder = v.holder;
        there = v.there;
        same_vector = v.same_vector;
        says = λ d. absurd (cc);
        silent = v.silent;
      }
]

Writes-HasWritten :
    {arrays i : ℕ} {texts : List Bytes} {s t : System} (h : Holder)
    → Writes arrays i texts s t
    → s.holders i ≡ some h
    → HasWritten i h (join texts) t
Writes-HasWritten h all_written e = record {
  holder = h;
  there = e;
  same_vector = refl;
  says = λ _. sym (append-nil h.written);
  silent = λ _. refl;
}
Writes-HasWritten {i = i} {texts = texts} {s = s} h (writes_one k text e w) f =
    after_write-HasWritten i h text _ _ (
      Writes-HasWritten (after_write h text) w
        (written-there i k text s ∙ ap (λ x. some (after_write x text)) (same_holder i k h s e f)))
Writes-HasWritten h (meanwhile step e w) f = Writes-HasWritten h w (e ∙ f)

staged :
    (lib : Library) (o : Outside) (f : Filter) (writes : Bool) (q : Transaction)
    (p : Option Transaction)
    → should_block_transaction lib (answering f writes join o) q p ≡ (
        ask_filter lib q p >>= λ x.
        ok (carry_out_answer lib o f x writes (join (texts_of f x writes))))
unfolding should_block_transaction ask_filter carry_out_answer texts_of answering
staged lib o f writes q p = ground arith

-- The holder that a claim makes.
claiming : ℕ → ℕ → System → Holder
claiming arrays vector s = record {
  channel = (claim_next_channel arrays vector s.channels).0;
  vector = vector;
  written = [];
}

claimed-there :
    (arrays i vector : ℕ) (s : System)
    → (claimed arrays i vector s).holders i ≡ some (claiming arrays vector s)
unfolding claimed put claiming
claimed-there arrays i vector s = ground arith

claiming-valid :
    (arrays i vector : ℕ) (s : System)
    → (claiming arrays vector s).channel.is_valid ≡ gives_writer i (claimed arrays i vector s)
unfolding gives_writer claiming claim_next_channel new_channel
claiming-valid arrays i vector s = rw (gives_writer, claimed-there arrays i vector s) refl

-- What the vector holds once the callback has returned.
vector-join :
    (arrays counter i vector : ℕ) (vectors : ℕ → Bytes) (texts : List Bytes) (writes : Bool)
    (s t : System)
    → Reach arrays (unused counter vectors) s
    → s.holders i ≡ none
    → IsFresh vector s
    → s.channels.vectors vector ≡ []
    → gives_writer i (claimed arrays i vector s) ≡ writes
    → (writes ≡ false → texts ≡ [])
    → Writes arrays i texts (claimed arrays i vector s) t
    → Reach arrays (unused counter vectors) t × (t.channels.vectors vector ≡ join texts)
unfolding claiming
vector-join arrays counter i vector vectors texts writes s t r e fresh empty flag silent w =
    let reach = Writes-Reach w (next r (claim i vector s e fresh empty)) in
    let there = claimed-there arrays i vector s in
    let v = Writes-HasWritten (claiming arrays vector s) w there in
    let valid = claiming-valid arrays i vector s ∙ flag in
    let held = vectors-written arrays counter vectors t i v.holder reach v.there in
    let at = sym (ap t.channels.vectors v.same_vector) ∙ held in
    (
      reach,
      elim (Bool-cases writes) [
        | inl yes_writes ↦ at ∙ v.says (valid ∙ yes_writes)
        | inr no_writer ↦ at ∙ (v.silent (valid ∙ no_writer) ∙ ap join (sym (silent no_writer)))
      ],
    )

answer_of : Library → Outside → Filter → Bool → Result Question → Result Judged
answer_of lib o f writes r =
    r >>= λ x. ok (carry_out_answer lib o f x writes (join (texts_of f x writes)))

-- For a transaction, the channels that its filtering callbacks write through are as if the
-- callbacks handed their response back. However many transactions claim, write to and end channels,
-- before and during a run of `ShouldBlockTransaction` that claims a channel, asks a callback, which
-- writes through the channel's writer, reads the vector and ends the channel, the run's result is
-- that of `ShouldBlockTransaction` with callbacks that return the texts written, one after the
-- other. The channels start unused, the run's holder and empty vector are no other's, and a
-- callback that is given a null pointer for a writer writes nothing. The state after the run is
-- again one that such steps lead to.
pub should_block_transaction-refines :
    (arrays counter i vector : ℕ) (vectors : ℕ → Bytes) (lib : Library) (o : Outside) (f : Filter)
    (q : Transaction) (p : Option Transaction) {s t : System} {r : Result Judged}
    → Reach arrays (unused counter vectors) s
    → Judges arrays i vector lib o f q p s t r
    → Reach arrays (unused counter vectors) t
      × (r
          ≡ should_block_transaction lib
              (answering f (gives_writer i (claimed arrays i vector s)) join o)
              q
              p)
unfolding answer_of
should_block_transaction-refines arrays counter i vector vectors lib o f q p {s = s} reach
      (throws e) =
    let writes = gives_writer i (claimed arrays i vector s) in
    (reach, sym (staged lib o f writes q p ∙ ap (answer_of lib o f writes) e))
should_block_transaction-refines arrays counter i vector vectors lib o f q p {s = s} reach
      (judges {t = t} x writes h e free fresh empty flag silent w there) =
    let v =
      vector-join arrays counter i vector vectors (texts_of f x writes) writes s t reach free fresh
        empty flag silent w in
    (
      next v.0 (end_one i h t there),
      ap (λ text. ok (carry_out_answer lib o f x writes text)) v.1
          ∙ sym (
              ap (λ b. should_block_transaction lib (answering f b join o) q p) flag
              ∙ (staged lib o f writes q p ∙ ap (answer_of lib o f writes) e)),
    )

write_all :
    (arrays i : ℕ) (texts : List Bytes) (h : Holder) (s : System)
    → s.holders i ≡ some h
    → (t : System) × (k : Holder) × Writes arrays i texts s t × (t.holders i ≡ some k)
write_all arrays i [] h s e = (s, h, all_written, e)
write_all arrays i (text ∷ texts) h s e =
    let r =
      write_all arrays i texts (after_write h text) (written_through i h text s)
        (written-there i h text s) in
    (r.0, r.1, writes_one h text e r.2, r.3)

module _ (arrays i vector : ℕ) (lib : Library) (o : Outside) (f : Filter) (q : Transaction)
    (p : Option Transaction) (s : System) (free : s.holders i ≡ none) (fresh : IsFresh vector s)
    (empty : s.channels.vectors vector ≡ [])
    (silent : (x : Question) → texts_of f x false ≡ []) where
  run :
      (r : Result Question)
      → ask_filter lib q p ≡ r
      → (t : System) × (j : Result Judged) × Judges arrays i vector lib o f q p s t j
  run thrown e = (s, thrown, throws e)
  run (ok x) e =
      let writes = gives_writer i (claimed arrays i vector s) in
      let w =
        write_all arrays i (texts_of f x writes) (claiming arrays vector s)
          (claimed arrays i vector s) (claimed-there arrays i vector s) in
      (
        ended i w.1 w.0,
        ok (carry_out_answer lib o f x writes (w.0.channels.vectors vector)),
        judges x writes w.1 e free fresh empty refl
            (λ no_writer. ap (texts_of f x) no_writer ∙ silent x) w.2 w.3,
      )

  -- Whatever the filter answers, `ShouldBlockTransaction` has a run, if the holder and its vector
  -- are new and no callback calls a writer that is a null pointer.
  pub Judges-exists : (t : System) × (j : Result Judged) × Judges arrays i vector lib o f q p s t j
  Judges-exists = run (ask_filter lib q p) refl
