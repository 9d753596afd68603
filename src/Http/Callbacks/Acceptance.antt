-- ===== src/Http/Callbacks/Acceptance.antt =====
-- The checks that `Parse` makes after http_parser has run.
use http_filtering_engine.Base.{
  ℕ, Bool, true, false, not, [], ◌∷◌, List, if◌then◌else◌, ◌==◌, ◌≡◌, ◌≢◌, refl, sym, subst, ◌∙◌,
  arith, inl, inr, ◌⊎◌, take,
}
use http_filtering_engine.External.{Library, Parser, Callback, Execution, StoppedIsError}
use http_filtering_engine.Http.State.{Transaction, error, report, ok}
use http_filtering_engine.Http.Results.{Holds, Holds-bind, Holds-any, by_flag}
use http_filtering_engine.Http.Callbacks.{dispatch, run_callbacks, check_parsed, parse}

-- How `http_parser_execute` has ended: by itself, or stopped by a callback, which is an error.
abbrev Ended : Execution → Transaction × ℕ → Type 0
Ended run r = ((r.0.parser ≡ run.parser) × (r.1 ≡ run.nparsed)) ⊎ (r.0.parser.http_errno ≢ 0)

run_callbacks-Ended :
    (lib : Library) (stops : StoppedIsError lib) (run : Execution) (cs : List Callback)
    (t : Transaction)
    → Holds (Ended run) (run_callbacks lib run cs t)
unfolding run_callbacks
run_callbacks-Ended lib stops run [] t = inl (refl, refl)
run_callbacks-Ended lib stops run (c ∷ cs) t =
    Holds-bind (λ _. Unit) (Ended run) (dispatch lib c.event (record t { parser = c.parser })) _
      (Holds-any (dispatch lib c.event (record t { parser = c.parser })))
      (λ r h.
        by_flag (Holds (Ended run)) r.1 _ _ (run_callbacks-Ended lib stops run cs r.0)
          (inr (stops r.0.parser)))

-- What `Parse` has seen when it returns true.
abbrev pub Accepted : Execution → ℕ → Transaction → Type 0
Accepted run received t =
    (t.parser ≡ run.parser)
    × (run.parser.upgrade ≢ 1)
    × (run.parser.http_errno ≡ 0)
    × (run.nparsed ≡ received)

abbrev AcceptedIfTrue : Execution → ℕ → Transaction × Bool → Type 0
AcceptedIfTrue run received (t, true) = Accepted run received t
AcceptedIfTrue run received (t, false) = Unit

if-AcceptedIfTrue :
    (run : Execution) (received : ℕ) (b : Bool) (t : Transaction) (r : Transaction × Bool)
    → (b ≡ false → AcceptedIfTrue run received r)
    → AcceptedIfTrue run received (if b then (t, false) else r)
if-AcceptedIfTrue run received true t r h = tt
if-AcceptedIfTrue run received false t r h = h refl

check_parsed-AcceptedIfTrue :
    (run : Execution) (received : ℕ) (r : Transaction × ℕ)
    → Ended run r
    → AcceptedIfTrue run received (check_parsed received r)
unfolding check_parsed
check_parsed-AcceptedIfTrue run received (t, n) (inl (p, k)) =
    if-AcceptedIfTrue run received (t.parser.upgrade == 1) (report error t) _ (λ u.
      if-AcceptedIfTrue run received (not (t.parser.http_errno == 0)) (report error t) _ (λ e.
        if-AcceptedIfTrue run received (not (n == received)) (report error t) _ (λ m. (
          p,
          subst (λ (q : Parser). q.upgrade ≢ 1) p (ground arith),
          subst (λ (q : Parser). q.http_errno ≡ 0) p (ground arith),
          sym k ∙ ground arith,
        ))))
check_parsed-AcceptedIfTrue run received (t, n) (inr p) =
    if-AcceptedIfTrue run received (t.parser.upgrade == 1) (report error t) _ (λ u.
      if-AcceptedIfTrue run received (not (t.parser.http_errno == 0)) (report error t) _
        (λ e. absurd (ground arith)))

-- Where `Parse` returns true, no callback has stopped the parser: its state is the one that the
-- whole run of http_parser over the received bytes leaves, which asks for no upgrade and has no
-- error, and the run has parsed all the bytes. A callback that does not return 0 is taken to give
-- the parser an error.
parse-Accepted :
    (lib : Library) (stops : StoppedIsError lib) (received : ℕ) (t t' : Transaction)
    → parse lib received t ≡ ok (t', true)
    → Accepted (lib.execute t.parser (take received t.buffer)) received t'
unfolding parse
parse-Accepted lib stops received t t' e =
    let run = lib.execute t.parser (take received t.buffer) in
    let all =
      Holds-bind (Ended run) (AcceptedIfTrue run received) (run_callbacks lib run run.callbacks t) _
        (run_callbacks-Ended lib stops run run.callbacks t)
        (check_parsed-AcceptedIfTrue run received) in
    subst (Holds (AcceptedIfTrue run received)) e all
