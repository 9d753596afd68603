-- ===== src/Tests/Streams.antt =====
-- A filtering callback that writes its response through a channel, at a concrete request.
use http_filtering_engine.Base.{false, [], ◌∷◌, ◌≡◌, refl, codes, none, arith, if◌then◌else◌, join}
use http_filtering_engine.Channels.Sharing.{IsFresh, System, claimed, Reach, here, unused}
use http_filtering_engine.Bridge.Judgement.{should_block_transaction}
use http_filtering_engine.Bridge.Streaming.{Filter, Question, texts_of, answering, gives_writer}
use http_filtering_engine.Bridge.Streaming.Refines.{Judges-exists, should_block_transaction-refines}
use http_filtering_engine.Tests.Library.{toy}
use http_filtering_engine.Tests.Bridges.{joined, guarded}

-- It blocks every request with a page of two pieces.
abbrev filter : Filter
filter = record {
  begin = λ h k writes. (2, if writes then codes "HTTP/1.1 403" ∷ (codes "\r\n\r\n" ∷ []) else []);
  end = λ h body k answer_body writes. (false, []);
}

abbrev at_first : System
at_first = unused 4294967295 (λ _. [])

nobody : IsFresh 7 at_first
nobody i h e = cc

filter_silent : (x : Question) → texts_of filter x false ≡ []
unfolding texts_of
filter_silent x = ground arith

should_block_transaction-refines_example :
    let run =
      Judges-exists 10 0 7 toy guarded filter joined.request none at_first refl nobody refl
        filter_silent in
    Reach 10 at_first run.0
    × (run.1
        ≡ should_block_transaction toy
            (answering filter (gives_writer 0 (claimed 10 0 7 at_first)) join guarded)
            joined.request
            none)
should_block_transaction-refines_example =
    should_block_transaction-refines 10 4294967295 0 7 (λ _. []) toy guarded filter joined.request
      none here
      (Judges-exists 10 0 7 toy guarded filter joined.request none at_first refl nobody refl
        filter_silent).2
