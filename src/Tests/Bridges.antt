-- ===== src/Tests/Bridges.antt =====
-- The bridge at concrete inputs.
use http_filtering_engine.Base.{true, false, [], ◌++◌, ◌≡◌, ◌&&◌, refl, codes, some, none}
use http_filtering_engine.Text.Compare.{less}
use http_filtering_engine.Http.State.{http1_1}
use http_filtering_engine.Http.Results.{Holds}
use http_filtering_engine.Bridge.State.{
  Outside, success, ssl_short_read, Bridge, initial_peek, new_bridge, fresh_request,
}
use http_filtering_engine.Bridge.Judgement.{should_block_transaction}
use http_filtering_engine.Bridge.Judgement.Refusal.{Verdict, should_block_transaction-Verdict}
use http_filtering_engine.Bridge.Reading.{client, server}
use http_filtering_engine.Bridge.Answers.{
  on_upstream_headers, on_upstream_read, on_downstream_write, finish_transaction, start_over,
  try_initiate_http_transaction,
}
use http_filtering_engine.Bridge.Passthrough.{
  handle_downstream_passthrough, handle_upstream_passthrough,
}
use http_filtering_engine.Bridge.Passthrough.Flows.{
  Volleying, starting, put_flow, after_read, after_write, send, read, written, here, next,
}
use http_filtering_engine.Bridge.Passthrough.InOrder.{Delivers, Reach-Delivers}
use http_filtering_engine.Bridge.Requests.{on_downstream_headers, on_downstream_read}
use http_filtering_engine.Bridge.ShortReads.{StartsWhole, short_read_starts-Whole}
use http_filtering_engine.Bridge.Hidden.{Hides, on_upstream_headers-Hides}
use http_filtering_engine.Bridge.Reuse.{
  is_peek, is_delivered, is_plain, IsFresh, on_downstream_write_reuses,
}
use http_filtering_engine.Bridge.Steps.{Ending, downstream_write_end, is_lost_peek}
use http_filtering_engine.Bridge.Steps.Reads.{Settled}
use http_filtering_engine.Bridge.Steps.Waiting.{Step-Settled}
use http_filtering_engine.Control.Defaults.{with_callbacks, IsPassed, with_callbacks-IsPassed}
use http_filtering_engine.Tests.Library.{toy, parser, two_headers}

-- Callbacks that block nothing at first, and every message that is inspected, with a page.
abbrev pub guarded : Outside
guarded = record {
  on_message_begin = λ _ _. (1, []);
  on_message_end = λ _ _ _ _. (true, codes "HTTP/1.1 403\r\n\r\n");
  now = codes "now";
  epoch = codes "epoch";
  trim = λ text. text;
  request_parser = parser;
  response_parser = parser;
  server_context = λ _. some 7;
  takes_context = λ _. true;
  invalid_method = 16;
  unknown_error = 30;
  unset_version = http1_1;
  unset_code = 0;
}

abbrev pub joined : Bridge
joined = record (new_bridge guarded false) {
  request = record (fresh_request guarded (codes "GET")) {
    headers_complete = true;
    payload_complete = true;
  };
  response = two_headers;
  upstream_host = codes "a.b";
}

should_block_transaction-Verdict_example :
    Holds
      (Verdict toy guarded joined.request (some joined.response))
      (should_block_transaction toy guarded joined.request (some joined.response))
should_block_transaction-Verdict_example =
    should_block_transaction-Verdict toy guarded joined.request (some joined.response)

with_callbacks-IsPassed_example : Holds (IsPassed joined.request (some joined.response)) (
    should_block_transaction toy
      (with_callbacks none none guarded)
      joined.request
      (some joined.response))
with_callbacks-IsPassed_example =
    with_callbacks-IsPassed toy guarded joined.request (some joined.response)

short_read_starts-Whole_example :
    Holds (StartsWhole server) (on_upstream_headers toy guarded ssl_short_read 3 joined)
    × Holds (StartsWhole server) (on_upstream_read toy guarded ssl_short_read 3 joined)
    × Holds (StartsWhole client) (on_downstream_headers toy guarded ssl_short_read 3 joined)
    × Holds (StartsWhole client) (on_downstream_read toy ssl_short_read 3 joined)
short_read_starts-Whole_example = short_read_starts-Whole toy guarded 3 joined

on_upstream_headers-Hides_example : Holds Hides (on_upstream_headers toy guarded success 3 joined)
unfolding less
on_upstream_headers-Hides_example =
    on_upstream_headers-Hides toy guarded success 3 joined ((refl, tt), (tt, tt))

abbrev delivered : Ending
delivered = record { completion = success; bytes = [] }

Step-Settled_example : Settled (on_downstream_write guarded success joined)
unfolding is_lost_peek
Step-Settled_example =
    Step-Settled {lib = toy} (downstream_write_end delivered joined (codes "page")) refl (λ h. cc)

on_downstream_write_reuses_example :
    let t = on_downstream_write guarded success joined in
    (is_peek t.1 ≡ (is_delivered success joined && joined.keep_alive && is_plain joined))
    × (is_peek t.1 ≡ true → IsFresh guarded joined t.0)
on_downstream_write_reuses_example = on_downstream_write_reuses guarded success joined

-- The response was delivered, so the connections are used again.
reused : (on_downstream_write guarded success joined).1 ≡ initial_peek
unfolding on_downstream_write finish_transaction start_over try_initiate_http_transaction new_bridge
    fresh_request
reused = refl

-- A volley in which the client sends three bytes, all of which the server gets.
abbrev started : Volleying
started = starting (codes "ab") joined

abbrev sent_more : Volleying
sent_more =
    put_flow client started.bridge
      (record started.down {
        sent = started.down.sent ++ codes "cde";
        unread = started.down.unread ++ codes "cde";
      })
      started

abbrev read_more : Volleying
read_more = after_read client success (codes "cd") (codes "e") sent_more

Reach-Delivers_example : Delivers client (after_write client success (codes "cd") read_more).down
unfolding starting after_read after_write handle_downstream_passthrough handle_upstream_passthrough
Reach-Delivers_example =
    Reach-Delivers (codes "ab") joined client (after_write client success (codes "cd") read_more) (
      next
        (next (next here (send client (codes "cde") started))
          (read client (codes "cd") (codes "e") sent_more refl refl))
        (written client (codes "cd") read_more refl))
