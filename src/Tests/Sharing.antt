-- ===== src/Tests/Sharing.antt =====
-- Channels of callbacks at concrete inputs.
use http_filtering_engine.Base.{true, [], ◌≡◌, refl, codes, some}
use http_filtering_engine.Channels.{
  claim_next_channel, new_channel, claim_container, put, position_of, index_of, channel_at, write,
  write_raw,
}
use http_filtering_engine.Channels.Sharing.{
  Holder, System, claimed, written_through, claim, write_one, Reach, here, next, unused,
}
use http_filtering_engine.Channels.Sharing.Isolation.{vectors-written}

abbrev at_first : System
at_first = unused 4294967295 (λ _. [])

abbrev one_holder : System
one_holder = claimed 10 0 7 at_first

abbrev holder : Holder
holder = record {
  channel = record { parent = 7295; has_writer = true; is_valid = true };
  vector = 7;
  written = [];
}

one_holder_claimed : one_holder.holders 0 ≡ some holder
unfolding claimed claim_next_channel new_channel claim_container put position_of index_of
one_holder_claimed = refl

abbrev one_written : System
one_written = written_through 0 holder (codes "no") one_holder

one_written_reached : Reach 10 at_first one_written
one_written_reached =
    next (next here (claim 0 7 at_first refl (λ i h e. cc) refl))
      (write_one 0 holder (codes "no") one_holder one_holder_claimed)

vectors-written_example : one_written.channels.vectors 7 ≡ codes "no"
unfolding written_through put
vectors-written_example =
    vectors-written 10 4294967295 (λ _. []) one_written 0 (record holder { written = codes "no" })
      one_written_reached refl

-- The counter has wrapped.
wrapped : channel_at (position_of 10 one_written.channels.acquire_idx) ≡ 0
unfolding written_through write write_raw claimed claim_next_channel new_channel claim_container put
    position_of index_of
wrapped = refl
