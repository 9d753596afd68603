-- ===== src/Channels/Sharing/Isolation.antt =====
-- What the holders of channels of StreamCopyUtils.hpp can rely on.
use http_filtering_engine.Base.{Bytes, ℕ, true, some, ◌≡◌, ◌≢◌, refl, inl, inr, Option-cases}
use http_filtering_engine.Channels.{
  claim_container, new_channel, claim_next_channel, position_of, channel_at,
}
use http_filtering_engine.Channels.Sharing.{
  Holder, System, Step, claim, write_one, end_one, Reach, here, next, unused, IsShared,
  unused-IsShared,
}
use http_filtering_engine.Channels.Sharing.Writing.{written-IsShared}
use http_filtering_engine.Channels.Sharing.Ending.{ended-IsShared}
use http_filtering_engine.Channels.Sharing.Claiming.{claimed-IsShared}

Step-IsShared : {arrays : ℕ} {s t : System} → Step arrays s t → IsShared s → IsShared t
Step-IsShared (claim i vector s e f z) v = claimed-IsShared _ i vector s v e f z
Step-IsShared (write_one i h text s e) v = written-IsShared i h text s v e
Step-IsShared (end_one i h s e) v = ended-IsShared i h s v e

Reach-IsShared : {arrays : ℕ} {s t : System} → Reach arrays s t → IsShared s → IsShared t
Reach-IsShared here v = v
Reach-IsShared (next r p) v = Step-IsShared p (Reach-IsShared r v)

-- However many transactions claim channels, write through them and give them up, in whatever order
-- and from whatever counter, each one's vector holds exactly what was written through its own
-- channel object; each claim is made with an empty vector that no other live object was given. An
-- object whose claim failed writes nothing.
pub vectors-written :
    (arrays counter : ℕ) (vectors : ℕ → Bytes) (s : System) (i : ℕ) (h : Holder)
    → Reach arrays (unused counter vectors) s
    → s.holders i ≡ some h
    → s.channels.vectors h.vector ≡ h.written
vectors-written arrays counter vectors s i h r e =
    ((Reach-IsShared r (unused-IsShared counter vectors)).owned i h e).holds

-- In every state that such claims, writes and ends lead to, a claim succeeds unless a live channel
-- object still has the channel that the counter points at: none is lost.
pub claim_next_channel-HasWriter :
    (arrays counter : ℕ) (vectors : ℕ → Bytes) (s : System) (vector : ℕ)
    → Reach arrays (unused counter vectors) s
    → ((i : ℕ) (h : Holder)
        → s.holders i ≡ some h
        → h.channel.is_valid ≡ true
        → h.channel.parent ≢ channel_at (position_of arrays s.channels.acquire_idx))
    → ((claim_next_channel arrays vector s.channels).0.has_writer ≡ true)
      × ((claim_next_channel arrays vector s.channels).0.is_valid ≡ true)
unfolding claim_next_channel new_channel claim_container
claim_next_channel-HasWriter arrays counter vectors s vector r unused_there =
    let wanted = channel_at (position_of arrays s.channels.acquire_idx) in
    let v = Reach-IsShared r (unused-IsShared counter vectors) in
    elim (Option-cases (s.channels.container wanted)) [
      | inl free ↦ rw (claim_next_channel, new_channel, claim_container, free) (refl, refl)
      | inr used ↦ let t = v.taken wanted used.0 used.1 in absurd (unused_there t.0 t.1 t.2 t.3 t.4)
    ]
