-- ===== src/Channels/Sharing/Ending.antt =====
-- What the end of a TempWriterChannel of StreamCopyUtils.hpp keeps.
use http_filtering_engine.Base.{ℕ, true, ==_iff, some, ◌≡◌, ◌≢◌, arith}
use http_filtering_engine.Channels.{put, release, destroy_channel}
use http_filtering_engine.Channels.Sharing.{Holder, System, ended, Owns, IsShared}

module _ (i : ℕ) (h : Holder) (s : System) (v : IsShared s) (e : s.holders i ≡ some h) where
  ended-before :
      (j : ℕ) (k : Holder) → (ended i h s).holders j ≡ some k → (s.holders j ≡ some k) × (i ≢ j)
  unfolding ended put
  ended-before j k f = ground (arith, ==_iff j i)

  ended-owned :
      (j : ℕ) (k : Holder) → (ended i h s).holders j ≡ some k → Owns (ended i h s).channels k
  unfolding ended destroy_channel release put
  ended-owned j k f =
      let b = ended-before j k f in
      let q = v.owned j k b.0 in
      let o = v.owned i h e in
      let d = v.distinct i j h k e b.0 in
      record {
        leads = λ t.
            ground (arith, q.leads t, o.leads, d, b.1, ==_iff k.channel.parent h.channel.parent);
        holds = ground (arith, q.holds);
      }

  ended-taken :
      (c w : ℕ)
      → (ended i h s).channels.container c ≡ some w
      → (j : ℕ) × (k : Holder) × ((ended i h s).holders j ≡ some k)
        × (k.channel.is_valid ≡ true)
        × (k.channel.parent ≡ c)
  unfolding ended destroy_channel release put
  ended-taken c w f =
      let f' : s.channels.container c ≡ some w = ground (arith, ==_iff c h.channel.parent) in
      let t = v.taken c w f' in
      (t.0, t.1, ground (arith, t.2, t.3, t.4, ==_iff t.0 i, ==_iff c h.channel.parent), t.3, t.4)

  pub ended-IsShared : IsShared (ended i h s)
  unfolding ended destroy_channel release put
  ended-IsShared = record {
    owned = ended-owned;
    distinct =
        λ j j' k k' f f' g. v.distinct j j' k k' (ended-before j k f).0 (ended-before j' k' f').0 g;
    taken = ended-taken;
  }
