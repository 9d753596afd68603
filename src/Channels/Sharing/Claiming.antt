-- ===== src/Channels/Sharing/Claiming.antt =====
-- What a claim of a channel of StreamCopyUtils.hpp keeps.
use http_filtering_engine.Base.{
  ℕ, ◌+◌, ◌%◌, ◌^◌, Bool, true, false, ◌==◌, ==_iff, [], Option, some, none, ◌≡◌, ◌≢◌, refl, sym,
  subst, ◌⊎◌, inl, inr, arith, Bool-cases, Option-cases,
}
use http_filtering_engine.Channels.{
  put, claim_container, new_channel, claim_next_channel, position_of, channel_at,
}
use http_filtering_engine.Channels.Sharing.{Holder, System, IsFresh, claimed, Owns, IsShared}

module _ (arrays i vector : ℕ) (s : System) (v : IsShared s) (e : s.holders i ≡ none)
    (fresh : IsFresh vector s) (empty : s.channels.vectors vector ≡ []) where
  abbrev wanted : ℕ
  wanted = channel_at (position_of arrays s.channels.acquire_idx)

  -- The holder that a claim makes, and the state that it leaves.
  abbrev holder_of : Bool → Holder
  holder_of b = record {
    channel = record { parent = wanted; has_writer = b; is_valid = b };
    vector = vector;
    written = [];
  }

  abbrev outcome : Bool → (ℕ → Option ℕ) → System
  outcome b container = record {
    channels = record s.channels {
      acquire_idx = (s.channels.acquire_idx + 1) % 2 ^ 32;
      container = container;
    };
    holders = put i (some (holder_of b)) s.holders;
  }

  claimed_free :
      s.channels.container wanted ≡ none
      → claimed arrays i vector s ≡ outcome true (put wanted (some vector) s.channels.container)
  unfolding claimed claim_next_channel new_channel claim_container
  claimed_free free = rw (claimed, claim_next_channel, new_channel, claim_container, free) refl

  claimed_used :
      (w : ℕ)
      → s.channels.container wanted ≡ some w
      → claimed arrays i vector s ≡ outcome false s.channels.container
  unfolding claimed claim_next_channel new_channel claim_container
  claimed_used w used = rw (claimed, claim_next_channel, new_channel, claim_container, used) refl

  outcome-before :
      (b : Bool) (container : ℕ → Option ℕ) (j : ℕ) (k : Holder)
      → (outcome b container).holders j ≡ some k
      → ((i ≡ j) × (holder_of b ≡ k)) ⊎ ((i ≢ j) × (s.holders j ≡ some k))
  unfolding put
  outcome-before b container j k f = elim (Bool-cases (j == i)) [
    | inl same ↦ inl (ground (arith, ==_iff j i), ground arith)
    | inr other ↦ inr (ground arith, ground arith)
  ]

  outcome-distinct :
      (b : Bool) (container : ℕ → Option ℕ) (j j' : ℕ) (k k' : Holder)
      → (outcome b container).holders j ≡ some k
      → (outcome b container).holders j' ≡ some k'
      → k.vector ≡ k'.vector
      → j ≡ j'
  outcome-distinct b container j j' k k' f f' g = elim (outcome-before b container j k f) [
    | inl p ↦ elim (outcome-before b container j' k' f') [
      | inl q ↦ ground (arith, p, q)
      | inr q ↦ absurd (ground (arith, fresh j' k' q.1, p.1))
    ]
    | inr p ↦ elim (outcome-before b container j' k' f') [
      | inl q ↦ absurd (ground (arith, fresh j k p.1, q.1))
      | inr q ↦ v.distinct j j' k k' p.1 q.1 g
    ]
  ]

  free-taken :
      s.channels.container wanted ≡ none
      → (c w : ℕ) → put wanted (some vector) s.channels.container c ≡ some w
      → (j : ℕ) × (k : Holder) × ((outcome true
              (put wanted (some vector) s.channels.container)).holders
            j
          ≡ some k)
        × (k.channel.is_valid ≡ true)
        × (k.channel.parent ≡ c)
  unfolding put
  free-taken free c w f = elim (Bool-cases (c == wanted)) [
    | inl same ↦
        (i, holder_of true, ground (arith, ==_iff i i), refl, ground (arith, ==_iff c wanted))
    | inr other ↦
        let f' : s.channels.container c ≡ some w = ground arith in
        let t = v.taken c w f' in (t.0, t.1, ground (arith, ==_iff t.0 i, t.2), t.3, t.4)
  ]

  free-IsShared :
      s.channels.container wanted ≡ none
      → IsShared (outcome true (put wanted (some vector) s.channels.container))
  unfolding put
  free-IsShared free = record {
    owned = λ j k f.
        elim (outcome-before true (put wanted (some vector) s.channels.container) j k f) [
          | inl p ↦
              subst (Owns _) p.1
                (record { leads = λ _. ground (arith, ==_iff wanted wanted); holds = empty })
          | inr p ↦
              let o = v.owned j k p.1 in
              record {
                leads = λ t. ground (arith, o.leads t, free, ==_iff k.channel.parent wanted);
                holds = o.holds;
              }
        ];
    distinct = outcome-distinct true (put wanted (some vector) s.channels.container);
    taken = free-taken free;
  }

  used-IsShared :
      (w : ℕ) → s.channels.container wanted ≡ some w → IsShared (outcome false s.channels.container)
  unfolding put
  used-IsShared w used = record {
    owned = λ j k f. elim (outcome-before false s.channels.container j k f) [
      | inl p ↦ subst (Owns _) p.1 (record { leads = λ t. cc; holds = empty })
      | inr p ↦ record { leads = (v.owned j k p.1).leads; holds = (v.owned j k p.1).holds }
    ];
    distinct = outcome-distinct false s.channels.container;
    taken =
        λ c x f. let t = v.taken c x f in (t.0, t.1, ground (arith, ==_iff t.0 i, t.2), t.3, t.4);
  }

  pub claimed-IsShared : IsShared (claimed arrays i vector s)
  claimed-IsShared = elim (Option-cases (s.channels.container wanted)) [
    | inl free ↦ subst IsShared (sym (claimed_free free)) (free-IsShared free)
    | inr used ↦ subst IsShared (sym (claimed_used used.0 used.1)) (used-IsShared used.0 used.1)
  ]
