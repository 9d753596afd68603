-- ===== src/Channels/Sharing.antt =====
-- Channels of StreamCopyUtils.hpp in use at once: steps of many holders of a channel, in any order.
pub mod Writing
pub mod Ending
pub mod Claiming
pub mod Isolation
use http_filtering_engine.Base.{
  Bytes, ℕ, ◌+◌, ◌%◌, ◌^◌, Bool, true, false, ◌==◌, ==_iff, List, [], ◌∷◌, ◌++◌, if◌then◌else◌,
  is_empty, Option, some, none, ◌≡◌, ◌≢◌, refl, sym, subst, ◌⊎◌, inl, inr, arith, ◌∙◌, ap,
  append-nil, Bool-cases, Option-cases,
}
use http_filtering_engine.Channels.{
  Channels, WriterChannel, put, claim_container, release, write_raw, new_channel,
  claim_next_channel, destroy_channel, write, position_of, channel_at,
}

-- A live object of `TempWriterChannel`, the vector that it was given, and what was written through
-- it since.
pub record Holder : Type 0 where
  pub channel : WriterChannel
  pub vector : ℕ
  pub written : Bytes

pub record System : Type 0 where
  pub channels : Channels
  pub holders : ℕ → Option Holder

abbrev pub IsFresh : ℕ → System → Type 0
IsFresh vector s = (i : ℕ) (h : Holder) → s.holders i ≡ some h → h.vector ≢ vector

-- The states after a claim, a write and the end of a holder.
unfoldable pub claimed : ℕ → ℕ → ℕ → System → System
unfolding claim_next_channel put
claimed arrays i vector s =
    let r = claim_next_channel arrays vector s.channels in
    record {
      channels = r.1;
      holders = put i (some (record { channel = r.0; vector = vector; written = [] })) s.holders;
    }

unfoldable pub written_through : ℕ → Holder → Bytes → System → System
unfolding write put
written_through i h text s = record {
  channels = write h.channel text s.channels;
  holders =
      put i (some (if h.channel.is_valid then record h { written = h.written ++ text } else h))
        s.holders;
}

unfoldable pub ended : ℕ → Holder → System → System
unfolding destroy_channel put
ended i h s = record {
  channels = destroy_channel h.channel s.channels;
  holders = put i none s.holders;
}

-- A claim comes with an empty vector that no other holder has.
pub data Step (arrays : ℕ) : System → System → Type 0 where
  claim :
      (i vector : ℕ) (s : System)
      → s.holders i ≡ none
      → IsFresh vector s
      → s.channels.vectors vector ≡ []
      → Step arrays s (claimed arrays i vector s)
  write_one :
      (i : ℕ) (h : Holder) (text : Bytes) (s : System)
      → s.holders i ≡ some h
      → Step arrays s (written_through i h text s)
  end_one : (i : ℕ) (h : Holder) (s : System) → s.holders i ≡ some h → Step arrays s (ended i h s)

pub data Reach (arrays : ℕ) (s : System) : System → Type 0 where
  here : Reach arrays s s
  next : {t u : System} → Reach arrays s t → Step arrays t u → Reach arrays s u

-- The static members at first, with any counter and any vectors.
abbrev pub unused : ℕ → (ℕ → Bytes) → System
unused counter vectors = record {
  channels = record { acquire_idx = counter; container = λ _. none; vectors = vectors };
  holders = λ _. none;
}

-- What a holder has: if it was claimed, its channel leads to its vector; in either case the vector
-- holds what was written through the holder.
pub record Owns (c : Channels) (h : Holder) : Type 0 where
  pub leads : h.channel.is_valid ≡ true → c.container h.channel.parent ≡ some h.vector
  pub holds : c.vectors h.vector ≡ h.written

pub record IsShared (s : System) : Type 0 where
  pub owned : (i : ℕ) (h : Holder) → s.holders i ≡ some h → Owns s.channels h
  pub distinct :
      (i j : ℕ) (h k : Holder)
      → s.holders i ≡ some h
      → s.holders j ≡ some k
      → h.vector ≡ k.vector
      → i ≡ j
  pub taken :
      (c v : ℕ)
      → s.channels.container c ≡ some v
      → (i : ℕ) × (h : Holder) × (s.holders i ≡ some h)
        × (h.channel.is_valid ≡ true)
        × (h.channel.parent ≡ c)

pub unused-IsShared : (counter : ℕ) (vectors : ℕ → Bytes) → IsShared (unused counter vectors)
unused-IsShared counter vectors = record {
  owned = λ i h e. cc;
  distinct = λ i j h k e f g. cc;
  taken = λ c v e. absurd (cc);
}
