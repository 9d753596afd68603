-- ===== src/Channels/Sharing/Writing.antt =====
-- What a write through a channel of StreamCopyUtils.hpp keeps.
use http_filtering_engine.Base.{
  Bytes, ℕ, true, false, ◌==◌, ==_iff, [], ◌∷◌, ◌++◌, if◌then◌else◌, Option, some, ◌≡◌, refl, sym,
  inl, inr, arith, ◌∙◌, ap, append-nil, Bool-cases,
}
use http_filtering_engine.Channels.{Channels, WriterChannel, put, write_raw, write}
use http_filtering_engine.Channels.Sharing.{Holder, System, written_through, Owns, IsShared}

-- A write leaves the channels as they are, and appends to the vector of the channel alone.
write-container :
    (c : WriterChannel) (text : Bytes) (s : Channels) → (write c text s).container ≡ s.container
unfolding write write_raw
write-container c text s = ground arith

write-vectors :
    (c : WriterChannel) (text : Bytes) (s : Channels) (v : ℕ)
    → c.is_valid ≡ true
    → s.container c.parent ≡ some v
    → (w : ℕ) → (write c text s).vectors w ≡ (if w == v then s.vectors w ++ text else s.vectors w)
unfolding write write_raw put
write-vectors c [] s v h e w = ground (arith, append-nil (s.vectors w))
write-vectors c (b ∷ text) s v h e w = ground (arith, ==_iff w v)

write-invalid :
    (c : WriterChannel) (text : Bytes) (s : Channels) → c.is_valid ≡ false → write c text s ≡ s
unfolding write
write-invalid c text s h = rw h

module _ (i : ℕ) (h : Holder) (text : Bytes) (s : System) (v : IsShared s)
    (e : s.holders i ≡ some h) where
  written-owned :
      (j : ℕ) (k : Holder)
      → (written_through i h text s).holders j ≡ some k
      → Owns (written_through i h text s).channels k
  unfolding written_through put
  written-owned j k f = elim (Bool-cases h.channel.is_valid) [
    | inl valid ↦
        let o = v.owned i h e in
        let w = write-vectors h.channel text s.channels h.vector valid (o.leads valid) k.vector in
        let c = write-container h.channel text s.channels in
        elim (Bool-cases (j == i)) [
          | inl same ↦ record {
            leads = ground (arith, c, o.leads);
            holds = ground (arith, w, o.holds);
          }
          | inr other ↦
              let g : s.holders j ≡ some k = ground arith in
              let q = v.owned j k g in
              let d = v.distinct i j h k e g in
              record { leads = λ t. rw c (q.leads t); holds = w ∙ ground (arith, q.holds, d) }
        ]
    | inr not_valid ↦
        let g : s.holders j ≡ some k = ground (arith, ==_iff j i) in
        rw (write-invalid h.channel text s.channels not_valid) (v.owned j k g)
  ]

  -- Every holder was there before, with its vector and its channel.
  written-before :
      (j : ℕ) (k : Holder)
      → (written_through i h text s).holders j ≡ some k
      → (l : Holder) × (s.holders j ≡ some l) × (l.vector ≡ k.vector) × (l.channel ≡ k.channel)
  unfolding written_through put
  written-before j k f = elim (Bool-cases (j == i)) [
    | inl same ↦ (h, ground (arith, ==_iff j i), ground arith, ground arith)
    | inr other ↦ (k, ground arith, refl, refl)
  ]

  written-after :
      (j : ℕ) (l : Holder)
      → s.holders j ≡ some l
      → (k : Holder) × ((written_through i h text s).holders j ≡ some k) × (l.channel ≡ k.channel)
  unfolding written_through put
  written-after j l f = elim (Bool-cases (j == i)) [
    | inl same ↦ (
      if h.channel.is_valid then record h { written = h.written ++ text } else h,
      ground arith,
      ground (arith, ==_iff j i),
    )
    | inr other ↦ (l, ground arith, refl)
  ]

  pub written-IsShared : IsShared (written_through i h text s)
  unfolding written_through
  written-IsShared = record {
    owned = written-owned;
    distinct = λ j j' k k' f f' g.
        let b = written-before j k f in
        let b' = written-before j' k' f' in
        v.distinct j j' b.0 b'.0 b.1 b'.1 (b.2 ∙ (g ∙ sym b'.2));
    taken = λ c w f.
        let f' : s.channels.container c ≡ some w =
          ap (λ (m : ℕ → Option ℕ). m c) (sym (write-container h.channel text s.channels)) ∙ f in
        let t = v.taken c w f' in
        let a = written-after t.0 t.1 t.2 in
        (
          t.0,
          a.0,
          a.1,
          ap (λ (d : WriterChannel). d.is_valid) (sym a.2) ∙ t.3,
          ap (λ (d : WriterChannel). d.parent) (sym a.2) ∙ t.4,
        );
  }
