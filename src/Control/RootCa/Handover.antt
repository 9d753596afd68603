-- ===== src/Control/RootCa/Handover.antt =====
-- What fe_ctl_get_rootca_pem hands over to its caller.
use http_filtering_engine.Base.{
  Bytes, ℕ, Bool, true, false, [], List, ◌∷◌, suc, if◌then◌else◌, is_empty, Option, some, none,
  length, ◌≡◌, refl, ◌⊎◌, inl, inr, arith, ◌∙◌,
}
use http_filtering_engine.Certificates.Pem.{Writing, store_pem}
use http_filtering_engine.Certificates.Store.{Store}
use http_filtering_engine.Control.RootCa.{
  Caller, engine_pem, put_block, fe_ctl_get_rootca_pem, free_block, free_buffer,
}

-- No BIO is left.
engine_pem-bios :
    (w : Writing) (store : Option Store) (bios : ℕ) → (engine_pem w store bios).1 ≡ bios
unfolding engine_pem store_pem
engine_pem-bios w none bios = refl
engine_pem-bios w (some s) bios = ground arith

free_buffer_positive :
    (c : Caller) (n : ℕ)
    → c.buffer_size ≡ suc n
    → (free_buffer c).blocks ≡ free_block c.buffer c.blocks
unfolding free_buffer
free_buffer_positive c n h = ground arith

free-new :
    (n : ℕ) (text : Bytes) (blocks : List (ℕ × Bytes))
    → free_block (some n) ((n, text) ∷ blocks) ≡ blocks
unfolding free_block
free-new n text blocks = ground arith

-- The caller's buffer: there is no text, and the pointer is as before; there was no memory, and it is
-- null; or it has a new block with the text.
abbrev pub HandsOver : Bool → Bytes → Caller → Caller → Type 0
HandsOver memory text c d =
    ((text ≡ []) × (d.buffer ≡ c.buffer))
    ⊎ ((memory ≡ false) × (d.buffer ≡ none))
    ⊎ ((d.buffer ≡ some c.next_block) × (d.blocks ≡ (c.next_block, text) ∷ c.blocks))

abbrev Handed : Bool → Bytes → Caller → Caller → Type 0
Handed memory text c d =
    (d.buffer_size ≡ length text) × HandsOver memory text c d × ((free_buffer d).blocks ≡ c.blocks)

given :
    (memory : Bool) (text : Bytes) (bios : ℕ) (c : Caller)
    → let sized = record c { buffer_size = length text; bios = bios } in
      let d = if is_empty text then sized else put_block memory text sized in
      (d.bios ≡ bios) × Handed memory text c d
unfolding put_block free_block free_buffer
given memory [] bios c = (refl, (refl, inl (refl, refl), refl))
given false (x ∷ text) bios c =
    (refl, (refl, inr (inl (refl, refl)), free_buffer_positive _ (length text) refl))
given true (x ∷ text) bios c = (
  refl,
  (
    refl,
    inr (inr (refl, refl)),
    free_buffer_positive _ (length text) refl ∙ free-new c.next_block (x ∷ text) c.blocks,
  ),
)

-- What `fe_ctl_get_rootca_pem` takes is given back. It is called with an engine and two pointers
-- that are not null. Afterwards no BIO is left behind, and the size is that of the text of the root
-- certificate. Where the text is empty, the caller's pointer is as before; where there is no memory
-- for it, the pointer is null; and otherwise the pointer has a new block with the text. A caller
-- who then frees the pointer if the size is not 0, as the header asks, has the heap as it was.
pub fe_ctl_get_rootca_pem-HandsOver :
    (w : Writing) (memory : Bool) (store : Option Store) (c : Caller)
    → let d = fe_ctl_get_rootca_pem w memory (some store) true true c in
      let text = (engine_pem w store c.bios).0 in
      (d.bios ≡ c.bios)
      × (d.buffer_size ≡ length text)
      × HandsOver memory text c d
      × ((free_buffer d).blocks ≡ c.blocks)
unfolding fe_ctl_get_rootca_pem
fe_ctl_get_rootca_pem-HandsOver w memory store c =
    let pem = engine_pem w store c.bios in
    let g = given memory pem.0 pem.1 c in
    (g.0 ∙ engine_pem-bios w store c.bios, g.1.0, g.1.1, g.1.2)
