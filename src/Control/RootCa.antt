-- ===== src/Control/RootCa.antt =====
-- fe_ctl_get_rootca_pem of HttpFilteringEngineCAPI.cpp and the engine's GetRootCertificatePEM. A
-- build without debug checks is taken.
pub mod Handover
use http_filtering_engine.Base.{
  Bytes, ℕ, ◌+◌, Bool, true, false, not, ◌&&◌, [], List, ◌∷◌, if◌then◌else◌, ◌==◌, is_empty, Option,
  some, none, length,
}
use http_filtering_engine.Certificates.Pem.{Writing, store_pem}
use http_filtering_engine.Certificates.Store.{Store}

-- What the caller has: the pointer and the size that the two arguments point to, the blocks on the
-- heap that no one has freed, with their contents, and the BIOs that are there. A pointer is null or
-- has a block's number.
pub record Caller : Type 0 where
  pub buffer : Option ℕ
  pub buffer_size : ℕ
  pub blocks : List (ℕ × Bytes)
  pub next_block : ℕ
  pub bios : ℕ

-- `HttpFilteringEngineControl::GetRootCertificatePEM`, with the engine's store.
unfoldable pub engine_pem : Writing → Option Store → ℕ → Bytes × ℕ
unfolding store_pem
engine_pem w store bios = elim store [ none ↦ ([], bios) | some s ↦ store_pem w s bios ]

-- `malloc` and the copy into what it gives.
unfoldable pub put_block : Bool → Bytes → Caller → Caller
put_block true text c = record c {
  buffer = some c.next_block;
  blocks = (c.next_block, text) ∷ c.blocks;
  next_block = c.next_block + 1;
}
put_block false text c = record c { buffer = none }

-- `fe_ctl_get_rootca_pem`, given whether the memory suffices, the store of the engine if its pointer is
-- not null, and whether the other pointers are not null.
unfoldable pub fe_ctl_get_rootca_pem :
    Writing → Bool → Option (Option Store) → Bool → Bool → Caller → Caller
unfolding engine_pem put_block
fe_ctl_get_rootca_pem w memory none has_buffer has_size c = c
fe_ctl_get_rootca_pem w memory (some store) has_buffer has_size c =
    let pem = engine_pem w store c.bios in
    let sized = record c { buffer_size = length pem.0; bios = pem.1 } in
    if not (has_buffer && has_size)
    then c
    else if is_empty pem.0
    then sized
    else put_block memory pem.0 sized

-- `free`, of a null pointer or of a block.
unfoldable pub free_block : Option ℕ → List (ℕ × Bytes) → List (ℕ × Bytes)
free_block none blocks = blocks
free_block (some n) [] = []
free_block (some n) ((m, text) ∷ blocks) =
    let others = free_block (some n) blocks in if n == m then blocks else (m, text) ∷ others

-- What HttpFilteringEngineCAPI.h asks of the caller: to free the buffer if the size is not 0.
unfoldable pub free_buffer : Caller → Caller
unfolding free_block
free_buffer c = if c.buffer_size == 0 then c else record c { blocks = free_block c.buffer c.blocks }
