-- ===== src/Channels.antt =====
-- The channels of src/te/httpengine/util/cb/StreamCopyUtils.hpp, through which callbacks of the C
-- interface write a response of their own. A channel is the number of its `CStreamCopyUtil`, and a
-- vector the number of the `std::vector<char>` that it was given.
pub mod Positions
pub mod Sharing
use http_filtering_engine.Base.{
  Bytes, ℕ, ◌+◌, ◌-◌, ◌*◌, ◌/◌, ◌%◌, ◌^◌, Bool, true, false, ◌==◌, List, ◌++◌, if◌then◌else◌,
  is_empty, Option, some, none,
}

-- The index of `ClaimNextChannel`: `arrays` is the template's `ArrSize`. Both floors are of integer
-- quotients, and all values are below 2 ^ 32, which a double holds exactly.
unfoldable pub index_of : ℕ → ℕ → ℕ
index_of arrays counter = (counter + 2 ^ 32 - arrays * 1000 * (counter / (arrays * 1000))) % 2 ^ 32

-- The array and the place in it that the index stands for.
unfoldable pub position_of : ℕ → ℕ → ℕ × ℕ
unfolding index_of
position_of arrays counter = (index_of arrays counter / 1000, index_of arrays counter % 1000)

-- The template argument `Idxb + 1000 * sIdx` of the `CStreamCopyUtil` at a position, up to the
-- part that tells the two containers apart.
abbrev pub channel_at : ℕ × ℕ → ℕ
channel_at (array, place) = place + 1000 * array

-- `s_acquireIdx`, the static `container` of each channel, and what the vectors hold.
pub record Channels : Type 0 where
  pub acquire_idx : ℕ
  pub container : ℕ → Option ℕ
  pub vectors : ℕ → Bytes

-- `TempWriterChannel`: its parent, whether it has a writer, and `m_isValid`.
pub record WriterChannel : Type 0 where
  pub parent : ℕ
  pub has_writer : Bool
  pub is_valid : Bool

-- One entry of a map is written.
unfoldable pub put {ℓ} : {A : Type ℓ} → ℕ → A → (ℕ → A) → (ℕ → A)
put i a f j = if j == i then a else f j

-- `CStreamCopyUtilProxy::Claim`, and whether it gives its writer.
unfoldable pub claim_container : ℕ → ℕ → Channels → Bool × Channels
unfolding put
claim_container channel vector s = elim (s.container channel) [
  | some _ ↦ (false, s)
  | none ↦ (true, record s { container = put channel (some vector) s.container })
]

-- `CStreamCopyUtilProxy::Release`.
unfoldable pub release : ℕ → Channels → Channels
unfolding put
release channel s = record s { container = put channel none s.container }

-- `CStreamCopyUtil::Write`: the raw function that a callback gets.
unfoldable pub write_raw : ℕ → Bytes → Channels → Channels
unfolding put
write_raw channel text s = elim (s.container channel) [
  | none ↦ s
  | some v ↦
      if is_empty text then s else record s { vectors = put v (s.vectors v ++ text) s.vectors }
]

-- The constructor of `TempWriterChannel`.
unfoldable pub new_channel : ℕ → ℕ → Channels → WriterChannel × Channels
unfolding claim_container
new_channel parent vector s =
    let r = claim_container parent vector s in
    (record { parent = parent; has_writer = r.0; is_valid = r.0 }, r.1)

-- `ClaimNextChannel`: the counter wraps.
unfoldable pub claim_next_channel : ℕ → ℕ → Channels → WriterChannel × Channels
unfolding new_channel
claim_next_channel arrays vector s =
    new_channel (channel_at (position_of arrays s.acquire_idx)) vector
      (record s { acquire_idx = (s.acquire_idx + 1) % 2 ^ 32 })

-- The move constructor: the new channel, and what is left of the other.
unfoldable move : WriterChannel → WriterChannel × WriterChannel
move c = (c, record c { is_valid = false })

-- The destructor.
unfoldable pub destroy_channel : WriterChannel → Channels → Channels
unfolding release
destroy_channel c s = if c.is_valid then release c.parent s else s

-- `IsValid` and `Write` of `TempWriterChannel`.
unfoldable is_valid_channel : WriterChannel → Bool
is_valid_channel c = c.has_writer

unfoldable pub write : WriterChannel → Bytes → Channels → Channels
unfolding write_raw
write c text s = if c.is_valid then write_raw c.parent text s else s
