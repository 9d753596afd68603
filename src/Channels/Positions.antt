-- ===== src/Channels/Positions.antt =====
-- Where ClaimNextChannel of StreamCopyUtils.hpp looks.
use http_filtering_engine.Base.{ℕ, ◌+◌, ◌*◌, ◌%◌, ◌^◌, ◌<◌, ◌≡◌, ◌≢◌, arith}
use http_filtering_engine.Channels.{index_of, position_of, channel_at}

index_of_lem :
    (arrays counter : ℕ)
    → 0 < arrays
    → counter < 2 ^ 32
    → index_of arrays counter ≡ counter % (arrays * 1000)
unfolding index_of
index_of_lem arrays counter h k = grind arith

mod_below : (n m : ℕ) → 0 < m → n % m < m
mod_below n m h = omega arith

-- For any counter of 32 bits the position is inside of the arrays, and is the counter's remainder.
position_of-Inside :
    (arrays counter : ℕ)
    → 0 < arrays
    → counter < 2 ^ 32
    → ((position_of arrays counter).0 < arrays)
      × ((position_of arrays counter).1 < 1000)
      × (channel_at (position_of arrays counter) ≡ counter % (arrays * 1000))
unfolding position_of
position_of-Inside arrays counter h k =
    let below : counter % (arrays * 1000) < arrays * 1000 =
      mod_below counter (arrays * 1000) (omega arith) in
    let e = index_of_lem arrays counter h k in
    (omega (arith, e, below), omega arith, omega (arith, e))

-- With the bridges' ten arrays, fewer than 7296 claims apart two claims get different channels,
-- also where the counter of 32 bits wraps between them.
position_of-apart :
    (counter later : ℕ)
    → counter < 2 ^ 32
    → 0 < later
    → later < 7296
    → channel_at (position_of 10 counter) ≢ channel_at (position_of 10 ((counter + later) % 2 ^ 32))
unfolding position_of index_of
position_of-apart counter later h p k e = omega arith
