-- ===== src/Stats/Throughput.antt =====
-- ThroughputTracker of include/feed/stats.hpp: messages in 50 buckets of 100 ms.
use udp_multicast_receiver.Common.{ℕ, zero, suc, ◌+◌, ◌/◌, ◌%◌, ltb, ◌==◌, if◌then◌else◌, u64}

-- `kBuckets`
abbrev pub ring_size : ℕ
ring_size = 50

pub record Bucket : Type 0 where
  pub ts_100ms : ℕ
  pub count : ℕ

-- `ring` is read below `ring_size`.
pub record ThroughputTracker : Type 0 where
  pub ring : ℕ → Bucket
  pub total : ℕ

abbrev pub no_throughput : ThroughputTracker
no_throughput = record { ring = λ _. record { ts_100ms = 0; count = 0 }; total = 0 }

-- `now_ns / 100'000'000`
abbrev pub window_of : ℕ → ℕ
window_of now_ns = now_ns / 100_000_000

-- A bucket of an earlier window starts again.
unfoldable pub record_in : Bucket → ℕ → ℕ → Bucket
record_in b window count =
    if b.ts_100ms == window
    then record b { count = u64 (b.count + count) }
    else record { ts_100ms = window; count = u64 count }

abbrev pub write_bucket : (ℕ → Bucket) → ℕ → Bucket → ℕ → Bucket
write_bucket ring i b j = if i == j then b else ring j

unfoldable pub record_count : ThroughputTracker → ℕ → ℕ → ThroughputTracker
record_count t now_ns count =
    let slot = window_of now_ns % ring_size in
    record {
      ring = write_bucket t.ring slot (record_in (t.ring slot) (window_of now_ns) count);
      total = u64 (t.total + count);
    }

-- What a bucket adds at window `cur`.
unfoldable pub counted_at : Bucket → ℕ → ℕ
counted_at b cur = if ltb cur (u64 (b.ts_100ms + ring_size)) then b.count else 0

-- The loop's sum over the first `n` buckets.
unfoldable pub sum_ring : (ℕ → Bucket) → ℕ → ℕ → ℕ
sum_ring ring cur zero = 0
sum_ring ring cur (suc n) = u64 (sum_ring ring cur n + counted_at (ring n) cur)

unfoldable pub msgs_per_sec : ThroughputTracker → ℕ → ℕ
msgs_per_sec t now_ns = sum_ring t.ring (window_of now_ns) ring_size / 5
