-- ===== src/Stats.antt =====
-- LatencyHistogram of include/feed/stats.hpp. The atomics are plain numbers: the model runs one
-- call at a time.
pub mod Buckets
pub mod Histogram
pub mod Samples
pub mod Rank
pub mod Throughput
pub mod Window
use udp_multicast_receiver.Common.{
  ℕ, zero, suc, ◌+◌, ◌-◌, ◌/◌, ◌%◌, ◌^◌, Bool, true, false, Option, none, some, List, ltb, ◌==◌,
  if◌then◌else◌, u64, min,
}

abbrev pub buckets : ℕ
buckets = 64

-- `counts` is read below `buckets`.
pub record LatencyHistogram : Type 0 where
  pub counts : ℕ → ℕ
  pub total : ℕ
  pub sum : ℕ

abbrev pub no_samples : LatencyHistogram
no_samples = record { counts = λ _. 0; total = 0; sum = 0 }

-- The place of the highest bit among the lowest `width`.
unfoldable pub high_bit : ℕ → ℕ → ℕ
high_bit zero ns = 0
high_bit (suc width) ns = let rest = high_bit width (ns / 2) in if ltb ns 2 then 0 else suc rest

-- `63 - __builtin_clzll(ns)` is the place of the highest of 64 bits.
unfoldable pub bucket_of : ℕ → ℕ
bucket_of ns = if ns == 0 then 0 else min (high_bit 64 ns) (buckets - 1)

-- `counts[i].fetch_add(1)`
abbrev pub bump_at : (ℕ → ℕ) → ℕ → ℕ → ℕ
bump_at counts i j = if i == j then u64 (counts j + 1) else counts j

unfoldable pub record_ns : LatencyHistogram → ℕ → LatencyHistogram
record_ns h ns = record {
  counts = bump_at h.counts (bucket_of ns);
  total = u64 (h.total + 1);
  sum = u64 (h.sum + ns);
}

-- The loop of `percentile` from bucket `i` on, with `left` buckets to go.
unfoldable pub scan : (ℕ → ℕ) → ℕ → ℕ → ℕ → ℕ → ℕ
scan counts target zero i cum = 2 ^ 64 - 1
scan counts target (suc left) i cum =
    let now = u64 (cum + counts i) in
    let rest = scan counts target left (suc i) now in
    if ltb target now then (if ltb i 63 then 2 ^ (i + 1) else 2 ^ 64 - 1) else rest

-- `percentile`, where `target` is the product `p * total`, computed in floating point.
unfoldable pub percentile : LatencyHistogram → ℕ → ℕ
percentile h target = if h.total == 0 then 0 else scan h.counts target buckets 0 0
