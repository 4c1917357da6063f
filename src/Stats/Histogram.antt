-- ===== src/Stats/Histogram.antt =====
-- What LatencyHistogram of include/feed/stats.hpp says of the samples it was given.
use udp_multicast_receiver.Common.{
  ℕ, zero, suc, ◌+◌, ◌-◌, ◌*◌, ◌/◌, ◌^◌, ◌≤◌, ◌<◌, ◌≡◌, refl, ap, sym, inl, inr, ◌⊎◌, List, length,
  ltb, if◌then◌else◌, u64, Bool-cases, arith,
}
use udp_multicast_receiver.Stats.{scan, percentile}
use udp_multicast_receiver.Stats.Buckets.{
  pow_suc, recorded, count_below, in_bucket, before_bucket, Fits64, recorded-counts, recorded-total,
  before_bucket-suc, before_bucket-zero, before_bucket-le, before_bucket-all,
  before_bucket-count_below, count_below_mono,
}

-- The upper bound that `percentile` returns for a bucket.
abbrev bound_of : ℕ → ℕ
bound_of i = if ltb i 63 then 2 ^ (i + 1) else 2 ^ 64 - 1

-- `j` is the bucket of the sample of rank `target`.
record IsRank (xs : List ℕ) (target j : ℕ) : Type 0 where
  in_range : j < 64
  not_before : before_bucket j xs ≤ target
  within : target < before_bucket (suc j) xs

module _ (xs : List ℕ) (target : ℕ) (f : Fits64 xs) (some_left : target < length xs)
    (few : length xs < 2 ^ 64) where
  counts_exact : (i : ℕ) → (recorded xs).counts i ≡ in_bucket i xs
  counts_exact i =
      omega (arith, recorded-counts xs i, before_bucket-suc i xs, before_bucket-le (suc i) xs, few)

  scan-IsRank :
      (left i : ℕ)
      → i + left ≡ 64
      → before_bucket i xs ≤ target
      → (j : ℕ) × IsRank xs target j
        × (scan (recorded xs).counts target left i (before_bucket i xs) ≡ bound_of j)
  unfolding scan
  scan-IsRank zero i e h =
      let top : i ≡ 64 = omega arith in
      absurd (omega (arith, before_bucket-all xs f, some_left, ap (λ k. before_bucket k xs) top))
  scan-IsRank (suc left) i e h =
      let now : u64 (before_bucket i xs + (recorded xs).counts i) ≡ before_bucket (suc i) xs =
        omega (arith, counts_exact i, before_bucket-suc i xs, before_bucket-le (suc i) xs, few) in
      elim (Bool-cases (ltb target (before_bucket (suc i) xs))) [
        | inl here ↦ (
          i,
          record { in_range = omega arith; not_before = h; within = ground arith },
          rw (now, here, scan) refl,
        )
        | inr later ↦
            let (j, r, es) = scan-IsRank left (suc i) (omega arith) (ground arith) in
            (j, r, rw (now, later, scan) es)
      ]

rank_bounds :
    (xs : List ℕ) (target j : ℕ)
    → Fits64 xs
    → IsRank xs target j
    → ((bound_of j ≡ 2 ^ 64 - 1) ⊎ (target < count_below (bound_of j) xs))
      × ((bound_of j ≡ 2) ⊎ (count_below (bound_of j / 2) xs ≤ target))
rank_bounds xs target zero f r =
    (inr (omega (arith, r.within, before_bucket-count_below 0 xs f)), inl refl)
rank_bounds xs target (suc k) f r = elim (Bool-cases (ltb (suc k) 63)) [
  | inl inside ↦
      let p : bound_of (suc k) ≡ 2 * 2 ^ suc k = ground (arith, pow_suc (suc k)) in
      let half : 2 * 2 ^ suc k / 2 ≡ 2 ^ suc k = omega arith in
      rw p (
        rw (half, sym (pow_suc (suc k)))
          (
            inr (omega (arith, r.within, before_bucket-count_below (suc k) xs f)),
            inr (omega (arith, r.not_before, before_bucket-count_below k xs f)),
          ))
  | inr last ↦
      let top : suc k ≡ 63 = ground (arith, r.in_range) in
      let p : bound_of (suc k) ≡ 2 ^ 64 - 1 = ground arith in
      let power : 2 ^ suc k ≡ 2 ^ 63 = ap (◌^◌ 2) top in
      rw p (
        inl refl,
        inr (
            omega (
              arith,
              r.not_before,
              before_bucket-count_below k xs f,
              count_below_mono ((2 ^ 64 - 1) / 2) (2 ^ suc k) xs (omega (arith, power)),
            )),
      )
]

-- The value that `percentile` returns for the rank `target`: more than `target` of the samples are
-- strictly below it, unless it is the largest 64-bit number; and at most `target` of them are below
-- its half, unless it is 2. That is for any list of fewer than 2 ^ 64 samples of 64 bits and any
-- `target` below their number.
pub percentile-bounds :
    (xs : List ℕ) (target : ℕ)
    → Fits64 xs
    → length xs < 2 ^ 64
    → target < length xs
    → let p = percentile (recorded xs) target in
      ((p ≡ 2 ^ 64 - 1) ⊎ (target < count_below p xs))
      × ((p ≡ 2) ⊎ (count_below (p / 2) xs ≤ target))
unfolding percentile
percentile-bounds xs target f few h =
    let found = scan-IsRank xs target f h few 64 0 refl (omega (arith, before_bucket-zero xs)) in
    let p : percentile (recorded xs) target ≡ bound_of found.0 =
      ground (arith, recorded-total xs, found.2, before_bucket-zero xs) in
    rw p (rank_bounds xs target found.0 f found.1)
