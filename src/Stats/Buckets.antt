-- ===== src/Stats/Buckets.antt =====
-- Which samples a bucket of LatencyHistogram (include/feed/stats.hpp) counts.
use udp_multicast_receiver.Common.{
  ℕ, zero, suc, ◌+◌, ◌*◌, ◌/◌, ◌^◌, ◌≤◌, ◌<◌, ◌≡◌, refl, Bool, inl, inr, ◌⊎◌, List, [], ◌∷◌, length,
  All, ltb, ◌==◌, if◌then◌else◌, u64, Bool-cases, arith,
}
use udp_multicast_receiver.Stats.{
  LatencyHistogram, buckets, no_samples, high_bit, bucket_of, record_ns,
}

pub pow_suc : (n : ℕ) → 2 ^ suc n ≡ 2 * 2 ^ n
pow_suc n = omega arith

pow_pos : (n : ℕ) → 0 < 2 ^ n
pow_pos zero = omega arith
pow_pos (suc n) = omega (arith, pow_suc n, pow_pos n)

high_bit_bounds :
    (width ns : ℕ)
    → 0 < ns
    → ns < 2 ^ width
    → (2 ^ high_bit width ns ≤ ns)
      × (ns < 2 ^ suc (high_bit width ns))
      × (high_bit width ns < width)
unfolding high_bit
high_bit_bounds zero ns p h = absurd (omega arith)
high_bit_bounds (suc width) ns p h = elim (Bool-cases (ltb ns 2)) [
  | inl small ↦ rw (small, high_bit) (ground arith, ground arith, omega arith)
  | inr big ↦
      let half : (2 ^ high_bit width (ns / 2) ≤ ns / 2)
          × (ns / 2 < 2 ^ suc (high_bit width (ns / 2)))
          × (high_bit width (ns / 2) < width) =
        high_bit_bounds width (ns / 2) (ground arith) (omega (arith, pow_suc width)) in
      rw (big, high_bit)
        (
          omega (arith, half.0, pow_suc (high_bit width (ns / 2))),
          omega (arith, half.1, pow_suc (suc (high_bit width (ns / 2)))),
          omega (arith, half.2),
        )
]

-- A sample other than 0 goes to the bucket of the powers of two that it lies between; 0 goes to the
-- first bucket.
pub bucket_of_bounds :
    (ns : ℕ)
    → ns < 2 ^ 64
    → (bucket_of ns < buckets)
      × (ns < 2 ^ suc (bucket_of ns))
      × ((bucket_of ns ≡ 0) ⊎ (2 ^ bucket_of ns ≤ ns))
unfolding bucket_of
bucket_of_bounds ns h = elim (Bool-cases (ltb 0 ns)) [
  | inl pos ↦
      let b = high_bit_bounds 64 ns (ground arith) h in
      let same : bucket_of ns ≡ high_bit 64 ns = ground (arith, b.2) in rw same (b.2, b.1, inr b.0)
  | inr nothing ↦
      let same : bucket_of ns ≡ 0 = ground arith in
      let zero_ns : ns ≡ 0 = ground arith in
      rw same (omega arith, rw zero_ns (omega arith), inl refl)
]

-- Two histograms' worth of counting: the samples, the newest first, by bucket and by value.
unfoldable pub recorded : List ℕ → LatencyHistogram
recorded [] = no_samples
recorded (x ∷ xs) = record_ns (recorded xs) x

abbrev pub one_for : Bool → ℕ
one_for b = if b then 1 else 0

unfoldable pub count_below : ℕ → List ℕ → ℕ
count_below n [] = 0
count_below n (x ∷ xs) = one_for (ltb x n) + count_below n xs

unfoldable pub in_bucket : ℕ → List ℕ → ℕ
in_bucket i [] = 0
in_bucket i (x ∷ xs) = one_for (bucket_of x == i) + in_bucket i xs

unfoldable pub before_bucket : ℕ → List ℕ → ℕ
before_bucket i [] = 0
before_bucket i (x ∷ xs) = one_for (ltb (bucket_of x) i) + before_bucket i xs

abbrev pub Fits64 : List ℕ → Type 0
Fits64 = All (λ (x : ℕ). x < 2 ^ 64)

pub recorded-counts : (xs : List ℕ) (i : ℕ) → (recorded xs).counts i ≡ u64 (in_bucket i xs)
unfolding recorded in_bucket record_ns
recorded-counts [] i = refl
recorded-counts (x ∷ xs) i = ground (arith, recorded-counts xs i)

pub recorded-total : (xs : List ℕ) → (recorded xs).total ≡ u64 (length xs)
unfolding recorded record_ns
recorded-total [] = refl
recorded-total (x ∷ xs) = ground (arith, recorded-total xs)

pub before_bucket-suc :
    (i : ℕ) (xs : List ℕ) → before_bucket (suc i) xs ≡ before_bucket i xs + in_bucket i xs
unfolding before_bucket in_bucket
before_bucket-suc i [] = refl
before_bucket-suc i (x ∷ xs) = ground (arith, before_bucket-suc i xs)

pub before_bucket-zero : (xs : List ℕ) → before_bucket 0 xs ≡ 0
unfolding before_bucket
before_bucket-zero [] = refl
before_bucket-zero (x ∷ xs) = ground (arith, before_bucket-zero xs)

pub before_bucket-le : (i : ℕ) (xs : List ℕ) → before_bucket i xs ≤ length xs
unfolding before_bucket
before_bucket-le i [] = omega arith
before_bucket-le i (x ∷ xs) = ground (arith, before_bucket-le i xs)

pub before_bucket-all : (xs : List ℕ) → Fits64 xs → before_bucket 64 xs ≡ length xs
unfolding before_bucket
before_bucket-all [] f = refl
before_bucket-all (x ∷ xs) f = ground (arith, before_bucket-all xs f.1, (bucket_of_bounds x f.0).0)

pow_mono : (a b : ℕ) → a ≤ b → 2 ^ a ≤ 2 ^ b
pow_mono zero b h = omega (arith, pow_pos b)
pow_mono (suc a) zero h = absurd (omega arith)
pow_mono (suc a) (suc b) h = omega (arith, pow_suc a, pow_suc b, pow_mono a b (omega arith))

-- The buckets up to `j` hold the samples below `2 ^ (j + 1)`.
pub before_bucket-count_below :
    (j : ℕ) (xs : List ℕ) → Fits64 xs → before_bucket (suc j) xs ≡ count_below (2 ^ suc j) xs
unfolding before_bucket count_below
before_bucket-count_below j [] f = refl
before_bucket-count_below j (x ∷ xs) f =
    let (_, below, above) = bucket_of_bounds x f.0 in
    elim (Bool-cases (ltb (bucket_of x) (suc j))) [
      | inl lower ↦
          let up : 2 ^ suc (bucket_of x) ≤ 2 ^ suc j =
            pow_mono (suc (bucket_of x)) (suc j) (ground arith) in
          ground (arith, before_bucket-count_below j xs f.1, up, below)
      | inr higher ↦
          let up : 2 ^ suc j ≤ 2 ^ bucket_of x = pow_mono (suc j) (bucket_of x) (ground arith) in
          ground (arith, before_bucket-count_below j xs f.1, up, above)
    ]

pub count_below_mono : (m n : ℕ) (xs : List ℕ) → m ≤ n → count_below m xs ≤ count_below n xs
unfolding count_below
count_below_mono m n [] h = omega arith
count_below_mono m n (x ∷ xs) h = ground (arith, count_below_mono m n xs h)
