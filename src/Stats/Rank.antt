-- ===== src/Stats/Rank.antt =====
-- What SampleRecorder's percentiles (include/feed/stats.hpp) say of the samples.
use udp_multicast_receiver.Common.{
  ℕ, zero, suc, ◌+◌, ◌-◌, ◌≤◌, ◌<◌, ◌≡◌, refl, List, [], ◌∷◌, length, get_or, ltb, leb, Bool-cases,
  inl, inr, arith,
}
use udp_multicast_receiver.Stats.Buckets.{one_for, count_below}
use udp_multicast_receiver.Stats.Samples.{
  SampleRecorder, Ranks, insert_sorted, sort, sample_at, summarize,
}

-- No item is below `x`.
abbrev AtLeast : ℕ → List ℕ → Type 0
AtLeast x [] = Unit {0}
AtLeast x (y ∷ ys) = (x ≤ y) × AtLeast x ys

abbrev Ascending : List ℕ → Type 0
Ascending [] = Unit {0}
Ascending (y ∷ ys) = AtLeast y ys × Ascending ys

AtLeast-mono : (x y : ℕ) (ys : List ℕ) → x ≤ y → AtLeast y ys → AtLeast x ys
AtLeast-mono x y [] h a = tt
AtLeast-mono x y (z ∷ ys) h a = (omega (arith, a.0), AtLeast-mono x y ys h a.1)

insert_sorted-AtLeast :
    (b x : ℕ) (ys : List ℕ) → b ≤ x → AtLeast b ys → AtLeast b (insert_sorted x ys)
unfolding insert_sorted
insert_sorted-AtLeast b x [] h a = (h, tt)
insert_sorted-AtLeast b x (y ∷ ys) h a = ground (arith, insert_sorted-AtLeast b x ys h a.1)

insert_sorted-Ascending : (x : ℕ) (ys : List ℕ) → Ascending ys → Ascending (insert_sorted x ys)
unfolding insert_sorted
insert_sorted-Ascending x [] a = (tt, tt)
insert_sorted-Ascending x (y ∷ ys) a = elim (Bool-cases (leb x y)) [
  | inl e ↦ rw (e, insert_sorted) ((ground arith, AtLeast-mono x y ys (ground arith) a.0), a)
  | inr e ↦
      rw (e, insert_sorted)
        (insert_sorted-AtLeast y x ys (ground arith) a.0, insert_sorted-Ascending x ys a.1)
]

sort-Ascending : (xs : List ℕ) → Ascending (sort xs)
unfolding sort
sort-Ascending [] = tt
sort-Ascending (x ∷ xs) = insert_sorted-Ascending x (sort xs) (sort-Ascending xs)

count_below-insert_sorted :
    (b x : ℕ) (ys : List ℕ)
    → (count_below b (insert_sorted x ys) ≡ one_for (ltb x b) + count_below b ys)
      × (length (insert_sorted x ys) ≡ suc (length ys))
unfolding count_below insert_sorted
count_below-insert_sorted b x [] = (refl, refl)
count_below-insert_sorted b x (y ∷ ys) = ground (arith, count_below-insert_sorted b x ys)

-- Sorting keeps how many samples are below each value.
count_below-sort :
    (b : ℕ) (xs : List ℕ)
    → (count_below b (sort xs) ≡ count_below b xs) × (length (sort xs) ≡ length xs)
unfolding sort count_below
count_below-sort b [] = (refl, refl)
count_below-sort b (x ∷ xs) =
    ground (arith, count_below-insert_sorted b x (sort xs), count_below-sort b xs)

count_below-AtLeast : (b : ℕ) (ys : List ℕ) → AtLeast b ys → count_below b ys ≡ 0
unfolding count_below
count_below-AtLeast b [] a = refl
count_below-AtLeast b (y ∷ ys) a = ground (arith, count_below-AtLeast b ys a.1)

get_or-AtLeast : (b : ℕ) (ys : List ℕ) (i : ℕ) → AtLeast b ys → i < length ys → b ≤ get_or ys i 0
get_or-AtLeast b [] i a h = absurd (omega arith)
get_or-AtLeast b (y ∷ ys) zero a h = a.0
get_or-AtLeast b (y ∷ ys) (suc i) a h = get_or-AtLeast b ys i a.1 (omega arith)

-- The sample of index `i` in ascending order: at most `i` are below it, and more than `i` are not
-- above it.
get_or-Ascending :
    (ys : List ℕ) (i : ℕ)
    → Ascending ys
    → i < length ys
    → (count_below (get_or ys i 0) ys ≤ i) × (i < count_below (suc (get_or ys i 0)) ys)
unfolding count_below
get_or-Ascending [] i a h = absurd (omega arith)
get_or-Ascending (y ∷ ys) zero a h = ground (arith, count_below-AtLeast y ys a.0)
get_or-Ascending (y ∷ ys) (suc i) a h =
    ground (arith, get_or-Ascending ys i a.1, get_or-AtLeast y ys i a.0)

get_or-le :
    (ys : List ℕ) (i j : ℕ) → Ascending ys → i ≤ j → j < length ys → get_or ys i 0 ≤ get_or ys j 0
get_or-le [] i j a le h = absurd (omega arith)
get_or-le (y ∷ ys) zero zero a le h = omega arith
get_or-le (y ∷ ys) zero (suc j) a le h = get_or-AtLeast y ys j a.0 (omega arith)
get_or-le (y ∷ ys) (suc i) zero a le h = absurd (omega arith)
get_or-le (y ∷ ys) (suc i) (suc j) a le h = get_or-le ys i j a.1 (omega arith) (omega arith)

-- `v` is the sample of rank `k`: fewer than `k` samples are below it, and at least `k` are not
-- above.
abbrev pub HasRank : List ℕ → ℕ → ℕ → Type 0
HasRank xs k v = (count_below v xs < k) × (k ≤ count_below (suc v) xs)

module _ (xs : List ℕ) where
  sample_at-HasRank : (k : ℕ) → 1 ≤ k → k ≤ length xs → HasRank xs k (sample_at (sort xs) k)
  unfolding sample_at
  sample_at-HasRank k pos h =
      let i : ℕ = k - 1 in
      let v : ℕ = get_or (sort xs) i 0 in
      ground (
        arith,
        get_or-Ascending (sort xs) i (sort-Ascending xs),
        count_below-sort v xs,
        count_below-sort (suc v) xs,
      )

  sample_at-le :
      (j k : ℕ) → 1 ≤ j → j ≤ k → k ≤ length xs → sample_at (sort xs) j ≤ sample_at (sort xs) k
  unfolding sample_at
  sample_at-le j k pos le h =
      ground (arith, get_or-le (sort xs) (j - 1) (k - 1) (sort-Ascending xs), count_below-sort 0 xs)

-- Ranks in ascending order among the samples.
pub record IsRanks (ranks : Ranks) (n : ℕ) : Type 0 where
  pub pos : 1 ≤ ranks.k50
  pub le_90 : ranks.k50 ≤ ranks.k90
  pub le_99 : ranks.k90 ≤ ranks.k99
  pub le_999 : ranks.k99 ≤ ranks.k999
  pub le_n : ranks.k999 ≤ n

-- The smallest and the largest sample are those of the first and the last rank.
summarize-ranks :
    (r : SampleRecorder) (ranks : Ranks)
    → 1 ≤ length r.samples
    → let v = sort r.samples in
      summarize r ranks ≡ record {
        n = length r.samples;
        min = sample_at v 1;
        p50 = sample_at v ranks.k50;
        p90 = sample_at v ranks.k90;
        p99 = sample_at v ranks.k99;
        p999 = sample_at v ranks.k999;
        max = sample_at v (length r.samples);
      }
unfolding summarize sample_at
summarize-ranks r ranks h = ground (arith, count_below-sort 0 r.samples)

-- The summary of a recorder with ranks in ascending order from 1 to the number of samples: each
-- percentile is the sample of its rank (fewer samples than the rank are below it, and at least as
-- many as the rank are not above it), the minimum has rank 1 and the maximum the last one, and the
-- values are in ascending order.
pub summarize-HasRank :
    (r : SampleRecorder) (ranks : Ranks)
    → IsRanks ranks (length r.samples)
    → let s = summarize r ranks in
      HasRank r.samples 1 s.min
      × HasRank r.samples ranks.k50 s.p50
      × HasRank r.samples ranks.k90 s.p90
      × HasRank r.samples ranks.k99 s.p99
      × HasRank r.samples ranks.k999 s.p999
      × HasRank r.samples (length r.samples) s.max
      × (s.min ≤ s.p50)
      × (s.p50 ≤ s.p90)
      × (s.p90 ≤ s.p99)
      × (s.p99 ≤ s.p999)
      × (s.p999 ≤ s.max)
      × (s.n ≡ length r.samples)
summarize-HasRank r ranks v =
    let xs : List ℕ = r.samples in
    let n : ℕ = length xs in
    let all : 1 ≤ n = omega (arith, v.pos, v.le_90, v.le_99, v.le_999, v.le_n) in
    rw (summarize-ranks r ranks all) (
      sample_at-HasRank xs 1 (omega arith) all,
      sample_at-HasRank xs ranks.k50 v.pos (omega (arith, v)),
      sample_at-HasRank xs ranks.k90 (omega (arith, v)) (omega (arith, v)),
      sample_at-HasRank xs ranks.k99 (omega (arith, v)) (omega (arith, v)),
      sample_at-HasRank xs ranks.k999 (omega (arith, v)) v.le_n,
      sample_at-HasRank xs n all (omega arith),
      sample_at-le xs 1 ranks.k50 (omega arith) v.pos (omega (arith, v)),
      sample_at-le xs ranks.k50 ranks.k90 v.pos v.le_90 (omega (arith, v)),
      sample_at-le xs ranks.k90 ranks.k99 (omega (arith, v)) v.le_99 (omega (arith, v)),
      sample_at-le xs ranks.k99 ranks.k999 (omega (arith, v)) v.le_999 v.le_n,
      sample_at-le xs ranks.k999 n (omega (arith, v)) v.le_n (omega arith),
      refl,
    )
