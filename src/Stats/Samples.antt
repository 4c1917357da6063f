-- ===== src/Stats/Samples.antt =====
-- SampleRecorder of include/feed/stats.hpp: all samples, and their nearest-rank percentiles.
use udp_multicast_receiver.Common.{
  ℕ, ◌-◌, List, [], ◌∷◌, ◌++◌, length, get_or, leb, ◌==◌, if◌then◌else◌,
}

-- `samples_`, in the order of recording. What is reserved does not show.
pub record SampleRecorder : Type 0 where
  pub samples : List ℕ

unfoldable pub record_sample : SampleRecorder → ℕ → SampleRecorder
record_sample r ns = record { samples = r.samples ++ (ns ∷ []) }

-- The values `ceil(p * n)` for the four percentiles, which the code computes in floating point.
pub record Ranks : Type 0 where
  pub k50 : ℕ
  pub k90 : ℕ
  pub k99 : ℕ
  pub k999 : ℕ

-- Without the mean, a double.
pub record Summary : Type 0 where
  pub n : ℕ
  pub min : ℕ
  pub p50 : ℕ
  pub p90 : ℕ
  pub p99 : ℕ
  pub p999 : ℕ
  pub max : ℕ

-- `std::sort`.
unfoldable pub insert_sorted : ℕ → List ℕ → List ℕ
insert_sorted x [] = x ∷ []
insert_sorted x (y ∷ ys) = if leb x y then x ∷ y ∷ ys else y ∷ insert_sorted x ys

unfoldable pub sort : List ℕ → List ℕ
unfolding insert_sorted
sort [] = []
sort (x ∷ xs) = insert_sorted x (sort xs)

-- `v[k == 0 ? 0 : k - 1]`
unfoldable pub sample_at : List ℕ → ℕ → ℕ
sample_at v k = get_or v (if k == 0 then 0 else k - 1) 0

unfoldable pub summarize : SampleRecorder → Ranks → Summary
summarize r ranks =
    let v = sort r.samples in
    if length r.samples == 0
    then record { n = 0; min = 0; p50 = 0; p90 = 0; p99 = 0; p999 = 0; max = 0 }
    else record {
      n = length r.samples;
      min = get_or v 0 0;
      p50 = sample_at v ranks.k50;
      p90 = sample_at v ranks.k90;
      p99 = sample_at v ranks.k99;
      p999 = sample_at v ranks.k999;
      max = get_or v (length v - 1) 0;
    }
