-- ===== src/Stats/Window.antt =====
-- What ThroughputTracker (include/feed/stats.hpp) counts.
use udp_multicast_receiver.Common.{
  ℕ, zero, suc, ◌+◌, ◌/◌, ◌%◌, ◌^◌, ◌≤◌, ◌<◌, ◌≡◌, ◌⊎◌, inl, ◌∙◌, refl, ap, List, [], ◌∷◌, ltb,
  if◌then◌else◌, u64, arith,
}
use udp_multicast_receiver.Stats.Throughput.{
  Bucket, ThroughputTracker, no_throughput, window_of, record_in, write_bucket, record_count,
  counted_at, sum_ring, msgs_per_sec,
}

-- Messages that were counted: when, and how many.
pub record Counted : Type 0 where
  pub now_ns : ℕ
  pub count : ℕ

-- The tracker after these calls, the newest first.
unfoldable pub tracked : List Counted → ThroughputTracker
tracked [] = no_throughput
tracked (e ∷ es) = record_count (tracked es) e.now_ns e.count

-- The messages of the 50 windows up to `cur`.
unfoldable pub recent : ℕ → List Counted → ℕ
recent cur [] = 0
recent cur (e ∷ es) = (if ltb cur (window_of e.now_ns + 50) then e.count else 0) + recent cur es

unfoldable pub all_counted : List Counted → ℕ
all_counted [] = 0
all_counted (e ∷ es) = e.count + all_counted es

-- The calls came in the order of their times, the last one at `last` or earlier.
abbrev pub Until : ℕ → List Counted → Type 0
Until last [] = Unit {0}
Until last (e ∷ es) = (e.now_ns ≤ last) × Until e.now_ns es

-- Every bucket holds no more than was counted, belongs to its slot, and is not of a later window.
record IsRing (ring : ℕ → Bucket) (last sum : ℕ) : Type 0 where
  bounded : (j : ℕ) → (ring j).count ≤ sum
  in_slot : (j : ℕ) → j < 50 → ((ring j).count ≡ 0) ⊎ ((ring j).ts_100ms % 50 ≡ j)
  not_later : (j : ℕ) → (ring j).ts_100ms ≤ last

-- The sum without wrap-around.
exact : (ℕ → Bucket) → ℕ → ℕ → ℕ
exact ring cur zero = 0
exact ring cur (suc n) = exact ring cur n + counted_at (ring n) cur

sum_ring-exact : (ring : ℕ → Bucket) (cur n : ℕ) → sum_ring ring cur n ≡ u64 (exact ring cur n)
unfolding sum_ring exact
sum_ring-exact ring cur zero = refl
sum_ring-exact ring cur (suc n) = omega (arith, sum_ring-exact ring cur n)

-- A changed bucket changes the sum by what it adds itself.
exact-write_bucket :
    (ring : ℕ → Bucket) (cur i : ℕ) (b : Bucket) (n c : ℕ)
    → counted_at b cur ≡ counted_at (ring i) cur + c
    → exact (write_bucket ring i b) cur n ≡ exact ring cur n + (if ltb i n then c else 0)
unfolding exact
exact-write_bucket ring cur i b zero c h = ground arith
exact-write_bucket ring cur i b (suc n) c h = ground (arith, exact-write_bucket ring cur i b n c h)

exact-empty : (cur n : ℕ) → exact no_throughput.ring cur n ≡ 0
unfolding exact counted_at
exact-empty cur zero = refl
exact-empty cur (suc n) = ground (arith, exact-empty cur n)

module _ (ring : ℕ → Bucket) (last sum w c : ℕ) (v : IsRing ring last sum) (later : last ≤ w)
    (fits : sum + c < 2 ^ 64) (time : w + 50 < 2 ^ 64) where
  -- The bucket of the slot adds `c` where its window counts; an older one that it replaces added
  -- nothing.
  counted_at-record_in :
      (cur : ℕ)
      → w ≤ cur
      → counted_at (record_in (ring (w % 50)) w c) cur
        ≡ counted_at (ring (w % 50)) cur + (if ltb cur (w + 50) then c else 0)
  unfolding counted_at record_in
  counted_at-record_in cur h =
      ground (arith, v.bounded (w % 50), v.in_slot (w % 50) (omega arith), v.not_later (w % 50))

  bucket_bounded :
      (j : ℕ) → (write_bucket ring (w % 50) (record_in (ring (w % 50)) w c) j).count ≤ sum + c
  unfolding record_in
  bucket_bounded j = ground (arith, v.bounded j, v.bounded (w % 50))

  bucket_in_slot :
      (j : ℕ)
      → j < 50
      → ((write_bucket ring (w % 50) (record_in (ring (w % 50)) w c) j).count ≡ 0)
        ⊎ ((write_bucket ring (w % 50) (record_in (ring (w % 50)) w c) j).ts_100ms % 50 ≡ j)
  unfolding record_in
  bucket_in_slot j h = ground (arith, v.in_slot j h, v.in_slot (w % 50) (omega arith))

  bucket_not_later :
      (j : ℕ) → (write_bucket ring (w % 50) (record_in (ring (w % 50)) w c) j).ts_100ms ≤ w
  unfolding record_in
  bucket_not_later j = ground (arith, v.not_later j, v.not_later (w % 50))

  write_bucket-IsRing :
      IsRing (write_bucket ring (w % 50) (record_in (ring (w % 50)) w c)) w (sum + c)
  write_bucket-IsRing = record {
    bounded = bucket_bounded;
    in_slot = bucket_in_slot;
    not_later = bucket_not_later;
  }

IsRing-later :
    (ring : ℕ → Bucket) (last last' sum : ℕ)
    → last ≤ last'
    → IsRing ring last sum
    → IsRing ring last' sum
IsRing-later ring last last' sum h v = record {
  bounded = v.bounded;
  in_slot = v.in_slot;
  not_later = λ j. omega (arith, v.not_later j);
}

window_of_mono : (s t : ℕ) → s ≤ t → window_of s ≤ window_of t
window_of_mono s t h = omega arith

tracked-IsRing :
    (es : List Counted) (last : ℕ)
    → Until last es
    → last < 2 ^ 64
    → all_counted es < 2 ^ 64
    → IsRing (tracked es).ring (window_of last) (all_counted es)
unfolding tracked all_counted record_count
tracked-IsRing [] last u h fits = record {
  bounded = λ j. omega arith;
  in_slot = λ j h. inl refl;
  not_later = λ j. omega arith;
}
tracked-IsRing (e ∷ es) last u h fits =
    let older = tracked-IsRing es e.now_ns u.1 (omega (arith, u.0)) (omega (arith, fits)) in
    let sum : all_counted es + e.count ≡ e.count + all_counted es = omega arith in
    IsRing-later _ (window_of e.now_ns) (window_of last) _ (window_of_mono e.now_ns last u.0) (
      rw sum at (
        write_bucket-IsRing (tracked es).ring (window_of e.now_ns) (all_counted es)
          (window_of e.now_ns) e.count older (omega arith) (omega (arith, fits))
          (omega (arith, u.0))))

exact-tracked :
    (es : List Counted) (last cur : ℕ)
    → Until last es
    → last < 2 ^ 64
    → all_counted es < 2 ^ 64
    → window_of last ≤ cur
    → exact (tracked es).ring cur 50 ≡ recent cur es
unfolding tracked recent all_counted record_count
exact-tracked [] last cur u h fits le = exact-empty cur 50
exact-tracked (e ∷ es) last cur u h fits le =
    let w : ℕ = window_of e.now_ns in
    let ring : ℕ → Bucket = (tracked es).ring in
    let older = tracked-IsRing es e.now_ns u.1 (omega (arith, u.0)) (omega (arith, fits)) in
    let earlier : w ≤ cur = omega (arith, window_of_mono e.now_ns last u.0) in
    let c : ℕ = if ltb cur (w + 50) then e.count else 0 in
    let step = exact-write_bucket ring cur (w % 50) (record_in (ring (w % 50)) w e.count) 50 c (
      counted_at-record_in ring w (all_counted es) w e.count older (omega arith)
        (omega (arith, fits)) (omega (arith, u.0)) cur earlier) in
    ground (
      arith,
      step,
      exact-tracked es e.now_ns cur u.1 (omega (arith, u.0)) (omega (arith, fits)) earlier,
    )

recent-le : (cur : ℕ) (es : List Counted) → recent cur es ≤ all_counted es
unfolding recent all_counted
recent-le cur [] = omega arith
recent-le cur (e ∷ es) = ground (arith, recent-le cur es)

-- After any calls in the order of their 64-bit times, with fewer than 2 ^ 64 messages in all, the
-- rate at a time not before the last call is a fifth, rounded down, of the messages counted in the
-- 50 windows of 100 ms that end with that time's window: no bucket that was started again loses or
-- repeats one of them.
pub msgs_per_sec-recent :
    (es : List Counted) (now : ℕ)
    → Until now es
    → now < 2 ^ 64
    → all_counted es < 2 ^ 64
    → msgs_per_sec (tracked es) now ≡ recent (window_of now) es / 5
unfolding msgs_per_sec
msgs_per_sec-recent es now u h fits =
    ap (λ n. n / 5)
      (sum_ring-exact (tracked es).ring (window_of now) 50
        ∙ ap u64 (exact-tracked es now (window_of now) u h fits (omega arith))
        ∙ omega (arith, recent-le (window_of now) es, fits))
