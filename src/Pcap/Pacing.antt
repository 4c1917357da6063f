-- ===== src/Pcap/Pacing.antt =====
-- The real-time pacing of PcapReader::replay (include/feed/pcap_replay.hpp): until when it waits
-- before it hands on a packet.
use udp_multicast_receiver.Common.{
  ℕ, ◌+◌, ◌-◌, ◌*◌, ◌/◌, ◌^◌, ◌≤◌, ◌<◌, ◌≡◌, ◌∙◌, refl, Bool, true, false, ◌&&◌, ltb, ◌==◌,
  if◌then◌else◌, u64, sub64, arith,
}
use native.Mathlib.Nat.{div-mul-le_self, lt-div-mul-add, mul-le-mul_left}

-- `first_ts_us` and `first_real_ns`.
pub record Pacing : Type 0 where
  pub first_ts_us : ℕ
  pub first_real_ns : ℕ

abbrev pub unpaced : Pacing
unpaced = record { first_ts_us = 0; first_real_ns = 0 }

-- The second result is `target_ns`, or 0 where the code does not wait.
unfoldable pub pace : Bool → ℕ → Pacing → ℕ → ℕ → Pacing × ℕ
pace realtime speed_mult p pkt_ts_us now_ns =
    let pcap_delta_ns = u64 (sub64 pkt_ts_us p.first_ts_us * 1000) in
    if realtime && ltb 0 speed_mult
    then if p.first_ts_us == 0
      then (record { first_ts_us = pkt_ts_us; first_real_ns = now_ns }, 0)
      else (p, u64 (p.first_real_ns + pcap_delta_ns / speed_mult))
    else (p, 0)

pace-target :
    (speed_mult : ℕ) (p : Pacing) (pkt_ts_us now_ns : ℕ)
    → 0 < speed_mult
    → 0 < p.first_ts_us
    → (pace true speed_mult p pkt_ts_us now_ns).1
      ≡ u64 (p.first_real_ns + u64 (sub64 pkt_ts_us p.first_ts_us * 1000) / speed_mult)
unfolding pace
pace-target speed_mult p pkt_ts_us now_ns some_speed started =
    let a : ltb 0 speed_mult ≡ true = ground arith in
    let b : (p.first_ts_us == 0) ≡ false = ground arith in rw (a, b) refl

-- A number of nanoseconds divided by a speed of at least 2 is at most half of it.
half : (delta speed q : ℕ) → 2 ≤ speed → q * speed ≤ delta → q + q ≤ delta
half delta speed q fast below = omega (arith, mul-le-mul_left q fast, below)

-- At a speed of at least 2, a packet that carries an earlier time than the first packet of the file
-- makes the reader wait for more than 2 ^ 63 nanoseconds, divided by the speed and less one, from
-- the first packet on. That is for a first time below 2 ^ 53 microseconds, and a clock that read
-- less than 2 ^ 63 at the first packet.
pub pace-early :
    (speed_mult : ℕ) (p : Pacing) (pkt_ts_us now_ns : ℕ)
    → 2 ≤ speed_mult
    → pkt_ts_us < p.first_ts_us
    → p.first_ts_us < 2 ^ 53
    → p.first_real_ns < 2 ^ 63
    → 2 ^ 63 < (((pace true speed_mult p pkt_ts_us now_ns).1 - p.first_real_ns) + 1) * speed_mult
pace-early s p pkt now fast early small fits =
    let delta : ℕ = u64 (sub64 pkt p.first_ts_us * 1000) in
    let wrapped : delta ≡ 2 ^ 64 - (p.first_ts_us - pkt) * 1000 = omega (arith, early, small) in
    let q : ℕ = delta / s in
    let halved : q + q ≤ delta = half delta s q fast (div-mul-le_self delta s) in
    let target : (pace true s p pkt now).1 ≡ p.first_real_ns + q =
      pace-target s p pkt now (omega arith) (omega arith) ∙ omega (arith, halved, fits) in
    let waits : (pace true s p pkt now).1 - p.first_real_ns ≡ q = omega (arith, target) in
    let above : delta < q * s + s = lt-div-mul-add {a = delta} {b = s} (omega arith) in
    rw waits (omega (arith, above, wrapped, small))
