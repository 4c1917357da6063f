-- ===== src/Receiver/Asks.antt =====
-- The receiver's loop (include/feed/receiver.hpp) asks for a gap that stays open.
use udp_multicast_receiver.Common.{
  ℕ, ◌+◌, ◌^◌, ◌≤◌, ◌<◌, ◌≡◌, refl, ap, true, false, List, [], ◌∷◌, inl, inr, Bool-cases, leb,
  sub64, arith,
}
use udp_multicast_receiver.Gap.Ingest.{tick}
use udp_multicast_receiver.Gap.Inv.{IsValid}
use udp_multicast_receiver.Gap.Retransmit.{request_due}
use udp_multicast_receiver.Gap.Progress.{
  IsOpen, tick-asks, request_due-first, tick-not_due, request_count, tick-request_count,
}
use udp_multicast_receiver.Receiver.{
  MulticastReceiver, nothing_ready, recv_one, Spin, spin, run_from,
}

-- Rounds in which no packet is ready, at these times.
unfoldable pub idle : List ℕ → List Spin
idle [] = []
idle (t ∷ ts) = record { received = nothing_ready; monotonic = t; now = t } ∷ idle ts

-- The clock does not go back from `from` on, and the last reading is `end`.
abbrev pub Rises : ℕ → List ℕ → ℕ → Type 0
Rises from [] end = from ≡ end
Rises from (t ∷ ts) end = (from ≤ t) × Rises t ts end

Rises-le : (from : ℕ) (ts : List ℕ) (end : ℕ) → Rises from ts end → from ≤ end
Rises-le from [] end h = omega (arith, h)
Rises-le from (t ∷ ts) end h = omega (arith, h.0, Rises-le t ts end h.1)

module _ (interval : ℕ) where
  abbrev pub idle_spin : MulticastReceiver × ℕ → ℕ → MulticastReceiver × ℕ
  idle_spin state t =
      spin interval state (record { received = nothing_ready; monotonic = t; now = t })

  pub idle_ticks :
      (r : MulticastReceiver) (last t : ℕ)
      → leb interval (sub64 t last) ≡ true
      → idle_spin (r, last) t ≡ (record r { gap_buf = tick r.gap_buf t }, t)
  unfolding spin recv_one
  idle_ticks r last t e = rw (e, spin) refl

  idle_waits :
      (r : MulticastReceiver) (last t : ℕ)
      → leb interval (sub64 t last) ≡ false
      → idle_spin (r, last) t ≡ (r, last)
  unfolding spin recv_one
  idle_waits r last t e = rw (e, spin) refl

  run_ticks :
      (r : MulticastReceiver) (last t : ℕ) (ts : List ℕ)
      → leb interval (sub64 t last) ≡ true
      → run_from interval (r, last) (idle (t ∷ ts))
        ≡ run_from interval (record r { gap_buf = tick r.gap_buf t }, t) (idle ts)
  unfolding run_from idle
  run_ticks r last t ts e = ap (λ state. run_from interval state (idle ts)) (idle_ticks r last t e)

  run_waits :
      (r : MulticastReceiver) (last t : ℕ) (ts : List ℕ)
      → leb interval (sub64 t last) ≡ false
      → run_from interval (r, last) (idle (t ∷ ts)) ≡ run_from interval (r, last) (idle ts)
  unfolding run_from idle
  run_waits r last t ts e = ap (λ state. run_from interval state (idle ts)) (idle_waits r last t e)

  -- Requests are never taken back.
  idle-request_count :
      (ts : List ℕ) (r : MulticastReceiver) (last : ℕ)
      → request_count r.gap_buf.calls
        ≤ request_count (run_from interval (r, last) (idle ts)).0.gap_buf.calls
  idle-request_count [] r last = unfold run_from idle in omega arith
  idle-request_count (t ∷ ts) r last = elim (Bool-cases (leb interval (sub64 t last))) [
    | inl e ↦ rw (run_ticks r last t ts e) (
        omega (
          arith,
          tick-request_count r.gap_buf t,
          idle-request_count ts (record r { gap_buf = tick r.gap_buf t }) t,
        ))
    | inr e ↦ rw (run_waits r last t ts e) (idle-request_count ts r last)
  ]

  -- In a buffer with an open gap that was not asked for yet: rounds without a packet, at times that
  -- rise from the detection on to the timeout and one tick interval behind it, send a request, when
  -- the last tick was not later than the timeout. The clock stays below 2 ^ 64.
  pub run_from-asks :
      (ts : List ℕ) (r : MulticastReceiver) (last from end : ℕ)
      → IsValid r.gap_buf
      → IsOpen r.gap_buf
      → r.gap_buf.gap_last_retx_ns ≡ 0
      → r.gap_buf.gap_detected_at_ns ≤ from
      → last ≤ from
      → last ≤ r.gap_buf.gap_detected_at_ns + r.gap_buf.cfg.gap_timeout_ns
      → from < r.gap_buf.gap_detected_at_ns + r.gap_buf.cfg.gap_timeout_ns + interval
      → r.gap_buf.gap_detected_at_ns + r.gap_buf.cfg.gap_timeout_ns + interval ≤ end
      → end < 2 ^ 64
      → Rises from ts end
      → request_count r.gap_buf.calls
        < request_count (run_from interval (r, last) (idle ts)).0.gap_buf.calls
  run_from-asks [] r last from end v o first seen before early late far fit rise =
      absurd (omega (arith, rise))
  run_from-asks (t ∷ ts) r last from end v o first seen before early late far fit rise =
      elim (Bool-cases (leb interval (sub64 t last))) [
        | inl e ↦ elim (Bool-cases (request_due r.gap_buf t)) [
          | inl due ↦ rw (run_ticks r last t ts e) (
              omega (
                arith,
                ap request_count (tick-asks r.gap_buf t v o due),
                idle-request_count ts (record r { gap_buf = tick r.gap_buf t }) t,
              ))
          | inr wait ↦
              let soon : t < r.gap_buf.gap_detected_at_ns + r.gap_buf.cfg.gap_timeout_ns = ground (
                arith,
                wait,
                request_due-first r.gap_buf t first,
                rise.0,
                Rises-le t ts end rise.1,
              ) in
              rw (run_ticks r last t ts e, tick-not_due r.gap_buf t wait)
                (run_from-asks ts r t t end v o first (omega (arith, rise.0)) (omega arith)
                  (omega (arith, soon)) (omega (arith, soon)) far fit rise.1)
        ]
        | inr e ↦
            let close : t < last + interval = ground (arith, rise.0, Rises-le t ts end rise.1) in
            rw (run_waits r last t ts e) (
              run_from-asks ts r last t end v o first (omega (arith, rise.0))
                (omega (arith, rise.0)) early (omega (arith, close)) far fit rise.1)
      ]
