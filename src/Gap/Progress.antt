-- ===== src/Gap/Progress.antt =====
-- A gap that stays open is asked for (include/feed/gap_buffer.hpp).
use udp_multicast_receiver.Common.{
  ℕ, zero, suc, ◌+◌, ◌-◌, ◌^◌, ◌≤◌, ◌<◌, ◌≡◌, ◌≢◌, inl, inr, ap, true, false, List, [], ◌∷◌, leb,
  u16, u64, arith,
}
use udp_multicast_receiver.Gap.State.{GapBuffer, Call, message, gap, retransmit, capacity, holds}
use udp_multicast_receiver.Gap.Retransmit.{
  count_missing, missing_count, request_due, check_gap_timeout,
}
use udp_multicast_receiver.Gap.Ingest.{tick}
use udp_multicast_receiver.Gap.Inv.{IsValid}
use udp_multicast_receiver.Gap.Requests.{check_gap_timeout-cases}

-- A gap is tracked and on_retransmit is set; the window of slots stays below 2 ^ 64.
pub record IsOpen (g : GapBuffer) : Type 0 where
  pub tracks : g.gap_start ≢ 0
  pub asks : g.on_retx ≡ true
  pub room : g.gap_start + capacity < 2 ^ 64

count_missing-ge : (g : GapBuffer) (rounds seq count : ℕ) → count ≤ count_missing g rounds seq count
unfolding count_missing
count_missing-ge g zero seq count = omega arith
count_missing-ge g (suc rounds) seq count =
    ground (arith, count_missing-ge g rounds (seq + 1) (count + 1))

-- In a valid buffer the first missing number is never held back, so a request has a count.
missing_count-positive : (g : GapBuffer) → IsValid g → IsOpen g → 0 < missing_count g
unfolding missing_count
missing_count-positive g v o =
    let rounds : u64 (g.gap_start + capacity) - g.gap_start ≡ suc 4095 = omega (arith, o.room) in
    rw rounds (one_round g 4095 g.gap_start (first_missing g v o))
  where
    one_round :
        (g : GapBuffer) (n seq : ℕ) → holds g seq ≡ false → 0 < count_missing g (suc n) seq 0
    one_round g n seq h = unfold count_missing in ground (arith, count_missing-ge g n (seq + 1) 1)

    first_missing : (g : GapBuffer) → IsValid g → IsOpen g → holds g g.gap_start ≡ false
    first_missing g v o = elim v.tracked [ inl e ↦ absurd (o.tracks e) | inr e ↦ rw e v.settled ]

-- A tick at which a request is due sends one for the first missing number, in every valid buffer
-- with an open gap: the branch of the code that finds nothing missing is never taken.
pub tick-asks :
    (g : GapBuffer) (now : ℕ)
    → IsValid g
    → IsOpen g
    → request_due g now ≡ true
    → (tick g now).calls
      ≡ retransmit (record {
        session = g.session;
        first_seq = g.next_expected;
        count = u16 (missing_count g);
      })
        ∷ g.calls
unfolding tick check_gap_timeout
tick-asks g now v o due =
    ground (arith, o.tracks, o.asks, due, missing_count-positive g v o, v.tracked)

-- Before the first request one is due exactly from the timeout on.
pub request_due-first :
    (g : GapBuffer) (now : ℕ)
    → g.gap_last_retx_ns ≡ 0
    → g.gap_detected_at_ns ≤ now
    → now < 2 ^ 64
    → request_due g now ≡ leb (g.gap_detected_at_ns + g.cfg.gap_timeout_ns) now
unfolding request_due
request_due-first g now first after fit = ground arith

pub tick-not_due : (g : GapBuffer) (now : ℕ) → request_due g now ≡ false → tick g now ≡ g
unfolding tick check_gap_timeout
tick-not_due g now h = ground arith

-- How many requests have been sent.
abbrev pub request_count : List Call → ℕ
request_count [] = 0
request_count (message m ∷ calls) = request_count calls
request_count (gap ev ∷ calls) = request_count calls
request_count (retransmit req ∷ calls) = suc (request_count calls)

pub tick-request_count :
    (g : GapBuffer) (now : ℕ) → request_count g.calls ≤ request_count (tick g now).calls
unfolding tick
tick-request_count g now = elim (check_gap_timeout-cases g now) [
  | inl e ↦ omega (arith, ap request_count e)
  | inr (pos, e, noted, kept) ↦ omega (arith, ap request_count e)
]
