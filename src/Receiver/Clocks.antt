-- ===== src/Receiver/Clocks.antt =====
-- The two clocks of include/feed/receiver.hpp: packets carry the kernel's receive time, ticks the
-- monotonic time.
use udp_multicast_receiver.Common.{
  ℕ, ◌^◌, ◌≤◌, ◌<◌, ◌≡◌, ◌∙◌, ap, true, ◌∷◌, leb, u16, sub64, arith,
}
use udp_multicast_receiver.Gap.State.{GapBuffer, retransmit}
use udp_multicast_receiver.Gap.Retransmit.{missing_count, request_due}
use udp_multicast_receiver.Gap.Inv.{IsValid}
use udp_multicast_receiver.Gap.Progress.{IsOpen, tick-asks}
use udp_multicast_receiver.Receiver.{MulticastReceiver, nothing_ready, spin}
use udp_multicast_receiver.Receiver.Asks.{idle_ticks}

-- A detection time ahead of the tick's clock makes the difference wrap, and the request is due.
request_due-ahead :
    (g : GapBuffer) (now : ℕ)
    → g.gap_last_retx_ns ≡ 0
    → now < g.gap_detected_at_ns
    → g.gap_detected_at_ns < 2 ^ 63
    → g.cfg.gap_timeout_ns ≤ 2 ^ 63
    → request_due g now ≡ true
unfolding request_due
request_due-ahead g now first ahead small timeout = ground arith

-- In a valid buffer with an open gap that was not asked for yet, detected by a kernel time that is
-- ahead of the monotonic clock and below 2 ^ 63: a round without a packet in which the loop ticks
-- sends the request at once, whatever the timeout up to 2 ^ 63.
pub spin-early :
    (interval : ℕ) (r : MulticastReceiver) (last now : ℕ)
    → IsValid r.gap_buf
    → IsOpen r.gap_buf
    → r.gap_buf.gap_last_retx_ns ≡ 0
    → now < r.gap_buf.gap_detected_at_ns
    → r.gap_buf.gap_detected_at_ns < 2 ^ 63
    → r.gap_buf.cfg.gap_timeout_ns ≤ 2 ^ 63
    → leb interval (sub64 now last) ≡ true
    → (spin interval
        (r, last)
        (record { received = nothing_ready; monotonic = now; now = now })).0.gap_buf.calls
      ≡ retransmit (record {
        session = r.gap_buf.session;
        first_seq = r.gap_buf.next_expected;
        count = u16 (missing_count r.gap_buf);
      })
        ∷ r.gap_buf.calls
spin-early interval r last now v o first ahead small timeout ticks =
    ap (λ state. state.0.gap_buf.calls) (idle_ticks interval r last now ticks)
    ∙ tick-asks r.gap_buf now v o (request_due-ahead r.gap_buf now first ahead small timeout)
