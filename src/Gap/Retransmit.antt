-- ===== src/Gap/Retransmit.antt =====
-- Gap tracking of include/feed/gap_buffer.hpp: handle_gap and check_gap_timeout.
use udp_multicast_receiver.Common.{
  ℕ, zero, suc, ◌+◌, ◌-◌, Bool, not, ◌&&◌, ◌||◌, ◌∷◌, leb, ◌==◌, if◌then◌else◌, u16, u64, sub64,
}
use udp_multicast_receiver.Wire.Mold.{RetransmitRequest}
use udp_multicast_receiver.Gap.State.{GapBuffer, GapEvent, gap, retransmit, capacity, holds}

unfoldable pub handle_gap : GapBuffer → ℕ → ℕ → GapBuffer
handle_gap g received_seq now_ns =
    let ev : GapEvent = record {
      first_missing_seq = g.next_expected;
      last_missing_seq = sub64 received_seq 1;
      detected_at_ns = now_ns;
    } in
    if g.gap_start == 0
    then (record g {
      gap_start = g.next_expected;
      gap_detected_at_ns = now_ns;
      gap_last_retx_ns = 0;
      stats = record g.stats { gaps = u64 (g.stats.gaps + 1) };
      calls = if g.on_gap then gap ev ∷ g.calls else g.calls;
    })
    else g

-- The counting loop of check_gap_timeout, with the rounds that its bound leaves.
unfoldable pub count_missing : GapBuffer → ℕ → ℕ → ℕ → ℕ
count_missing g zero s missing_count = missing_count
count_missing g (suc rounds) s missing_count =
    let rest = count_missing g rounds (s + 1) (missing_count + 1) in
    if holds g s
    then missing_count
    else if leb g.cfg.max_retransmit_count (missing_count + 1)
    then missing_count + 1
    else rest

-- `for (s = gap_start_; s < gap_start_ + kCapacity; ++s)`: the bound is a uint64_t.
unfoldable pub missing_count : GapBuffer → ℕ
unfolding count_missing
missing_count g = count_missing g (u64 (g.gap_start + capacity) - g.gap_start) g.gap_start 0

-- `first_request || retry_request`
unfoldable pub request_due : GapBuffer → ℕ → Bool
request_due g now_ns =
    let since_detect = sub64 now_ns g.gap_detected_at_ns in
    let since_retx =
      if g.gap_last_retx_ns == 0 then since_detect else sub64 now_ns g.gap_last_retx_ns in
    ((g.gap_last_retx_ns == 0) && leb g.cfg.gap_timeout_ns since_detect)
    || (not (g.gap_last_retx_ns == 0) && leb g.cfg.retry_interval_ns since_retx)

unfoldable pub check_gap_timeout : GapBuffer → ℕ → GapBuffer
unfolding request_due
check_gap_timeout g now_ns =
    let missing = missing_count g in
    let req : RetransmitRequest = record {
      session = g.session;
      first_seq = g.gap_start;
      count = u16 missing;
    } in
    if g.gap_start == 0
    then g
    else if not (request_due g now_ns)
    then g
    else if not g.on_retx
    then g
    else if missing == 0
    then record g { gap_start = 0 }
    else record g {
      gap_last_retx_ns = now_ns;
      stats = record g.stats { retx = u64 (g.stats.retx + 1) };
      calls = retransmit req ∷ g.calls;
    }
