-- ===== src/Gap/Count.antt =====
-- What `ingest` of include/feed/gap_buffer.hpp returns, against its counter of delivered messages.
use udp_multicast_receiver.Common.{
  ℕ, zero, suc, ◌+◌, ◌≡◌, refl, Option, none, some, List, inl, inr, Bool-cases, Option-cases, u64,
  arith,
}
use udp_multicast_receiver.Wire.Mold.{MoldHeader, parse}
use udp_multicast_receiver.Gap.State.{GapBuffer, holds, capacity}
use udp_multicast_receiver.Gap.Deliver.{deliver_packet, flush_round, flush, flush_buffer}
use udp_multicast_receiver.Gap.Retransmit.{handle_gap, check_gap_timeout}
use udp_multicast_receiver.Gap.Ingest.{
  buffer_packet, sync_session, clear_gap, deliver_in_order, count_packet, count_duplicate,
  count_heartbeat, ingest_packet, ingest_parsed, ingest, tick,
}

abbrev pub count_of : Option ℕ → ℕ
count_of none = 0
count_of (some n) = n

-- `h` has delivered `n` messages more than `g`.
abbrev pub Delivers : GapBuffer → GapBuffer → ℕ → Type 0
Delivers g h n = u64 h.stats.delivered ≡ u64 (g.stats.delivered + n)

deliver_packet-Delivers :
    (g : GapBuffer) (hdr : MoldHeader) (payload : List ℕ) (now : ℕ)
    → Delivers g (deliver_packet g hdr payload now).0 (deliver_packet g hdr payload now).1
unfolding deliver_packet
deliver_packet-Delivers g hdr payload now = omega arith

flush_round-Delivers : (g : GapBuffer) → Delivers g (flush_round g).0 (flush_round g).1
unfolding flush_round
flush_round-Delivers g = deliver_packet-Delivers g _ _ _

flush-Delivers :
    (fuel : ℕ) (g : GapBuffer) (count : ℕ)
    → u64 ((flush fuel g count).0.stats.delivered + count)
      ≡ u64 (g.stats.delivered + (flush fuel g count).1)
unfolding flush
flush-Delivers zero g count = refl
flush-Delivers (suc fuel) g count = elim (Bool-cases (holds g g.next_expected)) [
  | inl e ↦
      let round = flush_round g in
      rw (e, flush)
        (omega (arith, flush_round-Delivers g, flush-Delivers fuel round.0 (count + round.1)))
  | inr e ↦ rw (e, flush) refl
]

check_gap_timeout-Delivers :
    (g : GapBuffer) (now : ℕ) → (check_gap_timeout g now).stats.delivered ≡ g.stats.delivered
unfolding check_gap_timeout
check_gap_timeout-Delivers g now = ground arith

hold_back-Delivers :
    (g : GapBuffer) (hdr : MoldHeader) (payload : List ℕ) (now : ℕ)
    → (buffer_packet (handle_gap g hdr.seq_num now) hdr payload now).stats.delivered
      ≡ g.stats.delivered
unfolding buffer_packet handle_gap
hold_back-Delivers g hdr payload now = ground arith

deliver_in_order-Delivers :
    (g : GapBuffer) (hdr : MoldHeader) (payload : List ℕ) (now : ℕ)
    → Delivers g (deliver_in_order g hdr payload now).0 (deliver_in_order g hdr payload now).1
unfolding deliver_in_order clear_gap flush_buffer
deliver_in_order-Delivers g hdr payload now =
    let d = deliver_packet g hdr payload now in
    let f = flush capacity d.0 0 in
    let kept : (clear_gap f.0).stats.delivered ≡ f.0.stats.delivered = ground arith in
    omega (arith, deliver_packet-Delivers g hdr payload now, flush-Delivers capacity d.0 0, kept)

ingest_packet-Delivers :
    (g : GapBuffer) (hdr : MoldHeader) (payload : List ℕ) (now : ℕ)
    → Delivers g (ingest_packet g hdr payload now).0 (ingest_packet g hdr payload now).1
unfolding ingest_packet count_duplicate
ingest_packet-Delivers g hdr payload now = ground (
  arith,
  deliver_in_order-Delivers g hdr payload now,
  hold_back-Delivers g hdr payload now,
  check_gap_timeout-Delivers (buffer_packet (handle_gap g hdr.seq_num now) hdr payload now) now,
)

ingest_parsed-Delivers :
    (g : GapBuffer) (hdr : MoldHeader) (payload : List ℕ) (now : ℕ)
    → Delivers g (ingest_parsed g hdr payload now).0 (ingest_parsed g hdr payload now).1
unfolding ingest_parsed
ingest_parsed-Delivers g hdr payload now =
    let synced : (sync_session g hdr).stats.delivered ≡ g.stats.delivered =
      unfold sync_session in ground arith in
    let beat : (count_heartbeat (sync_session g hdr)).stats.delivered
        ≡ (sync_session g hdr).stats.delivered =
      unfold count_heartbeat in refl in
    let counted : (count_packet (sync_session g hdr) hdr).stats.delivered
        ≡ (sync_session g hdr).stats.delivered =
      unfold count_packet in refl in
    ground (
      arith,
      synced,
      beat,
      counted,
      check_gap_timeout-Delivers (count_heartbeat (sync_session g hdr)) now,
      ingest_packet-Delivers (count_packet (sync_session g hdr) hdr) hdr payload now,
    )

-- The counter of delivered messages grows, modulo 2 ^ 64, by exactly what `ingest` returns, on
-- every branch; by nothing on a parse error.
pub ingest-Delivers :
    (g : GapBuffer) (payload : List ℕ) (now : ℕ)
    → Delivers g (ingest g payload now).0 (count_of (ingest g payload now).1)
unfolding ingest
ingest-Delivers g payload now = elim (Option-cases (parse payload)) [
  | inl e ↦ rw (e, ingest) (omega arith)
  | inr (hdr, e) ↦ rw (e, ingest) (ingest_parsed-Delivers g hdr payload now)
]

pub tick-Delivers : (g : GapBuffer) (now : ℕ) → (tick g now).stats.delivered ≡ g.stats.delivered
unfolding tick
tick-Delivers g now = check_gap_timeout-Delivers g now
