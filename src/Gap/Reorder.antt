-- ===== src/Gap/Reorder.antt =====
-- Two datagrams that arrive in order, or swapped (include/feed/gap_buffer.hpp).
use udp_multicast_receiver.Common.{
  ℕ, zero, suc, ◌+◌, ◌^◌, ◌≤◌, ◌<◌, ◌≡◌, ◌∙◌, refl, ap, sym, none, true, false, some, List, length,
  arith,
}
use udp_multicast_receiver.Wire.Mold.{MoldHeader, is_heartbeat}
use udp_multicast_receiver.Gap.State.{GapBuffer, capacity, holds}
use udp_multicast_receiver.Gap.Deliver.{deliver_packet, flush_round, flush, flush_buffer}
use udp_multicast_receiver.Gap.Ingest.{
  clear_gap, deliver_in_order, count_packet, count_duplicate, ingest_packet, ingest_parsed, ingest,
}
use udp_multicast_receiver.Gap.Framing.{
  header_of, datagram_of, IsDatagram, parse-datagram_of, drop-datagram_of, advance,
  deliver_packet-frames,
}
use udp_multicast_receiver.Gap.Inv.Step.{sync_session_later, hold_back, NoWrap}

-- A datagram with messages goes past the parse, the session sync and the heartbeat test.
pub ingest-datagram_of :
    (g : GapBuffer) (s : List ℕ) (q : ℕ) (bodies : List (List ℕ)) (now : ℕ)
    → g.session_synced ≡ true
    → IsDatagram s q bodies
    → let hdr = header_of s q bodies in
      let r = ingest_packet (count_packet g hdr) hdr (datagram_of s q bodies) now in
      ingest g (datagram_of s q bodies) now ≡ (r.0, some r.1)
unfolding ingest ingest_parsed is_heartbeat
ingest-datagram_of g s q bodies now y d =
    rw (parse-datagram_of s q bodies d, ingest)
      (rw (sync_session_later g (header_of s q bodies) y) (ground (arith, d.some_body)))

flush_idle :
    (fuel : ℕ) (g : GapBuffer) (count : ℕ)
    → holds g g.next_expected ≡ false
    → flush fuel g count ≡ (g, count)
unfolding flush
flush_idle zero g count h = refl
flush_idle (suc fuel) g count h = rw (h, flush)

flush_once :
    (fuel : ℕ) (g : GapBuffer) (count : ℕ)
    → holds g g.next_expected ≡ true
    → holds (flush_round g).0 (flush_round g).0.next_expected ≡ false
    → flush (suc fuel) g count ≡ ((flush_round g).0, count + (flush_round g).1)
unfolding flush
flush_once fuel g count h k =
    rw (h, flush) (flush_idle fuel (flush_round g).0 (count + (flush_round g).1) k)

flush_buffer_idle : (g : GapBuffer) → holds g g.next_expected ≡ false → flush_buffer g ≡ (g, 0)
unfolding flush_buffer
flush_buffer_idle g h = flush_idle capacity g 0 h

pub flush_buffer_once :
    (g : GapBuffer)
    → holds g g.next_expected ≡ true
    → holds (flush_round g).0 (flush_round g).0.next_expected ≡ false
    → flush_buffer g ≡ ((flush_round g).0, 0 + (flush_round g).1)
unfolding flush_buffer
flush_buffer_once g h k = flush_once 4095 g 0 h k

deliver_in_order_parts :
    (g d f : GapBuffer) (hdr : MoldHeader) (payload : List ℕ) (now n m : ℕ)
    → deliver_packet g hdr payload now ≡ (d, n)
    → flush_buffer d ≡ (f, m)
    → deliver_in_order g hdr payload now ≡ (clear_gap f, n + m)
unfolding deliver_in_order
deliver_in_order_parts g d f hdr payload now n m e k = rw (e, k)

ingest_packet_next :
    (g : GapBuffer) (hdr : MoldHeader) (payload : List ℕ) (now : ℕ)
    → hdr.seq_num ≡ g.next_expected
    → 0 < hdr.msg_count
    → hdr.seq_num + hdr.msg_count < 2 ^ 64
    → ingest_packet g hdr payload now ≡ deliver_in_order g hdr payload now
unfolding ingest_packet
ingest_packet_next g hdr payload now e pos fit = ground arith

-- A datagram that starts at `next_expected`, and what the flush behind it makes of the buffer.
pub ingest_next :
    (g f : GapBuffer) (s : List ℕ) (q : ℕ) (bodies : List (List ℕ)) (now m : ℕ)
    → g.on_message ≡ true
    → g.session_synced ≡ true
    → q ≡ g.next_expected
    → IsDatagram s q bodies
    → flush_buffer (advance (count_packet g (header_of s q bodies)) now bodies) ≡ (f, m)
    → ingest g (datagram_of s q bodies) now ≡ (clear_gap f, some (length bodies + m))
unfolding count_packet
ingest_next g f s q bodies now m on y e d flushed =
    let hdr : MoldHeader = header_of s q bodies in
    let payload : List ℕ = datagram_of s q bodies in
    ingest-datagram_of g s q bodies now y d
    ∙ ap (λ (r : GapBuffer × ℕ). (r.0, some r.1))
        (ingest_packet_next (count_packet g hdr) hdr payload now e d.some_body d.seq_fits
          ∙ deliver_in_order_parts (count_packet g hdr) _ f hdr payload now (length bodies) m
              (deliver_packet-frames (count_packet g hdr) hdr payload now bodies on e refl
                (drop-datagram_of s q bodies d) d.bodies_fit d.some_body
                (omega (arith, d.seq_fits)))
              flushed)

-- A well-formed datagram that starts at `next_expected`, in a synced buffer that holds no packet
-- which follows it, is delivered whole and nothing else is: `next_expected` moves behind it, its
-- messages are handed to on_message in order with their numbers, and the call reports their count.
pub ingest_in_order :
    (g : GapBuffer) (s : List ℕ) (q : ℕ) (bodies : List (List ℕ)) (now : ℕ)
    → g.on_message ≡ true
    → g.session_synced ≡ true
    → q ≡ g.next_expected
    → IsDatagram s q bodies
    → holds g (g.next_expected + length bodies) ≡ false
    → ingest g (datagram_of s q bodies) now ≡ (
      clear_gap (advance (count_packet g (header_of s q bodies)) now bodies),
      some (length bodies + 0),
    )
ingest_in_order g s q bodies now on y e d idle =
    ingest_next g _ s q bodies now 0 on y e d (unfold count_packet in flush_buffer_idle _ idle)

-- A well-formed datagram ahead of `next_expected`, in a synced buffer, goes through the gap branch:
-- the gap is noted, the packet is buffered, the timeout is checked, and the call reports 0.
pub ingest_ahead :
    (g : GapBuffer) (s : List ℕ) (q : ℕ) (bodies : List (List ℕ)) (now : ℕ)
    → g.session_synced ≡ true
    → g.next_expected < q
    → IsDatagram s q bodies
    → ingest g (datagram_of s q bodies) now ≡ (
      hold_back
          (count_packet g (header_of s q bodies))
          (header_of s q bodies)
          (datagram_of s q bodies)
          now,
      some 0,
    )
ingest_ahead g s q bodies now y ahead d =
    ingest-datagram_of g s q bodies now y d
    ∙ unfold ingest_packet count_packet in ground (arith, d.some_body, d.seq_fits)

-- A packet whose messages were all delivered before.
pub ingest_delivered :
    (g : GapBuffer) (s : List ℕ) (q : ℕ) (bodies : List (List ℕ)) (now : ℕ)
    → g.session_synced ≡ true
    → IsDatagram s q bodies
    → q + length bodies ≤ g.next_expected
    → ingest g (datagram_of s q bodies) now
      ≡ (count_duplicate (count_packet g (header_of s q bodies)), some 0)
ingest_delivered g s q bodies now y d past =
    ingest-datagram_of g s q bodies now y d
    ∙ unfold ingest_packet count_packet in ground (arith, d.some_body, d.seq_fits)

-- A well-formed datagram's numbers stay below 2 ^ 64.
pub IsDatagram-NoWrap :
    (s : List ℕ) (q : ℕ) (bodies : List (List ℕ))
    → IsDatagram s q bodies
    → NoWrap (datagram_of s q bodies)
IsDatagram-NoWrap s q bodies d hdr e =
    let same : header_of s q bodies ≡ hdr =
      ap (λ o. elim o [ none ↦ hdr | some h ↦ h ]) (sym (parse-datagram_of s q bodies d) ∙ e) in
    omega (arith, ap (λ h. h.seq_num + h.msg_count) same, d.seq_fits)
