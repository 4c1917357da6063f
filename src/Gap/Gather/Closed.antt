-- ===== src/Gap/Gather/Closed.antt =====
-- Where a gap may start while a stream arrives (include/feed/gap_buffer.hpp).
use udp_multicast_receiver.Common.{
  ℕ, ◌+◌, ◌^◌, ◌≤◌, ◌<◌, ◌≡◌, ◌⊎◌, ◌∙◌, refl, inl, inr, true, List, arith,
}
use udp_multicast_receiver.Wire.Mold.{MoldHeader}
use udp_multicast_receiver.Gap.State.{GapBuffer}
use udp_multicast_receiver.Gap.Deliver.{deliver_packet, flush_buffer}
use udp_multicast_receiver.Gap.Retransmit.{handle_gap}
use udp_multicast_receiver.Gap.Ingest.{
  buffer_packet, clear_gap, deliver_in_order, count_packet, count_duplicate, ingest_packet, ingest,
}
use udp_multicast_receiver.Gap.Framing.{header_of, datagram_of, IsDatagram}
use udp_multicast_receiver.Gap.Reorder.{ingest-datagram_of}
use udp_multicast_receiver.Gap.Inv.{IsSound, IsValid}
use udp_multicast_receiver.Gap.Inv.Agrees.{check_gap_timeout_gap, handle_gap_gap, Agrees-IsValid}
use udp_multicast_receiver.Gap.Inv.Deliver.{
  deliver_packet_frame, deliver_packet-IsSound, IsAfter, flush_buffer-IsAfter,
}
use udp_multicast_receiver.Gap.Inv.Step.{hold_back, ingest_packet_cases}
use udp_multicast_receiver.Gap.Gather.Kept.{counted-Agrees}

-- The gap of `h` is closed, that of `g`, or one that opens ahead of a packet at `seq`.
abbrev pub GapFrom : GapBuffer → ℕ → GapBuffer → Type 0
GapFrom g seq h =
    (h.gap_start ≡ 0)
    ⊎ (h.gap_start ≡ g.gap_start)
    ⊎ ((h.gap_start ≡ g.next_expected) × (g.next_expected < seq))

clear_gap_gap :
    (g : GapBuffer) → ((clear_gap g).gap_start ≡ 0) ⊎ ((clear_gap g).gap_start ≡ g.gap_start)
unfolding clear_gap
clear_gap_gap g = ground arith

buffer_packet_gap :
    (g : GapBuffer) (hdr : MoldHeader) (payload : List ℕ) (now : ℕ)
    → (buffer_packet g hdr payload now).gap_start ≡ g.gap_start
unfolding buffer_packet
buffer_packet_gap g hdr payload now = ground arith

hold_back-GapFrom :
    (g : GapBuffer) (hdr : MoldHeader) (payload : List ℕ) (now : ℕ)
    → g.next_expected < hdr.seq_num
    → GapFrom g hdr.seq_num (hold_back g hdr payload now)
hold_back-GapFrom g hdr payload now ahead =
    let noted : GapBuffer = handle_gap g hdr.seq_num now in
    let stored : GapBuffer = buffer_packet noted hdr payload now in
    ground (
      arith,
      ahead,
      check_gap_timeout_gap stored now,
      buffer_packet_gap noted hdr payload now,
      handle_gap_gap g hdr.seq_num now,
    )

deliver_in_order-GapFrom :
    (g : GapBuffer) (hdr : MoldHeader) (payload : List ℕ) (now : ℕ)
    → g.session_synced ≡ true
    → hdr.seq_num ≤ g.next_expected
    → hdr.seq_num + hdr.msg_count < 2 ^ 64
    → IsSound g
    → GapFrom g hdr.seq_num (deliver_in_order g hdr payload now).0
unfolding deliver_in_order
deliver_in_order-GapFrom g hdr payload now y old fit s =
    let d : GapBuffer = (deliver_packet g hdr payload now).0 in
    let frame = deliver_packet_frame g hdr payload now in
    let a : IsAfter d (flush_buffer d).0 =
      flush_buffer-IsAfter d (deliver_packet-IsSound g hdr payload now s old fit y) (frame.2 ∙ y) in
    ground (arith, clear_gap_gap (flush_buffer d).0, a.same_gap, frame.1)

ingest_packet-GapFrom :
    (g : GapBuffer) (hdr : MoldHeader) (payload : List ℕ) (now : ℕ)
    → g.session_synced ≡ true
    → hdr.seq_num + hdr.msg_count < 2 ^ 64
    → IsSound g
    → GapFrom g hdr.seq_num (ingest_packet g hdr payload now).0
unfolding count_duplicate
ingest_packet-GapFrom g hdr payload now y fit s = elim (ingest_packet_cases g hdr payload now) [
  | inl (old, e) ↦ rw e (inr (inl refl))
  | inr (inl (ahead, e)) ↦ rw e (hold_back-GapFrom g hdr payload now ahead)
  | inr (inr (old, e)) ↦ rw e (deliver_in_order-GapFrom g hdr payload now y old fit s)
]

-- A datagram at a valid buffer.
pub ingest-GapFrom :
    (g : GapBuffer) (s : List ℕ) (q : ℕ) (bodies : List (List ℕ)) (now : ℕ)
    → g.session_synced ≡ true
    → IsValid g
    → IsDatagram s q bodies
    → GapFrom g q (ingest g (datagram_of s q bodies) now).0
unfolding count_packet
ingest-GapFrom g s q bodies now y v d =
    let hdr : MoldHeader = header_of s q bodies in
    let counted : GapBuffer = count_packet g hdr in
    let w : IsValid counted = Agrees-IsValid {g = g} {h = counted} (counted-Agrees g hdr) refl v in
    rw (ingest-datagram_of g s q bodies now y d)
      (ingest_packet-GapFrom counted hdr (datagram_of s q bodies) now y d.seq_fits w.sound)
