-- ===== src/Gap/Held.antt =====
-- A datagram held back in its slot, and taken out again (include/feed/gap_buffer.hpp).
use udp_multicast_receiver.Common.{
  ℕ, ◌%◌, ◌≤◌, ◌≡◌, ◌⊎◌, ◌∙◌, refl, true, false, List, ◌++◌, length, drop, take-all, arith,
}
use udp_multicast_receiver.Wire.Mold.{MoldHeader, MoldMessage, header_size, serialise}
use udp_multicast_receiver.Gap.State.{
  GapBuffer, BufferedPacket, capacity, max_packet_bytes, write_slot, slot_of,
}
use udp_multicast_receiver.Gap.Deliver.{slot_header, flush_round}
use udp_multicast_receiver.Gap.Retransmit.{handle_gap, check_gap_timeout}
use udp_multicast_receiver.Gap.Ingest.{buffer_packet, clear_gap}
use udp_multicast_receiver.Gap.Trace.{delivered}
use udp_multicast_receiver.Gap.Framing.{
  frames, header_of, datagram_of, IsDatagram, drop-datagram_of, advance, deliver_packet-frames,
  drop-serialise,
}
use udp_multicast_receiver.Gap.Inv.Agrees.{
  Agrees, check_gap_timeout-Agrees, handle_gap-Agrees, check_gap_timeout_gap, handle_gap_gap,
}
use udp_multicast_receiver.Gap.Inv.Step.{hold_back}

pub clear_gap_frame :
    (g : GapBuffer)
    → ((clear_gap g).next_expected ≡ g.next_expected)
      × ((clear_gap g).calls ≡ g.calls)
      × ((clear_gap g).slots ≡ g.slots)
      × ((clear_gap g).on_message ≡ g.on_message)
      × ((clear_gap g).session_synced ≡ g.session_synced)
unfolding clear_gap
clear_gap_frame g = (ground arith, ground arith, ground arith, ground arith, ground arith)

-- The slot that a held-back datagram fills.
abbrev pub filled_slot : List ℕ → ℕ → List (List ℕ) → ℕ → BufferedPacket
filled_slot s q bodies now = record {
  seq_num = q;
  msg_count = length bodies;
  occupied = true;
  recv_ns = now;
  contents = frames bodies;
}

buffer_packet_free :
    (g : GapBuffer) (s : List ℕ) (q : ℕ) (bodies : List (List ℕ)) (now : ℕ)
    → IsDatagram s q bodies
    → length (frames bodies) ≤ max_packet_bytes
    → (slot_of g q).occupied ≡ false
    → buffer_packet g (header_of s q bodies) (datagram_of s q bodies) now
      ≡ record g { slots = write_slot g.slots (q % capacity) (filled_slot s q bodies now) }
unfolding buffer_packet
buffer_packet_free g s q bodies now d small free =
    rw (drop-datagram_of s q bodies d, take-all max_packet_bytes (frames bodies) small)
      (ground arith)

-- What holding back a datagram changes: its slot, and no other thing that delivery reads.
pub record Held (g h : GapBuffer) (q : ℕ) (slot : BufferedPacket) : Type 0 where
  pub same_listening : h.on_message ≡ g.on_message
  pub same_session : h.session ≡ g.session
  pub same_synced : h.session_synced ≡ g.session_synced
  pub same_next : h.next_expected ≡ g.next_expected
  pub new_slots : h.slots ≡ write_slot g.slots (q % capacity) slot
  pub same_messages : (later : List MoldMessage) → delivered h.calls later ≡ delivered g.calls later
  pub gap_noted : (h.gap_start ≡ 0) ⊎ (h.gap_start ≡ g.next_expected)

pub hold_back-Held :
    (g : GapBuffer) (s : List ℕ) (q : ℕ) (bodies : List (List ℕ)) (now : ℕ)
    → IsDatagram s q bodies
    → length (frames bodies) ≤ max_packet_bytes
    → (slot_of g q).occupied ≡ false
    → (g.gap_start ≡ 0) ⊎ (g.gap_start ≡ g.next_expected)
    → Held g
        (hold_back g (header_of s q bodies) (datagram_of s q bodies) now)
        q
        (filled_slot s q bodies now)
hold_back-Held g s q bodies now d small free t =
    let noted : GapBuffer = handle_gap g q now in
    let a : Agrees g noted = handle_gap-Agrees g q now in
    let stored : GapBuffer = record noted {
      slots = write_slot noted.slots (q % capacity) (filled_slot s q bodies now);
    } in
    let b : Agrees stored (check_gap_timeout stored now) = check_gap_timeout-Agrees stored now in
    rw (buffer_packet_free noted s q bodies now d small (rw a.same_slots free)) (record {
      same_listening = b.same_listening ∙ a.same_listening;
      same_session = b.same_session ∙ a.same_session;
      same_synced = b.same_synced ∙ a.same_synced;
      same_next = b.same_next ∙ a.same_next;
      new_slots = b.same_slots ∙ rw a.same_slots;
      same_messages = λ later. b.same_messages later ∙ a.same_messages later;
      gap_noted = ground (arith, check_gap_timeout_gap stored now, handle_gap_gap g q now, t);
    })

unfoldable pub freed : GapBuffer → List ℕ → ℕ → List (List ℕ) → ℕ → GapBuffer
freed d s q bodies now = record (advance d now bodies) {
  slots =
      write_slot d.slots (d.next_expected % capacity)
        (record (filled_slot s q bodies now) { occupied = false });
}

-- The round of flush_buffer that takes a held-back datagram out of its slot.
pub flush_round_filled :
    (d : GapBuffer) (s : List ℕ) (q : ℕ) (bodies : List (List ℕ)) (now : ℕ)
    → d.on_message ≡ true
    → length d.session ≡ 10
    → IsDatagram s q bodies
    → q ≡ d.next_expected
    → slot_of d d.next_expected ≡ filled_slot s q bodies now
    → flush_round d ≡ (freed d s q bodies now, length bodies)
unfolding flush_round slot_header freed
flush_round_filled d s q bodies now on len g e filled =
    let hdr : MoldHeader = record { session = d.session; seq_num = q; msg_count = length bodies } in
    let behind : drop header_size (serialise hdr ++ frames bodies) ≡ frames bodies =
      drop-serialise hdr (frames bodies) len (omega (arith, g.seq_fits)) g.count_fits in
    let delivery =
      deliver_packet-frames d hdr (serialise hdr ++ frames bodies) now bodies on e refl behind
        g.bodies_fit g.some_body (omega (arith, g.seq_fits)) in
    rw (filled, delivery) (ground (arith, filled))
