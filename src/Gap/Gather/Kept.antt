-- ===== src/Gap/Gather/Kept.antt =====
-- What gap tracking and holding back leave of a stream (include/feed/gap_buffer.hpp).
use udp_multicast_receiver.Common.{
  ℕ, ◌+◌, ◌%◌, ◌<◌, ◌≡◌, ◌∙◌, refl, ap, Bool, ◌||◌, List, ◌==◌, arith,
}
use udp_multicast_receiver.Wire.Mold.{MoldHeader}
use udp_multicast_receiver.Gap.State.{GapBuffer, capacity, write_slot}
use udp_multicast_receiver.Gap.Retransmit.{handle_gap, check_gap_timeout}
use udp_multicast_receiver.Gap.Ingest.{clear_gap, count_packet, count_duplicate}
use udp_multicast_receiver.Gap.Framing.{header_of, datagram_of}
use udp_multicast_receiver.Gap.Inv.Agrees.{Agrees, check_gap_timeout-Agrees, handle_gap-Agrees}
use udp_multicast_receiver.Gap.Inv.Step.{hold_back}
use udp_multicast_receiver.Gap.Gather.{Chunk, In, IsHoldable, Loose, Covers}
use udp_multicast_receiver.Gap.Held.{filled_slot}
use udp_multicast_receiver.Gap.Gather.Slots.{
  Loose-Agrees, buffer_packet-writes, Loose-write, Covers-write,
}

pub Covers-Agrees :
    {g h : GapBuffer} (todo : List Chunk) (seen : ℕ → Bool)
    → Agrees g h
    → Covers g todo seen
    → Covers h todo seen
Covers-Agrees todo seen a c p i e = rw a.same_slots (c p i e)

-- A datagram ahead of the next number is held back.
pub hold_back-Loose :
    {s : List ℕ} {ps : List Chunk} {total : List (List ℕ)} {end : ℕ} {g : GapBuffer}
    {todo : List Chunk} (seen : ℕ → Bool) (p : Chunk) (now : ℕ)
    → Loose s ps total end g todo
    → Covers g todo seen
    → IsHoldable s p
    → In p todo
    → p.seq < g.next_expected + capacity
    → let h = hold_back g (header_of s p.seq p.bodies) (datagram_of s p.seq p.bodies) now in
      Loose s ps total end h todo
      × Covers h todo (λ k. p.seq == k || seen k)
      × (h.slots ≡ write_slot g.slots (p.seq % capacity) (filled_slot s p.seq p.bodies now))
hold_back-Loose {s} {ps} {total} {end} {g} {todo} seen p now l c fits i near =
    let noted : GapBuffer = handle_gap g p.seq now in
    let a : Agrees g noted = handle_gap-Agrees g p.seq now in
    let l' : Loose s ps total end noted todo = Loose-Agrees l noted a in
    let near' : p.seq < noted.next_expected + capacity = omega (arith, near, a.same_next) in
    let stored : GapBuffer = record noted {
      slots = write_slot noted.slots (p.seq % capacity) (filled_slot s p.seq p.bodies now);
    } in
    let b : Agrees stored (check_gap_timeout stored now) = check_gap_timeout-Agrees stored now in
    rw (buffer_packet-writes l' p now fits i near') (
      Loose-Agrees (Loose-write l' p now i near') (check_gap_timeout stored now) b,
      Covers-Agrees {g = stored} {h = check_gap_timeout stored now} todo (λ k. p.seq == k || seen k)
          b (Covers-write l' p now seen i near' (Covers-Agrees {g = g} {h = noted} todo seen a c)),
      b.same_slots
          ∙ ap (λ slots. write_slot slots (p.seq % capacity) (filled_slot s p.seq p.bodies now))
              a.same_slots,
    )

-- The counters of a packet and of a duplicate are read by nothing.
pub counted-Agrees : (g : GapBuffer) (h : MoldHeader) → Agrees g (count_packet g h)
unfolding count_packet
counted-Agrees g h = record {
  same_listening = refl;
  same_session = refl;
  same_synced = refl;
  same_next = refl;
  same_slots = refl;
  same_delivered = refl;
  same_count = refl;
  same_end = λ n e. e;
  same_messages = λ later. refl;
}

pub duplicate-Agrees : (g : GapBuffer) → Agrees g (count_duplicate g)
unfolding count_duplicate
duplicate-Agrees g = record {
  same_listening = refl;
  same_session = refl;
  same_synced = refl;
  same_next = refl;
  same_slots = refl;
  same_delivered = refl;
  same_count = refl;
  same_end = λ n e. e;
  same_messages = λ later. refl;
}

pub clear_gap-Agrees : (g : GapBuffer) → Agrees g (clear_gap g)
unfolding clear_gap
clear_gap-Agrees g = record {
  same_listening = ground arith;
  same_session = ground arith;
  same_synced = ground arith;
  same_next = ground arith;
  same_slots = ground arith;
  same_delivered = ground arith;
  same_count = ground arith;
  same_end = λ n e. ground arith;
  same_messages = λ later. ground arith;
}
