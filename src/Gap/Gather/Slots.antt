-- ===== src/Gap/Gather/Slots.antt =====
-- Holding back a datagram of a stream (include/feed/gap_buffer.hpp).
use udp_multicast_receiver.Common.{
  ℕ, ◌+◌, ◌%◌, ◌≤◌, ◌<◌, ◌≡◌, ◌∙◌, refl, ap, sym, subst, inl, inr, Bool, true, ◌&&◌, ◌||◌, map,
  List, [], ◌∷◌, ◌++◌, append_assoc, append-nil, take-all, Bool-cases, ◌==◌, arith,
}
use udp_multicast_receiver.Wire.Mold.{MoldMessage}
use udp_multicast_receiver.Gap.State.{
  GapBuffer, BufferedPacket, Call, message, gap, retransmit, max_packet_bytes, capacity, holds,
  slot_of, write_slot,
}
use udp_multicast_receiver.Gap.Ingest.{buffer_packet}
use udp_multicast_receiver.Gap.Framing.{frames, header_of, datagram_of, drop-datagram_of}
use udp_multicast_receiver.Gap.Trace.{delivered, sent_bodies}
use udp_multicast_receiver.Gap.Held.{filled_slot}
use udp_multicast_receiver.Gap.Inv.Agrees.{Agrees}
use udp_multicast_receiver.Gap.Gather.{Chunk, In, IsHoldable, Follows-le, Loose, Covers}

bodies-delivered :
    (calls : List Call) (later : List MoldMessage)
    → map (λ m. m.body) (delivered calls later) ≡ sent_bodies calls ++ map (λ m. m.body) later
unfolding sent_bodies
bodies-delivered [] later = refl
bodies-delivered (message m ∷ calls) later =
    bodies-delivered calls (m ∷ later)
    ∙ sym (append_assoc (sent_bodies calls) (m.body ∷ []) (map (λ m. m.body) later))
bodies-delivered (gap ev ∷ calls) later = bodies-delivered calls later
bodies-delivered (retransmit req ∷ calls) later = bodies-delivered calls later

-- Buffers with the same messages have sent the same bodies.
same-sent_bodies :
    (a b : List Call) → delivered a [] ≡ delivered b [] → sent_bodies a ≡ sent_bodies b
same-sent_bodies a b e =
    sym (append-nil (sent_bodies a))
    ∙ sym (bodies-delivered a [])
    ∙ ap (map (λ m. m.body)) e
    ∙ bodies-delivered b []
    ∙ append-nil (sent_bodies b)

module _ {s : List ℕ} {ps : List Chunk} {total : List (List ℕ)} {end : ℕ} {g : GapBuffer}
    {todo : List Chunk} (l : Loose s ps total end g todo) where
  -- Gap tracking leaves it as it is.
  pub Loose-Agrees : (h : GapBuffer) → Agrees g h → Loose s ps total end h todo
  Loose-Agrees h a = record {
    listening = a.same_listening ∙ l.listening;
    synced = a.same_synced ∙ l.synced;
    session_length = rw a.same_session l.session_length;
    follows = rw a.same_next l.follows;
    sum = rw (same-sent_bodies h.calls g.calls (a.same_messages [])) l.sum;
    filled = rw (a.same_slots, a.same_next) l.filled;
    split = rw a.same_next l.split;
    within = l.within;
  }

  -- A packet of the stream in its own slot: what was there before is the packet itself.
  same_number :
      (p : Chunk)
      → In p todo
      → p.seq < g.next_expected + capacity
      → (slot_of g p.seq).occupied ≡ true
      → (slot_of g p.seq).seq_num ≡ p.seq
  same_number p i near o =
      let (x, now, j, close, at, e) = l.filled (p.seq % capacity) o in
      let a : g.next_expected ≤ p.seq = Follows-le g.next_expected todo end p l.follows i in
      let b : g.next_expected ≤ x.seq = Follows-le g.next_expected todo end x l.follows j in
      ap (λ (slot : BufferedPacket). slot.seq_num) e ∙ omega (arith, near, close, at, a, b)

  pub buffer_packet-writes :
      (p : Chunk) (now : ℕ)
      → IsHoldable s p
      → In p todo
      → p.seq < g.next_expected + capacity
      → buffer_packet g (header_of s p.seq p.bodies) (datagram_of s p.seq p.bodies) now ≡ record g {
        slots = write_slot g.slots (p.seq % capacity) (filled_slot s p.seq p.bodies now);
      }
  unfolding buffer_packet
  buffer_packet-writes p now (d, small) i near =
      rw (drop-datagram_of s p.seq p.bodies d, take-all max_packet_bytes (frames p.bodies) small)
        (elim (Bool-cases (slot_of g p.seq).occupied) [
          | inl o ↦ ground (arith, same_number p i near o)
          | inr o ↦ ground (arith, o)
        ])

  -- The slot of a packet that is left to do, written.
  pub Loose-write :
      (p : Chunk) (now : ℕ)
      → In p todo
      → p.seq < g.next_expected + capacity
      → Loose s ps total end
          (record g {
            slots = write_slot g.slots (p.seq % capacity) (filled_slot s p.seq p.bodies now);
          })
          todo
  Loose-write p now i near = record {
    listening = l.listening;
    synced = l.synced;
    session_length = l.session_length;
    follows = l.follows;
    sum = l.sum;
    filled = λ k o. elim (Bool-cases (p.seq % capacity == k)) [
      | inl e ↦ (p, now, i, near, ground (arith, e), rw e refl)
      | inr e ↦ rw e (l.filled k (rw e at o))
    ];
    split = l.split;
    within = l.within;
  }

  pub Covers-write :
      (p : Chunk) (now : ℕ) (seen : ℕ → Bool)
      → In p todo
      → p.seq < g.next_expected + capacity
      → Covers g todo seen
      → Covers
          (record g {
            slots = write_slot g.slots (p.seq % capacity) (filled_slot s p.seq p.bodies now);
          })
          todo
          (λ k. p.seq == k || seen k)
  Covers-write p now seen i near c x j h = elim (Bool-cases (p.seq == x.seq)) [
    | inl e ↦ ground (arith, e)
    | inr e ↦ elim (Bool-cases (p.seq % capacity == x.seq % capacity)) [
      | inl same ↦
          let before : holds g x.seq ≡ true = c x j (ground (arith, h, e)) in
          let index : x.seq % capacity ≡ p.seq % capacity = ground (arith, same) in
          let there : (slot_of g p.seq).occupied && (slot_of g p.seq).seq_num == x.seq ≡ true =
            subst (λ k. (g.slots k).occupied && (g.slots k).seq_num == x.seq ≡ true) index before in
          absurd (ground (arith, there, e, same_number p i near (ground (arith, there))))
      | inr other ↦ rw other (c x j (ground (arith, h, e)))
    ]
  ]
