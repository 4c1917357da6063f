-- ===== src/Gap/Inv/Deliver.antt =====
-- Delivery keeps what holds in the middle of a call.
use udp_multicast_receiver.Common.{
  ℕ, zero, suc, ◌+◌, ◌^◌, ◌≤◌, ◌<◌, ◌≡◌, refl, ◌∙◌, inl, inr, true, List, ◌++◌, drop, u64,
  Bool-cases, arith,
}
use udp_multicast_receiver.Wire.Mold.{MoldHeader, header_size, serialise}
use udp_multicast_receiver.Gap.State.{GapBuffer, BufferedPacket, capacity, slot_of, holds}
use udp_multicast_receiver.Gap.Deliver.{
  walk, deliver_packet, slot_header, flush_round, flush, flush_buffer,
}
use udp_multicast_receiver.Gap.Trace.{EndsAt, message_count, message_count-log_messages}
use udp_multicast_receiver.Gap.Walk.{walk_bounds, walk_continues}
use udp_multicast_receiver.Gap.Inv.{IsSound}

module _ (g : GapBuffer) (hdr : MoldHeader) (payload : List ℕ) (recv : ℕ) where
  -- What delivery leaves alone, and that `next_expected` never goes down.
  pub deliver_packet_frame :
      ((deliver_packet g hdr payload recv).0.slots ≡ g.slots)
      × ((deliver_packet g hdr payload recv).0.gap_start ≡ g.gap_start)
      × ((deliver_packet g hdr payload recv).0.session_synced ≡ g.session_synced)
      × (g.next_expected ≤ (deliver_packet g hdr payload recv).0.next_expected)
  unfolding deliver_packet
  deliver_packet_frame = (refl, refl, refl, ground arith)

  module _ (s : IsSound g) (old : hdr.seq_num ≤ g.next_expected)
      (fit : hdr.seq_num + hdr.msg_count < 2 ^ 64) where
    deliver_packet-EndsAt :
        EndsAt
          (deliver_packet g hdr payload recv).0.next_expected
          (deliver_packet g hdr payload recv).0.calls
    unfolding deliver_packet
    deliver_packet-EndsAt = rw s.listening (
        walk_continues g.next_expected recv hdr.msg_count hdr.seq_num g.next_expected _
          (drop header_size payload) g.calls fit (ground arith) refl s.in_order)

    deliver_packet-counted :
        (deliver_packet g hdr payload recv).0.stats.delivered
        ≡ u64 (message_count (deliver_packet g hdr payload recv).0.calls)
    unfolding deliver_packet
    deliver_packet-counted = rw s.listening (
        omega (
          arith,
          s.counted,
          message_count-log_messages
              (walk g.next_expected recv hdr.msg_count hdr.seq_num (drop header_size payload)).0
              g.calls,
        ))

    deliver_packet-next_lt : (deliver_packet g hdr payload recv).0.next_expected < 2 ^ 64
    unfolding deliver_packet
    deliver_packet-next_lt = ground (
      arith,
      s.next_lt,
      walk_bounds g.next_expected recv hdr.msg_count hdr.seq_num (drop header_size payload) fit,
    )

    -- A packet that starts no later than `next_expected` is delivered soundly.
    pub deliver_packet-IsSound :
        g.session_synced ≡ true → IsSound (deliver_packet g hdr payload recv).0
    unfolding deliver_packet
    deliver_packet-IsSound synced = record {
      listening = s.listening;
      session_length = s.session_length;
      next_lt = deliver_packet-next_lt;
      fits = s.fits;
      fresh = λ u. absurd (cc);
      vacant = λ u. absurd (cc);
      in_order = deliver_packet-EndsAt;
      counted = deliver_packet-counted;
    }

-- What a later state keeps of an earlier one through delivery.
pub record IsAfter (g h : GapBuffer) : Type 0 where
  pub sound : IsSound h
  pub synced : h.session_synced ≡ true
  pub same_gap : h.gap_start ≡ g.gap_start
  pub forward : g.next_expected ≤ h.next_expected

flush_round-fits :
    (g : GapBuffer) (i : ℕ)
    → IsSound g
    → ((flush_round g).0.slots i).occupied ≡ true
    → ((flush_round g).0.slots i).seq_num + ((flush_round g).0.slots i).msg_count < 2 ^ 64
unfolding flush_round deliver_packet
flush_round-fits g i s o = ground (arith, s.fits i)

-- A round of flush_buffer delivers the packet that starts at `next_expected`.
flush_round-IsAfter :
    (g : GapBuffer)
    → IsSound g
    → g.session_synced ≡ true
    → holds g g.next_expected ≡ true
    → IsAfter g (flush_round g).0
unfolding flush_round slot_header
flush_round-IsAfter g s y h =
    let slot : BufferedPacket = slot_of g g.next_expected in
    let hdr : MoldHeader = slot_header g slot in
    let at : slot.seq_num ≡ g.next_expected = ground arith in
    let d : IsSound (deliver_packet g hdr (serialise hdr ++ slot.contents) slot.recv_ns).0 =
      deliver_packet-IsSound g hdr _ _ s (omega arith) (s.fits _ (ground arith)) y in
    let frame = deliver_packet_frame g hdr (serialise hdr ++ slot.contents) slot.recv_ns in
    record {
      sound = record {
        listening = d.listening;
        session_length = d.session_length;
        next_lt = d.next_lt;
        fits = λ i. flush_round-fits g i s;
        fresh = λ u. absurd (cc);
        vacant = λ u. absurd (cc);
        in_order = d.in_order;
        counted = d.counted;
      };
      synced = frame.2 ∙ y;
      same_gap = frame.1;
      forward = frame.3;
    }

flush-IsAfter :
    (fuel : ℕ) (g : GapBuffer) (count : ℕ)
    → IsSound g
    → g.session_synced ≡ true
    → IsAfter g (flush fuel g count).0
unfolding flush
flush-IsAfter zero g count s y = record {
  sound = s;
  synced = y;
  same_gap = refl;
  forward = omega arith;
}
flush-IsAfter (suc fuel) g count s y = elim (Bool-cases (holds g g.next_expected)) [
  | inl t ↦
      let a : IsAfter g (flush_round g).0 = flush_round-IsAfter g s y t in
      let b : IsAfter (flush_round g).0
          (flush fuel (flush_round g).0 (count + (flush_round g).1)).0 =
        flush-IsAfter fuel (flush_round g).0 _ a.sound a.synced in
      rw (t, flush)
        (record {
          sound = b.sound;
          synced = b.synced;
          same_gap = b.same_gap ∙ a.same_gap;
          forward = omega (arith, a.forward, b.forward);
        })
  | inr f ↦ rw (f, flush) (record { sound = s; synced = y; same_gap = refl; forward = omega arith })
]

pub flush_buffer-IsAfter :
    (g : GapBuffer) → IsSound g → g.session_synced ≡ true → IsAfter g (flush_buffer g).0
unfolding flush_buffer
flush_buffer-IsAfter g s y = flush-IsAfter capacity g 0 s y
