-- ===== src/Gap/Deliver.antt =====
-- In-order delivery of include/feed/gap_buffer.hpp: deliver_packet and flush_buffer.
use udp_multicast_receiver.Common.{
  ℕ, zero, suc, ◌+◌, ◌%◌, true, false, List, [], ◌∷◌, ◌++◌, length, take, drop, ltb, leb,
  if◌then◌else◌, u64,
}
use udp_multicast_receiver.Wire.Endian.{be16}
use udp_multicast_receiver.Wire.Mold.{MoldHeader, MoldMessage, header_size, serialise}
use udp_multicast_receiver.Gap.State.{
  GapBuffer, BufferedPacket, Call, message, capacity, write_slot, slot_of, holds,
}

-- The loop of deliver_packet, with the rounds that `msg_count` leaves, `seq`, and the bytes from
-- `cursor` to `end`. The result is the messages that it hands to on_message, in order, and the
-- final `seq`.
unfoldable pub walk : ℕ → ℕ → ℕ → ℕ → List ℕ → List MoldMessage × ℕ
walk next recv_ns zero seq cursor = ([], seq)
walk next recv_ns (suc rounds) seq cursor =
    let msg_len = be16 cursor in
    let body = drop 2 cursor in
    let msg : MoldMessage = record {
      length = msg_len;
      body = take msg_len body;
      seq_num = seq;
      recv_ns = recv_ns;
    } in
    let rest = walk next recv_ns rounds (u64 (seq + 1)) (drop msg_len body) in
    if ltb (length cursor) 2
    then ([], seq)
    else if ltb (length body) msg_len
    then ([], seq)
    else if leb next seq
    then (msg ∷ rest.0, rest.1)
    else rest

-- on_message called on each message in turn.
abbrev pub log_messages : List MoldMessage → List Call → List Call
log_messages [] calls = calls
log_messages (m ∷ ms) calls = log_messages ms (message m ∷ calls)

-- Returns the buffer and the number of messages delivered.
unfoldable pub deliver_packet : GapBuffer → MoldHeader → List ℕ → ℕ → GapBuffer × ℕ
deliver_packet g hdr payload recv_ns =
    let (msgs, seq) =
      walk g.next_expected recv_ns hdr.msg_count hdr.seq_num (drop header_size payload) in
    let count = length msgs in
    (
      record g {
        next_expected = if ltb g.next_expected seq then seq else g.next_expected;
        stats = record g.stats { delivered = u64 (g.stats.delivered + count) };
        calls = if g.on_message then log_messages msgs g.calls else g.calls;
      },
      count,
    )

-- The packet that flush_buffer rebuilds from a slot.
unfoldable pub slot_header : GapBuffer → BufferedPacket → MoldHeader
slot_header g slot = record {
  session = g.session;
  seq_num = slot.seq_num;
  msg_count = slot.msg_count;
}

-- One round of flush_buffer, whose test has held.
unfoldable pub flush_round : GapBuffer → GapBuffer × ℕ
unfolding slot_header
flush_round g =
    let slot = slot_of g g.next_expected in
    let hdr = slot_header g slot in
    let (g', count) = deliver_packet g hdr (serialise hdr ++ slot.contents) slot.recv_ns in
    (
      record g' {
        slots =
            write_slot g'.slots (g.next_expected % capacity)
              (record (slot_of g' g.next_expected) { occupied = false });
      },
      count,
    )

-- The loop of flush_buffer, on fuel. `capacity` rounds are enough: see Gap.Flush.
unfoldable pub flush : ℕ → GapBuffer → ℕ → GapBuffer × ℕ
flush zero g count = (g, count)
flush (suc fuel) g count = elim (holds g g.next_expected) [
  | true ↦ let (g', n) = flush_round g in flush fuel g' (count + n)
  | false ↦ (g, count)
]

unfoldable pub flush_buffer : GapBuffer → GapBuffer × ℕ
flush_buffer g = flush capacity g 0
