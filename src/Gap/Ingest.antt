-- ===== src/Gap/Ingest.antt =====
-- The entry points of include/feed/gap_buffer.hpp: ingest, tick and buffer_packet.
use udp_multicast_receiver.Common.{
  ℕ, ◌+◌, ◌%◌, true, not, ◌&&◌, Option, none, some, List, take, drop, ltb, ◌==◌, if◌then◌else◌, u64,
  sub64,
}
use udp_multicast_receiver.Wire.Mold.{MoldHeader, header_size, parse, is_heartbeat}
use udp_multicast_receiver.Gap.State.{
  GapBuffer, BufferedPacket, capacity, max_packet_bytes, write_slot, slot_of,
}
use udp_multicast_receiver.Gap.Deliver.{deliver_packet, flush_buffer}
use udp_multicast_receiver.Gap.Retransmit.{handle_gap, check_gap_timeout}

-- The copy takes at most `max_packet_bytes` of what follows the header.
unfoldable pub buffer_packet : GapBuffer → MoldHeader → List ℕ → ℕ → GapBuffer
buffer_packet g hdr payload now_ns =
    let slot = slot_of g hdr.seq_num in
    let filled : BufferedPacket = record {
      seq_num = hdr.seq_num;
      msg_count = hdr.msg_count;
      occupied = true;
      recv_ns = now_ns;
      contents = take max_packet_bytes (drop header_size payload);
    } in
    if slot.occupied && not (slot.seq_num == hdr.seq_num)
    then record g {
      stats = record g.stats { buffer_overflows = u64 (g.stats.buffer_overflows + 1) };
    }
    else record g { slots = write_slot g.slots (hdr.seq_num % capacity) filled }

-- "Sync session on first packet."
unfoldable pub sync_session : GapBuffer → MoldHeader → GapBuffer
sync_session g hdr =
    if g.next_expected == 0 && not g.session_synced
    then record g { session = hdr.session; next_expected = hdr.seq_num; session_synced = true }
    else g

-- `gap_start_` is cleared once `next_expected_` has passed it.
unfoldable pub clear_gap : GapBuffer → GapBuffer
clear_gap g =
    if not (g.gap_start == 0) && ltb g.gap_start g.next_expected
    then record g { gap_start = 0 }
    else g

unfoldable pub deliver_in_order : GapBuffer → MoldHeader → List ℕ → ℕ → GapBuffer × ℕ
deliver_in_order g hdr payload now_ns =
    let (after_packet, delivered) = deliver_packet g hdr payload now_ns in
    let (after_flush, flushed) = flush_buffer after_packet in
    (clear_gap after_flush, delivered + flushed)

unfoldable pub count_packet : GapBuffer → MoldHeader → GapBuffer
count_packet g hdr = record g {
  stats = record g.stats {
    packets = u64 (g.stats.packets + 1);
    messages = u64 (g.stats.messages + hdr.msg_count);
  };
}

unfoldable pub count_duplicate : GapBuffer → GapBuffer
count_duplicate g = record g {
  stats = record g.stats { duplicates = u64 (g.stats.duplicates + 1) };
}

unfoldable pub count_heartbeat : GapBuffer → GapBuffer
count_heartbeat g = record g {
  stats = record g.stats { heartbeats = u64 (g.stats.heartbeats + 1) };
}

-- `ingest` behind the heartbeat test.
unfoldable pub ingest_packet : GapBuffer → MoldHeader → List ℕ → ℕ → GapBuffer × ℕ
ingest_packet g hdr payload now_ns =
    let pkt_first = hdr.seq_num in
    let pkt_last = sub64 (pkt_first + hdr.msg_count) 1 in
    if ltb pkt_last g.next_expected
    then (count_duplicate g, 0)
    else if ltb g.next_expected pkt_first
    then (
      check_gap_timeout (buffer_packet (handle_gap g pkt_first now_ns) hdr payload now_ns) now_ns,
      0,
    )
    else deliver_in_order g hdr payload now_ns

-- `ingest` behind the parse of the header.
unfoldable pub ingest_parsed : GapBuffer → MoldHeader → List ℕ → ℕ → GapBuffer × ℕ
ingest_parsed g hdr payload now_ns =
    let synced = sync_session g hdr in
    if is_heartbeat hdr
    then (check_gap_timeout (count_heartbeat synced) now_ns, 0)
    else ingest_packet (count_packet synced hdr) hdr payload now_ns

-- The result is the number of messages delivered, or `none` for the -1 of a parse error.
unfoldable pub ingest : GapBuffer → List ℕ → ℕ → GapBuffer × Option ℕ
ingest g payload now_ns = elim (parse payload) [
  | none ↦ (g, none)
  | some hdr ↦ let (g', delivered) = ingest_parsed g hdr payload now_ns in (g', some delivered)
]

unfoldable pub tick : GapBuffer → ℕ → GapBuffer
tick g now_ns = check_gap_timeout g now_ns
