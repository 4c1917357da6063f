-- ===== src/Pcap.antt =====
-- The capture files of include/feed/pcap_replay.hpp: PcapWriter, and PcapReader without its pacing.
-- A file is the list of its bytes.
pub mod Frames
pub mod Pacing
pub mod Replay
use udp_multicast_receiver.Common.{
  ℕ, zero, suc, ◌+◌, ◌*◌, ◌-◌, ◌/◌, ◌%◌, Bool, true, false, not, ◌&&◌, Option, none, some, List, [],
  ◌∷◌, ◌++◌, length, take, drop, get_or, replicate, ltb, ◌==◌, if◌then◌else◌, u8, u16, u32, u64,
}
use udp_multicast_receiver.Wire.Endian.{put_be16, load, store, bswap}
use udp_multicast_receiver.Wire.Mold.{MoldHeader, header_size, serialise}
use udp_multicast_receiver.Gap.State.{GapBuffer}
use udp_multicast_receiver.Gap.Ingest.{ingest}

-- The bytes of a PcapRecordHeader: four 32-bit integers of a little-endian host.
unfoldable pub record_header : ℕ → ℕ → List ℕ
record_header ts_us frame_len =
    store 4 (u32 (ts_us / 1_000_000))
    ++ (store 4 (u32 (ts_us % 1_000_000)) ++ (store 4 frame_len ++ store 4 frame_len))

-- The frame that write_packet builds: Ethernet, IPv4 and UDP headers, and the payload.
unfoldable pub frame_of : List ℕ → List ℕ
frame_of payload =
    let udp_len = u16 (8 + length payload) in
    let ip_len = u16 (20 + udp_len) in
    0xff
    ∷ 0xff
    ∷ 0xff
    ∷ 0xff
    ∷ 0xff
    ∷ 0xff
    ∷ 0
    ∷ 0
    ∷ 0
    ∷ 0
    ∷ 0
    ∷ 0
    ∷ 0x08
    ∷ 0x00
    ∷ 0x45
    ∷ 0
    ∷ (put_be16 ip_len
        ++ (put_be16 0
            ++ (put_be16 0
                ++ (64
                    ∷ 17
                    ∷ (put_be16 0
                        ++ (192
                            ∷ 168
                            ∷ 0
                            ∷ 1
                            ∷ 239
                            ∷ 1
                            ∷ 1
                            ∷ 1
                            ∷ (put_be16 15001
                                ++ (put_be16 15001
                                    ++ (put_be16 udp_len ++ (put_be16 0 ++ payload))))))))))

-- `file` is what has been written; `none` where it is not open.
pub record PcapWriter : Type 0 where
  pub file : Option (List ℕ)
  pub packets_written : ℕ

unfoldable pub write_packet : PcapWriter → ℕ → List ℕ → PcapWriter × Bool
write_packet w ts_us payload = elim w.file [
  | none ↦ (w, false)
  | some bytes ↦
      let frame_len = u16 (14 + u16 (20 + u16 (8 + length payload))) in
      (
        record {
          file =
              some (bytes ++ (record_header ts_us frame_len ++ take frame_len (frame_of payload)));
          packets_written = u64 (w.packets_written + 1);
        },
        true,
      )
]

unfoldable pub write_heartbeat : PcapWriter → ℕ → List ℕ → PcapWriter × Bool
write_heartbeat w ts_us session =
    write_packet w ts_us
      (serialise (record { session = take 10 session; seq_num = 0; msg_count = 0 }))

-- `msg_body` has at most 65513 bytes: the source's 16-bit total wraps beyond that.
unfoldable pub write_mold_packet : PcapWriter → ℕ → List ℕ → ℕ → ℕ → List ℕ → PcapWriter × Bool
write_mold_packet w ts_us session seq_num msg_count msg_body =
    let hdr : MoldHeader = record {
      session = take 10 session;
      seq_num = seq_num;
      msg_count = msg_count;
    } in
    if ltb 65507 (u16 (header_size + 2 + length msg_body))
    then (w, false)
    else write_packet w ts_us (serialise hdr ++ (put_be16 (length msg_body) ++ msg_body))

-- `uint16_t(p[i]) << 8 | p[i + 1]`
abbrev pub pair_at : List ℕ → ℕ → ℕ
pair_at p i = get_or p i 0 * 256 + get_or p (i + 1) 0

-- The IPv4 part of extract_udp. The payload is `len` bytes of the buffer, whether or not the frame
-- reaches that far.
unfoldable pub extract_ip : List ℕ → ℕ → Option (List ℕ × ℕ)
extract_ip ip remaining =
    let ihl = get_or ip 0 0 % 16 * 4 in
    let udp = drop ihl ip in
    let udp_len = pair_at udp 4 in
    if ltb remaining 20
    then none
    else if not (get_or ip 9 0 == 17)
    then none
    else if ltb remaining (ihl + 8)
    then none
    else if ltb udp_len 8
    then none
    else some (take (udp_len - 8) (drop 8 udp), pair_at udp 2)

-- `frame` is the buffer from the frame on. The result is the payload and the destination port.
unfoldable pub extract_udp : List ℕ → ℕ → Option (List ℕ × ℕ)
extract_udp frame frame_len =
    let ethertype = pair_at frame 12 in
    let ip = drop 14 frame in
    let remaining = frame_len - 14 in
    if ltb frame_len 14
    then none
    else if ethertype == 0x8100
    then (if ltb remaining 4
        then none
        else if pair_at ip 2 == 0x0800
        then extract_ip (drop 4 ip) (remaining - 4)
        else none)
    else (if ethertype == 0x0800 then extract_ip ip remaining else none)

pub record ReplayStats : Type 0 where
  pub packets_read : ℕ
  pub udp_packets : ℕ
  pub messages_ingested : ℕ
  pub truncated_skipped : ℕ
  pub non_udp_skipped : ℕ

abbrev pub no_replay : ReplayStats
no_replay = record {
  packets_read = 0;
  udp_packets = 0;
  messages_ingested = 0;
  truncated_skipped = 0;
  non_udp_skipped = 0;
}

abbrev pub frame_capacity : ℕ
frame_capacity = 65551

abbrev pub swapped32 : Bool → ℕ → ℕ
swapped32 swap v = if swap then bswap 4 v else v

abbrev pub added : ReplayStats → Option ℕ → ReplayStats
added st none = st
added st (some n) = record st { messages_ingested = u64 (st.messages_ingested + n) }

-- One packet of the file, behind the read of its frame.
unfoldable pub replay_frame : ℕ → List ℕ → ℕ → ℕ → GapBuffer → ReplayStats → GapBuffer × ReplayStats
replay_frame filter_port buffer incl pkt_ts_us g st =
    let skipped : ReplayStats = record st { non_udp_skipped = u64 (st.non_udp_skipped + 1) } in
    elim (extract_udp buffer incl) [
      | none ↦ (g, skipped)
      | some (payload, dst_port) ↦
          let r = ingest g payload (u64 (pkt_ts_us * 1000)) in
          if not (filter_port == 0) && not (dst_port == filter_port)
          then (g, skipped)
          else (r.0, added (record st { udp_packets = u64 (st.udp_packets + 1) }) r.1)
    ]

-- Between two rounds of the reader's loop: what is left of the file, frame_buf, and the buffer fed.
pub record Reading : Type 0 where
  pub file : List ℕ
  pub frame_buf : List ℕ
  pub gap_buf : GapBuffer
  pub stats : ReplayStats

-- One round of the loop, or `none` for its `break`.
unfoldable pub replay_round : ℕ → Bool → Reading → Option Reading
replay_round filter_port swap s =
    let ts_s = swapped32 swap (load 4 s.file) in
    let ts_us = swapped32 swap (load 4 (drop 4 s.file)) in
    let incl = swapped32 swap (load 4 (drop 8 s.file)) in
    let content = drop 16 s.file in
    let buffer = take incl content ++ drop incl s.frame_buf in
    let counted : ReplayStats = record s.stats { packets_read = u64 (s.stats.packets_read + 1) } in
    let r = replay_frame filter_port buffer incl (ts_s * 1_000_000 + ts_us) s.gap_buf counted in
    if ltb (length s.file) 16
    then none
    else if ltb frame_capacity incl
    then some (record s {
      file = drop incl content;
      stats = record s.stats { truncated_skipped = u64 (s.stats.truncated_skipped + 1) };
    })
    else if ltb (length content) incl
    then none
    else some (record { file = drop incl content; frame_buf = buffer; gap_buf = r.0; stats = r.1 })

-- The loop, on fuel: a round takes at least 16 bytes from the file, so its length is enough.
unfoldable pub replay_loop : ℕ → ℕ → Bool → Reading → Reading
replay_loop zero filter_port swap s = s
replay_loop (suc fuel) filter_port swap s = elim (replay_round filter_port swap s) [
  | none ↦ s
  | some t ↦ replay_loop fuel filter_port swap t
]

abbrev pub magic_le : ℕ
magic_le = 0xa1b2c3d4

abbrev pub magic_be : ℕ
magic_be = 0xd4c3b2a1

-- The 24 bytes of the PcapGlobalHeader.
unfoldable pub global_header : List ℕ
global_header =
    store 4 magic_le
    ++ (store 2 2 ++ (store 2 4 ++ (store 4 0 ++ (store 4 0 ++ (store 4 65535 ++ store 4 1)))))

-- A writer whose file could be opened.
unfoldable pub open_writer : PcapWriter
open_writer = record { file = some global_header; packets_written = 0 }

-- `replay` of a file that could be opened; `frame_buf` is what the uninitialised array holds.
unfoldable pub replay : ℕ → List ℕ → List ℕ → GapBuffer → Reading
replay filter_port bytes frame_buf g =
    let body : Reading = record {
      file = drop 24 bytes;
      frame_buf = frame_buf;
      gap_buf = g;
      stats = no_replay;
    } in
    let swap = load 4 bytes == magic_be in
    let read = replay_loop (length bytes) filter_port swap body in
    if ltb (length bytes) 24
    then body
    else if not (load 4 bytes == magic_le) && not swap
    then body
    else read
