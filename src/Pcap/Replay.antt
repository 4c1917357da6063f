-- ===== src/Pcap/Replay.antt =====
-- Reading back what was written (include/feed/pcap_replay.hpp).
use udp_multicast_receiver.Common.{
  ℕ, zero, suc, ◌+◌, ◌*◌, ◌≤◌, ◌<◌, ◌≡◌, ◌∙◌, refl, ap, sym, Bool, false, none, some, List, [], ◌∷◌,
  ◌++◌, length, drop, take-all, length-append, append_assoc, append-nil, ltb, u16, u64, arith,
}
use udp_multicast_receiver.Wire.Endian.{load, store}
use udp_multicast_receiver.Gap.State.{GapBuffer}
use udp_multicast_receiver.Gap.Ingest.{ingest}
use udp_multicast_receiver.Pcap.{
  record_header, PcapWriter, write_packet, ReplayStats, no_replay, Reading, replay_round,
  replay_loop, replay, global_header, magic_le, open_writer,
}
use udp_multicast_receiver.Pcap.Frames.{
  frame_bytes, frame_of-lem, record_header_fields, Accepts, round_written,
}

-- The packets, each with its time in microseconds.
abbrev pub Packets : Type 0
Packets = List (ℕ × List ℕ)

unfoldable pub write_all : PcapWriter → Packets → PcapWriter
write_all w [] = w
write_all w ((ts, payload) ∷ ps) = write_all (write_packet w ts payload).0 ps

-- The packets through `ingest` without a file.
unfoldable pub feed_all : GapBuffer → Packets → GapBuffer
feed_all g [] = g
feed_all g ((ts, payload) ∷ ps) = feed_all (ingest g payload (ts * 1000)).0 ps

-- What the writer was opened with, or nothing.
abbrev pub file_bytes : PcapWriter → List ℕ
file_bytes w = elim w.file [ none ↦ [] | some bytes ↦ bytes ]

-- Payloads of at most 65493 bytes, and seconds that fit 32 bits.
abbrev pub Fit : Packets → Type 0
Fit [] = Unit {0}
Fit ((ts, payload) ∷ ps) = (length payload ≤ 65493) × (ts < 4294967296000000) × Fit ps

records : Packets → List ℕ
records [] = []
records ((ts, payload) ∷ ps) =
    record_header ts (42 + length payload) ++ (frame_bytes payload ++ records ps)

write_packet-file :
    (bytes : List ℕ) (n ts : ℕ) (payload : List ℕ)
    → length payload ≤ 65493
    → (write_packet (record { file = some bytes; packets_written = n }) ts payload).0 ≡ record {
      file = some (bytes ++ (record_header ts (42 + length payload) ++ frame_bytes payload));
      packets_written = u64 (n + 1);
    }
unfolding write_packet
write_packet-file bytes n ts payload h =
    let len : u16 (14 + u16 (20 + u16 (8 + length payload))) ≡ 42 + length payload = omega arith in
    rw
      (
        len,
        frame_of-lem payload h,
        take-all (42 + length payload) (frame_bytes payload) (omega arith),
      )
      refl

write_all-file :
    (bytes : List ℕ) (n : ℕ) (ps : Packets)
    → Fit ps
    → (write_all (record { file = some bytes; packets_written = n }) ps).file
      ≡ some (bytes ++ records ps)
unfolding write_all records
write_all-file bytes n [] f = ap some (sym (append-nil bytes))
write_all-file bytes n ((ts, payload) ∷ ps) f =
    let rec : List ℕ = record_header ts (42 + length payload) ++ frame_bytes payload in
    ap (λ w. (write_all w ps).file) (write_packet-file bytes n ts payload f.0)
    ∙ write_all-file (bytes ++ rec) (u64 (n + 1)) ps f.2
    ∙ ap some (
        append_assoc bytes rec (records ps)
        ∙ ap (λ x. bytes ++ x)
            (append_assoc (record_header ts (42 + length payload)) (frame_bytes payload)
              (records ps)))

loop_round :
    (fuel filter_port : ℕ) (swap : Bool) (s t : Reading)
    → replay_round filter_port swap s ≡ some t
    → replay_loop (suc fuel) filter_port swap s ≡ replay_loop fuel filter_port swap t
unfolding replay_loop
loop_round fuel filter_port swap s t e = rw (e, replay_loop) refl

read_all :
    (port : ℕ) (ps : Packets) (fuel : ℕ) (stale : List ℕ) (g : GapBuffer) (st : ReplayStats)
    → Accepts port
    → Fit ps
    → length (records ps) ≤ fuel
    → (replay_loop fuel port false
        (record { file = records ps; frame_buf = stale; gap_buf = g; stats = st })).gap_buf
      ≡ feed_all g ps
unfolding records feed_all replay_loop
read_all port [] zero stale g st a f h = refl
read_all port [] (suc fuel) stale g st a f h = unfold replay_round in refl
read_all port ((ts, payload) ∷ ps) zero stale g st a f h = absurd (
    omega (
      arith,
      (record_header_fields ts (42 + length payload) (frame_bytes payload ++ records ps)
          (omega (arith, f.0))).4,
    ))
read_all port ((ts, payload) ∷ ps) (suc fuel) stale g st a f h =
    let size =
      (record_header_fields ts (42 + length payload) (frame_bytes payload ++ records ps)
        (omega (arith, f.0))).4 in
    ap (λ r. r.gap_buf)
      (loop_round fuel port false _ _
        (round_written port a ts payload f.0 f.1 (records ps) stale g st))
    ∙ read_all port ps fuel _ _ _ a f.2
        (omega (arith, size, length-append (frame_bytes payload) (records ps)))

global_header_fields :
    (rest : List ℕ)
    → (load 4 (global_header ++ rest) ≡ magic_le)
      × (drop 24 (global_header ++ rest) ≡ rest)
      × (length (global_header ++ rest) ≡ 24 + length rest)
unfolding global_header store load
global_header_fields rest = (refl, refl, omega arith)

replay_body :
    (port : ℕ) (bytes content stale : List ℕ) (g : GapBuffer)
    → load 4 bytes ≡ magic_le
    → drop 24 bytes ≡ content
    → ltb (length bytes) 24 ≡ false
    → replay port bytes stale g
      ≡ replay_loop
          (length bytes)
          port
          false
          (record { file = content; frame_buf = stale; gap_buf = g; stats = no_replay })
unfolding replay
replay_body port bytes content stale g magic body long = rw (magic, body, long) refl

-- Writing any packets to a new capture file, with payloads of at most 65493 bytes and times whose
-- seconds fit 32 bits, and replaying that file with no port filter or with the writer's port 15001
-- leaves the buffer as if each payload had been given to `ingest` in that order, with its time in
-- nanoseconds; what the reader's frame buffer held before does not matter.
pub replay-write_all :
    (port : ℕ) (ps : Packets) (stale : List ℕ) (g : GapBuffer)
    → Accepts port
    → Fit ps
    → (replay port (file_bytes (write_all open_writer ps)) stale g).gap_buf ≡ feed_all g ps
unfolding open_writer
replay-write_all port ps stale g a f =
    let bytes : List ℕ = global_header ++ records ps in
    let (magic, body, size) = global_header_fields (records ps) in
    rw (write_all-file global_header 0 ps f) (
      ap (λ r. r.gap_buf)
        (replay_body port bytes (records ps) stale g magic body (ground (arith, size)))
      ∙ read_all port ps (length bytes) stale g no_replay a f (omega (arith, size)))
