-- ===== src/Pcap/Frames.antt =====
-- One record of a capture file, as include/feed/pcap_replay.hpp writes it and reads it.
use udp_multicast_receiver.Common.{
  ℕ, ◌+◌, ◌*◌, ◌/◌, ◌%◌, ◌^◌, ◌≤◌, ◌<◌, ◌≡◌, ◌∙◌, refl, ap, false, not, ◌&&◌, ◌==◌, ◌⊎◌, inl, inr,
  some, List, [], ◌∷◌, ◌++◌, length, take, drop, take-append, drop-append, length-append, ltb, u16,
  u32, u64, arith,
}
use udp_multicast_receiver.Wire.Endian.{put_be16, load, store, bswap}
use udp_multicast_receiver.Wire.Endian.RoundTrip.{length-store, load-append, load-store}
use udp_multicast_receiver.Gap.State.{GapBuffer}
use udp_multicast_receiver.Gap.Ingest.{ingest}
use udp_multicast_receiver.Pcap.{
  record_header, frame_of, extract_ip, extract_udp, ReplayStats, frame_capacity, added,
  replay_frame, Reading, replay_round,
}

put_be16_bytes : (v : ℕ) → put_be16 v ≡ v / 256 % 256 ∷ v % 256 ∷ []
unfolding put_be16 store bswap load
put_be16_bytes v =
    let low : (v / 256 % 256 + 256 * (v % 256 + 256 * 0)) % 256 ≡ v / 256 % 256 = omega arith in
    let high : (v / 256 % 256 + 256 * (v % 256 + 256 * 0)) / 256 % 256 ≡ v % 256 = omega arith in
    ap (λ x. x ∷ (v / 256 % 256 + 256 * (v % 256 + 256 * 0)) / 256 % 256 ∷ []) low
    ∙ ap (λ y. v / 256 % 256 ∷ y ∷ []) high

-- The frame of a payload that fits an IPv4 datagram.
abbrev pub frame_bytes : List ℕ → List ℕ
frame_bytes payload =
    let udp_len = 8 + length payload in
    let ip_len = 28 + length payload in
    0xff
    ∷ 0xff
    ∷ 0xff
    ∷ 0xff
    ∷ 0xff
    ∷ 0xff
    ∷ 0
    ∷ 0
    ∷ 0
    ∷ 0
    ∷ 0
    ∷ 0
    ∷ 0x08
    ∷ 0x00
    ∷ 0x45
    ∷ 0
    ∷ ip_len / 256 % 256
    ∷ ip_len % 256
    ∷ 0
    ∷ 0
    ∷ 0
    ∷ 0
    ∷ 64
    ∷ 17
    ∷ 0
    ∷ 0
    ∷ 192
    ∷ 168
    ∷ 0
    ∷ 1
    ∷ 239
    ∷ 1
    ∷ 1
    ∷ 1
    ∷ 58
    ∷ 153
    ∷ 58
    ∷ 153
    ∷ udp_len / 256 % 256
    ∷ udp_len % 256
    ∷ 0
    ∷ 0
    ∷ payload

pub frame_of-lem :
    (payload : List ℕ) → length payload ≤ 65493 → frame_of payload ≡ frame_bytes payload
unfolding frame_of
frame_of-lem payload h =
    let udp : u16 (8 + length payload) ≡ 8 + length payload = omega arith in
    let ip : u16 (20 + (8 + length payload)) ≡ 28 + length payload = omega arith in
    rw
      (
        udp,
        ip,
        put_be16_bytes (28 + length payload),
        put_be16_bytes (8 + length payload),
        put_be16_bytes 0,
        put_be16_bytes 15001,
      )
      refl

-- The payload of a frame is found again, whatever stands behind the frame in the buffer.
extract_udp-frame :
    (payload stale : List ℕ)
    → length payload ≤ 65493
    → extract_udp (frame_bytes payload ++ stale) (42 + length payload) ≡ some (payload, 15001)
unfolding extract_udp extract_ip
extract_udp-frame payload stale h = ground (arith, take-append (length payload) payload stale refl)

length-frame_bytes : (payload : List ℕ) → length (frame_bytes payload) ≡ 42 + length payload
length-frame_bytes payload = omega arith

-- The four fields of a record's header, and what follows it.
pub record_header_fields :
    (ts n : ℕ) (rest : List ℕ)
    → n < 2 ^ 32
    → (load 4 (record_header ts n ++ rest) ≡ u32 (ts / 1_000_000))
      × (load 4 (drop 4 (record_header ts n ++ rest)) ≡ u32 (ts % 1_000_000))
      × (load 4 (drop 8 (record_header ts n ++ rest)) ≡ n)
      × (drop 16 (record_header ts n ++ rest) ≡ rest)
      × (length (record_header ts n ++ rest) ≡ 16 + length rest)
unfolding record_header store
record_header_fields ts n rest h =
    let field : (v : ℕ) (more : List ℕ) → v < 2 ^ 32 → load 4 (store 4 v ++ more) ≡ v = λ v more k.
      load-append 4 (store 4 v) more (length-store 4 v) ∙ load-store 4 v (omega arith) in
    (
      field (u32 (ts / 1_000_000)) _ (omega arith),
      field (u32 (ts % 1_000_000)) _ (omega arith),
      field n _ h,
      refl,
      omega arith,
    )

round_parts :
    (port a b n : ℕ) (content : List ℕ) (s : Reading)
    → load 4 s.file ≡ a
    → load 4 (drop 4 s.file) ≡ b
    → load 4 (drop 8 s.file) ≡ n
    → drop 16 s.file ≡ content
    → ltb (length s.file) 16 ≡ false
    → ltb frame_capacity n ≡ false
    → ltb (length content) n ≡ false
    → let buffer = take n content ++ drop n s.frame_buf in
      let counted : ReplayStats = record s.stats {
        packets_read = u64 (s.stats.packets_read + 1);
      } in
      let r = replay_frame port buffer n (a * 1_000_000 + b) s.gap_buf counted in
      replay_round port false s
      ≡ some (record { file = drop n content; frame_buf = buffer; gap_buf = r.0; stats = r.1 })
unfolding replay_round
round_parts port a b n content s ea eb en ec long small whole =
    rw (ea, eb, en, ec, long, small, whole) refl

-- A port filter that lets the writer's packets through: none, or the port that it writes.
abbrev pub Accepts : ℕ → Type 0
Accepts port = (port ≡ 0) ⊎ (port ≡ 15001)

accepted : (port : ℕ) → Accepts port → (not (port == 0) && not (15001 == port)) ≡ false
accepted port (inl e) = rw e refl
accepted port (inr e) = rw e refl

-- The reader's treatment of a frame that the writer built.
replay_frame_written :
    (port : ℕ) (payload stale : List ℕ) (clock : ℕ) (g : GapBuffer) (st : ReplayStats)
    → Accepts port
    → length payload ≤ 65493
    → replay_frame port (frame_bytes payload ++ stale) (42 + length payload) clock g st ≡ (
      (ingest g payload (u64 (clock * 1000))).0,
      added
          (record st { udp_packets = u64 (st.udp_packets + 1) })
          (ingest g payload (u64 (clock * 1000))).1,
    )
unfolding replay_frame
replay_frame_written port payload stale clock g st a h =
    rw (extract_udp-frame payload stale h, replay_frame, accepted port a) refl

module _ (port : ℕ) (accepts : Accepts port) (ts : ℕ) (payload : List ℕ)
    (fits : length payload ≤ 65493) (time : ts < 4294967296000000) where
  -- The reader's round on a record that the writer wrote.
  pub round_written :
      (more stale : List ℕ) (g : GapBuffer) (st : ReplayStats)
      → replay_round port false (record {
        file = record_header ts (42 + length payload) ++ (frame_bytes payload ++ more);
        frame_buf = stale;
        gap_buf = g;
        stats = st;
      })
        ≡ some (record {
          file = more;
          frame_buf = frame_bytes payload ++ drop (42 + length payload) stale;
          gap_buf = (ingest g payload (ts * 1000)).0;
          stats =
              added
                (record st {
                  packets_read = u64 (st.packets_read + 1);
                  udp_packets = u64 (st.udp_packets + 1);
                })
                (ingest g payload (ts * 1000)).1;
        })
  round_written more stale g st =
      let n : ℕ = 42 + length payload in
      let content : List ℕ = frame_bytes payload ++ more in
      let (fa, fb, fn, fc, fl) = record_header_fields ts n content (omega arith) in
      let clock : u64 ((u32 (ts / 1_000_000) * 1_000_000 + u32 (ts % 1_000_000)) * 1000)
          ≡ ts * 1000 =
        omega arith in
      let size : length (frame_bytes payload) ≡ n = length-frame_bytes payload in
      let s : Reading = record {
        file = record_header ts n ++ content;
        frame_buf = stale;
        gap_buf = g;
        stats = st;
      } in
      round_parts port (u32 (ts / 1_000_000)) (u32 (ts % 1_000_000)) n content s fa fb fn fc
        (ground (arith, fl)) (ground arith)
        (ground (arith, length-append (frame_bytes payload) more))
      ∙ rw
          (
            take-append n (frame_bytes payload) more size,
            drop-append n (frame_bytes payload) more size,
            replay_frame_written port payload (drop n stale)
                (u32 (ts / 1_000_000) * 1_000_000 + u32 (ts % 1_000_000)) g
                (record st { packets_read = u64 (st.packets_read + 1) }) accepts fits,
            clock,
          )
          refl
