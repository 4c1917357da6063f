-- ===== src/GenPcap.antt =====
-- The generator of capture files in tools/gen_pcap.cpp, behind its command line.
pub mod Orders
pub mod Packets
pub mod Delivery
pub mod Progress
use udp_multicast_receiver.Common.{
  ℕ, zero, suc, ◌+◌, ◌-◌, Bool, not, ◌&&◌, List, [], ◌∷◌, ◌++◌, length, take, replicate, min, ltb,
  leb, ◌==◌, if◌then◌else◌, u16, u64,
}
use udp_multicast_receiver.Wire.Endian.{put_be16, put_be32, put_be64}
use udp_multicast_receiver.Wire.Mold.{MoldHeader, serialise}
use udp_multicast_receiver.Pcap.{PcapWriter, write_packet}

pub record Options : Type 0 where
  pub count : ℕ
  pub gap_at : ℕ
  pub gap_len : ℕ
  pub msgs_per_pkt : ℕ
  pub dup_at : ℕ
  pub rate_us : ℕ

abbrev pub default_options : Options
default_options = record {
  count = 10000;
  gap_at = 0;
  gap_len = 5;
  msgs_per_pkt = 1;
  dup_at = 0;
  rate_us = 100;
}

-- "AAPL    "
abbrev pub aapl : List ℕ
aapl = b'A' ∷ b'A' ∷ b'P' ∷ b'L' ∷ b' ' ∷ b' ' ∷ b' ' ∷ b' ' ∷ []

-- "SYNTHETIC "
abbrev pub synthetic : List ℕ
synthetic = b'S' ∷ b'Y' ∷ b'N' ∷ b'T' ∷ b'H' ∷ b'E' ∷ b'T' ∷ b'I' ∷ b'C' ∷ b' ' ∷ []

unfoldable pub make_add_order : ℕ → List ℕ
make_add_order order_ref =
    b'A'
    ∷ (replicate 10 0
        ++ (put_be64 order_ref ++ (b'B' ∷ (put_be32 100 ++ (aapl ++ put_be32 1_500_000)))))

-- The loop that appends the messages `seq + i` and on, `n` of them.
unfoldable pub msg_payload : ℕ → ℕ → List ℕ
msg_payload zero seq = []
msg_payload (suc n) seq =
    put_be16 (u16 (length (make_add_order seq)))
    ++ (make_add_order seq ++ msg_payload n (u64 (seq + 1)))

unfoldable pub gen_packet : ℕ → ℕ → List ℕ
gen_packet n seq =
    serialise (record { session = synthetic; seq_num = seq; msg_count = n }) ++ msg_payload n seq

pub record Generator : Type 0 where
  pub writer : PcapWriter
  pub seq : ℕ
  pub ts_us : ℕ
  pub msgs_written : ℕ

-- "Skip sequences in the gap."
unfoldable pub skip_gap : Options → ℕ → ℕ
skip_gap opt seq =
    if not (opt.gap_at == 0) && (leb opt.gap_at seq && ltb seq (u64 (opt.gap_at + opt.gap_len)))
    then u64 (seq + opt.gap_len)
    else seq

-- `n` of a round.
unfoldable pub round_count : Options → ℕ → ℕ
round_count opt msgs_written = u16 (min opt.msgs_per_pkt (opt.count - msgs_written))

-- One round of the loop. write_packet takes the payload's length as a uint16_t.
unfoldable pub gen_round : Options → Generator → Generator
gen_round opt st =
    let seq = skip_gap opt st.seq in
    let n = round_count opt st.msgs_written in
    let payload = take (u16 (length (gen_packet n seq))) (gen_packet n seq) in
    let once = (write_packet st.writer st.ts_us payload).0 in
    let later = u64 (st.ts_us + opt.rate_us) in
    let again = not (opt.dup_at == 0) && seq == opt.dup_at in
    record {
      writer = if again then (write_packet once later payload).0 else once;
      seq = u64 (seq + n);
      ts_us = if again then u64 (later + opt.rate_us) else later;
      msgs_written = u64 (st.msgs_written + n);
    }

-- The loop on fuel; with messages in every packet, `count` rounds are enough.
unfoldable pub gen_loop : ℕ → Options → Generator → Generator
gen_loop zero opt st = st
gen_loop (suc fuel) opt st =
    let rest = gen_loop fuel opt (gen_round opt st) in
    if ltb st.msgs_written opt.count then rest else st

-- `main` with a file that could be opened.
unfoldable pub generate : ℕ → Options → PcapWriter → PcapWriter
generate fuel opt writer =
    (gen_loop fuel opt
      (record { writer = writer; seq = 1; ts_us = 1_700_000_000_000_000; msgs_written = 0 })).writer
