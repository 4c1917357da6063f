-- ===== src/GenPcap/Progress.antt =====
-- How far the loop of tools/gen_pcap.cpp comes.
use udp_multicast_receiver.Common.{
  ℕ, zero, suc, ◌+◌, ◌*◌, ◌-◌, ◌^◌, ◌≤◌, ◌<◌, ◌≡◌, ◌∙◌, ap, min, arith,
}
use udp_multicast_receiver.Pcap.{PcapWriter}
use udp_multicast_receiver.GenPcap.{Options, Generator, round_count, gen_round, gen_loop}

module _ (opt : Options) (narrow : opt.msgs_per_pkt < 2 ^ 16) (fits : opt.count < 2 ^ 64) where
  gen_round-written :
      (st : Generator)
      → st.msgs_written ≤ opt.count
      → (gen_round opt st).msgs_written
        ≡ st.msgs_written + min opt.msgs_per_pkt (opt.count - st.msgs_written)
  unfolding gen_round round_count
  gen_round-written st below = omega (arith, narrow, fits)

  gen_loop-written_from :
      (fuel : ℕ) (st : Generator)
      → st.msgs_written ≤ opt.count
      → (gen_loop fuel opt st).msgs_written
        ≡ min opt.count (st.msgs_written + opt.msgs_per_pkt * fuel)
  unfolding gen_loop
  gen_loop-written_from zero st below = omega arith
  gen_loop-written_from (suc fuel) st below =
      let steps : opt.msgs_per_pkt * suc fuel ≡ opt.msgs_per_pkt + opt.msgs_per_pkt * fuel =
        omega arith in
      let round = gen_round-written st below in
      let rest = gen_loop-written_from fuel (gen_round opt st) (omega (arith, round)) in
      ground (arith, steps, round, rest)

-- For a count below 2 ^ 64 and a 16-bit number of messages in a packet: after `fuel` rounds the
-- loop has written that number times `fuel` messages, and at most `count`. With messages in every
-- packet it so reaches `count`, where it stops, within `count` rounds; with none it stays at 0 for
-- ever.
pub gen_loop-written :
    (opt : Options) (fuel : ℕ) (w : PcapWriter) (seq ts : ℕ)
    → opt.msgs_per_pkt < 2 ^ 16
    → opt.count < 2 ^ 64
    → (gen_loop fuel opt
        (record { writer = w; seq = seq; ts_us = ts; msgs_written = 0 })).msgs_written
      ≡ min opt.count (opt.msgs_per_pkt * fuel)
gen_loop-written opt fuel w seq ts narrow fits =
    gen_loop-written_from opt narrow fits fuel
      (record { writer = w; seq = seq; ts_us = ts; msgs_written = 0 }) (omega arith)
    ∙ ap (min opt.count) (omega arith)
