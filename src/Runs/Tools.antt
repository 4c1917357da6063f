-- ===== src/Runs/Tools.antt =====
-- Concrete options of tools/gen_pcap.cpp, a paced replay, and rounds of
-- tools/tick_to_trade_bench.cpp.
use udp_multicast_receiver.Common.{ℕ, ◌+◌, ◌*◌, ◌≡◌, refl, min, List, [], ◌∷◌, length, arith}
use udp_multicast_receiver.Gap.Flow.{Flowing}
use udp_multicast_receiver.Pcap.{open_writer}
use udp_multicast_receiver.Pcap.Pacing.{Pacing}
use udp_multicast_receiver.GenPcap.{Options, default_options, gen_loop}
use udp_multicast_receiver.GenPcap.Packets.{IsPlain}
use udp_multicast_receiver.GenPcap.Progress.{gen_loop-written}
use udp_multicast_receiver.Bench.{Round, bench_start, bench_loop}
use udp_multicast_receiver.Bench.Delivery.{direct, bodies_of, bench_loop-direct}

-- 25 messages in packets of 10, and the packet that starts at 11 twice.
abbrev options : Options
options = record default_options { count = 25; msgs_per_pkt = 10; dup_at = 11 }

options-IsPlain : IsPlain options
options-IsPlain = record {
  no_gap = refl;
  some_messages = omega arith;
  few_messages = omega arith;
  count_fits = omega arith;
}

-- Two rounds write 20 of the 25 messages.
gen_loop-written_example :
    (gen_loop 2 options
      (record { writer = open_writer; seq = 1; ts_us = 0; msgs_written = 0 })).msgs_written
    ≡ min 25 (10 * 2)
gen_loop-written_example = gen_loop-written options 2 open_writer 1 0 (omega arith) (omega arith)

-- An Add, a second Add of the other side, a Cancel and a Delete.
abbrev draw : ℕ → ℕ → Round
draw op t = record {
  sym_idx = 0;
  op = op;
  price_jitter = 7;
  pick = 5;
  t0 = t;
  decided = t + 20;
  t1 = t + 50;
}

abbrev draws : List Round
draws = draw 1 1100 ∷ draw 6 1200 ∷ draw 9 1300 ∷ []

bench_loop-direct_example :
    let end = bench_loop 1 0 bench_start (draw 0 1000 ∷ draws) in
    (end.pipeline ≡ direct 1 0 1 bench_start.pipeline bench_start.workload (draw 0 1000 ∷ draws))
    × Flowing end.gap_buf
        (1 + length (draw 0 1000 ∷ draws))
        (bodies_of bench_start.workload (draw 0 1000 ∷ draws))
bench_loop-direct_example = bench_loop-direct 1 (draw 0 1000) draws (omega arith)

-- Ten times as fast, and the second packet is a microsecond earlier than the first.
abbrev paced : Pacing
paced = record { first_ts_us = 1_700_000_000_000_000; first_real_ns = 5_000_000_000 }
