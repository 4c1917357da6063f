-- ===== src/Runs/Client.antt =====
-- Concrete runs of include/feed/feed_arbitrator.hpp, decision_engine.hpp, stats.hpp and
-- pcap_replay.hpp.
use udp_multicast_receiver.Common.{
  inr, ℕ, ◌+◌, ◌/◌, ◌^◌, ◌<◌, ◌≤◌, ◌-◌, ◌≡◌, ◌⊎◌, refl, true, false, some, List, [], ◌∷◌, length,
  replicate, u64, arith,
}
use udp_multicast_receiver.Gap.State.{GapBuffer, default_config, init, empty_slot, no_stats}
use udp_multicast_receiver.Wire.Endian.{put_be16, put_be64}
use udp_multicast_receiver.Wire.Mold.{serialise}
use udp_multicast_receiver.Gap.Framing.{datagram_of, frames, IsDatagram}
use udp_multicast_receiver.Arbitrator.{line_a, line_b, FeedArbitrator, arbitrate}
use udp_multicast_receiver.Arbitrator.Merge.{
  Arrival, run_lines, run_packets, both_lines, run_lines-merge,
}
use udp_multicast_receiver.Stats.{percentile}
use udp_multicast_receiver.Stats.Buckets.{recorded, count_below}
use udp_multicast_receiver.Stats.Histogram.{percentile-bounds}
use udp_multicast_receiver.Book.Order.{PriceLevel, TopOfBook, crossed}
use udp_multicast_receiver.Decision.{
  DecisionEngine, Decision, default_quotes, engine_of, spread_of, decide, quote, on_top_of_book,
}
use udp_multicast_receiver.Decision.Quote.{IsSane, on_top_of_book-inside}
use udp_multicast_receiver.Pcap.{open_writer, replay}
use udp_multicast_receiver.Pcap.Replay.{Packets, write_all, feed_all, file_bytes, replay-write_all}

abbrev spaces : List ℕ
spaces = replicate 10 b' '

abbrev one : List (List ℕ)
one = (b'S' ∷ b'C' ∷ []) ∷ []

-- The same datagram from both lines.
abbrev copies : List Arrival
copies =
    record { line = line_a; payload = datagram_of spaces 1 one; now_ns = 100 }
    ∷ record { line = line_b; payload = datagram_of spaces 1 one; now_ns = 120 }
    ∷ []

abbrev fresh : FeedArbitrator
fresh = arbitrate (init default_config)

run_lines-merge_example :
    ((run_lines fresh copies).gap_buf ≡ (run_packets fresh.gap_buf copies).0)
    × (u64 (both_lines (run_lines fresh copies).packets)
        ≡ u64 (both_lines fresh.packets + length copies))
    × (u64 (both_lines (run_lines fresh copies).seq_won)
        ≡ u64 (both_lines fresh.seq_won + (run_packets fresh.gap_buf copies).1))
run_lines-merge_example = run_lines-merge fresh copies

-- A buffer that has delivered message 1.
abbrev past_one : GapBuffer
past_one = record {
  cfg = default_config;
  session = spaces;
  session_synced = true;
  next_expected = 2;
  gap_start = 0;
  gap_detected_at_ns = 0;
  gap_last_retx_ns = 0;
  on_message = true;
  on_gap = false;
  on_retx = false;
  slots = λ _. empty_slot;
  stats = no_stats;
  calls = [];
}

one-IsDatagram : IsDatagram spaces 1 one
one-IsDatagram = record {
  session_length = refl;
  bodies_fit = (omega arith, tt);
  some_body = omega arith;
  count_fits = omega arith;
  seq_fits = omega arith;
}

abbrev second_line : FeedArbitrator
second_line = record {
  gap_buf = past_one;
  packets = record { a = 1; b = 0 };
  seq_won = record { a = 1; b = 0 };
  redundant = record { a = 0; b = 0 };
  last_win_ns = record { a = 100; b = 0 };
}

abbrev samples : List ℕ
samples = 900 ∷ 1500 ∷ 0 ∷ 640 ∷ []

percentile-bounds_example :
    let p = percentile (recorded samples) 2 in
    ((p ≡ 2 ^ 64 - 1) ⊎ (2 < count_below p samples)) × ((p ≡ 2) ⊎ (count_below (p / 2) samples ≤ 2))
percentile-bounds_example =
    percentile-bounds samples 2 (omega arith, (omega arith, (omega arith, (omega arith, tt))))
      (omega arith) (omega arith)

abbrev engine : DecisionEngine
engine = record (engine_of default_quotes) { on_decision = true }

abbrev bid : PriceLevel
bid = record { price = 1000000; shares = 300; orders = 2 }

abbrev ask : PriceLevel
ask = record { price = 1000500; shares = 100; orders = 1 }

abbrev wide_top : TopOfBook
wide_top = record { bid = some bid; ask = some ask }

sane : IsSane engine bid ask
sane = record {
  tick_pos = omega arith;
  one_tick = omega arith;
  threshold_fits = omega arith;
  bid_fits = omega arith;
  ask_fits = omega arith;
}

abbrev decision : Decision
decision = record {
  symbol = b'A' ∷ [];
  price = 1000100;
  shares = 100;
  side = b'B';
  recv_ns = 10;
  decided_ns = 50;
}

decided : (on_top_of_book engine (b'A' ∷ []) wide_top 10 50).1 ≡ some decision
unfolding on_top_of_book
decided = unfold quote decide spread_of in refl

on_top_of_book-inside_example : (bid.price < decision.price) × (decision.price < ask.price)
on_top_of_book-inside_example =
    on_top_of_book-inside engine (b'A' ∷ []) bid ask 10 50 decision sane decided

abbrev crossed_top : TopOfBook
crossed_top = record { bid = some ask; ask = some bid }

is_crossed : crossed crossed_top ≡ true
is_crossed = unfold crossed in refl

abbrev captured : Packets
captured =
    (1_700_000_000_000_001, datagram_of spaces 1 one) ∷ (1_700_000_000_250_000, 1 ∷ 2 ∷ 3 ∷ []) ∷ []

datagram_size : length (datagram_of spaces 1 one) ≤ 65493
unfolding datagram_of
datagram_size = unfold serialise frames put_be16 put_be64 in omega arith

replay-write_all_example :
    (replay 15001 (file_bytes (write_all open_writer captured)) [] (init default_config)).gap_buf
    ≡ feed_all (init default_config) captured
replay-write_all_example =
    replay-write_all 15001 captured [] (init default_config) (inr refl)
      (datagram_size, omega arith, (omega arith, omega arith, tt))
