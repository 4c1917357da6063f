-- ===== src/Runs/Stats.antt =====
-- Concrete samples and counts of include/feed/stats.hpp.
use udp_multicast_receiver.Common.{◌/◌, ◌^◌, ◌<◌, ◌≤◌, ◌≡◌, List, [], ◌∷◌, length, arith}
use udp_multicast_receiver.Stats.Samples.{SampleRecorder, Ranks, summarize}
use udp_multicast_receiver.Stats.Rank.{HasRank, IsRanks, summarize-HasRank}
use udp_multicast_receiver.Stats.Throughput.{window_of, msgs_per_sec}
use udp_multicast_receiver.Stats.Window.{
  Counted, tracked, recent, all_counted, Until, msgs_per_sec-recent,
}

abbrev recorder : SampleRecorder
recorder = record { samples = 700 ∷ 300 ∷ 900 ∷ 300 ∷ [] }

-- The ranks of four samples.
abbrev ranks : Ranks
ranks = record { k50 = 2; k90 = 4; k99 = 4; k999 = 4 }

ranks-IsRanks : IsRanks ranks 4
ranks-IsRanks = record {
  pos = omega arith;
  le_90 = omega arith;
  le_99 = omega arith;
  le_999 = omega arith;
  le_n = omega arith;
}

summarize-HasRank_example :
    let s = summarize recorder ranks in
    HasRank recorder.samples 1 s.min
    × HasRank recorder.samples ranks.k50 s.p50
    × HasRank recorder.samples ranks.k90 s.p90
    × HasRank recorder.samples ranks.k99 s.p99
    × HasRank recorder.samples ranks.k999 s.p999
    × HasRank recorder.samples (length recorder.samples) s.max
    × (s.min ≤ s.p50)
    × (s.p50 ≤ s.p90)
    × (s.p90 ≤ s.p99)
    × (s.p99 ≤ s.p999)
    × (s.p999 ≤ s.max)
    × (s.n ≡ length recorder.samples)
summarize-HasRank_example = summarize-HasRank recorder ranks ranks-IsRanks

-- 40 messages at one second, 60 five seconds later in the same slot, and 10 behind them.
abbrev counts : List Counted
counts =
    record { now_ns = 6_100_000_000; count = 10 }
    ∷ record { now_ns = 6_000_000_000; count = 60 }
    ∷ record { now_ns = 1_000_000_000; count = 40 }
    ∷ []

counts-Until : Until 6_200_000_000 counts
counts-Until = (omega arith, (omega arith, (omega arith, tt)))

counts-few : all_counted counts < 2 ^ 64
unfolding all_counted
counts-few = omega arith

msgs_per_sec-recent_example :
    msgs_per_sec (tracked counts) 6_200_000_000 ≡ recent (window_of 6_200_000_000) counts / 5
msgs_per_sec-recent_example =
    msgs_per_sec-recent counts 6_200_000_000 counts-Until (omega arith) counts-few
