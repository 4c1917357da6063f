-- ===== src/Arbitrator.antt =====
-- include/feed/feed_arbitrator.hpp: lines A and B of one feed, through one GapBuffer.
pub mod Merge
pub mod Cover
use udp_multicast_receiver.Common.{
  ℕ, ◌+◌, Bool, true, false, Option, none, some, List, ltb, ◌==◌, if◌then◌else◌, u64, sub64,
}
use udp_multicast_receiver.Gap.State.{GapBuffer}
use udp_multicast_receiver.Gap.Ingest.{ingest, tick}

pub data FeedLine : Type 0 where
  line_a line_b : FeedLine

-- An array of two counters, one for each line.
pub record PerLine : Type 0 where
  pub a : ℕ
  pub b : ℕ

abbrev pub at_line : PerLine → FeedLine → ℕ
at_line p line_a = p.a
at_line p line_b = p.b

abbrev pub set_line : PerLine → FeedLine → ℕ → PerLine
set_line p line_a n = record p { a = n }
set_line p line_b n = record p { b = n }

-- `gap_buf` is the shared buffer itself: the arbitrator holds a reference to it.
pub record FeedArbitrator : Type 0 where
  pub gap_buf : GapBuffer
  pub packets : PerLine
  pub seq_won : PerLine
  pub redundant : PerLine
  pub last_win_ns : PerLine

abbrev pub no_counts : PerLine
no_counts = record { a = 0; b = 0 }

unfoldable pub arbitrate : GapBuffer → FeedArbitrator
arbitrate g = record {
  gap_buf = g;
  packets = no_counts;
  seq_won = no_counts;
  redundant = no_counts;
  last_win_ns = no_counts;
}

-- `++counts[line]`
abbrev pub bump : PerLine → FeedLine → PerLine
bump p line = set_line p line (u64 (at_line p line + 1))

-- The bookkeeping behind the call of the shared buffer.
unfoldable pub attribute : FeedArbitrator → FeedLine → Option ℕ → ℕ → FeedArbitrator
attribute arb line none now_ns = arb
attribute arb line (some delivered) now_ns =
    if ltb 0 delivered
    then record arb {
      seq_won = set_line arb.seq_won line (u64 (at_line arb.seq_won line + delivered));
      last_win_ns = set_line arb.last_win_ns line now_ns;
    }
    else record arb { redundant = bump arb.redundant line }

-- `none` stands for -1, as in `ingest`.
unfoldable pub ingest_line : FeedArbitrator → FeedLine → List ℕ → ℕ → FeedArbitrator × Option ℕ
ingest_line arb line payload now_ns =
    let (g, delivered) = ingest arb.gap_buf payload now_ns in
    (
      attribute (record arb { packets = bump arb.packets line; gap_buf = g }) line delivered now_ns,
      delivered,
    )

unfoldable pub tick_arbitrator : FeedArbitrator → ℕ → FeedArbitrator
tick_arbitrator arb now_ns = record arb { gap_buf = tick arb.gap_buf now_ns }

unfoldable pub line_looks_dark : FeedArbitrator → FeedLine → ℕ → ℕ → Bool
line_looks_dark arb line now_ns stale_after_ns =
    if at_line arb.packets line == 0
    then false
    else if at_line arb.last_win_ns line == 0
    then ltb stale_after_ns now_ns
    else ltb stale_after_ns (sub64 now_ns (at_line arb.last_win_ns line))
