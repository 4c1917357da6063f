-- ===== src/Decision.antt =====
-- DecisionEngine of include/feed/decision_engine.hpp: a stub decision on each change of a top of
-- book.
pub mod Quote
use udp_multicast_receiver.Common.{
  ℕ, ◌+◌, ◌*◌, Bool, true, false, not, ◌&&◌, Option, none, some, List, ltb, leb, if◌then◌else◌, u32,
  u64, sub32, sub64,
}
use udp_multicast_receiver.Book.Order.{PriceLevel, TopOfBook}
use udp_multicast_receiver.Stats.{LatencyHistogram, no_samples, record_ns}

pub record Decision : Type 0 where
  pub symbol : List ℕ
  pub price : ℕ
  pub shares : ℕ
  pub side : ℕ
  pub recv_ns : ℕ
  pub decided_ns : ℕ

pub record QuoteConfig : Type 0 where
  pub min_spread_ticks : ℕ
  pub tick_size : ℕ
  pub quote_size : ℕ

abbrev pub default_quotes : QuoteConfig
default_quotes = record { min_spread_ticks = 2; tick_size = 100; quote_size = 100 }

-- `on_decision` tells whether the callback is set.
pub record DecisionEngine : Type 0 where
  pub cfg : QuoteConfig
  pub on_decision : Bool
  pub latency : LatencyHistogram
  pub decisions_emitted : ℕ
  pub top_changes_seen : ℕ

abbrev pub engine_of : QuoteConfig → DecisionEngine
engine_of cfg = record {
  cfg = cfg;
  on_decision = false;
  latency = no_samples;
  decisions_emitted = 0;
  top_changes_seen = 0;
}

unfoldable pub set_on_decision : DecisionEngine → DecisionEngine
set_on_decision e = record e { on_decision = true }

unfoldable pub spread_of : PriceLevel → PriceLevel → ℕ
spread_of bid ask = if ltb bid.price ask.price then sub32 ask.price bid.price else 0

-- From `Decision d;` on. `decided` is what monotonic_ns() returns. The decision is the callback's
-- argument.
unfoldable pub decide :
    DecisionEngine → List ℕ → PriceLevel → ℕ → ℕ → DecisionEngine × Option Decision
decide e symbol bid recv_ns decided =
    let d : Decision = record {
      symbol = symbol;
      price = u32 (bid.price + e.cfg.tick_size);
      shares = e.cfg.quote_size;
      side = b'B';
      recv_ns = recv_ns;
      decided_ns = decided;
    } in
    let timed =
      if ltb recv_ns decided
      then record e { latency = record_ns e.latency (sub64 decided recv_ns) }
      else e in
    (
      record timed { decisions_emitted = u64 (timed.decisions_emitted + 1) },
      if e.on_decision then some d else none,
    )

unfoldable pub quote :
    DecisionEngine
    → List ℕ
    → Option PriceLevel
    → Option PriceLevel
    → ℕ
    → ℕ
    → DecisionEngine × Option Decision
quote e symbol none ask recv_ns decided = (e, none)
quote e symbol (some bid) none recv_ns decided = (e, none)
quote e symbol (some bid) (some ask) recv_ns decided =
    if leb (spread_of bid ask) (u32 (e.cfg.min_spread_ticks * e.cfg.tick_size))
    then (e, none)
    else decide e symbol bid recv_ns decided

unfoldable pub on_top_of_book :
    DecisionEngine → List ℕ → TopOfBook → ℕ → ℕ → DecisionEngine × Option Decision
on_top_of_book e symbol top recv_ns decided =
    quote (record e { top_changes_seen = u64 (e.top_changes_seen + 1) }) symbol top.bid top.ask
      recv_ns decided
