-- ===== src/Decision/Quote.antt =====
-- When a decision is made, and at which price (include/feed/decision_engine.hpp).
use udp_multicast_receiver.Common.{
  ℕ, ◌+◌, ◌*◌, ◌%◌, ◌^◌, ◌≤◌, ◌<◌, ◌≡◌, true, none, some, List, arith,
}
use udp_multicast_receiver.Book.Order.{PriceLevel, TopOfBook, crossed}
use udp_multicast_receiver.Decision.{
  DecisionEngine, Decision, spread_of, decide, quote, on_top_of_book,
}

-- The threshold fits 32 bits and is at least one tick, and so does a price.
pub record IsSane (e : DecisionEngine) (bid ask : PriceLevel) : Type 0 where
  pub tick_pos : 0 < e.cfg.tick_size
  pub one_tick : e.cfg.tick_size ≤ e.cfg.min_spread_ticks * e.cfg.tick_size
  pub threshold_fits : e.cfg.min_spread_ticks * e.cfg.tick_size < 2 ^ 32
  pub bid_fits : bid.price < 2 ^ 32
  pub ask_fits : ask.price < 2 ^ 32

-- With both sides quoted, 32-bit prices, and a threshold of at least one tick that fits 32 bits: a
-- decision's price is strictly inside the market, above the best bid and below the best ask.
pub on_top_of_book-inside :
    (e : DecisionEngine) (symbol : List ℕ) (bid ask : PriceLevel) (recv decided : ℕ) (d : Decision)
    → IsSane e bid ask
    → (on_top_of_book e symbol (record { bid = some bid; ask = some ask }) recv decided).1 ≡ some d
    → (bid.price < d.price) × (d.price < ask.price)
unfolding on_top_of_book quote decide spread_of
on_top_of_book-inside e symbol bid ask recv decided d s h = (
  ground (arith, s.tick_pos, s.one_tick, s.threshold_fits, s.bid_fits, s.ask_fits),
  ground (arith, s.tick_pos, s.one_tick, s.threshold_fits, s.bid_fits, s.ask_fits),
)

-- On a crossed or locked top of book no decision is made and only the count
-- of changes seen moves.
pub on_top_of_book-crossed :
    (e : DecisionEngine) (symbol : List ℕ) (t : TopOfBook) (recv decided : ℕ)
    → crossed t ≡ true
    → on_top_of_book e symbol t recv decided
      ≡ (record e { top_changes_seen = (e.top_changes_seen + 1) % 2 ^ 64 }, none)
unfolding on_top_of_book quote spread_of crossed
on_top_of_book-crossed e symbol t recv decided h = ground arith
