-- ===== src/Book/Order.antt =====
-- OrderBook of include/feed/order_book.hpp: one symbol's resting orders and price levels.
use udp_multicast_receiver.Common.{
  ℕ, ◌+◌, ◌-◌, Bool, true, false, not, ◌||◌, Option, none, some, List, [], ◌∷◌, leb, ◌==◌,
  if◌then◌else◌, u64, min,
}
use udp_multicast_receiver.Wire.Itch.{
  ItchAddOrder, ItchDeleteOrder, ItchOrderExecuted, ItchOrderCancel, ItchOrderReplace,
}
use udp_multicast_receiver.Book.Maps.{find, insert, erase}
use udp_multicast_receiver.Book.Level.{Levels, modify, adjust, grow, shrink, drop_order}

pub record OrderRecord : Type 0 where
  pub side : ℕ
  pub price : ℕ
  pub shares : ℕ

pub record PriceLevel : Type 0 where
  pub price : ℕ
  pub shares : ℕ
  pub orders : ℕ

pub record TopOfBook : Type 0 where
  pub bid : Option PriceLevel
  pub ask : Option PriceLevel

unfoldable pub crossed : TopOfBook → Bool
crossed t = elim t.bid [
  | none ↦ false
  | some b ↦ elim t.ask [ none ↦ false | some a ↦ leb a.price b.price ]
]

pub record BookStats : Type 0 where
  pub adds : ℕ
  pub deletes : ℕ
  pub cancels : ℕ
  pub executes : ℕ
  pub replaces : ℕ
  pub unknown_order : ℕ
  pub duplicate_add : ℕ

-- `on_top_change` tells whether the callback is set.
pub record OrderBook : Type 0 where
  pub bids : Levels
  pub asks : Levels
  pub orders : List (ℕ × OrderRecord)
  pub on_top_change : Bool
  pub last_top : TopOfBook
  pub last_top_valid : Bool
  pub stats : BookStats

abbrev pub empty_book : OrderBook
empty_book = record {
  bids = [];
  asks = [];
  orders = [];
  on_top_change = false;
  last_top = record { bid = none; ask = none };
  last_top_valid = false;
  stats = record {
    adds = 0;
    deletes = 0;
    cancels = 0;
    executes = 0;
    replaces = 0;
    unknown_order = 0;
    duplicate_add = 0;
  };
}

-- The setter, with a callback that is not empty.
unfoldable pub set_on_top_change : OrderBook → OrderBook
set_on_top_change b = record b { on_top_change = true }

-- `side == 'B'`
abbrev pub is_bid : ℕ → Bool
is_bid side = side == b'B'

unfoldable pub add_to_level : OrderBook → ℕ → ℕ → ℕ → OrderBook
add_to_level b side price shares =
    if is_bid side
    then record b { bids = modify true price (grow shares) b.bids }
    else record b { asks = modify false price (grow shares) b.asks }

unfoldable pub reduce_level_shares : OrderBook → ℕ → ℕ → ℕ → OrderBook
reduce_level_shares b side price shares =
    if is_bid side
    then record b { bids = adjust price (shrink shares) b.bids }
    else record b { asks = adjust price (shrink shares) b.asks }

unfoldable pub remove_order_from_level : OrderBook → ℕ → ℕ → OrderBook
remove_order_from_level b side price =
    if is_bid side
    then record b { bids = adjust price drop_order b.bids }
    else record b { asks = adjust price drop_order b.asks }

-- `*levels.begin()`, if there is one.
unfoldable pub best : Levels → Option PriceLevel
best [] = none
best ((price, agg) ∷ m) =
    some (record { price = price; shares = agg.shares; orders = agg.order_count })

unfoldable pub top : OrderBook → TopOfBook
top b = record { bid = best b.bids; ask = best b.asks }

-- `has_value` differs, or both have one and its price or its shares differ.
unfoldable pub level_changed : Option PriceLevel → Option PriceLevel → Bool
level_changed none none = false
level_changed none (some q) = true
level_changed (some p) none = true
level_changed (some p) (some q) = not (p.price == q.price) || not (p.shares == q.shares)

-- The callback's call is the second result.
unfoldable pub notify_if_top_changed : OrderBook → ℕ → OrderBook × Option (TopOfBook × ℕ)
unfolding level_changed
notify_if_top_changed b recv_ns =
    let t = top b in
    let changed =
      not b.last_top_valid
      || (level_changed t.bid b.last_top.bid || level_changed t.ask b.last_top.ask) in
    if not b.on_top_change
    then (b, none)
    else if changed
    then (record b { last_top = t; last_top_valid = true }, some (t, recv_ns))
    else (b, none)

-- A resting order: `orders_[ref] = order`, and its share of a level.
unfoldable pub place : OrderBook → ℕ → OrderRecord → OrderBook
place b ref order =
    add_to_level (record b { orders = insert ref order b.orders }) order.side order.price
      order.shares

-- The level loses the whole order, and the order is erased.
unfoldable pub withdraw : OrderBook → ℕ → OrderRecord → OrderBook
withdraw b ref order =
    let reduced = reduce_level_shares b order.side order.price order.shares in
    let removed = remove_order_from_level reduced order.side order.price in
    record removed { orders = erase ref removed.orders }

-- A resting order loses `by` of its shares, and leaves the book with its last ones.
unfoldable pub reduce_order : OrderBook → ℕ → OrderRecord → ℕ → OrderBook
reduce_order b ref order by =
    let reduced = reduce_level_shares b order.side order.price by in
    let left : OrderRecord = record order { shares = order.shares - by } in
    let kept = record reduced { orders = insert ref left reduced.orders } in
    let removed = remove_order_from_level kept order.side order.price in
    if left.shares == 0 then record removed { orders = erase ref removed.orders } else kept

abbrev pub count_unknown : OrderBook → OrderBook
count_unknown b = record b {
  stats = record b.stats { unknown_order = u64 (b.stats.unknown_order + 1) };
}

unfoldable pub apply_add : OrderBook → ItchAddOrder → ℕ → OrderBook × Option (TopOfBook × ℕ)
apply_add b m recv_ns = elim (find m.order_ref b.orders) [
  | some _ ↦ (
    record b { stats = record b.stats { duplicate_add = u64 (b.stats.duplicate_add + 1) } },
    none,
  )
  | none ↦
      let placed =
        place b m.order_ref (record { side = m.side; price = m.price; shares = m.shares }) in
      notify_if_top_changed
        (record placed { stats = record placed.stats { adds = u64 (placed.stats.adds + 1) } })
        recv_ns
]

unfoldable pub apply_delete : OrderBook → ItchDeleteOrder → ℕ → OrderBook × Option (TopOfBook × ℕ)
apply_delete b m recv_ns = elim (find m.order_ref b.orders) [
  | none ↦ (count_unknown b, none)
  | some order ↦
      let gone = withdraw b m.order_ref order in
      notify_if_top_changed
        (record gone { stats = record gone.stats { deletes = u64 (gone.stats.deletes + 1) } })
        recv_ns
]

unfoldable pub apply_cancel : OrderBook → ItchOrderCancel → ℕ → OrderBook × Option (TopOfBook × ℕ)
apply_cancel b m recv_ns = elim (find m.order_ref b.orders) [
  | none ↦ (count_unknown b, none)
  | some order ↦
      let less = reduce_order b m.order_ref order (min m.cancelled_shares order.shares) in
      notify_if_top_changed
        (record less { stats = record less.stats { cancels = u64 (less.stats.cancels + 1) } })
        recv_ns
]

unfoldable pub apply_executed :
    OrderBook → ItchOrderExecuted → ℕ → OrderBook × Option (TopOfBook × ℕ)
apply_executed b m recv_ns = elim (find m.order_ref b.orders) [
  | none ↦ (count_unknown b, none)
  | some order ↦
      let less = reduce_order b m.order_ref order (min m.executed_shares order.shares) in
      notify_if_top_changed
        (record less { stats = record less.stats { executes = u64 (less.stats.executes + 1) } })
        recv_ns
]

unfoldable pub apply_replace : OrderBook → ItchOrderReplace → ℕ → OrderBook × Option (TopOfBook × ℕ)
apply_replace b m recv_ns = elim (find m.orig_order_ref b.orders) [
  | none ↦ (count_unknown b, none)
  | some order ↦
      let moved =
        place (withdraw b m.orig_order_ref order) m.new_order_ref
          (record { side = order.side; price = m.price; shares = m.shares }) in
      notify_if_top_changed
        (record moved { stats = record moved.stats { replaces = u64 (moved.stats.replaces + 1) } })
        recv_ns
]
