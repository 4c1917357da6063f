-- ===== src/Book/Consistent.antt =====
-- The invariant of OrderBook in include/feed/order_book.hpp: the levels are what the orders add up
-- to.
pub mod Messages
pub mod Apply
use udp_multicast_receiver.Common.{
  ℕ, suc, ◌+◌, ◌*◌, ◌-◌, ◌^◌, ◌≤◌, ◌<◌, ◌≡◌, ◌∙◌, sym, refl, ap, Bool, true, false, not, ◌&&◌,
  Option, none, some, List, [], ◌∷◌, length, ◌==◌, if◌then◌else◌, u32, u64, min, Bool-cases, inl,
  inr, arith,
}
use udp_multicast_receiver.Book.Maps.{
  find, insert, erase, IsMap, erase-insert, insert-IsMap, erase-IsMap,
}
use udp_multicast_receiver.Book.Level.{
  LevelAgg, Levels, no_orders, modify, adjust, grow, shrink, drop_order, keep_used, IsSorted,
  find-modify, find-adjust, modify-IsSorted, adjust-IsSorted,
}
use udp_multicast_receiver.Book.Order.{
  OrderRecord, OrderBook, is_bid, add_to_level, reduce_level_shares, remove_order_from_level, place,
  withdraw, reduce_order,
}
use udp_multicast_receiver.Book.Sums.{
  Orders, on_side, rests_at, one_if, shares_if, count_at, shares_at, level_of, sums-insert_new,
  sums-insert_over, sums-erase, SharesFit, sums_bounds, SharesFit-find, SharesFit-insert,
  SharesFit-erase, length-insert-le, length-insert_over, length-erase,
}

-- The levels of one side: bids for `true`, asks for `false`.
abbrev pub levels : Bool → OrderBook → Levels
levels true b = b.bids
levels false b = b.asks

-- Every level holds the sum and the number of the orders that rest at its price, a price without
-- orders has no level, and each side is sorted with its best price first.
pub record IsConsistent (b : OrderBook) : Type 0 where
  pub orders_map : IsMap b.orders
  pub shares_fit : SharesFit b.orders
  pub orders_fit : length b.orders < 2 ^ 32
  pub sorted : (bid : Bool) → IsSorted bid (levels bid b)
  pub matched : (bid : Bool) (price : ℕ) → find price (levels bid b) ≡ level_of bid price b.orders

module _ (b : OrderBook) (side price : ℕ) where
  pub levels-add_to_level :
      (bid : Bool) (shares : ℕ)
      → levels bid (add_to_level b side price shares)
        ≡ (if on_side bid side then modify bid price (grow shares) (levels bid b) else levels bid b)
  unfolding add_to_level
  levels-add_to_level true shares = ground arith
  levels-add_to_level false shares = ground arith

  levels-reduce_level_shares :
      (bid : Bool) (shares : ℕ)
      → levels bid (reduce_level_shares b side price shares)
        ≡ (if on_side bid side then adjust price (shrink shares) (levels bid b) else levels bid b)
  unfolding reduce_level_shares
  levels-reduce_level_shares true shares = ground arith
  levels-reduce_level_shares false shares = ground arith

  levels-remove_order :
      (bid : Bool)
      → levels bid (remove_order_from_level b side price)
        ≡ (if on_side bid side then adjust price drop_order (levels bid b) else levels bid b)
  unfolding remove_order_from_level
  levels-remove_order true = ground arith
  levels-remove_order false = ground arith

  pub orders_frame :
      (shares : ℕ)
      → ((add_to_level b side price shares).orders ≡ b.orders)
        × ((reduce_level_shares b side price shares).orders ≡ b.orders)
        × ((remove_order_from_level b side price).orders ≡ b.orders)
  unfolding add_to_level reduce_level_shares remove_order_from_level
  orders_frame shares = (ground arith, ground arith, ground arith)

-- A level of `c` orders with `s` shares in all; `level_of` for given sums.
abbrev level : ℕ → ℕ → Option LevelAgg
level c s = if c == 0 then none else some (record { shares = s; order_count = c })

abbrev pub or_zero : Option LevelAgg → LevelAgg
or_zero none = no_orders
or_zero (some a) = a

abbrev bind : (LevelAgg → Option LevelAgg) → Option LevelAgg → Option LevelAgg
bind f none = none
bind f (some a) = f a

grow-level :
    (c s shares : ℕ)
    → c + 1 < 2 ^ 32
    → s + shares < 2 ^ 64
    → (c ≡ 0 → s ≡ 0)
    → some (grow shares (or_zero (level c s))) ≡ level (1 + c) (shares + s)
unfolding grow
grow-level c s shares hc hs z = ground (arith, z)

shrink-level : (c s shares : ℕ) → 0 < c → bind (shrink shares) (level c (shares + s)) ≡ level c s
unfolding shrink
shrink-level c s shares hc = ground arith

drop-level : (c s : ℕ) → (c ≡ 0 → s ≡ 0) → bind drop_order (level (1 + c) s) ≡ level c s
unfolding drop_order
drop-level c s z = ground (arith, z)

find-adjust-bind :
    (greater : Bool) (price p : ℕ) (f : LevelAgg → Option LevelAgg) (m : Levels)
    → IsSorted greater m
    → find p (adjust price f m) ≡ (if price == p then bind f (find p m) else find p m)
find-adjust-bind greater price p f m s = ground (arith, find-adjust greater price p f m s)

pub find-modify-or_zero :
    (greater : Bool) (price p : ℕ) (f : LevelAgg → LevelAgg) (m : Levels)
    → IsSorted greater m
    → find p (modify greater price f m)
      ≡ (if price == p then some (f (or_zero (find p m))) else find p m)
find-modify-or_zero greater price p f m s = ground (arith, find-modify greater price p f m s)

module _ {b : OrderBook} (v : IsConsistent b) where
  -- A level without orders has no shares; sums stay within the machine's integers.
  pub level_sums :
      (bid : Bool) (p : ℕ)
      → (count_at bid p b.orders < 2 ^ 32)
        × (shares_at bid p b.orders ≤ 4294967295 * count_at bid p b.orders)
  level_sums bid p =
      let (x, y) = sums_bounds bid p b.orders v.shares_fit in (omega (arith, v.orders_fit), y)

  module _ (ref : ℕ) (o : OrderRecord) (fresh : find ref b.orders ≡ none) (fit : o.shares < 2 ^ 32)
      (room : length b.orders + 1 < 2 ^ 32) where
    place-matched :
        (bid : Bool) (p : ℕ)
        → find p (levels bid (place b ref o)) ≡ level_of bid p (insert ref o b.orders)
    unfolding place level_of
    place-matched bid p = ground (
      arith,
      levels-add_to_level (record b { orders = insert ref o b.orders }) o.side o.price bid o.shares,
      find-modify-or_zero bid o.price p (grow o.shares) (levels bid b) (v.sorted bid),
      v.matched bid p,
      sums-insert_new bid p ref o b.orders fresh,
      level_sums bid p,
      sums_bounds bid p b.orders v.shares_fit,
      grow-level (count_at bid p b.orders) (shares_at bid p b.orders) o.shares,
    )

    -- An order under a fresh reference is added to its level.
    pub place-IsConsistent : IsConsistent (place b ref o)
    unfolding place
    place-IsConsistent =
        let placed : OrderBook = record b { orders = insert ref o b.orders } in
        let same : (add_to_level placed o.side o.price o.shares).orders ≡ insert ref o b.orders =
          (orders_frame placed o.side o.price o.shares).0 in
        record {
          orders_map = rw same (insert-IsMap ref o b.orders v.orders_map);
          shares_fit = rw same (SharesFit-insert ref o b.orders fit v.shares_fit);
          orders_fit = rw same (omega (arith, length-insert-le ref o b.orders));
          sorted = λ bid. rw (levels-add_to_level placed o.side o.price bid o.shares) (
              ground
                (arith, v.sorted bid, modify-IsSorted bid o.price (grow o.shares) (levels bid b)));
          matched = λ bid p. place-matched bid p ∙ ap (level_of bid p) (sym same);
        }

  module _ (ref : ℕ) (o : OrderRecord) (found : find ref b.orders ≡ some o) where
    withdraw-matched :
        (bid : Bool) (p : ℕ)
        → find p (levels bid (withdraw b ref o)) ≡ level_of bid p (erase ref b.orders)
    unfolding withdraw level_of
    withdraw-matched bid p =
        let reduced : OrderBook = reduce_level_shares b o.side o.price o.shares in
        ground (
          arith,
          levels-remove_order reduced o.side o.price bid,
          levels-reduce_level_shares b o.side o.price bid o.shares,
          find-adjust-bind bid o.price p drop_order
              (adjust o.price (shrink o.shares) (levels bid b))
              (adjust-IsSorted bid o.price (shrink o.shares) (levels bid b) (v.sorted bid)),
          find-adjust-bind bid o.price p (shrink o.shares) (levels bid b) (v.sorted bid),
          v.matched bid p,
          sums-erase bid p ref o b.orders found,
          level_sums bid p,
          sums_bounds bid p (erase ref b.orders) (SharesFit-erase ref b.orders v.shares_fit),
          shrink-level (1 + count_at bid p (erase ref b.orders))
              (shares_at bid p (erase ref b.orders)) o.shares,
          drop-level (count_at bid p (erase ref b.orders)) (shares_at bid p (erase ref b.orders)),
        )

    pub withdraw-orders : (withdraw b ref o).orders ≡ erase ref b.orders
    unfolding withdraw
    withdraw-orders =
        let reduced : OrderBook = reduce_level_shares b o.side o.price o.shares in
        ground (
          arith,
          (orders_frame reduced o.side o.price 0).2,
          (orders_frame b o.side o.price o.shares).1,
        )

    withdraw-IsSorted : (bid : Bool) → IsSorted bid (levels bid (withdraw b ref o))
    unfolding withdraw
    withdraw-IsSorted bid =
        let reduced : OrderBook = reduce_level_shares b o.side o.price o.shares in
        let less : Levels = adjust o.price (shrink o.shares) (levels bid b) in
        let less-sorted : IsSorted bid less =
          adjust-IsSorted bid o.price (shrink o.shares) (levels bid b) (v.sorted bid) in
        ground (
          arith,
          levels-remove_order reduced o.side o.price bid,
          levels-reduce_level_shares b o.side o.price bid o.shares,
          less-sorted,
          adjust-IsSorted bid o.price drop_order less less-sorted,
          v.sorted bid,
        )

    -- A resting order leaves the book with its share of the level.
    pub withdraw-IsConsistent : IsConsistent (withdraw b ref o)
    withdraw-IsConsistent = record {
      orders_map = rw withdraw-orders (erase-IsMap ref b.orders v.orders_map);
      shares_fit = rw withdraw-orders (SharesFit-erase ref b.orders v.shares_fit);
      orders_fit =
          rw withdraw-orders (omega (arith, length-erase ref o b.orders found, v.orders_fit));
      sorted = withdraw-IsSorted;
      matched = λ bid p. withdraw-matched bid p ∙ ap (level_of bid p) (sym withdraw-orders);
    }

    -- An order that loses all its shares is withdrawn.
    pub reduce_order-full : reduce_order b ref o o.shares ≡ withdraw b ref o
    unfolding reduce_order withdraw reduce_level_shares remove_order_from_level
    reduce_order-full = ground (arith, erase-insert ref (record o { shares = 0 }) b.orders)

    module _ (by : ℕ) (some_left : by < o.shares) where
      left : OrderRecord
      left = record o { shares = o.shares - by }

      reduce_order-partial :
          reduce_order b ref o by
          ≡ record (reduce_level_shares b o.side o.price by) { orders = insert ref left b.orders }
      unfolding reduce_order left reduce_level_shares
      reduce_order-partial = ground arith

      partial-matched :
          (bid : Bool) (p : ℕ)
          → find p (levels bid (reduce_level_shares b o.side o.price by))
            ≡ level_of bid p (insert ref left b.orders)
      unfolding level_of left
      partial-matched bid p = ground (
        arith,
        levels-reduce_level_shares b o.side o.price bid by,
        find-adjust-bind bid o.price p (shrink by) (levels bid b) (v.sorted bid),
        v.matched bid p,
        sums-insert_over bid p ref o left b.orders found,
        shrink-level (count_at bid p b.orders) (shares_at bid p (insert ref left b.orders)) by,
        sums-erase bid p ref o b.orders found,
      )

      partial-IsSorted :
          (bid : Bool) → IsSorted bid (levels bid (reduce_level_shares b o.side o.price by))
      partial-IsSorted bid =
          rw (levels-reduce_level_shares b o.side o.price bid by)
            (ground (arith, v.sorted bid, adjust-IsSorted bid o.price (shrink by) (levels bid b)))

      reduced : OrderBook
      reduced = record (reduce_level_shares b o.side o.price by) {
        orders = insert ref left b.orders;
      }

      partial-levels :
          (bid : Bool) → levels bid reduced ≡ levels bid (reduce_level_shares b o.side o.price by)
      unfolding reduced
      partial-levels true = refl
      partial-levels false = refl

      -- An order that keeps some shares stays, smaller, and so does its level.
      pub reduce_order-IsConsistent : IsConsistent (reduce_order b ref o by)
      unfolding reduced left
      reduce_order-IsConsistent = rw reduce_order-partial (record {
        orders_map = insert-IsMap ref left b.orders v.orders_map;
        shares_fit =
            SharesFit-insert ref left b.orders
              (omega (arith, SharesFit-find ref o b.orders v.shares_fit found)) v.shares_fit;
        orders_fit = omega (arith, length-insert_over ref o left b.orders found, v.orders_fit);
        sorted = λ bid. rw (partial-levels bid) (partial-IsSorted bid);
        matched = λ bid p. rw (partial-levels bid) (partial-matched bid p);
      })
