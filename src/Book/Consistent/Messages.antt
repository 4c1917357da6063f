-- ===== src/Book/Consistent/Messages.antt =====
-- Each message that OrderBook of include/feed/order_book.hpp applies keeps the invariant.
use udp_multicast_receiver.Common.{
  ℕ, ◌+◌, ◌^◌, ◌<◌, ◌≡◌, refl, Bool, true, false, inl, inr, none, some, length, ltb, min,
  Bool-cases, Option-cases, arith,
}
use udp_multicast_receiver.Wire.Itch.{
  ItchAddOrder, ItchDeleteOrder, ItchOrderExecuted, ItchOrderCancel, ItchOrderReplace,
}
use udp_multicast_receiver.Book.Maps.{find, erase}
use udp_multicast_receiver.Book.Order.{
  OrderRecord, OrderBook, BookStats, notify_if_top_changed, withdraw, reduce_order, apply_add,
  apply_delete, apply_cancel, apply_executed, apply_replace, count_unknown,
}
use udp_multicast_receiver.Book.Sums.{length-erase}
use udp_multicast_receiver.Book.Consistent.{
  IsConsistent, levels, place-IsConsistent, withdraw-IsConsistent, withdraw-orders,
  reduce_order-full, reduce_order-IsConsistent,
}

-- Counters, the callback and the last top do not matter.
pub same-IsConsistent :
    (b c : OrderBook)
    → c.bids ≡ b.bids
    → c.asks ≡ b.asks
    → c.orders ≡ b.orders
    → IsConsistent b
    → IsConsistent c
same-IsConsistent b c eb ea eo v = record {
  orders_map = rw eo v.orders_map;
  shares_fit = rw eo v.shares_fit;
  orders_fit = rw eo v.orders_fit;
  sorted = λ bid. rw (levels-same bid) (v.sorted bid);
  matched = λ bid p. rw (levels-same bid, eo) (v.matched bid p);
}
  where
    levels-same : (bid : Bool) → levels bid c ≡ levels bid b
    levels-same true = eb
    levels-same false = ea

pub notify_frame :
    (b : OrderBook) (recv : ℕ)
    → ((notify_if_top_changed b recv).0.bids ≡ b.bids)
      × ((notify_if_top_changed b recv).0.asks ≡ b.asks)
      × ((notify_if_top_changed b recv).0.orders ≡ b.orders)
unfolding notify_if_top_changed
notify_frame b recv = (ground arith, ground arith, ground arith)

-- The end of every message that changed the book: a counter, and the notification.
finish-IsConsistent :
    (b : OrderBook) (counters : BookStats) (recv : ℕ)
    → IsConsistent b
    → IsConsistent (notify_if_top_changed (record b { stats = counters }) recv).0
finish-IsConsistent b counters recv v =
    let frame = notify_frame (record b { stats = counters }) recv in
    same-IsConsistent b _ frame.0 frame.1 frame.2 v

count_unknown-IsConsistent : (b : OrderBook) → IsConsistent b → IsConsistent (count_unknown b)
count_unknown-IsConsistent b v = same-IsConsistent b (count_unknown b) refl refl refl v

-- An Add, whether or not its reference is in use.
pub apply_add-IsConsistent :
    (b : OrderBook) (m : ItchAddOrder) (recv : ℕ)
    → m.shares < 2 ^ 32
    → length b.orders + 1 < 2 ^ 32
    → IsConsistent b
    → IsConsistent (apply_add b m recv).0
unfolding apply_add
apply_add-IsConsistent b m recv fit room v = elim (Option-cases (find m.order_ref b.orders)) [
  | inl e ↦
      rw (e, apply_add)
        (finish-IsConsistent _ _ recv (
          place-IsConsistent v m.order_ref
            (record { side = m.side; price = m.price; shares = m.shares }) e fit room))
  | inr (o, e) ↦ rw (e, apply_add) (same-IsConsistent b _ refl refl refl v)
]

-- A Delete, of a resting order or of an unknown one.
pub apply_delete-IsConsistent :
    (b : OrderBook) (m : ItchDeleteOrder) (recv : ℕ)
    → IsConsistent b
    → IsConsistent (apply_delete b m recv).0
unfolding apply_delete
apply_delete-IsConsistent b m recv v = elim (Option-cases (find m.order_ref b.orders)) [
  | inl e ↦ rw (e, apply_delete) (count_unknown-IsConsistent b v)
  | inr (o, e) ↦
      rw (e, apply_delete) (finish-IsConsistent _ _ recv (withdraw-IsConsistent v m.order_ref o e))
]

-- An order loses some or all of its shares, never more than it has.
reduce_any-IsConsistent :
    (b : OrderBook) (ref wanted : ℕ) (o : OrderRecord)
    → find ref b.orders ≡ some o
    → IsConsistent b
    → IsConsistent (reduce_order b ref o (min wanted o.shares))
reduce_any-IsConsistent b ref wanted o e v = elim (Bool-cases (ltb wanted o.shares)) [
  | inl less ↦ reduce_order-IsConsistent v ref o e (min wanted o.shares) (ground arith)
  | inr all ↦
      let full : min wanted o.shares ≡ o.shares = ground arith in
      rw (full, reduce_order-full v ref o e) (withdraw-IsConsistent v ref o e)
]

-- A Cancel.
pub apply_cancel-IsConsistent :
    (b : OrderBook) (m : ItchOrderCancel) (recv : ℕ)
    → IsConsistent b
    → IsConsistent (apply_cancel b m recv).0
unfolding apply_cancel
apply_cancel-IsConsistent b m recv v = elim (Option-cases (find m.order_ref b.orders)) [
  | inl e ↦ rw (e, apply_cancel) (count_unknown-IsConsistent b v)
  | inr (o, e) ↦
      rw (e, apply_cancel)
        (finish-IsConsistent _ _ recv
          (reduce_any-IsConsistent b m.order_ref m.cancelled_shares o e v))
]

-- An Executed.
pub apply_executed-IsConsistent :
    (b : OrderBook) (m : ItchOrderExecuted) (recv : ℕ)
    → IsConsistent b
    → IsConsistent (apply_executed b m recv).0
unfolding apply_executed
apply_executed-IsConsistent b m recv v = elim (Option-cases (find m.order_ref b.orders)) [
  | inl e ↦ rw (e, apply_executed) (count_unknown-IsConsistent b v)
  | inr (o, e) ↦
      rw (e, apply_executed)
        (finish-IsConsistent _ _ recv
          (reduce_any-IsConsistent b m.order_ref m.executed_shares o e v))
]

-- A Replace whose new reference is not that of another resting order.
pub apply_replace-IsConsistent :
    (b : OrderBook) (m : ItchOrderReplace) (recv : ℕ)
    → m.shares < 2 ^ 32
    → find m.new_order_ref (erase m.orig_order_ref b.orders) ≡ none
    → IsConsistent b
    → IsConsistent (apply_replace b m recv).0
unfolding apply_replace
apply_replace-IsConsistent b m recv fit fresh v =
    elim (Option-cases (find m.orig_order_ref b.orders)) [
      | inl e ↦ rw (e, apply_replace) (count_unknown-IsConsistent b v)
      | inr (o, e) ↦
          let w : IsConsistent (withdraw b m.orig_order_ref o) =
            withdraw-IsConsistent v m.orig_order_ref o e in
          let same = withdraw-orders v m.orig_order_ref o e in
          rw (e, apply_replace)
            (finish-IsConsistent _ _ recv (
              place-IsConsistent w m.new_order_ref
                (record { side = o.side; price = m.price; shares = m.shares }) (rw same fresh) fit
                (rw same
                  (omega (arith, length-erase m.orig_order_ref o b.orders e, v.orders_fit)))))
    ]
