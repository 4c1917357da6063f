-- ===== src/Book/Notify.antt =====
-- When the books of include/feed/order_book.hpp call on_top_change.
pub mod Exact
use udp_multicast_receiver.Common.{
  ℕ, ◌+◌, ◌-◌, ◌≡◌, ◌⊎◌, inl, inr, ◌∙◌, refl, ap, sym, Bool, true, false, not, ◌&&◌, ◌||◌, Option,
  none, some, List, ◌==◌, if◌then◌else◌, min, u64, Option-cases, arith,
}
use udp_multicast_receiver.Wire.Itch.{
  ItchAddOrder, ItchDeleteOrder, ItchOrderExecuted, ItchOrderCancel, ItchOrderReplace,
}
use udp_multicast_receiver.Book.Maps.{find}
use udp_multicast_receiver.Book.Order.{
  OrderRecord, PriceLevel, TopOfBook, OrderBook, BookStats, empty_book, set_on_top_change,
  add_to_level, reduce_level_shares, remove_order_from_level, notify_if_top_changed, top, place,
  withdraw, reduce_order, apply_add, apply_delete, apply_cancel, apply_executed, apply_replace,
}
use udp_multicast_receiver.Book.Rests.{is_some}

-- One message to a symbol's book.
pub data BookMessage : Type 0 where
  adds : ItchAddOrder → BookMessage
  deletes : ItchDeleteOrder → BookMessage
  cancels : ItchOrderCancel → BookMessage
  executes : ItchOrderExecuted → BookMessage
  replaces : ItchOrderReplace → BookMessage

unfoldable pub apply_message : OrderBook → BookMessage → ℕ → OrderBook × Option (TopOfBook × ℕ)
apply_message b (adds m) recv_ns = apply_add b m recv_ns
apply_message b (deletes m) recv_ns = apply_delete b m recv_ns
apply_message b (cancels m) recv_ns = apply_cancel b m recv_ns
apply_message b (executes m) recv_ns = apply_executed b m recv_ns
apply_message b (replaces m) recv_ns = apply_replace b m recv_ns

-- Whether two sides show something else: an order on one of them only, another price or other
-- shares.
unfoldable pub shows_other : Option PriceLevel → Option PriceLevel → Bool
shows_other none none = false
shows_other none (some q) = true
shows_other (some p) none = true
shows_other (some p) (some q) = not ((p.price == q.price) && (p.shares == q.shares))

-- The best price or its shares differ on some side.
unfoldable pub top_differs : TopOfBook → TopOfBook → Bool
unfolding shows_other
top_differs t u = shows_other t.bid u.bid || shows_other t.ask u.ask

-- What was last reported still shows the prices and shares of the top of the book.
pub record IsReported (b : OrderBook) : Type 0 where
  pub reported :
      (b.last_top_valid ≡ false)
      ⊎ ((b.on_top_change ≡ true) × (top_differs (top b) b.last_top ≡ false))

-- The fields that only a notification writes.
pub record Listens (c b : OrderBook) : Type 0 where
  pub same_callback : c.on_top_change ≡ b.on_top_change
  pub same_last : c.last_top ≡ b.last_top
  pub same_valid : c.last_top_valid ≡ b.last_top_valid

place-Listens : (b : OrderBook) (ref : ℕ) (o : OrderRecord) → Listens (place b ref o) b
unfolding place add_to_level
place-Listens b ref o = record {
  same_callback = ground arith;
  same_last = ground arith;
  same_valid = ground arith;
}

withdraw-Listens : (b : OrderBook) (ref : ℕ) (o : OrderRecord) → Listens (withdraw b ref o) b
unfolding withdraw reduce_level_shares remove_order_from_level
withdraw-Listens b ref o = record {
  same_callback = ground arith;
  same_last = ground arith;
  same_valid = ground arith;
}

reduce_order-Listens :
    (b : OrderBook) (ref : ℕ) (o : OrderRecord) (by : ℕ) → Listens (reduce_order b ref o by) b
unfolding reduce_order reduce_level_shares remove_order_from_level
reduce_order-Listens b ref o by = record {
  same_callback = ground arith;
  same_last = ground arith;
  same_valid = ground arith;
}

-- A message leaves the levels alone and calls nothing, or ends in the notification.
abbrev pub Outcome : OrderBook → ℕ → OrderBook × Option (TopOfBook × ℕ) → Type 0
Outcome b recv r =
    ((c : OrderBook) × (r ≡ (c, none)) × Listens c b × (top c ≡ top b))
    ⊎ ((c : OrderBook) × (r ≡ notify_if_top_changed c recv) × Listens c b)

quiet_end :
    (b : OrderBook) (recv : ℕ) (counters : BookStats) (r : OrderBook × Option (TopOfBook × ℕ))
    → r ≡ (record b { stats = counters }, none)
    → Outcome b recv r
unfolding top
quiet_end b recv counters r e = inl (
  record b { stats = counters },
  e,
  record { same_callback = refl; same_last = refl; same_valid = refl },
  refl,
)

loud_end :
    (b c : OrderBook) (recv : ℕ) (counters : BookStats) (r : OrderBook × Option (TopOfBook × ℕ))
    → Listens c b
    → r ≡ notify_if_top_changed (record c { stats = counters }) recv
    → Outcome b recv r
loud_end b c recv counters r l e = inr (
  record c { stats = counters },
  e,
  record { same_callback = l.same_callback; same_last = l.same_last; same_valid = l.same_valid },
)

module _ (b : OrderBook) (recv : ℕ) where
  unknown : BookStats
  unknown = record b.stats { unknown_order = u64 (b.stats.unknown_order + 1) }

  apply_add-Outcome : (m : ItchAddOrder) → Outcome b recv (apply_add b m recv)
  unfolding apply_add
  apply_add-Outcome m = elim (Option-cases (find m.order_ref b.orders)) [
    | inl e ↦
        let o : OrderRecord = record { side = m.side; price = m.price; shares = m.shares } in
        let c = place b m.order_ref o in
        loud_end b c recv (record c.stats { adds = u64 (c.stats.adds + 1) }) (apply_add b m recv)
          (place-Listens b m.order_ref o) (rw (e, apply_add) refl)
    | inr (o, e) ↦
        quiet_end b recv (record b.stats { duplicate_add = u64 (b.stats.duplicate_add + 1) })
          (apply_add b m recv) (rw (e, apply_add) refl)
  ]

  apply_delete-Outcome : (m : ItchDeleteOrder) → Outcome b recv (apply_delete b m recv)
  unfolding apply_delete unknown
  apply_delete-Outcome m = elim (Option-cases (find m.order_ref b.orders)) [
    | inl e ↦ quiet_end b recv unknown (apply_delete b m recv) (rw (e, apply_delete) refl)
    | inr (o, e) ↦
        let c = withdraw b m.order_ref o in
        loud_end b c recv (record c.stats { deletes = u64 (c.stats.deletes + 1) })
          (apply_delete b m recv) (withdraw-Listens b m.order_ref o) (rw (e, apply_delete) refl)
  ]

  apply_cancel-Outcome : (m : ItchOrderCancel) → Outcome b recv (apply_cancel b m recv)
  unfolding apply_cancel unknown
  apply_cancel-Outcome m = elim (Option-cases (find m.order_ref b.orders)) [
    | inl e ↦ quiet_end b recv unknown (apply_cancel b m recv) (rw (e, apply_cancel) refl)
    | inr (o, e) ↦
        let by : ℕ = min m.cancelled_shares o.shares in
        let c = reduce_order b m.order_ref o by in
        loud_end b c recv (record c.stats { cancels = u64 (c.stats.cancels + 1) })
          (apply_cancel b m recv) (reduce_order-Listens b m.order_ref o by)
          (rw (e, apply_cancel) refl)
  ]

  apply_executed-Outcome : (m : ItchOrderExecuted) → Outcome b recv (apply_executed b m recv)
  unfolding apply_executed unknown
  apply_executed-Outcome m = elim (Option-cases (find m.order_ref b.orders)) [
    | inl e ↦ quiet_end b recv unknown (apply_executed b m recv) (rw (e, apply_executed) refl)
    | inr (o, e) ↦
        let by : ℕ = min m.executed_shares o.shares in
        let c = reduce_order b m.order_ref o by in
        loud_end b c recv (record c.stats { executes = u64 (c.stats.executes + 1) })
          (apply_executed b m recv) (reduce_order-Listens b m.order_ref o by)
          (rw (e, apply_executed) refl)
  ]

  apply_replace-Outcome : (m : ItchOrderReplace) → Outcome b recv (apply_replace b m recv)
  unfolding apply_replace unknown
  apply_replace-Outcome m = elim (Option-cases (find m.orig_order_ref b.orders)) [
    | inl e ↦ quiet_end b recv unknown (apply_replace b m recv) (rw (e, apply_replace) refl)
    | inr (o, e) ↦
        let gone = withdraw b m.orig_order_ref o in
        let new : OrderRecord = record { side = o.side; price = m.price; shares = m.shares } in
        let c = place gone m.new_order_ref new in
        let l = place-Listens gone m.new_order_ref new in
        let k = withdraw-Listens b m.orig_order_ref o in
        loud_end b c recv (record c.stats { replaces = u64 (c.stats.replaces + 1) })
          (apply_replace b m recv)
          (record {
            same_callback = l.same_callback ∙ k.same_callback;
            same_last = l.same_last ∙ k.same_last;
            same_valid = l.same_valid ∙ k.same_valid;
          })
          (rw (e, apply_replace) refl)
  ]

  pub apply_message-Outcome : (msg : BookMessage) → Outcome b recv (apply_message b msg recv)
  unfolding apply_message
  apply_message-Outcome (adds m) = apply_add-Outcome m
  apply_message-Outcome (deletes m) = apply_delete-Outcome m
  apply_message-Outcome (cancels m) = apply_cancel-Outcome m
  apply_message-Outcome (executes m) = apply_executed-Outcome m
  apply_message-Outcome (replaces m) = apply_replace-Outcome m
