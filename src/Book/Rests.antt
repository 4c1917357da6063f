-- ===== src/Book/Rests.antt =====
-- Which orders rest in the book of include/feed/order_book.hpp after each message.
use udp_multicast_receiver.Common.{
  ℕ, ◌-◌, ◌≡◌, ◌∙◌, ap, sym, Bool, true, false, not, ◌&&◌, ◌||◌, Option, none, some, inl, inr, ◌==◌,
  min, Option-cases, arith,
}
use udp_multicast_receiver.Wire.Itch.{
  ItchAddOrder, ItchDeleteOrder, ItchOrderExecuted, ItchOrderCancel, ItchOrderReplace,
}
use udp_multicast_receiver.Book.Maps.{find, insert, find-insert, find-erase, insert-IsMap}
use udp_multicast_receiver.Book.Order.{
  OrderRecord, OrderBook, BookStats, place, withdraw, reduce_order, reduce_level_shares,
  remove_order_from_level, notify_if_top_changed, apply_add, apply_delete, apply_cancel,
  apply_executed, apply_replace,
}
use udp_multicast_receiver.Book.Consistent.{IsConsistent, orders_frame, withdraw-orders}
use udp_multicast_receiver.Book.Consistent.Messages.{notify_frame}

abbrev pub is_some {ℓ} : {A : Type ℓ} → Option A → Bool
is_some none = false
is_some (some a) = true

-- The order rests in the book.
unfoldable pub rests : ℕ → OrderBook → Bool
rests ref b = is_some (find ref b.orders)

finish-rests :
    (r : ℕ) (b : OrderBook) (counters : BookStats) (recv : ℕ)
    → rests r (notify_if_top_changed (record b { stats = counters }) recv).0 ≡ rests r b
unfolding rests
finish-rests r b counters recv =
    ap (λ m. is_some (find r m)) (notify_frame (record b { stats = counters }) recv).2

place-rests :
    (r : ℕ) (b : OrderBook) (ref : ℕ) (o : OrderRecord)
    → rests r (place b ref o) ≡ ((ref == r) || rests r b)
unfolding rests place
place-rests r b ref o =
    ap (λ m. is_some (find r m))
      (orders_frame (record b { orders = insert ref o b.orders }) o.side o.price o.shares).0
    ∙ ground (arith, find-insert ref r o b.orders)

withdraw-rests :
    (r : ℕ) (b : OrderBook) (ref : ℕ) (o : OrderRecord)
    → IsConsistent b
    → find ref b.orders ≡ some o
    → rests r (withdraw b ref o) ≡ (not (ref == r) && rests r b)
unfolding rests
withdraw-rests r b ref o v e =
    ap (λ m. is_some (find r m)) (withdraw-orders v ref o e)
    ∙ ground (arith, find-erase ref r b.orders v.orders_map)

reduce_order-rests :
    (r : ℕ) (b : OrderBook) (ref : ℕ) (o : OrderRecord) (by : ℕ)
    → IsConsistent b
    → find ref b.orders ≡ some o
    → rests r (reduce_order b ref o by) ≡ true
    → rests r b ≡ true
unfolding rests reduce_order reduce_level_shares remove_order_from_level
reduce_order-rests r b ref o by v e h =
    let left : OrderRecord = record o { shares = o.shares - by } in
    ground (
      arith,
      find-erase ref r (insert ref left b.orders) (insert-IsMap ref left b.orders v.orders_map),
      find-insert ref r left b.orders,
    )

module _ (b : OrderBook) (v : IsConsistent b) (recv r : ℕ) where
  -- In a consistent book, after an Add exactly the orders that rested before and the added one
  -- rest, whether or not its reference was in use.
  pub apply_add-rests :
      (m : ItchAddOrder) → rests r (apply_add b m recv).0 ≡ ((m.order_ref == r) || rests r b)
  unfolding apply_add
  apply_add-rests m = elim (Option-cases (find m.order_ref b.orders)) [
    | inl e ↦
        rw (e, apply_add)
          (finish-rests r _ _ recv
            ∙ place-rests r b m.order_ref
                (record { side = m.side; price = m.price; shares = m.shares }))
    | inr (o, e) ↦ rw (e, apply_add) (unfold rests in ground arith)
  ]

  -- In a consistent book, after a Delete exactly the orders that rested before rest, without the
  -- one that it names, known or not.
  pub apply_delete-rests :
      (m : ItchDeleteOrder)
      → rests r (apply_delete b m recv).0 ≡ (not (m.order_ref == r) && rests r b)
  unfolding apply_delete
  apply_delete-rests m = elim (Option-cases (find m.order_ref b.orders)) [
    | inl e ↦ rw (e, apply_delete) (unfold rests in ground arith)
    | inr (o, e) ↦
        rw (e, apply_delete) (finish-rests r _ _ recv ∙ withdraw-rests r b m.order_ref o v e)
  ]

  pub apply_cancel-rests :
      (m : ItchOrderCancel) → rests r (apply_cancel b m recv).0 ≡ true → rests r b ≡ true
  unfolding apply_cancel
  apply_cancel-rests m = elim (Option-cases (find m.order_ref b.orders)) [
    | inl e ↦ rw (e, apply_cancel) (unfold rests in λ h. h)
    | inr (o, e) ↦
        rw (e, apply_cancel)
          (λ h.
            reduce_order-rests r b m.order_ref o (min m.cancelled_shares o.shares) v e
              (sym (finish-rests r _ _ recv) ∙ h))
  ]

  pub apply_executed-rests :
      (m : ItchOrderExecuted) → rests r (apply_executed b m recv).0 ≡ true → rests r b ≡ true
  unfolding apply_executed
  apply_executed-rests m = elim (Option-cases (find m.order_ref b.orders)) [
    | inl e ↦ rw (e, apply_executed) (unfold rests in λ h. h)
    | inr (o, e) ↦
        rw (e, apply_executed)
          (λ h.
            reduce_order-rests r b m.order_ref o (min m.executed_shares o.shares) v e
              (sym (finish-rests r _ _ recv) ∙ h))
  ]

  pub apply_replace-rests :
      (m : ItchOrderReplace)
      → rests r (apply_replace b m recv).0 ≡ true
      → ((m.new_order_ref == r) || (not (m.orig_order_ref == r) && rests r b)) ≡ true
  unfolding apply_replace
  apply_replace-rests m = elim (Option-cases (find m.orig_order_ref b.orders)) [
    | inl e ↦ rw (e, apply_replace) (unfold rests in ground arith)
    | inr (o, e) ↦
        rw (e, apply_replace)
          (λ h.
            ap (λ x. (m.new_order_ref == r) || x) (sym (withdraw-rests r b m.orig_order_ref o v e))
            ∙ sym (
                place-rests r (withdraw b m.orig_order_ref o) m.new_order_ref
                  (record { side = o.side; price = m.price; shares = m.shares }))
            ∙ sym (finish-rests r _ _ recv)
            ∙ h)
  ]
