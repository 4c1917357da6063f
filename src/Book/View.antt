-- ===== src/Book/View.antt =====
-- A book of include/feed/order_book.hpp as the orders that rest in it, by their references.
use udp_multicast_receiver.Common.{
  ℕ, ◌-◌, ◌≡◌, ◌∙◌, refl, ap, Option, none, some, inl, inr, leb, ◌==◌, if◌then◌else◌, min,
  Option-cases, arith,
}
use udp_multicast_receiver.Wire.Itch.{
  ItchAddOrder, ItchDeleteOrder, ItchOrderExecuted, ItchOrderCancel, ItchOrderReplace,
}
use udp_multicast_receiver.Book.Maps.{find, insert, find-insert, find-erase, insert-IsMap}
use udp_multicast_receiver.Book.Order.{
  OrderRecord, OrderBook, BookStats, place, withdraw, reduce_order, reduce_level_shares,
  remove_order_from_level, notify_if_top_changed, apply_add, apply_delete, apply_cancel,
  apply_executed, apply_replace,
}
use udp_multicast_receiver.Book.Consistent.{IsConsistent, orders_frame, withdraw-orders}
use udp_multicast_receiver.Book.Consistent.Messages.{notify_frame}
use udp_multicast_receiver.Book.Notify.{
  BookMessage, adds, deletes, cancels, executes, replaces, apply_message,
}

-- The order at rest under each reference. Price levels, their order and the counters do not show.
abbrev pub View : Type 0
View = ℕ → Option OrderRecord

abbrev pub view : OrderBook → View
view b ref = find ref b.orders

abbrev pub put : ℕ → OrderRecord → View → View
put ref o w r = if ref == r then some o else w r

abbrev pub remove : ℕ → View → View
remove ref w r = if ref == r then none else w r

-- An order loses shares, and leaves with its last ones.
abbrev pub lose : Option OrderRecord → ℕ → ℕ → View → View
lose none ref by w = w
lose (some o) ref by w =
    if leb o.shares by then remove ref w else put ref (record o { shares = o.shares - by }) w

abbrev pub enter : Option OrderRecord → ItchAddOrder → View → View
enter none m w = put m.order_ref (record { side = m.side; price = m.price; shares = m.shares }) w
enter (some o) m w = w

abbrev pub switch : Option OrderRecord → ItchOrderReplace → View → View
switch none m w = w
switch (some o) m w =
    put m.new_order_ref (record { side = o.side; price = m.price; shares = m.shares })
      (remove m.orig_order_ref w)

-- What a message means for the orders; the first argument above is the order that it names, if it
-- rests.
abbrev pub meaning : View → BookMessage → View
meaning w (adds m) = enter (w m.order_ref) m w
meaning w (deletes m) = remove m.order_ref w
meaning w (cancels m) = lose (w m.order_ref) m.order_ref m.cancelled_shares w
meaning w (executes m) = lose (w m.order_ref) m.order_ref m.executed_shares w
meaning w (replaces m) = switch (w m.orig_order_ref) m w

module _ (r : ℕ) where
  view-finish :
      (b : OrderBook) (counters : BookStats) (recv : ℕ)
      → view (notify_if_top_changed (record b { stats = counters }) recv).0 r ≡ view b r
  view-finish b counters recv = ap (find r) (notify_frame (record b { stats = counters }) recv).2

  view-place :
      (b : OrderBook) (ref : ℕ) (o : OrderRecord) → view (place b ref o) r ≡ put ref o (view b) r
  unfolding place
  view-place b ref o =
      ap (find r)
        (orders_frame (record b { orders = insert ref o b.orders }) o.side o.price o.shares).0
      ∙ find-insert ref r o b.orders

  module _ (b : OrderBook) (v : IsConsistent b) (ref : ℕ) (o : OrderRecord)
      (e : find ref b.orders ≡ some o) where
    view-withdraw : view (withdraw b ref o) r ≡ remove ref (view b) r
    view-withdraw = ap (find r) (withdraw-orders v ref o e) ∙ find-erase ref r b.orders v.orders_map

    view-reduce_order :
        (by : ℕ) → view (reduce_order b ref o (min by o.shares)) r ≡ lose (some o) ref by (view b) r
    unfolding reduce_order reduce_level_shares remove_order_from_level
    view-reduce_order by =
        let left : OrderRecord = record o { shares = o.shares - min by o.shares } in
        ground (
          arith,
          find-erase ref r (insert ref left b.orders) (insert-IsMap ref left b.orders v.orders_map),
          find-insert ref r left b.orders,
        )

module _ (b : OrderBook) (v : IsConsistent b) (recv r : ℕ) where
  apply_add-view : (m : ItchAddOrder) → view (apply_add b m recv).0 r ≡ meaning (view b) (adds m) r
  unfolding apply_add
  apply_add-view m = elim (Option-cases (find m.order_ref b.orders)) [
    | inl e ↦
        rw (e, apply_add)
          (view-finish r
              (place b m.order_ref (record { side = m.side; price = m.price; shares = m.shares })) _
              recv
            ∙ view-place r b m.order_ref
                (record { side = m.side; price = m.price; shares = m.shares }))
    | inr (o, e) ↦ rw (e, apply_add) refl
  ]

  apply_delete-view :
      (m : ItchDeleteOrder) → view (apply_delete b m recv).0 r ≡ meaning (view b) (deletes m) r
  unfolding apply_delete
  apply_delete-view m = elim (Option-cases (find m.order_ref b.orders)) [
    | inl e ↦ rw (e, apply_delete) (ground (arith, e))
    | inr (o, e) ↦
        rw (e, apply_delete)
          (view-finish r (withdraw b m.order_ref o) _ recv ∙ view-withdraw r b v m.order_ref o e)
  ]

  apply_cancel-view :
      (m : ItchOrderCancel) → view (apply_cancel b m recv).0 r ≡ meaning (view b) (cancels m) r
  unfolding apply_cancel
  apply_cancel-view m = elim (Option-cases (find m.order_ref b.orders)) [
    | inl e ↦ rw (e, apply_cancel) refl
    | inr (o, e) ↦
        rw (e, apply_cancel)
          (view-finish r (reduce_order b m.order_ref o (min m.cancelled_shares o.shares)) _ recv
            ∙ view-reduce_order r b v m.order_ref o e m.cancelled_shares)
  ]

  apply_executed-view :
      (m : ItchOrderExecuted) → view (apply_executed b m recv).0 r ≡ meaning (view b) (executes m) r
  unfolding apply_executed
  apply_executed-view m = elim (Option-cases (find m.order_ref b.orders)) [
    | inl e ↦ rw (e, apply_executed) refl
    | inr (o, e) ↦
        rw (e, apply_executed)
          (view-finish r (reduce_order b m.order_ref o (min m.executed_shares o.shares)) _ recv
            ∙ view-reduce_order r b v m.order_ref o e m.executed_shares)
  ]

  apply_replace-view :
      (m : ItchOrderReplace) → view (apply_replace b m recv).0 r ≡ meaning (view b) (replaces m) r
  unfolding apply_replace
  apply_replace-view m = elim (Option-cases (find m.orig_order_ref b.orders)) [
    | inl e ↦ rw (e, apply_replace) refl
    | inr (o, e) ↦
        let moved : OrderRecord = record { side = o.side; price = m.price; shares = m.shares } in
        rw (e, apply_replace)
          (view-finish r (place (withdraw b m.orig_order_ref o) m.new_order_ref moved) _ recv
            ∙ view-place r (withdraw b m.orig_order_ref o) m.new_order_ref moved
            ∙ ap (λ q. if m.new_order_ref == r then some moved else q)
                (view-withdraw r b v m.orig_order_ref o e))
  ]

  -- In a consistent book each message does to the orders at rest, with their sides, prices and
  -- remaining shares, what it means for them: an Add enters an order unless its reference is in
  -- use, a Delete removes one, a Cancel or an Executed takes shares and removes an order with its
  -- last ones, and a Replace of a resting order removes it and enters the new one on the same side.
  -- A message that names no resting order changes none.
  pub apply_message-view :
      (msg : BookMessage) → view (apply_message b msg recv).0 r ≡ meaning (view b) msg r
  unfolding apply_message
  apply_message-view (adds m) = apply_add-view m
  apply_message-view (deletes m) = apply_delete-view m
  apply_message-view (cancels m) = apply_cancel-view m
  apply_message-view (executes m) = apply_executed-view m
  apply_message-view (replaces m) = apply_replace-view m
