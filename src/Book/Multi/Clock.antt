-- ===== src/Book/Multi/Clock.antt =====
-- The books' state does not depend on the times of the messages (include/feed/order_book.hpp).
use udp_multicast_receiver.Common.{
  ℕ, ◌≡◌, refl, inl, inr, Option, none, some, Option-cases, ◌==◌, Bool-cases, arith,
}
use udp_multicast_receiver.Wire.Mold.{MoldMessage}
use udp_multicast_receiver.Wire.Itch.{
  ItchMsgType, add_order_no_mpid, add_order_mpid, order_delete, order_cancel, order_executed,
  order_replace, itch_type, ItchAddOrder, ItchDeleteOrder, ItchOrderExecuted, ItchOrderCancel,
  ItchOrderReplace, parse_add_order, parse_delete_order, parse_order_cancel, parse_order_executed,
  parse_order_replace,
}
use udp_multicast_receiver.Book.Maps.{find}
use udp_multicast_receiver.Book.Order.{
  OrderBook, notify_if_top_changed, apply_add, apply_delete, apply_cancel, apply_executed,
  apply_replace,
}
use udp_multicast_receiver.Book.Multi.{
  MultiSymbolBook, TopChange, book_at, wire_book, symbol_of, route, ingest_add, ingest_delete,
  ingest_cancel, ingest_executed, ingest_replace, handled, dispatch, ingest_message,
}

notify-clock :
    (b : OrderBook) (s t : ℕ) → (notify_if_top_changed b s).0 ≡ (notify_if_top_changed b t).0
unfolding notify_if_top_changed
notify-clock b s t = ground arith

apply_add-clock :
    (b : OrderBook) (m : ItchAddOrder) (s t : ℕ) → (apply_add b m s).0 ≡ (apply_add b m t).0
unfolding apply_add
apply_add-clock b m s t = elim (Option-cases (find m.order_ref b.orders)) [
  | inl e ↦ rw (e, apply_add) (notify-clock _ s t)
  | inr (o, e) ↦ rw (e, apply_add) (refl)
]

apply_delete-clock :
    (b : OrderBook) (m : ItchDeleteOrder) (s t : ℕ)
    → (apply_delete b m s).0 ≡ (apply_delete b m t).0
unfolding apply_delete
apply_delete-clock b m s t = elim (Option-cases (find m.order_ref b.orders)) [
  | inl e ↦ rw (e, apply_delete) (refl)
  | inr (o, e) ↦ rw (e, apply_delete) (notify-clock _ s t)
]

apply_cancel-clock :
    (b : OrderBook) (m : ItchOrderCancel) (s t : ℕ)
    → (apply_cancel b m s).0 ≡ (apply_cancel b m t).0
unfolding apply_cancel
apply_cancel-clock b m s t = elim (Option-cases (find m.order_ref b.orders)) [
  | inl e ↦ rw (e, apply_cancel) (refl)
  | inr (o, e) ↦ rw (e, apply_cancel) (notify-clock _ s t)
]

apply_executed-clock :
    (b : OrderBook) (m : ItchOrderExecuted) (s t : ℕ)
    → (apply_executed b m s).0 ≡ (apply_executed b m t).0
unfolding apply_executed
apply_executed-clock b m s t = elim (Option-cases (find m.order_ref b.orders)) [
  | inl e ↦ rw (e, apply_executed) (refl)
  | inr (o, e) ↦ rw (e, apply_executed) (notify-clock _ s t)
]

apply_replace-clock :
    (b : OrderBook) (m : ItchOrderReplace) (s t : ℕ)
    → (apply_replace b m s).0 ≡ (apply_replace b m t).0
unfolding apply_replace
apply_replace-clock b m s t = elim (Option-cases (find m.orig_order_ref b.orders)) [
  | inl e ↦ rw (e, apply_replace) (refl)
  | inr (o, e) ↦ rw (e, apply_replace) (notify-clock _ s t)
]

module _ (mb : MultiSymbolBook) (s t : ℕ) where
  ingest_add-clock : (m : ItchAddOrder) → (ingest_add mb m s).0 ≡ (ingest_add mb m t).0
  unfolding ingest_add
  ingest_add-clock m =
      rw
        (apply_add-clock (wire_book mb (symbol_of m.stock) (book_at mb (symbol_of m.stock))).0 m s
          t)
        refl

  ingest_delete-clock : (m : ItchDeleteOrder) → (ingest_delete mb m s).0 ≡ (ingest_delete mb m t).0
  unfolding ingest_delete
  ingest_delete-clock m = elim (Option-cases (route mb m.order_ref)) [
    | inl e ↦ rw (e, ingest_delete) refl
    | inr (found, e) ↦ rw (e, ingest_delete, apply_delete-clock found.1 m s t) refl
  ]

  ingest_cancel-clock : (m : ItchOrderCancel) → (ingest_cancel mb m s).0 ≡ (ingest_cancel mb m t).0
  unfolding ingest_cancel
  ingest_cancel-clock m = elim (Option-cases (route mb m.order_ref)) [
    | inl e ↦ rw (e, ingest_cancel) refl
    | inr (found, e) ↦ rw (e, ingest_cancel, apply_cancel-clock found.1 m s t) refl
  ]

  ingest_executed-clock :
      (m : ItchOrderExecuted) → (ingest_executed mb m s).0 ≡ (ingest_executed mb m t).0
  unfolding ingest_executed
  ingest_executed-clock m = elim (Option-cases (route mb m.order_ref)) [
    | inl e ↦ rw (e, ingest_executed) refl
    | inr (found, e) ↦ rw (e, ingest_executed, apply_executed-clock found.1 m s t) refl
  ]

  ingest_replace-clock :
      (m : ItchOrderReplace) → (ingest_replace mb m s).0 ≡ (ingest_replace mb m t).0
  unfolding ingest_replace
  ingest_replace-clock m = elim (Option-cases (find m.orig_order_ref mb.order_symbol)) [
    | inl e ↦ rw (e, ingest_replace) refl
    | inr (symbol, e) ↦ rw (e, ingest_replace, apply_replace-clock (book_at mb symbol) m s t) refl
  ]

handled-clock :
    {M : Type 0} (op : MultiSymbolBook → M → ℕ → MultiSymbolBook × Option TopChange)
    (mb : MultiSymbolBook) (o : Option M) (s t : ℕ)
    → ((m : M) → (op mb m s).0 ≡ (op mb m t).0)
    → (handled op mb o s).0.0 ≡ (handled op mb o t).0.0
handled-clock op mb none s t h = refl
handled-clock op mb (some m) s t h = h m

dispatch-clock :
    (mb : MultiSymbolBook) (kind : ItchMsgType) (m : MoldMessage) (q t : ℕ)
    → (dispatch mb kind m).0.0 ≡ (dispatch mb kind (record m { seq_num = q; recv_ns = t })).0.0
unfolding dispatch
dispatch-clock mb add_order_no_mpid m q t =
    handled-clock ingest_add mb (parse_add_order m.body) m.recv_ns t
      (ingest_add-clock mb m.recv_ns t)
dispatch-clock mb add_order_mpid m q t =
    handled-clock ingest_add mb (parse_add_order m.body) m.recv_ns t
      (ingest_add-clock mb m.recv_ns t)
dispatch-clock mb order_delete m q t =
    handled-clock ingest_delete mb (parse_delete_order m.body) m.recv_ns t
      (ingest_delete-clock mb m.recv_ns t)
dispatch-clock mb order_cancel m q t =
    handled-clock ingest_cancel mb (parse_order_cancel m.body) m.recv_ns t
      (ingest_cancel-clock mb m.recv_ns t)
dispatch-clock mb order_executed m q t =
    handled-clock ingest_executed mb (parse_order_executed m.body) m.recv_ns t
      (ingest_executed-clock mb m.recv_ns t)
dispatch-clock mb order_replace m q t =
    handled-clock ingest_replace mb (parse_order_replace m.body) m.recv_ns t
      (ingest_replace-clock mb m.recv_ns t)
dispatch-clock mb _ m q t = refl

-- Two messages of the same length and body change the books alike, whatever their numbers and
-- times.
pub ingest_message-clock :
    (mb : MultiSymbolBook) (m : MoldMessage) (q t : ℕ)
    → (ingest_message mb m).0.0 ≡ (ingest_message mb (record m { seq_num = q; recv_ns = t })).0.0
unfolding ingest_message
ingest_message-clock mb m q t = elim (Bool-cases (m.length == 0)) [
  | inl e ↦ rw (e, ingest_message) refl
  | inr e ↦ rw (e, ingest_message) (dispatch-clock mb (itch_type 0 m.body) m q t)
]
