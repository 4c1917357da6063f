-- ===== src/Book/Notify/Exact.antt =====
-- The books of include/feed/order_book.hpp call on_top_change exactly when the top has changed.
use udp_multicast_receiver.Common.{
  ℕ, ◌≡◌, ◌⊎◌, inl, inr, ◌||◌, refl, ap, true, false, Option, none, some, if◌then◌else◌, arith,
}
use udp_multicast_receiver.Book.Order.{
  PriceLevel, TopOfBook, OrderBook, level_changed, notify_if_top_changed, top,
}
use udp_multicast_receiver.Book.Notify.{
  BookMessage, apply_message, shows_other, top_differs, IsReported, apply_message-Outcome,
}

-- Differing is decided by what is shown, so tops that show the same differ from the same tops.
shows_other_trans :
    (p q r : Option PriceLevel) → shows_other q r ≡ false → shows_other p r ≡ shows_other p q
unfolding shows_other
shows_other_trans p none none h = refl
shows_other_trans p none (some r) h = cc
shows_other_trans p (some q) none h = cc
shows_other_trans none (some q) (some r) h = refl
shows_other_trans (some p) (some q) (some r) h = ground arith

top_differs_trans :
    (t u w : TopOfBook) → top_differs u w ≡ false → top_differs t w ≡ top_differs t u
unfolding top_differs
top_differs_trans t u w h =
    ground (arith, shows_other_trans t.bid u.bid w.bid, shows_other_trans t.ask u.ask w.ask)

shows_other_self : (p : Option PriceLevel) → shows_other p p ≡ false
unfolding shows_other
shows_other_self none = refl
shows_other_self (some p) = ground arith

top_differs_self : (t : TopOfBook) → top_differs t t ≡ false
unfolding top_differs
top_differs_self t = ground (arith, shows_other_self t.bid, shows_other_self t.ask)

top-notify : (c : OrderBook) (recv : ℕ) → top (notify_if_top_changed c recv).0 ≡ top c
unfolding notify_if_top_changed top
top-notify c recv = ground arith

level_changed_lem : (p q : Option PriceLevel) → level_changed p q ≡ shows_other p q
unfolding level_changed shows_other
level_changed_lem none none = refl
level_changed_lem none (some q) = refl
level_changed_lem (some p) none = refl
level_changed_lem (some p) (some q) = ground arith

changed_lem :
    (t u : TopOfBook) → level_changed t.bid u.bid || level_changed t.ask u.ask ≡ top_differs t u
unfolding top_differs
changed_lem t u = rw (level_changed_lem t.bid u.bid, level_changed_lem t.ask u.ask) refl

-- A notification of a book whose callback is set and whose last report is `last`.
notify_valid :
    (c : OrderBook) (recv : ℕ)
    → c.on_top_change ≡ true
    → c.last_top_valid ≡ true
    → let r = notify_if_top_changed c recv in
      (r.1 ≡ (if top_differs (top c) c.last_top then some (top c, recv) else none))
      × (r.0.last_top ≡ (if top_differs (top c) c.last_top then top c else c.last_top))
      × (r.0.last_top_valid ≡ true)
      × (r.0.on_top_change ≡ true)
unfolding notify_if_top_changed
notify_valid c recv on valid =
    let same = changed_lem (top c) c.last_top in
    (ground (arith, same), ground (arith, same), ground (arith, same), ground (arith, same))

notify_first :
    (c : OrderBook) (recv : ℕ)
    → c.last_top_valid ≡ false
    → let r = notify_if_top_changed c recv in
      (r.0.last_top_valid ≡ false) ⊎ ((r.0.on_top_change ≡ true) × (r.0.last_top ≡ top c))
unfolding notify_if_top_changed
notify_first c recv fresh = ground arith

-- What was reported last is kept up to date.
kept_up : (t last : TopOfBook) → top_differs t (if top_differs t last then t else last) ≡ false
kept_up t last = ground (arith, top_differs_self t)

-- Every message keeps what was last reported in step with the top of the book, callback or not.
pub apply_message-IsReported :
    (b : OrderBook) (msg : BookMessage) (recv : ℕ)
    → IsReported b
    → IsReported (apply_message b msg recv).0
apply_message-IsReported b msg recv v = elim (apply_message-Outcome b recv msg) [
  | inl (c, e, l, same) ↦ record {
    reported =
        ground
          (arith, v.reported, ap (λ r. r.0) e, l.same_callback, l.same_last, l.same_valid, same);
  }
  | inr (c, e, l) ↦ record {
    reported = ground (
      arith,
      v.reported,
      e,
      l.same_callback,
      l.same_last,
      l.same_valid,
      notify_valid c recv,
      notify_first c recv,
      top-notify c recv,
      kept_up (top c) c.last_top,
      top_differs_self (top c),
    );
  }
]

-- When the callback is set, a top has been reported, and the last report shows the same prices and
-- shares as the book: a message calls the callback exactly when the best price or its shares on some
-- side differ between the books before and after the message, and then with the new top and the
-- message's time.
pub apply_message-notifies :
    (b : OrderBook) (msg : BookMessage) (recv : ℕ)
    → IsReported b
    → b.on_top_change ≡ true
    → b.last_top_valid ≡ true
    → let r = apply_message b msg recv in
      r.1 ≡ (if top_differs (top r.0) (top b) then some (top r.0, recv) else none)
apply_message-notifies b msg recv v on valid = elim (apply_message-Outcome b recv msg) [
  | inl (c, e, l, same) ↦ ground (arith, e, same, top_differs_self (top b))
  | inr (c, e, l) ↦ ground (
    arith,
    v.reported,
    e,
    l.same_callback,
    l.same_last,
    l.same_valid,
    notify_valid c recv,
    top-notify c recv,
    top_differs_trans (top c) (top b) b.last_top,
  )
]
