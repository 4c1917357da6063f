-- ===== src/Book/Consistent/Apply.antt =====
-- A history of messages of OrderBook (include/feed/order_book.hpp) keeps the invariant.
use udp_multicast_receiver.Common.{
  ℕ, ◌+◌, ◌^◌, ◌<◌, ◌≡◌, refl, Bool, true, false, none, [], length, arith,
}
use udp_multicast_receiver.Wire.Itch.{
  ItchAddOrder, ItchDeleteOrder, ItchOrderExecuted, ItchOrderCancel, ItchOrderReplace,
}
use udp_multicast_receiver.Book.Maps.{find, erase}
use udp_multicast_receiver.Book.Order.{
  OrderBook, empty_book, set_on_top_change, apply_add, apply_delete, apply_cancel, apply_executed,
  apply_replace,
}
use udp_multicast_receiver.Book.Level.{IsSorted}
use udp_multicast_receiver.Book.Sums.{level_of, count_at}
use udp_multicast_receiver.Book.Consistent.{IsConsistent, levels}
use udp_multicast_receiver.Book.Consistent.Messages.{
  same-IsConsistent, apply_add-IsConsistent, apply_delete-IsConsistent, apply_cancel-IsConsistent,
  apply_executed-IsConsistent, apply_replace-IsConsistent,
}

-- A history of one symbol's book: the messages of a stream whose shares fit their field, with fewer
-- than 2 ^ 32 orders at rest, and in which a Replace does not take the reference of another resting
-- order. Deletes, Cancels and Executeds may be of any order, known or not.
pub data Applied : OrderBook → Type 0 where
  empty : Applied empty_book
  listen : (b : OrderBook) → Applied b → Applied (set_on_top_change b)
  add :
      (b : OrderBook) (m : ItchAddOrder) (recv : ℕ)
      → Applied b
      → m.shares < 2 ^ 32
      → length b.orders + 1 < 2 ^ 32
      → Applied (apply_add b m recv).0
  delete :
      (b : OrderBook) (m : ItchDeleteOrder) (recv : ℕ)
      → Applied b
      → Applied (apply_delete b m recv).0
  cancel :
      (b : OrderBook) (m : ItchOrderCancel) (recv : ℕ)
      → Applied b
      → Applied (apply_cancel b m recv).0
  execute :
      (b : OrderBook) (m : ItchOrderExecuted) (recv : ℕ)
      → Applied b
      → Applied (apply_executed b m recv).0
  replace :
      (b : OrderBook) (m : ItchOrderReplace) (recv : ℕ)
      → Applied b
      → m.shares < 2 ^ 32
      → find m.new_order_ref (erase m.orig_order_ref b.orders) ≡ none
      → Applied (apply_replace b m recv).0

pub empty-IsConsistent : IsConsistent empty_book
unfolding find level_of
empty-IsConsistent = record {
  orders_map = tt;
  shares_fit = tt;
  orders_fit = omega arith;
  sorted = none_sorted;
  matched = none_matched;
}
  where
    none_sorted : (bid : Bool) → IsSorted bid (levels bid empty_book)
    none_sorted true = tt
    none_sorted false = tt

    none_matched : (bid : Bool) (p : ℕ) → find p (levels bid empty_book) ≡ level_of bid p []
    none_matched true p = unfold count_at in refl
    none_matched false p = unfold count_at in refl

-- After any history of messages from the empty book, in which shares fit their field, fewer than 2
-- ^ 32 orders rest at a time and a Replace does not take the reference of another resting order:
-- every price level holds the number and the total shares of the orders that rest at its price and
-- side, no level is left without orders or missing, and both sides are sorted with the best price
-- first.
pub Applied-IsConsistent : {b : OrderBook} → Applied b → IsConsistent b
unfolding set_on_top_change
Applied-IsConsistent empty = empty-IsConsistent
Applied-IsConsistent (listen b a) = same-IsConsistent b _ refl refl refl (Applied-IsConsistent a)
Applied-IsConsistent (add b m recv a fit room) =
    apply_add-IsConsistent b m recv fit room (Applied-IsConsistent a)
Applied-IsConsistent (delete b m recv a) =
    apply_delete-IsConsistent b m recv (Applied-IsConsistent a)
Applied-IsConsistent (cancel b m recv a) =
    apply_cancel-IsConsistent b m recv (Applied-IsConsistent a)
Applied-IsConsistent (execute b m recv a) =
    apply_executed-IsConsistent b m recv (Applied-IsConsistent a)
Applied-IsConsistent (replace b m recv a fit fresh) =
    apply_replace-IsConsistent b m recv fit fresh (Applied-IsConsistent a)
