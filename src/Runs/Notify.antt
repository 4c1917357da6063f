-- ===== src/Runs/Notify.antt =====
-- A concrete book of include/feed/order_book.hpp with a callback.
use udp_multicast_receiver.Common.{◌≡◌, refl, inl, true, false, none, some, [], ◌∷◌, if◌then◌else◌}
use udp_multicast_receiver.Wire.Itch.{ItchAddOrder, ItchOrderExecuted}
use udp_multicast_receiver.Book.Maps.{find}
use udp_multicast_receiver.Book.Order.{
  OrderBook, empty_book, set_on_top_change, apply_add, notify_if_top_changed, top, place,
  add_to_level, level_changed, best,
}
use udp_multicast_receiver.Book.Notify.{adds, executes, apply_message, top_differs, IsReported}
use udp_multicast_receiver.Book.Notify.Exact.{apply_message-IsReported, apply_message-notifies}

abbrev bid : ItchAddOrder
bid = record {
  timestamp_ns = 1;
  stock_locate = 12;
  order_ref = 7;
  shares = 300;
  price = 100;
  stock = b'A' ∷ b'A' ∷ b'P' ∷ b'L' ∷ b' ' ∷ b' ' ∷ b' ' ∷ b' ' ∷ 0 ∷ [];
  side = b'B';
  has_mpid = false;
}

abbrev listening : OrderBook
listening = set_on_top_change empty_book

listening-IsReported : IsReported listening
unfolding set_on_top_change
listening-IsReported = record { reported = inl refl }

-- After its first report.
abbrev reported : OrderBook
reported = (apply_message listening (adds bid) 5).0

reported-on : (reported.on_top_change ≡ true) × (reported.last_top_valid ≡ true)
unfolding apply_message apply_add notify_if_top_changed set_on_top_change find place add_to_level
    top level_changed best
reported-on = (refl, refl)

abbrev fill : ItchOrderExecuted
fill = record { timestamp_ns = 2; order_ref = 7; executed_shares = 100; match_number = 1 }

apply_message-notifies_example :
    let r = apply_message reported (executes fill) 9 in
    r.1 ≡ (if top_differs (top r.0) (top reported) then some (top r.0, 9) else none)
apply_message-notifies_example =
    apply_message-notifies reported (executes fill) 9
      (apply_message-IsReported listening (adds bid) 5 listening-IsReported) reported-on.0
      reported-on.1
