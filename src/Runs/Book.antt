-- ===== src/Runs/Book.antt =====
-- Concrete books and messages of include/feed/order_book.hpp.
use udp_multicast_receiver.Common.{ℕ, ◌≡◌, refl, true, false, some, List, [], ◌∷◌, arith}
use udp_multicast_receiver.Wire.Mold.{MoldMessage}
use udp_multicast_receiver.Wire.Itch.{
  ItchAddOrder, ItchOrderCancel, ItchOrderExecuted, ItchOrderReplace,
}
use udp_multicast_receiver.Book.Maps.{find, insert}
use udp_multicast_receiver.Book.Order.{
  OrderBook, empty_book, place, add_to_level, notify_if_top_changed, apply_add, apply_cancel, top,
}
use udp_multicast_receiver.Book.Consistent.{IsConsistent}
use udp_multicast_receiver.Book.Consistent.Apply.{Applied, empty, add, cancel, Applied-IsConsistent}
use udp_multicast_receiver.Book.Top.{ShowsBest, top-ShowsBest}
use udp_multicast_receiver.Book.Rests.{rests}
use udp_multicast_receiver.Book.Notify.{executes, apply_message}
use udp_multicast_receiver.Book.View.{view, meaning, apply_message-view}
use udp_multicast_receiver.Book.Multi.{
  MultiSymbolBook, no_books, ingest_add, find_book, put_book, same_text, book_at, wire_book,
  is_wired, symbol_of, until_null, skip_spaces,
}
use udp_multicast_receiver.Book.Multi.Routing.{IsRouted, ingest_add-IsRouted}
use udp_multicast_receiver.Book.Multi.Stream.{no_books-IsRouted}

abbrev stock : List ℕ
stock = b'A' ∷ b'A' ∷ b'P' ∷ b'L' ∷ b' ' ∷ b' ' ∷ b' ' ∷ b' ' ∷ 0 ∷ []

abbrev bid_100 : ItchAddOrder
bid_100 = record {
  timestamp_ns = 1;
  stock_locate = 12;
  order_ref = 7;
  shares = 300;
  price = 100;
  stock = stock;
  side = b'B';
  has_mpid = false;
}

abbrev bid_90 : ItchAddOrder
bid_90 = record bid_100 { order_ref = 8; shares = 50; price = 90 }

abbrev trim : ItchOrderCancel
trim = record { timestamp_ns = 2; order_ref = 7; cancelled_shares = 100 }

abbrev one_bid : OrderBook
one_bid = (apply_add empty_book bid_100 5).0

one_bid-Applied : Applied one_bid
one_bid-Applied = add empty_book bid_100 5 empty (omega arith) (omega arith)

abbrev two_bids : OrderBook
two_bids = (apply_add one_bid bid_90 6).0

two_bids-Applied : Applied two_bids
unfolding apply_add
two_bids-Applied =
    add one_bid bid_90 6 one_bid-Applied (omega arith)
      (unfold apply_add find insert place add_to_level notify_if_top_changed in omega arith)

Applied-IsConsistent_example : IsConsistent (apply_cancel two_bids trim 7).0
Applied-IsConsistent_example = Applied-IsConsistent (cancel two_bids trim 7 two_bids-Applied)

two_bids-IsConsistent : IsConsistent two_bids
two_bids-IsConsistent = Applied-IsConsistent two_bids-Applied

top-ShowsBest_example :
    ShowsBest true two_bids.orders (top two_bids).bid
    × ShowsBest false two_bids.orders (top two_bids).ask
top-ShowsBest_example = top-ShowsBest two_bids two_bids-IsConsistent

-- Order 7 is replaced by one with the reference of order 8.
abbrev onto_eight : ItchOrderReplace
onto_eight = record {
  timestamp_ns = 3;
  orig_order_ref = 7;
  new_order_ref = 8;
  shares = 10;
  price = 95;
}

-- An Add Order message on the wire.
abbrev add_message : MoldMessage
add_message = record {
  length = 36;
  body =
      b'A' ∷ 0 ∷ 12 ∷ 0 ∷ 2 ∷ 0 ∷ 0 ∷ 0 ∷ 0 ∷ 0 ∷ 1 ∷ 0 ∷ 0 ∷ 0 ∷ 0 ∷ 0 ∷ 0 ∷ 0 ∷ 7 ∷ b'B' ∷ 0 ∷ 0
      ∷ 1 ∷ 44 ∷ b'A' ∷ b'A' ∷ b'P' ∷ b'L' ∷ b' ' ∷ b' ' ∷ b' ' ∷ b' ' ∷ 0 ∷ 0 ∷ 0 ∷ 100 ∷ [];
  seq_num = 1;
  recv_ns = 5;
}

abbrev routed_bid : MultiSymbolBook
routed_bid = (ingest_add no_books bid_100 5).0

routed_bid-IsRouted : IsRouted routed_bid
routed_bid-IsRouted =
    ingest_add-IsRouted no_books no_books-IsRouted bid_100 5 (omega arith)
      (λ s b e. unfold find_book in absurd (cc)) (unfold find in refl)

abbrev symbol : List ℕ
symbol = b'A' ∷ b'A' ∷ b'P' ∷ b'L' ∷ []

symbol_book : find_book symbol routed_bid.books ≡ some one_bid
unfolding ingest_add
symbol_book =
    unfold book_at wire_book is_wired symbol_of until_null skip_spaces same_text find_book
      put_book in
    refl

bid_rests : rests 7 one_bid ≡ true
unfolding apply_add
bid_rests = unfold rests find insert place add_to_level notify_if_top_changed in refl

-- An Executed of 100 of the 300 shares.
abbrev fill : ItchOrderExecuted
fill = record { timestamp_ns = 3; order_ref = 7; executed_shares = 100; match_number = 1 }

apply_message-view_example :
    view (apply_message two_bids (executes fill) 9).0 7 ≡ meaning (view two_bids) (executes fill) 7
apply_message-view_example = apply_message-view two_bids two_bids-IsConsistent 9 7 (executes fill)
