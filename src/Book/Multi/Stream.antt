-- ===== src/Book/Multi/Stream.antt =====
-- A whole stream through MultiSymbolBook::ingest (include/feed/order_book.hpp).
use udp_multicast_receiver.Common.{ℕ, ◌≡◌, true, Option, none, some, List, arith}
use udp_multicast_receiver.Wire.Itch.{
  ItchMsgType, add_order_no_mpid, add_order_mpid, order_replace, ItchAddOrder, ItchOrderReplace,
  parse_add_order, parse_order_replace,
}
use udp_multicast_receiver.Book.Maps.{find}
use udp_multicast_receiver.Book.Order.{OrderBook}
use udp_multicast_receiver.Book.Rests.{rests}
use udp_multicast_receiver.Book.Multi.{MultiSymbolBook, no_books, find_book, route}
use udp_multicast_receiver.Book.Multi.Routing.{IsRouted}

abbrev added_ref : Option ItchAddOrder → Option ℕ
added_ref none = none
added_ref (some m) = some m.order_ref

abbrev replaced_ref : Option ItchOrderReplace → Option ℕ
replaced_ref none = none
replaced_ref (some m) = some m.new_order_ref

-- The order reference that a message of that type gives to a new order.
unfoldable pub new_ref : ItchMsgType → List ℕ → Option ℕ
new_ref kind body = elim kind [
  | add_order_no_mpid ↦ added_ref (parse_add_order body)
  | add_order_mpid ↦ added_ref (parse_add_order body)
  | order_replace ↦ replaced_ref (parse_order_replace body)
  | _ ↦ none
]

-- The reference of a new order is not in use.
abbrev pub IsNew : MultiSymbolBook → Option ℕ → Type 0
IsNew mb none = Unit {0}
IsNew mb (some ref) = find ref mb.order_symbol ≡ none

pub no_books-IsRouted : IsRouted no_books
no_books-IsRouted = record {
  consistent = λ s b e. unfold find_book in absurd (cc);
  routed = λ s b ref e h. absurd (unfold find_book in cc);
  index_map = tt;
}

-- When every resting order is routed to the book that it rests in, looking up the reference of an
-- order at rest in a symbol's book leads to that symbol and that book.
pub route-resting :
    (mb : MultiSymbolBook) (s : List ℕ) (b : OrderBook) (ref : ℕ)
    → IsRouted mb
    → find_book s mb.books ≡ some b
    → rests ref b ≡ true
    → route mb ref ≡ some (s, b)
unfolding route
route-resting mb s b ref v e h = ground (arith, v.routed s b ref e h)
