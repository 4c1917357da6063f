-- ===== src/Book/Multi.antt =====
-- MultiSymbolBook of include/feed/order_book.hpp: the decoded stream routed to one book per symbol.
pub mod Arrival
pub mod Clock
pub mod Stores
pub mod Routing
pub mod Stream
use udp_multicast_receiver.Common.{
  ℕ, ◌+◌, Bool, true, false, not, ◌&&◌, Option, none, some, List, [], ◌∷◌, reverse, length, ◌==◌,
  if◌then◌else◌, u64,
}
use udp_multicast_receiver.Wire.Mold.{MoldMessage}
use udp_multicast_receiver.Wire.Itch.{
  ItchMsgType, add_order_no_mpid, add_order_mpid, order_executed, order_cancel, order_delete,
  order_replace, itch_type, ItchAddOrder, ItchDeleteOrder, ItchOrderExecuted, ItchOrderCancel,
  ItchOrderReplace, parse_add_order, parse_delete_order, parse_order_executed, parse_order_cancel,
  parse_order_replace,
}
use udp_multicast_receiver.Book.Maps.{find, insert, erase}
use udp_multicast_receiver.Book.Order.{
  OrderBook, TopOfBook, empty_book, set_on_top_change, apply_add, apply_delete, apply_cancel,
  apply_executed, apply_replace,
}

-- `==` of two std::string.
unfoldable pub same_text : List ℕ → List ℕ → Bool
same_text [] [] = true
same_text [] (d ∷ t) = false
same_text (c ∷ s) [] = false
same_text (c ∷ s) (d ∷ t) = c == d && same_text s t

unfoldable pub find_book : List ℕ → List (List ℕ × OrderBook) → Option OrderBook
find_book s [] = none
find_book s ((t, b) ∷ m) = if same_text t s then some b else find_book s m

unfoldable pub put_book : List ℕ → OrderBook → List (List ℕ × OrderBook) → List (List ℕ × OrderBook)
put_book s b [] = (s, b) ∷ []
put_book s b ((t, c) ∷ m) = if same_text t s then (t, b) ∷ m else (t, c) ∷ put_book s b m

unfoldable pub is_wired : List ℕ → List (List ℕ) → Bool
is_wired s [] = false
is_wired s (t ∷ w) = if same_text t s then true else is_wired s w

-- `on_top_change` tells whether the callback is set.
pub record MultiSymbolBook : Type 0 where
  pub books : List (List ℕ × OrderBook)
  pub order_symbol : List (ℕ × List ℕ)
  pub wired : List (List ℕ)
  pub on_top_change : Bool
  pub unrouted : ℕ

abbrev pub no_books : MultiSymbolBook
no_books = record { books = []; order_symbol = []; wired = []; on_top_change = false; unrouted = 0 }

-- One call of the callback.
pub record TopChange : Type 0 where
  pub symbol : List ℕ
  pub top : TopOfBook
  pub recv_ns : ℕ

unfoldable pub book_for : MultiSymbolBook → List ℕ → Option OrderBook
book_for mb symbol = find_book symbol mb.books

-- `books_[symbol]`
unfoldable pub book_at : MultiSymbolBook → List ℕ → OrderBook
book_at mb symbol = elim (find_book symbol mb.books) [ none ↦ empty_book | some b ↦ b ]

-- The symbol and the book that an order reference leads to.
unfoldable pub route : MultiSymbolBook → ℕ → Option (List ℕ × OrderBook)
route mb order_ref = elim (find order_ref mb.order_symbol) [
  | none ↦ none
  | some symbol ↦ elim (find_book symbol mb.books) [ none ↦ none | some b ↦ some (symbol, b) ]
]

-- A std::string_view of a null-terminated array.
unfoldable pub until_null : List ℕ → List ℕ
until_null [] = []
until_null (c ∷ s) = if c == 0 then [] else c ∷ until_null s

unfoldable pub skip_spaces : List ℕ → List ℕ
skip_spaces [] = []
skip_spaces (c ∷ s) = if c == b' ' then skip_spaces s else c ∷ s

unfoldable pub symbol_of : List ℕ → List ℕ
symbol_of stock = reverse (skip_spaces (reverse (until_null stock)))

-- The book with its callback attached, and the symbols that have been wired.
unfoldable pub wire_book : MultiSymbolBook → List ℕ → OrderBook → OrderBook × List (List ℕ)
wire_book mb symbol book =
    if is_wired symbol mb.wired
    then (book, mb.wired)
    else (if mb.on_top_change then set_on_top_change book else book, symbol ∷ mb.wired)

-- The callback's call, under the symbol that was wired.
unfoldable pub named : List ℕ → Option (TopOfBook × ℕ) → Option TopChange
named symbol none = none
named symbol (some (t, ns)) = some (record { symbol = symbol; top = t; recv_ns = ns })

-- The book of a symbol after one of its operations.
abbrev pub stored : MultiSymbolBook → List ℕ → OrderBook → MultiSymbolBook
stored mb symbol b = record mb { books = put_book symbol b mb.books }

unfoldable pub count_unrouted : MultiSymbolBook → MultiSymbolBook
count_unrouted mb = record mb { unrouted = u64 (mb.unrouted + 1) }

-- `book_order_gone` looks at nothing.
unfoldable pub book_order_gone : OrderBook → ℕ → Bool
book_order_gone book order_ref = false

unfoldable pub ingest_add : MultiSymbolBook → ItchAddOrder → ℕ → MultiSymbolBook × Option TopChange
ingest_add mb m recv_ns =
    let symbol = symbol_of m.stock in
    let (book, now_wired) = wire_book mb symbol (book_at mb symbol) in
    let (after, call) = apply_add book m recv_ns in
    (
      record (stored mb symbol after) {
        order_symbol = insert m.order_ref symbol mb.order_symbol;
        wired = now_wired;
      },
      named symbol call,
    )

unfoldable pub ingest_delete :
    MultiSymbolBook → ItchDeleteOrder → ℕ → MultiSymbolBook × Option TopChange
ingest_delete mb m recv_ns = elim (route mb m.order_ref) [
  | none ↦ (count_unrouted mb, none)
  | some (symbol, book) ↦
      let (after, call) = apply_delete book m recv_ns in
      (
        record (stored mb symbol after) { order_symbol = erase m.order_ref mb.order_symbol },
        named symbol call,
      )
]

unfoldable pub ingest_cancel :
    MultiSymbolBook → ItchOrderCancel → ℕ → MultiSymbolBook × Option TopChange
ingest_cancel mb m recv_ns = elim (route mb m.order_ref) [
  | none ↦ (count_unrouted mb, none)
  | some (symbol, book) ↦
      let (after, call) = apply_cancel book m recv_ns in (stored mb symbol after, named symbol call)
]

unfoldable pub ingest_executed :
    MultiSymbolBook → ItchOrderExecuted → ℕ → MultiSymbolBook × Option TopChange
ingest_executed mb m recv_ns = elim (route mb m.order_ref) [
  | none ↦ (count_unrouted mb, none)
  | some (symbol, book) ↦
      let (after, call) = apply_executed book m recv_ns in
      let kept = stored mb symbol after in
      (
        if book_order_gone after m.order_ref
            then record kept { order_symbol = erase m.order_ref mb.order_symbol }
            else kept,
        named symbol call,
      )
]

unfoldable pub ingest_replace :
    MultiSymbolBook → ItchOrderReplace → ℕ → MultiSymbolBook × Option TopChange
ingest_replace mb m recv_ns = elim (find m.orig_order_ref mb.order_symbol) [
  | none ↦ (count_unrouted mb, none)
  | some symbol ↦
      let (after, call) = apply_replace (book_at mb symbol) m recv_ns in
      (
        record (stored mb symbol after) {
          order_symbol = insert m.new_order_ref symbol (erase m.orig_order_ref mb.order_symbol);
        },
        named symbol call,
      )
]

-- `if (!parse(..., m)) return false;`, and `true` behind the operation.
abbrev pub handled {ℓ} :
    {M : Type ℓ}
    → (MultiSymbolBook → M → ℕ → MultiSymbolBook × Option TopChange)
    → MultiSymbolBook
    → Option M
    → ℕ
    → (MultiSymbolBook × Option TopChange) × Bool
handled op mb none recv_ns = ((mb, none), false)
handled op mb (some m) recv_ns = (op mb m recv_ns, true)

-- The switch of `ingest`, behind the test of the length.
unfoldable pub dispatch :
    MultiSymbolBook → ItchMsgType → MoldMessage → (MultiSymbolBook × Option TopChange) × Bool
dispatch mb kind msg = elim kind [
  | add_order_no_mpid ↦ handled ingest_add mb (parse_add_order msg.body) msg.recv_ns
  | add_order_mpid ↦ handled ingest_add mb (parse_add_order msg.body) msg.recv_ns
  | order_delete ↦ handled ingest_delete mb (parse_delete_order msg.body) msg.recv_ns
  | order_cancel ↦ handled ingest_cancel mb (parse_order_cancel msg.body) msg.recv_ns
  | order_executed ↦ handled ingest_executed mb (parse_order_executed msg.body) msg.recv_ns
  | order_replace ↦ handled ingest_replace mb (parse_order_replace msg.body) msg.recv_ns
  | _ ↦ ((mb, none), false)
]

-- The body is not empty where its type is read, so no byte behind it is. The second result is the
-- code's; the first holds the callback's call beside the state.
unfoldable pub ingest_message :
    MultiSymbolBook → MoldMessage → (MultiSymbolBook × Option TopChange) × Bool
ingest_message mb msg =
    if msg.length == 0 then ((mb, none), false) else dispatch mb (itch_type 0 msg.body) msg
