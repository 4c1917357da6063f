-- ===== src/Book.antt =====
-- include/feed/order_book.hpp: one symbol's limit order book, and the books of all symbols.
pub mod Maps
pub mod Level
pub mod Order
pub mod Sums
pub mod Consistent
pub mod Top
pub mod Faults
pub mod Rests
pub mod Notify
pub mod View
pub mod Multi
