-- ===== src/Book/Faults.antt =====
-- A Replace onto a live order reference (include/feed/order_book.hpp, apply_replace).
use udp_multicast_receiver.Common.{ℕ, Option, none, some}
use udp_multicast_receiver.Book.Level.{LevelAgg}

abbrev count_of : Option LevelAgg → ℕ
count_of none = 0
count_of (some a) = a.order_count
