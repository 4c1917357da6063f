-- ===== src/Book/Top.antt =====
-- The top of the book of include/feed/order_book.hpp against the resting orders.
use udp_multicast_receiver.Common.{
  ℕ, ◌<◌, ◌≡◌, ◌∙◌, sym, Bool, true, false, inl, inr, Option, Option-cases, none, some, [], ◌∷◌,
  arith,
}
use udp_multicast_receiver.Book.Maps.{find}
use udp_multicast_receiver.Book.Level.{LevelAgg, Levels, before, IsSorted, begin-best}
use udp_multicast_receiver.Book.Order.{OrderBook, PriceLevel, best, top}
use udp_multicast_receiver.Book.Sums.{Orders, count_at, shares_at, level_of}
use udp_multicast_receiver.Book.Consistent.{IsConsistent}

-- A better price than `q`: a higher one to buy at, a lower one to sell at.
abbrev pub Better : Bool → ℕ → ℕ → Type 0
Better true p q = q < p
Better false p q = p < q

-- What a side of the top of the book shows: nothing if no order rests on that side; otherwise the
-- number and the shares of the orders at the best price, and no order rests at a better one.
abbrev pub ShowsBest : Bool → Orders → Option PriceLevel → Type 0
ShowsBest bid orders none = (p : ℕ) → count_at bid p orders ≡ 0
ShowsBest bid orders (some l) =
    (0 < l.orders)
    × (l.orders ≡ count_at bid l.price orders)
    × (l.shares ≡ shares_at bid l.price orders)
    × ((p : ℕ) → Better bid p l.price → count_at bid p orders ≡ 0)

level_of-none : (bid : Bool) (p : ℕ) (m : Orders) → level_of bid p m ≡ none → count_at bid p m ≡ 0
unfolding level_of
level_of-none bid p m h = ground arith

level_of-some :
    (bid : Bool) (p : ℕ) (m : Orders) (a : LevelAgg)
    → level_of bid p m ≡ some a
    → (0 < a.order_count) × (a.order_count ≡ count_at bid p m) × (a.shares ≡ shares_at bid p m)
unfolding level_of
level_of-some bid p m a h = (ground arith, ground arith, ground arith)

Better-before : (bid : Bool) (p q : ℕ) → Better bid p q → before bid p q ≡ true
Better-before true p q b = ground (arith, b)
Better-before false p q b = ground (arith, b)

best-ShowsBest :
    (bid : Bool) (m : Levels) (orders : Orders)
    → IsSorted bid m
    → ((p : ℕ) → find p m ≡ level_of bid p orders)
    → ShowsBest bid orders (best m)
unfolding best
best-ShowsBest bid [] orders s h = λ p. level_of-none bid p orders (unfold find in sym (h p))
best-ShowsBest bid ((q, a) ∷ m) orders s h =
    let here : find q ((q, a) ∷ m) ≡ some a = unfold find in ground arith in
    let (pos, n, sh) = level_of-some bid q orders a (sym (h q) ∙ here) in
    (
      pos,
      n,
      sh,
      λ p better. level_of-none bid p orders (sym (h p) ∙ nothing p (Better-before bid p q better)),
    )
  where
    nothing : (p : ℕ) → before bid p q ≡ true → find p ((q, a) ∷ m) ≡ none
    nothing p better = elim (Option-cases (find p ((q, a) ∷ m))) [
      | inl e ↦ e
      | inr (b, e) ↦ absurd (cc (begin-best bid p q a b m s e))
    ]

-- In a consistent book the top of the book shows, for each side, the best price at which an order
-- rests, the highest for bids and the lowest for asks, with the number and total shares of the
-- orders there, and nothing exactly when no order rests on that side.
pub top-ShowsBest :
    (b : OrderBook)
    → IsConsistent b
    → ShowsBest true b.orders (top b).bid × ShowsBest false b.orders (top b).ask
unfolding top
top-ShowsBest b v = (
  best-ShowsBest true b.bids b.orders (v.sorted true) (v.matched true),
  best-ShowsBest false b.asks b.orders (v.sorted false) (v.matched false),
)
