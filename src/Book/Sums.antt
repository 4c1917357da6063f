-- ===== src/Book/Sums.antt =====
-- What the resting orders of include/feed/order_book.hpp add up to at a price.
use udp_multicast_receiver.Common.{
  ℕ, ◌+◌, ◌*◌, ◌^◌, ◌≤◌, ◌<◌, ◌≡◌, refl, Bool, not, ◌&&◌, Option, none, some, List, [], ◌∷◌, length,
  ◌==◌, if◌then◌else◌, arith,
}
use udp_multicast_receiver.Book.Maps.{find, insert, erase}
use udp_multicast_receiver.Book.Level.{LevelAgg}
use udp_multicast_receiver.Book.Order.{OrderRecord, is_bid}

abbrev pub Orders : Type 0
Orders = List (ℕ × OrderRecord)

-- The order rests on that side.
abbrev pub on_side : Bool → ℕ → Bool
on_side bid side = if bid then is_bid side else not (is_bid side)

abbrev pub rests_at : Bool → ℕ → OrderRecord → Bool
rests_at bid price o = on_side bid o.side && o.price == price

abbrev pub one_if : Bool → ℕ
one_if here = if here then 1 else 0

abbrev pub shares_if : Bool → ℕ → ℕ
shares_if here shares = if here then shares else 0

module _ (bid : Bool) (price : ℕ) where
  unfoldable pub count_at : Orders → ℕ
  count_at [] = 0
  count_at ((k, o) ∷ m) = one_if (rests_at bid price o) + count_at m

  unfoldable pub shares_at : Orders → ℕ
  shares_at [] = 0
  shares_at ((k, o) ∷ m) = shares_if (rests_at bid price o) o.shares + shares_at m

  -- The level that the resting orders make up: none without an order.
  unfoldable pub level_of : Orders → Option LevelAgg
  level_of m =
      if count_at m == 0
      then none
      else some (record { shares = shares_at m; order_count = count_at m })

  pub sums-insert_new :
      (k : ℕ) (o : OrderRecord) (m : Orders)
      → find k m ≡ none
      → (count_at (insert k o m) ≡ one_if (rests_at bid price o) + count_at m)
        × (shares_at (insert k o m) ≡ shares_if (rests_at bid price o) o.shares + shares_at m)
  unfolding find insert count_at shares_at
  sums-insert_new k o [] h = (refl, refl)
  sums-insert_new k o ((j, w) ∷ m) h = ground (arith, sums-insert_new k o m)

  -- An order is replaced under its reference.
  pub sums-insert_over :
      (k : ℕ) (o new : OrderRecord) (m : Orders)
      → find k m ≡ some o
      → (count_at (insert k new m) + one_if (rests_at bid price o)
          ≡ count_at m + one_if (rests_at bid price new))
        × (shares_at (insert k new m) + shares_if (rests_at bid price o) o.shares
            ≡ shares_at m + shares_if (rests_at bid price new) new.shares)
  unfolding find insert count_at shares_at
  sums-insert_over k o new [] h = absurd (cc)
  sums-insert_over k o new ((j, w) ∷ m) h = ground (arith, sums-insert_over k o new m)

  pub sums-erase :
      (k : ℕ) (o : OrderRecord) (m : Orders)
      → find k m ≡ some o
      → (count_at m ≡ one_if (rests_at bid price o) + count_at (erase k m))
        × (shares_at m ≡ shares_if (rests_at bid price o) o.shares + shares_at (erase k m))
  unfolding find erase count_at shares_at
  sums-erase k o [] h = absurd (cc)
  sums-erase k o ((j, w) ∷ m) h = ground (arith, sums-erase k o m)

-- Every order's shares fit 32 bits.
abbrev pub SharesFit : Orders → Type 0
SharesFit [] = Unit {0}
SharesFit ((k, o) ∷ m) = (o.shares < 2 ^ 32) × SharesFit m

module _ (bid : Bool) (price : ℕ) where
  pub sums_bounds :
      (m : Orders)
      → SharesFit m
      → (count_at bid price m ≤ length m)
        × (shares_at bid price m ≤ 4294967295 * count_at bid price m)
  unfolding count_at shares_at
  sums_bounds [] f = omega arith
  sums_bounds ((k, o) ∷ m) f = ground (arith, sums_bounds m f.1)

pub SharesFit-find :
    (k : ℕ) (o : OrderRecord) (m : Orders) → SharesFit m → find k m ≡ some o → o.shares < 2 ^ 32
unfolding find
SharesFit-find k o [] f h = absurd (cc)
SharesFit-find k o ((j, w) ∷ m) f h = ground (arith, SharesFit-find k o m f.1)

pub SharesFit-insert :
    (k : ℕ) (o : OrderRecord) (m : Orders)
    → o.shares < 2 ^ 32
    → SharesFit m
    → SharesFit (insert k o m)
unfolding insert
SharesFit-insert k o [] h f = (h, tt)
SharesFit-insert k o ((j, w) ∷ m) h f = ground (arith, SharesFit-insert k o m h f.1)

pub SharesFit-erase : (k : ℕ) (m : Orders) → SharesFit m → SharesFit (erase k m)
unfolding erase
SharesFit-erase k [] f = tt
SharesFit-erase k ((j, w) ∷ m) f = ground (arith, SharesFit-erase k m f.1)

pub length-insert-le : (k : ℕ) (o : OrderRecord) (m : Orders) → length (insert k o m) ≤ length m + 1
unfolding insert
length-insert-le k o [] = omega arith
length-insert-le k o ((j, w) ∷ m) = ground (arith, length-insert-le k o m)

pub length-insert_over :
    (k : ℕ) (o new : OrderRecord) (m : Orders)
    → find k m ≡ some o
    → length (insert k new m) ≡ length m
unfolding find insert
length-insert_over k o new [] h = absurd (cc)
length-insert_over k o new ((j, w) ∷ m) h = ground (arith, length-insert_over k o new m)

pub length-erase :
    (k : ℕ) (o : OrderRecord) (m : Orders) → find k m ≡ some o → length (erase k m) + 1 ≡ length m
unfolding find erase
length-erase k o [] h = absurd (cc)
length-erase k o ((j, w) ∷ m) h = ground (arith, length-erase k o m)
