-- ===== src/Book/Level.antt =====
-- The price levels of one side (include/feed/order_book.hpp): std::map as a list sorted by key, the
-- first entry `begin()`.
use udp_multicast_receiver.Common.{
  ℕ, ◌+◌, ◌-◌, ◌≡◌, refl, Bool, true, false, ◌&&◌, Option, none, some, List, [], ◌∷◌, ltb, ◌==◌,
  if◌then◌else◌, u32, u64, min, arith,
}
use udp_multicast_receiver.Book.Maps.{find}

pub record LevelAgg : Type 0 where
  pub shares : ℕ
  pub order_count : ℕ

abbrev pub Levels : Type 0
Levels = List (ℕ × LevelAgg)

-- The map's order: `std::greater` for bids, `std::less` for asks.
abbrev pub before : Bool → ℕ → ℕ → Bool
before greater a b = if greater then ltb b a else ltb a b

abbrev pub no_orders : LevelAgg
no_orders = record { shares = 0; order_count = 0 }

-- `f(m[price])`: a missing key is inserted with a zero aggregate first.
unfoldable pub modify : Bool → ℕ → (LevelAgg → LevelAgg) → Levels → Levels
modify greater price f [] = (price, f no_orders) ∷ []
modify greater price f ((q, a) ∷ m) =
    if q == price
    then (q, f a) ∷ m
    else if before greater price q
    then (price, f no_orders) ∷ (q, a) ∷ m
    else (q, a) ∷ modify greater price f m

-- `find(price)`, nothing on `end()`; `f` updates the aggregate or, with `none`, erases the entry.
unfoldable pub adjust : ℕ → (LevelAgg → Option LevelAgg) → Levels → Levels
adjust price f [] = []
adjust price f ((q, a) ∷ m) =
    if q == price
    then (elim (f a) [ none ↦ m | some b ↦ (q, b) ∷ m ])
    else (q, a) ∷ adjust price f m

-- `agg.shares += shares; ++agg.order_count`
unfoldable pub grow : ℕ → LevelAgg → LevelAgg
grow shares a = record { shares = u64 (a.shares + shares); order_count = u32 (a.order_count + 1) }

-- An aggregate, or `none` once both counters are zero.
abbrev pub keep_used : LevelAgg → Option LevelAgg
keep_used a = if (a.shares == 0) && (a.order_count == 0) then none else some a

-- `shares -= min(shares, ...)`
unfoldable pub shrink : ℕ → LevelAgg → Option LevelAgg
shrink shares a = keep_used (record a { shares = a.shares - min shares a.shares })

-- `if (order_count > 0) --order_count`
unfoldable pub drop_order : LevelAgg → Option LevelAgg
drop_order a =
    keep_used
      (record a { order_count = if ltb 0 a.order_count then a.order_count - 1 else a.order_count })

-- The keys of `m` come behind `p`; so the keys of a sorted list are distinct.
abbrev pub Ahead : Bool → ℕ → Levels → Type 0
Ahead greater p [] = Unit {0}
Ahead greater p ((q, a) ∷ m) = (before greater p q ≡ true) × Ahead greater p m

abbrev pub IsSorted : Bool → Levels → Type 0
IsSorted greater [] = Unit {0}
IsSorted greater ((q, a) ∷ m) = Ahead greater q m × IsSorted greater m

module _ (greater : Bool) where
  Ahead-trans :
      (p q : ℕ) (m : Levels) → before greater p q ≡ true → Ahead greater q m → Ahead greater p m
  Ahead-trans p q [] h a = tt
  Ahead-trans p q ((r, x) ∷ m) h a = (ground arith, Ahead-trans p q m h a.1)

  find-Ahead : (p : ℕ) (m : Levels) → Ahead greater p m → find p m ≡ none
  unfolding find
  find-Ahead p [] a = refl
  find-Ahead p ((r, x) ∷ m) a = ground (arith, find-Ahead p m a.1)

  find-before :
      (p q : ℕ) (m : Levels) → Ahead greater q m → before greater p q ≡ true → find p m ≡ none
  find-before p q m a h = find-Ahead p m (Ahead-trans p q m h a)

  pub find-modify :
      (price p : ℕ) (f : LevelAgg → LevelAgg) (m : Levels)
      → IsSorted greater m
      → find p (modify greater price f m) ≡ (
          if price == p
          then some (f (elim (find price m) [ none ↦ no_orders | some a ↦ a ]))
          else find p m)
  unfolding find modify
  find-modify price p f [] s = ground arith
  find-modify price p f ((q, a) ∷ m) s =
      ground (arith, find-modify price p f m s.1, find-before price q m s.0)

  pub find-adjust :
      (price p : ℕ) (f : LevelAgg → Option LevelAgg) (m : Levels)
      → IsSorted greater m
      → find p (adjust price f m)
        ≡ (if price == p then elim (find price m) [ none ↦ none | some a ↦ f a ] else find p m)
  unfolding find adjust
  find-adjust price p f [] s = ground arith
  find-adjust price p f ((q, a) ∷ m) s =
      ground (arith, find-adjust price p f m s.1, find-Ahead q m s.0)

  Ahead-modify :
      (r price : ℕ) (f : LevelAgg → LevelAgg) (m : Levels)
      → before greater r price ≡ true
      → Ahead greater r m
      → Ahead greater r (modify greater price f m)
  unfolding modify
  Ahead-modify r price f [] h a = (h, tt)
  Ahead-modify r price f ((q, x) ∷ m) h a = ground (arith, Ahead-modify r price f m h a.1)

  pub modify-IsSorted :
      (price : ℕ) (f : LevelAgg → LevelAgg) (m : Levels)
      → IsSorted greater m
      → IsSorted greater (modify greater price f m)
  unfolding modify
  modify-IsSorted price f [] s = (tt, tt)
  modify-IsSorted price f ((q, x) ∷ m) s =
      ground (arith, modify-IsSorted price f m s.1, Ahead-modify q price f m, Ahead-trans price q m)

  Ahead-adjust :
      (r price : ℕ) (f : LevelAgg → Option LevelAgg) (m : Levels)
      → Ahead greater r m
      → Ahead greater r (adjust price f m)
  unfolding adjust
  Ahead-adjust r price f [] a = tt
  Ahead-adjust r price f ((q, x) ∷ m) a = ground (arith, Ahead-adjust r price f m a.1)

  pub adjust-IsSorted :
      (price : ℕ) (f : LevelAgg → Option LevelAgg) (m : Levels)
      → IsSorted greater m
      → IsSorted greater (adjust price f m)
  unfolding adjust
  adjust-IsSorted price f [] s = tt
  adjust-IsSorted price f ((q, x) ∷ m) s =
      ground (arith, adjust-IsSorted price f m s.1, Ahead-adjust q price f m s.0)

  -- The first entry is the best price: no other level comes before it.
  pub begin-best :
      (p q : ℕ) (a b : LevelAgg) (m : Levels)
      → IsSorted greater ((q, a) ∷ m)
      → find p ((q, a) ∷ m) ≡ some b
      → before greater p q ≡ false
  unfolding find
  begin-best p q a b m s h = ground (arith, find-before p q m s.0)
