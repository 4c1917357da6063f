-- ===== src/Book/Maps.antt =====
-- The containers of include/feed/order_book.hpp: std::unordered_map as an association list with one
-- entry for each key, whose order the code never reads.
use udp_multicast_receiver.Common.{
  ℕ, ◌≡◌, ◌≢◌, refl, Option, none, some, List, [], ◌∷◌, ◌==◌, if◌then◌else◌, arith,
}

module _ {ℓ} {V : Type ℓ} where
  -- `it->second` of `find(k)`, or `none` for `end()`.
  unfoldable pub find : ℕ → List (ℕ × V) → Option V
  find k [] = none
  find k ((j, v) ∷ m) = if j == k then some v else find k m

  -- `m[k] = v`
  unfoldable pub insert : ℕ → V → List (ℕ × V) → List (ℕ × V)
  insert k v [] = (k, v) ∷ []
  insert k v ((j, w) ∷ m) = if j == k then (k, v) ∷ m else (j, w) ∷ insert k v m

  -- `erase(k)`
  unfoldable pub erase : ℕ → List (ℕ × V) → List (ℕ × V)
  erase k [] = []
  erase k ((j, w) ∷ m) = if j == k then m else (j, w) ∷ erase k m

  -- No key stands twice: `k` is not a key of `m`.
  abbrev pub Lacks : ℕ → List (ℕ × V) → Type 0
  Lacks k [] = Unit {0}
  Lacks k ((j, v) ∷ m) = (j ≢ k) × Lacks k m

  abbrev pub IsMap : List (ℕ × V) → Type 0
  IsMap [] = Unit {0}
  IsMap ((j, v) ∷ m) = Lacks j m × IsMap m

  pub find-Lacks : (k : ℕ) (m : List (ℕ × V)) → Lacks k m → find k m ≡ none
  unfolding find
  find-Lacks k [] h = refl
  find-Lacks k ((j, v) ∷ m) h = ground (arith, find-Lacks k m h.1)

  pub Lacks-find : (k : ℕ) (m : List (ℕ × V)) → find k m ≡ none → Lacks k m
  unfolding find
  Lacks-find k [] h = tt
  Lacks-find k ((j, v) ∷ m) h = ground (arith, Lacks-find k m)

  pub find-insert :
      (k j : ℕ) (v : V) (m : List (ℕ × V))
      → find j (insert k v m) ≡ (if k == j then some v else find j m)
  unfolding find insert
  find-insert k j v [] = refl
  find-insert k j v ((i, w) ∷ m) = ground (arith, find-insert k j v m)

  pub find-erase :
      (k j : ℕ) (m : List (ℕ × V))
      → IsMap m
      → find j (erase k m) ≡ (if k == j then none else find j m)
  unfolding find erase
  find-erase k j [] h = ground arith
  find-erase k j ((i, w) ∷ m) h = ground (arith, find-erase k j m h.1, find-Lacks i m h.0)

  Lacks-insert : (k j : ℕ) (v : V) (m : List (ℕ × V)) → k ≢ j → Lacks j m → Lacks j (insert k v m)
  unfolding insert
  Lacks-insert k j v [] n h = (n, tt)
  Lacks-insert k j v ((i, w) ∷ m) n h = ground (arith, Lacks-insert k j v m n h.1)

  Lacks-erase : (k j : ℕ) (m : List (ℕ × V)) → Lacks j m → Lacks j (erase k m)
  unfolding erase
  Lacks-erase k j [] h = tt
  Lacks-erase k j ((i, w) ∷ m) h = ground (arith, Lacks-erase k j m h.1)

  pub insert-IsMap : (k : ℕ) (v : V) (m : List (ℕ × V)) → IsMap m → IsMap (insert k v m)
  unfolding insert
  insert-IsMap k v [] h = (tt, tt)
  insert-IsMap k v ((i, w) ∷ m) h = ground (arith, insert-IsMap k v m h.1, Lacks-insert k i v m)

  pub erase-IsMap : (k : ℕ) (m : List (ℕ × V)) → IsMap m → IsMap (erase k m)
  unfolding erase
  erase-IsMap k [] h = tt
  erase-IsMap k ((i, w) ∷ m) h = ground (arith, erase-IsMap k m h.1, Lacks-erase k i m)

  pub erase-insert : (k : ℕ) (v : V) (m : List (ℕ × V)) → erase k (insert k v m) ≡ erase k m
  unfolding erase insert
  erase-insert k v [] = ground arith
  erase-insert k v ((i, w) ∷ m) = ground (arith, erase-insert k v m)
