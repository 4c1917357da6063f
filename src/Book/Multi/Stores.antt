-- ===== src/Book/Multi/Stores.antt =====
-- The maps keyed by symbol of MultiSymbolBook (include/feed/order_book.hpp).
use udp_multicast_receiver.Common.{
  ℕ, ◌≡◌, ◌∙◌, refl, ap, sym, true, false, some, List, [], ◌∷◌, inl, inr, if◌then◌else◌, Bool-cases,
  arith,
}
use udp_multicast_receiver.Book.Order.{OrderBook}
use udp_multicast_receiver.Book.Multi.{same_text, find_book, put_book}

pub same_text-eq : (s t : List ℕ) → same_text s t ≡ true → s ≡ t
unfolding same_text
same_text-eq [] [] h = refl
same_text-eq [] (d ∷ t) h = absurd (cc)
same_text-eq (c ∷ s) [] h = absurd (cc)
same_text-eq (c ∷ s) (d ∷ t) h = ground (arith, same_text-eq s t)

pub same_text_refl : (s : List ℕ) → same_text s s ≡ true
unfolding same_text
same_text_refl [] = refl
same_text_refl (c ∷ s) = ground (arith, same_text_refl s)

-- A text equal to one of two texts, or to neither.
same_text_trans : (u s t : List ℕ) → same_text u s ≡ true → same_text u t ≡ same_text s t
same_text_trans u s t h = ap (λ x. same_text x t) (same_text-eq u s h)

same_text_apart :
    (u s t : List ℕ) → same_text u s ≡ false → same_text u t ≡ true → same_text s t ≡ false
same_text_apart u s t h e = elim (Bool-cases (same_text s t)) [
  | inr d ↦ d
  | inl d ↦
      let us : u ≡ s = same_text-eq u t e ∙ sym (same_text-eq s t d) in
      let both : same_text u s ≡ true = ap (same_text u) (sym us) ∙ same_text_refl u in absurd (cc)
]

pub find-put_book :
    (s t : List ℕ) (b : OrderBook) (m : List (List ℕ × OrderBook))
    → find_book t (put_book s b m) ≡ (if same_text s t then some b else find_book t m)
unfolding find_book put_book
find-put_book s t b [] = refl
find-put_book s t b ((u, c) ∷ m) =
    ground (arith, find-put_book s t b m, same_text_trans u s t, same_text_apart u s t)
