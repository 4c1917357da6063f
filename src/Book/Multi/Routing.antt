-- ===== src/Book/Multi/Routing.antt =====
-- The routing index of MultiSymbolBook (include/feed/order_book.hpp): every resting order is routed
-- to the book that it rests in, and every book is consistent.
use udp_multicast_receiver.Common.{
  ℕ, ◌+◌, ◌^◌, ◌<◌, ◌≡◌, refl, ap, true, false, none, some, List, ◌⊎◌, inl, inr, length, Bool-cases,
  Option-cases, arith,
}
use udp_multicast_receiver.Wire.Itch.{
  ItchAddOrder, ItchDeleteOrder, ItchOrderExecuted, ItchOrderCancel, ItchOrderReplace,
}
use udp_multicast_receiver.Book.Maps.{
  find, insert, erase, IsMap, find-insert, find-erase, insert-IsMap, erase-IsMap,
}
use udp_multicast_receiver.Book.Order.{
  OrderBook, OrderRecord, empty_book, set_on_top_change, apply_add,
}
use udp_multicast_receiver.Book.Consistent.{IsConsistent}
use udp_multicast_receiver.Book.Consistent.Messages.{
  apply_add-IsConsistent, apply_delete-IsConsistent, apply_cancel-IsConsistent,
  apply_executed-IsConsistent, apply_replace-IsConsistent, same-IsConsistent,
}
use udp_multicast_receiver.Book.Consistent.Apply.{empty-IsConsistent}
use udp_multicast_receiver.Book.Rests.{
  is_some, rests, apply_add-rests, apply_delete-rests, apply_cancel-rests, apply_executed-rests,
  apply_replace-rests,
}
use udp_multicast_receiver.Book.Multi.{
  MultiSymbolBook, same_text, find_book, book_at, route, stored, wire_book, symbol_of, ingest_add,
  ingest_delete, ingest_cancel, ingest_executed, ingest_replace, count_unrouted, book_order_gone,
}
use udp_multicast_receiver.Book.Multi.Stores.{same_text-eq, same_text_refl, find-put_book}

-- Every book is consistent, and each order that rests in the book of a symbol is routed there.
pub record IsRouted (mb : MultiSymbolBook) : Type 0 where
  pub consistent : (s : List ℕ) (b : OrderBook) → find_book s mb.books ≡ some b → IsConsistent b
  pub routed :
      (s : List ℕ) (b : OrderBook) (ref : ℕ)
      → find_book s mb.books ≡ some b
      → rests ref b ≡ true
      → find ref mb.order_symbol ≡ some s
  pub index_map : IsMap mb.order_symbol

same_rests : (ref : ℕ) (x y : OrderBook) → x.orders ≡ y.orders → rests ref x ≡ rests ref y
unfolding rests
same_rests ref x y e = ap (λ o. is_some (find ref o)) e

-- Fewer than 2 ^ 32 - 1 orders rest in each book.
abbrev pub HasRoom : MultiSymbolBook → Type 0
HasRoom mb =
    (s : List ℕ) (b : OrderBook) → find_book s mb.books ≡ some b → length b.orders + 1 < 2 ^ 32

module _ (mb : MultiSymbolBook) (v : IsRouted mb) where
  -- A symbol's book is replaced by another, and the index by one that still leads to every order.
  stored-IsRouted :
      (symbol : List ℕ) (after : OrderBook) (index : List (ℕ × List ℕ)) (now_wired : List (List ℕ))
      → IsConsistent after
      → IsMap index
      → ((ref : ℕ) → rests ref after ≡ true → find ref index ≡ some symbol)
      → ((ref : ℕ) (t : List ℕ)
          → same_text symbol t ≡ false
          → find ref mb.order_symbol ≡ some t
          → find ref index ≡ some t)
      → IsRouted (record (stored mb symbol after) { order_symbol = index; wired = now_wired })
  stored-IsRouted symbol after index now_wired c im here others = record {
    index_map = im;
    consistent = λ s b e. elim (Bool-cases (same_text symbol s)) [
      | inl same ↦
          let eb : some b ≡ some after = ground (arith, find-put_book symbol s after mb.books) in
          subst_book after b eb c
      | inr apart ↦ v.consistent s b (ground (arith, find-put_book symbol s after mb.books))
    ];
    routed = λ s b ref e h. elim (Bool-cases (same_text symbol s)) [
      | inl same ↦
          let es = same_text-eq symbol s same in
          ground (arith, find-put_book symbol s after mb.books, here ref, es)
      | inr apart ↦
          others ref s apart
            (v.routed s b ref (ground (arith, find-put_book symbol s after mb.books)) h)
    ];
  }
    where
      subst_book : (x y : OrderBook) → some y ≡ some x → IsConsistent x → IsConsistent y
      subst_book x y e w =
          let same : y ≡ x = ap (λ o. elim o [ none ↦ x | some z ↦ z ]) e in rw same w

  book_at-cases :
      (symbol : List ℕ)
      → (book_at mb symbol ≡ empty_book) ⊎ (find_book symbol mb.books ≡ some (book_at mb symbol))
  unfolding book_at
  book_at-cases symbol = elim (Option-cases (find_book symbol mb.books)) [
    | inl e ↦ inl (ground arith)
    | inr (b, e) ↦ inr (ground arith)
  ]

  book_at-IsConsistent : (symbol : List ℕ) → IsConsistent (book_at mb symbol)
  book_at-IsConsistent symbol = elim (book_at-cases symbol) [
    | inl e ↦ rw e empty-IsConsistent
    | inr e ↦ v.consistent symbol (book_at mb symbol) e
  ]

  book_at-routed :
      (symbol : List ℕ) (ref : ℕ)
      → rests ref (book_at mb symbol) ≡ true
      → find ref mb.order_symbol ≡ some symbol
  book_at-routed symbol ref h = elim (book_at-cases symbol) [
    | inl e ↦ absurd (cc (ap (rests ref) e, rests_empty ref))
    | inr e ↦ v.routed symbol (book_at mb symbol) ref e h
  ]
    where
      rests_empty : (ref : ℕ) → rests ref empty_book ≡ false
      rests_empty ref = unfold rests find in refl

  book_at-room : (symbol : List ℕ) → HasRoom mb → length (book_at mb symbol).orders + 1 < 2 ^ 32
  book_at-room symbol room = elim (book_at-cases symbol) [
    | inl e ↦ omega (arith, ap (λ b. length b.orders) e)
    | inr e ↦ room symbol (book_at mb symbol) e
  ]

  -- What rests in a symbol's book, one reference aside, is routed.
  resting_routed :
      (s : List ℕ) (ref gone : ℕ) (o : OrderRecord)
      → find ref (erase gone (book_at mb s).orders) ≡ some o
      → find ref mb.order_symbol ≡ some s
  resting_routed s ref gone o h =
      let still : find ref (book_at mb s).orders ≡ some o =
        ground
          (arith, find-erase gone ref (book_at mb s).orders (book_at-IsConsistent s).orders_map) in
      book_at-routed s ref (unfold rests in ground arith)

  -- Attaching the callback does not touch the orders.
  wire_book-frame :
      (symbol : List ℕ) (b : OrderBook)
      → ((wire_book mb symbol b).0.bids ≡ b.bids)
        × ((wire_book mb symbol b).0.asks ≡ b.asks)
        × ((wire_book mb symbol b).0.orders ≡ b.orders)
  unfolding wire_book set_on_top_change
  wire_book-frame symbol b = (ground arith, ground arith, ground arith)

  route-some :
      (ref : ℕ) (s : List ℕ) (b : OrderBook)
      → route mb ref ≡ some (s, b)
      → (find ref mb.order_symbol ≡ some s) × (find_book s mb.books ≡ some b)
  unfolding route
  route-some ref s b h = (ground arith, ground arith)

  count_unrouted-IsRouted : IsRouted (count_unrouted mb)
  unfolding count_unrouted
  count_unrouted-IsRouted = record {
    consistent = v.consistent;
    routed = v.routed;
    index_map = v.index_map;
  }

  pub ingest_add-IsRouted :
      (m : ItchAddOrder) (recv : ℕ)
      → m.shares < 2 ^ 32
      → HasRoom mb
      → find m.order_ref mb.order_symbol ≡ none
      → IsRouted (ingest_add mb m recv).0
  unfolding ingest_add
  ingest_add-IsRouted m recv fit room fresh =
      let symbol = symbol_of m.stock in
      let old = book_at mb symbol in
      let wired = wire_book mb symbol old in
      let frame = wire_book-frame symbol old in
      let c : IsConsistent wired.0 =
        same-IsConsistent old wired.0 frame.0 frame.1 frame.2 (book_at-IsConsistent symbol) in
      let ingested = apply_add wired.0 m recv in
      stored-IsRouted symbol ingested.0 (insert m.order_ref symbol mb.order_symbol) wired.1
        (apply_add-IsConsistent wired.0 m recv fit (rw frame.2 (book_at-room symbol room)) c)
        (insert-IsMap m.order_ref symbol mb.order_symbol v.index_map)
        (λ ref h. ground (
          arith,
          find-insert m.order_ref ref symbol mb.order_symbol,
          apply_add-rests wired.0 c recv ref m,
          book_at-routed symbol ref,
          same_rests ref wired.0 old frame.2,
        ))
        (λ ref t apart h. ground (arith, find-insert m.order_ref ref symbol mb.order_symbol))

  pub ingest_delete-IsRouted :
      (m : ItchDeleteOrder) (recv : ℕ) → IsRouted (ingest_delete mb m recv).0
  unfolding ingest_delete
  ingest_delete-IsRouted m recv = elim (Option-cases (route mb m.order_ref)) [
    | inl e ↦ rw (e, ingest_delete) count_unrouted-IsRouted
    | inr ((s, b), e) ↦
        let (es, eb) = route-some m.order_ref s b e in
        let c = v.consistent s b eb in
        rw (e, ingest_delete)
          (stored-IsRouted s _ _ mb.wired (apply_delete-IsConsistent b m recv c)
            (erase-IsMap m.order_ref mb.order_symbol v.index_map)
            (λ ref h. ground (
              arith,
              find-erase m.order_ref ref mb.order_symbol v.index_map,
              apply_delete-rests b c recv ref m,
              v.routed s b ref eb,
            ))
            (λ ref t apart h.
              ground
                (arith, find-erase m.order_ref ref mb.order_symbol v.index_map, same_text_refl s)))
  ]

  pub ingest_cancel-IsRouted :
      (m : ItchOrderCancel) (recv : ℕ) → IsRouted (ingest_cancel mb m recv).0
  unfolding ingest_cancel
  ingest_cancel-IsRouted m recv = elim (Option-cases (route mb m.order_ref)) [
    | inl e ↦ rw (e, ingest_cancel) count_unrouted-IsRouted
    | inr ((s, b), e) ↦
        let (es, eb) = route-some m.order_ref s b e in
        let c = v.consistent s b eb in
        rw (e, ingest_cancel)
          (stored-IsRouted s _ mb.order_symbol mb.wired (apply_cancel-IsConsistent b m recv c)
            v.index_map (λ ref h. v.routed s b ref eb (apply_cancel-rests b c recv ref m h))
            (λ ref t apart h. h))
  ]

  pub ingest_executed-IsRouted :
      (m : ItchOrderExecuted) (recv : ℕ) → IsRouted (ingest_executed mb m recv).0
  unfolding ingest_executed book_order_gone
  ingest_executed-IsRouted m recv = elim (Option-cases (route mb m.order_ref)) [
    | inl e ↦ rw (e, ingest_executed) count_unrouted-IsRouted
    | inr ((s, b), e) ↦
        let (es, eb) = route-some m.order_ref s b e in
        let c = v.consistent s b eb in
        rw (e, ingest_executed)
          (stored-IsRouted s _ mb.order_symbol mb.wired (apply_executed-IsConsistent b m recv c)
            v.index_map (λ ref h. v.routed s b ref eb (apply_executed-rests b c recv ref m h))
            (λ ref t apart h. h))
  ]

  pub ingest_replace-IsRouted :
      (m : ItchOrderReplace) (recv : ℕ)
      → m.shares < 2 ^ 32
      → find m.new_order_ref mb.order_symbol ≡ none
      → IsRouted (ingest_replace mb m recv).0
  unfolding ingest_replace
  ingest_replace-IsRouted m recv fit fresh =
      elim (Option-cases (find m.orig_order_ref mb.order_symbol)) [
        | inl e ↦ rw (e, ingest_replace) count_unrouted-IsRouted
        | inr (s, e) ↦
            let b = book_at mb s in
            let c = book_at-IsConsistent s in
            let index = erase m.orig_order_ref mb.order_symbol in
            rw (e, ingest_replace)
              (stored-IsRouted s _ (insert m.new_order_ref s index) mb.wired
                (apply_replace-IsConsistent b m recv fit (new_at_rest s) c)
                (insert-IsMap m.new_order_ref s index
                  (erase-IsMap m.orig_order_ref mb.order_symbol v.index_map))
                (λ ref h. ground (
                  arith,
                  find-insert m.new_order_ref ref s index,
                  find-erase m.orig_order_ref ref mb.order_symbol v.index_map,
                  apply_replace-rests b c recv ref m h,
                  book_at-routed s ref,
                ))
                (λ ref t apart h. ground (
                  arith,
                  find-insert m.new_order_ref ref s index,
                  find-erase m.orig_order_ref ref mb.order_symbol v.index_map,
                  same_text_refl s,
                )))
      ]
    where
      new_at_rest :
          (s : List ℕ) → find m.new_order_ref (erase m.orig_order_ref (book_at mb s).orders) ≡ none
      new_at_rest s =
          elim (Option-cases
            (find m.new_order_ref (erase m.orig_order_ref (book_at mb s).orders))) [
              | inl e ↦ e
              | inr (o, e) ↦
                  absurd (cc (resting_routed s m.new_order_ref m.orig_order_ref o e, fresh))
            ]
