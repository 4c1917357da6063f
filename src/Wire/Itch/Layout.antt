-- ===== src/Wire/Itch/Layout.antt =====
-- The common prefix and the Add Order layout as the comments of include/feed/wire_format.hpp give
-- them, field by field, and the parser against it.
use udp_multicast_receiver.Common.{
  ℕ, ◌+◌, ◌^◌, ◌<◌, ◌≡◌, refl, ap, ◌∙◌, suc, get_or, some, List, [], ◌∷◌, ◌++◌, length, take, drop,
  take-append, drop-append, length-append, ◌==◌, arith,
}
use udp_multicast_receiver.Wire.Endian.{
  be16, be32, be48, be64, put_be16, put_be32, put_be48, put_be64,
}
use udp_multicast_receiver.Wire.Endian.RoundTrip.{
  be16-put_be16, be32-put_be32, be48-put_be48, be64-put_be64,
}
use udp_multicast_receiver.Wire.Itch.{ItchAddOrder, parse_add_order}

-- type(0,1) locate(1,2) tracking(3,2) ts(5,6), then the fields of the message.
unfoldable pub prefix : ℕ → ℕ → ℕ → ℕ → List ℕ → List ℕ
prefix type locate tracking ts fields =
    type ∷ (put_be16 locate ++ (put_be16 tracking ++ (put_be48 ts ++ fields)))

module _ (type locate tracking ts : ℕ) (fields : List ℕ) where
  pub prefix_type : get_or (prefix type locate tracking ts fields) 0 0 ≡ type
  unfolding prefix
  prefix_type = refl

  pub prefix_locate :
      locate < 2 ^ 16 → be16 (drop 1 (prefix type locate tracking ts fields)) ≡ locate
  unfolding prefix
  prefix_locate h = be16-put_be16 locate (put_be16 tracking ++ (put_be48 ts ++ fields)) h

  pub prefix_ts : ts < 2 ^ 48 → be48 (drop 5 (prefix type locate tracking ts fields)) ≡ ts
  unfolding prefix put_be16
  prefix_ts h = be48-put_be48 ts fields h

  pub after_prefix :
      (n k : ℕ) → n ≡ 11 + k → drop n (prefix type locate tracking ts fields) ≡ drop k fields
  unfolding prefix put_be16 put_be48
  after_prefix n k e =
      let e' : n ≡ suc (suc (suc (suc (suc (suc (suc (suc (suc (suc (suc k)))))))))) =
        omega arith in
      rw e'

  pub length-prefix : length (prefix type locate tracking ts fields) ≡ 11 + length fields
  unfolding prefix put_be16 put_be48
  length-prefix = omega arith

-- The fields of an Add Order, from offset 11 on:
-- order_ref(11,8) side(19,1) shares(20,4) stock(24,8) price(32,4); `mpid` is what an 'F' adds.
unfoldable pub add_fields : ItchAddOrder → List ℕ → List ℕ → List ℕ
add_fields m stock mpid =
    put_be64 m.order_ref ++ (m.side ∷ (put_be32 m.shares ++ (stock ++ (put_be32 m.price ++ mpid))))

unfoldable pub add_order_wire : ℕ → ℕ → ItchAddOrder → List ℕ → List ℕ → List ℕ
add_order_wire type tracking m stock mpid =
    prefix type m.stock_locate tracking m.timestamp_ns (add_fields m stock mpid)

module _ (m : ItchAddOrder) (stock mpid : List ℕ) (hs : length stock ≡ 8) where
  add_order_ref : m.order_ref < 2 ^ 64 → be64 (add_fields m stock mpid) ≡ m.order_ref
  unfolding add_fields
  add_order_ref h = be64-put_be64 m.order_ref _ h

  add_shares : m.shares < 2 ^ 32 → be32 (drop 9 (add_fields m stock mpid)) ≡ m.shares
  unfolding add_fields put_be64
  add_shares h = be32-put_be32 m.shares (stock ++ (put_be32 m.price ++ mpid)) h

  add_stock : take 8 (drop 13 (add_fields m stock mpid)) ≡ stock
  unfolding add_fields put_be64 put_be32
  add_stock = take-append 8 stock _ hs

  add_price : m.price < 2 ^ 32 → be32 (drop 21 (add_fields m stock mpid)) ≡ m.price
  unfolding add_fields put_be64 put_be32
  add_price h =
      ap be32 (drop-append 8 stock (put_be32 m.price ++ mpid) hs) ∙ be32-put_be32 m.price mpid h

  length-add_fields : length (add_fields m stock mpid) ≡ 25 + length mpid
  unfolding add_fields put_be64 put_be32
  length-add_fields = omega (arith, length-append stock (put_be32 m.price ++ mpid))

  add_side : (type tracking : ℕ) → get_or (add_order_wire type tracking m stock mpid) 19 0 ≡ m.side
  unfolding add_order_wire prefix add_fields put_be16 put_be48 put_be64
  add_side type tracking = refl

-- An Add Order whose fields fit is decoded from its layout, with or without a MPID behind it.
pub parse-add_order_wire :
    (type tracking : ℕ) (m : ItchAddOrder) (stock mpid : List ℕ)
    → length stock ≡ 8
    → m.stock ≡ stock ++ (0 ∷ [])
    → m.has_mpid ≡ (type == b'F')
    → m.stock_locate < 2 ^ 16
    → m.timestamp_ns < 2 ^ 48
    → m.order_ref < 2 ^ 64
    → m.shares < 2 ^ 32
    → m.price < 2 ^ 32
    → parse_add_order (add_order_wire type tracking m stock mpid) ≡ some m
unfolding add_order_wire parse_add_order
parse-add_order_wire type tracking m stock mpid hs es em hl ht ho hsh hp =
    let fields : List ℕ = add_fields m stock mpid in
    let from : (n k : ℕ)
        → n ≡ 11 + k
        → drop n (prefix type m.stock_locate tracking m.timestamp_ns fields) ≡ drop k fields =
      after_prefix type m.stock_locate tracking m.timestamp_ns fields in
    ground (
      arith,
      prefix_locate type m.stock_locate tracking m.timestamp_ns fields hl,
      prefix_ts type m.stock_locate tracking m.timestamp_ns fields ht,
      length-prefix type m.stock_locate tracking m.timestamp_ns fields,
      length-add_fields m stock mpid hs,
      from 11 0 (omega arith),
      from 20 9 (omega arith),
      from 24 13 (omega arith),
      from 32 21 (omega arith),
      add_order_ref m stock mpid hs ho,
      prefix_type type m.stock_locate tracking m.timestamp_ns fields,
      add_shares m stock mpid hs hsh,
      add_stock m stock mpid hs,
      add_price m stock mpid hs hp,
      add_side m stock mpid hs type tracking,
    )
