-- ===== src/Wire/Itch/Orders.antt =====
-- The layouts of the messages that refer to a resting order, and their parsers against them.
use udp_multicast_receiver.Common.{
  ℕ, ◌+◌, ◌^◌, ◌<◌, ◌≡◌, ◌↔◌, suc, none, some, List, ◌++◌, length, drop, arith,
}
use udp_multicast_receiver.Wire.Endian.{put_be32, put_be64}
use udp_multicast_receiver.Wire.Endian.RoundTrip.{be32-put_be32, be64-put_be64}
use udp_multicast_receiver.Wire.Itch.{
  ItchDeleteOrder, ItchOrderExecuted, ItchOrderCancel, ItchOrderReplace, parse_add_order,
  parse_delete_order, parse_order_executed, parse_order_cancel, parse_order_replace,
}
use udp_multicast_receiver.Wire.Itch.Layout.{prefix, prefix_ts, after_prefix, length-prefix}

-- order_ref(8)
unfoldable pub delete_wire : ℕ → ℕ → ℕ → ItchDeleteOrder → List ℕ → List ℕ
delete_wire type locate tracking m rest =
    prefix type locate tracking m.timestamp_ns (put_be64 m.order_ref ++ rest)

-- order_ref(8) cancelled_shares(4)
unfoldable pub cancel_wire : ℕ → ℕ → ℕ → ItchOrderCancel → List ℕ → List ℕ
cancel_wire type locate tracking m rest =
    prefix type locate tracking m.timestamp_ns
      (put_be64 m.order_ref ++ (put_be32 m.cancelled_shares ++ rest))

-- order_ref(8) shares(4) match(8)
unfoldable pub executed_wire : ℕ → ℕ → ℕ → ItchOrderExecuted → List ℕ → List ℕ
executed_wire type locate tracking m rest =
    prefix type locate tracking m.timestamp_ns
      (put_be64 m.order_ref ++ (put_be32 m.executed_shares ++ (put_be64 m.match_number ++ rest)))

-- orig_order_ref(8) new_order_ref(8) shares(4) price(4)
unfoldable pub replace_wire : ℕ → ℕ → ℕ → ItchOrderReplace → List ℕ → List ℕ
replace_wire type locate tracking m rest = prefix type locate tracking m.timestamp_ns (
    put_be64 m.orig_order_ref
    ++ (put_be64 m.new_order_ref ++ (put_be32 m.shares ++ (put_be32 m.price ++ rest))))

-- What stands behind a field of 8 or of 4 bytes.
module _ (v : ℕ) (rest : List ℕ) where
  length-field64 : length (put_be64 v ++ rest) ≡ 8 + length rest
  unfolding put_be64
  length-field64 = omega arith

  length-field32 : length (put_be32 v ++ rest) ≡ 4 + length rest
  unfolding put_be32
  length-field32 = omega arith

  behind64 : (n k : ℕ) → n ≡ 8 + k → drop n (put_be64 v ++ rest) ≡ drop k rest
  unfolding put_be64
  behind64 n k e =
      let e' : n ≡ suc (suc (suc (suc (suc (suc (suc (suc k))))))) = omega arith in rw e'

  behind32 : (n k : ℕ) → n ≡ 4 + k → drop n (put_be32 v ++ rest) ≡ drop k rest
  unfolding put_be32
  behind32 n k e = let e' : n ≡ suc (suc (suc (suc k))) = omega arith in rw e'

module _ (type locate tracking : ℕ) where
  -- A Delete whose fields fit is decoded from its layout.
  pub parse-delete_wire :
      (m : ItchDeleteOrder) (rest : List ℕ)
      → m.timestamp_ns < 2 ^ 48
      → m.order_ref < 2 ^ 64
      → parse_delete_order (delete_wire type locate tracking m rest) ≡ some m
  unfolding delete_wire parse_delete_order
  parse-delete_wire m rest ht ho =
      let s0 : List ℕ = put_be64 m.order_ref ++ rest in
      ground (
        arith,
        prefix_ts type locate tracking m.timestamp_ns s0 ht,
        length-prefix type locate tracking m.timestamp_ns s0,
        after_prefix type locate tracking m.timestamp_ns s0 11 0 (omega arith),
        be64-put_be64 m.order_ref rest ho,
        length-field64 m.order_ref rest,
      )

  -- A Cancel whose fields fit is decoded from its layout.
  pub parse-cancel_wire :
      (m : ItchOrderCancel) (rest : List ℕ)
      → m.timestamp_ns < 2 ^ 48
      → m.order_ref < 2 ^ 64
      → m.cancelled_shares < 2 ^ 32
      → parse_order_cancel (cancel_wire type locate tracking m rest) ≡ some m
  unfolding cancel_wire parse_order_cancel
  parse-cancel_wire m rest ht ho hc =
      let s1 : List ℕ = put_be32 m.cancelled_shares ++ rest in
      let s0 : List ℕ = put_be64 m.order_ref ++ s1 in
      ground (
        arith,
        prefix_ts type locate tracking m.timestamp_ns s0 ht,
        length-prefix type locate tracking m.timestamp_ns s0,
        after_prefix type locate tracking m.timestamp_ns s0 11 0 (omega arith),
        be64-put_be64 m.order_ref s1 ho,
        length-field64 m.order_ref s1,
        after_prefix type locate tracking m.timestamp_ns s0 19 8 (omega arith),
        behind64 m.order_ref s1 8 0 (omega arith),
        be32-put_be32 m.cancelled_shares rest hc,
        length-field32 m.cancelled_shares rest,
      )

  -- An Executed whose fields fit is decoded from its layout.
  pub parse-executed_wire :
      (m : ItchOrderExecuted) (rest : List ℕ)
      → m.timestamp_ns < 2 ^ 48
      → m.order_ref < 2 ^ 64
      → m.executed_shares < 2 ^ 32
      → m.match_number < 2 ^ 64
      → parse_order_executed (executed_wire type locate tracking m rest) ≡ some m
  unfolding executed_wire parse_order_executed
  parse-executed_wire m rest ht ho he hm =
      let s2 : List ℕ = put_be64 m.match_number ++ rest in
      let s1 : List ℕ = put_be32 m.executed_shares ++ s2 in
      let s0 : List ℕ = put_be64 m.order_ref ++ s1 in
      ground (
        arith,
        prefix_ts type locate tracking m.timestamp_ns s0 ht,
        length-prefix type locate tracking m.timestamp_ns s0,
        after_prefix type locate tracking m.timestamp_ns s0 11 0 (omega arith),
        be64-put_be64 m.order_ref s1 ho,
        length-field64 m.order_ref s1,
        after_prefix type locate tracking m.timestamp_ns s0 19 8 (omega arith),
        behind64 m.order_ref s1 8 0 (omega arith),
        be32-put_be32 m.executed_shares s2 he,
        length-field32 m.executed_shares s2,
        after_prefix type locate tracking m.timestamp_ns s0 23 12 (omega arith),
        behind64 m.order_ref s1 12 4 (omega arith),
        behind32 m.executed_shares s2 4 0 (omega arith),
        be64-put_be64 m.match_number rest hm,
        length-field64 m.match_number rest,
      )

  -- A Replace whose fields fit is decoded from its layout.
  pub parse-replace_wire :
      (m : ItchOrderReplace) (rest : List ℕ)
      → m.timestamp_ns < 2 ^ 48
      → m.orig_order_ref < 2 ^ 64
      → m.new_order_ref < 2 ^ 64
      → m.shares < 2 ^ 32
      → m.price < 2 ^ 32
      → parse_order_replace (replace_wire type locate tracking m rest) ≡ some m
  unfolding replace_wire parse_order_replace
  parse-replace_wire m rest ht ho hn hs hp =
      let s3 : List ℕ = put_be32 m.price ++ rest in
      let s2 : List ℕ = put_be32 m.shares ++ s3 in
      let s1 : List ℕ = put_be64 m.new_order_ref ++ s2 in
      let s0 : List ℕ = put_be64 m.orig_order_ref ++ s1 in
      ground (
        arith,
        prefix_ts type locate tracking m.timestamp_ns s0 ht,
        length-prefix type locate tracking m.timestamp_ns s0,
        after_prefix type locate tracking m.timestamp_ns s0 11 0 (omega arith),
        be64-put_be64 m.orig_order_ref s1 ho,
        length-field64 m.orig_order_ref s1,
        after_prefix type locate tracking m.timestamp_ns s0 19 8 (omega arith),
        behind64 m.orig_order_ref s1 8 0 (omega arith),
        be64-put_be64 m.new_order_ref s2 hn,
        length-field64 m.new_order_ref s2,
        after_prefix type locate tracking m.timestamp_ns s0 27 16 (omega arith),
        behind64 m.orig_order_ref s1 16 8 (omega arith),
        behind64 m.new_order_ref s2 8 0 (omega arith),
        be32-put_be32 m.shares s3 hs,
        length-field32 m.shares s3,
        after_prefix type locate tracking m.timestamp_ns s0 31 20 (omega arith),
        behind64 m.orig_order_ref s1 20 12 (omega arith),
        behind64 m.new_order_ref s2 12 4 (omega arith),
        behind32 m.shares s3 4 0 (omega arith),
        be32-put_be32 m.price rest hp,
        length-field32 m.price rest,
      )

-- Each parser refuses exactly the bodies that are shorter than its message: 36 bytes for an Add
-- Order, 19 for a Delete, 31 for an Executed, 23 for a Cancel and 35 for a Replace.
pub parse_refuses_short :
    (body : List ℕ)
    → ((parse_add_order body ≡ none) ↔ (length body < 36))
      × ((parse_delete_order body ≡ none) ↔ (length body < 19))
      × ((parse_order_executed body ≡ none) ↔ (length body < 31))
      × ((parse_order_cancel body ≡ none) ↔ (length body < 23))
      × ((parse_order_replace body ≡ none) ↔ (length body < 35))
unfolding parse_add_order parse_delete_order parse_order_executed parse_order_cancel
    parse_order_replace
parse_refuses_short body = (ground arith, ground arith, ground arith, ground arith, ground arith)
