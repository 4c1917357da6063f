-- ===== src/Wire/Itch.antt =====
-- The ITCH 5.0 messages of include/feed/wire_format.hpp. `parse(body, len, out)` takes the `len`
-- bytes at `body` as one list. The structs' `seq_num` is left out: no code reads or writes it.
pub mod Layout
pub mod Orders
pub mod RoundTrip
use udp_multicast_receiver.Common.{
  ℕ, ◌+◌, Bool, Option, none, some, List, [], ◌∷◌, ◌++◌, length, take, drop, get_or, ltb, ◌==◌,
  if◌then◌else◌,
}
use udp_multicast_receiver.Wire.Endian.{be16, be32, be48, be64}

-- `unnamed` stands for the byte values that have no enumerator; the cast keeps them apart.
pub data ItchMsgType : Type 0 where
  system_event stock_directory add_order_no_mpid add_order_mpid order_executed : ItchMsgType
  order_executed_price order_cancel order_delete order_replace trade : ItchMsgType
  cross_trade broken_trade noii unknown : ItchMsgType
  unnamed : ℕ → ItchMsgType

-- `static_cast<ItchMsgType>` of a byte.
unfoldable pub msg_type_of : ℕ → ItchMsgType
msg_type_of c =
    if c == b'S'
    then system_event
    else if c == b'R'
    then stock_directory
    else if c == b'A'
    then add_order_no_mpid
    else if c == b'F'
    then add_order_mpid
    else if c == b'E'
    then order_executed
    else if c == b'C'
    then order_executed_price
    else if c == b'X'
    then order_cancel
    else if c == b'D'
    then order_delete
    else if c == b'U'
    then order_replace
    else if c == b'P'
    then trade
    else if c == b'Q'
    then cross_trade
    else if c == b'B'
    then broken_trade
    else if c == b'I'
    then noii
    else if c == 0xff
    then unknown
    else unnamed c

-- `body[0]`, which for an empty body is the byte that lies behind it, `behind`.
unfoldable pub itch_type : ℕ → List ℕ → ItchMsgType
unfolding msg_type_of
itch_type behind body = msg_type_of (get_or body 0 behind)

unfoldable pub itch_timestamp_ns : List ℕ → ℕ
itch_timestamp_ns body = be48 (drop 5 body)

unfoldable pub itch_stock_locate : List ℕ → ℕ
itch_stock_locate body = be16 (drop 1 body)

-- `stock` is the eight characters and the null behind them.
pub record ItchAddOrder : Type 0 where
  pub timestamp_ns : ℕ
  pub stock_locate : ℕ
  pub order_ref : ℕ
  pub shares : ℕ
  pub price : ℕ
  pub stock : List ℕ
  pub side : ℕ
  pub has_mpid : Bool

unfoldable pub parse_add_order : List ℕ → Option ItchAddOrder
parse_add_order body =
    if ltb (length body) 36
    then none
    else some (record {
      timestamp_ns = be48 (drop 5 body);
      stock_locate = be16 (drop 1 body);
      order_ref = be64 (drop 11 body);
      shares = be32 (drop 20 body);
      price = be32 (drop 32 body);
      stock = take 8 (drop 24 body) ++ (0 ∷ []);
      side = get_or body 19 0;
      has_mpid = get_or body 0 0 == b'F';
    })

pub record ItchDeleteOrder : Type 0 where
  pub timestamp_ns : ℕ
  pub order_ref : ℕ

unfoldable pub parse_delete_order : List ℕ → Option ItchDeleteOrder
parse_delete_order body =
    if ltb (length body) 19
    then none
    else some (record { timestamp_ns = be48 (drop 5 body); order_ref = be64 (drop 11 body) })

pub record ItchOrderExecuted : Type 0 where
  pub timestamp_ns : ℕ
  pub order_ref : ℕ
  pub executed_shares : ℕ
  pub match_number : ℕ

unfoldable pub parse_order_executed : List ℕ → Option ItchOrderExecuted
parse_order_executed body =
    if ltb (length body) 31
    then none
    else some (record {
      timestamp_ns = be48 (drop 5 body);
      order_ref = be64 (drop 11 body);
      executed_shares = be32 (drop 19 body);
      match_number = be64 (drop 23 body);
    })

pub record ItchOrderCancel : Type 0 where
  pub timestamp_ns : ℕ
  pub order_ref : ℕ
  pub cancelled_shares : ℕ

unfoldable pub parse_order_cancel : List ℕ → Option ItchOrderCancel
parse_order_cancel body =
    if ltb (length body) 23
    then none
    else some (record {
      timestamp_ns = be48 (drop 5 body);
      order_ref = be64 (drop 11 body);
      cancelled_shares = be32 (drop 19 body);
    })

pub record ItchOrderReplace : Type 0 where
  pub timestamp_ns : ℕ
  pub orig_order_ref : ℕ
  pub new_order_ref : ℕ
  pub shares : ℕ
  pub price : ℕ

unfoldable pub parse_order_replace : List ℕ → Option ItchOrderReplace
parse_order_replace body =
    if ltb (length body) 35
    then none
    else some (record {
      timestamp_ns = be48 (drop 5 body);
      orig_order_ref = be64 (drop 11 body);
      new_order_ref = be64 (drop 19 body);
      shares = be32 (drop 27 body);
      price = be32 (drop 31 body);
    })
