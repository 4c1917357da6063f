-- ===== src/Runs/Wire.antt =====
-- Concrete headers and messages of include/feed/wire_format.hpp.
use udp_multicast_receiver.Common.{
  ℕ, ◌≡◌, ◌↔◌, ◌<◌, refl, true, none, some, List, [], ◌∷◌, ◌++◌, length, replicate, arith,
}
use udp_multicast_receiver.Wire.Endian.{
  be16, be32, be48, be64, put_be16, put_be32, put_be48, put_be64,
}
use udp_multicast_receiver.Wire.Endian.RoundTrip.{be-put_be}
use udp_multicast_receiver.Wire.Mold.{MoldHeader, RetransmitRequest, parse, serialise}
use udp_multicast_receiver.Wire.Mold.RoundTrip.{parse-serialise}
use udp_multicast_receiver.Wire.Itch.{
  ItchAddOrder, ItchDeleteOrder, ItchOrderExecuted, ItchOrderCancel, ItchOrderReplace,
  parse_add_order, parse_delete_order, parse_order_executed, parse_order_cancel,
  parse_order_replace,
}
use udp_multicast_receiver.Wire.Itch.Layout.{add_order_wire, parse-add_order_wire}
use udp_multicast_receiver.Wire.Itch.Orders.{
  delete_wire, cancel_wire, executed_wire, replace_wire, parse_refuses_short,
}
use udp_multicast_receiver.Wire.Itch.RoundTrip.{parse-order_wires}

be-put_be_example :
    (be16 (put_be16 4660 ++ (7 ∷ [])) ≡ 4660)
    × (be32 (put_be32 305419896 ++ (7 ∷ [])) ≡ 305419896)
    × (be48 (put_be48 34200000000000 ++ (7 ∷ [])) ≡ 34200000000000)
    × (be64 (put_be64 81985529216486895 ++ (7 ∷ [])) ≡ 81985529216486895)
be-put_be_example =
    be-put_be 4660 305419896 34200000000000 81985529216486895 (7 ∷ []) (omega arith) (omega arith)
      (omega arith) (omega arith)

abbrev header : MoldHeader
header = record { session = replicate 10 b'0'; seq_num = 4097; msg_count = 3 }

parse-serialise_example :
    (parse (serialise header ++ (0 ∷ 0 ∷ [])) ≡ some header) × (length (serialise header) ≡ 20)
parse-serialise_example =
    parse-serialise header (0 ∷ 0 ∷ [])
      (record { session_length = refl; seq_num_lt = omega arith; msg_count_lt = omega arith })

abbrev request : RetransmitRequest
request = record { session = replicate 10 b'0'; first_seq = 4098; count = 100 }

abbrev short_body : List ℕ
short_body = b'D' ∷ 0 ∷ []

abbrev stock : List ℕ
stock = b'A' ∷ b'A' ∷ b'P' ∷ b'L' ∷ b' ' ∷ b' ' ∷ b' ' ∷ b' ' ∷ []

abbrev add : ItchAddOrder
add = record {
  timestamp_ns = 34200000000000;
  stock_locate = 12;
  order_ref = 1001;
  shares = 300;
  price = 1500000;
  stock = stock ++ (0 ∷ []);
  side = b'B';
  has_mpid = true;
}

parse-add_order_wire_example :
    parse_add_order (add_order_wire b'F' 2 add stock (replicate 4 b'M')) ≡ some add
parse-add_order_wire_example =
    parse-add_order_wire b'F' 2 add stock (replicate 4 b'M') refl refl refl (omega arith)
      (omega arith) (omega arith) (omega arith) (omega arith)

abbrev delete : ItchDeleteOrder
delete = record { timestamp_ns = 34200000000001; order_ref = 1001 }

abbrev cancel : ItchOrderCancel
cancel = record { timestamp_ns = 34200000000001; order_ref = 1001; cancelled_shares = 50 }

abbrev executed : ItchOrderExecuted
executed = record {
  timestamp_ns = 34200000000001;
  order_ref = 1001;
  executed_shares = 50;
  match_number = 77;
}

abbrev replace : ItchOrderReplace
replace = record {
  timestamp_ns = 34200000000001;
  orig_order_ref = 1001;
  new_order_ref = 1002;
  shares = 200;
  price = 1510000;
}

parse-order_wires_example :
    (parse_delete_order (delete_wire b'D' 12 2 delete []) ≡ some delete)
    × (parse_order_cancel (cancel_wire b'X' 12 2 cancel []) ≡ some cancel)
    × (parse_order_executed (executed_wire b'E' 12 2 executed []) ≡ some executed)
    × (parse_order_replace (replace_wire b'U' 12 2 replace []) ≡ some replace)
parse-order_wires_example =
    parse-order_wires 12 2 [] delete cancel executed replace (omega arith, omega arith)
      (omega arith, omega arith, omega arith) (omega arith, omega arith, omega arith, omega arith)
      (omega arith, omega arith, omega arith, omega arith, omega arith)

parse_refuses_short_example :
    ((parse_add_order short_body ≡ none) ↔ (length short_body < 36))
    × ((parse_delete_order short_body ≡ none) ↔ (length short_body < 19))
    × ((parse_order_executed short_body ≡ none) ↔ (length short_body < 31))
    × ((parse_order_cancel short_body ≡ none) ↔ (length short_body < 23))
    × ((parse_order_replace short_body ≡ none) ↔ (length short_body < 35))
parse_refuses_short_example = parse_refuses_short short_body
