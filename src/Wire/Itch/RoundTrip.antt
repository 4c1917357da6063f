-- ===== src/Wire/Itch/RoundTrip.antt =====
-- The messages that refer to a resting order, written out and parsed again.
use udp_multicast_receiver.Common.{ℕ, ◌^◌, ◌<◌, ◌≡◌, some, List}
use udp_multicast_receiver.Wire.Itch.{
  ItchDeleteOrder, ItchOrderExecuted, ItchOrderCancel, ItchOrderReplace, parse_delete_order,
  parse_order_executed, parse_order_cancel, parse_order_replace,
}
use udp_multicast_receiver.Wire.Itch.Orders.{
  delete_wire, cancel_wire, executed_wire, replace_wire, parse-delete_wire, parse-cancel_wire,
  parse-executed_wire, parse-replace_wire,
}

-- The fields fit their widths.
abbrev pub DeleteFits : ItchDeleteOrder → Type 0
DeleteFits m = (m.timestamp_ns < 2 ^ 48) × (m.order_ref < 2 ^ 64)

abbrev pub CancelFits : ItchOrderCancel → Type 0
CancelFits m = (m.timestamp_ns < 2 ^ 48) × (m.order_ref < 2 ^ 64) × (m.cancelled_shares < 2 ^ 32)

abbrev pub ExecutedFits : ItchOrderExecuted → Type 0
ExecutedFits m =
    (m.timestamp_ns < 2 ^ 48)
    × (m.order_ref < 2 ^ 64)
    × (m.executed_shares < 2 ^ 32)
    × (m.match_number < 2 ^ 64)

abbrev pub ReplaceFits : ItchOrderReplace → Type 0
ReplaceFits m =
    (m.timestamp_ns < 2 ^ 48)
    × (m.orig_order_ref < 2 ^ 64)
    × (m.new_order_ref < 2 ^ 64)
    × (m.shares < 2 ^ 32)
    × (m.price < 2 ^ 32)

-- A Delete, a Cancel, an Executed and a Replace whose fields fit are each decoded from their
-- layout, whatever stands in the bytes that the parsers skip and behind the message.
pub parse-order_wires :
    (locate tracking : ℕ) (rest : List ℕ) (d : ItchDeleteOrder) (c : ItchOrderCancel)
    (e : ItchOrderExecuted) (r : ItchOrderReplace)
    → DeleteFits d
    → CancelFits c
    → ExecutedFits e
    → ReplaceFits r
    → (parse_delete_order (delete_wire b'D' locate tracking d rest) ≡ some d)
      × (parse_order_cancel (cancel_wire b'X' locate tracking c rest) ≡ some c)
      × (parse_order_executed (executed_wire b'E' locate tracking e rest) ≡ some e)
      × (parse_order_replace (replace_wire b'U' locate tracking r rest) ≡ some r)
parse-order_wires locate tracking rest d c e r (d0, d1) (c0, c1, c2) (e0, e1, e2, e3)
      (r0, r1, r2, r3, r4) =
    (
      parse-delete_wire b'D' locate tracking d rest d0 d1,
      parse-cancel_wire b'X' locate tracking c rest c0 c1 c2,
      parse-executed_wire b'E' locate tracking e rest e0 e1 e2 e3,
      parse-replace_wire b'U' locate tracking r rest r0 r1 r2 r3 r4,
    )
