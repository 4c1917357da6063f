-- ===== src/Runs/Receiver.antt =====
-- Concrete rounds of the loop in include/feed/receiver.hpp.
use udp_multicast_receiver.Common.{
  ℕ, ◌+◌, ◌^◌, ◌<◌, ◌≡◌, refl, inl, inr, true, false, none, some, List, [], ◌∷◌, ◌++◌, length,
  replicate, ◌&&◌, ◌==◌, get_or, if◌then◌else◌, arith, u16, u64,
}
use udp_multicast_receiver.Gap.State.{
  GapBuffer, retransmit, default_config, empty_slot, no_stats, write_slot,
}
use udp_multicast_receiver.Gap.Retransmit.{missing_count}
use udp_multicast_receiver.Gap.Framing.{datagram_of, frames, IsDatagram}
use udp_multicast_receiver.Gap.Trace.{EndsAt}
use udp_multicast_receiver.Gap.Inv.{IsSound, IsValid}
use udp_multicast_receiver.Gap.Progress.{IsOpen, request_count}
use udp_multicast_receiver.Receiver.{
  default_receiver, MulticastReceiver, receiver_of, Syscalls, open_receiver, is_open, Received,
  nothing_ready, packet, Spin, spin, run_from,
}
use udp_multicast_receiver.Receiver.Asks.{idle, run_from-asks}
use udp_multicast_receiver.Receiver.Clocks.{spin-early}
use udp_multicast_receiver.Receiver.Open.{open_receiver-result}
use udp_multicast_receiver.Receiver.Order.{AllNoWrap}
use udp_multicast_receiver.Gap.Reorder.{IsDatagram-NoWrap}
use udp_multicast_receiver.Gap.Trace.{sent_bodies}
use udp_multicast_receiver.Receiver.Calls.{
  SysCall, bind_any, join_group, Lookup, Addresses, open_calls,
}
use udp_multicast_receiver.Receiver.Calls.Planned.{until_failure, planned}
use udp_multicast_receiver.Receiver.Calls.Stops.{Stops, open_calls-Stops}
use udp_multicast_receiver.Receiver.Calls.Joined.{open_calls-joined}
use udp_multicast_receiver.Main.{live_mode}
use udp_multicast_receiver.Main.Tally.{tally}
use udp_multicast_receiver.Main.Live.{live_mode-counts}

abbrev spaces : List ℕ
spaces = replicate 10 b' '

-- A buffer that has missed message 1 since time 10, with a packet that starts at 4 held back.
abbrev missed : GapBuffer
missed = record {
  cfg = record {
    gap_timeout_ns = 100;
    retry_interval_ns = 1000;
    max_retransmit_count = 5;
    session = spaces;
  };
  session = spaces;
  session_synced = true;
  next_expected = 1;
  gap_start = 1;
  gap_detected_at_ns = 10;
  gap_last_retx_ns = 0;
  on_message = true;
  on_gap = false;
  on_retx = true;
  slots =
      write_slot (λ _. empty_slot) 4
        (record {
          seq_num = 4;
          msg_count = 1;
          occupied = true;
          recv_ns = 10;
          contents = frames ((b'S' ∷ []) ∷ []);
        });
  stats = no_stats;
  calls = [];
}

missed-IsSound : IsSound missed
missed-IsSound = record {
  listening = refl;
  session_length = refl;
  next_lt = omega arith;
  fits = λ i o. ground arith;
  fresh = λ u. absurd (cc);
  vacant = λ u i. absurd (cc);
  in_order = tt;
  counted = refl;
}

missed-IsValid : IsValid missed
missed-IsValid = record { sound = missed-IsSound; tracked = inr refl; settled = refl }

missed-IsOpen : IsOpen missed
missed-IsOpen = record { tracks = λ e. absurd (omega (arith, e)); asks = refl; room = omega arith }

abbrev stalled : MulticastReceiver
stalled = receiver_of default_receiver missed

run_from-asks_example :
    request_count stalled.gap_buf.calls
    < request_count (run_from 50 (stalled, 20) (idle (40 ∷ 90 ∷ 130 ∷ 170 ∷ []))).0.gap_buf.calls
run_from-asks_example =
    run_from-asks 50 (40 ∷ 90 ∷ 130 ∷ 170 ∷ []) stalled 20 20 170 missed-IsValid missed-IsOpen refl
      (omega arith) (omega arith) (omega arith) (omega arith) (omega arith) (omega arith)
      (omega arith, (omega arith, (omega arith, (omega arith, refl))))

-- The kernel's realtime clock is ahead of the monotonic one.
abbrev ahead : MulticastReceiver
ahead =
    receiver_of default_receiver (record missed { gap_detected_at_ns = 1_700_000_000_000_000_000 })

ahead-IsValid : IsValid ahead.gap_buf
ahead-IsValid = record {
  sound = record {
    listening = refl;
    session_length = refl;
    next_lt = omega arith;
    fits = λ i o. ground arith;
    fresh = λ u. absurd (cc);
    vacant = λ u i. absurd (cc);
    in_order = tt;
    counted = refl;
  };
  tracked = inr refl;
  settled = refl;
}

spin-early_example :
    (spin 50
      (ahead, 20)
      (record { received = nothing_ready; monotonic = 90; now = 90 })).0.gap_buf.calls
    ≡ retransmit
        (record { session = spaces; first_seq = 1; count = u16 (missing_count ahead.gap_buf) })
      ∷ []
spin-early_example =
    spin-early 50 ahead 20 90 ahead-IsValid
      (record { tracks = λ e. absurd (omega (arith, e)); asks = refl; room = omega arith }) refl
      (omega arith) (omega arith) (omega arith) refl

abbrev one : List (List ℕ)
one = (b'S' ∷ b'C' ∷ []) ∷ []

pub one-IsDatagram : (q : ℕ) → q + 1 < 2 ^ 64 → IsDatagram spaces q one
one-IsDatagram q h = record {
  session_length = refl;
  bodies_fit = (omega arith, tt);
  some_body = omega arith;
  count_fits = omega arith;
  seq_fits = omega arith;
}

abbrev no_body : List (List ℕ)
no_body = [] ∷ []

no_body-IsDatagram : IsDatagram spaces 2 no_body
no_body-IsDatagram = record {
  session_length = refl;
  bodies_fit = (omega arith, tt);
  some_body = omega arith;
  count_fits = omega arith;
  seq_fits = omega arith;
}

-- Messages 1, 3 and 2 with kernel times, message 2 empty, and a round without a packet.
abbrev stamped : ℕ → List (List ℕ) → Received
stamped q bodies =
    packet (datagram_of spaces q bodies)
      (record { timestamping = true; tv_sec = 1; tv_nsec = q } ∷ [])

abbrev rounds : List Spin
rounds =
    record { received = stamped 1 one; monotonic = 10; now = 10 }
    ∷ record { received = stamped 3 one; monotonic = 20; now = 20 }
    ∷ record { received = nothing_ready; monotonic = 30; now = 30 }
    ∷ record { received = stamped 2 no_body; monotonic = 40; now = 40 }
    ∷ []

stamped-NoWrap : AllNoWrap rounds
stamped-NoWrap = (
  IsDatagram-NoWrap spaces 1 one (one-IsDatagram 1 (omega arith)),
  (
    IsDatagram-NoWrap spaces 3 one (one-IsDatagram 3 (omega arith)),
    (tt, (IsDatagram-NoWrap spaces 2 no_body no_body-IsDatagram, tt)),
  ),
)

default_session : length default_config.session ≡ 10
unfolding default_config
default_session = refl

abbrev pub all_succeed : Syscalls
all_succeed = record {
  socket = some 3;
  reuse_addr = true;
  reuse_port = true;
  rcvbuf_force = false;
  rcvbuf = true;
  granted = some 16777216;
  timestamping = true;
  bind = true;
  add_membership = true;
  add_source_membership = false;
}

open_receiver-result_example :
    let (opened, done) = open_receiver (receiver_of default_receiver missed) all_succeed in
    (done ≡ true) × (is_open opened ≡ true) × (opened.gap_buf ≡ missed)
open_receiver-result_example = open_receiver-result default_receiver missed all_succeed

live_mode-counts_example :
    let (code, r, h) = live_mode (λ n. b'A') default_receiver all_succeed 25 0 rounds in
    (code ≡ 0)
    × (h.total_messages ≡ u64 r.messages_delivered)
    × (h.add_orders ≡ u64 (tally b'A' b'F' (λ n. b'A') (sent_bodies r.gap_buf.calls)))
    × EndsAt r.gap_buf.next_expected r.gap_buf.calls
live_mode-counts_example =
    live_mode-counts (λ n. b'A') default_receiver all_succeed 25 0 rounds refl stamped-NoWrap

-- The interface `lo` has the address 127.0.0.1, and no other has one; inet_pton gives a number to
-- each text.
abbrev lookup : List ℕ → Lookup
lookup name =
    let lo = (length name == 2) && ((get_or name 0 0 == b'l') && (get_or name 1 0 == b'o')) in
    record { opened = true; answer = if lo then some 2130706433 else none }

abbrev addresses : Addresses
addresses = record { to_addr = λ text. length text; sending = lookup; joining = lookup }

open_calls-Stops_example :
    let calls = (open_calls default_receiver all_succeed addresses).0 in
    (calls
      ≡ until_failure all_succeed
          (planned default_receiver all_succeed addresses.to_addr 2130706433 2130706433))
    × Stops all_succeed calls (open_receiver (receiver_of default_receiver missed) all_succeed).1
open_calls-Stops_example =
    open_calls-Stops default_receiver missed all_succeed addresses 2130706433 2130706433
      (inl (refl, refl), inl (refl, refl))

open_calls-joined_example :
    (before : List SysCall) × ((open_calls default_receiver all_succeed addresses).0
      ≡ before ++ (bind_any 15001 ∷ join_group 9 2130706433 ∷ []))
open_calls-joined_example =
    open_calls-joined default_receiver all_succeed addresses 2130706433 refl (inl (refl, refl))
