-- ===== src/Runs/Gap.antt =====
-- Concrete buffers and datagrams of include/feed/gap_buffer.hpp.
use udp_multicast_receiver.Common.{
  ℕ, ◌<◌, ◌≤◌, ◌≡◌, refl, inl, true, false, some, List, [], ◌∷◌, length, replicate, arith, u64,
}
use udp_multicast_receiver.Wire.Mold.{RetransmitRequest}
use udp_multicast_receiver.Gap.State.{
  GapBuffer, retransmit, default_config, empty_slot, no_stats, write_slot, holds,
}
use udp_multicast_receiver.Gap.Deliver.{flush_buffer}
use udp_multicast_receiver.Gap.Ingest.{ingest, tick}
use udp_multicast_receiver.Gap.Flush.{flush_buffer-done}
use udp_multicast_receiver.Gap.Trace.{EndsAt, message_count}
use udp_multicast_receiver.Gap.Inv.{IsSound, IsValid}
use udp_multicast_receiver.Gap.Inv.Reach.{Reach, here, next, datagram, timer, start, Reach-in_order}
use udp_multicast_receiver.Gap.Reorder.{IsDatagram-NoWrap}
use udp_multicast_receiver.Gap.Framing.{datagram_of, IsDatagram, frames}
use udp_multicast_receiver.Gap.Retransmit.{
  check_gap_timeout, missing_count, count_missing, request_due,
}
use udp_multicast_receiver.Gap.Stuck.{AtZero, ingest-AtZero}
use udp_multicast_receiver.Gap.Requests.{missing_from, tick-request, tick_again}

abbrev pub spaces : List ℕ
spaces = replicate 10 b' '

abbrev pub two : List (List ℕ)
two = (b'S' ∷ b'O' ∷ []) ∷ (b'S' ∷ b'S' ∷ b'Q' ∷ []) ∷ []

abbrev pub one : List (List ℕ)
one = (b'S' ∷ b'C' ∷ []) ∷ []

pub two-IsDatagram : IsDatagram spaces 1 two
two-IsDatagram = record {
  session_length = refl;
  bodies_fit = (omega arith, (omega arith, tt));
  some_body = omega arith;
  count_fits = omega arith;
  seq_fits = omega arith;
}

pub one-IsDatagram : IsDatagram spaces 3 one
one-IsDatagram = record {
  session_length = refl;
  bodies_fit = (omega arith, tt);
  some_body = omega arith;
  count_fits = omega arith;
  seq_fits = omega arith;
}

-- A synced buffer that waits for message 1.
abbrev pub running : GapBuffer
running = record {
  cfg = default_config;
  session = spaces;
  session_synced = true;
  next_expected = 1;
  gap_start = 0;
  gap_detected_at_ns = 0;
  gap_last_retx_ns = 0;
  on_message = true;
  on_gap = true;
  on_retx = true;
  slots = λ _. empty_slot;
  stats = no_stats;
  calls = [];
}

running-IsSound : IsSound running
running-IsSound = record {
  listening = refl;
  session_length = refl;
  next_lt = omega arith;
  fits = λ i o. absurd (cc);
  fresh = λ u. absurd (cc);
  vacant = λ u i. refl;
  in_order = tt;
  counted = refl;
}

pub running-IsValid : IsValid running
running-IsValid = record { sound = running-IsSound; tracked = inl refl; settled = refl }

-- Messages 1 and 2 arrive behind message 3, and a tick comes between.
abbrev behind_three : GapBuffer
behind_three =
    (ingest (tick (ingest (start default_config) (datagram_of spaces 1 two) 100).0 200)
      (datagram_of spaces 3 one) 300).0

behind_three-Reach : Reach (start default_config) behind_three
behind_three-Reach =
    next
      (next
        (next here (
          datagram (start default_config) (datagram_of spaces 1 two) 100
            (IsDatagram-NoWrap spaces 1 two two-IsDatagram)))
        (timer _ 200))
      (datagram _ (datagram_of spaces 3 one) 300 (IsDatagram-NoWrap spaces 3 one one-IsDatagram))

default_session : length default_config.session ≡ 10
unfolding default_config
default_session = refl

Reach-in_order_example :
    EndsAt behind_three.next_expected behind_three.calls
    × (behind_three.stats.delivered ≡ u64 (message_count behind_three.calls))
    × (holds behind_three behind_three.next_expected ≡ false)
Reach-in_order_example =
    Reach-in_order default_config behind_three default_session behind_three-Reach

abbrev waiting : GapBuffer
waiting = record running {
  slots =
      write_slot (λ _. empty_slot) 1
        (record {
          seq_num = 1;
          msg_count = 2;
          occupied = true;
          recv_ns = 90;
          contents = frames two;
        });
}

flush_buffer-done_example :
    holds (flush_buffer waiting).0 (flush_buffer waiting).0.next_expected ≡ false
flush_buffer-done_example = flush_buffer-done waiting

-- A buffer that has missed message 1 since time 10, with a packet that starts at 4 held back.
abbrev missed : GapBuffer
missed = record running {
  cfg = record {
    gap_timeout_ns = 100;
    retry_interval_ns = 1000;
    max_retransmit_count = 5;
    session = spaces;
  };
  gap_start = 1;
  gap_detected_at_ns = 10;
  slots =
      write_slot (λ _. empty_slot) 4
        (record {
          seq_num = 4;
          msg_count = 1;
          occupied = true;
          recv_ns = 10;
          contents = frames one;
        });
}

abbrev asked : RetransmitRequest
asked = record { session = spaces; first_seq = 1; count = 3 }

missed-tick : (tick missed 200).calls ≡ retransmit asked ∷ missed.calls
unfolding tick
missed-tick = unfold check_gap_timeout missing_count count_missing request_due in refl

tick-request_example :
    (asked.session ≡ missed.session)
    × (asked.first_seq ≡ missed.gap_start)
    × (0 < asked.count)
    × (asked.count ≤ missed.cfg.max_retransmit_count)
    × (missing_from missed asked.count asked.first_seq ≡ true)
tick-request_example = tick-request missed 200 asked (omega arith) (omega arith) missed-tick

tick_again_example : tick (tick missed 200) 900 ≡ tick missed 200
tick_again_example =
    tick_again missed 200 900 asked missed-tick (omega arith) (omega arith) (omega arith)
      (omega arith)

-- After a first heartbeat numbered 0.
abbrev zeroed : GapBuffer
zeroed = record running { next_expected = 0 }

ingest-AtZero_example :
    ((ingest zeroed (datagram_of spaces 1 two) 100).1 ≡ some 0)
    × AtZero (ingest zeroed (datagram_of spaces 1 two) 100).0
ingest-AtZero_example =
    ingest-AtZero zeroed spaces 1 two 100
      (record { synced = refl; next_zero = refl; no_gap = refl }) two-IsDatagram (omega arith)
