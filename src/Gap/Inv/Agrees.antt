-- ===== src/Gap/Inv/Agrees.antt =====
-- Gap tracking of include/feed/gap_buffer.hpp leaves alone what delivery reads.
use udp_multicast_receiver.Common.{ℕ, ◌≡◌, ◌⊎◌, ◌∙◌, true, false, List, arith}
use udp_multicast_receiver.Wire.Mold.{MoldMessage}
use udp_multicast_receiver.Gap.State.{GapBuffer, holds}
use udp_multicast_receiver.Gap.Retransmit.{handle_gap, check_gap_timeout}
use udp_multicast_receiver.Gap.Trace.{EndsAt, delivered, message_count}
use udp_multicast_receiver.Gap.Inv.{IsSound, IsValid}

-- Two buffers that differ in counters, callbacks' calls other than messages, and timers only.
pub record Agrees (g h : GapBuffer) : Type 0 where
  pub same_listening : h.on_message ≡ g.on_message
  pub same_session : h.session ≡ g.session
  pub same_synced : h.session_synced ≡ g.session_synced
  pub same_next : h.next_expected ≡ g.next_expected
  pub same_slots : h.slots ≡ g.slots
  pub same_delivered : h.stats.delivered ≡ g.stats.delivered
  pub same_count : message_count h.calls ≡ message_count g.calls
  pub same_end : (n : ℕ) → EndsAt n g.calls → EndsAt n h.calls
  pub same_messages : (later : List MoldMessage) → delivered h.calls later ≡ delivered g.calls later

pub check_gap_timeout-Agrees : (g : GapBuffer) (now : ℕ) → Agrees g (check_gap_timeout g now)
unfolding check_gap_timeout
check_gap_timeout-Agrees g now = record {
  same_listening = ground arith;
  same_session = ground arith;
  same_synced = ground arith;
  same_next = ground arith;
  same_slots = ground arith;
  same_delivered = ground arith;
  same_count = ground arith;
  same_end = λ n e. ground arith;
  same_messages = λ later. ground arith;
}

-- The gap is either the same afterwards, or closed.
pub check_gap_timeout_gap :
    (g : GapBuffer) (now : ℕ)
    → ((check_gap_timeout g now).gap_start ≡ 0)
      ⊎ ((check_gap_timeout g now).gap_start ≡ g.gap_start)
unfolding check_gap_timeout
check_gap_timeout_gap g now = ground arith

pub handle_gap-Agrees : (g : GapBuffer) (seq now : ℕ) → Agrees g (handle_gap g seq now)
unfolding handle_gap
handle_gap-Agrees g seq now = record {
  same_listening = ground arith;
  same_session = ground arith;
  same_synced = ground arith;
  same_next = ground arith;
  same_slots = ground arith;
  same_delivered = ground arith;
  same_count = ground arith;
  same_end = λ n e. ground arith;
  same_messages = λ later. ground arith;
}

pub handle_gap_gap :
    (g : GapBuffer) (seq now : ℕ)
    → ((handle_gap g seq now).gap_start ≡ g.next_expected)
      ⊎ ((handle_gap g seq now).gap_start ≡ g.gap_start)
unfolding handle_gap
handle_gap_gap g seq now = ground arith

module _ {g h : GapBuffer} (a : Agrees g h) (s : IsSound g) where
  Agrees-IsSound : (h.session_synced ≡ false → h.gap_start ≡ 0) → IsSound h
  Agrees-IsSound closed = record {
    listening = a.same_listening ∙ s.listening;
    session_length = rw a.same_session s.session_length;
    next_lt = rw a.same_next s.next_lt;
    fits = rw a.same_slots s.fits;
    fresh = λ u. (rw a.same_next ((s.fresh (rw a.same_synced at u)).0), closed u);
    vacant = λ u. rw a.same_slots (s.vacant (rw a.same_synced at u));
    in_order = rw a.same_next (a.same_end g.next_expected s.in_order);
    counted = rw (a.same_delivered, a.same_count) s.counted;
  }

  Agrees-settled : holds g g.next_expected ≡ false → holds h h.next_expected ≡ false
  Agrees-settled e = rw (a.same_next, a.same_slots) e

pub Agrees-IsValid :
    {g h : GapBuffer} → Agrees g h → h.gap_start ≡ g.gap_start → IsValid g → IsValid h
Agrees-IsValid a e v = record {
  sound = Agrees-IsSound a v.sound (λ u. e ∙ (v.sound.fresh (rw a.same_synced at u)).1);
  tracked = rw (e, a.same_next) v.tracked;
  settled = Agrees-settled a v.sound v.settled;
}

pub check_gap_timeout-IsValid :
    (g : GapBuffer) (now : ℕ) → IsValid g → IsValid (check_gap_timeout g now)
check_gap_timeout-IsValid g now v =
    let a : Agrees g (check_gap_timeout g now) = check_gap_timeout-Agrees g now in
    record {
      sound =
          Agrees-IsSound a v.sound
            λ u. ground (arith, check_gap_timeout_gap g now, v.sound.fresh (rw a.same_synced at u));
      tracked = ground (arith, check_gap_timeout_gap g now, a.same_next, v.tracked);
      settled = Agrees-settled a v.sound v.settled;
    }

pub handle_gap-IsValid :
    (g : GapBuffer) (seq now : ℕ)
    → g.session_synced ≡ true
    → IsValid g
    → IsValid (handle_gap g seq now)
handle_gap-IsValid g seq now y v =
    let a : Agrees g (handle_gap g seq now) = handle_gap-Agrees g seq now in
    record {
      sound = Agrees-IsSound a v.sound (λ u. absurd (cc (rw a.same_synced at u)));
      tracked = ground (arith, handle_gap_gap g seq now, a.same_next, v.tracked);
      settled = Agrees-settled a v.sound v.settled;
    }
