-- ===== src/Gap/Swap.antt =====
-- Two adjacent datagrams may arrive in either order (include/feed/gap_buffer.hpp).
use udp_multicast_receiver.Common.{
  ℕ, ◌+◌, ◌%◌, ◌≤◌, ◌≡◌, ◌⊎◌, ◌∙◌, sym, ap, inl, true, false, some, List, [], ◌++◌, length, arith,
}
use udp_multicast_receiver.Wire.Mold.{MoldMessage}
use udp_multicast_receiver.Gap.State.{
  GapBuffer, capacity, max_packet_bytes, write_slot, slot_of, holds,
}
use udp_multicast_receiver.Gap.Deliver.{flush_round, flush_buffer}
use udp_multicast_receiver.Gap.Ingest.{clear_gap, count_packet, ingest}
use udp_multicast_receiver.Gap.Trace.{delivered}
use udp_multicast_receiver.Gap.Framing.{
  frames, numbered, header_of, datagram_of, IsDatagram, advance, delivered-log_messages,
}
use udp_multicast_receiver.Gap.Reorder.{
  ingest_next, ingest_in_order, ingest_ahead, flush_buffer_once,
}
use udp_multicast_receiver.Gap.Inv.{IsSound}
use udp_multicast_receiver.Gap.Inv.Step.{hold_back}
use udp_multicast_receiver.Gap.Held.{
  clear_gap_frame, filled_slot, Held, hold_back-Held, freed, flush_round_filled,
}

-- Where the second datagram arrives first: the buffer after both.
module _ (g : GapBuffer) (s s' : List ℕ) (q r : ℕ) (bodies bodies' : List (List ℕ)) (now now' : ℕ)
    (sound : IsSound g) (synced : g.session_synced ≡ true)
    (tracked : (g.gap_start ≡ 0) ⊎ (g.gap_start ≡ g.next_expected)) (d : IsDatagram s q bodies)
    (d' : IsDatagram s' r bodies') (at : q ≡ g.next_expected) (follows : r ≡ q + length bodies)
    (small : length (frames bodies') ≤ max_packet_bytes) (free : (slot_of g r).occupied ≡ false)
    (idle : holds g (r + length bodies') ≡ false) where
  held : GapBuffer
  held =
      hold_back (count_packet g (header_of s' r bodies')) (header_of s' r bodies')
        (datagram_of s' r bodies') now'

  held-Held : Held g held r (filled_slot s' r bodies' now')
  unfolding held count_packet
  held-Held =
      let h : Held (count_packet g (header_of s' r bodies')) held r
          (filled_slot s' r bodies' now') =
        hold_back-Held (count_packet g (header_of s' r bodies')) s' r bodies' now' d' small free
          tracked in
      record {
        same_listening = h.same_listening;
        same_session = h.same_session;
        same_synced = h.same_synced;
        same_next = h.same_next;
        new_slots = h.new_slots;
        same_messages = h.same_messages;
        gap_noted = h.gap_noted;
      }

  -- After the first datagram's messages, before the flush.
  caught_up : GapBuffer
  caught_up = advance (count_packet held (header_of s q bodies)) now bodies

  caught_up-next : caught_up.next_expected ≡ r
  unfolding caught_up count_packet
  caught_up-next = ground (arith, held-Held.same_next)

  caught_up-slots :
      caught_up.slots ≡ write_slot g.slots (r % capacity) (filled_slot s' r bodies' now')
  unfolding caught_up count_packet
  caught_up-slots = held-Held.new_slots

  caught_up_filled : slot_of caught_up caught_up.next_expected ≡ filled_slot s' r bodies' now'
  caught_up_filled = rw (caught_up-next, caught_up-slots) (ground arith)

  round : flush_round caught_up ≡ (freed caught_up s' r bodies' now', length bodies')
  round =
      flush_round_filled caught_up s' r bodies' now'
        (unfold caught_up count_packet in held-Held.same_listening ∙ sound.listening)
        (unfold caught_up count_packet in rw held-Held.same_session sound.session_length) d'
        (sym caught_up-next) caught_up_filled

  freed-next : (freed caught_up s' r bodies' now').next_expected ≡ r + length bodies'
  unfolding freed
  freed-next = ap (λ k. k + length bodies') caught_up-next

  freed_idle :
      holds (freed caught_up s' r bodies' now') (freed caught_up s' r bodies' now').next_expected
      ≡ false
  freed_idle =
      rw freed-next (unfold freed in rw (caught_up-next, caught_up-slots) (ground (arith, idle)))

  flushed : flush_buffer caught_up ≡ (freed caught_up s' r bodies' now', 0 + length bodies')
  flushed = rw round at (
      flush_buffer_once caught_up (rw caught_up_filled (ground (arith, caught_up-next)))
        (rw round freed_idle))

  swapped :
      ingest held (datagram_of s q bodies) now
      ≡ (clear_gap (freed caught_up s' r bodies' now'), some (length bodies + (0 + length bodies')))
  swapped =
      ingest_next held (freed caught_up s' r bodies' now') s q bodies now (0 + length bodies')
        (held-Held.same_listening ∙ sound.listening) (held-Held.same_synced ∙ synced)
        (at ∙ sym held-Held.same_next) d (unfold caught_up in flushed)

  abbrev both : List MoldMessage
  both = numbered now q bodies ++ (numbered now' r bodies' ++ [])

  swapped-delivered :
      delivered (freed caught_up s' r bodies' now').calls [] ≡ delivered g.calls both
  unfolding freed caught_up count_packet
  swapped-delivered =
      delivered-log_messages (numbered now' _ bodies') _ []
      ∙ delivered-log_messages (numbered now _ bodies) held.calls _
      ∙ held-Held.same_messages _
      ∙ rw (held-Held.same_next, ← at, ← follows)

  swapped-gap : (clear_gap (freed caught_up s' r bodies' now')).gap_start ≡ 0
  unfolding clear_gap freed caught_up count_packet
  swapped-gap = ground (arith, held-Held.gap_noted, held-Held.same_next, d.some_body)

  -- Where the first datagram arrives first.
  first : GapBuffer
  first = clear_gap (advance (count_packet g (header_of s q bodies)) now bodies)

  first-next : first.next_expected ≡ r
  unfolding first count_packet
  first-next = (clear_gap_frame _).0 ∙ omega arith

  first-slots : first.slots ≡ g.slots
  unfolding first count_packet
  first-slots = (clear_gap_frame _).2

  first-lem : ingest g (datagram_of s q bodies) now ≡ (first, some (length bodies + 0))
  unfolding first
  first-lem =
      ingest_in_order g s q bodies now sound.listening synced at d
        (ground (arith, free, follows, at))

  second : GapBuffer
  second = clear_gap (advance (count_packet first (header_of s' r bodies')) now' bodies')

  second-lem : ingest first (datagram_of s' r bodies') now' ≡ (second, some (length bodies' + 0))
  unfolding second
  second-lem =
      ingest_in_order first s' r bodies' now'
        (unfold first count_packet in (clear_gap_frame _).3 ∙ sound.listening)
        (unfold first count_packet in (clear_gap_frame _).4 ∙ synced) (sym first-next) d'
        (rw (first-next, first-slots) idle)

  second-next : second.next_expected ≡ r + length bodies'
  unfolding second count_packet
  second-next = (clear_gap_frame _).0 ∙ ap (λ k. k + length bodies') first-next

  first-delivered :
      (later : List MoldMessage)
      → delivered first.calls later ≡ delivered g.calls (numbered now q bodies ++ later)
  unfolding first count_packet
  first-delivered later =
      rw ((clear_gap_frame _).1, at)
        (delivered-log_messages (numbered now g.next_expected bodies) g.calls later)

  second-delivered : delivered second.calls [] ≡ delivered g.calls both
  unfolding second count_packet
  second-delivered =
      ap (λ c. delivered c []) ((clear_gap_frame _).1)
      ∙ delivered-log_messages (numbered now' first.next_expected bodies') first.calls []
      ∙ first-delivered _
      ∙ rw first-next

  two_orders :
      let straight =
        ingest (ingest g (datagram_of s q bodies) now).0 (datagram_of s' r bodies') now' in
      let swapped =
        ingest (ingest g (datagram_of s' r bodies') now').0 (datagram_of s q bodies) now in
      let both = numbered now q bodies ++ (numbered now' r bodies' ++ []) in
      (delivered swapped.0.calls [] ≡ delivered straight.0.calls [])
      × (delivered straight.0.calls [] ≡ delivered g.calls both)
      × (swapped.0.next_expected ≡ r + length bodies')
      × (straight.0.next_expected ≡ r + length bodies')
      × (swapped.0.gap_start ≡ 0)
      × (swapped.1 ≡ some (length bodies + length bodies'))
  unfolding held
  two_orders =
      rw
        (
          first-lem,
          second-lem,
          ingest_ahead g s' r bodies' now' synced (omega (arith, d.some_body)) d',
          swapped,
        )
        (
          ap (λ c. delivered c []) ((clear_gap_frame _).1)
              ∙ swapped-delivered
              ∙ sym second-delivered,
          second-delivered,
          (clear_gap_frame _).0 ∙ freed-next,
          second-next,
          swapped-gap,
          ap some (omega arith),
        )

-- Two well-formed datagrams that follow one another, the first at `next_expected`, may arrive in
-- either order. With no gap tracked before, the second one's slot free, at most 1500 bytes of
-- messages in it, and nothing held back that follows both, the swapped order delivers the same
-- messages in the same order as the straight one, each with its own datagram's arrival time; it
-- ends at the same `next_expected`, behind both datagrams, with no gap open; and the call with the
-- first datagram reports the messages of both.
pub ingest-swapped :
    (g : GapBuffer) (s s' : List ℕ) (q r : ℕ) (bodies bodies' : List (List ℕ)) (now now' : ℕ)
    → IsSound g
    → g.session_synced ≡ true
    → g.gap_start ≡ 0
    → IsDatagram s q bodies
    → IsDatagram s' r bodies'
    → q ≡ g.next_expected
    → r ≡ q + length bodies
    → length (frames bodies') ≤ max_packet_bytes
    → (slot_of g r).occupied ≡ false
    → holds g (r + length bodies') ≡ false
    → let straight =
        ingest (ingest g (datagram_of s q bodies) now).0 (datagram_of s' r bodies') now' in
      let swapped =
        ingest (ingest g (datagram_of s' r bodies') now').0 (datagram_of s q bodies) now in
      let both = numbered now q bodies ++ (numbered now' r bodies' ++ []) in
      (delivered swapped.0.calls [] ≡ delivered straight.0.calls [])
      × (delivered straight.0.calls [] ≡ delivered g.calls both)
      × (swapped.0.next_expected ≡ r + length bodies')
      × (straight.0.next_expected ≡ r + length bodies')
      × (swapped.0.gap_start ≡ 0)
      × (swapped.1 ≡ some (length bodies + length bodies'))
ingest-swapped g s s' q r bodies bodies' now now' sound y closed d d' at follows small free idle =
    two_orders g s s' q r bodies bodies' now now' sound y (inl closed) d d' at follows small free
      idle
