-- ===== src/Runs/Gather.antt =====
-- A stream of two datagrams that arrives out of order at include/feed/gap_buffer.hpp, and on two
-- lines.
use udp_multicast_receiver.Common.{
  ◌≡◌, ◌⊎◌, ◌≤◌, refl, inl, inr, true, List, [], ◌∷◌, ◌++◌, ◌||◌, arith,
}
use udp_multicast_receiver.Wire.Endian.{put_be16}
use udp_multicast_receiver.Gap.Framing.{frames}
use udp_multicast_receiver.Gap.Trace.{sent_bodies}
use udp_multicast_receiver.Gap.State.{holds}
use udp_multicast_receiver.Gap.Flow.{Flowing}
use udp_multicast_receiver.Gap.Gather.{
  Chunk, past, all_bodies, In, IsHoldable, Event, arrives, ticks, happen_all, arrived, Near,
}
use udp_multicast_receiver.Gap.Gather.Events.{Delivered}
use udp_multicast_receiver.Gap.Gather.Prefix.{arrived_first, happen_all-prefix}
use udp_multicast_receiver.Book.Multi.{no_books}
use udp_multicast_receiver.Book.Multi.Arrival.{books_of, books_direct, happen_all-books}
use udp_multicast_receiver.Arbitrator.{FeedArbitrator, line_a, line_b, no_counts}
use udp_multicast_receiver.Arbitrator.Cover.{
  LineEvent, from_line, timer, run_feed, merged, arrived_on, run_feed-whole,
}
use udp_multicast_receiver.Runs.Gap.{
  spaces, one, two, one-IsDatagram, two-IsDatagram, running, running-IsValid,
}

abbrev first : Chunk
first = record { seq = 1; bodies = two }

abbrev second : Chunk
second = record { seq = 3; bodies = one }

abbrev stream : List Chunk
stream = first ∷ second ∷ []

running-Flowing : Flowing running 1 []
running-Flowing = record {
  listening = refl;
  synced = refl;
  at_next = refl;
  no_gap = refl;
  no_packet = λ i. refl;
  ends = tt;
  bodies = unfold sent_bodies in refl;
}

stream-IsHoldable : (x : Chunk) → In x stream → IsHoldable spaces x
unfolding frames put_be16
stream-IsHoldable x (inl e) = rw e (two-IsDatagram, omega arith)
stream-IsHoldable x (inr (inl e)) = rw e (one-IsDatagram, omega arith)
stream-IsHoldable x (inr (inr i)) = absurd i

-- The second datagram comes first, and once more at the end.
abbrev late : List Event
late = arrives second 10 ∷ ticks 20 ∷ arrives first 30 ∷ arrives second 40 ∷ []

late-Near : Near spaces stream running late
late-Near =
    (inr (inl refl), omega arith, (inl refl, omega arith, (inr (inl refl), omega arith, tt)))

-- Line A loses the first datagram and line B the second.
abbrev lossy : List LineEvent
lossy = from_line line_a second 10 ∷ timer 20 ∷ from_line line_b first 30 ∷ []

lossy-Near : Near spaces stream running (merged lossy)
lossy-Near = (inr (inl refl), omega arith, (inl refl, omega arith, tt))

lossy-arrived :
    (x : Chunk)
    → In x stream
    → arrived_on line_a x.seq lossy || arrived_on line_b x.seq lossy ≡ true
lossy-arrived x (inl e) = rw e refl
lossy-arrived x (inr (inl e)) = rw e refl
lossy-arrived x (inr (inr i)) = absurd i

abbrev arbitrated : FeedArbitrator
arbitrated = record {
  gap_buf = running;
  packets = no_counts;
  seq_won = no_counts;
  redundant = no_counts;
  last_win_ns = no_counts;
}

run_feed-whole_example : Delivered (run_feed spaces arbitrated lossy).gap_buf 4 (two ++ one)
run_feed-whole_example =
    run_feed-whole arbitrated spaces 1 4 [] [] stream lossy running-IsValid running-Flowing tt
      (refl, (refl, refl)) stream-IsHoldable lossy-Near lossy-arrived

-- The first datagram is lost: nothing is delivered, and the second one is held back.
abbrev cut : List Event
cut = arrives second 10 ∷ ticks 20 ∷ []

happen_all-prefix_example :
    let h = happen_all spaces running cut in
    (sent_bodies h.calls ≡ [])
    × (h.next_expected ≡ 1)
    × ((x : Chunk)
        → In x stream
        → arrived x.seq cut ≡ true
        → (past x ≤ h.next_expected) ⊎ (holds h x.seq ≡ true))
happen_all-prefix_example =
    happen_all-prefix running spaces 1 4 [] [] stream cut running-IsValid running-Flowing tt
      (refl, (refl, refl)) stream-IsHoldable (inr (inl refl), omega arith, tt)

happen_all-books_example :
    books_of no_books (happen_all spaces running late).calls
    ≡ books_direct no_books ([] ++ all_bodies (arrived_first stream late))
happen_all-books_example =
    happen_all-books no_books running spaces 1 4 [] [] stream late running-IsValid running-Flowing
      tt tt (refl, (refl, refl)) stream-IsHoldable late-Near
