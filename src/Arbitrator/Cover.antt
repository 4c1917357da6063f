-- ===== src/Arbitrator/Cover.antt =====
-- A stream whose datagrams each arrive on at least one of two lines
-- (include/feed/feed_arbitrator.hpp).
use udp_multicast_receiver.Common.{
  ℕ, ◌≡◌, ◌∙◌, refl, ap, true, false, Bool-cases, inl, inr, Bool, if◌then◌else◌, ◌||◌, List, [],
  ◌∷◌, ◌++◌, ◌==◌, arith,
}
use udp_multicast_receiver.Gap.Framing.{datagram_of}
use udp_multicast_receiver.Gap.Flow.{Flowing}
use udp_multicast_receiver.Gap.Inv.{IsValid}
use udp_multicast_receiver.Gap.Gather.{
  Chunk, In, Follows, all_bodies, IsHoldable, Event, arrives, ticks, happen, happen_all, arrived,
  Near,
}
use udp_multicast_receiver.Gap.Gather.Events.{Delivered}
use udp_multicast_receiver.Gap.Gather.Whole.{AllPast, happen_all-whole}
use udp_multicast_receiver.Arbitrator.{
  FeedLine, line_a, line_b, FeedArbitrator, ingest_line, tick_arbitrator,
}
use udp_multicast_receiver.Arbitrator.Merge.{ingest_line_frame}

-- What happens at the arbitrator: a datagram on one of the lines, or a tick.
pub data LineEvent : Type 0 where
  from_line : FeedLine → Chunk → ℕ → LineEvent
  timer : ℕ → LineEvent

unfoldable pub run_feed : List ℕ → FeedArbitrator → List LineEvent → FeedArbitrator
run_feed s arb [] = arb
run_feed s arb (from_line line p now ∷ es) =
    run_feed s (ingest_line arb line (datagram_of s p.seq p.bodies) now).0 es
run_feed s arb (timer now ∷ es) = run_feed s (tick_arbitrator arb now) es

-- The events with the lines forgotten.
abbrev pub merged : List LineEvent → List Event
merged [] = []
merged (from_line line p now ∷ es) = arrives p now ∷ merged es
merged (timer now ∷ es) = ticks now ∷ merged es

abbrev pub same_line : FeedLine → FeedLine → Bool
same_line line_a line_a = true
same_line line_a line_b = false
same_line line_b line_a = false
same_line line_b line_b = true

-- A datagram that starts at `seq` arrives on the line.
abbrev pub arrived_on : FeedLine → ℕ → List LineEvent → Bool
arrived_on line seq [] = false
arrived_on line seq (from_line l p now ∷ es) =
    (if same_line l line then p.seq == seq else false) || arrived_on line seq es
arrived_on line seq (timer now ∷ es) = arrived_on line seq es

run_feed-merged :
    (s : List ℕ) (arb : FeedArbitrator) (es : List LineEvent)
    → (run_feed s arb es).gap_buf ≡ happen_all s arb.gap_buf (merged es)
unfolding run_feed happen_all happen tick_arbitrator
run_feed-merged s arb [] = refl
run_feed-merged s arb (from_line line p now ∷ es) =
    run_feed-merged s (ingest_line arb line (datagram_of s p.seq p.bodies) now).0 es
    ∙ ap (λ g. happen_all s g (merged es))
        (ingest_line_frame arb line (datagram_of s p.seq p.bodies) now).0
run_feed-merged s arb (timer now ∷ es) = run_feed-merged s (tick_arbitrator arb now) es

arrived_on-merged :
    (line : FeedLine) (seq : ℕ) (es : List LineEvent)
    → arrived_on line seq es ≡ true
    → arrived seq (merged es) ≡ true
arrived_on-merged line seq [] e = absurd (cc)
arrived_on-merged line seq (from_line l p now ∷ es) e = elim (Bool-cases (p.seq == seq)) [
  | inl same ↦ ground (arith, same)
  | inr other ↦
      let later : arrived_on line seq es ≡ true = ground (arith, other, e) in
      ground (arith, arrived_on-merged line seq es later)
]
arrived_on-merged line seq (timer now ∷ es) e = arrived_on-merged line seq es e

-- The datagrams of a stream that starts where the shared buffer waits arrive at the arbitrator,
-- each on line A or on line B or on both, in any order across the lines, any number of times, mixed
-- with old ones and with ticks in between; each is well formed, has at most 1500 bytes behind its
-- header, and starts less than 4096 numbers above the number the shared buffer waits for when it
-- arrives. Whatever one line loses, if the other line brings it, every message of the stream is
-- delivered exactly once and in order, and the shared buffer, which was valid and held nothing back
-- before, ends waiting for the stream's end, with no gap tracked and nothing held back.
pub run_feed-whole :
    (arb : FeedArbitrator) (s : List ℕ) (q end : ℕ) (sent : List (List ℕ)) (olds ps : List Chunk)
    (es : List LineEvent)
    → IsValid arb.gap_buf
    → Flowing arb.gap_buf q sent
    → AllPast q olds
    → Follows q ps end
    → ((x : Chunk) → In x (olds ++ ps) → IsHoldable s x)
    → Near s (olds ++ ps) arb.gap_buf (merged es)
    → ((x : Chunk) → In x ps → arrived_on line_a x.seq es || arrived_on line_b x.seq es ≡ true)
    → Delivered (run_feed s arb es).gap_buf end (sent ++ all_bodies ps)
run_feed-whole arb s q end sent olds ps es v f old chain fits near covered =
    let every : (x : Chunk) → In x ps → arrived x.seq (merged es) ≡ true = λ x i.
      elim (Bool-cases (arrived_on line_a x.seq es)) [
        | inl on_a ↦ arrived_on-merged line_a x.seq es on_a
        | inr off_a ↦ arrived_on-merged line_b x.seq es (ground (arith, off_a, covered x i))
      ] in
    rw (run_feed-merged s arb es)
      (happen_all-whole arb.gap_buf s q end sent olds ps (merged es) v f old chain fits near every)
