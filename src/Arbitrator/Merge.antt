-- ===== src/Arbitrator/Merge.antt =====
-- What merging two lines gives (include/feed/feed_arbitrator.hpp).
use udp_multicast_receiver.Common.{
  ℕ, ◌+◌, ◌≤◌, ◌≡◌, ◌∙◌, refl, ap, true, Option, none, some, List, [], ◌∷◌, length, u64, arith,
}
use udp_multicast_receiver.Gap.State.{GapBuffer}
use udp_multicast_receiver.Gap.Ingest.{ingest, count_packet, count_duplicate}
use udp_multicast_receiver.Gap.Framing.{datagram_of, IsDatagram}
use udp_multicast_receiver.Gap.Reorder.{ingest_delivered}
use udp_multicast_receiver.Arbitrator.{
  FeedLine, line_a, line_b, PerLine, FeedArbitrator, attribute, bump, ingest_line,
}

-- One packet from one line.
pub record Arrival : Type 0 where
  pub line : FeedLine
  pub payload : List ℕ
  pub now_ns : ℕ

unfoldable pub run_lines : FeedArbitrator → List Arrival → FeedArbitrator
run_lines arb [] = arb
run_lines arb (x ∷ xs) = run_lines (ingest_line arb x.line x.payload x.now_ns).0 xs

abbrev pub count_of : Option ℕ → ℕ
count_of none = 0
count_of (some n) = n

-- The same packets through a GapBuffer alone, and how many messages it reports delivered.
unfoldable pub run_packets : GapBuffer → List Arrival → GapBuffer × ℕ
run_packets g [] = (g, 0)
run_packets g (x ∷ xs) =
    let (h, delivered) = ingest g x.payload x.now_ns in
    let (last, more) = run_packets h xs in (last, count_of delivered + more)

abbrev pub both_lines : PerLine → ℕ
both_lines p = p.a + p.b

attribute_frame :
    (arb : FeedArbitrator) (line : FeedLine) (delivered : Option ℕ) (now : ℕ)
    → ((attribute arb line delivered now).gap_buf ≡ arb.gap_buf)
      × ((attribute arb line delivered now).packets ≡ arb.packets)
      × (u64 (both_lines (attribute arb line delivered now).seq_won)
          ≡ u64 (both_lines arb.seq_won + count_of delivered))
unfolding attribute
attribute_frame arb line none now = (refl, refl, ground arith)
attribute_frame arb line_a (some n) now = (ground arith, ground arith, ground arith)
attribute_frame arb line_b (some n) now = (ground arith, ground arith, ground arith)

bump-both :
    (p : PerLine) (line : FeedLine) → u64 (both_lines (bump p line)) ≡ u64 (both_lines p + 1)
bump-both p line_a = omega arith
bump-both p line_b = omega arith

pub ingest_line_frame :
    (arb : FeedArbitrator) (line : FeedLine) (payload : List ℕ) (now : ℕ)
    → ((ingest_line arb line payload now).0.gap_buf ≡ (ingest arb.gap_buf payload now).0)
      × (u64 (both_lines (ingest_line arb line payload now).0.packets)
          ≡ u64 (both_lines arb.packets + 1))
      × (u64 (both_lines (ingest_line arb line payload now).0.seq_won)
          ≡ u64 (both_lines arb.seq_won + count_of (ingest arb.gap_buf payload now).1))
unfolding ingest_line
ingest_line_frame arb line payload now =
    let r = ingest arb.gap_buf payload now in
    let (same, counted, won) =
      attribute_frame (record arb { packets = bump arb.packets line; gap_buf = r.0 }) line r.1
        now in
    (same, ap (λ p. u64 (both_lines p)) counted ∙ bump-both arb.packets line, won)

-- Whatever the order in which the packets of the two lines arrive: the shared buffer ends as if it
-- had been given those packets alone, in that order; the packet counters of the lines add up to the
-- number of packets; and the messages won by the lines add up to the messages delivered, all modulo
-- 2 ^ 64.
pub run_lines-merge :
    (arb : FeedArbitrator) (xs : List Arrival)
    → ((run_lines arb xs).gap_buf ≡ (run_packets arb.gap_buf xs).0)
      × (u64 (both_lines (run_lines arb xs).packets) ≡ u64 (both_lines arb.packets + length xs))
      × (u64 (both_lines (run_lines arb xs).seq_won)
          ≡ u64 (both_lines arb.seq_won + (run_packets arb.gap_buf xs).1))
unfolding run_lines run_packets
run_lines-merge arb [] = (refl, omega arith, omega arith)
run_lines-merge arb (x ∷ xs) =
    let step = ingest_line_frame arb x.line x.payload x.now_ns in
    let after = (ingest_line arb x.line x.payload x.now_ns).0 in
    let rest = run_lines-merge after xs in
    (
      rest.0 ∙ ap (λ g. (run_packets g xs).0) step.0,
      omega (arith, rest.1, step.1),
      omega (arith, rest.2, step.2, ap (λ g. (run_packets g xs).1) step.0),
    )

-- A datagram whose messages the buffer has all delivered, from either line: nothing is delivered,
-- no callback is called, the next number and the slots stay, and that line counts one redundant
-- packet and wins nothing.
pub ingest_line-redundant :
    (arb : FeedArbitrator) (line : FeedLine) (s : List ℕ) (q : ℕ) (bodies : List (List ℕ)) (now : ℕ)
    → arb.gap_buf.session_synced ≡ true
    → IsDatagram s q bodies
    → q + length bodies ≤ arb.gap_buf.next_expected
    → let r = ingest_line arb line (datagram_of s q bodies) now in
      (r.1 ≡ some 0)
      × (r.0.gap_buf.calls ≡ arb.gap_buf.calls)
      × (r.0.gap_buf.next_expected ≡ arb.gap_buf.next_expected)
      × (r.0.gap_buf.slots ≡ arb.gap_buf.slots)
      × (r.0.redundant ≡ bump arb.redundant line)
      × (r.0.seq_won ≡ arb.seq_won)
unfolding ingest_line attribute count_duplicate count_packet
ingest_line-redundant arb line s q bodies now y d past =
    rw (ingest_delivered arb.gap_buf s q bodies now y d past, ingest_line)
      (refl, refl, refl, refl, refl, refl)
