-- ===== src/Gap/Gather/Steps.antt =====
-- One event of a stream at include/feed/gap_buffer.hpp.
use udp_multicast_receiver.Common.{
  ℕ, ◌+◌, ◌%◌, ◌≤◌, ◌<◌, ◌≡◌, ◌≢◌, refl, ap, sym, subst, inl, inr, Option, Bool, true, false, ◌&&◌,
  ◌||◌, List, ◌∷◌, Bool-cases, ◌==◌, ==_refl, arith,
}
use udp_multicast_receiver.Gap.State.{GapBuffer, BufferedPacket, capacity, holds}
use udp_multicast_receiver.Gap.Deliver.{flush_buffer}
use udp_multicast_receiver.Gap.Ingest.{clear_gap, count_packet, count_duplicate, ingest}
use udp_multicast_receiver.Gap.Framing.{header_of, datagram_of, advance}
use udp_multicast_receiver.Gap.Reorder.{ingest_next, ingest_ahead, ingest_delivered}
use udp_multicast_receiver.Gap.Inv.Agrees.{Agrees}
use udp_multicast_receiver.Gap.Inv.Step.{hold_back}
use udp_multicast_receiver.Gap.Gather.{Chunk, past, In, IsHoldable, Follows-le, Loose, Covers, Took}
use udp_multicast_receiver.Gap.Gather.Seen.{Took-same, Took-Agrees, Took-write}
use udp_multicast_receiver.Gap.Gather.Deliver.{
  Loose-next, Covers-next, Took-next, first_left, positive, Gathered, flush-Gathered,
}
use udp_multicast_receiver.Gap.Gather.Slots.{Loose-Agrees}
use udp_multicast_receiver.Gap.Gather.Kept.{
  Covers-Agrees, hold_back-Loose, counted-Agrees, duplicate-Agrees, clear_gap-Agrees,
}

module _ (s : List ℕ) (ps : List Chunk) (total : List (List ℕ)) (end : ℕ) (stream : List Chunk)
    (holdable : (x : Chunk) → In x ps → IsHoldable s x) where
  abbrev pub Gathers : (ℕ → Bool) → GapBuffer → Type 0
  Gathers seen g = Gathered s ps total end stream holdable seen g

  pub Gathers-Agrees :
      (seen : ℕ → Bool) (g h : GapBuffer) → Agrees g h → Gathers seen g → Gathers seen h
  Gathers-Agrees seen g h a (todo, l, c, t) =
      (todo, Loose-Agrees l h a, Covers-Agrees {g = g} {h = h} todo seen a c, Took-Agrees h a t)

  module _ (seen : ℕ → Bool) (g : GapBuffer) (p : Chunk) (now : ℕ) where
    abbrev pub seen_too : ℕ → Bool
    seen_too k = p.seq == k || seen k

    abbrev after : GapBuffer
    after = (ingest g (datagram_of s p.seq p.bodies) now).0

    abbrev counted : GapBuffer
    counted = count_packet g (header_of s p.seq p.bodies)

    -- No slot holds the next number.
    no_next :
        (rest : List Chunk)
        → Loose s ps total end g (p ∷ rest)
        → holds g g.next_expected ≡ false
        → (i : ℕ) → (g.slots i).occupied ≡ true
        → (g.slots i).seq_num ≢ g.next_expected
    no_next rest l idle i o k =
        let (x, at, j, near, index, e) = l.filled i o in
        let number : (g.slots i).seq_num ≡ x.seq = ap (λ (slot : BufferedPacket). slot.seq_num) e in
        let here : g.next_expected % capacity ≡ i = omega (arith, k, number, index) in
        let idle' : (g.slots i).occupied && (g.slots i).seq_num == g.next_expected ≡ false =
          subst (λ j. (g.slots j).occupied && (g.slots j).seq_num == g.next_expected ≡ false) here
            idle in
        absurd (ground (arith, idle', o, k))

    -- The next datagram of the stream.
    deliver-Gathers :
        (rest : List Chunk)
        → Loose s ps total end g (p ∷ rest)
        → Covers g (p ∷ rest) seen
        → Took stream g (p ∷ rest) seen
        → holds g g.next_expected ≡ false
        → Gathers seen_too after
    unfolding count_packet flush_buffer
    deliver-Gathers rest l c t idle =
        let d = (holdable p (l.within p (inl refl))).0 in
        let a : Agrees g counted = counted-Agrees g (header_of s p.seq p.bodies) in
        let l' : Loose s ps total end counted (p ∷ rest) = Loose-Agrees l counted a in
        let c' : Covers counted (p ∷ rest) seen =
          Covers-Agrees {g = g} {h = counted} (p ∷ rest) seen a c in
        let left : (i : ℕ)
            → (g.slots i).occupied ≡ true
            → (g.slots i ≡ g.slots i) × ((g.slots i).seq_num ≢ g.next_expected) =
          λ i o. (refl, no_next rest l idle i o) in
        let keeps : (i : ℕ) → (g.slots i).seq_num ≢ g.next_expected → g.slots i ≡ g.slots i =
          λ i k. refl in
        let seen_here : seen_too p.seq ≡ true = ground (arith, ==_refl p.seq) in
        let more : GapBuffer = advance counted now p.bodies in
        let next : Gathers seen_too more = (
          rest,
          Loose-next s ps total end counted p rest now g.slots l' d.some_body left keeps,
          Covers-next s ps total end counted p rest now g.slots l' d.some_body left keeps seen c',
          Took-next s ps total end counted p rest now g.slots l' d.some_body left keeps stream
              seen_too seen_too (λ k h. h) seen_here (Took-same p.seq counted refl t),
        ) in
        let flushed : Gathers seen_too (flush_buffer more).0 =
          flush-Gathered s ps total end stream holdable seen_too capacity more 0 next in
        subst (λ h. Gathers seen_too h)
          (sym (
            ap (λ (r : GapBuffer × Option ℕ). r.0)
              (ingest_next g (flush_buffer more).0 s p.seq p.bodies now (flush_buffer more).1
                l.listening l.synced l.follows.0 d refl)))
          (Gathers-Agrees seen_too (flush_buffer more).0 (clear_gap (flush_buffer more).0)
            (clear_gap-Agrees (flush_buffer more).0) flushed)

    -- A datagram ahead of it.
    ahead-Gathers :
        (todo : List Chunk)
        → Loose s ps total end g todo
        → Covers g todo seen
        → Took stream g todo seen
        → In p todo
        → p.seq < g.next_expected + capacity
        → g.next_expected < p.seq
        → Gathers seen_too after
    unfolding count_packet
    ahead-Gathers todo l c t i near ahead =
        let fits = holdable p (l.within p i) in
        let a : Agrees g counted = counted-Agrees g (header_of s p.seq p.bodies) in
        subst (λ h. Gathers seen_too h)
          (sym (
            ap (λ (r : GapBuffer × Option ℕ). r.0)
              (ingest_ahead g s p.seq p.bodies now l.synced ahead fits.0)))
          (let (l', c', wrote) =
              hold_back-Loose seen p now (Loose-Agrees l counted a)
                (Covers-Agrees {g = g} {h = counted} todo seen a c) fits i near in
            (
              todo,
              l',
              c',
              Took-write s p now
                  (hold_back counted (header_of s p.seq p.bodies) (datagram_of s p.seq p.bodies)
                    now)
                  wrote (Took-Agrees counted a t),
            ))

    -- A datagram that was delivered before.
    again-Gathers :
        (todo : List Chunk)
        → Loose s ps total end g todo
        → Covers g todo seen
        → Took stream g todo seen
        → IsHoldable s p
        → past p ≤ g.next_expected
        → Gathers seen_too after
    again-Gathers todo l c t fits before =
        let b = duplicate-Agrees counted in
        let a : Agrees g counted = counted-Agrees g (header_of s p.seq p.bodies) in
        let seen_more : Covers g todo seen_too = λ x i e. c x i (
          ground (
            arith,
            e,
            Follows-le g.next_expected todo end x l.follows i,
            before,
            fits.0.some_body,
          )) in
        subst (λ h. Gathers seen_too h)
          (sym (
            ap (λ (r : GapBuffer × Option ℕ). r.0)
              (ingest_delivered g s p.seq p.bodies now l.synced fits.0 before)))
          (Gathers-Agrees seen_too counted (count_duplicate counted) b
            (Gathers-Agrees seen_too g counted a (todo, l, seen_more, Took-same p.seq g refl t)))

    -- Any datagram of the stream that is near.
    pub arrives-Gathers :
        Gathers seen g
        → holds g g.next_expected ≡ false
        → In p ps
        → p.seq < g.next_expected + capacity
        → Gathers seen_too after
    arrives-Gathers (todo, l, c, t) idle i near = elim (l.split p i) [
      | inl before ↦ again-Gathers todo l c t (holdable p i) before
      | inr j ↦ elim (Bool-cases (p.seq == g.next_expected)) [
        | inl e ↦
            let (rest, split) =
              first_left s ps total end g.next_expected p todo l.follows
                (positive s ps total end stream holdable seen todo l) j (ground (arith, e)) in
            deliver-Gathers rest (subst (λ t. Loose s ps total end g t) split l)
              (subst (λ t. Covers g t seen) split c) (subst (λ x. Took stream g x seen) split t)
              idle
        | inr e ↦
            ahead-Gathers todo l c t j near
              (ground (arith, e, Follows-le g.next_expected todo end p l.follows j))
      ]
    ]
