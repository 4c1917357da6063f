-- ===== src/Gap/Gather/Deliver.antt =====
-- Delivering the next datagram of a stream, and those behind it (include/feed/gap_buffer.hpp).
use udp_multicast_receiver.Common.{
  ℕ, zero, suc, ◌+◌, ◌%◌, ◌≤◌, ◌<◌, ◌≡◌, ◌≢◌, ◌∙◌, refl, ap, sym, subst, inl, inr, Bool, true,
  false, ◌||◌, List, [], ◌∷◌, ◌++◌, append_assoc, length, Bool-cases, ◌==◌, arith,
}
use udp_multicast_receiver.Gap.State.{
  GapBuffer, BufferedPacket, capacity, holds, slot_of, write_slot,
}
use udp_multicast_receiver.Gap.Deliver.{flush_round, flush}
use udp_multicast_receiver.Gap.Framing.{advance}
use udp_multicast_receiver.Gap.Trace.{sent_bodies}
use udp_multicast_receiver.Gap.Flow.{sent_bodies-log_messages}
use udp_multicast_receiver.Gap.Held.{filled_slot, freed, flush_round_filled}
use udp_multicast_receiver.Gap.Gather.{
  Chunk, past, In, In-either, Took, Follows, all_bodies, IsHoldable, Follows-le, Loose, Covers,
}

module _ (s : List ℕ) (ps : List Chunk) (total : List (List ℕ)) (end : ℕ) where
  -- The slots after a delivery: only that of the delivered number changes, and it is freed.
  module _ (g : GapBuffer) (x : Chunk) (todo : List Chunk) (now : ℕ) (after : ℕ → BufferedPacket)
      (l : Loose s ps total end g (x ∷ todo)) (some_body : 0 < length x.bodies)
      (left : (i : ℕ)
        → (after i).occupied ≡ true
        → (after i ≡ g.slots i) × ((g.slots i).seq_num ≢ g.next_expected))
      (keeps : (i : ℕ) → (g.slots i).seq_num ≢ g.next_expected → after i ≡ g.slots i) where
    abbrev pub next : GapBuffer
    next = record (advance g now x.bodies) { slots = after }

    next-filled :
        (i : ℕ)
        → (after i).occupied ≡ true
        → (p : Chunk) × (at : ℕ) × In p todo
          × (p.seq < g.next_expected + length x.bodies + capacity)
          × (p.seq % capacity ≡ i)
          × (after i ≡ filled_slot s p.seq p.bodies at)
    next-filled i o =
        let (same, other) = left i o in
        let (p, at, j, near, index, e) =
          l.filled i (ap (λ (slot : BufferedPacket). slot.occupied) (sym same) ∙ o) in
        let number : (g.slots i).seq_num ≡ p.seq = ap (λ (slot : BufferedPacket). slot.seq_num) e in
        elim j [
          | inl q ↦ absurd (other (number ∙ ap (λ c. c.seq) q ∙ l.follows.0))
          | inr k ↦ (p, at, k, omega (arith, near), index, same ∙ e)
        ]

    pub Loose-next : Loose s ps total end next todo
    Loose-next = record {
      listening = l.listening;
      synced = l.synced;
      session_length = l.session_length;
      follows = subst (λ k. Follows (k + length x.bodies) todo end) l.follows.0 l.follows.1;
      sum =
          ap (λ sent. sent ++ all_bodies todo)
            (sent_bodies-log_messages now g.next_expected x.bodies g.calls)
          ∙ append_assoc (sent_bodies g.calls) x.bodies (all_bodies todo)
          ∙ l.sum;
      filled = next-filled;
      split = λ p i. elim (l.split p i) [
        | inl before ↦ inl (omega (arith, before))
        | inr (inl e) ↦ inl (omega (arith, l.follows.0, ap past e))
        | inr (inr j) ↦ inr j
      ];
      within = λ p i. l.within p (inr i);
    }

    pub Covers-next :
        (seen : ℕ → Bool) → Covers g (x ∷ todo) seen → Covers next todo (λ k. x.seq == k || seen k)
    Covers-next seen c p i e =
        let behind : past x ≤ p.seq = Follows-le (past x) todo end p l.follows.1 i in
        let held : holds g p.seq ≡ true = c p (inr i) (ground (arith, e, behind, some_body)) in
        let number : (slot_of g p.seq).seq_num ≡ p.seq = ground (arith, held) in
        let same =
          keeps (p.seq % capacity)
            (λ k. omega (arith, k, number, behind, some_body, l.follows.0)) in
        rw same held

    pub Took-next :
        (stream : List Chunk) (seen more : ℕ → Bool)
        → ((k : ℕ) → seen k ≡ true → more k ≡ true)
        → more x.seq ≡ true
        → Took stream g (x ∷ todo) seen
        → Took stream next todo more
    Took-next stream seen more grows here t = record {
      done = t.done ++ (x ∷ []);
      split_at = t.split_at ∙ sym (append_assoc t.done (x ∷ []) todo);
      done_seen = λ y i. elim (In-either y t.done (x ∷ []) i) [
        | inl j ↦ grows y.seq (t.done_seen y j)
        | inr (inl e) ↦ ap (λ c. more c.seq) e ∙ here
        | inr (inr j) ↦ absurd j
      ];
      slots_seen = λ i o.
          let (same, other) = left i o in
          subst (λ (slot : BufferedPacket). more slot.seq_num ≡ true) (sym same)
            (grows (g.slots i).seq_num
              (t.slots_seen i (ap (λ (slot : BufferedPacket). slot.occupied) (sym same) ∙ o)));
    }

  or_true : (b : Bool) → (b || true) ≡ true
  or_true b = ground arith

  -- The packet that starts the rest of the stream.
  pub first_left :
      (q : ℕ) (p : Chunk) (todo : List Chunk)
      → Follows q todo end
      → ((x : Chunk) → In x todo → 0 < length x.bodies)
      → In p todo
      → p.seq ≡ q
      → (rest : List Chunk) × (todo ≡ p ∷ rest)
  first_left q p [] f pos i e = absurd i
  first_left q p (x ∷ rest) f pos (inl same) e = (rest, ap (λ c. c ∷ rest) (sym same))
  first_left q p (x ∷ rest) f pos (inr j) e =
      absurd (omega (arith, Follows-le (past x) rest end p f.1 j, f.0, e, pos x (inl refl)))

  module _ (stream : List Chunk) (holdable : (x : Chunk) → In x ps → IsHoldable s x)
      (seen : ℕ → Bool) where
    pub positive :
        {g : GapBuffer} (todo : List Chunk)
        → Loose s ps total end g todo
        → (x : Chunk) → In x todo
        → 0 < length x.bodies
    positive todo l x i = (holdable x (l.within x i)).0.some_body

    -- What a flush leaves.
    abbrev pub Gathered : GapBuffer → Type 0
    Gathered g =
        (todo : List Chunk) × Loose s ps total end g todo
        × Covers g todo seen
        × Took stream g todo seen

    module _ (g : GapBuffer) (p : Chunk) (rest : List Chunk) (now : ℕ)
        (l : Loose s ps total end g (p ∷ rest)) (number : p.seq ≡ g.next_expected)
        (e : slot_of g g.next_expected ≡ filled_slot s p.seq p.bodies now) where
      abbrev after : ℕ → BufferedPacket
      after =
          write_slot g.slots (g.next_expected % capacity)
            (record (filled_slot s p.seq p.bodies now) { occupied = false })

      after-left :
          (i : ℕ)
          → (after i).occupied ≡ true
          → (after i ≡ g.slots i) × ((g.slots i).seq_num ≢ g.next_expected)
      after-left i o = elim (Bool-cases (g.next_expected % capacity == i)) [
        | inl same ↦ absurd (ground (arith, same, o))
        | inr other ↦
            let kept : after i ≡ g.slots i = rw other refl in
            let (x, at, j, near, index, f) =
              l.filled i (ap (λ (slot : BufferedPacket). slot.occupied) (sym kept) ∙ o) in
            let number : (g.slots i).seq_num ≡ x.seq =
              ap (λ (slot : BufferedPacket). slot.seq_num) f in
            (kept, λ k. absurd (ground (arith, k, number, index, other)))
      ]

      after-keeps : (i : ℕ) → (g.slots i).seq_num ≢ g.next_expected → after i ≡ g.slots i
      after-keeps i other = elim (Bool-cases (g.next_expected % capacity == i)) [
        | inl same ↦
            let there : i ≡ g.next_expected % capacity = ground (arith, same) in
            absurd (
              other (
                ap (λ k. (g.slots k).seq_num) there
                ∙ ap (λ (slot : BufferedPacket). slot.seq_num) e
                ∙ number))
        | inr other ↦ rw other refl
      ]

      taken : Covers g (p ∷ rest) seen → Took stream g (p ∷ rest) seen → Gathered (flush_round g).0
      unfolding freed
      taken c took =
          let o : (slot_of g g.next_expected).occupied ≡ true =
            ap (λ (slot : BufferedPacket). slot.occupied) e in
          let seen_here : seen p.seq ≡ true =
            ap (λ (slot : BufferedPacket). seen slot.seq_num) (sym e)
            ∙ took.slots_seen (g.next_expected % capacity) o in
          let d = (holdable p (l.within p (inl refl))).0 in
          rw (flush_round_filled g s p.seq p.bodies now l.listening l.session_length d number e) (
            rest,
            Loose-next g p rest now after l d.some_body after-left after-keeps,
            λ x i q.
                Covers-next g p rest now after l d.some_body after-left after-keeps seen c x i
                  (ap (λ b. p.seq == x.seq || b) q ∙ or_true (p.seq == x.seq)),
            Took-next g p rest now after l d.some_body after-left after-keeps stream seen seen
                (λ k h. h) seen_here took,
          )

    -- A round of the flush takes the next datagram out of its slot.
    round-Gathered :
        (g : GapBuffer) → Gathered g → holds g g.next_expected ≡ true → Gathered (flush_round g).0
    round-Gathered g (todo, l, c, took) h =
        let o : (slot_of g g.next_expected).occupied ≡ true = ground (arith, h) in
        let (p, now, i, near, index, e) = l.filled (g.next_expected % capacity) o in
        let number : p.seq ≡ g.next_expected = ground (arith, h, e) in
        let (rest, split) =
          first_left g.next_expected p todo l.follows (positive todo l) i number in
        let before : Loose s ps total end g (p ∷ rest) =
          subst (λ t. Loose s ps total end g t) split l in
        let covered : Covers g (p ∷ rest) seen = subst (λ t. Covers g t seen) split c in
        let taking : Took stream g (p ∷ rest) seen = subst (λ t. Took stream g t seen) split took in
        taken g p rest now before number e covered taking

    pub flush-Gathered :
        (fuel : ℕ) (g : GapBuffer) (count : ℕ) → Gathered g → Gathered (flush fuel g count).0
    unfolding flush
    flush-Gathered zero g count l = l
    flush-Gathered (suc fuel) g count l = elim (Bool-cases (holds g g.next_expected)) [
      | inl t ↦
          rw (t, flush)
            (flush-Gathered fuel (flush_round g).0 (count + (flush_round g).1)
              (round-Gathered g l t))
      | inr f ↦ rw (f, flush) l
    ]
