-- ===== src/Gap/Gather/Events.antt =====
-- What holds while the datagrams of a stream arrive, and at its end (include/feed/gap_buffer.hpp).
use udp_multicast_receiver.Common.{
  ℕ, ◌+◌, ◌≤◌, ◌<◌, ◌⊎◌, length, ◌≡◌, ◌∙◌, refl, ap, sym, subst, inl, inr, Bool, true, false, ◌||◌,
  List, [], ◌∷◌, append-nil, Bool-cases, ◌==◌, arith,
}
use udp_multicast_receiver.Gap.State.{GapBuffer, capacity, holds}
use udp_multicast_receiver.Gap.Retransmit.{check_gap_timeout}
use udp_multicast_receiver.Gap.Ingest.{ingest, tick}
use udp_multicast_receiver.Gap.Framing.{datagram_of}
use udp_multicast_receiver.Gap.Reorder.{IsDatagram-NoWrap}
use udp_multicast_receiver.Gap.Trace.{sent_bodies}
use udp_multicast_receiver.Gap.Inv.{IsValid}
use udp_multicast_receiver.Gap.Inv.Agrees.{check_gap_timeout-Agrees, check_gap_timeout_gap}
use udp_multicast_receiver.Gap.Inv.Step.{ingest-IsValid, tick-IsValid}
use udp_multicast_receiver.Gap.Gather.{
  Chunk, past, In, Follows, IsHoldable, Event, arrives, ticks, happen, happen_all, arrived, Near,
  Loose, Covers,
}
use udp_multicast_receiver.Gap.Gather.Closed.{ingest-GapFrom}
use udp_multicast_receiver.Gap.Gather.Steps.{Gathers, Gathers-Agrees, arrives-Gathers}

-- A buffer that has delivered `sent`, waits for `q`, tracks no gap and holds nothing back.
pub record Delivered (g : GapBuffer) (q : ℕ) (sent : List (List ℕ)) : Type 0 where
  pub at_next : g.next_expected ≡ q
  pub no_gap : g.gap_start ≡ 0
  pub no_packet : (i : ℕ) → (g.slots i).occupied ≡ false
  pub bodies : sent_bodies g.calls ≡ sent

-- What is seen after the events.
unfoldable pub after_all : (ℕ → Bool) → List Event → ℕ → Bool
after_all seen [] k = seen k
after_all seen (arrives p now ∷ es) k = after_all (λ j. p.seq == j || seen j) es k
after_all seen (ticks now ∷ es) k = after_all seen es k

-- What is seen in the end was seen before or has arrived.
pub after_all-only :
    (seen : ℕ → Bool) (es : List Event) (k : ℕ)
    → after_all seen es k ≡ true
    → (seen k ≡ true) ⊎ (arrived k es ≡ true)
unfolding after_all
after_all-only seen [] k e = inl e
after_all-only seen (arrives p now ∷ es) k e =
    let rest = after_all-only (λ j. p.seq == j || seen j) es k e in ground (arith, rest)
after_all-only seen (ticks now ∷ es) k e = after_all-only seen es k e

pub after_all-seen :
    (seen : ℕ → Bool) (es : List Event) (k : ℕ) → seen k ≡ true → after_all seen es k ≡ true
unfolding after_all
after_all-seen seen [] k e = e
after_all-seen seen (arrives p now ∷ es) k e =
    after_all-seen (λ j. p.seq == j || seen j) es k (ground (arith, e))
after_all-seen seen (ticks now ∷ es) k e = after_all-seen seen es k e

pub after_all-arrived :
    (seen : ℕ → Bool) (es : List Event) (k : ℕ) → arrived k es ≡ true → after_all seen es k ≡ true
unfolding after_all
after_all-arrived seen [] k e = absurd (cc)
after_all-arrived seen (arrives p now ∷ es) k e = elim (Bool-cases (p.seq == k)) [
  | inl same ↦ after_all-seen (λ j. p.seq == j || seen j) es k (ground (arith, same))
  | inr other ↦ after_all-arrived (λ j. p.seq == j || seen j) es k (ground (arith, other, e))
]
after_all-arrived seen (ticks now ∷ es) k e = after_all-arrived seen es k e

abbrev pub StartsBelow : ℕ → GapBuffer → Type 0
StartsBelow end g = (g.gap_start ≡ 0) ⊎ (g.gap_start < end)

pub Follows-end : (q : ℕ) (ps : List Chunk) (end : ℕ) → Follows q ps end → q ≤ end
Follows-end q [] end f = omega (arith, f)
Follows-end q (x ∷ ps) end f = omega (arith, f.0, Follows-end (past x) ps end f.1)

-- A datagram of a stream starts below its end.
pub Follows-lt :
    (q : ℕ) (ps : List Chunk) (end : ℕ) (p : Chunk)
    → Follows q ps end
    → In p ps
    → 0 < length p.bodies
    → p.seq < end
Follows-lt q [] end p f i some_body = absurd i
Follows-lt q (x ∷ ps) end p f (inl e) some_body =
    omega (arith, ap past e, Follows-end (past x) ps end f.1, some_body)
Follows-lt q (x ∷ ps) end p f (inr i) some_body = Follows-lt (past x) ps end p f.1 i some_body

module _ (s : List ℕ) (ps : List Chunk) (total : List (List ℕ)) (end : ℕ) (stream : List Chunk)
    (holdable : (x : Chunk) → In x ps → IsHoldable s x) where
  abbrev pub Holds : (ℕ → Bool) → GapBuffer → Type 0
  Holds seen g = Gathers s ps total end stream holdable seen g

  -- What holds between two events: the buffer is valid, it gathers the stream, and no gap that it
  -- tracks starts at the end of the stream.
  abbrev pub Runs : (ℕ → Bool) → GapBuffer → Type 0
  Runs seen g = IsValid g × Holds seen g × StartsBelow end g

  arrives-Runs :
      (seen : ℕ → Bool) (g : GapBuffer) (p : Chunk) (now : ℕ)
      → Runs seen g
      → In p ps
      → p.seq < g.next_expected + capacity
      → p.seq < end
      → Runs (λ k. p.seq == k || seen k) (ingest g (datagram_of s p.seq p.bodies) now).0
  arrives-Runs seen g p now (v, h, below) i near before =
      let d = (holdable p i).0 in
      let (todo, l, c, t) = h in
      (
        ingest-IsValid g (datagram_of s p.seq p.bodies) now (IsDatagram-NoWrap s p.seq p.bodies d)
            v,
        arrives-Gathers s ps total end stream holdable seen g p now h v.settled i near,
        ground (arith, below, before, ingest-GapFrom g s p.seq p.bodies now l.synced v d),
      )

  ticks-Runs :
      (seen : ℕ → Bool) (g : GapBuffer) (now : ℕ)
      → Runs seen g
      → Runs seen (check_gap_timeout g now)
  unfolding tick
  ticks-Runs seen g now (v, h, below) = (
    tick-IsValid g now v,
    Gathers-Agrees s ps total end stream holdable seen g (check_gap_timeout g now)
        (check_gap_timeout-Agrees g now) h,
    ground (arith, below, check_gap_timeout_gap g now),
  )

  pub happen_all-Runs :
      (seen : ℕ → Bool) (g : GapBuffer) (es : List Event)
      → ((p : Chunk) → In p ps → p.seq < end)
      → Runs seen g
      → Near s ps g es
      → Runs (after_all seen es) (happen_all s g es)
  unfolding happen_all happen after_all tick
  happen_all-Runs seen g [] inside r n = r
  happen_all-Runs seen g (arrives p now ∷ es) inside r (i, near, n) =
      happen_all-Runs (λ k. p.seq == k || seen k) (ingest g (datagram_of s p.seq p.bodies) now).0 es
        inside (arrives-Runs seen g p now r i near (inside p i)) n
  happen_all-Runs seen g (ticks now ∷ es) inside r n =
      happen_all-Runs seen (check_gap_timeout g now) es inside (ticks-Runs seen g now r) n

  -- Once every datagram was seen, nothing is left to do.
  pub Delivered-all :
      (seen : ℕ → Bool) (g : GapBuffer) (todo : List Chunk)
      → Loose s ps total end g todo
      → Covers g todo seen
      → IsValid g
      → StartsBelow end g
      → ((p : Chunk) → In p ps → seen p.seq ≡ true)
      → Delivered g end total
  Delivered-all seen g [] l c v below every = record {
    at_next = l.follows;
    no_gap = ground (arith, v.tracked, below, l.follows);
    no_packet = λ i. elim (Bool-cases (g.slots i).occupied) [
      | inl o ↦ let (x, at, j, near, index, e) = l.filled i o in absurd j
      | inr o ↦ o
    ];
    bodies = sym (append-nil (sent_bodies g.calls)) ∙ l.sum;
  }
  Delivered-all seen g (p ∷ todo) l c v below every =
      let held : holds g p.seq ≡ true = c p (inl refl) (every p (l.within p (inl refl))) in
      let here : holds g g.next_expected ≡ true = subst (λ k. holds g k ≡ true) l.follows.0 held in
      absurd (cc (sym here ∙ v.settled))
