-- ===== src/Receiver/Whole.antt =====
-- A receiver that is started before a stream, and receives all of it (include/feed/receiver.hpp).
use udp_multicast_receiver.Common.{
  ℕ, ◌≡◌, ◌∙◌, refl, ap, inl, inr, Bool, true, false, List, [], ◌∷◌, ◌++◌, map, ◌==◌, ◌||◌,
  Bool-cases, arith,
}
use udp_multicast_receiver.Gap.State.{GapBuffer}
use udp_multicast_receiver.Gap.Ingest.{ingest, tick}
use udp_multicast_receiver.Gap.Retransmit.{check_gap_timeout}
use udp_multicast_receiver.Gap.Framing.{datagram_of}
use udp_multicast_receiver.Gap.Flow.{IsFresh, ingest_first-Flowing}
use udp_multicast_receiver.Gap.Reorder.{IsDatagram-NoWrap}
use udp_multicast_receiver.Gap.Inv.{IsValid}
use udp_multicast_receiver.Gap.Inv.Step.{ingest-IsValid}
use udp_multicast_receiver.Gap.Gather.{
  Chunk, past, In, Follows, all_bodies, IsHoldable, Event, arrives, happen, happen_all, arrived,
  Near,
}
use udp_multicast_receiver.Gap.Gather.Events.{Delivered}
use udp_multicast_receiver.Gap.Gather.Whole.{happen_all-whole}
use udp_multicast_receiver.Receiver.{ControlMessage}
use udp_multicast_receiver.Receiver.Stream.{
  Round, quiet, carries, time_of, due, with_tick, last_tick, events,
}

-- The datagram that starts at `seq` is received in one of the rounds.
abbrev pub received : ℕ → List Round → Bool
received seq [] = false
received seq (quiet now ∷ rs) = received seq rs
received seq (carries p control monotonic now ∷ rs) = p.seq == seq || received seq rs

-- The time of the last tick after quiet rounds.
abbrev pub last_after : ℕ → ℕ → List ℕ → ℕ
last_after interval last [] = last
last_after interval last (now ∷ nows) = last_after interval (last_tick interval last now) nows

-- The events behind the first datagram, from the tick of its own round on.
abbrev pub behind : ℕ → ℕ → List ℕ → ℕ → List Round → List Event
behind interval start_ns nows now rs =
    let last : ℕ = last_after interval start_ns nows in
    with_tick interval last now (events interval (last_tick interval last now) rs)

arrived-with_tick :
    (interval last now seq : ℕ) (es : List Event)
    → arrived seq (with_tick interval last now es) ≡ arrived seq es
arrived-with_tick interval last now seq es = elim (Bool-cases (due interval last now)) [
  | inl e ↦ rw e refl
  | inr e ↦ rw e refl
]

arrived-events :
    (interval last seq : ℕ) (rs : List Round)
    → arrived seq (events interval last rs) ≡ received seq rs
arrived-events interval last seq [] = refl
arrived-events interval last seq (quiet now ∷ rs) =
    arrived-with_tick interval last now seq (events interval (last_tick interval last now) rs)
    ∙ arrived-events interval (last_tick interval last now) seq rs
arrived-events interval last seq (carries p control monotonic now ∷ rs) =
    ap (λ b. p.seq == seq || b)
      (arrived-with_tick interval last now seq (events interval (last_tick interval last now) rs)
        ∙ arrived-events interval (last_tick interval last now) seq rs)

-- Without a gap a tick does nothing.
tick_idle : (g : GapBuffer) (now : ℕ) → g.gap_start ≡ 0 → tick g now ≡ g
unfolding tick check_gap_timeout
tick_idle g now e = ground arith

quiet-lem :
    (s : List ℕ) (interval last : ℕ) (g : GapBuffer) (nows : List ℕ) (rs : List Round)
    → g.gap_start ≡ 0
    → happen_all s g (events interval last (map quiet nows ++ rs))
      ≡ happen_all s g (events interval (last_after interval last nows) rs)
unfolding happen_all happen
quiet-lem s interval last g [] rs e = refl
quiet-lem s interval last g (now ∷ nows) rs e = elim (Bool-cases (due interval last now)) [
  | inl d ↦ rw d (
      ap (λ h. happen_all s h (events interval now (map quiet nows ++ rs))) (tick_idle g now e)
      ∙ quiet-lem s interval now g nows rs e)
  | inr d ↦ rw d (quiet-lem s interval last g nows rs e)
]

-- Quiet rounds, the first datagram, and the other rounds.
abbrev pub rounds : List ℕ → Round → List Round → List Round
rounds nows first rs = map quiet nows ++ (first ∷ rs)

module _ (s : List ℕ) (interval last end : ℕ) (g : GapBuffer) (nows : List ℕ) (p : Chunk)
    (control : List ControlMessage) (monotonic now : ℕ) (rs : List Round) (ps : List Chunk) where
  pub events-whole :
      IsValid g
      → IsFresh g
      → Follows (past p) ps end
      → ((x : Chunk) → In x (p ∷ ps) → IsHoldable s x)
      → Near s
          (p ∷ ps)
          (happen s g (arrives p (time_of control monotonic)))
          (behind interval last nows now rs)
      → ((x : Chunk) → In x ps → received x.seq rs ≡ true)
      → Delivered
          (happen_all s g (events interval last (rounds nows (carries p control monotonic now) rs)))
          end
          (p.bodies ++ all_bodies ps)
  unfolding happen_all happen
  events-whole v fresh chain fits near every =
      let d = (fits p (inl refl)).0 in
      let at : ℕ = time_of control monotonic in
      let flows = ingest_first-Flowing g s p.seq p.bodies at fresh d in
      let valid =
        ingest-IsValid g (datagram_of s p.seq p.bodies) at (IsDatagram-NoWrap s p.seq p.bodies d)
          v in
      let last' : ℕ = last_after interval last nows in
      rw (quiet-lem s interval last g nows (carries p control monotonic now ∷ rs) fresh.no_gap) (
        happen_all-whole (ingest g (datagram_of s p.seq p.bodies) at).0 s (past p) end p.bodies
          (p ∷ []) ps (behind interval last nows now rs) valid flows (omega arith, tt) chain fits
          near
          (λ x i.
            arrived-with_tick interval last' now x.seq
              (events interval (last_tick interval last' now) rs)
            ∙ arrived-events interval (last_tick interval last' now) x.seq rs
            ∙ every x i))
