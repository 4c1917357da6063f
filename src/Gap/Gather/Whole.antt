-- ===== src/Gap/Gather/Whole.antt =====
-- A whole stream of datagrams, in any order of arrival (include/feed/gap_buffer.hpp).
use udp_multicast_receiver.Common.{
  ℕ, ◌≤◌, ◌<◌, ◌≡◌, refl, ◌∙◌, ap, sym, inl, inr, Bool, true, List, [], ◌∷◌, ◌++◌, length, ltb,
  arith,
}
use udp_multicast_receiver.Gap.State.{GapBuffer}
use udp_multicast_receiver.Gap.Flow.{Flowing}
use udp_multicast_receiver.Gap.Inv.{IsValid}
use udp_multicast_receiver.Gap.Gather.{
  Chunk, past, In, In-right, In-either, Follows, all_bodies, IsHoldable, Event, happen_all, arrived,
  Near, Loose, Took, Follows-le,
}
use udp_multicast_receiver.Gap.Gather.Events.{
  Delivered, Follows-end, Follows-lt, after_all, after_all-seen, after_all-arrived, Runs,
  happen_all-Runs, Delivered-all,
}

-- Every datagram of the list ends at `q` or before.
abbrev pub AllPast : ℕ → List Chunk → Type 0
AllPast q [] = Unit {0}
AllPast q (x ∷ xs) = (past x ≤ q) × AllPast q xs

AllPast-le : (q : ℕ) (xs : List Chunk) (p : Chunk) → AllPast q xs → In p xs → past p ≤ q
AllPast-le q [] p a i = absurd i
AllPast-le q (x ∷ xs) p a (inl e) = omega (arith, ap past e, a.0)
AllPast-le q (x ∷ xs) p a (inr i) = AllPast-le q xs p a.1 i

module _ (g : GapBuffer) (s : List ℕ) (q end : ℕ) (sent : List (List ℕ)) (olds ps : List Chunk)
    (v : IsValid g) (f : Flowing g q sent) (old : AllPast q olds) (chain : Follows q ps end) where
  Flowing-Loose : Loose s (olds ++ ps) (sent ++ all_bodies ps) end g ps
  Flowing-Loose = record {
    listening = f.listening;
    synced = f.synced;
    session_length = v.sound.session_length;
    follows = rw f.at_next chain;
    sum = ap (λ b. b ++ all_bodies ps) f.bodies;
    filled = λ i o. absurd (cc (sym o ∙ f.no_packet i));
    split = λ p i. elim (In-either p olds ps i) [
      | inl j ↦ inl (omega (arith, AllPast-le q olds p old j, f.at_next))
      | inr j ↦ inr j
    ];
    within = λ p i. In-right p olds ps i;
  }

  starts_inside : (p : Chunk) → In p (olds ++ ps) → 0 < length p.bodies → p.seq < end
  starts_inside p i some_body = elim (In-either p olds ps i) [
    | inl j ↦ omega (arith, AllPast-le q olds p old j, Follows-end q ps end chain, some_body)
    | inr j ↦ Follows-lt q ps end p chain j some_body
  ]

  -- What holds of the buffer after any events of the stream.
  module _ (es : List Event) (fits : (x : Chunk) → In x (olds ++ ps) → IsHoldable s x)
      (near : Near s (olds ++ ps) g es) where
    abbrev pub before : ℕ → Bool
    before k = ltb k q

    pub happen_all-Gathers :
        Runs s
          (olds ++ ps)
          (sent ++ all_bodies ps)
          end
          ps
          fits
          (after_all before es)
          (happen_all s g es)
    happen_all-Gathers =
        let nothing : Took ps g ps before = record {
          done = [];
          split_at = refl;
          done_seen = λ x i. absurd i;
          slots_seen = λ i o. absurd (cc (sym o ∙ f.no_packet i));
        } in
        happen_all-Runs s (olds ++ ps) (sent ++ all_bodies ps) end ps fits before g es
          (λ p i. starts_inside p i (fits p i).0.some_body)
          (
            v,
            (
              ps,
              Flowing-Loose,
              λ p i e. absurd (ground (arith, e, Follows-le q ps end p chain i)),
              nothing,
            ),
            inl f.no_gap,
          )
          near

-- A stream of well-formed datagrams that follow one another from `q` to `end`, each of at most 1500
-- bytes behind its header, reaches a valid buffer that has delivered `sent`, waits for `q` and
-- holds nothing back. The datagrams arrive in any order and any number of times, mixed with old
-- ones that end at `q` or before, with ticks at any moment in between, and each starts less than
-- 4096 numbers above the number that the buffer waits for when it arrives. Once each has arrived
-- at least once: every message of the stream was delivered exactly once and in order after `sent`,
-- the buffer waits for `end`, tracks no gap, and holds nothing back.
pub happen_all-whole :
    (g : GapBuffer) (s : List ℕ) (q end : ℕ) (sent : List (List ℕ)) (olds ps : List Chunk)
    (es : List Event)
    → IsValid g
    → Flowing g q sent
    → AllPast q olds
    → Follows q ps end
    → ((x : Chunk) → In x (olds ++ ps) → IsHoldable s x)
    → Near s (olds ++ ps) g es
    → ((x : Chunk) → In x ps → arrived x.seq es ≡ true)
    → Delivered (happen_all s g es) end (sent ++ all_bodies ps)
happen_all-whole g s q end sent olds ps es v f old chain fits near every =
    let (valid, rest, below) =
      happen_all-Gathers g s q end sent olds ps v f old chain es fits near in
    let (todo, l, c, t) = rest in
    Delivered-all s (olds ++ ps) (sent ++ all_bodies ps) end ps fits (after_all (λ k. ltb k q) es)
      (happen_all s g es) todo l c valid below
      (λ p i. elim (In-either p olds ps i) [
        | inl j ↦
            after_all-seen (λ k. ltb k q) es p.seq
              (ground (arith, AllPast-le q olds p old j, (fits p i).0.some_body))
        | inr j ↦ after_all-arrived (λ k. ltb k q) es p.seq (every p j)
      ])
