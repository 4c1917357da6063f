-- ===== src/Gap/Gather/Prefix.antt =====
-- What a buffer has delivered of a stream at any moment (include/feed/gap_buffer.hpp).
use mathlib.Core.List.{append_cancel_right}
use udp_multicast_receiver.Common.{
  ℕ, ◌+◌, ◌≤◌, ◌≡◌, ◌∙◌, ◌⊎◌, refl, ap, sym, subst, inl, inr, Bool, true, false, List, [], ◌∷◌,
  ◌++◌, append_assoc, length, length-append, ltb, Bool-cases, if◌then◌else◌, arith,
}
use udp_multicast_receiver.Gap.State.{GapBuffer, holds}
use udp_multicast_receiver.Gap.Trace.{sent_bodies}
use udp_multicast_receiver.Gap.Flow.{Flowing}
use udp_multicast_receiver.Gap.Inv.{IsValid}
use udp_multicast_receiver.Gap.Gather.{
  Chunk, past, In, In-right, Follows, all_bodies, IsHoldable, Event, happen_all, arrived, Near,
  Loose, Covers, Took, Follows-le,
}
use udp_multicast_receiver.Gap.Gather.Events.{after_all, after_all-arrived, after_all-only}
use udp_multicast_receiver.Gap.Gather.Whole.{AllPast, before, happen_all-Gathers}

-- The datagrams of the stream up to the first one that has not arrived.
abbrev pub arrived_first : List Chunk → List Event → List Chunk
arrived_first [] es = []
arrived_first (p ∷ ps) es = if arrived p.seq es then p ∷ arrived_first ps es else []

all_bodies-append : (a b : List Chunk) → all_bodies (a ++ b) ≡ all_bodies a ++ all_bodies b
all_bodies-append [] b = refl
all_bodies-append (p ∷ a) b =
    ap (λ bs. p.bodies ++ bs) (all_bodies-append a b)
    ∙ sym (append_assoc p.bodies (all_bodies a) (all_bodies b))

In-left : (p : Chunk) (a b : List Chunk) → In p a → In p (a ++ b)
In-left p [] b i = absurd i
In-left p (x ∷ a) b (inl e) = inl e
In-left p (x ∷ a) b (inr i) = inr (In-left p a b i)

Follows-append :
    (q : ℕ) (a b : List Chunk) (end : ℕ)
    → Follows q (a ++ b) end
    → Follows (q + length (all_bodies a)) b end
Follows-append q [] b end f = let same : q ≡ q + 0 = omega arith in rw same at f
Follows-append q (p ∷ a) b end f =
    let same : past p + length (all_bodies a) ≡ q + length (p.bodies ++ all_bodies a) =
      omega (arith, f.0, length-append p.bodies (all_bodies a)) in
    subst (λ k. Follows k b end) same (Follows-append (past p) a b end f.1)

Follows-same : (a b : ℕ) (ps : List Chunk) (end : ℕ) → Follows a ps end → Follows b ps end → a ≡ b
Follows-same a b [] end f h = f ∙ sym h
Follows-same a b (p ∷ ps) end f h = sym f.0 ∙ h.0

-- The part of a stream that arrived, by the first datagram that has not.
arrived_first-lem :
    (done todo : List Chunk) (es : List Event)
    → ((x : Chunk) → In x done → arrived x.seq es ≡ true)
    → ((x : Chunk) (rest : List Chunk) → todo ≡ x ∷ rest → arrived x.seq es ≡ false)
    → arrived_first (done ++ todo) es ≡ done
arrived_first-lem [] [] es a b = refl
arrived_first-lem [] (x ∷ todo) es a b = rw (b x todo refl) refl
arrived_first-lem (x ∷ done) todo es a b =
    rw (a x (inl refl)) (ap (λ l. x ∷ l) (arrived_first-lem done todo es (λ y i. a y (inr i)) b))

module _ (g : GapBuffer) (s : List ℕ) (q end : ℕ) (sent : List (List ℕ)) (olds ps : List Chunk)
    (es : List Event) (h : GapBuffer) (todo : List Chunk) (seen : ℕ → Bool)
    (chain : Follows q ps end) (l : Loose s (olds ++ ps) (sent ++ all_bodies ps) end h todo)
    (c : Covers h todo seen) (t : Took ps h todo seen) (idle : holds h h.next_expected ≡ false)
    (comes : (x : Chunk) → In x ps → arrived x.seq es ≡ true → seen x.seq ≡ true)
    (only : (x : Chunk) → In x ps → seen x.seq ≡ true → arrived x.seq es ≡ true) where
  missing : (x : Chunk) (rest : List Chunk) → todo ≡ x ∷ rest → arrived x.seq es ≡ false
  missing x rest e =
      let i : In x todo = subst (λ t. In x t) (sym e) (inl refl) in
      let next : x.seq ≡ h.next_expected =
        (subst (λ t. Follows h.next_expected t end) e l.follows).0 in
      let j : In x ps = subst (λ p. In x p) (sym t.split_at) (In-right x t.done todo i) in
      elim (Bool-cases (arrived x.seq es)) [
        | inl a ↦
            let held : holds h h.next_expected ≡ true =
              subst (λ k. holds h k ≡ true) next (c x i (comes x j a)) in
            absurd (cc (sym held ∙ idle))
        | inr a ↦ a
      ]

  done_first : arrived_first ps es ≡ t.done
  done_first =
      ap (λ p. arrived_first p es) t.split_at
      ∙ (arrived_first-lem t.done todo es
          (λ x i.
            only x (subst (λ p. In x p) (sym t.split_at) (In-left x t.done todo i))
              (t.done_seen x i))
          (λ x rest e. missing x rest e))

  prefix_bodies : sent_bodies h.calls ≡ sent ++ all_bodies (arrived_first ps es)
  prefix_bodies =
      append_cancel_right (sent_bodies h.calls) (sent ++ all_bodies (arrived_first ps es))
        (all_bodies todo)
        (l.sum
          ∙ ap (λ p. sent ++ all_bodies p) t.split_at
          ∙ ap (λ b. sent ++ b) (all_bodies-append t.done todo)
          ∙ sym (append_assoc sent (all_bodies t.done) (all_bodies todo))
          ∙ ap (λ d. (sent ++ all_bodies d) ++ all_bodies todo) (sym done_first))

  prefix_next : h.next_expected ≡ q + length (all_bodies (arrived_first ps es))
  prefix_next =
      Follows-same h.next_expected (q + length (all_bodies t.done)) todo end l.follows
        (Follows-append q t.done todo end (subst (λ p. Follows q p end) t.split_at chain))
      ∙ ap (λ d. q + length (all_bodies d)) (sym done_first)

  prefix_held :
      (x : Chunk)
      → In x ps
      → arrived x.seq es ≡ true
      → (past x ≤ h.next_expected) ⊎ (holds h x.seq ≡ true)
  prefix_held x i a = elim (l.split x (In-right x olds ps i)) [
    | inl before ↦ inl before
    | inr j ↦ inr (c x j (comes x i a))
  ]

-- What the buffer has delivered of a stream depends only on which datagrams have arrived. A stream
-- of well-formed datagrams that follow one another from `q` to `end`, each of at most 1500 bytes
-- behind its header, reaches a valid buffer that has delivered `sent`, waits for `q` and holds
-- nothing back. They arrive in any order and any number of times, mixed with old ones that end at
-- `q` or before and with ticks, and each starts less than 4096 numbers above the number that the
-- buffer waits for when it arrives. After any such events, those datagrams that stand before the
-- first one that has not arrived are delivered, once and in order after `sent`, and nothing else
-- is; the buffer waits for the message behind them; and each datagram that has arrived is delivered
-- or held back.
pub happen_all-prefix :
    (g : GapBuffer) (s : List ℕ) (q end : ℕ) (sent : List (List ℕ)) (olds ps : List Chunk)
    (es : List Event)
    → IsValid g
    → Flowing g q sent
    → AllPast q olds
    → Follows q ps end
    → ((x : Chunk) → In x (olds ++ ps) → IsHoldable s x)
    → Near s (olds ++ ps) g es
    → let h = happen_all s g es in
      let first = all_bodies (arrived_first ps es) in
      (sent_bodies h.calls ≡ sent ++ first)
      × (h.next_expected ≡ q + length first)
      × ((x : Chunk)
          → In x ps
          → arrived x.seq es ≡ true
          → (past x ≤ h.next_expected) ⊎ (holds h x.seq ≡ true))
happen_all-prefix g s q end sent olds ps es v f old chain fits near =
    let (valid, rest, below) =
      happen_all-Gathers g s q end sent olds ps v f old chain es fits near in
    let (todo, l, c, t) = rest in
    let h : GapBuffer = happen_all s g es in
    let seen : ℕ → Bool = after_all (λ k. ltb k q) es in
    let comes : (x : Chunk) → In x ps → arrived x.seq es ≡ true → seen x.seq ≡ true =
      λ x i a. after_all-arrived (λ k. ltb k q) es x.seq a in
    let only : (x : Chunk) → In x ps → seen x.seq ≡ true → arrived x.seq es ≡ true = λ x i a.
      elim (after_all-only (λ k. ltb k q) es x.seq a) [
        | inl b ↦ absurd (ground (arith, b, Follows-le q ps end x chain i))
        | inr b ↦ b
      ] in
    (
      prefix_bodies g s q end sent olds ps es h todo seen chain l c t valid.settled comes only,
      prefix_next g s q end sent olds ps es h todo seen chain l c t valid.settled comes only,
      prefix_held g s q end sent olds ps es h todo seen chain l c t valid.settled comes only,
    )
