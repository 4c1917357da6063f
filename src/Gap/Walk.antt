-- ===== src/Gap/Walk.antt =====
-- The walk of deliver_packet over the messages of one packet.
use udp_multicast_receiver.Common.{
  ℕ, zero, suc, ◌+◌, ◌-◌, ◌^◌, ◌≤◌, ◌<◌, ◌≡◌, refl, inl, inr, List, [], ◌∷◌, length, take, drop,
  ltb, leb, if◌then◌else◌, u64, ◌⊎◌, subst, arith,
}
use udp_multicast_receiver.Wire.Endian.{be16}
use udp_multicast_receiver.Wire.Mold.{MoldMessage}
use udp_multicast_receiver.Gap.State.{Call, message}
use udp_multicast_receiver.Gap.Deliver.{walk, log_messages}
use udp_multicast_receiver.Gap.Trace.{EndsAt}

module _ (next recv : ℕ) where
  -- `seq` never goes down, and never past the packet's count.
  pub walk_bounds :
      (n seq : ℕ) (cursor : List ℕ)
      → seq + n < 2 ^ 64
      → (seq ≤ (walk next recv n seq cursor).1) × ((walk next recv n seq cursor).1 ≤ seq + n)
  unfolding walk
  walk_bounds zero seq cursor h = omega arith
  walk_bounds (suc n) seq cursor h =
      ground (arith, walk_bounds n (u64 (seq + 1)) (drop (be16 cursor) (drop 2 cursor)))

  -- From `next` on every message is delivered.
  pub length-walk :
      (n seq : ℕ) (cursor : List ℕ)
      → seq + n < 2 ^ 64
      → length (walk next recv n seq cursor).0
        ≡ (walk next recv n seq cursor).1 - (if leb next seq then seq else next)
  unfolding walk
  length-walk zero seq cursor h = ground arith
  length-walk (suc n) seq cursor h = ground (
    arith,
    length-walk n (u64 (seq + 1)) (drop (be16 cursor) (drop 2 cursor)),
    walk_bounds n (u64 (seq + 1)) (drop (be16 cursor) (drop 2 cursor)),
  )

  abbrev msg_at : ℕ → List ℕ → MoldMessage
  msg_at seq cursor = record {
    length = be16 cursor;
    body = take (be16 cursor) (drop 2 cursor);
    seq_num = seq;
    recv_ns = recv;
  }

  abbrev walk_rest : ℕ → ℕ → List ℕ → List MoldMessage × ℕ
  walk_rest n seq cursor = walk next recv n (u64 (seq + 1)) (drop (be16 cursor) (drop 2 cursor))

  -- One round stops at a message that the bytes do not hold, delivers, or skips what is old.
  pub walk_cases :
      (n seq : ℕ) (cursor : List ℕ)
      → (walk next recv (suc n) seq cursor ≡ ([], seq))
        ⊎ ((next ≤ seq)
            × (walk next recv (suc n) seq cursor
                ≡ (msg_at seq cursor ∷ (walk_rest n seq cursor).0, (walk_rest n seq cursor).1)))
        ⊎ ((seq < next) × (walk next recv (suc n) seq cursor ≡ walk_rest n seq cursor))
  unfolding walk
  walk_cases n seq cursor = ground arith

  -- What is delivered goes on from `next`, without a hole and without a repetition.
  pub walk_continues :
      (n seq k z : ℕ) (cursor : List ℕ) (calls : List Call)
      → seq + n < 2 ^ 64
      → k ≡ (if leb next seq then seq else next)
      → z ≡ (
          if ltb next (walk next recv n seq cursor).1
          then (walk next recv n seq cursor).1
          else next)
      → EndsAt k calls
      → EndsAt z (log_messages (walk next recv n seq cursor).0 calls)
  walk_continues zero seq k z cursor calls h e f c =
      unfold walk in subst (λ t. EndsAt t calls) (ground arith) c
  walk_continues (suc n) seq k z cursor calls h e f c = elim (walk_cases n seq cursor) [
    | inl stop ↦ rw stop (subst (λ t. EndsAt t calls) (ground arith) c)
    | inr (inl (ge, go)) ↦ rw go (
        walk_continues n (u64 (seq + 1)) (seq + 1) z _ (message (msg_at seq cursor) ∷ calls)
          (omega arith) (ground arith) (rw go at f)
          (refl, subst (λ t. EndsAt t calls) (ground arith) c))
    | inr (inr (lt, go)) ↦
        rw go
          (walk_continues n (u64 (seq + 1)) k z _ calls (omega arith) (ground arith) (rw go at f) c)
  ]
