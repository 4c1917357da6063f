-- ===== src/Gap/Gather/Seen.antt =====
-- What was delivered or is held back of a stream has arrived (include/feed/gap_buffer.hpp).
use udp_multicast_receiver.Common.{
  ℕ, ◌%◌, ◌≡◌, inl, inr, Bool, true, ◌||◌, List, Bool-cases, ◌==◌, ==_refl, arith,
}
use udp_multicast_receiver.Gap.State.{GapBuffer, BufferedPacket, capacity, write_slot}
use udp_multicast_receiver.Gap.Held.{filled_slot}
use udp_multicast_receiver.Gap.Inv.Agrees.{Agrees}
use udp_multicast_receiver.Gap.Gather.{Chunk, Took}

or_right : (a b : Bool) → b ≡ true → (a || b) ≡ true
or_right a b e = ground (arith, e)

or_left : (a b : Bool) → a ≡ true → (a || b) ≡ true
or_left a b e = ground (arith, e)

-- One more number seen, and the same slots.
pub Took-same :
    {stream : List Chunk} {g : GapBuffer} {todo : List Chunk} {seen : ℕ → Bool} (q : ℕ)
    (h : GapBuffer)
    → h.slots ≡ g.slots
    → Took stream g todo seen
    → Took stream h todo (λ k. q == k || seen k)
Took-same {stream} {g} {todo} {seen} q h same t = record {
  done = t.done;
  split_at = t.split_at;
  done_seen = λ x i. or_right (q == x.seq) (seen x.seq) (t.done_seen x i);
  slots_seen =
      rw same
        (λ i o. or_right (q == (g.slots i).seq_num) (seen (g.slots i).seq_num) (t.slots_seen i o));
}

pub Took-Agrees :
    {stream : List Chunk} {g : GapBuffer} {todo : List Chunk} {seen : ℕ → Bool} (h : GapBuffer)
    → Agrees g h
    → Took stream g todo seen
    → Took stream h todo seen
Took-Agrees h a t = record {
  done = t.done;
  split_at = t.split_at;
  done_seen = t.done_seen;
  slots_seen = rw a.same_slots t.slots_seen;
}

-- A packet that arrives fills its slot.
pub Took-write :
    {stream : List Chunk} {g : GapBuffer} {todo : List Chunk} {seen : ℕ → Bool} (s : List ℕ)
    (p : Chunk) (now : ℕ) (h : GapBuffer)
    → h.slots ≡ write_slot g.slots (p.seq % capacity) (filled_slot s p.seq p.bodies now)
    → Took stream g todo seen
    → Took stream h todo (λ k. p.seq == k || seen k)
Took-write {stream} {g} {todo} {seen} s p now h wrote t =
    let more : ℕ → Bool = λ k. p.seq == k || seen k in
    let written : ℕ → BufferedPacket =
      write_slot g.slots (p.seq % capacity) (filled_slot s p.seq p.bodies now) in
    let each : (i : ℕ) → (written i).occupied ≡ true → more (written i).seq_num ≡ true = λ i o.
      elim (Bool-cases (p.seq % capacity == i)) [
        | inl e ↦ rw e (or_left (p.seq == p.seq) (seen p.seq) (==_refl p.seq))
        | inr e ↦ rw e (
            or_right (p.seq == (g.slots i).seq_num) (seen (g.slots i).seq_num)
              (t.slots_seen i (rw e at o)))
      ] in
    record {
      done = t.done;
      split_at = t.split_at;
      done_seen = λ x i. or_right (p.seq == x.seq) (seen x.seq) (t.done_seen x i);
      slots_seen = rw wrote each;
    }
