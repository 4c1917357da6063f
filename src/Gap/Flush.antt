-- ===== src/Gap/Flush.antt =====
-- flush_buffer of include/feed/gap_buffer.hpp: its loop ends, and what it leaves behind.
use udp_multicast_receiver.Common.{
  ℕ, zero, suc, ◌+◌, ◌%◌, ◌≤◌, ◌<◌, ◌≡◌, refl, true, false, inl, inr, ◌==◌, if◌then◌else◌,
  Bool-cases, arith,
}
use udp_multicast_receiver.Gap.State.{
  GapBuffer, BufferedPacket, capacity, write_slot, slot_of, holds,
}
use udp_multicast_receiver.Gap.Deliver.{deliver_packet, flush_round, flush, flush_buffer}

-- How many of the first `n` slots are occupied.
pub occupied_below : ℕ → (ℕ → BufferedPacket) → ℕ
occupied_below zero slots = 0
occupied_below (suc n) slots = (if (slots n).occupied then 1 else 0) + occupied_below n slots

occupied_below-le : (n : ℕ) (slots : ℕ → BufferedPacket) → occupied_below n slots ≤ n
unfolding occupied_below
occupied_below-le zero slots = omega arith
occupied_below-le (suc n) slots = ground (arith, occupied_below-le n slots)

module _ (slots : ℕ → BufferedPacket) (i : ℕ) (s : BufferedPacket) where
  occupied_below-write_above :
      (n : ℕ) → n ≤ i → occupied_below n (write_slot slots i s) ≡ occupied_below n slots
  unfolding occupied_below
  occupied_below-write_above zero h = refl
  occupied_below-write_above (suc n) h = ground (arith, occupied_below-write_above n (omega arith))

  occupied_below-free :
      (n : ℕ)
      → i < n
      → (slots i).occupied ≡ true
      → s.occupied ≡ false
      → suc (occupied_below n (write_slot slots i s)) ≡ occupied_below n slots
  unfolding occupied_below
  occupied_below-free zero h t f = absurd (omega arith)
  occupied_below-free (suc n) h t f = elim (Bool-cases (i == n)) [
    | inl e ↦ ground (arith, occupied_below-write_above n)
    | inr e ↦ ground (arith, occupied_below-free n)
  ]

pub slots-flush_round :
    (g : GapBuffer)
    → (flush_round g).0.slots
      ≡ write_slot g.slots
          (g.next_expected % capacity)
          (record (slot_of g g.next_expected) { occupied = false })
unfolding flush_round deliver_packet
slots-flush_round g = refl

-- Each round frees the slot that it delivers.
flush_round-frees :
    (g : GapBuffer)
    → holds g g.next_expected ≡ true
    → suc (occupied_below capacity (flush_round g).0.slots) ≡ occupied_below capacity g.slots
flush_round-frees g h = rw (slots-flush_round g) (
    occupied_below-free g.slots (g.next_expected % capacity) _ capacity (omega arith) (ground arith)
      refl)

flush-done :
    (fuel : ℕ) (g : GapBuffer) (count : ℕ)
    → occupied_below capacity g.slots ≤ fuel
    → holds (flush fuel g count).0 (flush fuel g count).0.next_expected ≡ false
unfolding flush
flush-done zero g count h = elim (Bool-cases (holds g g.next_expected)) [
  | inl t ↦ absurd (omega (arith, flush_round-frees g t))
  | inr f ↦ f
]
flush-done (suc fuel) g count h = elim (Bool-cases (holds g g.next_expected)) [
  | inl t ↦
      rw (t, flush)
        (flush-done fuel (flush_round g).0 (count + (flush_round g).1)
          (omega (arith, flush_round-frees g t)))
  | inr f ↦ rw (f, flush) f
]

-- `capacity` rounds are enough on every buffer: flush_buffer ends because its own test fails, that
-- is, no packet that starts at `next_expected` is left in the buffer.
pub flush_buffer-done :
    (g : GapBuffer) → holds (flush_buffer g).0 (flush_buffer g).0.next_expected ≡ false
unfolding flush_buffer
flush_buffer-done g = flush-done capacity g 0 (occupied_below-le capacity g.slots)
