-- ===== src/Runs/Stream.antt =====
-- The live mode of src/main.cpp on a stream of two datagrams, the second one late.
use udp_multicast_receiver.Common.{
  ℕ, ◌<◌, ◌+◌, ◌≡◌, refl, inl, inr, true, List, [], ◌∷◌, ◌++◌, map, u64, arith,
}
use udp_multicast_receiver.Wire.Endian.{put_be16}
use udp_multicast_receiver.Gap.Framing.{frames}
use udp_multicast_receiver.Gap.Gather.{Chunk, In, IsHoldable, arrives, happen, Near}
use udp_multicast_receiver.Gap.Gather.Events.{Delivered}
use udp_multicast_receiver.Receiver.{default_receiver}
use udp_multicast_receiver.Receiver.Stream.{Round, quiet, carries, spin_of, time_of}
use udp_multicast_receiver.Receiver.Whole.{received, rounds, behind}
use udp_multicast_receiver.Main.{gap_buf, live_mode}
use udp_multicast_receiver.Main.Tally.{tally}
use udp_multicast_receiver.Main.Stream.{live_mode-whole}
use udp_multicast_receiver.Runs.Gap.{spaces, one}
use udp_multicast_receiver.Runs.Receiver.{all_succeed, one-IsDatagram}

abbrev at : ℕ → Chunk
at q = record { seq = q; bodies = one }

abbrev rest : List Chunk
rest = at 2 ∷ at 3 ∷ []

at-IsHoldable : (q : ℕ) → q + 1 < 18446744073709551616 → IsHoldable spaces (at q)
unfolding frames put_be16
at-IsHoldable q h = (one-IsDatagram q h, omega arith)

stream-IsHoldable : (x : Chunk) → In x (at 1 ∷ rest) → IsHoldable spaces x
stream-IsHoldable x (inl e) = rw e (at-IsHoldable 1 (omega arith))
stream-IsHoldable x (inr (inl e)) = rw e (at-IsHoldable 2 (omega arith))
stream-IsHoldable x (inr (inr (inl e))) = rw e (at-IsHoldable 3 (omega arith))
stream-IsHoldable x (inr (inr (inr i))) = absurd i

-- Message 3 comes before message 2, and message 1 once more; a tick is due in one round.
abbrev others : List Round
others = carries (at 3) [] 20 20 ∷ quiet 60 ∷ carries (at 1) [] 70 70 ∷ carries (at 2) [] 80 80 ∷ []

others-received : (x : Chunk) → In x rest → received x.seq others ≡ true
others-received x (inl e) = rw e refl
others-received x (inr (inl e)) = rw e refl
others-received x (inr (inr i)) = absurd i

others-Near :
    Near spaces
      (at 1 ∷ rest)
      (happen spaces gap_buf (arrives (at 1) (time_of [] 10)))
      (behind 50 0 [] 10 others)
others-Near =
    (inr (inr (inl refl)), omega arith, (inl refl, omega arith, (inr (inl refl), omega arith, tt)))

live_mode-whole_example :
    let (code, r, h) =
      live_mode
        (λ n. b'A')
        default_receiver
        all_succeed
        50
        0
        (map (spin_of spaces) (rounds [] (carries (at 1) [] 10 10) others)) in
    (code ≡ 0)
    × Delivered r.gap_buf 4 (one ++ (one ++ one))
    × (h.total_messages ≡ 3)
    × (h.add_orders ≡ u64 (tally b'A' b'F' (λ n. b'A') (one ++ (one ++ one))))
live_mode-whole_example =
    live_mode-whole (λ n. b'A') default_receiver all_succeed spaces 50 0 4 [] (at 1) [] 10 10 others
      rest refl (refl, (refl, refl)) stream-IsHoldable others-Near others-received
