-- ===== src/Gap/Stuck.antt =====
-- A session that was synced to sequence number 0 (include/feed/gap_buffer.hpp).
use udp_multicast_receiver.Common.{ℕ, ◌<◌, ◌≡◌, refl, true, some, List, arith}
use udp_multicast_receiver.Gap.State.{GapBuffer}
use udp_multicast_receiver.Gap.Ingest.{ingest, buffer_packet, count_packet}
use udp_multicast_receiver.Gap.Retransmit.{handle_gap, check_gap_timeout}
use udp_multicast_receiver.Gap.Framing.{datagram_of, header_of, IsDatagram}
use udp_multicast_receiver.Gap.Reorder.{ingest_ahead}
use udp_multicast_receiver.Gap.Inv.Step.{hold_back}

-- What a heartbeat numbered 0 leaves behind when it comes first.
pub record AtZero (g : GapBuffer) : Type 0 where
  pub synced : g.session_synced ≡ true
  pub next_zero : g.next_expected ≡ 0
  pub no_gap : g.gap_start ≡ 0

-- A buffer that a first heartbeat has synced to number 0 delivers nothing of any well-formed
-- datagram numbered from 1 on, tracks no gap, and is left in the same state: synced, waiting for 0.
pub ingest-AtZero :
    (g : GapBuffer) (s : List ℕ) (q : ℕ) (bodies : List (List ℕ)) (now : ℕ)
    → AtZero g
    → IsDatagram s q bodies
    → 0 < q
    → ((ingest g (datagram_of s q bodies) now).1 ≡ some 0)
      × AtZero (ingest g (datagram_of s q bodies) now).0
ingest-AtZero g s q bodies now z d pos =
    rw (ingest_ahead g s q bodies now z.synced (rw z.next_zero pos) d) (refl, held)
  where
    held : AtZero (
        hold_back
          (count_packet g (header_of s q bodies))
          (header_of s q bodies)
          (datagram_of s q bodies)
          now)
    held = record {
      synced =
          unfold check_gap_timeout buffer_packet handle_gap count_packet in
          ground (arith, z.synced, z.next_zero, z.no_gap);
      next_zero =
          unfold check_gap_timeout buffer_packet handle_gap count_packet in
          ground (arith, z.next_zero, z.no_gap);
      no_gap =
          unfold check_gap_timeout buffer_packet handle_gap count_packet in
          ground (arith, z.next_zero, z.no_gap);
    }
