-- ===== src/Gap/Framed.antt =====
-- Each message that include/feed/gap_buffer.hpp delivers is as long as it says.
use udp_multicast_receiver.Common.{
  ℕ, zero, suc, ◌+◌, ◌≡◌, inl, inr, false, Option-cases, Bool-cases, List, [], ◌∷◌, take, drop,
  length, length-take, ltb, leb, u64, arith,
}
use udp_multicast_receiver.Wire.Endian.{be16}
use udp_multicast_receiver.Wire.Mold.{MoldHeader, MoldMessage, parse, is_heartbeat}
use udp_multicast_receiver.Gap.State.{GapBuffer, Call, message, gap, retransmit, capacity, holds}
use udp_multicast_receiver.Gap.Deliver.{
  walk, log_messages, deliver_packet, flush_round, flush, flush_buffer,
}
use udp_multicast_receiver.Gap.Retransmit.{handle_gap, check_gap_timeout}
use udp_multicast_receiver.Gap.Ingest.{
  buffer_packet, sync_session, clear_gap, deliver_in_order, count_packet, count_duplicate,
  count_heartbeat, ingest_packet, ingest_parsed, ingest,
}
use udp_multicast_receiver.Gap.Inv.Step.{hold_back, ingest_packet_cases}

abbrev pub AllFramed : List Call → Type 0
AllFramed [] = Unit {0}
AllFramed (message m ∷ calls) = (length m.body ≡ m.length) × AllFramed calls
AllFramed (gap ev ∷ calls) = AllFramed calls
AllFramed (retransmit req ∷ calls) = AllFramed calls

abbrev AreFramed : List MoldMessage → Type 0
AreFramed [] = Unit {0}
AreFramed (m ∷ ms) = (length m.body ≡ m.length) × AreFramed ms

log_messages-AllFramed :
    (ms : List MoldMessage) (calls : List Call)
    → AreFramed ms
    → AllFramed calls
    → AllFramed (log_messages ms calls)
log_messages-AllFramed [] calls f a = a
log_messages-AllFramed (m ∷ ms) calls f a =
    log_messages-AllFramed ms (message m ∷ calls) f.1 (f.0, a)

length_taken : (n : ℕ) (xs : List ℕ) → ltb (length xs) n ≡ false → length (take n xs) ≡ n
length_taken n xs h = ground (arith, length-take n xs)

walk-AreFramed :
    (next recv rounds seq : ℕ) (cursor : List ℕ) → AreFramed (walk next recv rounds seq cursor).0
unfolding walk
walk-AreFramed next recv zero seq cursor = tt
walk-AreFramed next recv (suc rounds) seq cursor =
    let n : ℕ = be16 cursor in
    let body : List ℕ = drop 2 cursor in
    let rest = walk-AreFramed next recv rounds (u64 (seq + 1)) (drop n body) in
    elim (Bool-cases (ltb (length cursor) 2)) [
      | inl e ↦ rw (e, walk) tt
      | inr e ↦ elim (Bool-cases (ltb (length body) n)) [
        | inl f ↦ rw (e, f, walk) tt
        | inr f ↦ elim (Bool-cases (leb next seq)) [
          | inl k ↦ rw (e, f, k, walk) (length_taken n body f, rest)
          | inr k ↦ rw (e, f, k, walk) rest
        ]
      ]
    ]

abbrev pub Framed : GapBuffer → Type 0
Framed g = AllFramed g.calls

deliver_packet-Framed :
    (g : GapBuffer) (hdr : MoldHeader) (payload : List ℕ) (now : ℕ)
    → Framed g
    → Framed (deliver_packet g hdr payload now).0
unfolding deliver_packet
deliver_packet-Framed g hdr payload now f = elim (Bool-cases g.on_message) [
  | inl e ↦ rw e (
      log_messages-AllFramed _ g.calls
        (walk-AreFramed g.next_expected now hdr.msg_count hdr.seq_num _) f)
  | inr e ↦ rw e f
]

flush-Framed : (fuel : ℕ) (g : GapBuffer) (count : ℕ) → Framed g → Framed (flush fuel g count).0
unfolding flush flush_round
flush-Framed zero g count f = f
flush-Framed (suc fuel) g count f = elim (Bool-cases (holds g g.next_expected)) [
  | inl e ↦
      rw (e, flush)
        (flush-Framed fuel (flush_round g).0 (count + (flush_round g).1)
          (deliver_packet-Framed g _ _ _ f))
  | inr e ↦ rw (e, flush) f
]

clear_gap-Framed : (g : GapBuffer) → Framed g → Framed (clear_gap g)
unfolding clear_gap
clear_gap-Framed g f = ground (arith, f)

pub check_gap_timeout-Framed :
    (g : GapBuffer) (now : ℕ) → Framed g → Framed (check_gap_timeout g now)
unfolding check_gap_timeout
check_gap_timeout-Framed g now f = ground (arith, f)

hold_back-Framed :
    (g : GapBuffer) (hdr : MoldHeader) (payload : List ℕ) (now : ℕ)
    → Framed g
    → Framed (hold_back g hdr payload now)
unfolding buffer_packet handle_gap
hold_back-Framed g hdr payload now f =
    check_gap_timeout-Framed (buffer_packet (handle_gap g hdr.seq_num now) hdr payload now) now
      (ground (arith, f))

ingest_packet-Framed :
    (g : GapBuffer) (hdr : MoldHeader) (payload : List ℕ) (now : ℕ)
    → Framed g
    → Framed (ingest_packet g hdr payload now).0
unfolding count_duplicate deliver_in_order flush_buffer
ingest_packet-Framed g hdr payload now f = elim (ingest_packet_cases g hdr payload now) [
  | inl (old, e) ↦ rw e f
  | inr (inl (ahead, e)) ↦ rw e (hold_back-Framed g hdr payload now f)
  | inr (inr (old, e)) ↦ rw e (
      clear_gap-Framed _ (
        flush-Framed capacity (deliver_packet g hdr payload now).0 0
          (deliver_packet-Framed g hdr payload now f)))
]

sync_session-Framed : (g : GapBuffer) (hdr : MoldHeader) → Framed g → Framed (sync_session g hdr)
unfolding sync_session
sync_session-Framed g hdr f = ground (arith, f)

ingest_parsed-Framed :
    (g : GapBuffer) (hdr : MoldHeader) (payload : List ℕ) (now : ℕ)
    → Framed g
    → Framed (ingest_parsed g hdr payload now).0
unfolding ingest_parsed count_packet count_heartbeat
ingest_parsed-Framed g hdr payload now f =
    let synced : GapBuffer = sync_session g hdr in
    let k : Framed synced = sync_session-Framed g hdr f in
    elim (Bool-cases (is_heartbeat hdr)) [
      | inl e ↦ rw (e, ingest_parsed) (check_gap_timeout-Framed (count_heartbeat synced) now k)
      | inr e ↦
          rw (e, ingest_parsed) (ingest_packet-Framed (count_packet synced hdr) hdr payload now k)
    ]

pub ingest-Framed :
    (g : GapBuffer) (payload : List ℕ) (now : ℕ) → Framed g → Framed (ingest g payload now).0
unfolding ingest
ingest-Framed g payload now f = elim (Option-cases (parse payload)) [
  | inl e ↦ rw (e, ingest) f
  | inr (hdr, e) ↦ rw (e, ingest) (ingest_parsed-Framed g hdr payload now f)
]
