-- ===== src/GenPcap/Delivery.antt =====
-- What a capture file of tools/gen_pcap.cpp gives when pcap_replay.hpp replays it.
use udp_multicast_receiver.Common.{
  ℕ, zero, suc, ◌+◌, ◌*◌, ◌≤◌, ◌<◌, ◌≡◌, ◌∙◌, refl, ap, sym, Bool, true, false, List, ◌∷◌, ◌++◌,
  length, ◌⊎◌, inl, inr, Bool-cases, ltb, if◌then◌else◌, arith,
}
use udp_multicast_receiver.Gap.State.{GapBuffer}
use udp_multicast_receiver.Gap.Ingest.{ingest}
use udp_multicast_receiver.Gap.Framing.{datagram_of, IsDatagram}
use udp_multicast_receiver.Gap.Flow.{
  Flowing, IsFresh, Flowing-at, ingest-Flowing, ingest_again-Flowing, ingest_first-Flowing,
}
use udp_multicast_receiver.Pcap.{open_writer, replay}
use udp_multicast_receiver.Pcap.Frames.{Accepts}
use udp_multicast_receiver.Pcap.Replay.{Packets, feed_all, file_bytes, replay-write_all}
use udp_multicast_receiver.GenPcap.{Options, synthetic, gen_packet, generate}
use udp_multicast_receiver.GenPcap.Orders.{
  orders, length-orders, orders-append, gen_packet-datagram_of, orders-IsDatagram,
}
use udp_multicast_receiver.GenPcap.Packets.{
  IsPlain, batch, twice, packets, packets_go_on, packets_stop, gen_loop-write_all, packets-Fit,
}

module _ (opt : Options) (plain : IsPlain opt) where
  -- The packet of the round that comes after `written` messages.
  module _ (g : GapBuffer) (written now : ℕ) (more : written < opt.count) where
    abbrev size : ℕ
    size = batch opt written

    abbrev next : ℕ
    next = written + size + 1

    shape :
        gen_packet size (written + 1)
        ≡ datagram_of synthetic (written + 1) (orders size (written + 1))
    shape = gen_packet-datagram_of size (written + 1) (omega (arith, more, plain.count_fits))

    well_formed : IsDatagram synthetic (written + 1) (orders size (written + 1))
    well_formed =
        orders-IsDatagram size (written + 1) (omega (arith, more, plain.some_messages))
          (omega (arith, plain.few_messages)) (omega (arith, more, plain.count_fits))

    bodies_count : length (orders size (written + 1)) ≡ size
    bodies_count = length-orders size (written + 1)

    all_orders : orders written 1 ++ orders size (written + 1) ≡ orders (written + size) 1
    all_orders =
        let next : 1 + written ≡ written + 1 = omega arith in
        ap (λ k. orders written 1 ++ orders size k) (sym next) ∙ orders-append written size 1

    next_packet :
        Flowing g (written + 1) (orders written 1)
        → Flowing (ingest g (gen_packet size (written + 1)) now).0 next (orders (written + size) 1)
    next_packet f = rw shape (
        Flowing-at (omega (arith, bodies_count)) all_orders (
          ingest-Flowing g synthetic (written + 1) (orders size (written + 1)) now
            (orders written 1) f well_formed))

    first_packet :
        written ≡ 0
        → IsFresh g
        → Flowing (ingest g (gen_packet size (written + 1)) now).0 next (orders (written + size) 1)
    first_packet z f = rw shape (
        Flowing-at (omega (arith, bodies_count))
          (ap (λ k. orders k 1 ++ orders size (written + 1)) (sym z) ∙ all_orders)
          (ingest_first-Flowing g synthetic (written + 1) (orders size (written + 1)) now f
            well_formed))

    packet_again :
        Flowing g next (orders (written + size) 1)
        → Flowing (ingest g (gen_packet size (written + 1)) now).0 next (orders (written + size) 1)
    packet_again f = rw shape (
        ingest_again-Flowing g synthetic (written + 1) (orders size (written + 1)) now next
          (orders (written + size) 1) f well_formed (omega (arith, bodies_count)))

feed_round :
    (dup : Bool) (g : GapBuffer) (ts later : ℕ) (payload : List ℕ) (rest : Packets)
    → feed_all g ((ts, payload) ∷ (if dup then (later, payload) ∷ rest else rest))
      ≡ feed_all
          (if dup
            then (ingest (ingest g payload (ts * 1000)).0 payload (later * 1000)).0
            else (ingest g payload (ts * 1000)).0)
          rest
unfolding feed_all
feed_round true g ts later payload rest = refl
feed_round false g ts later payload rest = refl

either_way :
    {a b : GapBuffer} {q : ℕ} {sent : List (List ℕ)} (c : Bool)
    → Flowing a q sent
    → Flowing b q sent
    → Flowing (if c then a else b) q sent
either_way true f h = f
either_way false f h = h

-- What the buffer is after the packets of the first `written` messages.
abbrev Reached : GapBuffer → ℕ → Type 0
Reached g written = ((written ≡ 0) × IsFresh g) ⊎ Flowing g (written + 1) (orders written 1)

module _ (opt : Options) (plain : IsPlain opt) where
  round-Flowing :
      (g : GapBuffer) (written now later : ℕ) (dup : Bool)
      → written < opt.count
      → Reached g written
      → let payload = gen_packet (batch opt written) (written + 1) in
        Flowing
          (if dup
            then (ingest (ingest g payload now).0 payload later).0
            else (ingest g payload now).0)
          (written + batch opt written + 1)
          (orders (written + batch opt written) 1)
  round-Flowing g written now later dup more reached =
      let payload = gen_packet (batch opt written) (written + 1) in
      let once : Flowing (ingest g payload now).0 (written + batch opt written + 1)
          (orders (written + batch opt written) 1) =
        elim reached [
          | inl (z, fresh) ↦ first_packet opt plain g written now more z fresh
          | inr flowing ↦ next_packet opt plain g written now more flowing
        ] in
      either_way dup (packet_again opt plain (ingest g payload now).0 written later more once) once

  feed_stop :
      (fuel written ts : ℕ) (g : GapBuffer)
      → 0 < opt.count
      → written ≡ opt.count
      → Reached g written
      → Flowing (feed_all g (packets fuel opt written ts)) (opt.count + 1) (orders opt.count 1)
  feed_stop fuel written ts g pos all reached =
      let same : feed_all g (packets fuel opt written ts) ≡ g =
        rw (packets_stop opt plain fuel written ts (ground (arith, all)))
          (unfold feed_all in refl) in
      rw same (elim reached [
        | inl (z, fresh) ↦ absurd (omega (arith, z))
        | inr flowing ↦ Flowing-at (ap (λ k. k + 1) all) (ap (λ k. orders k 1) all) flowing
      ])

  feed_packets :
      (fuel written ts : ℕ) (g : GapBuffer)
      → 0 < opt.count
      → written ≤ opt.count
      → opt.count ≤ written + fuel
      → Reached g written
      → Flowing (feed_all g (packets fuel opt written ts)) (opt.count + 1) (orders opt.count 1)
  feed_packets zero written ts g pos below enough reached =
      feed_stop zero written ts g pos (omega arith) reached
  feed_packets (suc fuel) written ts g pos below enough reached =
      elim (Bool-cases (ltb written opt.count)) [
        | inr done ↦ feed_stop (suc fuel) written ts g pos (ground arith) reached
        | inl more ↦
            let less : written < opt.count = ground arith in
            let size : ℕ = batch opt written in
            let payload = gen_packet size (written + 1) in
            let dup = twice opt written in
            let later : ℕ = ts + opt.rate_us in
            let end : ℕ = if dup then later + opt.rate_us else later in
            let reached_next =
              round-Flowing g written (ts * 1000) (later * 1000) dup less reached in
            rw
              (
                packets_go_on opt plain fuel written ts more,
                feed_round dup g ts later payload (packets fuel opt (written + size) end),
              )
              (feed_packets fuel (written + size) end _ pos (omega arith)
                (omega (arith, plain.some_messages)) (inr reached_next))
      ]

-- A capture file that the generator writes without a gap, with 1 to 1722 messages in a packet and
-- perhaps one packet twice, replayed with no port filter or with 15001 into a buffer before its
-- first packet: the bodies of all `count` orders are delivered, each once and in order, the buffer
-- waits for `count` + 1, and no gap is open. The count is positive and below 2 ^ 63, `fuel` is at
-- least the count, and the times of `2 * fuel` packets keep their seconds in 32 bits.
pub generate-delivered :
    (opt : Options) (fuel port : ℕ) (stale : List ℕ) (g : GapBuffer)
    → Accepts port
    → IsPlain opt
    → 0 < opt.count
    → opt.count ≤ fuel
    → 1_700_000_000_000_000 + 2 * (opt.rate_us * fuel) < 4294967296000000
    → IsFresh g
    → Flowing
        (replay port (file_bytes (generate fuel opt open_writer)) stale g).gap_buf
        (opt.count + 1)
        (orders opt.count 1)
unfolding generate
generate-delivered opt fuel port stale g accepts plain pos enough time fresh =
    let start : ℕ = 1_700_000_000_000_000 in
    rw
      (
        gen_loop-write_all opt plain fuel open_writer 0 start (omega (arith, time)),
        replay-write_all port (packets fuel opt 0 start) stale g accepts
            (packets-Fit opt plain fuel 0 start time),
      )
      (feed_packets opt plain fuel 0 start g pos (omega arith) (omega arith) (inl (refl, fresh)))
