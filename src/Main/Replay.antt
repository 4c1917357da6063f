-- ===== src/Main/Replay.antt =====
-- The replay mode of src/main.cpp on a capture file of tools/gen_pcap.cpp.
use udp_multicast_receiver.Common.{
  ℕ, zero, suc, ◌+◌, ◌*◌, ◌≤◌, ◌<◌, ◌≡◌, ◌∙◌, refl, ap, List, length, u64, arith,
}
use udp_multicast_receiver.Gap.State.{init, set_on_message, set_on_gap, set_on_retransmit}
use udp_multicast_receiver.Gap.Flow.{IsFresh}
use udp_multicast_receiver.Gap.Trace.{sent_bodies}
use udp_multicast_receiver.Pcap.{open_writer, replay}
use udp_multicast_receiver.Pcap.Frames.{Accepts}
use udp_multicast_receiver.Pcap.Replay.{file_bytes}
use udp_multicast_receiver.GenPcap.{Options, make_add_order, generate}
use udp_multicast_receiver.GenPcap.Orders.{orders, length-orders}
use udp_multicast_receiver.GenPcap.Packets.{IsPlain}
use udp_multicast_receiver.GenPcap.Delivery.{generate-delivered}
use udp_multicast_receiver.Main.{gap_buf, replay_mode}
use udp_multicast_receiver.Main.Tally.{tally, handler_of-Counts}

pub gap_buf-IsFresh : IsFresh gap_buf
unfolding gap_buf init set_on_message set_on_gap set_on_retransmit sent_bodies
gap_buf-IsFresh = record {
  listening = refl;
  unsynced = refl;
  at_zero = refl;
  no_gap = refl;
  no_packet = λ i. refl;
  ends = tt;
  bodies = refl;
}

-- The orders of the generator are all of type 'A'.
tally-orders :
    (memory : ℕ → ℕ) (n seq : ℕ)
    → (tally b'A' b'F' memory (orders n seq) ≡ n)
      × (tally b'D' b'D' memory (orders n seq) ≡ 0)
      × (tally b'E' b'C' memory (orders n seq) ≡ 0)
unfolding tally make_add_order
tally-orders memory zero seq = (refl, refl, refl)
tally-orders memory (suc n) seq =
    let (a, d, e) = tally-orders (λ n. memory (suc n)) n (seq + 1) in (ap suc a, d, e)

-- For a capture file that the generator writes without a gap, with 1 to 1722 messages in a packet,
-- a positive count below 2 ^ 63 that `fuel` reaches, and times whose seconds fit 32 bits: the
-- program in its replay mode with port 0 or 15001 counts `count` messages, all of them Add Orders,
-- and no Delete and no execution.
pub replay_mode-orders :
    (memory : ℕ → ℕ) (opt : Options) (fuel port : ℕ) (stale : List ℕ)
    → Accepts port
    → IsPlain opt
    → 0 < opt.count
    → opt.count ≤ fuel
    → 1_700_000_000_000_000 + 2 * (opt.rate_us * fuel) < 4294967296000000
    → let h = (replay_mode memory port (file_bytes (generate fuel opt open_writer)) stale).1 in
      (h.total_messages ≡ opt.count)
      × (h.add_orders ≡ opt.count)
      × (h.delete_orders ≡ 0)
      × (h.executions ≡ 0)
unfolding replay_mode
replay_mode-orders memory opt fuel port stale accepts plain pos enough time =
    let file : List ℕ = file_bytes (generate fuel opt open_writer) in
    let flows =
      generate-delivered opt fuel port stale gap_buf accepts plain pos enough time
        gap_buf-IsFresh in
    let calls = (replay port file stale gap_buf).gap_buf.calls in
    let k = handler_of-Counts memory calls in
    let (a, d, e) = tally-orders memory opt.count 1 in
    let as_sent : (f : List (List ℕ) → ℕ) → f (sent_bodies calls) ≡ f (orders opt.count 1) =
      λ f. ap f flows.bodies in
    (
      k.every
          ∙ as_sent (λ b. u64 (length b))
          ∙ omega (arith, length-orders opt.count 1, plain.count_fits),
      k.adds ∙ as_sent (λ b. u64 (tally b'A' b'F' memory b)) ∙ omega (arith, a, plain.count_fits),
      k.deletes ∙ as_sent (λ b. u64 (tally b'D' b'D' memory b)) ∙ omega (arith, d),
      k.executes ∙ as_sent (λ b. u64 (tally b'E' b'C' memory b)) ∙ omega (arith, e),
    )
