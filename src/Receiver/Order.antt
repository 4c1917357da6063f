-- ===== src/Receiver/Order.antt =====
-- What the receiver's loop (include/feed/receiver.hpp) hands downstream.
use udp_multicast_receiver.Common.{
  ℕ, ◌+◌, ◌≡◌, refl, ap, List, [], ◌∷◌, inl, inr, Bool-cases, length, leb, ◌==◌, if◌then◌else◌, u64,
  sub64, arith,
}
use udp_multicast_receiver.Gap.State.{GapBuffer, Config}
use udp_multicast_receiver.Gap.Ingest.{ingest}
use udp_multicast_receiver.Gap.Count.{count_of, ingest-Delivers, tick-Delivers}
use udp_multicast_receiver.Gap.Trace.{EndsAt, message_count}
use udp_multicast_receiver.Gap.Inv.Step.{NoWrap}
use udp_multicast_receiver.Gap.Inv.Reach.{Reach, here, next, datagram, timer, start, Reach-in_order}
use udp_multicast_receiver.Receiver.{
  ReceiverConfig, MulticastReceiver, receiver_of, ControlMessage, Received, nothing_ready,
  socket_error, packet, extract_timestamp, recv_one, Spin, spin, run_from, run,
}

abbrev pub ReceivedNoWrap : Received → Type 0
ReceivedNoWrap nothing_ready = Unit {0}
ReceivedNoWrap socket_error = Unit {0}
ReceivedNoWrap (packet payload control) = NoWrap payload

-- Every packet's numbers stay below 2 ^ 64.
abbrev pub AllNoWrap : List Spin → Type 0
AllNoWrap [] = Unit {0}
AllNoWrap (s ∷ spins) = ReceivedNoWrap s.received × AllNoWrap spins

-- Messages are counted as the buffer counts them.
abbrev pub Agrees : MulticastReceiver → Type 0
Agrees r = u64 r.messages_delivered ≡ u64 r.gap_buf.stats.delivered

-- The time that a packet is given.
abbrev stamp : ℕ → ℕ → ℕ
stamp sw_ns monotonic = if sw_ns == 0 then monotonic else sw_ns

recv_one-packet :
    (r : MulticastReceiver) (payload : List ℕ) (control : List ControlMessage) (monotonic : ℕ)
    → let got = ingest r.gap_buf payload (stamp (extract_timestamp control) monotonic) in
      let after = (recv_one r (packet payload control) monotonic).0 in
      (after.gap_buf ≡ got.0)
      × (u64 after.messages_delivered ≡ u64 (r.messages_delivered + count_of got.1))
unfolding recv_one
recv_one-packet r payload control monotonic = (ground arith, ground arith)

module _ {s : GapBuffer} where
  recv_one-Reach :
      (r : MulticastReceiver) (received : Received) (monotonic : ℕ)
      → ReceivedNoWrap received
      → Reach s r.gap_buf
      → Reach s (recv_one r received monotonic).0.gap_buf
  unfolding recv_one
  recv_one-Reach r nothing_ready monotonic fit h = h
  recv_one-Reach r socket_error monotonic fit h = h
  recv_one-Reach r (packet payload control) monotonic fit h =
      rw ((recv_one-packet r payload control monotonic).0)
        (next h (datagram r.gap_buf payload _ fit))

  spin-Reach :
      (interval : ℕ) (r : MulticastReceiver) (last : ℕ) (sp : Spin)
      → ReceivedNoWrap sp.received
      → Reach s r.gap_buf
      → Reach s (spin interval (r, last) sp).0.gap_buf
  unfolding spin
  spin-Reach interval r last sp fit h = elim (Bool-cases (leb interval (sub64 sp.now last))) [
    | inl e ↦ rw (e, spin) (next (recv_one-Reach r sp.received sp.monotonic fit h) (timer _ sp.now))
    | inr e ↦ rw (e, spin) (recv_one-Reach r sp.received sp.monotonic fit h)
  ]

  pub run_from-Reach :
      (interval : ℕ) (r : MulticastReceiver) (last : ℕ) (spins : List Spin)
      → AllNoWrap spins
      → Reach s r.gap_buf
      → Reach s (run_from interval (r, last) spins).0.gap_buf
  unfolding run_from
  run_from-Reach interval r last [] fit h = h
  run_from-Reach interval r last (sp ∷ spins) fit h =
      run_from-Reach interval (spin interval (r, last) sp).0 (spin interval (r, last) sp).1 spins
        fit.1 (spin-Reach interval r last sp fit.0 h)

recv_one-Agrees :
    (r : MulticastReceiver) (received : Received) (monotonic : ℕ)
    → Agrees r
    → Agrees (recv_one r received monotonic).0
unfolding recv_one
recv_one-Agrees r nothing_ready monotonic a = a
recv_one-Agrees r socket_error monotonic a = a
recv_one-Agrees r (packet payload control) monotonic a =
    let now : ℕ = stamp (extract_timestamp control) monotonic in
    let (same, sum) = recv_one-packet r payload control monotonic in
    omega (arith, sum, a, ingest-Delivers r.gap_buf payload now, ap (λ g. g.stats.delivered) same)

spin-Agrees :
    (interval : ℕ) (r : MulticastReceiver) (last : ℕ) (sp : Spin)
    → Agrees r
    → Agrees (spin interval (r, last) sp).0
unfolding spin
spin-Agrees interval r last sp a = ground (
  arith,
  recv_one-Agrees r sp.received sp.monotonic a,
  tick-Delivers (recv_one r sp.received sp.monotonic).0.gap_buf sp.now,
)

pub run_from-Agrees :
    (interval : ℕ) (r : MulticastReceiver) (last : ℕ) (spins : List Spin)
    → Agrees r
    → Agrees (run_from interval (r, last) spins).0
unfolding run_from
run_from-Agrees interval r last [] a = a
run_from-Agrees interval r last (sp ∷ spins) a =
    run_from-Agrees interval (spin interval (r, last) sp).0 (spin interval (r, last) sp).1 spins
      (spin-Agrees interval r last sp a)

-- After any rounds of the receiver's loop over a new buffer with a 10-byte session and an
-- on_message callback, whatever recvmsg and the clock return, with packets whose numbers stay below
-- 2 ^ 64: the messages handed to on_message carry consecutive numbers up to the one before
-- `next_expected`, and the receiver's own counter of delivered messages is their number modulo 2 ^
-- 64.
pub run-in_order :
    (cfg : Config) (rcfg : ReceiverConfig) (interval start_ns : ℕ) (spins : List Spin)
    → length cfg.session ≡ 10
    → AllNoWrap spins
    → let r = run (receiver_of rcfg (start cfg)) interval start_ns spins in
      EndsAt r.gap_buf.next_expected r.gap_buf.calls
      × (u64 r.messages_delivered ≡ u64 (message_count r.gap_buf.calls))
unfolding run
run-in_order cfg rcfg interval start_ns spins h fit =
    let r = (run_from interval (receiver_of rcfg (start cfg), start_ns) spins).0 in
    let reached = run_from-Reach interval (receiver_of rcfg (start cfg)) start_ns spins fit here in
    let (ends, counted, settled) = Reach-in_order cfg r.gap_buf h reached in
    let fresh : Agrees (receiver_of rcfg (start cfg)) = unfold start in refl in
    let agrees = run_from-Agrees interval (receiver_of rcfg (start cfg)) start_ns spins fresh in
    (ends, omega (arith, agrees, counted))
