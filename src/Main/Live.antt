-- ===== src/Main/Live.antt =====
-- The live mode of src/main.cpp: what the handler has seen when the receiver stops.
use udp_multicast_receiver.Common.{ℕ, ◌≡◌, ◌∙◌, refl, true, List, length, u64, arith}
use udp_multicast_receiver.Gap.State.{init, set_on_message, set_on_gap, set_on_retransmit}
use udp_multicast_receiver.Gap.Trace.{EndsAt}
use udp_multicast_receiver.Gap.Trace.{sent_bodies, length-sent_bodies}
use udp_multicast_receiver.Gap.Inv.Reach.{
  Reach, here, next, gap_callback, retransmit_callback, start, Reach-in_order,
}
use udp_multicast_receiver.Receiver.{
  ReceiverConfig, MulticastReceiver, receiver_of, Syscalls, open_receiver, Spin, run_from, run,
}
use udp_multicast_receiver.Receiver.Open.{open_receiver-counter, granted_all, open_receiver-result}
use udp_multicast_receiver.Receiver.Order.{AllNoWrap, Agrees, run_from-Reach, run_from-Agrees}
use udp_multicast_receiver.Main.{gap_config, gap_buf, live_mode}
use udp_multicast_receiver.Main.Tally.{tally, handler_of-Counts}

pub gap_buf-Reach : Reach (start gap_config) gap_buf
unfolding gap_buf start
gap_buf-Reach =
    next (next here (gap_callback (start gap_config)))
      (retransmit_callback (set_on_gap (start gap_config)))

gap_buf-unused : gap_buf.stats.delivered ≡ 0
unfolding gap_buf init set_on_message set_on_gap set_on_retransmit
gap_buf-unused = refl

pub session_length : length gap_config.session ≡ 10
unfolding gap_config
session_length = refl

module _ (rcfg : ReceiverConfig) (sys : Syscalls) where
  abbrev opened : MulticastReceiver
  opened = (open_receiver (receiver_of rcfg gap_buf) sys).0

  opened-Agrees : Agrees opened
  opened-Agrees =
      let (same, sum) = open_receiver-counter (receiver_of rcfg gap_buf) sys in
      rw (same, sum, gap_buf-unused) refl

  opened-Reach : Reach (start gap_config) opened.gap_buf
  opened-Reach =
      let (same, sum) = open_receiver-counter (receiver_of rcfg gap_buf) sys in
      rw same gap_buf-Reach

-- When every system call that `open` needs succeeds, whatever recvmsg and the clock return after
-- that, with packets whose numbers stay below 2 ^ 64: the program ends with 0; its handler has
-- counted as many messages as the receiver has, modulo 2 ^ 64; its count of Add Orders is the
-- number of delivered bodies of type 'A' or 'F', modulo 2 ^ 64, where an empty body has the type that
-- the byte behind it in memory gives; and the messages carried consecutive numbers up to the one
-- before `next_expected`.
pub live_mode-counts :
    (memory : ℕ → ℕ) (rcfg : ReceiverConfig) (sys : Syscalls) (interval start_ns : ℕ)
    (spins : List Spin)
    → granted_all rcfg sys ≡ true
    → AllNoWrap spins
    → let (code, r, h) = live_mode memory rcfg sys interval start_ns spins in
      (code ≡ 0)
      × (h.total_messages ≡ u64 r.messages_delivered)
      × (h.add_orders ≡ u64 (tally b'A' b'F' memory (sent_bodies r.gap_buf.calls)))
      × EndsAt r.gap_buf.next_expected r.gap_buf.calls
unfolding live_mode run
live_mode-counts memory rcfg sys interval start_ns spins all fit =
    let done = (open_receiver-result rcfg gap_buf sys).0 ∙ all in
    let r = (run_from interval (opened rcfg sys, start_ns) spins).0 in
    let agrees =
      run_from-Agrees interval (opened rcfg sys) start_ns spins (opened-Agrees rcfg sys) in
    let reached =
      run_from-Reach interval (opened rcfg sys) start_ns spins fit (opened-Reach rcfg sys) in
    let (ends, counted, settled) = Reach-in_order gap_config r.gap_buf session_length reached in
    let k = handler_of-Counts memory r.gap_buf.calls in
    rw done (
      refl,
      omega (arith, k.every, length-sent_bodies r.gap_buf.calls, agrees, counted),
      k.adds,
      ends,
    )
