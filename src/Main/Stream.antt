-- ===== src/Main/Stream.antt =====
-- The live mode of src/main.cpp on a whole stream, in any order of arrival.
use udp_multicast_receiver.Common.{
  ℕ, ◌≡◌, ◌∙◌, refl, ap, sym, subst, true, List, ◌∷◌, ◌++◌, map, length, u64,
}
use udp_multicast_receiver.Gap.Inv.{IsValid}
use udp_multicast_receiver.Gap.Inv.Reach.{start-IsValid, Reach-IsValid}
use udp_multicast_receiver.Gap.Gather.{
  Chunk, past, In, Follows, all_bodies, IsHoldable, arrives, happen, happen_all, Near,
}
use udp_multicast_receiver.Gap.Gather.Events.{Delivered}
use udp_multicast_receiver.Receiver.{
  ReceiverConfig, receiver_of, Syscalls, ControlMessage, open_receiver, run_from, run,
  MulticastReceiver,
}
use udp_multicast_receiver.Receiver.Open.{granted_all, open_receiver-counter, open_receiver-result}
use udp_multicast_receiver.Receiver.Stream.{
  Round, carries, spin_of, time_of, events, run_from-events,
}
use udp_multicast_receiver.Receiver.Whole.{received, rounds, behind, events-whole}
use udp_multicast_receiver.Main.{gap_config, gap_buf, live_mode}
use udp_multicast_receiver.Main.Tally.{tally, handler_of-Counts}
use udp_multicast_receiver.Main.Replay.{gap_buf-IsFresh}
use udp_multicast_receiver.Main.Live.{gap_buf-Reach, session_length}

gap_buf-IsValid : IsValid gap_buf
gap_buf-IsValid = Reach-IsValid (start-IsValid gap_config session_length) gap_buf-Reach

-- The program's live mode, with each needed system call of open going well. Rounds that receive
-- nothing come first; then the first datagram of a stream, and then the others in any order, each
-- at least once and any number of times, the first one again too, with rounds in between that
-- receive nothing, and with the ticks that the clock gives. Each datagram is well formed with at
-- most 1500 bytes behind its header, and starts less than 4096 numbers above what the buffer waits
-- for. Then the program ends with 0; its buffer has delivered every message of the stream exactly
-- once and in order, and waits for the stream's end without a gap; and its handler has counted all
-- messages, and the Add Orders among them, modulo 2 ^ 64, where an empty message has the type that the
-- byte behind it in memory gives.
pub live_mode-whole :
    (memory : ℕ → ℕ) (rcfg : ReceiverConfig) (sys : Syscalls) (s : List ℕ)
    (interval start_ns end : ℕ) (nows : List ℕ) (p : Chunk) (control : List ControlMessage)
    (monotonic now : ℕ) (rs : List Round) (ps : List Chunk)
    → granted_all rcfg sys ≡ true
    → Follows (past p) ps end
    → ((x : Chunk) → In x (p ∷ ps) → IsHoldable s x)
    → Near s
        (p ∷ ps)
        (happen s gap_buf (arrives p (time_of control monotonic)))
        (behind interval start_ns nows now rs)
    → ((x : Chunk) → In x ps → received x.seq rs ≡ true)
    → let stream = p.bodies ++ all_bodies ps in
      let (code, r, h) =
        live_mode memory rcfg sys interval start_ns
          (map (spin_of s) (rounds nows (carries p control monotonic now) rs)) in
      (code ≡ 0)
      × Delivered r.gap_buf end stream
      × (h.total_messages ≡ u64 (length stream))
      × (h.add_orders ≡ u64 (tally b'A' b'F' memory stream))
unfolding live_mode run
live_mode-whole memory rcfg sys s interval start_ns end nows p control monotonic now rs ps all chain
      fits near every =
    let done = (open_receiver-result rcfg gap_buf sys).0 ∙ all in
    let opened : MulticastReceiver = (open_receiver (receiver_of rcfg gap_buf) sys).0 in
    let same : opened.gap_buf ≡ gap_buf =
      (open_receiver-counter (receiver_of rcfg gap_buf) sys).0 in
    let xs : List Round = rounds nows (carries p control monotonic now) rs in
    let ran : MulticastReceiver = (run_from interval (opened, start_ns) (map (spin_of s) xs)).0 in
    let at_end : ran.gap_buf ≡ happen_all s gap_buf (events interval start_ns xs) =
      run_from-events interval s opened start_ns xs
      ∙ ap (λ g. happen_all s g (events interval start_ns xs)) same in
    let whole : Delivered ran.gap_buf end (p.bodies ++ all_bodies ps) =
      subst (λ g. Delivered g end (p.bodies ++ all_bodies ps)) (sym at_end)
        (events-whole s interval start_ns end gap_buf nows p control monotonic now rs ps
          gap_buf-IsValid gap_buf-IsFresh chain fits near every) in
    let k = handler_of-Counts memory ran.gap_buf.calls in
    rw done (
      refl,
      whole,
      k.every ∙ ap (λ b. u64 (length b)) whole.bodies,
      k.adds ∙ ap (λ b. u64 (tally b'A' b'F' memory b)) whole.bodies,
    )
