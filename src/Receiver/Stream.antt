-- ===== src/Receiver/Stream.antt =====
-- A stream of datagrams that the loop of MulticastReceiver::run receives
-- (include/feed/receiver.hpp).
use udp_multicast_receiver.Common.{
  ℕ, ◌≡◌, ◌∙◌, refl, ap, sym, inl, inr, Bool, true, false, List, [], ◌∷◌, map, leb, ◌==◌,
  if◌then◌else◌, sub64, Bool-cases, arith,
}
use udp_multicast_receiver.Gap.State.{GapBuffer}
use udp_multicast_receiver.Gap.Ingest.{ingest, tick}
use udp_multicast_receiver.Gap.Framing.{datagram_of}
use udp_multicast_receiver.Gap.Gather.{Chunk, Event, arrives, ticks, happen, happen_all}
use udp_multicast_receiver.Receiver.{
  MulticastReceiver, ControlMessage, extract_timestamp, nothing_ready, packet, recv_one, Spin, spin,
  run_from,
}

-- What a round finds on the network: nothing, or a datagram with its control messages.
pub data Round : Type 0 where
  quiet : ℕ → Round
  carries : Chunk → List ControlMessage → ℕ → ℕ → Round

abbrev pub spin_of : List ℕ → Round → Spin
spin_of s (quiet now) = record { received = nothing_ready; monotonic = now; now = now }
spin_of s (carries p control monotonic now) = record {
  received = packet (datagram_of s p.seq p.bodies) control;
  monotonic = monotonic;
  now = now;
}

-- The time that the packet is given.
abbrev pub time_of : List ControlMessage → ℕ → ℕ
time_of control monotonic =
    if extract_timestamp control == 0 then monotonic else extract_timestamp control

module _ (interval : ℕ) where
  abbrev pub due : ℕ → ℕ → Bool
  due last now = leb interval (sub64 now last)

  abbrev pub with_tick : ℕ → ℕ → List Event → List Event
  with_tick last now es = if due last now then ticks now ∷ es else es

  abbrev pub last_tick : ℕ → ℕ → ℕ
  last_tick last now = if due last now then now else last

  -- What the rounds do to the buffer.
  abbrev pub events : ℕ → List Round → List Event
  events last [] = []
  events last (quiet now ∷ rs) = with_tick last now (events (last_tick last now) rs)
  events last (carries p control monotonic now ∷ rs) =
      arrives p (time_of control monotonic) ∷ with_tick last now (events (last_tick last now) rs)

  module _ (s : List ℕ) where
    recv_one-gap_buf :
        (r : MulticastReceiver) (p : Chunk) (control : List ControlMessage) (monotonic : ℕ)
        → (recv_one r (packet (datagram_of s p.seq p.bodies) control) monotonic).0.gap_buf
          ≡ (ingest r.gap_buf (datagram_of s p.seq p.bodies) (time_of control monotonic)).0
    unfolding recv_one
    recv_one-gap_buf r p control monotonic = ground arith

    spin-due :
        (r : MulticastReceiver) (last : ℕ) (x : Spin)
        → due last x.now ≡ true
        → let got = (recv_one r x.received x.monotonic).0 in
          spin interval (r, last) x ≡ (record got { gap_buf = tick got.gap_buf x.now }, x.now)
    unfolding spin
    spin-due r last x e = rw e refl

    spin-rests :
        (r : MulticastReceiver) (last : ℕ) (x : Spin)
        → due last x.now ≡ false
        → spin interval (r, last) x ≡ ((recv_one r x.received x.monotonic).0, last)
    unfolding spin
    spin-rests r last x e = rw e refl

    -- What a round's datagram does.
    abbrev brought : Round → GapBuffer → GapBuffer
    brought (quiet now) g = g
    brought (carries p control monotonic now) g = happen s g (arrives p (time_of control monotonic))

    abbrev at_time : Round → ℕ
    at_time (quiet now) = now
    at_time (carries p control monotonic now) = now

    brought-lem :
        (r : MulticastReceiver) (x : Round)
        → (recv_one r (spin_of s x).received (spin_of s x).monotonic).0.gap_buf
          ≡ brought x r.gap_buf
    unfolding recv_one happen
    brought-lem r (quiet now) = refl
    brought-lem r (carries p control monotonic now) = recv_one-gap_buf r p control monotonic

    events-brought :
        (g : GapBuffer) (last : ℕ) (x : Round) (rs : List Round)
        → happen_all s g (events last (x ∷ rs))
          ≡ happen_all s
              (brought x g)
              (with_tick last (at_time x) (events (last_tick last (at_time x)) rs))
    unfolding happen_all
    events-brought g last (quiet now) rs = refl
    events-brought g last (carries p control monotonic now) rs = refl

    with_tick-due :
        (g : GapBuffer) (last now : ℕ) (rs : List Round)
        → due last now ≡ true
        → happen_all s g (with_tick last now (events (last_tick last now) rs))
          ≡ happen_all s (tick g now) (events now rs)
    unfolding happen_all happen
    with_tick-due g last now rs e = rw e refl

    with_tick-rests :
        (g : GapBuffer) (last now : ℕ) (rs : List Round)
        → due last now ≡ false
        → happen_all s g (with_tick last now (events (last_tick last now) rs))
          ≡ happen_all s g (events last rs)
    with_tick-rests g last now rs e = rw e refl

    now_lem : (x : Round) → (spin_of s x).now ≡ at_time x
    now_lem (quiet now) = refl
    now_lem (carries p control monotonic now) = refl

    pub run_from-events :
        (r : MulticastReceiver) (last : ℕ) (rs : List Round)
        → (run_from interval (r, last) (map (spin_of s) rs)).0.gap_buf
          ≡ happen_all s r.gap_buf (events last rs)
    unfolding run_from happen_all happen
    run_from-events r last [] = refl
    run_from-events r last (x ∷ rs) =
        let sp : Spin = spin_of s x in
        let now : ℕ = at_time x in
        let same : sp.now ≡ now = now_lem x in
        let got : MulticastReceiver = (recv_one r sp.received sp.monotonic).0 in
        elim (Bool-cases (due last now)) [
          | inl e ↦
              ap
                (λ (st : MulticastReceiver × ℕ).
                  (run_from interval st (map (spin_of s) rs)).0.gap_buf)
                (spin-due r last sp (rw same e))
              ∙ run_from-events (record got { gap_buf = tick got.gap_buf sp.now }) sp.now rs
              ∙ ap (λ k. happen_all s (tick got.gap_buf k) (events k rs)) same
              ∙ ap (λ g. happen_all s (tick g now) (events now rs)) (brought-lem r x)
              ∙ sym (with_tick-due (brought x r.gap_buf) last now rs e)
              ∙ sym (events-brought r.gap_buf last x rs)
          | inr e ↦
              ap
                (λ (st : MulticastReceiver × ℕ).
                  (run_from interval st (map (spin_of s) rs)).0.gap_buf)
                (spin-rests r last sp (rw same e))
              ∙ run_from-events got last rs
              ∙ ap (λ g. happen_all s g (events last rs)) (brought-lem r x)
              ∙ sym (with_tick-rests (brought x r.gap_buf) last now rs e)
              ∙ sym (events-brought r.gap_buf last x rs)
        ]
