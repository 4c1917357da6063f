-- ===== src/GenPcap/Packets.antt =====
-- The packets that tools/gen_pcap.cpp writes when it leaves no gap.
use udp_multicast_receiver.Common.{
  ℕ, zero, suc, ◌+◌, ◌*◌, ◌-◌, ◌^◌, ◌≤◌, ◌<◌, ◌≡◌, ◌∙◌, refl, sym, Bool, true, false, not, ◌&&◌,
  List, [], ◌∷◌, length, take, take-all, min, inl, inr, Bool-cases, ltb, ◌==◌, if◌then◌else◌, u16,
  u64, arith,
}
use udp_multicast_receiver.Pcap.{PcapWriter, write_packet}
use udp_multicast_receiver.Pcap.Replay.{Packets, write_all, Fit}
use udp_multicast_receiver.GenPcap.{
  Options, gen_packet, Generator, skip_gap, round_count, gen_round, gen_loop,
}
use udp_multicast_receiver.GenPcap.Orders.{length-gen_packet}

-- Without a gap, with 1 to 1722 messages in a packet.
pub record IsPlain (opt : Options) : Type 0 where
  pub no_gap : opt.gap_at ≡ 0
  pub some_messages : 1 ≤ opt.msgs_per_pkt
  pub few_messages : opt.msgs_per_pkt ≤ 1722
  pub count_fits : opt.count < 2 ^ 63

-- The messages of a round, and whether its packet is written twice.
abbrev pub batch : Options → ℕ → ℕ
batch opt written = min opt.msgs_per_pkt (opt.count - written)

abbrev pub twice : Options → ℕ → Bool
twice opt written = not (opt.dup_at == 0) && (written + 1) == opt.dup_at

-- The packets of the loop's rounds; `written + 1` is the next number.
unfoldable pub packets : ℕ → Options → ℕ → ℕ → Packets
packets zero opt written ts = []
packets (suc fuel) opt written ts =
    let n = batch opt written in
    let payload = gen_packet n (written + 1) in
    let dup = twice opt written in
    let rest =
      packets fuel opt (written + n)
        (if dup then ts + opt.rate_us + opt.rate_us else ts + opt.rate_us) in
    if ltb written opt.count
    then (ts, payload) ∷ (if dup then (ts + opt.rate_us, payload) ∷ rest else rest)
    else []

write_all_round :
    (dup : Bool) (w : PcapWriter) (ts later : ℕ) (payload : List ℕ) (rest : Packets)
    → write_all w ((ts, payload) ∷ (if dup then (later, payload) ∷ rest else rest))
      ≡ write_all
          (if dup
            then (write_packet (write_packet w ts payload).0 later payload).0
            else (write_packet w ts payload).0)
          rest
unfolding write_all
write_all_round true w ts later payload rest = refl
write_all_round false w ts later payload rest = refl

Fit-round :
    (dup : Bool) (later : ℕ) (payload : List ℕ) (rest : Packets)
    → length payload ≤ 65493
    → later < 4294967296000000
    → Fit rest
    → Fit (if dup then (later, payload) ∷ rest else rest)
Fit-round true later payload rest h time f = (h, time, f)
Fit-round false later payload rest h time f = f

module _ (opt : Options) (plain : IsPlain opt) where
  gen_round_plain :
      (w : PcapWriter) (written ts : ℕ)
      → written < opt.count
      → ts + opt.rate_us + opt.rate_us < 2 ^ 64
      → let n = batch opt written in
        let payload = gen_packet n (written + 1) in
        let dup = twice opt written in
        let once = (write_packet w ts payload).0 in
        gen_round opt (record { writer = w; seq = written + 1; ts_us = ts; msgs_written = written })
        ≡ record {
          writer = if dup then (write_packet once (ts + opt.rate_us) payload).0 else once;
          seq = written + n + 1;
          ts_us = if dup then ts + opt.rate_us + opt.rate_us else ts + opt.rate_us;
          msgs_written = written + n;
        }
  unfolding gen_round round_count skip_gap
  gen_round_plain w written ts more time =
      let n : ℕ = batch opt written in
      let count : u16 n ≡ n = omega (arith, plain.few_messages) in
      let size = length-gen_packet n (written + 1) in
      let short : u16 (length (gen_packet n (written + 1))) ≡ length (gen_packet n (written + 1)) =
        omega (arith, size, plain.few_messages) in
      let whole : take (length (gen_packet n (written + 1))) (gen_packet n (written + 1))
          ≡ gen_packet n (written + 1) =
        take-all (length (gen_packet n (written + 1))) (gen_packet n (written + 1)) (omega arith) in
      let seq' : u64 (written + 1 + n) ≡ written + n + 1 = omega (arith, plain.count_fits) in
      let done : u64 (written + n) ≡ written + n = omega (arith, plain.count_fits) in
      let later : u64 (ts + opt.rate_us) ≡ ts + opt.rate_us = omega arith in
      let last : u64 (ts + opt.rate_us + opt.rate_us) ≡ ts + opt.rate_us + opt.rate_us =
        omega arith in
      rw (plain.no_gap, count, short, whole, seq', done, later, last) refl

  loop_goes_on :
      (fuel : ℕ) (st t : Generator)
      → ltb st.msgs_written opt.count ≡ true
      → gen_round opt st ≡ t
      → gen_loop (suc fuel) opt st ≡ gen_loop fuel opt t
  unfolding gen_loop
  loop_goes_on fuel st t more e = rw (more, e) refl

  loop_stops :
      (fuel : ℕ) (st : Generator)
      → ltb st.msgs_written opt.count ≡ false
      → gen_loop fuel opt st ≡ st
  unfolding gen_loop
  loop_stops zero st done = refl
  loop_stops (suc fuel) st done = rw done refl

  pub packets_go_on :
      (fuel written ts : ℕ)
      → ltb written opt.count ≡ true
      → let payload = gen_packet (batch opt written) (written + 1) in
        let dup = twice opt written in
        let rest =
          packets fuel opt
            (written + batch opt written)
            (if dup then ts + opt.rate_us + opt.rate_us else ts + opt.rate_us) in
        packets (suc fuel) opt written ts
        ≡ (ts, payload) ∷ (if dup then (ts + opt.rate_us, payload) ∷ rest else rest)
  unfolding packets
  packets_go_on fuel written ts more = rw more refl

  pub packets_stop :
      (fuel written ts : ℕ) → ltb written opt.count ≡ false → packets fuel opt written ts ≡ []
  unfolding packets
  packets_stop zero written ts done = refl
  packets_stop (suc fuel) written ts done = rw done refl

  -- The loop writes those packets.
  pub gen_loop-write_all :
      (fuel : ℕ) (w : PcapWriter) (written ts : ℕ)
      → ts + 2 * (opt.rate_us * fuel) < 2 ^ 64
      → (gen_loop fuel opt
          (record { writer = w; seq = written + 1; ts_us = ts; msgs_written = written })).writer
        ≡ write_all w (packets fuel opt written ts)
  gen_loop-write_all zero w written ts time = unfold gen_loop packets write_all in refl
  gen_loop-write_all (suc fuel) w written ts time = elim (Bool-cases (ltb written opt.count)) [
    | inr done ↦
        rw
          (
            loop_stops (suc fuel)
                (record { writer = w; seq = written + 1; ts_us = ts; msgs_written = written }) done,
            packets_stop (suc fuel) written ts done,
          )
          (unfold write_all in refl)
    | inl more ↦
        let n : ℕ = batch opt written in
        let steps : opt.rate_us * suc fuel ≡ opt.rate_us + opt.rate_us * fuel = omega arith in
        let round = gen_round_plain w written ts (ground arith) (omega (arith, time, steps)) in
        let st : Generator = record {
          writer = w;
          seq = written + 1;
          ts_us = ts;
          msgs_written = written;
        } in
        rw (loop_goes_on fuel st _ more round, packets_go_on fuel written ts more)
          (gen_loop-write_all fuel _ (written + n) _ (ground (arith, time, steps))
            ∙ sym (
                write_all_round (twice opt written) w ts (ts + opt.rate_us)
                  (gen_packet n (written + 1)) _))
  ]

  -- The payloads and times of those packets fit a capture file.
  pub packets-Fit :
      (fuel written ts : ℕ)
      → ts + 2 * (opt.rate_us * fuel) < 4294967296000000
      → Fit (packets fuel opt written ts)
  packets-Fit zero written ts time = unfold packets in tt
  packets-Fit (suc fuel) written ts time = elim (Bool-cases (ltb written opt.count)) [
    | inr done ↦ rw (packets_stop (suc fuel) written ts done) tt
    | inl more ↦
        let n : ℕ = batch opt written in
        let steps : opt.rate_us * suc fuel ≡ opt.rate_us + opt.rate_us * fuel = omega arith in
        let small : length (gen_packet n (written + 1)) ≤ 65493 =
          omega (arith, length-gen_packet n (written + 1), plain.few_messages) in
        rw (packets_go_on fuel written ts more) (
          small,
          omega (arith, time),
          Fit-round (twice opt written) (ts + opt.rate_us) (gen_packet n (written + 1)) _ small
              (omega (arith, time, steps))
              (packets-Fit fuel (written + n) _ (ground (arith, time, steps))),
        )
  ]
