-- ===== src/Bench/Delivery.antt =====
-- The workload of tools/tick_to_trade_bench.cpp, through the buffer and past it.
use udp_multicast_receiver.Common.{
  ℕ, suc, ◌+◌, ◌-◌, ◌^◌, ◌≤◌, ◌<◌, ◌≡◌, refl, ap, sym, Bool, not, ◌⊎◌, inl, inr, List, [], ◌∷◌,
  ◌++◌, append-nil, append_assoc, length, ltb, if◌then◌else◌, u64, sub64, arith,
}
use udp_multicast_receiver.Wire.Mold.{MoldMessage}
use udp_multicast_receiver.Gap.State.{GapBuffer, message, init, set_on_message}
use udp_multicast_receiver.Gap.Ingest.{ingest}
use udp_multicast_receiver.Gap.Flow.{
  Flowing, IsFresh, ingest-Flowing, ingest-calls, ingest_first-Flowing, ingest_first-calls,
}
use udp_multicast_receiver.Gap.Trace.{sent_bodies}
use udp_multicast_receiver.Stats.Samples.{record_sample}
use udp_multicast_receiver.Bench.{
  bench_session, mold_packet, Round, Workload, next_body, Pipeline, hear, hear_all, new_calls,
  BenchRun, bench_round, bench_loop, bench_start,
}
use udp_multicast_receiver.Bench.Packets.{
  length-next_body, one_body-IsDatagram, mold_packet-datagram_of,
}

-- The message that a round's packet carries.
abbrev pub message_of : ℕ → Round → List ℕ → MoldMessage
message_of seq r body = record { length = length body; body = body; seq_num = seq; recv_ns = r.t0 }

-- The bodies of the rounds.
unfoldable pub bodies_of : Workload → List Round → List (List ℕ)
bodies_of w [] = []
bodies_of w (r ∷ rounds) = let (body, after) = next_body w r in body ∷ bodies_of after rounds

-- The rounds with each message given to the books' callback at once, without a packet or the
-- buffer.
unfoldable pub direct : ℕ → ℕ → ℕ → Pipeline → Workload → List Round → Pipeline
direct warmup i seq p w [] = p
direct warmup i seq p w (r ∷ rounds) =
    let (body, after) = next_body w r in
    direct warmup (suc i) (seq + 1) (hear (not (ltb i warmup)) r.decided p (message_of seq r body))
      after rounds

-- A buffer that waits for `seq`, before its first packet or behind the bodies `sent`.
abbrev Ready : GapBuffer → ℕ → List (List ℕ) → Type 0
Ready g seq sent = (IsFresh g × (sent ≡ [])) ⊎ Flowing g seq sent

module _ (g : GapBuffer) (seq : ℕ) (sent : List (List ℕ)) (r : Round) (body : List ℕ)
    (small : length body ≤ 36) (fits : seq + 1 < 2 ^ 64) where
  packet_in :
      Ready g seq sent
      → Flowing
          (ingest g (mold_packet bench_session seq body) r.t0).0
          (seq + 1)
          (sent ++ (body ∷ []))
  packet_in ready =
      let d = one_body-IsDatagram seq body small fits in
      rw (mold_packet-datagram_of seq body small) (elim ready [
        | inl (fresh, e) ↦ rw e (ingest_first-Flowing g bench_session seq (body ∷ []) r.t0 fresh d)
        | inr flowing ↦ ingest-Flowing g bench_session seq (body ∷ []) r.t0 sent flowing d
      ])

  packet_calls :
      Ready g seq sent
      → (ingest g (mold_packet bench_session seq body) r.t0).0.calls
        ≡ message (message_of seq r body) ∷ g.calls
  packet_calls ready =
      let d = one_body-IsDatagram seq body small fits in
      rw (mold_packet-datagram_of seq body small) (elim ready [
        | inl (fresh, e) ↦ ingest_first-calls g bench_session seq (body ∷ []) r.t0 fresh d
        | inr flowing ↦ ingest-calls g bench_session seq (body ∷ []) r.t0 sent flowing d
      ])

one_call :
    (recording : Bool) (decided : ℕ) (p : Pipeline) (before after : GapBuffer) (m : MoldMessage)
    → after.calls ≡ message m ∷ before.calls
    → hear_all recording decided p (new_calls before after) ≡ hear recording decided p m
unfolding new_calls hear_all
one_call recording decided p before after m e =
    let one : suc (length before.calls) - length before.calls ≡ 1 = omega arith in rw (e, one) refl

-- A round, with the message given to the callback.
abbrev round_to : Bool → BenchRun → Round → BenchRun
round_to warming b r =
    let (body, workload) = next_body b.workload r in
    record {
      gap_buf = (ingest b.gap_buf (mold_packet bench_session b.seq body) r.t0).0;
      pipeline = hear (not warming) r.decided b.pipeline (message_of b.seq r body);
      workload = workload;
      per_msg = if warming then b.per_msg else record_sample b.per_msg (sub64 r.t1 r.t0);
      seq = b.seq + 1;
    }

bench_round-round_to :
    (warming : Bool) (b : BenchRun) (sent : List (List ℕ)) (r : Round)
    → Ready b.gap_buf b.seq sent
    → b.seq + 1 < 2 ^ 64
    → bench_round warming b r ≡ round_to warming b r
unfolding bench_round
bench_round-round_to warming b sent r ready fits =
    let body = (next_body b.workload r).0 in
    let calls =
      packet_calls b.gap_buf b.seq sent r body (length-next_body b.workload r) fits ready in
    let wraps : u64 (b.seq + 1) ≡ b.seq + 1 = omega arith in
    rw
      (
        one_call (not warming) r.decided b.pipeline b.gap_buf
            (ingest b.gap_buf (mold_packet bench_session b.seq body) r.t0).0
            (message_of b.seq r body) calls,
        wraps,
      )
      refl

loop_step :
    (warmup i : ℕ) (b next : BenchRun) (r : Round) (rounds : List Round)
    → bench_round (ltb i warmup) b r ≡ next
    → bench_loop warmup i b (r ∷ rounds) ≡ bench_loop warmup (suc i) next rounds
unfolding bench_loop
loop_step warmup i b next r rounds e = ap (λ k. bench_loop warmup (suc i) k rounds) e

loop_direct :
    (warmup i : ℕ) (b : BenchRun) (sent : List (List ℕ)) (rounds : List Round)
    → Ready b.gap_buf b.seq sent
    → b.seq + length rounds < 2 ^ 64
    → ((bench_loop warmup i b rounds).pipeline ≡ direct warmup i b.seq b.pipeline b.workload rounds)
      × Ready
          (bench_loop warmup i b rounds).gap_buf
          (b.seq + length rounds)
          (sent ++ bodies_of b.workload rounds)
unfolding direct bodies_of
loop_direct warmup i b sent [] ready fits =
    unfold bench_loop in
    let same : b.seq + 0 ≡ b.seq = omega arith in rw (same, append-nil sent) (refl, ready)
loop_direct warmup i b sent (r ∷ rounds) ready fits =
    let body = (next_body b.workload r).0 in
    let rest = bodies_of (next_body b.workload r).1 rounds in
    let next : BenchRun = round_to (ltb i warmup) b r in
    let flows =
      packet_in b.gap_buf b.seq sent r body (length-next_body b.workload r) (omega arith) ready in
    let more : b.seq + suc (length rounds) ≡ b.seq + 1 + length rounds = omega arith in
    rw
      (
        loop_step warmup i b next r rounds
            (bench_round-round_to (ltb i warmup) b sent r ready (omega arith)),
        more,
        sym (append_assoc sent (body ∷ []) rest),
      )
      (loop_direct warmup (suc i) next (sent ++ (body ∷ [])) rounds (inr flows) (omega arith))

bench_start-IsFresh : IsFresh bench_start.gap_buf
unfolding bench_start init set_on_message sent_bodies
bench_start-IsFresh = record {
  listening = refl;
  unsynced = refl;
  at_zero = refl;
  no_gap = refl;
  no_packet = λ i. refl;
  ends = tt;
  bodies = refl;
}

-- For fewer than 2 ^ 64 less 1 rounds, at least one, whatever is drawn and whatever the clock
-- reads: the books, the engine and the samples of the decisions end as if each message had been
-- given to the books' callback without a packet or a buffer, and the buffer has delivered the
-- bodies of all rounds once, in order, with nothing held back and no gap.
pub bench_loop-direct :
    (warmup : ℕ) (r : Round) (rounds : List Round)
    → length (r ∷ rounds) + 1 < 2 ^ 64
    → let end = bench_loop warmup 0 bench_start (r ∷ rounds) in
      (end.pipeline ≡ direct warmup 0 1 bench_start.pipeline bench_start.workload (r ∷ rounds))
      × Flowing end.gap_buf (1 + length (r ∷ rounds)) (bodies_of bench_start.workload (r ∷ rounds))
unfolding bench_start
bench_loop-direct warmup r rounds fits =
    let (same, ready) =
      loop_direct warmup 0 bench_start [] (r ∷ rounds) (inl (bench_start-IsFresh, refl))
        (omega arith) in
    (
      same,
      elim ready [
        | inl (fresh, e) ↦
            absurd (unfold bodies_of in omega (arith, ap (λ (xs : List (List ℕ)). length xs) e))
        | inr flowing ↦ flowing
      ],
    )
