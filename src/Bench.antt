-- ===== src/Bench.antt =====
-- The pipeline and the workload of tools/tick_to_trade_bench.cpp. The random draws and the clock
-- readings are parameters; the command line and the printing are left out.
pub mod Packets
pub mod Delivery
use udp_multicast_receiver.Common.{
  ℕ, zero, suc, ◌+◌, ◌-◌, ◌*◌, ◌/◌, ◌%◌, Bool, true, false, not, ◌||◌, Option, none, some, List, [],
  ◌∷◌, ◌++◌, length, take, drop, replicate, get_or, ltb, leb, ◌==◌, if◌then◌else◌, u16, u32, u64,
  sub32, sub64,
}
use udp_multicast_receiver.Wire.Endian.{put_be16, put_be32, put_be64}
use udp_multicast_receiver.Wire.Mold.{MoldHeader, MoldMessage, serialise}
use udp_multicast_receiver.Gap.State.{
  GapBuffer, default_config, init, set_on_message, Call, message, gap, retransmit,
}
use udp_multicast_receiver.Gap.Ingest.{ingest}
use udp_multicast_receiver.Book.Multi.{MultiSymbolBook, TopChange, no_books, ingest_message}
use udp_multicast_receiver.Decision.{
  Decision, DecisionEngine, default_quotes, engine_of, set_on_decision, on_top_of_book,
}
use udp_multicast_receiver.Stats.Samples.{SampleRecorder, record_sample}

-- "T2TBENCH  "
abbrev pub bench_session : List ℕ
bench_session = b'T' ∷ b'2' ∷ b'T' ∷ b'B' ∷ b'E' ∷ b'N' ∷ b'C' ∷ b'H' ∷ b' ' ∷ b' ' ∷ []

unfoldable pub mold_packet : List ℕ → ℕ → List ℕ → List ℕ
mold_packet session seq body =
    serialise (record { session = session; seq_num = seq; msg_count = 1 })
    ++ (put_be16 (u16 (length body)) ++ body)

unfoldable pub make_add : ℕ → ℕ → ℕ → List ℕ → ℕ → List ℕ
make_add order_ref side shares stock8 price =
    b'A'
    ∷ (replicate 10 0
        ++ (put_be64 order_ref ++ (side ∷ (put_be32 shares ++ (take 8 stock8 ++ put_be32 price)))))

unfoldable pub make_cancel : ℕ → ℕ → List ℕ
make_cancel order_ref cancelled_shares =
    b'X' ∷ (replicate 10 0 ++ (put_be64 order_ref ++ put_be32 cancelled_shares))

unfoldable pub make_delete : ℕ → List ℕ
make_delete order_ref = b'D' ∷ (replicate 10 0 ++ put_be64 order_ref)

unfoldable pub pad_symbol : List ℕ → List ℕ
pad_symbol s = s ++ replicate (8 - length s) b' '

-- The decimal digits of a `uint32_t`; ten are enough.
unfoldable pub to_string : ℕ → ℕ → List ℕ
to_string zero i = []
to_string (suc digits) i =
    let front = to_string digits (i / 10) in
    if ltb i 10 then (b'0' + i) ∷ [] else front ++ ((b'0' + i % 10) ∷ [])

unfoldable pub symbol_name : ℕ → List ℕ
symbol_name i = pad_symbol (b'S' ∷ b'Y' ∷ b'M' ∷ to_string 10 i)

-- What the generator and the clock give in one round: the draws, the readings `t0` and `t1`, and
-- the reading behind a decision.
pub record Round : Type 0 where
  pub sym_idx : ℕ
  pub op : ℕ
  pub price_jitter : ℕ
  pub pick : ℕ
  pub t0 : ℕ
  pub decided : ℕ
  pub t1 : ℕ

-- The orders that rest, and the next reference.
pub record Workload : Type 0 where
  pub live_orders : List ℕ
  pub next_order_ref : ℕ

-- The message of a round.
unfoldable pub next_body : Workload → Round → List ℕ × Workload
next_body w r =
    let mid = u32 (1_000_000 + r.sym_idx * 50_000) in
    let side = if r.op % 2 == 0 then b'B' else b'S' in
    let half_spread = u32 ((150 + r.price_jitter) * 100) in
    let price = if side == b'B' then sub32 mid half_spread else u32 (mid + half_spread) in
    let idx = r.pick % length w.live_orders in
    let ref = get_or w.live_orders idx 0 in
    if leb r.op 5 || length w.live_orders == 0
    then (
      make_add w.next_order_ref side 100 (symbol_name r.sym_idx) price,
      record {
        live_orders = w.live_orders ++ (w.next_order_ref ∷ []);
        next_order_ref = u64 (w.next_order_ref + 1);
      },
    )
    else if leb r.op 7
    then (make_cancel ref 30, w)
    else (
      make_delete ref,
      record w { live_orders = take idx w.live_orders ++ drop (suc idx) w.live_orders },
    )

-- What the callbacks write to.
pub record Pipeline : Type 0 where
  pub book : MultiSymbolBook
  pub engine : DecisionEngine
  pub per_decision : SampleRecorder

-- The callback of the engine.
unfoldable pub on_decision : Bool → SampleRecorder → Option Decision → SampleRecorder
on_decision recording samples none = samples
on_decision recording samples (some d) =
    if recording then record_sample samples (sub64 d.decided_ns d.recv_ns) else samples

-- The callback of the books.
unfoldable pub on_top_change : Bool → ℕ → Pipeline → Option TopChange → Pipeline
on_top_change recording decided p none = p
on_top_change recording decided p (some c) =
    let (engine, decision) = on_top_of_book p.engine c.symbol c.top c.recv_ns decided in
    record p { engine = engine; per_decision = on_decision recording p.per_decision decision }

-- The callback of the buffer.
unfoldable pub hear : Bool → ℕ → Pipeline → MoldMessage → Pipeline
hear recording decided p m =
    let r = ingest_message p.book m in
    on_top_change recording decided (record p { book = r.0.0 }) r.0.1

-- The calls that one `ingest` makes, the newest first.
unfoldable pub hear_all : Bool → ℕ → Pipeline → List Call → Pipeline
hear_all recording decided p [] = p
hear_all recording decided p (message m ∷ calls) =
    hear recording decided (hear_all recording decided p calls) m
hear_all recording decided p (gap ev ∷ calls) = hear_all recording decided p calls
hear_all recording decided p (retransmit req ∷ calls) = hear_all recording decided p calls

unfoldable pub new_calls : GapBuffer → GapBuffer → List Call
new_calls before after = take (length after.calls - length before.calls) after.calls

pub record BenchRun : Type 0 where
  pub gap_buf : GapBuffer
  pub pipeline : Pipeline
  pub workload : Workload
  pub per_msg : SampleRecorder
  pub seq : ℕ

unfoldable pub bench_round : Bool → BenchRun → Round → BenchRun
bench_round warming b r =
    let (body, workload) = next_body b.workload r in
    let pkt = mold_packet bench_session b.seq body in
    let g = (ingest b.gap_buf pkt r.t0).0 in
    record {
      gap_buf = g;
      pipeline = hear_all (not warming) r.decided b.pipeline (new_calls b.gap_buf g);
      workload = workload;
      per_msg = if warming then b.per_msg else record_sample b.per_msg (sub64 r.t1 r.t0);
      seq = u64 (b.seq + 1);
    }

-- The loop; `i` counts the rounds, one for each element.
unfoldable pub bench_loop : ℕ → ℕ → BenchRun → List Round → BenchRun
bench_loop warmup i b [] = b
bench_loop warmup i b (r ∷ rounds) =
    bench_loop warmup (suc i) (bench_round (ltb i warmup) b r) rounds

unfoldable pub bench_start : BenchRun
bench_start = record {
  gap_buf = set_on_message (init (record default_config { session = bench_session }));
  pipeline = record {
    book = record no_books { on_top_change = true };
    engine = set_on_decision (engine_of default_quotes);
    per_decision = record { samples = [] };
  };
  workload = record { live_orders = []; next_order_ref = 1 };
  per_msg = record { samples = [] };
  seq = 1;
}
