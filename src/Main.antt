-- ===== src/Main.antt =====
-- The receiver program of src/main.cpp: its message handler, its buffer and its two modes. The
-- command line and the printing are left out.
pub mod Tally
pub mod Replay
pub mod Live
pub mod Stream
pub mod Command
use udp_multicast_receiver.Common.{
  ℕ, ◌+◌, Bool, true, false, List, [], ◌∷◌, length, replicate, if◌then◌else◌, u64,
}
use udp_multicast_receiver.Wire.Mold.{MoldMessage}
use udp_multicast_receiver.Wire.Itch.{
  ItchMsgType, add_order_no_mpid, add_order_mpid, order_executed, order_executed_price,
  order_delete, itch_type,
}
use udp_multicast_receiver.Gap.State.{
  GapBuffer, Config, default_config, init, set_on_message, set_on_gap, set_on_retransmit, Call,
  message, gap, retransmit,
}
use udp_multicast_receiver.Gap.Trace.{sent_bodies}
use udp_multicast_receiver.Pcap.{Reading, replay}
use udp_multicast_receiver.Receiver.{
  ReceiverConfig, MulticastReceiver, receiver_of, Syscalls, open_receiver, Spin, run,
}
use udp_multicast_receiver.Stats.{LatencyHistogram, no_samples}
use udp_multicast_receiver.Stats.Throughput.{ThroughputTracker, no_throughput}

pub record Handler : Type 0 where
  pub total_messages : ℕ
  pub add_orders : ℕ
  pub delete_orders : ℕ
  pub executions : ℕ
  pub latency : LatencyHistogram
  pub throughput : ThroughputTracker

abbrev pub no_messages : Handler
no_messages = record {
  total_messages = 0;
  add_orders = 0;
  delete_orders = 0;
  executions = 0;
  latency = no_samples;
  throughput = no_throughput;
}

-- The switch of `on_message`.
unfoldable pub count_type : Handler → ItchMsgType → Handler
count_type h add_order_no_mpid = record h { add_orders = u64 (h.add_orders + 1) }
count_type h add_order_mpid = record h { add_orders = u64 (h.add_orders + 1) }
count_type h order_delete = record h { delete_orders = u64 (h.delete_orders + 1) }
count_type h order_executed = record h { executions = u64 (h.executions + 1) }
count_type h order_executed_price = record h { executions = u64 (h.executions + 1) }
count_type h _ = h

-- `behind` is the byte behind the message, which is read as the type of an empty one.
unfoldable pub on_message : Handler → ℕ → MoldMessage → Handler
on_message h behind msg =
    count_type (record h { total_messages = u64 (h.total_messages + 1) })
      (itch_type behind msg.body)

-- The handler after the buffer's calls, the newest first. The callbacks run inside the buffer's
-- operations and do not write to it; those for gaps and requests only print. `memory n` is the byte
-- that lies behind the message handed over after n others.
unfoldable pub handler_of : (ℕ → ℕ) → List Call → Handler
handler_of memory [] = no_messages
handler_of memory (message m ∷ calls) =
    on_message (handler_of memory calls) (memory (length (sent_bodies calls))) m
handler_of memory (gap ev ∷ calls) = handler_of memory calls
handler_of memory (retransmit req ∷ calls) = handler_of memory calls

unfoldable pub gap_config : Config
gap_config = record default_config {
  gap_timeout_ns = 200_000;
  retry_interval_ns = 2_000_000;
  session = replicate 10 b' ';
}

unfoldable pub gap_buf : GapBuffer
gap_buf = set_on_retransmit (set_on_gap (set_on_message (init gap_config)))

-- The replay mode, for a capture file that could be opened: the reader's end and the handler's.
unfoldable pub replay_mode : (ℕ → ℕ) → ℕ → List ℕ → List ℕ → Reading × Handler
replay_mode memory port bytes frame_buf =
    let read = replay port bytes frame_buf gap_buf in (read, handler_of memory read.gap_buf.calls)

-- The live mode: the result of `main`, the receiver and the handler.
unfoldable pub live_mode :
    (ℕ → ℕ) → ReceiverConfig → Syscalls → ℕ → ℕ → List Spin → ℕ × MulticastReceiver × Handler
live_mode memory rcfg sys tick_interval_ns start_ns spins =
    let (opened, done) = open_receiver (receiver_of rcfg gap_buf) sys in
    let ran = run opened tick_interval_ns start_ns spins in
    if done
    then (0, ran, handler_of memory ran.gap_buf.calls)
    else (1, opened, handler_of memory opened.gap_buf.calls)
