-- ===== src/Receiver.antt =====
-- MulticastReceiver of include/feed/receiver.hpp. What the system calls return is a parameter: a
-- call that the code tests for success has a Bool, and recvmsg has its own type of results.
pub mod Order
pub mod Open
pub mod Asks
pub mod Clocks
pub mod Calls
pub mod Stream
pub mod Whole
use udp_multicast_receiver.Common.{
  ℕ, ◌+◌, ◌*◌, Bool, true, false, not, ◌&&◌, Option, none, some, List, [], ◌∷◌, length, ltb, leb,
  ◌==◌, if◌then◌else◌, u64, sub64,
}
use udp_multicast_receiver.Gap.State.{GapBuffer}
use udp_multicast_receiver.Gap.Ingest.{ingest, tick}

pub record ReceiverConfig : Type 0 where
  pub multicast_group : List ℕ
  pub source_ip : List ℕ
  pub interface_name : List ℕ
  pub port : ℕ
  pub enable_software_timestamps : Bool
  pub enable_hw_timestamps : Bool
  pub reuse_port : Bool
  pub recv_buffer_bytes : ℕ

abbrev pub default_receiver : ReceiverConfig
default_receiver = record {
  multicast_group = b'2' ∷ b'3' ∷ b'9' ∷ b'.' ∷ b'1' ∷ b'.' ∷ b'1' ∷ b'.' ∷ b'1' ∷ [];
  source_ip = [];
  interface_name = b'l' ∷ b'o' ∷ [];
  port = 15001;
  enable_software_timestamps = true;
  enable_hw_timestamps = false;
  reuse_port = true;
  recv_buffer_bytes = 8 * 1024 * 1024;
}

-- `fd` is `none` for -1. `gap_buf` is the buffer that the receiver holds a reference to.
pub record MulticastReceiver : Type 0 where
  pub cfg : ReceiverConfig
  pub gap_buf : GapBuffer
  pub fd : Option ℕ
  pub recv_calls : ℕ
  pub messages_delivered : ℕ
  pub parse_errors : ℕ
  pub granted_recv_buffer_bytes : ℕ

abbrev pub receiver_of : ReceiverConfig → GapBuffer → MulticastReceiver
receiver_of cfg g = record {
  cfg = cfg;
  gap_buf = g;
  fd = none;
  recv_calls = 0;
  messages_delivered = 0;
  parse_errors = 0;
  granted_recv_buffer_bytes = 0;
}

-- The results of the system calls of `open`: the socket, which calls succeed, and the size that
-- getsockopt reports. IP_MULTICAST_LOOP and IP_MULTICAST_IF are not tested.
pub record Syscalls : Type 0 where
  pub socket : Option ℕ
  pub reuse_addr : Bool
  pub reuse_port : Bool
  pub rcvbuf_force : Bool
  pub rcvbuf : Bool
  pub granted : Option ℕ
  pub timestamping : Bool
  pub bind : Bool
  pub add_membership : Bool
  pub add_source_membership : Bool

unfoldable pub set_socket_options : MulticastReceiver → Syscalls → MulticastReceiver × Bool
set_socket_options r sys =
    if r.cfg.reuse_port && not (sys.reuse_addr && sys.reuse_port)
    then (r, false)
    else if not sys.rcvbuf_force && not sys.rcvbuf
    then (r, false)
    else elim sys.granted [
      | none ↦ (r, false)
      | some granted ↦
          let told = record r { granted_recv_buffer_bytes = granted } in
          if r.cfg.enable_software_timestamps && not sys.timestamping
          then (told, false)
          else (told, true)
    ]

unfoldable pub join_multicast : MulticastReceiver → Syscalls → Bool
join_multicast r sys =
    if length r.cfg.source_ip == 0 then sys.add_membership else sys.add_source_membership

unfoldable pub open_receiver : MulticastReceiver → Syscalls → MulticastReceiver × Bool
open_receiver r sys = elim sys.socket [
  | none ↦ (record r { fd = none }, false)
  | some fd ↦
      let (set, done) = set_socket_options (record r { fd = some fd }) sys in
      if not done
      then (set, false)
      else if not sys.bind
      then (set, false)
      else (set, join_multicast set sys)
]

unfoldable pub close_receiver : MulticastReceiver → MulticastReceiver
close_receiver r = record r { fd = none }

unfoldable pub is_open : MulticastReceiver → Bool
is_open r = elim r.fd [ none ↦ false | some fd ↦ true ]

unfoldable pub recv_buffer_shortfall : MulticastReceiver → Bool
recv_buffer_shortfall r = ltb r.granted_recv_buffer_bytes (2 * r.cfg.recv_buffer_bytes)

-- One cmsg: whether it is the SOL_SOCKET one of type SO_TIMESTAMPING, and ts[0] of its data.
pub record ControlMessage : Type 0 where
  pub timestamping : Bool
  pub tv_sec : ℕ
  pub tv_nsec : ℕ

-- A `timespec` in nanoseconds.
abbrev pub timespec_ns : ℕ → ℕ → ℕ
timespec_ns sec nsec = u64 (u64 (sec * 1_000_000_000) + nsec)

unfoldable pub extract_timestamp : List ControlMessage → ℕ
extract_timestamp [] = 0
extract_timestamp (cm ∷ cms) =
    let rest = extract_timestamp cms in
    if cm.timestamping && not ((cm.tv_sec == 0) && (cm.tv_nsec == 0))
    then timespec_ns cm.tv_sec cm.tv_nsec
    else rest

-- What recvmsg comes back with; EAGAIN and EWOULDBLOCK are `nothing_ready`.
pub data Received : Type 0 where
  nothing_ready socket_error : Received
  packet : List ℕ → List ControlMessage → Received

-- The result is `none` for -1. On a socket error it is the `false` of report_error, that is 0.
-- `monotonic` is what monotonic_ns() would read.
unfoldable pub recv_one : MulticastReceiver → Received → ℕ → MulticastReceiver × Option ℕ
recv_one r nothing_ready monotonic = (r, some 0)
recv_one r socket_error monotonic = (r, some 0)
recv_one r (packet payload control) monotonic =
    let sw_ns = extract_timestamp control in
    let ts_ns = if sw_ns == 0 then monotonic else sw_ns in
    let (g, delivered) = ingest r.gap_buf payload ts_ns in
    let called = record r { gap_buf = g; recv_calls = u64 (r.recv_calls + 1) } in
    (
      elim delivered [
        | none ↦ record called { parse_errors = u64 (r.parse_errors + 1) }
        | some n ↦ record called { messages_delivered = u64 (r.messages_delivered + n) }
      ],
      delivered,
    )

-- One round of `run` that finds `running` set: what recvmsg returns, and the two clock readings.
pub record Spin : Type 0 where
  pub received : Received
  pub monotonic : ℕ
  pub now : ℕ

-- The receiver and `last_tick` after a round.
unfoldable pub spin : ℕ → MulticastReceiver × ℕ → Spin → MulticastReceiver × ℕ
spin tick_interval_ns (r, last_tick) s =
    let got = (recv_one r s.received s.monotonic).0 in
    if leb tick_interval_ns (sub64 s.now last_tick)
    then (record got { gap_buf = tick got.gap_buf s.now }, s.now)
    else (got, last_tick)

-- The loop, for the rounds that find `running` set.
unfoldable pub run_from : ℕ → MulticastReceiver × ℕ → List Spin → MulticastReceiver × ℕ
run_from tick_interval_ns state [] = state
run_from tick_interval_ns state (s ∷ spins) =
    run_from tick_interval_ns (spin tick_interval_ns state s) spins

unfoldable pub run : MulticastReceiver → ℕ → ℕ → List Spin → MulticastReceiver
run r tick_interval_ns start_ns spins = (run_from tick_interval_ns (r, start_ns) spins).0
