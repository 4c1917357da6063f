-- ===== src/Validate.antt =====
-- tools/timestamp_validate.cpp: how the kernel's receive timestamps compare with the program's
-- clock. What the system calls return, the clocks and the control messages are parameters.
pub mod Measured
pub mod Clocks
use udp_multicast_receiver.Common.{
  ℕ, zero, suc, ◌+◌, ◌-◌, Bool, false, not, ◌&&◌, Option, none, some, List, [], ◌∷◌, leb, ◌==◌,
  if◌then◌else◌,
}
use udp_multicast_receiver.Stats.Samples.{SampleRecorder, record_sample}
use udp_multicast_receiver.Receiver.{ControlMessage, timespec_ns}

-- The answer of the ethtool ioctl: the two flags of `so_timestamping`.
pub record TsInfo : Type 0 where
  pub tx_hardware : Bool
  pub rx_hardware : Bool

-- `opened` is whether socket succeeds; the ioctl answers `none` on an error.
unfoldable pub interface_reports_hw_timestamping : Bool → Option TsInfo → Bool
interface_reports_hw_timestamping opened answer =
    if not opened
    then false
    else elim answer [ none ↦ false | some info ↦ info.tx_hardware && info.rx_hardware ]

-- A control message with tss[2] besides tss[0].
pub record StampMessage : Type 0 where
  pub software : ControlMessage
  pub hw_sec : ℕ
  pub hw_nsec : ℕ

-- One round trip: whether sendto and recvmsg succeed, the clock before and after, and what recvmsg
-- puts into the control buffer.
pub record RoundTrip : Type 0 where
  pub t_send : ℕ
  pub sent : Bool
  pub received : Bool
  pub t_read : ℕ
  pub control : List StampMessage

pub record Validation : Type 0 where
  pub send_to_kernel : SampleRecorder
  pub kernel_to_read : SampleRecorder
  pub missing_ts : ℕ
  pub hw_ts_seen : ℕ

-- `t_kernel` behind a control message.
unfoldable pub stamp_from : StampMessage → ℕ → ℕ
stamp_from cm t_kernel =
    let sw = cm.software in
    if sw.timestamping && not ((sw.tv_sec == 0) && (sw.tv_nsec == 0))
    then timespec_ns sw.tv_sec sw.tv_nsec
    else t_kernel

-- `hw_ts_seen` behind a control message.
unfoldable pub hw_seen_from : StampMessage → ℕ → ℕ
hw_seen_from cm hw_ts_seen =
    if cm.software.timestamping && not ((cm.hw_sec == 0) && (cm.hw_nsec == 0))
    then hw_ts_seen + 1
    else hw_ts_seen

-- The loop over the control messages, from `t_kernel` and `hw_ts_seen` on.
unfoldable pub read_stamps : List StampMessage → ℕ → ℕ → ℕ × ℕ
read_stamps [] t_kernel hw_ts_seen = (t_kernel, hw_ts_seen)
read_stamps (cm ∷ cms) t_kernel hw_ts_seen =
    read_stamps cms (stamp_from cm t_kernel) (hw_seen_from cm hw_ts_seen)

-- An interval is recorded if the clock did not run backwards.
unfoldable pub record_interval : SampleRecorder → ℕ → ℕ → SampleRecorder
record_interval r from to = if leb from to then record_sample r (to - from) else r

-- The end of the loop's body, behind the control messages.
unfoldable pub record_trip : Validation → RoundTrip → ℕ → Validation
record_trip v trip t_kernel =
    if t_kernel == 0 then record v { missing_ts = v.missing_ts + 1 } else record v {
      send_to_kernel = record_interval v.send_to_kernel trip.t_send t_kernel;
      kernel_to_read = record_interval v.kernel_to_read t_kernel trip.t_read;
    }

-- The body of the loop behind recvmsg.
unfoldable pub take_stamps : Validation → RoundTrip → Validation
take_stamps v trip =
    let (t_kernel, seen) = read_stamps trip.control 0 v.hw_ts_seen in
    record_trip (record v { hw_ts_seen = seen }) trip t_kernel

unfoldable pub round_trip : Validation → RoundTrip → Validation
round_trip v trip = if not trip.sent then v else if not trip.received then v else take_stamps v trip

-- The rounds from `i` on, `rounds` of them.
unfoldable pub measure_loop : (ℕ → RoundTrip) → ℕ → ℕ → Validation → Validation
measure_loop trips zero i v = v
measure_loop trips (suc rounds) i v = measure_loop trips rounds (i + 1) (round_trip v (trips i))

abbrev pub no_measurements : Validation
no_measurements = record {
  send_to_kernel = record { samples = [] };
  kernel_to_read = record { samples = [] };
  missing_ts = 0;
  hw_ts_seen = 0;
}

-- Which of the calls that set the socket up succeed.
pub record SocketSetup : Type 0 where
  pub socket : Bool
  pub bind : Bool
  pub timestamping : Bool

-- `none` where main returns 1.
unfoldable pub measure : SocketSetup → ℕ → (ℕ → RoundTrip) → Option Validation
measure setup count trips =
    if not setup.socket
    then none
    else if not setup.bind
    then none
    else if not setup.timestamping
    then none
    else some (measure_loop trips count 0 no_measurements)
