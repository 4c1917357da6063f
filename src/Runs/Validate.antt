-- ===== src/Runs/Validate.antt =====
-- Concrete rounds of tools/timestamp_validate.cpp.
use udp_multicast_receiver.Common.{
  ℕ, ◌+◌, ◌≡◌, true, some, [], ◌∷◌, map, length, ◌*◌, ◌==◌, if◌then◌else◌, arith,
}
use udp_multicast_receiver.Receiver.{extract_timestamp}
use udp_multicast_receiver.Validate.{
  StampMessage, RoundTrip, SocketSetup, no_measurements, read_stamps, stamp_from, measure_loop,
  measure,
}
use udp_multicast_receiver.Validate.Measured.{
  rounds_from, keep, unstamped, stamped, after_send, before_read, transit, wake_up, measure-samples,
}
use udp_multicast_receiver.Validate.Clocks.{
  total, idle, whole, RunsForward, measure_loop-split, read_stamps-receiver,
}

abbrev stamp : ℕ → StampMessage
stamp nsec = record {
  software = record { timestamping = true; tv_sec = 0; tv_nsec = nsec };
  hw_sec = 0;
  hw_nsec = 0;
}

-- The kernel stamps 5 ns after the send, and the program reads 20 ns after it; round 3 has no
-- stamp.
abbrev trip_at : ℕ → RoundTrip
trip_at i = record {
  t_send = 100 * i + 1;
  sent = true;
  received = true;
  t_read = 100 * i + 26;
  control = if i == 3 then [] else stamp (100 * i + 6) ∷ [];
}

abbrev working : SocketSetup
working = record { socket = true; bind = true; timestamping = true }

measure-samples_example :
    let v = measure_loop trip_at 5 0 no_measurements in
    let xs = rounds_from trip_at 5 0 in
    (measure working 5 trip_at ≡ some v)
    × (v.send_to_kernel.samples ≡ map transit (keep after_send xs))
    × (v.kernel_to_read.samples ≡ map wake_up (keep before_read xs))
    × (v.missing_ts ≡ length (keep unstamped xs))
measure-samples_example = measure-samples working 5 trip_at

-- One round trip again and again.
abbrev trip : RoundTrip
trip = record { t_send = 1; sent = true; received = true; t_read = 26; control = stamp 6 ∷ [] }

trip-RunsForward : RunsForward trip
unfolding read_stamps stamp_from
trip-RunsForward e = (omega arith, omega arith)

measure_loop-split_example :
    let v = measure_loop (λ i. trip) 4 0 no_measurements in
    let xs = rounds_from (λ i. trip) 4 0 in
    (length v.send_to_kernel.samples ≡ length v.kernel_to_read.samples)
    × (length v.send_to_kernel.samples + v.missing_ts + length (keep idle xs) ≡ 4)
    × (total v.send_to_kernel.samples + total v.kernel_to_read.samples
        ≡ total (map whole (keep stamped xs)))
measure_loop-split_example = measure_loop-split (λ i. trip) 4 (λ i. trip-RunsForward)

read_stamps-receiver_example :
    (read_stamps (stamp 6 ∷ []) 0 0).0 ≡ extract_timestamp (map (λ cm. cm.software) (stamp 6 ∷ []))
read_stamps-receiver_example = read_stamps-receiver (stamp 6 ∷ []) 0 (omega arith)
