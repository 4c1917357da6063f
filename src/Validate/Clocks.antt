-- ===== src/Validate/Clocks.antt =====
-- Rounds of tools/timestamp_validate.cpp whose clocks run forwards, and the timestamp that they
-- read.
use udp_multicast_receiver.Common.{
  ℕ, zero, suc, ◌+◌, ◌-◌, ◌≤◌, ◌≡◌, ◌∙◌, refl, ap, sym, Bool, true, false, not, ◌&&◌, List, [], ◌∷◌,
  map, length, leb, ◌==◌, if◌then◌else◌, Bool-cases, inl, inr, arith,
}
use udp_multicast_receiver.Receiver.{timespec_ns, extract_timestamp}
use udp_multicast_receiver.Validate.{
  StampMessage, RoundTrip, stamp_from, hw_seen_from, read_stamps, measure_loop, no_measurements,
}
use udp_multicast_receiver.Validate.Measured.{
  rounds_from, keep, kernel_ns, completed, unstamped, stamped, after_send, before_read, transit,
  wake_up, measure_loop-Tells,
}

abbrev pub total : List ℕ → ℕ
total [] = 0
total (x ∷ xs) = x + total xs

abbrev pub idle : RoundTrip → Bool
idle x = not (completed x)

abbrev pub whole : RoundTrip → ℕ
whole x = x.t_read - x.t_send

-- The clock does not run backwards in a round that has a timestamp.
abbrev pub RunsForward : RoundTrip → Type 0
RunsForward x = stamped x ≡ true → (x.t_send ≤ kernel_ns x) × (kernel_ns x ≤ x.t_read)

forward-lem :
    (trips : ℕ → RoundTrip) (n i : ℕ)
    → ((j : ℕ) → RunsForward (trips j))
    → let xs = rounds_from trips n i in
      (length (map transit (keep after_send xs)) ≡ length (keep stamped xs))
      × (length (map wake_up (keep before_read xs)) ≡ length (keep stamped xs))
      × (length (keep stamped xs) + length (keep unstamped xs) + length (keep idle xs) ≡ n)
      × (total (map transit (keep after_send xs)) + total (map wake_up (keep before_read xs))
          ≡ total (map whole (keep stamped xs)))
forward-lem trips zero i f = (refl, refl, refl, refl)
forward-lem trips (suc n) i f =
    let x = trips i in
    let (a, b, c, d) = forward-lem trips n (i + 1) f in
    elim (Bool-cases (completed x)) [
      | inr u ↦ rw u (a, b, omega (arith, c), d)
      | inl u ↦ elim (Bool-cases (kernel_ns x == 0)) [
        | inl e ↦ rw (u, e) (a, b, omega (arith, c), d)
        | inr e ↦
            let (low, high) = f i (rw (u, e) refl) in
            let l : leb x.t_send (kernel_ns x) ≡ true = ground (arith, low) in
            let h : leb (kernel_ns x) x.t_read ≡ true = ground (arith, high) in
            rw (u, e, l, h) (ap suc a, ap suc b, omega (arith, c), omega (arith, d, low, high))
      ]
    ]

-- Over any number of rounds in which the clocks do not run backwards: each round is counted once,
-- as a sample of both recorders, as one without a timestamp, or as one whose sending or receiving
-- failed; and the two recorders' samples add up to the time between sending and reading, over the
-- rounds that have a timestamp.
pub measure_loop-split :
    (trips : ℕ → RoundTrip) (count : ℕ)
    → ((i : ℕ) → RunsForward (trips i))
    → let v = measure_loop trips count 0 no_measurements in
      let xs = rounds_from trips count 0 in
      (length v.send_to_kernel.samples ≡ length v.kernel_to_read.samples)
      × (length v.send_to_kernel.samples + v.missing_ts + length (keep idle xs) ≡ count)
      × (total v.send_to_kernel.samples + total v.kernel_to_read.samples
          ≡ total (map whole (keep stamped xs)))
measure_loop-split trips count f =
    let (s, k, n) = measure_loop-Tells trips count 0 no_measurements in
    let (a, b, c, d) = forward-lem trips count 0 f in
    rw (s, k, n) (a ∙ sym b, omega (arith, a, c), d)

-- A control message from which a software timestamp is taken.
abbrev pub usable : StampMessage → Bool
usable cm =
    cm.software.timestamping && not ((cm.software.tv_sec == 0) && (cm.software.tv_nsec == 0))

abbrev pub usable_count : List StampMessage → ℕ
usable_count [] = 0
usable_count (cm ∷ cms) = if usable cm then suc (usable_count cms) else usable_count cms

stamp_from-usable :
    (cm : StampMessage) (t : ℕ)
    → usable cm ≡ true
    → stamp_from cm t ≡ timespec_ns cm.software.tv_sec cm.software.tv_nsec
unfolding stamp_from
stamp_from-usable cm t u = rw u refl

stamp_from-useless : (cm : StampMessage) (t : ℕ) → usable cm ≡ false → stamp_from cm t ≡ t
unfolding stamp_from
stamp_from-useless cm t u = rw u refl

read_stamps-none :
    (cms : List StampMessage) (t seen : ℕ) → usable_count cms ≡ 0 → (read_stamps cms t seen).0 ≡ t
unfolding read_stamps
read_stamps-none [] t seen e = refl
read_stamps-none (cm ∷ cms) t seen e = elim (Bool-cases (usable cm)) [
  | inl u ↦ absurd (omega (arith, rw u at e))
  | inr u ↦
      ap (λ k. (read_stamps cms k (hw_seen_from cm seen)).0) (stamp_from-useless cm t u)
      ∙ (read_stamps-none cms t (hw_seen_from cm seen) (rw u at e))
]

-- When at most one control message of a packet has a software timestamp, this tool measures with
-- the timestamp that MulticastReceiver::extract_timestamp takes from the same messages, or with 0
-- where that finds none. (With two of them the receiver takes the first and this tool the last.)
pub read_stamps-receiver :
    (cms : List StampMessage) (seen : ℕ)
    → usable_count cms ≤ 1
    → (read_stamps cms 0 seen).0 ≡ extract_timestamp (map (λ cm. cm.software) cms)
unfolding read_stamps extract_timestamp
read_stamps-receiver [] seen e = refl
read_stamps-receiver (cm ∷ cms) seen e = elim (Bool-cases (usable cm)) [
  | inl u ↦
      let k : suc (usable_count cms) ≤ 1 = rw u at e in
      read_stamps-none cms (stamp_from cm 0) (hw_seen_from cm seen) (omega (arith, k))
      ∙ stamp_from-usable cm 0 u
      ∙ (rw u refl)
  | inr u ↦
      ap (λ k. (read_stamps cms k (hw_seen_from cm seen)).0) (stamp_from-useless cm 0 u)
      ∙ read_stamps-receiver cms (hw_seen_from cm seen) (rw u at e)
      ∙ (rw u refl)
]
