-- ===== src/Validate/Measured.antt =====
-- What tools/timestamp_validate.cpp records, against a list of its rounds.
use udp_multicast_receiver.Common.{
  ℕ, zero, suc, ◌+◌, ◌-◌, ◌≡◌, ◌∙◌, refl, ap, sym, subst, Bool, true, false, not, ◌&&◌, none, some,
  List, [], ◌∷◌, ◌++◌, append_assoc, append-nil, map, length, leb, ◌==◌, if◌then◌else◌, Bool-cases,
  inl, inr, arith,
}
use udp_multicast_receiver.Stats.Samples.{SampleRecorder, record_sample}
use udp_multicast_receiver.Validate.{
  StampMessage, RoundTrip, Validation, read_stamps, record_interval, record_trip, take_stamps,
  round_trip, measure_loop, no_measurements, SocketSetup, measure,
}

abbrev pub rounds_from : (ℕ → RoundTrip) → ℕ → ℕ → List RoundTrip
rounds_from trips zero i = []
rounds_from trips (suc n) i = trips i ∷ rounds_from trips n (i + 1)

abbrev pub keep : (RoundTrip → Bool) → List RoundTrip → List RoundTrip
keep test [] = []
keep test (x ∷ xs) = if test x then x ∷ keep test xs else keep test xs

-- The kernel's timestamp of a round; 0 if there was none.
abbrev pub kernel_ns : RoundTrip → ℕ
kernel_ns trip = (read_stamps trip.control 0 0).0

abbrev pub completed : RoundTrip → Bool
completed trip = trip.sent && trip.received

abbrev pub unstamped : RoundTrip → Bool
unstamped trip = completed trip && kernel_ns trip == 0

abbrev pub stamped : RoundTrip → Bool
stamped trip = completed trip && not (kernel_ns trip == 0)

abbrev pub after_send : RoundTrip → Bool
after_send trip = stamped trip && leb trip.t_send (kernel_ns trip)

abbrev pub before_read : RoundTrip → Bool
before_read trip = stamped trip && leb (kernel_ns trip) trip.t_read

abbrev pub transit : RoundTrip → ℕ
transit trip = kernel_ns trip - trip.t_send

abbrev pub wake_up : RoundTrip → ℕ
wake_up trip = trip.t_read - kernel_ns trip

-- The timestamp does not depend on the count of hardware timestamps.
read_stamps-kernel :
    (cms : List StampMessage) (t a b : ℕ) → (read_stamps cms t a).0 ≡ (read_stamps cms t b).0
unfolding read_stamps
read_stamps-kernel [] t a b = refl
read_stamps-kernel (cm ∷ cms) t a b = read_stamps-kernel cms _ _ _

abbrev interval : ℕ → ℕ → List ℕ
interval from to = if leb from to then (to - from) ∷ [] else []

record_interval-samples :
    (r : SampleRecorder) (from to : ℕ)
    → (record_interval r from to).samples ≡ r.samples ++ interval from to
unfolding record_interval record_sample
record_interval-samples r from to = elim (Bool-cases (leb from to)) [
  | inl e ↦ rw (e, record_interval) refl
  | inr e ↦ rw (e, record_interval) (sym (append-nil r.samples))
]

-- What a round adds to the recorders and to the count of missing timestamps.
abbrev added : RoundTrip → List ℕ × List ℕ × ℕ
added x =
    if not (completed x)
    then ([], [], 0)
    else if kernel_ns x == 0
    then ([], [], 1)
    else (interval x.t_send (kernel_ns x), interval (kernel_ns x) x.t_read, 0)

module _ (v : Validation) (x : RoundTrip) where
  abbrev Adds : Validation → Type 0
  Adds after =
      (after.send_to_kernel.samples ≡ v.send_to_kernel.samples ++ (added x).0)
      × (after.kernel_to_read.samples ≡ v.kernel_to_read.samples ++ (added x).1)
      × (after.missing_ts ≡ v.missing_ts + (added x).2)

  record_trip-Adds :
      (seen : ℕ)
      → completed x ≡ true
      → Adds (record_trip (record v { hw_ts_seen = seen }) x (kernel_ns x))
  unfolding record_trip
  record_trip-Adds seen c = elim (Bool-cases (kernel_ns x == 0)) [
    | inl e ↦
        rw (c, e, record_trip)
          (
            sym (append-nil v.send_to_kernel.samples),
            sym (append-nil v.kernel_to_read.samples),
            refl,
          )
    | inr e ↦
        rw (c, e, record_trip)
          (
            record_interval-samples v.send_to_kernel x.t_send (kernel_ns x),
            record_interval-samples v.kernel_to_read (kernel_ns x) x.t_read,
            omega arith,
          )
  ]

  idle-Adds : completed x ≡ false → Adds v
  idle-Adds c = rw c (
    sym (append-nil v.send_to_kernel.samples),
    sym (append-nil v.kernel_to_read.samples),
    omega arith,
  )

  round_trip-completed : completed x ≡ true → round_trip v x ≡ take_stamps v x
  unfolding round_trip
  round_trip-completed c = ground (arith, c)

  round_trip-idle : completed x ≡ false → round_trip v x ≡ v
  unfolding round_trip
  round_trip-idle c = ground (arith, c)

  take_stamps-Adds : completed x ≡ true → Adds (take_stamps v x)
  unfolding take_stamps
  take_stamps-Adds c =
      rw (read_stamps-kernel x.control 0 v.hw_ts_seen 0)
        (record_trip-Adds (read_stamps x.control 0 v.hw_ts_seen).1 c)

  round_trip-Adds : Adds (round_trip v x)
  round_trip-Adds = elim (Bool-cases (completed x)) [
    | inl c ↦ subst (λ w. Adds w) (sym (round_trip-completed c)) (take_stamps-Adds c)
    | inr c ↦ subst (λ w. Adds w) (sym (round_trip-idle c)) (idle-Adds c)
  ]

cons-if :
    (b : Bool) (f : RoundTrip → ℕ) (x : RoundTrip) (xs : List RoundTrip)
    → (if b then f x ∷ [] else []) ++ map f xs ≡ map f (if b then x ∷ xs else xs)
cons-if true f x xs = refl
cons-if false f x xs = refl

-- What a round adds stands before what the later rounds add.
added-kept :
    (x : RoundTrip) (xs : List RoundTrip)
    → ((added x).0 ++ map transit (keep after_send xs) ≡ map transit (keep after_send (x ∷ xs)))
      × ((added x).1 ++ map wake_up (keep before_read xs) ≡ map wake_up (keep before_read (x ∷ xs)))
      × ((added x).2 + length (keep unstamped xs) ≡ length (keep unstamped (x ∷ xs)))
added-kept x xs = elim (Bool-cases (completed x)) [
  | inr c ↦ rw c (refl, refl, omega arith)
  | inl c ↦ elim (Bool-cases (kernel_ns x == 0)) [
    | inl e ↦ rw (c, e) (refl, refl, omega arith)
    | inr e ↦
        rw (c, e)
          (
            cons-if (leb x.t_send (kernel_ns x)) transit x (keep after_send xs),
            cons-if (leb (kernel_ns x) x.t_read) wake_up x (keep before_read xs),
            omega arith,
          )
  ]
]

-- What a run over the rounds `xs` adds to what was there.
abbrev Tells : Validation → List RoundTrip → Validation → Type 0
Tells v xs after =
    (after.send_to_kernel.samples ≡ v.send_to_kernel.samples ++ map transit (keep after_send xs))
    × (after.kernel_to_read.samples ≡ v.kernel_to_read.samples ++ map wake_up (keep before_read xs))
    × (after.missing_ts ≡ v.missing_ts + length (keep unstamped xs))

pub measure_loop-Tells :
    (trips : ℕ → RoundTrip) (rounds i : ℕ) (v : Validation)
    → Tells v (rounds_from trips rounds i) (measure_loop trips rounds i v)
unfolding measure_loop
measure_loop-Tells trips zero i v = (
  sym (append-nil v.send_to_kernel.samples),
  sym (append-nil v.kernel_to_read.samples),
  omega arith,
)
measure_loop-Tells trips (suc rounds) i v =
    let x = trips i in
    let xs = rounds_from trips rounds (i + 1) in
    let (s, k, n) = measure_loop-Tells trips rounds (i + 1) (round_trip v x) in
    let (s1, k1, n1) = round_trip-Adds v x in
    let (s2, k2, n2) = added-kept x xs in
    (
      s
          ∙ ap (λ l. l ++ map transit (keep after_send xs)) s1
          ∙ append_assoc v.send_to_kernel.samples (added x).0 (map transit (keep after_send xs))
          ∙ ap (λ l. v.send_to_kernel.samples ++ l) s2,
      k
          ∙ ap (λ l. l ++ map wake_up (keep before_read xs)) k1
          ∙ append_assoc v.kernel_to_read.samples (added x).1 (map wake_up (keep before_read xs))
          ∙ ap (λ l. v.kernel_to_read.samples ++ l) k2,
      omega (arith, n, n1, n2),
    )

abbrev pub set_up : SocketSetup → Bool
set_up setup = setup.socket && (setup.bind && setup.timestamping)

-- Without one of the three calls that set the socket up, the program ends with an error. With them,
-- over any number of rounds: send_to_kernel holds `t_kernel - t_send` of exactly those rounds, in
-- order, in which sending and receiving succeed, a timestamp is found and it is not before
-- `t_send`; kernel_to_read holds `t_read - t_kernel` of those in which it is not after `t_read`;
-- and the count of missing timestamps is the number of completed rounds without one.
pub measure-samples :
    (setup : SocketSetup) (count : ℕ) (trips : ℕ → RoundTrip)
    → let v = measure_loop trips count 0 no_measurements in
      let xs = rounds_from trips count 0 in
      (measure setup count trips ≡ (if set_up setup then some v else none))
      × (v.send_to_kernel.samples ≡ map transit (keep after_send xs))
      × (v.kernel_to_read.samples ≡ map wake_up (keep before_read xs))
      × (v.missing_ts ≡ length (keep unstamped xs))
unfolding measure
measure-samples setup count trips =
    let (s, k, n) = measure_loop-Tells trips count 0 no_measurements in
    (ground arith, s, k, omega (arith, n))
