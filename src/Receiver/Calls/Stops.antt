-- ===== src/Receiver/Calls/Stops.antt =====
-- Where the system calls of MulticastReceiver::open (include/feed/receiver.hpp) stop.
use udp_multicast_receiver.Common.{
  ℕ, ◌≡◌, ◌∙◌, refl, sym, subst, Bool, true, ◌||◌, List, [], ◌∷◌, length, ◌==◌, Bool-cases, inl,
  inr, arith,
}
use udp_multicast_receiver.Gap.State.{GapBuffer}
use udp_multicast_receiver.Receiver.{ReceiverConfig, receiver_of, Syscalls, open_receiver}
use udp_multicast_receiver.Receiver.Open.{granted_all, open_receiver-result}
use udp_multicast_receiver.Receiver.Calls.Planned.{
  AreAddresses, may_fail, until_failure, planned, open_calls-until,
}
use udp_multicast_receiver.Receiver.Calls.{
  SysCall, make_socket, set_reuse_addr, set_reuse_port, read_rcvbuf, disable_loop, set_rcvbuf_force,
  set_rcvbuf, set_timestamping, set_interface, bind_any, join_group, join_source, answers,
  Addresses, interface_address, attempt, fall_back, join_calls, bind_calls, timestamp_calls,
  buffer_calls, open_calls,
}

-- Every call but the last goes well or may fail, and the last one goes well exactly if `done`.
abbrev pub Stops : Syscalls → List SysCall → Bool → Type 0
Stops sys [] done = ⊥
Stops sys (c ∷ []) done = answers sys c ≡ done
Stops sys (c ∷ d ∷ cs) done = (answers sys c || may_fail c ≡ true) × Stops sys (d ∷ cs) done

Stops-cons :
    (sys : Syscalls) (c : SysCall) (cs : List SysCall) (done : Bool)
    → answers sys c || may_fail c ≡ true
    → Stops sys cs done
    → Stops sys (c ∷ cs) done
Stops-cons sys c [] done a s = absurd s
Stops-cons sys c (d ∷ cs) done a s = (a, s)

Stops-attempt :
    (sys : Syscalls) (c : SysCall) (rest : List SysCall × Bool)
    → Stops sys rest.0 rest.1
    → Stops sys (attempt sys c rest).0 (attempt sys c rest).1
Stops-attempt sys c rest s = elim (Bool-cases (answers sys c)) [
  | inl a ↦ rw a (Stops-cons sys c rest.0 rest.1 (rw a refl) s)
  | inr a ↦ rw a a
]

Stops-fall_back :
    (sys : Syscalls) (c : SysCall) (rest plain : List SysCall × Bool)
    → may_fail c ≡ true
    → Stops sys rest.0 rest.1
    → Stops sys plain.0 plain.1
    → Stops sys (fall_back sys c rest plain).0 (fall_back sys c rest plain).1
Stops-fall_back sys c rest plain m r p =
    let either : answers sys c || may_fail c ≡ true = ground (arith, m) in
    elim (Bool-cases (answers sys c)) [
      | inl a ↦ rw a (Stops-cons sys c rest.0 rest.1 either r)
      | inr a ↦ rw a (Stops-cons sys c plain.0 plain.1 either p)
    ]

module _ (cfg : ReceiverConfig) (sys : Syscalls) (adr : Addresses) where
  abbrev StopsAt : List SysCall × Bool → Type 0
  StopsAt r = Stops sys r.0 r.1

  alone : (c : SysCall) → StopsAt (attempt sys c ([], true))
  alone c = elim (Bool-cases (answers sys c)) [ inl a ↦ rw a a | inr a ↦ rw a a ]

  join_calls-Stops : StopsAt (join_calls cfg sys adr)
  unfolding join_calls
  join_calls-Stops = elim (Bool-cases (length cfg.source_ip == 0)) [
    | inl e ↦
        rw (e, join_calls)
          (alone (
            join_group (adr.to_addr cfg.multicast_group)
              (interface_address adr.joining cfg.interface_name)))
    | inr e ↦
        rw (e, join_calls)
          (alone (
            join_source (adr.to_addr cfg.multicast_group)
              (interface_address adr.joining cfg.interface_name) (adr.to_addr cfg.source_ip)))
  ]

  timestamp_calls-Stops : StopsAt (timestamp_calls cfg sys adr)
  unfolding timestamp_calls bind_calls
  timestamp_calls-Stops =
      let bound : List SysCall × Bool = attempt sys (bind_any cfg.port) (join_calls cfg sys adr) in
      let b : StopsAt bound =
        Stops-attempt sys (bind_any cfg.port) (join_calls cfg sys adr) join_calls-Stops in
      let sender : SysCall = set_interface (interface_address adr.sending cfg.interface_name) in
      let rest : List SysCall × Bool = (disable_loop ∷ sender ∷ bound.0, bound.1) in
      let s : StopsAt rest =
        Stops-cons sys disable_loop (sender ∷ bound.0) bound.1 refl
          (Stops-cons sys sender bound.0 bound.1 refl b) in
      elim (Bool-cases cfg.enable_software_timestamps) [
        | inl e ↦ rw e (Stops-attempt sys (set_timestamping cfg.enable_hw_timestamps) rest s)
        | inr e ↦ rw e s
      ]

  buffer_calls-Stops : StopsAt (buffer_calls cfg sys adr)
  unfolding buffer_calls
  buffer_calls-Stops =
      let rest : List SysCall × Bool = attempt sys read_rcvbuf (timestamp_calls cfg sys adr) in
      let r : StopsAt rest =
        Stops-attempt sys read_rcvbuf (timestamp_calls cfg sys adr) timestamp_calls-Stops in
      Stops-fall_back sys (set_rcvbuf_force cfg.recv_buffer_bytes) rest
        (attempt sys (set_rcvbuf cfg.recv_buffer_bytes) rest) refl r
        (Stops-attempt sys (set_rcvbuf cfg.recv_buffer_bytes) rest r)

  open_calls-stops : StopsAt (open_calls cfg sys adr)
  unfolding open_calls
  open_calls-stops =
      let b : StopsAt (buffer_calls cfg sys adr) = buffer_calls-Stops in
      elim (Bool-cases cfg.reuse_port) [
        | inl e ↦ rw e (
            Stops-attempt sys make_socket _ (
              Stops-attempt sys set_reuse_addr _
                (Stops-attempt sys set_reuse_port (buffer_calls cfg sys adr) b)))
        | inr e ↦ rw e (Stops-attempt sys make_socket (buffer_calls cfg sys adr) b)
      ]

  pub open_calls-granted : (open_calls cfg sys adr).1 ≡ granted_all cfg sys
  unfolding open_calls buffer_calls timestamp_calls bind_calls join_calls
  open_calls-granted = ground arith

-- The system calls of opening a new receiver, apart from the lookups of the interface, whose
-- addresses are what those come to. They are made in this order, up to the first one that fails and
-- may not: the socket; SO_REUSEADDR and SO_REUSEPORT, if asked for; SO_RCVBUFFORCE, which may fail
-- and then is followed by SO_RCVBUF; the reading of the buffer's size; SO_TIMESTAMPING, if asked
-- for; IP_MULTICAST_LOOP; IP_MULTICAST_IF; the bind; and the membership. Every call but the last one
-- went well or is SO_RCVBUFFORCE, and the last one went well exactly if open returns true. Whether
-- IP_MULTICAST_LOOP and IP_MULTICAST_IF fail is not looked at; they count as going well.
pub open_calls-Stops :
    (cfg : ReceiverConfig) (g : GapBuffer) (sys : Syscalls) (adr : Addresses) (sender iface : ℕ)
    → AreAddresses cfg adr sender iface
    → ((open_calls cfg sys adr).0 ≡ until_failure sys (planned cfg sys adr.to_addr sender iface))
      × Stops sys (open_calls cfg sys adr).0 (open_receiver (receiver_of cfg g) sys).1
open_calls-Stops cfg g sys adr sender iface at = (
  open_calls-until cfg sys adr sender iface at,
  subst (λ b. Stops sys (open_calls cfg sys adr).0 b)
      (open_calls-granted cfg sys adr ∙ sym (open_receiver-result cfg g sys).0)
      (open_calls-stops cfg sys adr),
)
