-- ===== src/Receiver/Calls/Joined.antt =====
-- What the system calls of MulticastReceiver::open (include/feed/receiver.hpp) end with.
use udp_multicast_receiver.Common.{
  ℕ, ◌≡◌, ◌∙◌, ap, take, Bool, true, List, [], ◌∷◌, ◌++◌, Bool-cases, inl, inr, arith,
}
use udp_multicast_receiver.Receiver.Calls.Stops.{open_calls-granted}
use udp_multicast_receiver.Receiver.{ReceiverConfig, Syscalls}
use udp_multicast_receiver.Receiver.Open.{granted_all}
use udp_multicast_receiver.Receiver.Calls.Planned.{IsAddress, membership, interface_address_lem}
use udp_multicast_receiver.Receiver.Calls.{
  SysCall, make_socket, set_reuse_addr, set_reuse_port, read_rcvbuf, disable_loop, set_rcvbuf_force,
  set_rcvbuf, set_timestamping, set_interface, bind_any, answers, Addresses, interface_address,
  attempt, fall_back, join_calls, bind_calls, timestamp_calls, buffer_calls, open_calls,
}

-- A list of calls that, if it goes well, ends with the two given ones.
abbrev EndsWith : List SysCall → List SysCall × Bool → Type 0
EndsWith tail r = r.1 ≡ true → (before : List SysCall) × (r.0 ≡ before ++ tail)

EndsWith-attempt :
    (sys : Syscalls) (c : SysCall) (tail : List SysCall) (rest : List SysCall × Bool)
    → EndsWith tail rest
    → EndsWith tail (attempt sys c rest)
EndsWith-attempt sys c tail rest h = elim (Bool-cases (answers sys c)) [
  | inl a ↦ rw a (λ done. let (before, e) = h done in (c ∷ before, ap (λ cs. c ∷ cs) e))
  | inr a ↦ rw a (λ done. absurd (cc))
]

EndsWith-fall_back :
    (sys : Syscalls) (c : SysCall) (tail : List SysCall) (rest plain : List SysCall × Bool)
    → EndsWith tail rest
    → EndsWith tail plain
    → EndsWith tail (fall_back sys c rest plain)
EndsWith-fall_back sys c tail rest plain h k = elim (Bool-cases (answers sys c)) [
  | inl a ↦ rw a (λ done. let (before, e) = h done in (c ∷ before, ap (λ cs. c ∷ cs) e))
  | inr a ↦ rw a (λ done. let (before, e) = k done in (c ∷ before, ap (λ cs. c ∷ cs) e))
]

-- The membership as the code makes it.
abbrev joining : ReceiverConfig → Addresses → SysCall
joining cfg adr = membership cfg adr.to_addr (interface_address adr.joining cfg.interface_name)

module _ (cfg : ReceiverConfig) (sys : Syscalls) (adr : Addresses) where
  abbrev Joins : List SysCall × Bool → Type 0
  Joins r = EndsWith (bind_any cfg.port ∷ joining cfg adr ∷ []) r

  bind_calls-Joins : Joins (bind_calls cfg sys adr)
  unfolding bind_calls join_calls
  bind_calls-Joins = λ done. ([], ground (arith, done))

  timestamp_calls-Joins : Joins (timestamp_calls cfg sys adr)
  unfolding timestamp_calls
  timestamp_calls-Joins =
      let sender : SysCall = set_interface (interface_address adr.sending cfg.interface_name) in
      let rest : List SysCall × Bool =
        (disable_loop ∷ sender ∷ (bind_calls cfg sys adr).0, (bind_calls cfg sys adr).1) in
      let tail : List SysCall = bind_any cfg.port ∷ joining cfg adr ∷ [] in
      let r : Joins rest = λ done.
        (let (before, e) = bind_calls-Joins done in
          (disable_loop ∷ sender ∷ before, ap (λ cs. disable_loop ∷ sender ∷ cs) e)) in
      elim (Bool-cases cfg.enable_software_timestamps) [
        | inl e ↦
            rw e (EndsWith-attempt sys (set_timestamping cfg.enable_hw_timestamps) tail rest r)
        | inr e ↦ rw e r
      ]

  open_calls-Joins : Joins (open_calls cfg sys adr)
  unfolding open_calls buffer_calls
  open_calls-Joins =
      let tail : List SysCall = bind_any cfg.port ∷ joining cfg adr ∷ [] in
      let rest : List SysCall × Bool = attempt sys read_rcvbuf (timestamp_calls cfg sys adr) in
      let r : Joins rest =
        EndsWith-attempt sys read_rcvbuf tail (timestamp_calls cfg sys adr) timestamp_calls-Joins in
      let plain : List SysCall × Bool = attempt sys (set_rcvbuf cfg.recv_buffer_bytes) rest in
      let p : Joins plain = EndsWith-attempt sys (set_rcvbuf cfg.recv_buffer_bytes) tail rest r in
      let b : Joins (buffer_calls cfg sys adr) =
        EndsWith-fall_back sys (set_rcvbuf_force cfg.recv_buffer_bytes) tail rest plain r p in
      elim (Bool-cases cfg.reuse_port) [
        | inl e ↦ rw e (
            EndsWith-attempt sys make_socket tail _ (
              EndsWith-attempt sys set_reuse_addr tail _
                (EndsWith-attempt sys set_reuse_port tail (buffer_calls cfg sys adr) b)))
        | inr e ↦ rw e (EndsWith-attempt sys make_socket tail (buffer_calls cfg sys adr) b)
      ]

-- When each system call that the settings ask for goes well, the calls of opening a new receiver
-- end with the bind to the configured port and then one membership: of the configured group, on the
-- address of the interface whose name is the configured one, cut to 15 bytes (any interface, if the
-- lookup of that name finds no address), and with the configured source if there is one.
pub open_calls-joined :
    (cfg : ReceiverConfig) (sys : Syscalls) (adr : Addresses) (iface : ℕ)
    → granted_all cfg sys ≡ true
    → IsAddress (adr.joining (take 15 cfg.interface_name)) iface
    → (before : List SysCall) × ((open_calls cfg sys adr).0
        ≡ before ++ (bind_any cfg.port ∷ membership cfg adr.to_addr iface ∷ []))
open_calls-joined cfg sys adr iface all at =
    let (before, e) = open_calls-Joins cfg sys adr (open_calls-granted cfg sys adr ∙ all) in
    (
      before,
      e
          ∙ ap (λ a. before ++ (bind_any cfg.port ∷ membership cfg adr.to_addr a ∷ []))
              (interface_address_lem adr.joining cfg.interface_name iface at),
    )
