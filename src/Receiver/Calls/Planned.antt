-- ===== src/Receiver/Calls/Planned.antt =====
-- The system calls of MulticastReceiver::open (include/feed/receiver.hpp) as one flat list.
use udp_multicast_receiver.Common.{
  ℕ, ◌≡◌, ◌⊎◌, inl, inr, refl, Bool, true, false, not, ◌||◌, none, some, List, [], ◌∷◌, ◌++◌, take,
  length, ◌==◌, if◌then◌else◌, Bool-cases, arith,
}
use udp_multicast_receiver.Receiver.{ReceiverConfig, Syscalls}
use udp_multicast_receiver.Receiver.Calls.{
  SysCall, make_socket, set_reuse_addr, set_reuse_port, read_rcvbuf, disable_loop, set_rcvbuf_force,
  set_rcvbuf, set_timestamping, set_interface, bind_any, join_group, join_source, answers,
  Addresses, Lookup, interface_address, attempt, fall_back, join_calls, bind_calls, timestamp_calls,
  buffer_calls, open_calls,
}

-- The address that a lookup comes to: the one it is answered with, or any interface (0).
abbrev pub IsAddress : Lookup → ℕ → Type 0
IsAddress l a =
    ((l.opened ≡ true) × (l.answer ≡ some a)) ⊎ (((l.opened ≡ false) ⊎ (l.answer ≡ none)) × (a ≡ 0))

-- The addresses of the configured interface, of which a name keeps 15 bytes: the one that the
-- lookup for sending comes to, and the one that the lookup for the membership comes to.
abbrev pub AreAddresses : ReceiverConfig → Addresses → ℕ → ℕ → Type 0
AreAddresses cfg adr sender iface =
    IsAddress (adr.sending (take 15 cfg.interface_name)) sender
    × IsAddress (adr.joining (take 15 cfg.interface_name)) iface

-- The membership that the settings ask for.
abbrev pub membership : ReceiverConfig → (List ℕ → ℕ) → ℕ → SysCall
membership cfg to_addr iface =
    if length cfg.source_ip == 0
    then join_group (to_addr cfg.multicast_group) iface
    else join_source (to_addr cfg.multicast_group) iface (to_addr cfg.source_ip)

-- A call that the code goes on without.
abbrev pub may_fail : SysCall → Bool
may_fail (set_rcvbuf_force n) = true
may_fail _ = false

-- The calls up to the first one that fails and may not.
unfoldable pub until_failure : Syscalls → List SysCall → List SysCall
until_failure sys [] = []
until_failure sys (c ∷ cs) =
    let rest = until_failure sys cs in if answers sys c || may_fail c then c ∷ rest else c ∷ []

abbrev pub only_if : Bool → List SysCall → List SysCall
only_if b cs = if b then cs else []

-- Every call that the settings ask for, in order; the second request for a receive buffer only
-- where the first one fails.
unfoldable pub planned : ReceiverConfig → Syscalls → (List ℕ → ℕ) → ℕ → ℕ → List SysCall
planned cfg sys to_addr sender iface =
    make_socket
    ∷ (only_if cfg.reuse_port (set_reuse_addr ∷ set_reuse_port ∷ [])
        ++ (set_rcvbuf_force cfg.recv_buffer_bytes
            ∷ (only_if (not sys.rcvbuf_force) (set_rcvbuf cfg.recv_buffer_bytes ∷ [])
                ++ (read_rcvbuf
                    ∷ (only_if cfg.enable_software_timestamps
                          (set_timestamping cfg.enable_hw_timestamps ∷ [])
                        ++ (disable_loop
                            ∷ set_interface sender
                            ∷ bind_any cfg.port
                            ∷ membership cfg to_addr iface
                            ∷ []))))))

pub interface_address_lem :
    (lookup : List ℕ → Lookup) (ifname : List ℕ) (a : ℕ)
    → IsAddress (lookup (take 15 ifname)) a
    → interface_address lookup ifname ≡ a
unfolding interface_address
interface_address_lem lookup ifname a (inl (o, e)) = rw (o, e) refl
interface_address_lem lookup ifname a (inr (inl o, z)) = rw (o, z) refl
interface_address_lem lookup ifname a (inr (inr e, z)) = ground (arith, e, z)

until-attempt :
    (sys : Syscalls) (c : SysCall) (rest : List SysCall × Bool) (cs : List SysCall)
    → may_fail c ≡ false
    → rest.0 ≡ until_failure sys cs
    → (attempt sys c rest).0 ≡ until_failure sys (c ∷ cs)
unfolding until_failure
until-attempt sys c rest cs m e = elim (Bool-cases (answers sys c)) [
  | inl a ↦ rw (a, e) refl
  | inr a ↦ rw (a, m) refl
]

until-fall_back :
    (sys : Syscalls) (c d : SysCall) (rest plain : List SysCall × Bool) (cs : List SysCall)
    → may_fail c ≡ true
    → rest.0 ≡ until_failure sys cs
    → plain.0 ≡ until_failure sys (d ∷ cs)
    → (fall_back sys c rest plain).0
      ≡ until_failure sys (c ∷ (only_if (not (answers sys c)) (d ∷ []) ++ cs))
unfolding until_failure
until-fall_back sys c d rest plain cs m e k = elim (Bool-cases (answers sys c)) [
  | inl a ↦ rw (a, e) refl
  | inr a ↦ rw (a, m, k) refl
]

module _ (cfg : ReceiverConfig) (sys : Syscalls) (adr : Addresses) (sender iface : ℕ) where
  abbrev last_calls : List SysCall
  last_calls =
      disable_loop
      ∷ set_interface sender
      ∷ bind_any cfg.port
      ∷ membership cfg adr.to_addr iface
      ∷ []

  abbrev from_timestamps : List SysCall
  from_timestamps =
      only_if cfg.enable_software_timestamps (set_timestamping cfg.enable_hw_timestamps ∷ [])
      ++ last_calls

  abbrev from_buffer : List SysCall
  from_buffer =
      set_rcvbuf_force cfg.recv_buffer_bytes
      ∷ (only_if (not sys.rcvbuf_force) (set_rcvbuf cfg.recv_buffer_bytes ∷ [])
          ++ (read_rcvbuf ∷ from_timestamps))

  timestamp_calls-until :
      AreAddresses cfg adr sender iface
      → (timestamp_calls cfg sys adr).0 ≡ until_failure sys from_timestamps
  unfolding timestamp_calls bind_calls join_calls until_failure
  timestamp_calls-until (s, i) =
      let es = interface_address_lem adr.sending cfg.interface_name sender s in
      let ei = interface_address_lem adr.joining cfg.interface_name iface i in
      ground (arith, es, ei)

  buffer_calls-until :
      AreAddresses cfg adr sender iface
      → (buffer_calls cfg sys adr).0 ≡ until_failure sys from_buffer
  unfolding buffer_calls
  buffer_calls-until at =
      let read =
        until-attempt sys read_rcvbuf (timestamp_calls cfg sys adr) from_timestamps refl
          (timestamp_calls-until at) in
      let plain =
        until-attempt sys (set_rcvbuf cfg.recv_buffer_bytes)
          (attempt sys read_rcvbuf (timestamp_calls cfg sys adr)) (read_rcvbuf ∷ from_timestamps)
          refl read in
      until-fall_back sys (set_rcvbuf_force cfg.recv_buffer_bytes)
        (set_rcvbuf cfg.recv_buffer_bytes) (attempt sys read_rcvbuf (timestamp_calls cfg sys adr)) _
        (read_rcvbuf ∷ from_timestamps) refl read plain

  pub open_calls-until :
      AreAddresses cfg adr sender iface
      → (open_calls cfg sys adr).0 ≡ until_failure sys (planned cfg sys adr.to_addr sender iface)
  unfolding open_calls planned
  open_calls-until at = elim (Bool-cases cfg.reuse_port) [
    | inl e ↦ rw e (
        until-attempt sys make_socket _ _ refl (
          until-attempt sys set_reuse_addr _ _ refl
            (until-attempt sys set_reuse_port _ _ refl (buffer_calls-until at))))
    | inr e ↦ rw e (until-attempt sys make_socket _ _ refl (buffer_calls-until at))
  ]
