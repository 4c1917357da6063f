-- ===== src/Receiver/Calls.antt =====
-- The system calls that MulticastReceiver::open of include/feed/receiver.hpp makes, in order.
pub mod Planned
pub mod Stops
pub mod Joined
use udp_multicast_receiver.Common.{
  ℕ, Bool, true, false, not, ◌&&◌, Option, none, some, List, [], ◌∷◌, ◌++◌, length, take, ◌==◌,
  if◌then◌else◌,
}
use udp_multicast_receiver.Receiver.{ReceiverConfig, Syscalls}

-- A call with what the code passes: sizes, ports, and addresses as numbers. `set_timestamping` has
-- whether the hardware flags are set.
pub data SysCall : Type 0 where
  make_socket set_reuse_addr set_reuse_port read_rcvbuf disable_loop : SysCall
  set_rcvbuf_force set_rcvbuf : ℕ → SysCall
  set_timestamping : Bool → SysCall
  set_interface : ℕ → SysCall
  bind_any : ℕ → SysCall
  join_group : ℕ → ℕ → SysCall
  join_source : ℕ → ℕ → ℕ → SysCall

-- Whether a call goes well; the results of disable_loop and set_interface are not tested.
abbrev pub answers : Syscalls → SysCall → Bool
answers sys make_socket = elim sys.socket [ none ↦ false | some fd ↦ true ]
answers sys set_reuse_addr = sys.reuse_addr
answers sys set_reuse_port = sys.reuse_port
answers sys read_rcvbuf = elim sys.granted [ none ↦ false | some n ↦ true ]
answers sys disable_loop = true
answers sys (set_rcvbuf_force n) = sys.rcvbuf_force
answers sys (set_rcvbuf n) = sys.rcvbuf
answers sys (set_timestamping hw) = sys.timestamping
answers sys (set_interface a) = true
answers sys (bind_any port) = sys.bind
answers sys (join_group group iface) = sys.add_membership
answers sys (join_source group iface source) = sys.add_source_membership

-- What one call of `interface_address` meets: whether its socket opens, and what SIOCGIFADDR
-- answers.
pub record Lookup : Type 0 where
  pub opened : Bool
  pub answer : Option ℕ

-- INADDR_ANY, 0, where the interface has no address. The name is cut to the first IFNAMSIZ - 1 = 15
-- bytes.
unfoldable pub interface_address : (List ℕ → Lookup) → List ℕ → ℕ
interface_address lookup ifname =
    let l = lookup (take 15 ifname) in
    if not l.opened then 0 else elim l.answer [ none ↦ 0 | some a ↦ a ]

-- `inet_pton`, with 0 for what it refuses, and what the two lookups of an interface meet, by its
-- name.
pub record Addresses : Type 0 where
  pub to_addr : List ℕ → ℕ
  pub sending : List ℕ → Lookup
  pub joining : List ℕ → Lookup

-- `if (call < 0) return report_error(...);` with what stands behind it.
abbrev pub attempt : Syscalls → SysCall → List SysCall × Bool → List SysCall × Bool
attempt sys c rest = if answers sys c then (c ∷ rest.0, rest.1) else (c ∷ [], false)

-- `if (call < 0) { plain } rest`, where `plain` has the rest behind it.
abbrev pub fall_back :
    Syscalls → SysCall → List SysCall × Bool → List SysCall × Bool → List SysCall × Bool
fall_back sys c rest plain = if answers sys c then (c ∷ rest.0, rest.1) else (c ∷ plain.0, plain.1)

module _ (cfg : ReceiverConfig) (sys : Syscalls) (adr : Addresses) where
  unfoldable pub join_calls : List SysCall × Bool
  unfolding interface_address
  join_calls =
      let group = adr.to_addr cfg.multicast_group in
      let iface = interface_address adr.joining cfg.interface_name in
      if length cfg.source_ip == 0
      then attempt sys (join_group group iface) ([], true)
      else attempt sys (join_source group iface (adr.to_addr cfg.source_ip)) ([], true)

  unfoldable pub bind_calls : List SysCall × Bool
  unfolding join_calls
  bind_calls = attempt sys (bind_any cfg.port) join_calls

  -- `set_socket_options` from the timestamps on, and what `open` does behind it.
  unfoldable pub timestamp_calls : List SysCall × Bool
  unfolding bind_calls interface_address
  timestamp_calls =
      let rest : List SysCall × Bool = (
        disable_loop
            ∷ set_interface (interface_address adr.sending cfg.interface_name)
            ∷ bind_calls.0,
        bind_calls.1,
      ) in
      if cfg.enable_software_timestamps
      then attempt sys (set_timestamping cfg.enable_hw_timestamps) rest
      else rest

  -- From the receive buffer on.
  unfoldable pub buffer_calls : List SysCall × Bool
  unfolding timestamp_calls
  buffer_calls =
      let rest = attempt sys read_rcvbuf timestamp_calls in
      fall_back sys (set_rcvbuf_force cfg.recv_buffer_bytes) rest
        (attempt sys (set_rcvbuf cfg.recv_buffer_bytes) rest)

  unfoldable pub open_calls : List SysCall × Bool
  unfolding buffer_calls
  open_calls = attempt sys make_socket (
      if cfg.reuse_port
      then attempt sys set_reuse_addr (attempt sys set_reuse_port buffer_calls)
      else buffer_calls)
