-- ===== src/Receiver/Open.antt =====
-- When MulticastReceiver::open of include/feed/receiver.hpp succeeds.
use udp_multicast_receiver.Common.{
  ℕ, ◌≡◌, Bool, true, false, not, ◌&&◌, ◌||◌, Option, none, some, length, ◌==◌, if◌then◌else◌,
  arith,
}
use udp_multicast_receiver.Gap.State.{GapBuffer}
use udp_multicast_receiver.Receiver.{
  ReceiverConfig, MulticastReceiver, receiver_of, Syscalls, set_socket_options, join_multicast,
  open_receiver, is_open,
}

abbrev came_back : Option ℕ → Bool
came_back none = false
came_back (some n) = true

-- The calls that `open` needs, by the settings.
abbrev pub granted_all : ReceiverConfig → Syscalls → Bool
granted_all cfg sys =
    came_back sys.socket
    && ((not cfg.reuse_port || (sys.reuse_addr && sys.reuse_port))
        && ((sys.rcvbuf_force || sys.rcvbuf)
            && (came_back sys.granted
                && ((not cfg.enable_software_timestamps || sys.timestamping)
                    && (sys.bind
                        && (if length cfg.source_ip == 0
                            then sys.add_membership
                            else sys.add_source_membership))))))

-- Opening a new receiver succeeds exactly when each system call that the settings ask for does: the
-- socket, the two reuse options if set, one of the two ways to set the receive buffer, reading its
-- size back, timestamps if set, bind, and the membership with or without a source. The receiver
-- then holds a socket exactly when one was made, also on an error, and the buffer is left alone.
pub open_receiver-result :
    (cfg : ReceiverConfig) (g : GapBuffer) (sys : Syscalls)
    → let (opened, done) = open_receiver (receiver_of cfg g) sys in
      (done ≡ granted_all cfg sys) × (is_open opened ≡ came_back sys.socket) × (opened.gap_buf ≡ g)
unfolding open_receiver set_socket_options join_multicast is_open
open_receiver-result cfg g sys = (ground arith, ground arith, ground arith)

-- Opening and closing leave the counters of messages alone.
pub open_receiver-counter :
    (r : MulticastReceiver) (sys : Syscalls)
    → ((open_receiver r sys).0.gap_buf ≡ r.gap_buf)
      × ((open_receiver r sys).0.messages_delivered ≡ r.messages_delivered)
unfolding open_receiver set_socket_options
open_receiver-counter r sys = (ground arith, ground arith)
