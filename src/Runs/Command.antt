-- ===== src/Runs/Command.antt =====
-- Command lines of the programs.
use udp_multicast_receiver.Common.{
  ℕ, ◌+◌, ◌-◌, ◌*◌, ◌≡◌, refl, false, Option, none, some, List, [], ◌∷◌, arith,
}
use udp_multicast_receiver.Pcap.{Reading, open_writer}
use udp_multicast_receiver.Pcap.Replay.{file_bytes}
use udp_multicast_receiver.GenPcap.{default_options, generate}
use udp_multicast_receiver.GenPcap.Packets.{IsPlain}
use udp_multicast_receiver.Book.Multi.{same_text}
use udp_multicast_receiver.Args.{Text, scan, words}
use udp_multicast_receiver.Args.Generator.{
  CommandLine, GenOption, set_count, set_msgs_per_pkt, gen_name, gen_option_of, set_option,
  name_output, parse_args,
}
use udp_multicast_receiver.Args.Settings.{option_value, last_setting, spelled, parse_args-settings}
use udp_multicast_receiver.Args.Receiver.{replay_option, command_name}
use udp_multicast_receiver.Main.{Handler}
use udp_multicast_receiver.Main.Command.{replayed, Machine, receiver_main, receiver_main-generated}

-- Decimal digits, read from the left.
abbrev read_digits : ℕ → Text → ℕ
read_digits n [] = n
read_digits n (c ∷ cs) = read_digits (10 * n + (c - b'0')) cs

abbrev stoull : Text → Option ℕ
stoull [] = none
stoull (c ∷ cs) = some (read_digits 0 (c ∷ cs))

abbrev file : Text
file = b'd' ∷ b'a' ∷ b'y' ∷ b'.' ∷ b'p' ∷ b'c' ∷ b'a' ∷ b'p' ∷ []

-- `--count 3 --msgs-per-pkt 7 --count 25`
abbrev settings : List (GenOption × Text × ℕ)
settings =
    (set_count, b'3' ∷ [], 3)
    ∷ (set_msgs_per_pkt, b'7' ∷ [], 7)
    ∷ (set_count, b'2' ∷ b'5' ∷ [], 25)
    ∷ []

parse_args-settings_example :
    (o : CommandLine) × (parse_args stoull (words gen_name (spelled settings) (file ∷ [])) ≡ some o)
    × (o.output ≡ file)
    × ((f : GenOption)
        → option_value o.options f ≡ last_setting f settings (option_value default_options f))
parse_args-settings_example =
    parse_args-settings stoull settings file (refl, (refl, (refl, tt))) refl

abbrev command_line : CommandLine
command_line = record {
  output = file;
  options = record default_options { count = 25; msgs_per_pkt = 7 };
}

command_line-parsed :
    parse_args stoull (words gen_name (spelled settings) (file ∷ [])) ≡ some command_line
unfolding parse_args scan gen_option_of same_text set_option name_output
command_line-parsed = refl

command_line-IsPlain : IsPlain command_line.options
command_line-IsPlain = record {
  no_gap = refl;
  some_messages = omega arith;
  few_messages = omega arith;
  count_fits = omega arith;
}

-- A machine on which every file is the capture.
abbrev machine : Machine
machine = record {
  atoi = λ word. read_digits 0 word;
  files = λ name. some (file_bytes (generate 25 command_line.options open_writer));
  stale = [];
  memory = λ n. 0;
  sys = record {
    socket = none;
    reuse_addr = false;
    reuse_port = false;
    rcvbuf_force = false;
    rcvbuf = false;
    granted = none;
    timestamping = false;
    bind = false;
    add_membership = false;
    add_source_membership = false;
  };
  start_ns = 0;
  spins = [];
}

receiver_main-generated_example :
    (reading : Reading) × (h : Handler) × (receiver_main machine
        (command_name replay_option ∷ file ∷ [])
      ≡ some (replayed reading h))
    × (h.total_messages ≡ 25)
    × (h.add_orders ≡ 25)
    × (h.delete_orders ≡ 0)
    × (h.executions ≡ 0)
receiver_main-generated_example =
    receiver_main-generated stoull (words gen_name (spelled settings) (file ∷ [])) command_line 25
      machine command_line-parsed command_line-IsPlain (omega arith) (omega arith) (omega arith)
      (omega arith) refl
