-- ===== src/Main/Command.antt =====
-- `main` of src/main.cpp from its command line on.
use udp_multicast_receiver.Common.{
  ℕ, ◌≡◌, ◌∙◌, ◌≤◌, ◌<◌, ◌+◌, ◌*◌, refl, ap, inr, false, Option, none, some, List, [], ◌∷◌, length,
  ◌==◌, if◌then◌else◌, arith,
}
use udp_multicast_receiver.Pcap.{Reading, open_writer}
use udp_multicast_receiver.Pcap.Replay.{file_bytes}
use udp_multicast_receiver.Receiver.{
  ReceiverConfig, default_receiver, MulticastReceiver, Syscalls, Spin,
}
use udp_multicast_receiver.Args.{Text, scan, scan-words}
use udp_multicast_receiver.Args.Receiver.{
  Command, default_command, replay_option, command_name, command_option_of, set_command_option,
  parse_command, command_name-read,
}
use udp_multicast_receiver.Args.Generator.{CommandLine, parse_args}
use udp_multicast_receiver.GenPcap.{generate}
use udp_multicast_receiver.GenPcap.Packets.{IsPlain}
use udp_multicast_receiver.Main.Replay.{replay_mode-orders}
use udp_multicast_receiver.Main.{Handler, no_messages, replay_mode, live_mode}

-- What a run of the program comes to; the first two end with 0, the last with its number.
pub data Outcome : Type 0 where
  unreadable : Handler → Outcome
  replayed : Reading → Handler → Outcome
  stopped : ℕ → MulticastReceiver → Handler → Outcome

-- What the machine offers the program: the text conversion, the capture files that can be opened,
-- what the frame buffer holds, the bytes that lie behind the messages, and the results of the
-- system calls.
pub record Machine : Type 0 where
  pub atoi : Text → ℕ
  pub files : Text → Option (List ℕ)
  pub stale : List ℕ
  pub memory : ℕ → ℕ
  pub sys : Syscalls
  pub start_ns : ℕ
  pub spins : List Spin

abbrev pub live_config : Command → ReceiverConfig
live_config c = record default_receiver {
  multicast_group = c.group;
  interface_name = c.iface;
  port = c.port;
}

-- `if (!replay_file.empty())`
unfoldable pub run_command : Machine → Command → Outcome
run_command m c =
    let (code, r, h) = live_mode m.memory (live_config c) m.sys 100_000 m.start_ns m.spins in
    if length c.replay_file == 0 then stopped code r h else elim (m.files c.replay_file) [
      | none ↦ unreadable no_messages
      | some bytes ↦
          let (reading, h) = replay_mode m.memory c.port bytes m.stale in replayed reading h
    ]

unfoldable pub receiver_main : Machine → List Text → Option Outcome
receiver_main m argv = elim (parse_command m.atoi argv) [
  | none ↦ none
  | some c ↦ some (run_command m c)
]

replay_words :
    (atoi : Text → ℕ) (file : Text)
    → parse_command atoi (command_name replay_option ∷ file ∷ [])
      ≡ some (record default_command { replay_file = file })
unfolding parse_command scan set_command_option
replay_words atoi file =
    scan-words command_option_of (set_command_option atoi) (λ word c. c) command_name
      command_name-read ((replay_option, file) ∷ []) [] default_command
      (record default_command { replay_file = file }) refl

run_command-file :
    (m : Machine) (c : Command) (bytes : List ℕ)
    → 0 < length c.replay_file
    → m.files c.replay_file ≡ some bytes
    → let (reading, h) = replay_mode m.memory c.port bytes m.stale in
      run_command m c ≡ replayed reading h
unfolding run_command
run_command-file m c bytes some_text e =
    let named : (length c.replay_file == 0) ≡ false = ground (arith, some_text) in
    rw (named, e) refl

-- Generating a capture and replaying it, from the two command lines on. The generator's words
-- `argv` parse to `o`: no gap, 1 to 1722 messages in a packet, a positive count below 2 ^ 63 that
-- `fuel` reaches, times whose seconds fit 32 bits, and an output file with a name. On a machine on
-- which that file has what the generator writes, the receiver with the words `--replay` and the
-- file's name replays it, and its handler counts exactly `count` messages, all of them Add Orders,
-- and no Delete and no execution.
pub receiver_main-generated :
    (stoull : Text → Option ℕ) (argv : List Text) (o : CommandLine) (fuel : ℕ) (m : Machine)
    → parse_args stoull argv ≡ some o
    → IsPlain o.options
    → 0 < o.options.count
    → o.options.count ≤ fuel
    → 1_700_000_000_000_000 + 2 * (o.options.rate_us * fuel) < 4294967296000000
    → 0 < length o.output
    → m.files o.output ≡ some (file_bytes (generate fuel o.options open_writer))
    → (reading : Reading) × (h : Handler) × (receiver_main m
          (command_name replay_option ∷ o.output ∷ [])
        ≡ some (replayed reading h))
      × (h.total_messages ≡ o.options.count)
      × (h.add_orders ≡ o.options.count)
      × (h.delete_orders ≡ 0)
      × (h.executions ≡ 0)
unfolding receiver_main
receiver_main-generated stoull argv o fuel m parsed plain pos enough time named written =
    let c : Command = record default_command { replay_file = o.output } in
    let file : List ℕ = file_bytes (generate fuel o.options open_writer) in
    let (reading, h) = replay_mode m.memory 15001 file m.stale in
    let (every, adds, deletes, executes) =
      replay_mode-orders m.memory o.options fuel 15001 m.stale (inr refl) plain pos enough time in
    (
      reading,
      h,
      ap (λ r. elim r [ none ↦ none | some d ↦ some (run_command m d) ])
            (replay_words m.atoi o.output)
          ∙ ap some (run_command-file m c file named written),
      every,
      adds,
      deletes,
      executes,
    )
