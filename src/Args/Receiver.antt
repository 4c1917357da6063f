-- ===== src/Args/Receiver.antt =====
-- The command line of src/main.cpp.
use udp_multicast_receiver.Common.{
  ℕ, ◌≡◌, refl, Option, none, some, List, [], ◌∷◌, if◌then◌else◌, u16,
}
use udp_multicast_receiver.Book.Multi.{same_text}
use udp_multicast_receiver.Args.{Text, scan}

pub record Command : Type 0 where
  pub group : Text
  pub iface : Text
  pub replay_file : Text
  pub port : ℕ

abbrev pub default_command : Command
default_command = record {
  group = b'2' ∷ b'3' ∷ b'9' ∷ b'.' ∷ b'1' ∷ b'.' ∷ b'1' ∷ b'.' ∷ b'1' ∷ [];
  iface = b'l' ∷ b'o' ∷ [];
  replay_file = [];
  port = 15001;
}

pub data CommandOption : Type 0 where
  group_option port_option iface_option replay_option : CommandOption

abbrev pub command_name : CommandOption → Text
command_name group_option = b'-' ∷ b'-' ∷ b'g' ∷ b'r' ∷ b'o' ∷ b'u' ∷ b'p' ∷ []
command_name port_option = b'-' ∷ b'-' ∷ b'p' ∷ b'o' ∷ b'r' ∷ b't' ∷ []
command_name iface_option = b'-' ∷ b'-' ∷ b'i' ∷ b'f' ∷ b'a' ∷ b'c' ∷ b'e' ∷ []
command_name replay_option = b'-' ∷ b'-' ∷ b'r' ∷ b'e' ∷ b'p' ∷ b'l' ∷ b'a' ∷ b'y' ∷ []

unfoldable pub command_option_of : Text → Option CommandOption
unfolding same_text
command_option_of word =
    if same_text word (command_name group_option)
    then some group_option
    else if same_text word (command_name port_option)
    then some port_option
    else if same_text word (command_name iface_option)
    then some iface_option
    else if same_text word (command_name replay_option)
    then some replay_option
    else none

-- `atoi` gives the int as its 32 bits; the port keeps the low 16.
abbrev pub with_command_option : (Text → ℕ) → CommandOption → Text → Command → Command
with_command_option atoi group_option word c = record c { group = word }
with_command_option atoi port_option word c = record c { port = u16 (atoi word) }
with_command_option atoi iface_option word c = record c { iface = word }
with_command_option atoi replay_option word c = record c { replay_file = word }

unfoldable pub set_command_option : (Text → ℕ) → CommandOption → Text → Command → Option Command
set_command_option atoi f word c = some (with_command_option atoi f word c)

-- A word that is no option is skipped.
unfoldable pub parse_command : (Text → ℕ) → List Text → Option Command
unfolding scan
parse_command atoi argv =
    scan command_option_of (set_command_option atoi) (λ word c. c) argv default_command

pub command_name-read : (f : CommandOption) → command_option_of (command_name f) ≡ some f
unfolding command_option_of same_text
command_name-read group_option = refl
command_name-read port_option = refl
command_name-read iface_option = refl
command_name-read replay_option = refl
