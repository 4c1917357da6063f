-- ===== src/Args/Generator.antt =====
-- parse_args of tools/gen_pcap.cpp.
use udp_multicast_receiver.Common.{
  ℕ, ◌==◌, not, Option, none, some, List, [], ◌∷◌, get_or, if◌then◌else◌, u16,
}
use udp_multicast_receiver.Book.Multi.{same_text}
use udp_multicast_receiver.GenPcap.{Options, default_options}
use udp_multicast_receiver.Args.{Text, scan}

-- The command line of the generator: the settings of the loop, and the file that it writes.
pub record CommandLine : Type 0 where
  pub output : Text
  pub options : Options

abbrev pub default_command_line : CommandLine
default_command_line = record {
  output =
      b's' ∷ b'y' ∷ b'n' ∷ b't' ∷ b'h' ∷ b'e' ∷ b't' ∷ b'i' ∷ b'c' ∷ b'.' ∷ b'p' ∷ b'c' ∷ b'a'
      ∷ b'p' ∷ [];
  options = default_options;
}

pub data GenOption : Type 0 where
  set_count set_gap_at set_gap_len set_msgs_per_pkt set_dup_at set_rate_us : GenOption

abbrev pub gen_name : GenOption → Text
gen_name set_count = b'-' ∷ b'-' ∷ b'c' ∷ b'o' ∷ b'u' ∷ b'n' ∷ b't' ∷ []
gen_name set_gap_at = b'-' ∷ b'-' ∷ b'g' ∷ b'a' ∷ b'p' ∷ b'-' ∷ b'a' ∷ b't' ∷ []
gen_name set_gap_len = b'-' ∷ b'-' ∷ b'g' ∷ b'a' ∷ b'p' ∷ b'-' ∷ b'l' ∷ b'e' ∷ b'n' ∷ []
gen_name set_msgs_per_pkt =
    b'-' ∷ b'-' ∷ b'm' ∷ b's' ∷ b'g' ∷ b's' ∷ b'-' ∷ b'p' ∷ b'e' ∷ b'r' ∷ b'-' ∷ b'p' ∷ b'k' ∷ b't'
    ∷ []
gen_name set_dup_at = b'-' ∷ b'-' ∷ b'd' ∷ b'u' ∷ b'p' ∷ b'-' ∷ b'a' ∷ b't' ∷ []
gen_name set_rate_us = b'-' ∷ b'-' ∷ b'r' ∷ b'a' ∷ b't' ∷ b'e' ∷ b'-' ∷ b'u' ∷ b's' ∷ []

-- The chain of strcmp.
unfoldable pub gen_option_of : Text → Option GenOption
unfolding same_text
gen_option_of word =
    if same_text word (gen_name set_count)
    then some set_count
    else if same_text word (gen_name set_gap_at)
    then some set_gap_at
    else if same_text word (gen_name set_gap_len)
    then some set_gap_len
    else if same_text word (gen_name set_msgs_per_pkt)
    then some set_msgs_per_pkt
    else if same_text word (gen_name set_dup_at)
    then some set_dup_at
    else if same_text word (gen_name set_rate_us)
    then some set_rate_us
    else none

-- One of the settings, of the width of its field.
abbrev pub with_option : GenOption → ℕ → Options → Options
with_option set_count n o = record o { count = n }
with_option set_gap_at n o = record o { gap_at = n }
with_option set_gap_len n o = record o { gap_len = n }
with_option set_msgs_per_pkt n o = record o { msgs_per_pkt = u16 n }
with_option set_dup_at n o = record o { dup_at = n }
with_option set_rate_us n o = record o { rate_us = n }

-- "else if (argv[i][0] != '-')"; an empty word has a 0 there.
unfoldable pub name_output : Text → CommandLine → CommandLine
name_output word o = if not (get_or word 0 0 == b'-') then record o { output = word } else o

module _ (stoull : Text → Option ℕ) where
  -- `std::stoull` throws where the result is `none`; the exception ends the program.
  unfoldable pub set_option : GenOption → Text → CommandLine → Option CommandLine
  set_option f word o = elim (stoull word) [
    | none ↦ none
    | some n ↦ some (record o { options = with_option f n o.options })
  ]

  unfoldable pub parse_args : List Text → Option CommandLine
  unfolding scan
  parse_args argv = scan gen_option_of set_option name_output argv default_command_line
