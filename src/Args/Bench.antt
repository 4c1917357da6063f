-- ===== src/Args/Bench.antt =====
-- parse_args of tools/tick_to_trade_bench.cpp, and the one option of tools/timestamp_validate.cpp.
use udp_multicast_receiver.Common.{ℕ, Option, none, some, List, [], ◌∷◌, if◌then◌else◌, u32}
use udp_multicast_receiver.Book.Multi.{same_text}
use udp_multicast_receiver.Args.{Text, scan}

pub record BenchOptions : Type 0 where
  pub messages : ℕ
  pub symbols : ℕ
  pub warmup : ℕ

abbrev pub default_bench : BenchOptions
default_bench = record { messages = 200_000; symbols = 8; warmup = 20_000 }

pub data BenchOption : Type 0 where
  messages_option symbols_option warmup_option : BenchOption

unfoldable pub bench_option_of : Text → Option BenchOption
unfolding same_text
bench_option_of word =
    if same_text word (b'-' ∷ b'-' ∷ b'm' ∷ b'e' ∷ b's' ∷ b's' ∷ b'a' ∷ b'g' ∷ b'e' ∷ b's' ∷ [])
    then some messages_option
    else if same_text word (b'-' ∷ b'-' ∷ b's' ∷ b'y' ∷ b'm' ∷ b'b' ∷ b'o' ∷ b'l' ∷ b's' ∷ [])
    then some symbols_option
    else if same_text word (b'-' ∷ b'-' ∷ b'w' ∷ b'a' ∷ b'r' ∷ b'm' ∷ b'u' ∷ b'p' ∷ [])
    then some warmup_option
    else none

-- A number in the width of its field.
abbrev pub with_bench_option : BenchOption → ℕ → BenchOptions → BenchOptions
with_bench_option messages_option n o = record o { messages = n }
with_bench_option symbols_option n o = record o { symbols = u32 n }
with_bench_option warmup_option n o = record o { warmup = n }

-- `std::stoull` throws where the result is `none`.
unfoldable pub set_bench_option :
    (Text → Option ℕ) → BenchOption → Text → BenchOptions → Option BenchOptions
set_bench_option stoull f word o = elim (stoull word) [
  | none ↦ none
  | some n ↦ some (with_bench_option f n o)
]

unfoldable pub parse_bench : (Text → Option ℕ) → List Text → Option BenchOptions
unfolding scan
parse_bench stoull argv =
    scan bench_option_of (set_bench_option stoull) (λ word o. o) argv default_bench

pub data CountOption : Type 0 where
  count_option : CountOption

unfoldable pub count_option_of : Text → Option CountOption
unfolding same_text
count_option_of word =
    if same_text word (b'-' ∷ b'-' ∷ b'c' ∷ b'o' ∷ b'u' ∷ b'n' ∷ b't' ∷ [])
    then some count_option
    else none

-- The int `count`, as its 32 bits.
unfoldable pub parse_count : (Text → ℕ) → List Text → Option ℕ
unfolding scan
parse_count atoi argv =
    scan count_option_of (λ f word count. some (atoi word)) (λ word count. count) argv 20_000
