-- ===== src/Args/Settings.antt =====
-- What a command line of tools/gen_pcap.cpp sets.
use udp_multicast_receiver.Common.{
  ℕ, ◌≡◌, ◌∙◌, refl, ap, Bool, true, false, ◌==◌, Option, some, List, [], ◌∷◌, get_or,
  if◌then◌else◌, u16, arith,
}
use udp_multicast_receiver.Book.Multi.{same_text}
use udp_multicast_receiver.GenPcap.{Options, default_options}
use udp_multicast_receiver.Args.{Text, scan, apply_all, words, scan-words}
use udp_multicast_receiver.Args.Generator.{
  CommandLine, default_command_line, GenOption, set_count, set_gap_at, set_gap_len,
  set_msgs_per_pkt, set_dup_at, set_rate_us, gen_name, gen_option_of, with_option, set_option,
  name_output, parse_args,
}

abbrev pub option_value : Options → GenOption → ℕ
option_value o set_count = o.count
option_value o set_gap_at = o.gap_at
option_value o set_gap_len = o.gap_len
option_value o set_msgs_per_pkt = o.msgs_per_pkt
option_value o set_dup_at = o.dup_at
option_value o set_rate_us = o.rate_us

abbrev pub same_option : GenOption → GenOption → Bool
same_option set_count set_count = true
same_option set_gap_at set_gap_at = true
same_option set_gap_len set_gap_len = true
same_option set_msgs_per_pkt set_msgs_per_pkt = true
same_option set_dup_at set_dup_at = true
same_option set_rate_us set_rate_us = true
same_option _ _ = false

-- A number in the width of the option's field.
abbrev pub fitted : GenOption → ℕ → ℕ
fitted set_msgs_per_pkt n = u16 n
fitted _ n = n

-- The last setting of the option `f`, or `d` if there is none.
abbrev pub last_setting : GenOption → List (GenOption × Text × ℕ) → ℕ → ℕ
last_setting f [] d = d
last_setting f ((g, word, n) ∷ xs) d = last_setting f xs (if same_option g f then fitted f n else d)

abbrev pub spelled : List (GenOption × Text × ℕ) → List (GenOption × Text)
spelled [] = []
spelled ((f, word, n) ∷ xs) = (f, word) ∷ spelled xs

-- Each word is read as its number.
abbrev pub IsRead : (Text → Option ℕ) → List (GenOption × Text × ℕ) → Type 0
IsRead stoull [] = Unit {0}
IsRead stoull ((f, word, n) ∷ xs) = (stoull word ≡ some n) × IsRead stoull xs

gen_name-read : (f : GenOption) → gen_option_of (gen_name f) ≡ some f
unfolding gen_option_of same_text
gen_name-read set_count = refl
gen_name-read set_gap_at = refl
gen_name-read set_gap_len = refl
gen_name-read set_msgs_per_pkt = refl
gen_name-read set_dup_at = refl
gen_name-read set_rate_us = refl

value-with_option :
    (f g : GenOption) (n : ℕ) (o : Options)
    → option_value (with_option g n o) f
      ≡ (if same_option g f then fitted f n else option_value o f)
value-with_option set_count g n o = ground arith
value-with_option set_gap_at g n o = ground arith
value-with_option set_gap_len g n o = ground arith
value-with_option set_msgs_per_pkt g n o = ground arith
value-with_option set_dup_at g n o = ground arith
value-with_option set_rate_us g n o = ground arith

module _ (stoull : Text → Option ℕ) where
  -- The options after the settings, one after the other.
  abbrev after : List (GenOption × Text × ℕ) → CommandLine → CommandLine
  after [] o = o
  after ((f, word, n) ∷ xs) o = after xs (record o { options = with_option f n o.options })

  apply_all-after :
      (xs : List (GenOption × Text × ℕ)) (o : CommandLine)
      → IsRead stoull xs
      → apply_all gen_option_of (set_option stoull) name_output (spelled xs) o ≡ some (after xs o)
  unfolding set_option
  apply_all-after [] o r = refl
  apply_all-after ((f, word, n) ∷ xs) o (e, r) =
      rw (e, apply_all, set_option)
        (apply_all-after xs (record o { options = with_option f n o.options }) r)

  after-value :
      (xs : List (GenOption × Text × ℕ)) (o : CommandLine) (f : GenOption)
      → option_value (after xs o).options f ≡ last_setting f xs (option_value o.options f)
  after-value [] o f = refl
  after-value ((g, word, n) ∷ xs) o f =
      after-value xs (record o { options = with_option g n o.options }) f
      ∙ ap (λ d. last_setting f xs d) (value-with_option f g n o.options)

-- A command line of the generator that gives options with numbers, in any order and with any
-- repetition, and then the name of a file that does not begin with '-': parsing gives that file,
-- and each option the number that its last mention gives, or its default if it is not mentioned;
-- `--msgs-per-pkt` keeps the low 16 bits.
pub parse_args-settings :
    (stoull : Text → Option ℕ) (xs : List (GenOption × Text × ℕ)) (file : Text)
    → IsRead stoull xs
    → (get_or file 0 0 == b'-') ≡ false
    → (o : CommandLine) × (parse_args stoull (words gen_name (spelled xs) (file ∷ [])) ≡ some o)
      × (o.output ≡ file)
      × ((f : GenOption)
          → option_value o.options f ≡ last_setting f xs (option_value default_options f))
unfolding parse_args scan name_output
parse_args-settings stoull xs file r plain =
    let ended = after stoull xs default_command_line in
    (
      record ended { output = file },
      scan-words gen_option_of (set_option stoull) name_output gen_name gen_name-read (spelled xs)
            (file ∷ []) default_command_line ended
            (apply_all-after stoull xs default_command_line r)
          ∙ (rw plain refl),
      refl,
      after-value stoull xs default_command_line,
    )
