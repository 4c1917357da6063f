-- ===== src/Gap/State.antt =====
-- The data of include/feed/gap_buffer.hpp: configuration, slots, counters and the buffer itself.
use udp_multicast_receiver.Common.{
  ℕ, ◌%◌, Bool, true, false, ◌&&◌, not, List, [], replicate, ◌==◌, if◌then◌else◌,
}
use udp_multicast_receiver.Wire.Mold.{MoldMessage, RetransmitRequest}

pub record GapEvent : Type 0 where
  pub first_missing_seq : ℕ
  pub last_missing_seq : ℕ
  pub detected_at_ns : ℕ

abbrev pub max_packet_bytes : ℕ
max_packet_bytes = 1500

-- `contents` is the first `data_len` bytes of `data`; the others are never read.
pub record BufferedPacket : Type 0 where
  pub seq_num : ℕ
  pub msg_count : ℕ
  pub occupied : Bool
  pub recv_ns : ℕ
  pub contents : List ℕ

abbrev pub capacity : ℕ
capacity = 4096

pub record Config : Type 0 where
  pub gap_timeout_ns : ℕ
  pub retry_interval_ns : ℕ
  pub max_retransmit_count : ℕ
  pub session : List ℕ

unfoldable pub default_config : Config
default_config = record {
  gap_timeout_ns = 100_000;
  retry_interval_ns = 1_000_000;
  max_retransmit_count = 100;
  session = replicate 10 b' ';
}

pub record Stats : Type 0 where
  pub packets : ℕ
  pub messages : ℕ
  pub gaps : ℕ
  pub duplicates : ℕ
  pub delivered : ℕ
  pub retx : ℕ
  pub heartbeats : ℕ
  pub buffer_overflows : ℕ

-- One call of a callback.
pub data Call : Type 0 where
  message : MoldMessage → Call
  gap : GapEvent → Call
  retransmit : RetransmitRequest → Call

-- `on_message`, `on_gap` and `on_retx` tell whether that callback is set. `calls` records the calls
-- made so far, the newest first; the code keeps no such record. `slots` is read below `capacity`.
pub record GapBuffer : Type 0 where
  pub cfg : Config
  pub session : List ℕ
  pub session_synced : Bool
  pub next_expected : ℕ
  pub gap_start : ℕ
  pub gap_detected_at_ns : ℕ
  pub gap_last_retx_ns : ℕ
  pub on_message : Bool
  pub on_gap : Bool
  pub on_retx : Bool
  pub slots : ℕ → BufferedPacket
  pub stats : Stats
  pub calls : List Call

abbrev pub empty_slot : BufferedPacket
empty_slot = record { seq_num = 0; msg_count = 0; occupied = false; recv_ns = 0; contents = [] }

abbrev pub no_stats : Stats
no_stats = record {
  packets = 0;
  messages = 0;
  gaps = 0;
  duplicates = 0;
  delivered = 0;
  retx = 0;
  heartbeats = 0;
  buffer_overflows = 0;
}

unfoldable pub init : Config → GapBuffer
init cfg = record {
  cfg = cfg;
  session = cfg.session;
  session_synced = false;
  next_expected = 0;
  gap_start = 0;
  gap_detected_at_ns = 0;
  gap_last_retx_ns = 0;
  on_message = false;
  on_gap = false;
  on_retx = false;
  slots = λ _. empty_slot;
  stats = no_stats;
  calls = [];
}

-- The setters, with a callback that is not empty.
unfoldable pub set_on_message : GapBuffer → GapBuffer
set_on_message g = record g { on_message = true }

unfoldable pub set_on_gap : GapBuffer → GapBuffer
set_on_gap g = record g { on_gap = true }

unfoldable pub set_on_retransmit : GapBuffer → GapBuffer
set_on_retransmit g = record g { on_retx = true }

unfoldable pub in_gap : GapBuffer → Bool
in_gap g = not (g.gap_start == 0)

-- `slots_[i] = s`
abbrev pub write_slot : (ℕ → BufferedPacket) → ℕ → BufferedPacket → ℕ → BufferedPacket
write_slot slots i s j = if i == j then s else slots j

-- `slots_[seq & kMask]`; the mask is 2 ^ 12 - 1.
abbrev pub slot_of : GapBuffer → ℕ → BufferedPacket
slot_of g seq = g.slots (seq % capacity)

-- `slot.occupied && slot.seq_num == seq`, for the slot of `seq`.
abbrev pub holds : GapBuffer → ℕ → Bool
holds g seq = (slot_of g seq).occupied && (slot_of g seq).seq_num == seq
