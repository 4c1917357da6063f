-- ===== src/Gap/Inv.antt =====
-- What holds of a GapBuffer between two calls, and in the middle of one.
pub mod Deliver
pub mod Agrees
pub mod Step
pub mod Reach
use udp_multicast_receiver.Common.{ℕ, ◌+◌, ◌^◌, ◌<◌, ◌≡◌, ◌⊎◌, Bool, true, false, length, u64}
use udp_multicast_receiver.Gap.State.{GapBuffer, holds}
use udp_multicast_receiver.Gap.Trace.{EndsAt, message_count}

-- Of a buffer whose on_message is set.
pub record IsSound (g : GapBuffer) : Type 0 where
  pub listening : g.on_message ≡ true
  pub session_length : length g.session ≡ 10
  pub next_lt : g.next_expected < 2 ^ 64
  -- No packet in a slot runs past the last sequence number.
  pub fits :
      (i : ℕ) → (g.slots i).occupied ≡ true → (g.slots i).seq_num + (g.slots i).msg_count < 2 ^ 64
  -- Before the session is synced nothing has happened.
  pub fresh : g.session_synced ≡ false → (g.next_expected ≡ 0) × (g.gap_start ≡ 0)
  pub vacant : g.session_synced ≡ false → (i : ℕ) → (g.slots i).occupied ≡ false
  -- The messages delivered are gap-free, in order, and end just below `next_expected`.
  pub in_order : EndsAt g.next_expected g.calls
  pub counted : g.stats.delivered ≡ u64 (message_count g.calls)

pub record IsValid (g : GapBuffer) : Type 0 where
  pub sound : IsSound g
  -- A gap that is tracked starts at `next_expected`.
  pub tracked : (g.gap_start ≡ 0) ⊎ (g.gap_start ≡ g.next_expected)
  -- Nothing is held back that could be delivered.
  pub settled : holds g g.next_expected ≡ false
