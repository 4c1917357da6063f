-- ===== src/Gap/Trace.antt =====
-- What the downstream callback has seen, read off the record of calls.
use udp_multicast_receiver.Common.{
  ℕ, suc, ◌+◌, ◌≡◌, List, [], ◌∷◌, ◌++◌, length, length-append, refl, arith,
}
use udp_multicast_receiver.Wire.Mold.{MoldMessage}
use udp_multicast_receiver.Gap.State.{Call, message, gap, retransmit}
use udp_multicast_receiver.Gap.Deliver.{log_messages}

-- The messages delivered carry consecutive sequence numbers in the order of delivery, and the last
-- one is `n` less 1. The newest call stands first.
abbrev pub EndsAt : ℕ → List Call → Type 0
EndsAt n [] = Unit {0}
EndsAt n (message m ∷ calls) = (m.seq_num + 1 ≡ n) × EndsAt m.seq_num calls
EndsAt n (gap ev ∷ calls) = EndsAt n calls
EndsAt n (retransmit req ∷ calls) = EndsAt n calls

-- The messages delivered, oldest first, on top of `later`.
abbrev pub delivered : List Call → List MoldMessage → List MoldMessage
delivered [] later = later
delivered (message m ∷ calls) later = delivered calls (m ∷ later)
delivered (gap ev ∷ calls) later = delivered calls later
delivered (retransmit req ∷ calls) later = delivered calls later

abbrev pub message_count : List Call → ℕ
message_count [] = 0
message_count (message m ∷ calls) = suc (message_count calls)
message_count (gap ev ∷ calls) = message_count calls
message_count (retransmit req ∷ calls) = message_count calls

pub message_count-log_messages :
    (ms : List MoldMessage) (calls : List Call)
    → message_count (log_messages ms calls) ≡ length ms + message_count calls
message_count-log_messages [] calls = omega arith
message_count-log_messages (m ∷ ms) calls =
    omega (arith, message_count-log_messages ms (message m ∷ calls))

-- Before anything is delivered, any number may come next.
pub EndsAt-zero : (n : ℕ) (calls : List Call) → EndsAt 0 calls → EndsAt n calls
EndsAt-zero n [] h = tt
EndsAt-zero n (message m ∷ calls) h = absurd (omega (arith, h.0))
EndsAt-zero n (gap ev ∷ calls) h = EndsAt-zero n calls h
EndsAt-zero n (retransmit req ∷ calls) h = EndsAt-zero n calls h

-- The bodies delivered, oldest first.
unfoldable pub sent_bodies : List Call → List (List ℕ)
sent_bodies [] = []
sent_bodies (message m ∷ calls) = sent_bodies calls ++ (m.body ∷ [])
sent_bodies (gap ev ∷ calls) = sent_bodies calls
sent_bodies (retransmit req ∷ calls) = sent_bodies calls

pub length-sent_bodies : (calls : List Call) → length (sent_bodies calls) ≡ message_count calls
unfolding sent_bodies
length-sent_bodies [] = refl
length-sent_bodies (message m ∷ calls) =
    omega (arith, length-append (sent_bodies calls) (m.body ∷ []), length-sent_bodies calls)
length-sent_bodies (gap ev ∷ calls) = length-sent_bodies calls
length-sent_bodies (retransmit req ∷ calls) = length-sent_bodies calls
