-- ===== src/Gap/Gather.antt =====
-- A stream of datagrams that arrive in any order, and again, at include/feed/gap_buffer.hpp.
pub mod Slots
pub mod Deliver
pub mod Seen
pub mod Kept
pub mod Steps
pub mod Closed
pub mod Events
pub mod Whole
pub mod Prefix
use udp_multicast_receiver.Common.{
  ℕ, ◌+◌, ◌%◌, ◌≤◌, ◌<◌, ◌≡◌, ◌⊎◌, ◌∙◌, refl, ap, sym, inl, inr, Bool, true, false, ◌||◌, List, [],
  ◌∷◌, ◌++◌, length, ltb, leb, ◌==◌, arith,
}
use udp_multicast_receiver.Gap.State.{GapBuffer, max_packet_bytes, capacity, holds}
use udp_multicast_receiver.Gap.Ingest.{ingest, tick}
use udp_multicast_receiver.Gap.Framing.{frames, datagram_of, IsDatagram}
use udp_multicast_receiver.Gap.Trace.{sent_bodies}
use udp_multicast_receiver.Gap.Held.{filled_slot}

-- The messages of one datagram of the stream, from number `seq` on.
pub record Chunk : Type 0 where
  pub seq : ℕ
  pub bodies : List (List ℕ)

abbrev pub past : Chunk → ℕ
past p = p.seq + length p.bodies

abbrev pub In : Chunk → List Chunk → Type 0
In p [] = ⊥
In p (x ∷ ps) = (p ≡ x) ⊎ In p ps

-- The datagrams follow one another from `q` to `end`.
abbrev pub Follows : ℕ → List Chunk → ℕ → Type 0
Follows q [] end = q ≡ end
Follows q (p ∷ ps) end = (p.seq ≡ q) × Follows (past p) ps end

abbrev pub all_bodies : List Chunk → List (List ℕ)
all_bodies [] = []
all_bodies (p ∷ ps) = p.bodies ++ all_bodies ps

-- A well-formed datagram whose messages fit a slot.
abbrev pub IsHoldable : List ℕ → Chunk → Type 0
IsHoldable s p = IsDatagram s p.seq p.bodies × (length (frames p.bodies) ≤ max_packet_bytes)

-- What happens at the buffer: a datagram arrives, or the timer runs.
pub data Event : Type 0 where
  arrives : Chunk → ℕ → Event
  ticks : ℕ → Event

unfoldable pub happen : List ℕ → GapBuffer → Event → GapBuffer
happen s g (arrives p now) = (ingest g (datagram_of s p.seq p.bodies) now).0
happen s g (ticks now) = tick g now

unfoldable pub happen_all : List ℕ → GapBuffer → List Event → GapBuffer
happen_all s g [] = g
happen_all s g (e ∷ es) = happen_all s (happen s g e) es

-- A datagram that starts at `seq` is among the events.
abbrev pub arrived : ℕ → List Event → Bool
arrived seq [] = false
arrived seq (arrives p now ∷ es) = p.seq == seq || arrived seq es
arrived seq (ticks now ∷ es) = arrived seq es

-- Each datagram is one of the stream and starts less than 4096 numbers above what the buffer waits
-- for.
abbrev pub Near : List ℕ → List Chunk → GapBuffer → List Event → Type 0
Near s ps g [] = Unit {0}
Near s ps g (arrives p now ∷ es) =
    In p ps × (p.seq < g.next_expected + capacity) × Near s ps (happen s g (arrives p now)) es
Near s ps g (ticks now ∷ es) = Near s ps (happen s g (ticks now)) es

pub Follows-le :
    (q : ℕ) (ps : List Chunk) (end : ℕ) (p : Chunk) → Follows q ps end → In p ps → q ≤ p.seq
Follows-le q [] end p f i = absurd i
Follows-le q (x ∷ ps) end p f (inl e) = omega (arith, f.0, ap (λ c. c.seq) e)
Follows-le q (x ∷ ps) end p f (inr i) = omega (arith, f.0, Follows-le (past x) ps end p f.1 i)

-- What delivery reads of a buffer between two events: `todo` is left of the stream `ps`, and what
-- was delivered and what is left make up `total`.
pub record Loose (s : List ℕ) (ps : List Chunk) (total : List (List ℕ)) (end : ℕ) (g : GapBuffer)
    (todo : List Chunk) : Type 0 where
  pub listening : g.on_message ≡ true
  pub synced : g.session_synced ≡ true
  pub session_length : length g.session ≡ 10
  pub follows : Follows g.next_expected todo end
  pub sum : sent_bodies g.calls ++ all_bodies todo ≡ total
  -- A packet that is held back is left to do, and near.
  pub filled :
      (i : ℕ)
      → (g.slots i).occupied ≡ true
      → (p : Chunk) × (now : ℕ) × In p todo
        × (p.seq < g.next_expected + capacity)
        × (p.seq % capacity ≡ i)
        × (g.slots i ≡ filled_slot s p.seq p.bodies now)
  -- A datagram of the stream is delivered or left to do.
  pub split : (p : Chunk) → In p ps → (past p ≤ g.next_expected) ⊎ In p todo
  pub within : (p : Chunk) → In p todo → In p ps

-- Every datagram in `seen` that is left to do is held back.
abbrev pub Covers : GapBuffer → List Chunk → (ℕ → Bool) → Type 0
Covers g todo seen = (p : Chunk) → In p todo → seen p.seq ≡ true → holds g p.seq ≡ true

pub In-right : (p : Chunk) (olds ps : List Chunk) → In p ps → In p (olds ++ ps)
In-right p [] ps i = i
In-right p (x ∷ olds) ps i = inr (In-right p olds ps i)

pub In-either : (p : Chunk) (olds ps : List Chunk) → In p (olds ++ ps) → In p olds ⊎ In p ps
In-either p [] ps i = inr i
In-either p (x ∷ olds) ps (inl e) = inl (inl e)
In-either p (x ∷ olds) ps (inr i) = elim (In-either p olds ps i) [
  | inl j ↦ inl (inr j)
  | inr j ↦ inr j
]

-- What is held back or was delivered of `stream` is in `seen`.
pub record Took (stream : List Chunk) (g : GapBuffer) (todo : List Chunk) (seen : ℕ → Bool)
    : Type 0 where
  pub done : List Chunk
  pub split_at : stream ≡ done ++ todo
  pub done_seen : (x : Chunk) → In x done → seen x.seq ≡ true
  pub slots_seen : (i : ℕ) → (g.slots i).occupied ≡ true → seen (g.slots i).seq_num ≡ true
