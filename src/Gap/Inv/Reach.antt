-- ===== src/Gap/Inv/Reach.antt =====
-- Histories of a GapBuffer: datagrams and ticks in any order.
use udp_multicast_receiver.Common.{ℕ, ◌≡◌, refl, inl, Bool, true, false, List, length, u64, arith}
use udp_multicast_receiver.Gap.State.{
  GapBuffer, Config, holds, init, set_on_message, set_on_gap, set_on_retransmit,
}
use udp_multicast_receiver.Gap.Ingest.{ingest, tick}
use udp_multicast_receiver.Gap.Trace.{EndsAt, message_count}
use udp_multicast_receiver.Gap.Inv.{IsValid}
use udp_multicast_receiver.Gap.Inv.Agrees.{Agrees-IsValid}
use udp_multicast_receiver.Gap.Inv.Step.{NoWrap, ingest-IsValid, tick-IsValid}

-- One call from outside: a datagram from some line, a tick, or the setting of one more callback.
pub data Step : GapBuffer → GapBuffer → Type 0 where
  datagram :
      (g : GapBuffer) (payload : List ℕ) (now : ℕ)
      → NoWrap payload
      → Step g (ingest g payload now).0
  timer : (g : GapBuffer) (now : ℕ) → Step g (tick g now)
  gap_callback : (g : GapBuffer) → Step g (set_on_gap g)
  retransmit_callback : (g : GapBuffer) → Step g (set_on_retransmit g)

pub data Reach (s : GapBuffer) : GapBuffer → Type 0 where
  here : Reach s s
  next : {g h : GapBuffer} → Reach s g → Step g h → Reach s h

unfoldable pub start : Config → GapBuffer
unfolding set_on_message init
start cfg = set_on_message (init cfg)

callback_set :
    (g : GapBuffer) (gap_set retx_set : Bool)
    → IsValid g
    → IsValid (record g { on_gap = gap_set; on_retx = retx_set })
callback_set g gap_set retx_set v =
    Agrees-IsValid {g = g} {h = record g { on_gap = gap_set; on_retx = retx_set }}
      (record {
        same_listening = refl;
        same_session = refl;
        same_synced = refl;
        same_next = refl;
        same_slots = refl;
        same_delivered = refl;
        same_count = refl;
        same_end = λ n e. e;
        same_messages = λ later. refl;
      })
      refl v

pub start-IsValid : (cfg : Config) → length cfg.session ≡ 10 → IsValid (start cfg)
unfolding start
start-IsValid cfg h = record {
  sound = record {
    listening = refl;
    session_length = h;
    next_lt = omega arith;
    fits = λ i o. absurd (cc);
    fresh = λ u. (refl, refl);
    vacant = λ u i. refl;
    in_order = tt;
    counted = refl;
  };
  tracked = inl refl;
  settled = refl;
}

pub Step-IsValid : {g h : GapBuffer} → Step g h → IsValid g → IsValid h
unfolding set_on_gap set_on_retransmit
Step-IsValid (datagram g payload now fit) v = ingest-IsValid g payload now fit v
Step-IsValid (timer g now) v = tick-IsValid g now v
Step-IsValid (gap_callback g) v = callback_set g true g.on_retx v
Step-IsValid (retransmit_callback g) v = callback_set g g.on_gap true v

pub Reach-IsValid : {s g : GapBuffer} → IsValid s → Reach s g → IsValid g
Reach-IsValid v here = v
Reach-IsValid v (next r st) = Step-IsValid st (Reach-IsValid v r)

-- After any history of datagrams, ticks and callback settings of a buffer that was made with a
-- 10-byte session and an on_message callback, in which no packet's numbers pass 2 ^ 64: the
-- messages handed to on_message carry consecutive sequence numbers, without a hole, a repetition or
-- a change of order, up to the one before `next_expected`; `stat_delivered` is their number; and no
-- packet that starts at `next_expected` is held back in the buffer.
pub Reach-in_order :
    (cfg : Config) (g : GapBuffer)
    → length cfg.session ≡ 10
    → Reach (start cfg) g
    → EndsAt g.next_expected g.calls
      × (g.stats.delivered ≡ u64 (message_count g.calls))
      × (holds g g.next_expected ≡ false)
Reach-in_order cfg g h r =
    let v : IsValid g = Reach-IsValid (start-IsValid cfg h) r in
    (v.sound.in_order, v.sound.counted, v.settled)
