-- ===== src/Gap/Inv/Step.antt =====
-- Every entry point of include/feed/gap_buffer.hpp keeps the invariant.
use udp_multicast_receiver.Common.{
  ℕ, ◌+◌, ◌%◌, ◌^◌, ◌≤◌, ◌<◌, ◌≡◌, ◌≢◌, ◌⊎◌, ◌∙◌, refl, subst, inl, inr, true, false, some, List,
  sub64, Bool-cases, Option-cases, arith,
}
use udp_multicast_receiver.Wire.Mold.{MoldHeader, HeaderFits, parse, is_heartbeat}
use udp_multicast_receiver.Wire.Mold.RoundTrip.{parse-HeaderFits}
use udp_multicast_receiver.Gap.State.{GapBuffer, Stats, capacity, holds}
use udp_multicast_receiver.Gap.Deliver.{deliver_packet, flush_buffer}
use udp_multicast_receiver.Gap.Retransmit.{handle_gap, check_gap_timeout}
use udp_multicast_receiver.Gap.Ingest.{
  buffer_packet, sync_session, clear_gap, deliver_in_order, count_packet, count_duplicate,
  count_heartbeat, ingest_packet, ingest_parsed, ingest, tick,
}
use udp_multicast_receiver.Gap.Trace.{EndsAt, EndsAt-zero}
use udp_multicast_receiver.Gap.Flush.{flush_buffer-done}
use udp_multicast_receiver.Gap.Inv.{IsSound, IsValid}
use udp_multicast_receiver.Gap.Inv.Deliver.{
  deliver_packet_frame, deliver_packet-IsSound, IsAfter, flush_buffer-IsAfter,
}
use udp_multicast_receiver.Gap.Inv.Agrees.{
  Agrees, handle_gap-Agrees, Agrees-IsValid, check_gap_timeout-IsValid, handle_gap-IsValid,
}

-- A packet ahead of `next_expected` goes to a slot; nothing becomes deliverable by that.
buffer_packet-IsValid :
    (g : GapBuffer) (hdr : MoldHeader) (payload : List ℕ) (now : ℕ)
    → g.session_synced ≡ true
    → g.next_expected ≢ hdr.seq_num
    → hdr.seq_num + hdr.msg_count < 2 ^ 64
    → IsValid g
    → IsValid (buffer_packet g hdr payload now)
unfolding buffer_packet
buffer_packet-IsValid g hdr payload now y ne fit v = record {
  sound = record {
    listening = ground (arith, v.sound.listening);
    session_length = ground (arith, v.sound.session_length);
    next_lt = ground (arith, v.sound.next_lt);
    fits = λ i o. ground (arith, v.sound.fits i);
    fresh = λ u. ground arith;
    vacant = λ u i. ground arith;
    in_order = ground (arith, v.sound.in_order);
    counted = ground (arith, v.sound.counted);
  };
  tracked = ground (arith, v.tracked);
  settled = ground (arith, v.settled);
}

pub sync_session_later :
    (g : GapBuffer) (hdr : MoldHeader) → g.session_synced ≡ true → sync_session g hdr ≡ g
unfolding sync_session
sync_session_later g hdr y = ground arith

pub sync_session_first :
    (g : GapBuffer) (hdr : MoldHeader)
    → g.session_synced ≡ false
    → g.next_expected ≡ 0
    → sync_session g hdr
      ≡ record g { session = hdr.session; next_expected = hdr.seq_num; session_synced = true }
unfolding sync_session
sync_session_first g hdr n z = ground arith

-- The first packet sets `next_expected`; afterwards the session is synced.
sync_session-IsValid :
    (g : GapBuffer) (hdr : MoldHeader)
    → HeaderFits hdr
    → IsValid g
    → IsValid (sync_session g hdr) × ((sync_session g hdr).session_synced ≡ true)
sync_session-IsValid g hdr f v = elim (Bool-cases g.session_synced) [
  | inl y ↦ rw (sync_session_later g hdr y) (v, y)
  | inr n ↦
      let (z, closed) = v.sound.fresh n in
      let empty : (i : ℕ) → (g.slots i).occupied ≡ false = v.sound.vacant n in
      rw (sync_session_first g hdr n z) (
        record {
          sound = record {
            listening = v.sound.listening;
            session_length = f.session_length;
            next_lt = f.seq_num_lt;
            fits = v.sound.fits;
            fresh = λ u. absurd (cc);
            vacant = λ u. absurd (cc);
            in_order =
                EndsAt-zero hdr.seq_num g.calls (subst (λ k. EndsAt k g.calls) z v.sound.in_order);
            counted = v.sound.counted;
          };
          tracked = inl closed;
          settled = ground (arith, empty (hdr.seq_num % capacity));
        },
        refl,
      )
]

clear_gap-IsValid :
    (g : GapBuffer) (before : ℕ)
    → IsSound g
    → g.session_synced ≡ true
    → (g.gap_start ≡ 0) ⊎ (g.gap_start ≡ before)
    → before ≤ g.next_expected
    → holds g g.next_expected ≡ false
    → IsValid (clear_gap g)
unfolding clear_gap
clear_gap-IsValid g before s y t le done = record {
  sound = record {
    listening = ground (arith, s.listening);
    session_length = ground (arith, s.session_length);
    next_lt = ground (arith, s.next_lt);
    fits = λ i o. ground (arith, s.fits i);
    fresh = λ u. ground arith;
    vacant = λ u i. ground arith;
    in_order = ground (arith, s.in_order);
    counted = ground (arith, s.counted);
  };
  tracked = ground arith;
  settled = ground arith;
}

-- Delivery, the flush behind it and the clearing of the gap.
deliver_in_order-IsValid :
    (g : GapBuffer) (hdr : MoldHeader) (payload : List ℕ) (now : ℕ)
    → g.session_synced ≡ true
    → hdr.seq_num ≤ g.next_expected
    → hdr.seq_num + hdr.msg_count < 2 ^ 64
    → IsValid g
    → IsValid (deliver_in_order g hdr payload now).0
unfolding deliver_in_order
deliver_in_order-IsValid g hdr payload now y old fit v =
    let d : GapBuffer = (deliver_packet g hdr payload now).0 in
    let frame = deliver_packet_frame g hdr payload now in
    let a : IsAfter d (flush_buffer d).0 =
      flush_buffer-IsAfter d (deliver_packet-IsSound g hdr payload now v.sound old fit y)
        (frame.2 ∙ y) in
    clear_gap-IsValid (flush_buffer d).0 g.next_expected a.sound a.synced
      (ground (arith, a.same_gap, frame.1, v.tracked)) (omega (arith, a.forward, frame.3))
      (flush_buffer-done d)

-- Counters other than `delivered` do not matter.
restat-IsValid :
    (g : GapBuffer) (counters : Stats)
    → counters.delivered ≡ g.stats.delivered
    → IsValid g
    → IsValid (record g { stats = counters })
restat-IsValid g counters same v =
    Agrees-IsValid {g = g} {h = record g { stats = counters }}
      (record {
        same_listening = refl;
        same_session = refl;
        same_synced = refl;
        same_next = refl;
        same_slots = refl;
        same_delivered = same;
        same_count = refl;
        same_end = λ n e. e;
        same_messages = λ later. refl;
      })
      refl v

-- The packet that buffering leaves in its slot, or not, after the gap was noted.
abbrev pub hold_back : GapBuffer → MoldHeader → List ℕ → ℕ → GapBuffer
hold_back g hdr payload now =
    check_gap_timeout (buffer_packet (handle_gap g hdr.seq_num now) hdr payload now) now

abbrev pub last_of : MoldHeader → ℕ
last_of hdr = sub64 (hdr.seq_num + hdr.msg_count) 1

-- A packet is old, ahead, or in order.
pub ingest_packet_cases :
    (g : GapBuffer) (hdr : MoldHeader) (payload : List ℕ) (now : ℕ)
    → ((last_of hdr < g.next_expected) × (ingest_packet g hdr payload now ≡ (count_duplicate g, 0)))
      ⊎ ((g.next_expected < hdr.seq_num)
          × (ingest_packet g hdr payload now ≡ (hold_back g hdr payload now, 0)))
      ⊎ ((hdr.seq_num ≤ g.next_expected)
          × (ingest_packet g hdr payload now ≡ deliver_in_order g hdr payload now))
unfolding ingest_packet
ingest_packet_cases g hdr payload now = ground arith

hold_back-IsValid :
    (g : GapBuffer) (hdr : MoldHeader) (payload : List ℕ) (now : ℕ)
    → g.session_synced ≡ true
    → g.next_expected < hdr.seq_num
    → hdr.seq_num + hdr.msg_count < 2 ^ 64
    → IsValid g
    → IsValid (hold_back g hdr payload now)
hold_back-IsValid g hdr payload now y ahead fit v =
    let a : Agrees g (handle_gap g hdr.seq_num now) = handle_gap-Agrees g hdr.seq_num now in
    check_gap_timeout-IsValid _ now (
      buffer_packet-IsValid (handle_gap g hdr.seq_num now) hdr payload now (a.same_synced ∙ y)
        (rw a.same_next (λ e. omega arith)) fit (handle_gap-IsValid g hdr.seq_num now y v))

ingest_packet-IsValid :
    (g : GapBuffer) (hdr : MoldHeader) (payload : List ℕ) (now : ℕ)
    → g.session_synced ≡ true
    → hdr.seq_num + hdr.msg_count < 2 ^ 64
    → IsValid g
    → IsValid (ingest_packet g hdr payload now).0
ingest_packet-IsValid g hdr payload now y fit v = elim (ingest_packet_cases g hdr payload now) [
  | inl (_, e) ↦ rw e (unfold count_duplicate in restat-IsValid g _ refl v)
  | inr (inl (ahead, e)) ↦ rw e (hold_back-IsValid g hdr payload now y ahead fit v)
  | inr (inr (old, e)) ↦ rw e (deliver_in_order-IsValid g hdr payload now y old fit v)
]

ingest_parsed-IsValid :
    (g : GapBuffer) (hdr : MoldHeader) (payload : List ℕ) (now : ℕ)
    → HeaderFits hdr
    → hdr.seq_num + hdr.msg_count < 2 ^ 64
    → IsValid g
    → IsValid (ingest_parsed g hdr payload now).0
unfolding ingest_parsed count_packet count_heartbeat
ingest_parsed-IsValid g hdr payload now f fit v =
    let (synced, y) = sync_session-IsValid g hdr f v in
    let beat : IsValid (check_gap_timeout (count_heartbeat (sync_session g hdr)) now) =
      check_gap_timeout-IsValid _ now (restat-IsValid (sync_session g hdr) _ refl synced) in
    let data_packet : IsValid
        (ingest_packet (count_packet (sync_session g hdr) hdr) hdr payload now).0 =
      ingest_packet-IsValid _ hdr payload now y fit
        (restat-IsValid (sync_session g hdr) _ refl synced) in
    elim (Bool-cases (is_heartbeat hdr)) [ inl t ↦ rw t beat | inr n ↦ rw n data_packet ]

-- The header of a datagram leaves room for its messages below 2 ^ 64.
abbrev pub NoWrap : List ℕ → Type 0
NoWrap payload =
    (hdr : MoldHeader) → parse payload ≡ some hdr → hdr.seq_num + hdr.msg_count < 2 ^ 64

-- `ingest` keeps the invariant on every branch (parse error, heartbeat, duplicate, packet ahead,
-- and packet in order) for a datagram whose numbers stay below 2 ^ 64.
pub ingest-IsValid :
    (g : GapBuffer) (payload : List ℕ) (now : ℕ)
    → NoWrap payload
    → IsValid g
    → IsValid (ingest g payload now).0
unfolding ingest
ingest-IsValid g payload now fit v = elim (Option-cases (parse payload)) [
  | inl e ↦ rw (e, ingest) v
  | inr (hdr, e) ↦
      rw (e, ingest)
        (ingest_parsed-IsValid g hdr payload now (parse-HeaderFits payload hdr e) (fit hdr e) v)
]

-- `tick` keeps the invariant, at any time, in a gap or not.
pub tick-IsValid : (g : GapBuffer) (now : ℕ) → IsValid g → IsValid (tick g now)
unfolding tick
tick-IsValid g now v = check_gap_timeout-IsValid g now v
