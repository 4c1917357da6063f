-- ===== src/Gap/Flow.antt =====
-- A stream of datagrams that arrives in order (include/feed/gap_buffer.hpp).
use udp_multicast_receiver.Common.{
  ℕ, suc, ◌+◌, ◌%◌, ◌≤◌, ◌≡◌, ◌∙◌, refl, ap, sym, subst, true, false, some, List, [], ◌∷◌, ◌++◌,
  append_assoc, append-nil, length, arith,
}
use udp_multicast_receiver.Wire.Mold.{MoldHeader, MoldMessage, parse}
use udp_multicast_receiver.Gap.State.{GapBuffer, Call, message, holds, capacity}
use udp_multicast_receiver.Gap.Deliver.{log_messages}
use udp_multicast_receiver.Gap.Ingest.{
  sync_session, clear_gap, count_packet, count_duplicate, ingest_parsed, ingest,
}
use udp_multicast_receiver.Gap.Trace.{sent_bodies, EndsAt, EndsAt-zero}
use udp_multicast_receiver.Gap.Framing.{
  numbered, header_of, datagram_of, IsDatagram, parse-datagram_of, advance,
}
use udp_multicast_receiver.Gap.Reorder.{ingest_in_order, ingest_delivered}
use udp_multicast_receiver.Gap.Held.{clear_gap_frame}
use udp_multicast_receiver.Gap.Inv.Step.{sync_session_first, sync_session_later}

-- A synced buffer that has delivered the bodies `sent` in order, waits for `q`, and holds nothing
-- back.
pub record Flowing (g : GapBuffer) (q : ℕ) (sent : List (List ℕ)) : Type 0 where
  pub listening : g.on_message ≡ true
  pub synced : g.session_synced ≡ true
  pub at_next : g.next_expected ≡ q
  pub no_gap : g.gap_start ≡ 0
  pub no_packet : (i : ℕ) → (g.slots i).occupied ≡ false
  pub ends : EndsAt q g.calls
  pub bodies : sent_bodies g.calls ≡ sent

-- A buffer before its first packet.
pub record IsFresh (g : GapBuffer) : Type 0 where
  pub listening : g.on_message ≡ true
  pub unsynced : g.session_synced ≡ false
  pub at_zero : g.next_expected ≡ 0
  pub no_gap : g.gap_start ≡ 0
  pub no_packet : (i : ℕ) → (g.slots i).occupied ≡ false
  pub ends : EndsAt 0 g.calls
  pub bodies : sent_bodies g.calls ≡ []

pub Flowing-at :
    {g : GapBuffer} {q q' : ℕ} {sent sent' : List (List ℕ)}
    → q ≡ q'
    → sent ≡ sent'
    → Flowing g q sent
    → Flowing g q' sent'
Flowing-at {g} {q} {q'} {sent} {sent'} e h f =
    subst (λ k. Flowing g q' k) h (subst (λ k. Flowing g k sent) e f)

log_messages-EndsAt :
    (recv q : ℕ) (bodies : List (List ℕ)) (calls : List Call)
    → EndsAt q calls
    → EndsAt (q + length bodies) (log_messages (numbered recv q bodies) calls)
log_messages-EndsAt recv q [] calls h = let same : q ≡ q + 0 = omega arith in rw same at h
log_messages-EndsAt recv q (body ∷ bodies) calls h =
    let same : q + 1 + length bodies ≡ q + suc (length bodies) = omega arith in
    let m : MoldMessage = record {
      length = length body;
      body = body;
      seq_num = q;
      recv_ns = recv;
    } in
    rw same at (log_messages-EndsAt recv (q + 1) bodies (message m ∷ calls) (refl, h))

pub sent_bodies-log_messages :
    (recv q : ℕ) (bodies : List (List ℕ)) (calls : List Call)
    → sent_bodies (log_messages (numbered recv q bodies) calls) ≡ sent_bodies calls ++ bodies
unfolding sent_bodies
sent_bodies-log_messages recv q [] calls = sym (append-nil (sent_bodies calls))
sent_bodies-log_messages recv q (body ∷ bodies) calls =
    let m : MoldMessage = record {
      length = length body;
      body = body;
      seq_num = q;
      recv_ns = recv;
    } in
    sent_bodies-log_messages recv (q + 1) bodies (message m ∷ calls)
    ∙ append_assoc (sent_bodies calls) (body ∷ []) bodies

module _ (g : GapBuffer) (s : List ℕ) (q : ℕ) (bodies : List (List ℕ)) (now : ℕ) where
  advance-Flowing :
      (sent : List (List ℕ))
      → Flowing g q sent
      → Flowing
          (clear_gap (advance (count_packet g (header_of s q bodies)) now bodies))
          (q + length bodies)
          (sent ++ bodies)
  unfolding count_packet
  advance-Flowing sent f =
      let after = advance (count_packet g (header_of s q bodies)) now bodies in
      let (next, calls, slots, listens, synced) = clear_gap_frame after in
      let moved : EndsAt (q + length bodies) after.calls =
        rw f.at_next (log_messages-EndsAt now q bodies g.calls f.ends) in
      record {
        listening = listens ∙ f.listening;
        synced = synced ∙ f.synced;
        at_next = next ∙ ap (λ k. k + length bodies) f.at_next;
        no_gap = unfold clear_gap in ground (arith, f.no_gap);
        no_packet = λ i. ap (λ h. (h i).occupied) slots ∙ f.no_packet i;
        ends = rw calls moved;
        bodies =
            ap sent_bodies calls
            ∙ sent_bodies-log_messages now g.next_expected bodies g.calls
            ∙ ap (λ sent. sent ++ bodies) f.bodies;
      }

  -- The next datagram of the stream.
  pub ingest-Flowing :
      (sent : List (List ℕ))
      → Flowing g q sent
      → IsDatagram s q bodies
      → Flowing (ingest g (datagram_of s q bodies) now).0 (q + length bodies) (sent ++ bodies)
  ingest-Flowing sent f d =
      let idle : holds g (g.next_expected + length bodies) ≡ false =
        ground (arith, f.no_packet ((g.next_expected + length bodies) % capacity)) in
      rw (ingest_in_order g s q bodies now f.listening f.synced (sym f.at_next) d idle)
        (advance-Flowing sent f)

  -- The calls that it makes.
  pub ingest-calls :
      (sent : List (List ℕ))
      → Flowing g q sent
      → IsDatagram s q bodies
      → (ingest g (datagram_of s q bodies) now).0.calls
        ≡ log_messages (numbered now q bodies) g.calls
  unfolding count_packet
  ingest-calls sent f d =
      let idle : holds g (g.next_expected + length bodies) ≡ false =
        ground (arith, f.no_packet ((g.next_expected + length bodies) % capacity)) in
      let (next, calls, slots, listens, synced) =
        clear_gap_frame (advance (count_packet g (header_of s q bodies)) now bodies) in
      rw (ingest_in_order g s q bodies now f.listening f.synced (sym f.at_next) d idle, calls)
        (ap (λ k. log_messages (numbered now k bodies) g.calls) f.at_next)

  -- A datagram of the stream that comes again.
  pub ingest_again-Flowing :
      (next : ℕ) (sent : List (List ℕ))
      → Flowing g next sent
      → IsDatagram s q bodies
      → q + length bodies ≤ next
      → Flowing (ingest g (datagram_of s q bodies) now).0 next sent
  unfolding count_packet count_duplicate
  ingest_again-Flowing next sent f d past =
      rw (ingest_delivered g s q bodies now f.synced d (omega (arith, f.at_next, past))) (record {
        listening = f.listening;
        synced = f.synced;
        at_next = f.at_next;
        no_gap = f.no_gap;
        no_packet = f.no_packet;
        ends = f.ends;
        bodies = f.bodies;
      })

module _ (g : GapBuffer) (s : List ℕ) (q : ℕ) (bodies : List (List ℕ)) (now : ℕ) where
  -- The buffer that the first datagram finds, once it has synced the session.
  abbrev synced_at : GapBuffer
  synced_at = record g { session = s; next_expected = q; session_synced = true }

  ingest_parsed_synced :
      (a b : GapBuffer) (hdr : MoldHeader) (p : List ℕ)
      → sync_session a hdr ≡ sync_session b hdr
      → ingest_parsed a hdr p now ≡ ingest_parsed b hdr p now
  unfolding ingest_parsed
  ingest_parsed_synced a b hdr p same = rw same refl

  ingest_on_parse :
      (a : GapBuffer) (hdr : MoldHeader) (p : List ℕ)
      → parse p ≡ some hdr
      → ingest a p now ≡ ((ingest_parsed a hdr p now).0, some (ingest_parsed a hdr p now).1)
  unfolding ingest ingest_parsed
  ingest_on_parse a hdr p e = rw (ingest, e) refl

  first_synced :
      IsFresh g
      → IsDatagram s q bodies
      → ingest g (datagram_of s q bodies) now ≡ ingest synced_at (datagram_of s q bodies) now
  first_synced f d =
      let hdr = header_of s q bodies in
      let p = datagram_of s q bodies in
      let parsed = parse-datagram_of s q bodies d in
      let same = ingest_parsed_synced g synced_at hdr p (
        sync_session_first g hdr f.unsynced f.at_zero
        ∙ sym (sync_session_later synced_at hdr refl)) in
      ingest_on_parse g hdr p parsed
      ∙ ap (λ r. (r.0, some r.1)) same
      ∙ sym (ingest_on_parse synced_at hdr p parsed)

  synced_at-Flowing : IsFresh g → Flowing synced_at q []
  synced_at-Flowing f = record {
    listening = f.listening;
    synced = refl;
    at_next = refl;
    no_gap = f.no_gap;
    no_packet = f.no_packet;
    ends = EndsAt-zero q g.calls f.ends;
    bodies = f.bodies;
  }

  -- The first datagram of the stream, whatever its number.
  pub ingest_first-Flowing :
      IsFresh g
      → IsDatagram s q bodies
      → Flowing (ingest g (datagram_of s q bodies) now).0 (q + length bodies) bodies
  ingest_first-Flowing f d =
      rw (first_synced f d) (ingest-Flowing synced_at s q bodies now [] (synced_at-Flowing f) d)

  pub ingest_first-calls :
      IsFresh g
      → IsDatagram s q bodies
      → (ingest g (datagram_of s q bodies) now).0.calls
        ≡ log_messages (numbered now q bodies) g.calls
  ingest_first-calls f d =
      rw (first_synced f d) (ingest-calls synced_at s q bodies now [] (synced_at-Flowing f) d)
