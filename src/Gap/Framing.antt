-- ===== src/Gap/Framing.antt =====
-- Well-formed datagrams: the framing that the header comment of include/feed/wire_format.hpp gives,
-- and what deliver_packet of include/feed/gap_buffer.hpp makes of it.
use udp_multicast_receiver.Common.{
  ℕ, suc, ◌+◌, ◌^◌, ◌≤◌, ◌<◌, ◌≡◌, refl, ap, true, some, List, [], ◌∷◌, ◌++◌, length, drop, All,
  take-append, drop-append, length-append, u64, arith,
}
use udp_multicast_receiver.Wire.Endian.{put_be16}
use udp_multicast_receiver.Wire.Endian.RoundTrip.{be16-put_be16, length-put_be16}
use udp_multicast_receiver.Wire.Mold.{
  MoldHeader, MoldMessage, HeaderFits, header_size, parse, serialise,
}
use udp_multicast_receiver.Wire.Mold.RoundTrip.{parse-serialise}
use udp_multicast_receiver.Gap.State.{GapBuffer, Call, message}
use udp_multicast_receiver.Gap.Deliver.{walk, log_messages, deliver_packet}
use udp_multicast_receiver.Gap.Trace.{delivered}

-- Each message behind its 16-bit length.
unfoldable pub frames : List (List ℕ) → List ℕ
frames [] = []
frames (body ∷ bodies) = put_be16 (length body) ++ (body ++ frames bodies)

-- The messages in a datagram that starts at `seq`.
abbrev pub numbered : ℕ → ℕ → List (List ℕ) → List MoldMessage
numbered recv seq [] = []
numbered recv seq (body ∷ bodies) =
    record { length = length body; body = body; seq_num = seq; recv_ns = recv }
    ∷ numbered recv (seq + 1) bodies

pub length-numbered :
    (recv seq : ℕ) (bodies : List (List ℕ)) → length (numbered recv seq bodies) ≡ length bodies
length-numbered recv seq [] = refl
length-numbered recv seq (body ∷ bodies) = ap suc (length-numbered recv (seq + 1) bodies)

abbrev pub Fits16 : List (List ℕ) → Type 0
Fits16 = All (λ (body : List ℕ). length body < 2 ^ 16)

walk-frames_round :
    (next recv n seq : ℕ) (body more : List ℕ)
    → length body < 2 ^ 16
    → next ≤ seq
    → walk next recv (suc n) seq (put_be16 (length body) ++ (body ++ more)) ≡ (
      record { length = length body; body = body; seq_num = seq; recv_ns = recv }
          ∷ (walk next recv n (u64 (seq + 1)) more).0,
      (walk next recv n (u64 (seq + 1)) more).1,
    )
unfolding walk
walk-frames_round next recv n seq body more fit ge = ground (
  arith,
  be16-put_be16 (length body) (body ++ more) fit,
  drop-append 2 (put_be16 (length body)) (body ++ more) (length-put_be16 (length body)),
  take-append (length body) body more refl,
  drop-append (length body) body more refl,
  length-append (put_be16 (length body)) (body ++ more),
  length-put_be16 (length body),
  length-append body more,
)

-- The walk takes every message of a well-formed datagram that starts at `next` or later.
pub walk-frames :
    (next recv seq : ℕ) (bodies : List (List ℕ))
    → Fits16 bodies
    → next ≤ seq
    → seq + length bodies < 2 ^ 64
    → walk next recv (length bodies) seq (frames bodies)
      ≡ (numbered recv seq bodies, seq + length bodies)
unfolding frames
walk-frames next recv seq [] f ge fit = unfold walk in ground arith
walk-frames next recv seq (body ∷ bodies) f ge fit =
    let wraps : u64 (seq + 1) ≡ seq + 1 = omega arith in
    rw
      (
        walk-frames_round next recv (length bodies) seq body (frames bodies) f.0 ge,
        wraps,
        walk-frames next recv (seq + 1) bodies f.1 (omega arith) (omega arith),
      )
      (ap (λ (k : ℕ). (numbered recv seq (body ∷ bodies), k)) (omega arith))

-- A datagram: the header, and behind it the messages that the header counts.
abbrev pub header_of : List ℕ → ℕ → List (List ℕ) → MoldHeader
header_of session seq bodies = record {
  session = session;
  seq_num = seq;
  msg_count = length bodies;
}

unfoldable pub datagram_of : List ℕ → ℕ → List (List ℕ) → List ℕ
datagram_of session seq bodies = serialise (header_of session seq bodies) ++ frames bodies

-- The datagram's fields fit, and its numbers stay below 2 ^ 64.
pub record IsDatagram (session : List ℕ) (seq : ℕ) (bodies : List (List ℕ)) : Type 0 where
  pub session_length : length session ≡ 10
  pub bodies_fit : Fits16 bodies
  pub some_body : 0 < length bodies
  pub count_fits : length bodies < 2 ^ 16
  pub seq_fits : seq + length bodies < 2 ^ 64

pub drop-serialise :
    (h : MoldHeader) (rest : List ℕ)
    → length h.session ≡ 10
    → h.seq_num < 2 ^ 64
    → h.msg_count < 2 ^ 16
    → drop header_size (serialise h ++ rest) ≡ rest
drop-serialise h rest hs hq hc =
    drop-append 20 (serialise h) rest
      (parse-serialise h [] (record { session_length = hs; seq_num_lt = hq; msg_count_lt = hc })).1

module _ (session : List ℕ) (seq : ℕ) (bodies : List (List ℕ))
    (d : IsDatagram session seq bodies) where
  header_of-HeaderFits : HeaderFits (header_of session seq bodies)
  header_of-HeaderFits = record {
    session_length = d.session_length;
    seq_num_lt = omega (arith, d.seq_fits);
    msg_count_lt = d.count_fits;
  }

  pub parse-datagram_of :
      parse (datagram_of session seq bodies) ≡ some (header_of session seq bodies)
  unfolding datagram_of
  parse-datagram_of =
      (parse-serialise (header_of session seq bodies) (frames bodies) header_of-HeaderFits).0

  pub drop-datagram_of : drop header_size (datagram_of session seq bodies) ≡ frames bodies
  unfolding datagram_of
  drop-datagram_of =
      drop-serialise (header_of session seq bodies) (frames bodies) d.session_length
        (omega (arith, d.seq_fits)) d.count_fits

-- The buffer after every message of a datagram was delivered.
abbrev pub advance : GapBuffer → ℕ → List (List ℕ) → GapBuffer
advance g recv bodies = record g {
  next_expected = g.next_expected + length bodies;
  stats = record g.stats { delivered = u64 (g.stats.delivered + length bodies) };
  calls = log_messages (numbered recv g.next_expected bodies) g.calls;
}

-- A datagram that starts at `next_expected` is delivered whole.
pub deliver_packet-frames :
    (g : GapBuffer) (hdr : MoldHeader) (payload : List ℕ) (recv : ℕ) (bodies : List (List ℕ))
    → g.on_message ≡ true
    → hdr.seq_num ≡ g.next_expected
    → hdr.msg_count ≡ length bodies
    → drop header_size payload ≡ frames bodies
    → Fits16 bodies
    → 0 < length bodies
    → g.next_expected + length bodies < 2 ^ 64
    → deliver_packet g hdr payload recv ≡ (advance g recv bodies, length bodies)
unfolding deliver_packet
deliver_packet-frames g hdr payload recv bodies on es en ed f pos fit =
    rw (es, en, ed, walk-frames g.next_expected recv g.next_expected bodies f (omega arith) fit)
      (ground (arith, length-numbered recv g.next_expected bodies))

pub delivered-log_messages :
    (ms : List MoldMessage) (calls : List Call) (later : List MoldMessage)
    → delivered (log_messages ms calls) later ≡ delivered calls (ms ++ later)
delivered-log_messages [] calls later = refl
delivered-log_messages (m ∷ ms) calls later = delivered-log_messages ms (message m ∷ calls) later
