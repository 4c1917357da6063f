-- ===== src/GenPcap/Orders.antt =====
-- The messages and the datagrams of tools/gen_pcap.cpp.
use udp_multicast_receiver.Common.{
  ℕ, zero, suc, ◌+◌, ◌*◌, ◌^◌, ◌≤◌, ◌<◌, ◌≡◌, refl, ap, List, [], ◌∷◌, ◌++◌, length, length-append,
  u16, u64, arith,
}
use udp_multicast_receiver.Wire.Endian.{put_be16, put_be32, put_be64}
use udp_multicast_receiver.Wire.Endian.RoundTrip.{length-put_be16, length-put_be32, length-put_be64}
use udp_multicast_receiver.Wire.Mold.{serialise}
use udp_multicast_receiver.Gap.Framing.{frames, Fits16, datagram_of, IsDatagram}
use udp_multicast_receiver.GenPcap.{aapl, synthetic, make_add_order, msg_payload, gen_packet}

-- The message bodies of a packet.
abbrev pub orders : ℕ → ℕ → List (List ℕ)
orders zero seq = []
orders (suc n) seq = make_add_order seq ∷ orders n (seq + 1)

pub length-orders : (n seq : ℕ) → length (orders n seq) ≡ n
length-orders zero seq = refl
length-orders (suc n) seq = ap suc (length-orders n (seq + 1))

pub orders-append : (m n seq : ℕ) → orders m seq ++ orders n (seq + m) ≡ orders (m + n) seq
orders-append zero n seq =
    let same : seq + 0 ≡ seq = omega arith in
    let none_more : 0 + n ≡ n = omega arith in rw (same, none_more) refl
orders-append (suc m) n seq =
    let next : seq + suc m ≡ seq + 1 + m = omega arith in
    let more : suc m + n ≡ suc (m + n) = omega arith in
    rw (next, more) (ap (λ rest. make_add_order seq ∷ rest) (orders-append m n (seq + 1)))

length-make_add_order : (ref : ℕ) → length (make_add_order ref) ≡ 36
unfolding make_add_order
length-make_add_order ref = omega (
  arith,
  length-append (put_be64 ref) (b'B' ∷ (put_be32 100 ++ (aapl ++ put_be32 1_500_000))),
  length-append (put_be32 100) (aapl ++ put_be32 1_500_000),
  length-put_be64 ref,
  length-put_be32 100,
  length-put_be32 1_500_000,
)

orders-Fits16 : (n seq : ℕ) → Fits16 (orders n seq)
orders-Fits16 zero seq = tt
orders-Fits16 (suc n) seq = (omega (arith, length-make_add_order seq), orders-Fits16 n (seq + 1))

msg_payload-frames : (n seq : ℕ) → seq + n < 2 ^ 64 → msg_payload n seq ≡ frames (orders n seq)
unfolding msg_payload frames
msg_payload-frames zero seq h = refl
msg_payload-frames (suc n) seq h =
    let wraps : u64 (seq + 1) ≡ seq + 1 = omega arith in
    let size : u16 (length (make_add_order seq)) ≡ length (make_add_order seq) =
      omega (arith, length-make_add_order seq) in
    rw (wraps, size, msg_payload-frames n (seq + 1) (omega arith)) refl

length-msg_payload : (n seq : ℕ) → length (msg_payload n seq) ≡ 38 * n
unfolding msg_payload
length-msg_payload zero seq = refl
length-msg_payload (suc n) seq =
    let rest : List ℕ = msg_payload n (u64 (seq + 1)) in
    omega (
      arith,
      length-append (put_be16 (u16 (length (make_add_order seq)))) (make_add_order seq ++ rest),
      length-append (make_add_order seq) rest,
      length-put_be16 (u16 (length (make_add_order seq))),
      length-make_add_order seq,
      length-msg_payload n (u64 (seq + 1)),
    )

-- A packet of the generator is a well-formed datagram.
pub gen_packet-datagram_of :
    (n seq : ℕ) → seq + n < 2 ^ 64 → gen_packet n seq ≡ datagram_of synthetic seq (orders n seq)
unfolding gen_packet datagram_of
gen_packet-datagram_of n seq h = rw (msg_payload-frames n seq h, length-orders n seq) refl

pub orders-IsDatagram :
    (n seq : ℕ) → 0 < n → n ≤ 1722 → seq + n < 2 ^ 64 → IsDatagram synthetic seq (orders n seq)
orders-IsDatagram n seq pos small h = record {
  session_length = refl;
  bodies_fit = orders-Fits16 n seq;
  some_body = omega (arith, length-orders n seq);
  count_fits = omega (arith, length-orders n seq);
  seq_fits = omega (arith, length-orders n seq);
}

pub length-gen_packet : (n seq : ℕ) → length (gen_packet n seq) ≡ 20 + 38 * n
unfolding gen_packet serialise
length-gen_packet n seq = omega (
  arith,
  length-append (serialise (record { session = synthetic; seq_num = seq; msg_count = n }))
      (msg_payload n seq),
  length-append (put_be64 seq) (put_be16 n),
  length-put_be64 seq,
  length-put_be16 n,
  length-msg_payload n seq,
)
