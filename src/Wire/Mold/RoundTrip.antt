-- ===== src/Wire/Mold/RoundTrip.antt =====
-- MoldHeader::serialise and RetransmitRequest::serialise against MoldHeader::parse.
use udp_multicast_receiver.Common.{
  ℕ, ◌+◌, ◌<◌, ◌^◌, ◌≡◌, ◌∙◌, none, some, List, ◌++◌, length, take, drop, length-append,
  length-take, take-append, drop-append, append_assoc, append-nil, [], arith, ◌↔◌,
}
use udp_multicast_receiver.Wire.Endian.{put_be16, put_be64}
use udp_multicast_receiver.Wire.Endian.RoundTrip.{
  be16-put_be16, be64-put_be64, length-put_be16, length-put_be64, be16-lt, be64-lt,
}
use udp_multicast_receiver.Wire.Mold.{
  MoldHeader, HeaderFits, RetransmitRequest, parse, serialise, serialise_request,
}

-- A 10-byte field, a 64-bit and a 16-bit field, and what follows.
module _ (s : List ℕ) (q c : ℕ) (rest : List ℕ) (hs : length s ≡ 10) (hq : q < 2 ^ 64)
    (hc : c < 2 ^ 16) where
  packet : List ℕ
  packet = (s ++ (put_be64 q ++ put_be16 c)) ++ rest

  after_session : drop 10 packet ≡ put_be64 q ++ (put_be16 c ++ rest)
  unfolding packet
  after_session =
      rw append_assoc (drop-append 10 s _ hs ∙ append_assoc (put_be64 q) (put_be16 c) rest)

  after_seq : drop 18 packet ≡ put_be16 c ++ rest
  unfolding packet
  after_seq =
      rw
        (
          append_assoc s (put_be64 q ++ put_be16 c) rest,
          append_assoc (put_be64 q) (put_be16 c) rest,
          ← append_assoc s (put_be64 q) (put_be16 c ++ rest),
        )
        (drop-append 18 (s ++ put_be64 q) (put_be16 c ++ rest)
          (omega (arith, length-append s (put_be64 q), length-put_be64 q)))

  length-packet : length packet ≡ 20 + length rest
  unfolding packet
  length-packet = omega (
    arith,
    length-append (s ++ (put_be64 q ++ put_be16 c)) rest,
    length-append s (put_be64 q ++ put_be16 c),
    length-append (put_be64 q) (put_be16 c),
    length-put_be64 q,
    length-put_be16 c,
  )

  session_field : take 10 packet ≡ s
  unfolding packet
  session_field = rw append_assoc (take-append 10 s _ hs)

  parse-packet : parse packet ≡ some (record { session = s; seq_num = q; msg_count = c })
  unfolding parse
  parse-packet = ground (
    arith,
    length-packet,
    session_field,
    after_session,
    after_seq,
    be64-put_be64 q (put_be16 c ++ rest) hq,
    be16-put_be16 c rest hc,
  )

-- A header whose fields fit is read back from what `serialise` wrote, whatever follows it, and
-- `serialise` writes 20 bytes.
pub parse-serialise :
    (h : MoldHeader) (rest : List ℕ)
    → HeaderFits h
    → (parse (serialise h ++ rest) ≡ some h) × (length (serialise h) ≡ 20)
unfolding serialise packet
parse-serialise h rest f = (
  parse-packet h.session h.seq_num h.msg_count rest f.session_length f.seq_num_lt f.msg_count_lt,
  omega (
    arith,
    length-append h.session (put_be64 h.seq_num ++ put_be16 h.msg_count),
    length-append (put_be64 h.seq_num) (put_be16 h.msg_count),
    length-put_be64 h.seq_num,
    length-put_be16 h.msg_count,
    f.session_length,
  ),
)

-- A retransmit request is laid out as a header: 20 bytes, from which `parse` gives back the
-- session, the first sequence number and the count.
pub parse-serialise_request :
    (r : RetransmitRequest)
    → length r.session ≡ 10
    → r.first_seq < 2 ^ 64
    → r.count < 2 ^ 16
    → parse (serialise_request r)
      ≡ some (record { session = r.session; seq_num = r.first_seq; msg_count = r.count })
unfolding serialise_request packet
parse-serialise_request r hs hf hc =
    rw append-nil at (parse-packet r.session r.first_seq r.count [] hs hf hc)

-- `parse` refuses exactly the buffers shorter than 20 bytes.
pub parse_short : (buf : List ℕ) → (parse buf ≡ none) ↔ (length buf < 20)
unfolding parse
parse_short buf = ground arith

-- The fields of a header that `parse` gives are in range.
pub parse-HeaderFits : (buf : List ℕ) (h : MoldHeader) → parse buf ≡ some h → HeaderFits h
unfolding parse
parse-HeaderFits buf h e =
    ground (arith, be64-lt (drop 10 buf), be16-lt (drop 18 buf), length-take 10 buf)
