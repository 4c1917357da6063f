-- ===== src/Wire/Mold.antt =====
-- The MoldUDP64 framing of include/feed/wire_format.hpp. `parse(buf, len)` takes the `len` bytes at
-- `buf` as one list.
pub mod RoundTrip
use udp_multicast_receiver.Common.{
  ℕ, ◌<◌, ◌^◌, ◌≡◌, Bool, Option, none, some, List, ◌++◌, length, take, drop, ltb, ◌==◌,
  if◌then◌else◌,
}
use udp_multicast_receiver.Wire.Endian.{be16, be64, put_be16, put_be64}

abbrev pub header_size : ℕ
header_size = 20

pub record MoldHeader : Type 0 where
  pub session : List ℕ
  pub seq_num : ℕ
  pub msg_count : ℕ

-- The ranges of the C++ fields.
pub record HeaderFits (h : MoldHeader) : Type 0 where
  pub session_length : length h.session ≡ 10
  pub seq_num_lt : h.seq_num < 2 ^ 64
  pub msg_count_lt : h.msg_count < 2 ^ 16

unfoldable pub parse : List ℕ → Option MoldHeader
parse buf =
    if ltb (length buf) header_size
    then none
    else some (record {
      session = take 10 buf;
      seq_num = be64 (drop 10 buf);
      msg_count = be16 (drop 18 buf);
    })

-- The 20 bytes that `serialise` writes.
unfoldable pub serialise : MoldHeader → List ℕ
serialise h = h.session ++ (put_be64 h.seq_num ++ put_be16 h.msg_count)

unfoldable pub is_heartbeat : MoldHeader → Bool
is_heartbeat h = h.msg_count == 0

-- `body` is the `length` bytes at the message's pointer.
pub record MoldMessage : Type 0 where
  pub length : ℕ
  pub body : List ℕ
  pub seq_num : ℕ
  pub recv_ns : ℕ

pub record RetransmitRequest : Type 0 where
  pub session : List ℕ
  pub first_seq : ℕ
  pub count : ℕ

unfoldable pub serialise_request : RetransmitRequest → List ℕ
serialise_request r = r.session ++ (put_be64 r.first_seq ++ put_be16 r.count)
