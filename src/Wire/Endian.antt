-- ===== src/Wire/Endian.antt =====
-- The big-endian helpers of include/feed/wire_format.hpp. A byte is a number below 256, and a
-- pointer is the list of the bytes that stand from there to the end of its buffer.
pub mod RoundTrip
use udp_multicast_receiver.Common.{
  ℕ, zero, suc, ◌+◌, ◌-◌, ◌*◌, ◌/◌, ◌%◌, ◌^◌, ◌<◌, List, [], ◌∷◌, reverse, u8, u64, get_or,
}

abbrev pub IsByte : ℕ → Type 0
IsByte b = b < 256

-- `memcpy(&v, p, n)` into an n-byte integer of a little-endian host. Bytes that a short buffer
-- lacks read as 0 here; the callers' length checks exclude such a read.
unfoldable pub load : ℕ → List ℕ → ℕ
load zero p = 0
load (suc n) [] = 0
load (suc n) (b ∷ p) = b + 256 * load n p

-- `memcpy(p, &v, n)` from an n-byte integer of a little-endian host: the bytes that it writes.
unfoldable pub store : ℕ → ℕ → List ℕ
store zero v = []
store (suc n) v = v % 256 ∷ store n (v / 256)

-- `__builtin_bswap16`, `32` and `64`, with `n` the number of bytes.
unfoldable pub bswap : ℕ → ℕ → ℕ
bswap n v = load n (reverse (store n v))

unfoldable pub be16 : List ℕ → ℕ
be16 p = bswap 2 (load 2 p)

unfoldable pub be32 : List ℕ → ℕ
be32 p = bswap 4 (load 4 p)

unfoldable pub be64 : List ℕ → ℕ
be64 p = bswap 8 (load 8 p)

-- The shifted bytes do not overlap, so `|` is a sum.
unfoldable pub be48 : List ℕ → ℕ
be48 p =
    get_or p 0 0 * 2 ^ 40
    + get_or p 1 0 * 2 ^ 32
    + get_or p 2 0 * 2 ^ 24
    + get_or p 3 0 * 2 ^ 16
    + get_or p 4 0 * 2 ^ 8
    + get_or p 5 0

-- Each writer returns the bytes that it puts at `p`.
unfoldable pub put_be16 : ℕ → List ℕ
unfolding store
put_be16 v = store 2 (bswap 2 v)

unfoldable pub put_be32 : ℕ → List ℕ
unfolding store
put_be32 v = store 4 (bswap 4 v)

-- Rounds `i` to 5 of the loop, with `n` rounds left.
put_be48_loop : ℕ → ℕ → ℕ → List ℕ
put_be48_loop zero i v = []
put_be48_loop (suc n) i v = u8 (v / 2 ^ (40 - 8 * i)) ∷ put_be48_loop n (i + 1) v

unfoldable pub put_be48 : ℕ → List ℕ
unfolding put_be48_loop
put_be48 v = put_be48_loop 6 0 v

unfoldable pub put_be64 : ℕ → List ℕ
unfolding store
put_be64 v = store 8 (bswap 8 v)
