-- ===== src/Bench/Packets.antt =====
-- The messages and packets of tools/tick_to_trade_bench.cpp.
use udp_multicast_receiver.Common.{
  ℕ, ◌+◌, ◌^◌, ◌≤◌, ◌<◌, ◌≡◌, refl, Bool, true, false, ◌||◌, List, [], ◌∷◌, ◌++◌, append-nil,
  length, take, length-append, length-take, leb, ◌==◌, if◌then◌else◌, u16, arith,
}
use udp_multicast_receiver.Wire.Endian.{put_be32, put_be64}
use udp_multicast_receiver.Wire.Endian.RoundTrip.{length-put_be32, length-put_be64}
use udp_multicast_receiver.Gap.Framing.{frames, datagram_of, IsDatagram}
use udp_multicast_receiver.Bench.{
  bench_session, mold_packet, make_add, make_cancel, make_delete, Round, Workload, next_body,
}

-- A body has at most 36 bytes.
length-make_add :
    (ref side shares price : ℕ) (stock : List ℕ)
    → length (make_add ref side shares stock price) ≤ 36
unfolding make_add
length-make_add ref side shares price stock =
    let rest = put_be32 shares ++ (take 8 stock ++ put_be32 price) in
    omega (
      arith,
      length-append (put_be64 ref) (side ∷ rest),
      length-append (put_be32 shares) (take 8 stock ++ put_be32 price),
      length-append (take 8 stock) (put_be32 price),
      length-take 8 stock,
      length-put_be64 ref,
      length-put_be32 shares,
      length-put_be32 price,
    )

length-make_cancel : (ref shares : ℕ) → length (make_cancel ref shares) ≤ 36
unfolding make_cancel
length-make_cancel ref shares = omega (
  arith,
  length-append (put_be64 ref) (put_be32 shares),
  length-put_be64 ref,
  length-put_be32 shares,
)

length-make_delete : (ref : ℕ) → length (make_delete ref) ≤ 36
unfolding make_delete
length-make_delete ref = omega (arith, length-put_be64 ref)

length-branch :
    (c d : Bool) (x y z : List ℕ × Workload)
    → length x.0 ≤ 36
    → length y.0 ≤ 36
    → length z.0 ≤ 36
    → length (if c then x else if d then y else z).0 ≤ 36
length-branch true d x y z hx hy hz = hx
length-branch false true x y z hx hy hz = hy
length-branch false false x y z hx hy hz = hz

pub length-next_body : (w : Workload) (r : Round) → length (next_body w r).0 ≤ 36
unfolding next_body
length-next_body w r =
    length-branch (leb r.op 5 || length w.live_orders == 0) (leb r.op 7) _ _ _
      (length-make_add _ _ _ _ _) (length-make_cancel _ _) (length-make_delete _)

pub one_body-IsDatagram :
    (seq : ℕ) (body : List ℕ)
    → length body ≤ 36
    → seq + 1 < 2 ^ 64
    → IsDatagram bench_session seq (body ∷ [])
one_body-IsDatagram seq body small h = record {
  session_length = refl;
  bodies_fit = (omega arith, tt);
  some_body = omega arith;
  count_fits = omega arith;
  seq_fits = omega arith;
}

pub mold_packet-datagram_of :
    (seq : ℕ) (body : List ℕ)
    → length body ≤ 36
    → mold_packet bench_session seq body ≡ datagram_of bench_session seq (body ∷ [])
unfolding mold_packet datagram_of frames
mold_packet-datagram_of seq body small =
    let size : u16 (length body) ≡ length body = omega arith in rw (size, append-nil body) refl
