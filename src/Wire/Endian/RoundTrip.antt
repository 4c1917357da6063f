-- ===== src/Wire/Endian/RoundTrip.antt =====
-- The readers of include/feed/wire_format.hpp against big-endian notation, and against the writers.
use udp_multicast_receiver.Common.{
  ℕ, zero, suc, ◌+◌, ◌*◌, ◌/◌, ◌%◌, ◌^◌, ◌<◌, ◌≡◌, refl, ap, ◌∙◌, List, [], ◌∷◌, ◌++◌, reverse,
  length, length-reverse, All, All-reverse, arith,
}
use mathlib.Core.List.{reverse-reverse, reverse-cons}
use native.Mathlib.Nat.{pow-suc}
use udp_multicast_receiver.Wire.Endian.{
  IsByte, load, store, bswap, be16, be32, be48, be64, put_be16, put_be32, put_be48, put_be64,
}

pub length-store : (n v : ℕ) → length (store n v) ≡ n
unfolding store
length-store zero v = refl
length-store (suc n) v = ap suc (length-store n (v / 256))

pub store-IsByte : (n v : ℕ) → All IsByte (store n v)
unfolding store
store-IsByte zero v = tt
store-IsByte (suc n) v = (omega arith, store-IsByte n (v / 256))

-- What lies behind the field is not read.
pub load-append : (n : ℕ) (p rest : List ℕ) → length p ≡ n → load n (p ++ rest) ≡ load n p
unfolding load
load-append zero p rest h = refl
load-append (suc n) [] rest h = absurd (omega arith)
load-append (suc n) (b ∷ p) rest h = ap (λ k. b + 256 * k) (load-append n p rest (omega arith))

pub load-store : (n v : ℕ) → v < 256 ^ n → load n (store n v) ≡ v
unfolding load store
load-store zero v h = omega arith
load-store (suc n) v h = omega (arith, load-store n (v / 256) (omega (arith, pow-suc 256 n)))

store-load : (n : ℕ) (p : List ℕ) → length p ≡ n → All IsByte p → store n (load n p) ≡ p
unfolding load store
store-load zero [] h b = refl
store-load zero (x ∷ p) h b = absurd (omega arith)
store-load (suc n) [] h b = absurd (omega arith)
store-load (suc n) (x ∷ p) h (hx, hp) =
    let low : (x + 256 * load n p) % 256 ≡ x = omega arith in
    let high : (x + 256 * load n p) / 256 ≡ load n p = omega arith in
    rw (low, high) (ap (◌∷◌ x) (store-load n p (omega arith) hp))

load-lt : (n : ℕ) (p : List ℕ) → All IsByte p → load n p < 256 ^ n
unfolding load
load-lt zero p h = omega arith
load-lt (suc n) [] h = omega (arith, pow-suc 256 n, load-lt n [] tt)
load-lt (suc n) (b ∷ p) (hb, hp) = omega (arith, pow-suc 256 n, load-lt n p hp)

load-snoc :
    (n : ℕ) (p : List ℕ) (b : ℕ)
    → length p ≡ n
    → load (suc n) (p ++ (b ∷ [])) ≡ load n p + b * 256 ^ n
unfolding load
load-snoc zero [] b h = omega arith
load-snoc zero (x ∷ p) b h = absurd (omega arith)
load-snoc (suc n) [] b h = absurd (omega arith)
load-snoc (suc n) (x ∷ p) b h =
    omega (arith, load-snoc n p b (omega arith), ap (λ (t : ℕ). b * t) (pow-suc 256 n))

-- Base-256 notation, the most significant byte first.
abbrev pub big_endian : List ℕ → ℕ
big_endian [] = 0
big_endian (b ∷ p) = b * 256 ^ length p + big_endian p

load-reverse : (p : List ℕ) → load (length p) (reverse p) ≡ big_endian p
load-reverse [] = unfold load in refl
load-reverse (b ∷ p) =
    rw (reverse-cons b p, load-snoc (length p) (reverse p) b (length-reverse p), load-reverse p)
      (omega arith)

read-big_endian :
    (n : ℕ) (p rest : List ℕ)
    → length p ≡ n
    → All IsByte p
    → bswap n (load n (p ++ rest)) ≡ big_endian p
unfolding bswap
read-big_endian n p rest h b = rw (load-append n p rest h, store-load n p h b, ← h) (load-reverse p)

bswap-lt : (n v : ℕ) → bswap n v < 256 ^ n
unfolding bswap
bswap-lt n v = load-lt n (reverse (store n v)) (All-reverse IsByte (store n v) (store-IsByte n v))

bswap-bswap : (n v : ℕ) → v < 256 ^ n → bswap n (bswap n v) ≡ v
unfolding bswap
bswap-bswap n v h =
    rw
      (
        store-load n (reverse (store n v)) (length-reverse (store n v) ∙ length-store n v)
            (All-reverse IsByte (store n v) (store-IsByte n v)),
        reverse-reverse (store n v),
      )
      (load-store n v h)

read_write :
    (n v : ℕ) (rest : List ℕ) → v < 256 ^ n → bswap n (load n (store n (bswap n v) ++ rest)) ≡ v
read_write n v rest h =
    rw
      (
        load-append n (store n (bswap n v)) rest (length-store n (bswap n v)),
        load-store n (bswap n v) (bswap-lt n v),
      )
      (bswap-bswap n v h)

-- What a `put_be` helper writes, its reader reads back, whatever stands behind it.
pub be16-put_be16 : (v : ℕ) (rest : List ℕ) → v < 2 ^ 16 → be16 (put_be16 v ++ rest) ≡ v
unfolding be16 put_be16
be16-put_be16 v rest h = read_write 2 v rest h

pub be32-put_be32 : (v : ℕ) (rest : List ℕ) → v < 2 ^ 32 → be32 (put_be32 v ++ rest) ≡ v
unfolding be32 put_be32
be32-put_be32 v rest h = read_write 4 v rest h

pub be64-put_be64 : (v : ℕ) (rest : List ℕ) → v < 2 ^ 64 → be64 (put_be64 v ++ rest) ≡ v
unfolding be64 put_be64
be64-put_be64 v rest h = read_write 8 v rest h

pub be48-put_be48 : (v : ℕ) (rest : List ℕ) → v < 2 ^ 48 → be48 (put_be48 v ++ rest) ≡ v
unfolding be48 put_be48
be48-put_be48 v rest h = omega arith

pub length-put_be16 : (v : ℕ) → length (put_be16 v) ≡ 2
unfolding put_be16
length-put_be16 v = length-store 2 (bswap 2 v)

pub length-put_be32 : (v : ℕ) → length (put_be32 v) ≡ 4
unfolding put_be32
length-put_be32 v = length-store 4 (bswap 4 v)

pub length-put_be48 : (v : ℕ) → length (put_be48 v) ≡ 6
unfolding put_be48
length-put_be48 v = refl

pub length-put_be64 : (v : ℕ) → length (put_be64 v) ≡ 8
unfolding put_be64
length-put_be64 v = length-store 8 (bswap 8 v)

pub be16-big_endian :
    (a b : ℕ) (rest : List ℕ)
    → All IsByte (a ∷ b ∷ [])
    → be16 (a ∷ b ∷ rest) ≡ big_endian (a ∷ b ∷ [])
unfolding be16
be16-big_endian a b rest h = read-big_endian 2 (a ∷ b ∷ []) rest refl h

pub be32-big_endian :
    (p rest : List ℕ) → length p ≡ 4 → All IsByte p → be32 (p ++ rest) ≡ big_endian p
unfolding be32
be32-big_endian p rest h b = read-big_endian 4 p rest h b

pub be64-big_endian :
    (p rest : List ℕ) → length p ≡ 8 → All IsByte p → be64 (p ++ rest) ≡ big_endian p
unfolding be64
be64-big_endian p rest h b = read-big_endian 8 p rest h b

pub be48-big_endian :
    (a b c d e f : ℕ) (rest : List ℕ)
    → be48 (a ∷ b ∷ c ∷ d ∷ e ∷ f ∷ rest) ≡ big_endian (a ∷ b ∷ c ∷ d ∷ e ∷ f ∷ [])
unfolding be48
be48-big_endian a b c d e f rest = omega arith

pub be16-lt : (p : List ℕ) → be16 p < 2 ^ 16
unfolding be16
be16-lt p = bswap-lt 2 (load 2 p)

pub be32-lt : (p : List ℕ) → be32 p < 2 ^ 32
unfolding be32
be32-lt p = bswap-lt 4 (load 4 p)

pub be64-lt : (p : List ℕ) → be64 p < 2 ^ 64
unfolding be64
be64-lt p = bswap-lt 8 (load 8 p)

-- Each `put_be` helper is undone by its reader: 16, 32, 48 and 64-bit values that fit their width
-- are read back from what was written, whatever bytes stand behind the field.
pub be-put_be :
    (a b c d : ℕ) (rest : List ℕ)
    → a < 2 ^ 16
    → b < 2 ^ 32
    → c < 2 ^ 48
    → d < 2 ^ 64
    → (be16 (put_be16 a ++ rest) ≡ a)
      × (be32 (put_be32 b ++ rest) ≡ b)
      × (be48 (put_be48 c ++ rest) ≡ c)
      × (be64 (put_be64 d ++ rest) ≡ d)
be-put_be a b c d rest ha hb hc hd = (
  be16-put_be16 a rest ha,
  be32-put_be32 b rest hb,
  be48-put_be48 c rest hc,
  be64-put_be64 d rest hd,
)

-- On eight bytes each reader gives the number that its first 2, 4, 6 or 8 bytes write in base 256,
-- the most significant byte first.
pub be-big_endian :
    (a b c d e f g h : ℕ) (rest : List ℕ)
    → All IsByte (a ∷ b ∷ c ∷ d ∷ e ∷ f ∷ g ∷ h ∷ [])
    → (be16 (a ∷ b ∷ c ∷ d ∷ e ∷ f ∷ g ∷ h ∷ rest) ≡ big_endian (a ∷ b ∷ []))
      × (be32 (a ∷ b ∷ c ∷ d ∷ e ∷ f ∷ g ∷ h ∷ rest) ≡ big_endian (a ∷ b ∷ c ∷ d ∷ []))
      × (be48 (a ∷ b ∷ c ∷ d ∷ e ∷ f ∷ g ∷ h ∷ rest) ≡ big_endian (a ∷ b ∷ c ∷ d ∷ e ∷ f ∷ []))
      × (be64 (a ∷ b ∷ c ∷ d ∷ e ∷ f ∷ g ∷ h ∷ rest)
          ≡ big_endian (a ∷ b ∷ c ∷ d ∷ e ∷ f ∷ g ∷ h ∷ []))
be-big_endian a b c d e f g h rest (ha, (hb, (hc, (hd, bs)))) = (
  be16-big_endian a b _ (ha, (hb, tt)),
  be32-big_endian (a ∷ b ∷ c ∷ d ∷ []) _ refl (ha, (hb, (hc, (hd, tt)))),
  be48-big_endian a b c d e f _,
  be64-big_endian (a ∷ b ∷ c ∷ d ∷ e ∷ f ∷ g ∷ h ∷ []) rest refl (ha, (hb, (hc, (hd, bs)))),
)
