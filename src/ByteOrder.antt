-- ===== src/ByteOrder.antt =====
-- Numbers in memory and on the wire: what `memcpy`, `Add(&x, sizeof(x))`, `htons`, `htonl`, `htobe64`
-- and their inverses do on a little-endian host. A `uint16_t`, `int` or `uint64_t` is its bit pattern.
use mathlib.Core.List.{reverse, reverse-reverse, reverse-cons}
use native.Mathlib.Nat.{pow-suc}
use virtual_usb_printer.Common.{
  ℕ, zero, suc, ◌+◌, ◌*◌, ◌/◌, ◌%◌, ◌^◌, ◌<◌, ◌≡◌, refl, ap, ◌∙◌, [], ◌∷◌, Bytes, IsByte, All,
  All-append, length, length-append, arith,
}

-- The `k` bytes of `x` in the host's memory.
unfoldable pub mem : ℕ → ℕ → Bytes
mem zero x = []
mem (suc k) x = (x % 256) ∷ mem k (x / 256)

-- The number that the host reads in some bytes.
unfoldable pub load : Bytes → ℕ
load [] = 0
load (b ∷ bs) = b + 256 * load bs

-- The `k` bytes of `x` in network order.
unfoldable pub wire : ℕ → ℕ → Bytes
unfolding mem
wire k x = reverse (mem k x)

unfoldable pub swap : ℕ → ℕ → ℕ
unfolding load wire
swap k x = load (wire k x)

-- `htons` and `ntohs`
abbrev pub htons : ℕ → ℕ
htons = swap 2

-- `htonl` and `ntohl`
abbrev pub htonl : ℕ → ℕ
htonl = swap 4

-- `htobe64` and `be64toh`
abbrev pub htobe64 : ℕ → ℕ
htobe64 = swap 8

pub length-mem : (k x : ℕ) → length (mem k x) ≡ k
unfolding mem
length-mem zero x = refl
length-mem (suc k) x = ap suc (length-mem k (x / 256))

length-reverse : (xs : Bytes) → length (reverse xs) ≡ length xs
length-reverse [] = refl
length-reverse (x ∷ xs) =
    omega
      (arith, ap length (reverse-cons x xs), length-append (reverse xs) (x ∷ []), length-reverse xs)

pub length-wire : (k x : ℕ) → length (wire k x) ≡ k
unfolding wire
length-wire k x = length-reverse (mem k x) ∙ length-mem k x

All-reverse : (xs : Bytes) → All IsByte xs → All IsByte (reverse xs)
All-reverse [] h = tt
All-reverse (x ∷ xs) h =
    rw (reverse-cons x xs) (All-append IsByte (reverse xs) (x ∷ []) (All-reverse xs h.1) (h.0, tt))

pub mem-IsByte : (k x : ℕ) → All IsByte (mem k x)
unfolding mem
mem-IsByte zero x = tt
mem-IsByte (suc k) x = (omega arith, mem-IsByte k (x / 256))

pub wire-IsByte : (k x : ℕ) → All IsByte (wire k x)
unfolding wire
wire-IsByte k x = All-reverse (mem k x) (mem-IsByte k x)

quotient_lt : (k x : ℕ) → x < 256 ^ suc k → x / 256 < 256 ^ k
quotient_lt k x h = omega (arith, pow-suc 256 k)

pub load-mem : (k x : ℕ) → x < 256 ^ k → load (mem k x) ≡ x
unfolding load mem
load-mem zero x h = omega arith
load-mem (suc k) x h = omega (arith, load-mem k (x / 256) (quotient_lt k x h))

pub mem-load : (k : ℕ) (bs : Bytes) → length bs ≡ k → All IsByte bs → mem k (load bs) ≡ bs
unfolding load mem
mem-load zero [] e h = refl
mem-load zero (b ∷ bs) e h = absurd (omega arith)
mem-load (suc k) [] e h = absurd (omega arith)
mem-load (suc k) (b ∷ bs) e h =
    let low : (b + 256 * load bs) % 256 ≡ b = omega arith in
    let high : (b + 256 * load bs) / 256 ≡ load bs = omega arith in
    rw (low, high) (ap (◌∷◌ b) (mem-load k bs (omega arith) h.1))

-- Storing a swapped number writes it in network order.
pub mem-swap : (k x : ℕ) → mem k (swap k x) ≡ wire k x
unfolding swap
mem-swap k x = mem-load k (wire k x) (length-wire k x) (wire-IsByte k x)

-- Loading network order and swapping gives the number back.
pub swap-load-wire : (k x : ℕ) → x < 256 ^ k → swap k (load (wire k x)) ≡ x
unfolding swap
swap-load-wire k x h =
    ap (λ (b : Bytes). load (reverse b)) (mem-load k (wire k x) (length-wire k x) (wire-IsByte k x))
    ∙ unfold wire in rw (reverse-reverse (mem k x)) (load-mem k x h)
