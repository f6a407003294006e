-- ===== src/SmartBuffer/Edit.antt =====
-- `Add`, `Erase` and `Shrink`: what they keep, and when they are defined.
use virtual_usb_printer.Common.{
  ℕ, ◌+◌, ◌^◌, ◌≤◌, ◌<◌, ◌≡◌, ◌++◌, arith, leb, if◌then◌else◌, le→leb, length, take, drop,
  length-append, drop-length, check_failed, ok, err,
}
use virtual_usb_printer.SmartBuffer.{SmartBuffer, add, add_range, erase}

-- `Erase(0, n)` drops the first `n` bytes, where there are that many.
pub erase_front : (self : SmartBuffer) (n : ℕ) → n ≤ length self → erase self 0 n ≡ ok (drop n self)
unfolding erase
erase_front self n h = let e : 0 + n ≡ n = omega arith in rw (e, le→leb n (length self) h)

-- `Erase(0, a.size())` undoes the front half of an `Add`.
pub erase-add : (a b : SmartBuffer) → erase (add a b) 0 (length a) ≡ ok b
unfolding add
erase-add a b =
    rw (erase_front (a ++ b) (length a) (omega (arith, length-append a b)), drop-length a b)

-- A range of a buffer that `add_range` accepts has exactly the length that was asked for, and where
-- the sum of start and length does not wrap, it is accepted exactly if it lies in the buffer.
pub add_range_lem :
    (self buf : SmartBuffer) (start len : ℕ)
    → start + len < 2 ^ 64
    → add_range self buf start len ≡ (
        if leb (start + len) (length buf)
        then ok (add self (take len (drop start buf)))
        else err check_failed)
unfolding add_range add
add_range_lem self buf start len h = ground arith

-- An `Erase(0, n)` that is defined lay inside the buffer.
pub erase_front-ok :
    (self : SmartBuffer) (n : ℕ) {r : SmartBuffer}
    → erase self 0 n ≡ ok r
    → (n ≤ length self) × (r ≡ drop n self)
unfolding erase
erase_front-ok self n {r} e =
    let h : n ≤ length self = ground arith in (h, ground (arith, erase_front self n h))
