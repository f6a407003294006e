-- ===== src/Ipp/Parse.antt =====
-- The walk over the attributes section of an IPP request, which `RemoveIppAttributes` strips.
-- Indices are `size_t`s that stay below the buffer's size plus 2 ^ 18, so they do not wrap.
-- Each round of a loop moves past a byte of the buffer, so one more round than it has bytes is enough.
pub mod Grammar
pub mod Accepts
pub mod Sound
pub mod Total
use virtual_usb_printer.Common.{
  ℕ, zero, suc, ◌+◌, ◌-◌, ◌^◌, ◌<◌, Bool, not, ◌&&◌, ◌||◌, Option, none, some, ltb, leb, ◌==◌,
  if◌then◌else◌, length, get_elem?, take, drop, out_of_fuel, Result, ok, err, ◌>>=◌, Bytes, ◌>>◌,
}
use virtual_usb_printer.SmartBuffer.{SmartBuffer, erase}
use virtual_usb_printer.ByteOrder.{load, htons}
use virtual_usb_printer.Ipp.Tag.{tag_value, end}

unfoldable pub read_short : Bytes → ℕ → Option ℕ
read_short bytes start =
    if ltb (length bytes) (start + 2) then none else some (htons (load (take 2 (drop start bytes))))

-- The part from the value length on, at index `i`.
unfoldable pub value_end : Bytes → ℕ → ℕ → Option ℕ
value_end bytes start i = elim (read_short bytes i) [
  | none ↦ none
  | some value_length ↦
      let i' = i + 2 + value_length in if ltb (length bytes) i' then none else some (i' - start)
]

unfoldable pub get_attribute_length : Bytes → ℕ → Option ℕ
unfolding value_end
get_attribute_length bytes start = elim (read_short bytes start) [
  | none ↦ none
  | some name_length ↦ value_end bytes start (start + 2 + name_length)
]

unfoldable pub is_attribute_group_tag : ℕ → Bool
is_attribute_group_tag tag = (leb 0x00 tag && leb tag 0x02) || (leb 0x04 tag && leb tag 0x0F)

-- A tag at which a group ends.
abbrev pub ends_group : ℕ → Bool
ends_group tag = tag == 0x03 || is_attribute_group_tag tag

-- `while (i < bytes.size())` and `bytes[i]` are one look-up.
unfoldable pub group_loop : ℕ → Bytes → ℕ → ℕ → Result (Option ℕ)
unfolding is_attribute_group_tag
group_loop zero bytes start i = elim (get_elem? bytes i) [
  | none ↦ ok none
  | some tag ↦ err out_of_fuel
]
group_loop (suc fuel) bytes start i = elim (get_elem? bytes i) [
  | none ↦ ok none
  | some tag ↦
      let next : Result (Option ℕ) = elim (get_attribute_length bytes (i + 1)) [
        | none ↦ ok none
        | some len ↦ group_loop fuel bytes start (i + 1 + len)
      ] in
      if ends_group tag then ok (some (i - start)) else next
]

unfoldable pub get_group_length : Bytes → ℕ → Result (Option ℕ)
unfolding group_loop
get_group_length bytes start =
    if leb (length bytes) start then ok none else group_loop (suc (length bytes)) bytes start start

unfoldable pub attributes_loop : ℕ → Bytes → ℕ → Result (Option ℕ)
unfolding get_group_length
attributes_loop zero bytes i = elim (get_elem? bytes i) [
  | none ↦ ok none
  | some tag ↦ err out_of_fuel
]
attributes_loop (suc fuel) bytes i = elim (get_elem? bytes i) [
  | none ↦ ok none
  | some tag ↦
      let group : Result (Option ℕ) = get_group_length bytes (i + 1) >>= λ l. elim l [
        | none ↦ ok none
        | some len ↦ attributes_loop fuel bytes (i + 1 + len)
      ] in
      if tag == 0x03
      then ok (some (i + 1))
      else if is_attribute_group_tag tag
      then group
      else ok none
]

unfoldable pub get_attributes_length : Bytes → Result (Option ℕ)
unfolding attributes_loop
get_attributes_length bytes = attributes_loop (suc (length bytes)) bytes 0

-- `none` is the answer `false`, with the buffer left as it is.
unfoldable pub remove_ipp_attributes : SmartBuffer → Result (Option SmartBuffer)
unfolding get_attributes_length
remove_ipp_attributes buf = do
  len ← get_attributes_length buf
  elim len [ none ↦ ok none | some n ↦ erase buf 0 n >>= λ rest. ok (some rest) ]
