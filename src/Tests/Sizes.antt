-- ===== src/Tests/Sizes.antt =====
-- The sizes of IPP attributes.
use virtual_usb_printer.Common.{
  ℕ, ◌+◌, ◌≡◌, refl, inr, [], ◌∷◌, ◌++◌, arith, length, ok, Bytes, codes,
}
use virtual_usb_printer.Json.{nil, cons, integer, list}
use virtual_usb_printer.SmartBuffer.{add}
use virtual_usb_printer.ByteOrder.{mem, swap}
use virtual_usb_printer.Ipp.Tag.{tag_value}
use virtual_usb_printer.Ipp.Attribute.{IppAttribute, get_ipp_tag, ints_of, range_of_integer}
use virtual_usb_printer.Ipp.Attribute.Add.{
  add_attribute, add_range, add_front, add_name, add_value_length,
}
use virtual_usb_printer.Ipp.Attribute.Size.{get_attribute_size}
use virtual_usb_printer.Ipp.Attribute.Size.Numbers.{surplus, get_attribute_size_lem}

abbrev copies : IppAttribute
copies = record {
  type = range_of_integer;
  name = codes "copies-supported";
  value = list (cons (integer 1) (cons (integer 99) nil));
}

-- 0x33, the name, and the two numbers.
abbrev copies_bytes : Bytes
copies_bytes =
    0x33 ∷ 0 ∷ 16 ∷ (codes "copies-supported" ++ (0 ∷ 8 ∷ 0 ∷ 0 ∷ 0 ∷ 1 ∷ 0 ∷ 0 ∷ 0 ∷ 99 ∷ []))

copies_run : add_attribute copies (4 ∷ []) ≡ ok (4 ∷ copies_bytes)
unfolding add_attribute add_range add_front add_name add_value_length add mem swap tag_value
    get_ipp_tag ints_of
copies_run = refl

get_attribute_size_lem_example :
    (n : ℕ) × (get_attribute_size copies ≡ ok n)
    × (length (4 ∷ copies_bytes) + surplus copies.type ≡ length {A = ℕ} (4 ∷ []) + n)
get_attribute_size_lem_example =
    get_attribute_size_lem copies (4 ∷ []) (4 ∷ copies_bytes) (inr (inr (inr refl))) (omega arith)
      copies_run
