-- ===== src/Ipp/Attribute/Add.antt =====
-- `AddTag` to `AddResolution` and `AddPrinterAttributes` of ipp_util.cc: attributes into a buffer.
pub mod Wire
pub mod Dispatch
use virtual_usb_printer.Common.{
  ℕ, ◌%◌, ◌^◌, Bool, true, false, not, ◌||◌, none, some, List, [], ◌∷◌, ltb, leb, ◌==◌,
  if◌then◌else◌, length, check_failed, exited, Result, ok, err, ◌>>=◌, check, Bytes, codes, ◌>>◌,
}
use virtual_usb_printer.Json.{Value, is_list, get_bool, get_int, get_string}
use virtual_usb_printer.SmartBuffer.{SmartBuffer, add}
use virtual_usb_printer.ByteOrder.{mem, htons, htonl}
use virtual_usb_printer.Ipp.Tag.{IppTag, tag_value}
use virtual_usb_printer.Ipp.Tag
use virtual_usb_printer.Ipp.Attribute.{
  IppAttribute, get_bools, get_ints, get_strings, get_bytes, get_ipp_tag, find, octet_string,
  date_time, resolution, range_of_integer,
}

abbrev pub add_tag : IppTag → SmartBuffer → SmartBuffer
add_tag tag buf = add buf (tag_value tag ∷ [])

unfoldable pub add_name : Bytes → Bool → SmartBuffer → Result SmartBuffer
unfolding add
add_name name include_name buf = do
  check (leb (length name) 65535)
  let name_length = if include_name then length name else 0
  let buf' = add buf (mem 2 (htons name_length))
  ok (if include_name then add buf' name else buf')

unfoldable pub add_value_length : ℕ → SmartBuffer → Result SmartBuffer
unfolding add
add_value_length value_length buf = do
  check (leb value_length 65535)
  ok (add buf (mem 2 (htons value_length)))

-- What every writer begins with: the tag, the name and the length of the value.
unfoldable pub add_front : IppTag → Bytes → Bool → ℕ → SmartBuffer → Result SmartBuffer
unfolding add_name add_value_length
add_front tag name include_name value_length buf = do
  named ← add_name name include_name (add_tag tag buf)
  add_value_length value_length named

unfoldable pub add_boolean_attribute :
    IppTag → Bytes → Bool → Bool → SmartBuffer → Result SmartBuffer
unfolding add_front
add_boolean_attribute tag name value include_name buf = do
  front ← add_front tag name include_name 1 buf
  ok (add front ((if value then 1 else 0) ∷ []))

unfoldable pub add_int_attribute : IppTag → Bytes → ℕ → Bool → SmartBuffer → Result SmartBuffer
unfolding add_front
add_int_attribute tag name value include_name buf = do
  front ← add_front tag name include_name 4 buf
  ok (add front (mem 4 (htonl value)))

unfoldable pub add_string_attribute :
    IppTag → Bytes → Bytes → Bool → SmartBuffer → Result SmartBuffer
unfolding add_front
add_string_attribute tag name value include_name buf = do
  front ← add_front tag name include_name (length value) buf
  ok (add front value)

-- The loop over the values of a list: `include_name` holds for the first value only.
unfoldable pub add_values {ℓ} :
    {A : Type ℓ}
    → (A → Bool → SmartBuffer → Result SmartBuffer)
    → Bool
    → List A
    → SmartBuffer
    → Result SmartBuffer
add_values write first [] buf = ok buf
add_values write first (v ∷ vs) buf = write v first buf >>= add_values write false vs

-- A list through the loop, any other value through one call.
abbrev pub by_shape :
    {A : Type 0}
    → (A → Bool → SmartBuffer → Result SmartBuffer)
    → (IppAttribute → Result (List A))
    → (Value → Result A)
    → IppAttribute
    → SmartBuffer
    → Result SmartBuffer
by_shape write many one attribute buf =
    if is_list attribute.value
    then (many attribute >>= λ values. add_values write true values buf)
    else (one attribute.value >>= λ value. write value true buf)

unfoldable pub add_boolean : IppAttribute → SmartBuffer → Result SmartBuffer
add_boolean attribute buf = do
  tag ← get_ipp_tag attribute.type
  by_shape (add_boolean_attribute tag attribute.name) get_bools get_bool attribute buf

unfoldable pub add_integer : IppAttribute → SmartBuffer → Result SmartBuffer
add_integer attribute buf = do
  tag ← get_ipp_tag attribute.type
  by_shape (add_int_attribute tag attribute.name) get_ints get_int attribute buf

unfoldable pub add_string : IppAttribute → SmartBuffer → Result SmartBuffer
add_string attribute buf = do
  tag ← get_ipp_tag attribute.type
  by_shape (add_string_attribute tag attribute.name) get_strings get_string attribute buf

unfoldable pub add_octet_string : IppAttribute → SmartBuffer → Result SmartBuffer
add_octet_string attribute buf = do
  tag ← get_ipp_tag attribute.type
  let values = if is_list attribute.value then get_bytes attribute else get_string attribute.value
  value ← values
  add_string_attribute tag attribute.name value true buf

-- `kDateTimeSize`, `kRangeOfIntegerSize` and `kResolutionSize`
abbrev pub date_time_size : ℕ
date_time_size = 11

abbrev pub range_of_integer_size : ℕ
range_of_integer_size = 8

abbrev pub resolution_size : ℕ
resolution_size = 9

unfoldable pub add_date : IppAttribute → SmartBuffer → Result SmartBuffer
add_date attribute buf = do
  tag ← get_ipp_tag attribute.type
  check (is_list attribute.value)
  front ← add_front tag attribute.name true date_time_size buf
  date ← get_bytes attribute
  ok (add front date)

-- `for (int value : range)`
abbrev pub add_ints : List ℕ → SmartBuffer → SmartBuffer
add_ints [] buf = buf
add_ints (v ∷ vs) buf = add_ints vs (add buf (mem 4 (htonl v)))

unfoldable pub add_range : IppAttribute → SmartBuffer → Result SmartBuffer
add_range attribute buf = do
  tag ← get_ipp_tag attribute.type
  check (is_list attribute.value)
  range ← get_ints attribute
  check (length range == 2)
  front ← add_front tag attribute.name true range_of_integer_size buf
  ok (add_ints range front)

-- The three items of a resolution, by their pattern; `resolution[2]` is compared as an `int`.
unfoldable pub add_resolution_items : IppTag → Bytes → List ℕ → SmartBuffer → Result SmartBuffer
add_resolution_items tag name (x ∷ y ∷ units ∷ []) buf = do
  check (not (ltb units (2 ^ 31)) || leb units 255)
  front ← add_front tag name true resolution_size buf
  ok (add (add_ints (x ∷ y ∷ []) front) ((units % 256) ∷ []))
add_resolution_items tag name _ buf = err check_failed

unfoldable pub add_resolution : IppAttribute → SmartBuffer → Result SmartBuffer
unfolding add_resolution_items
add_resolution attribute buf = do
  tag ← get_ipp_tag attribute.type
  check (is_list attribute.value)
  items ← get_ints attribute
  add_resolution_items tag attribute.name items buf

unfoldable pub add_functions : List (Bytes × (IppAttribute → SmartBuffer → Result SmartBuffer))
add_functions =
    (codes "unsupported", add_string)
    ∷ (codes "no-value", add_string)
    ∷ (codes "integer", add_integer)
    ∷ (codes "boolean", add_boolean)
    ∷ (codes "enum", add_integer)
    ∷ (octet_string, add_octet_string)
    ∷ (date_time, add_date)
    ∷ (resolution, add_resolution)
    ∷ (range_of_integer, add_range)
    ∷ (codes "begCollection", add_string)
    ∷ (codes "endCollection", add_string)
    ∷ (codes "textWithoutLanguage", add_string)
    ∷ (codes "nameWithoutLanguage", add_string)
    ∷ (codes "keyword", add_string)
    ∷ (codes "uri", add_string)
    ∷ (codes "charset", add_string)
    ∷ (codes "naturalLanguage", add_string)
    ∷ (codes "mimeMediaType", add_string)
    ∷ (codes "memberAttrName", add_string)
    ∷ []

-- The body of the loop over the attributes.
unfoldable pub add_attribute : IppAttribute → SmartBuffer → Result SmartBuffer
unfolding add_functions find
add_attribute attribute buf = elim (find attribute.type add_functions) [
  | none ↦ err exited
  | some add_function ↦ add_function attribute buf
]

unfoldable pub add_attributes : List IppAttribute → SmartBuffer → Result SmartBuffer
unfolding add_attribute
add_attributes [] buf = ok buf
add_attributes (a ∷ as_) buf = add_attribute a buf >>= add_attributes as_

unfoldable pub add_printer_attributes : List IppAttribute → Bytes → SmartBuffer → Result SmartBuffer
unfolding add_attributes
add_printer_attributes ipp_attributes group buf = do
  group_tag ← get_ipp_tag group
  add_attributes ipp_attributes (add_tag group_tag buf)

unfoldable pub add_end_of_attributes : SmartBuffer → SmartBuffer
add_end_of_attributes buf = add_tag Tag.end buf
