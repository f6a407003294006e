-- ===== src/Ipp/Attribute/Size.antt =====
-- `GetBaseAttributeSize` to `GetAttributesSize` of ipp_util.cc: the bytes that attributes will take.
-- The sums are of `size_t`s, far below 2 ^ 64 for any configuration that fits in memory.
pub mod Written
pub mod Numbers
use virtual_usb_printer.Common.{
  ℕ, ◌+◌, ◌*◌, Bool, not, ◌&&◌, ◌||◌, none, some, List, [], ◌∷◌, if◌then◌else◌, length, exited,
  Result, ok, err, ◌>>=◌, Bytes, codes, bytes_eq,
}
use virtual_usb_printer.Json.{is_list, get_string}
use virtual_usb_printer.Ipp.Attribute.{
  IppAttribute, get_list_size, get_strings, find, octet_string, date_time, resolution,
  range_of_integer,
}
use virtual_usb_printer.Ipp.Attribute.Add.{date_time_size, resolution_size}

-- The types whose list is one value.
abbrev pub exempt : Bytes → Bool
exempt type =
    bytes_eq type date_time
    || (bytes_eq type octet_string || (bytes_eq type resolution || bytes_eq type range_of_integer))

unfoldable pub get_base_attribute_size : IppAttribute → Result ℕ
get_base_attribute_size attribute = do
  multiplier ←
      if is_list attribute.value && not (exempt attribute.type)
      then get_list_size attribute
      else ok 1
  ok (5 * multiplier + length attribute.name)

unfoldable pub get_boolean_attribute_size : IppAttribute → Result ℕ
get_boolean_attribute_size attribute = do
  total_size ← get_base_attribute_size attribute
  if is_list attribute.value
      then (get_list_size attribute >>= λ n. ok (total_size + n))
      else ok (total_size + 1)

unfoldable pub get_int_attribute_size : IppAttribute → Result ℕ
get_int_attribute_size attribute = do
  total_size ← get_base_attribute_size attribute
  if is_list attribute.value
      then (get_list_size attribute >>= λ n. ok (total_size + n * 4))
      else ok (total_size + 4)

abbrev total_length : List Bytes → ℕ
total_length [] = 0
total_length (s ∷ ss) = length s + total_length ss

unfoldable pub get_string_attribute_size : IppAttribute → Result ℕ
get_string_attribute_size attribute = do
  total_size ← get_base_attribute_size attribute
  if is_list attribute.value
      then (get_strings attribute >>= λ values. ok (total_size + total_length values))
      else (get_string attribute.value >>= λ value. ok (total_size + length value))

unfoldable pub get_octet_string_attribute_size : IppAttribute → Result ℕ
get_octet_string_attribute_size attribute = do
  total_size ← get_base_attribute_size attribute
  if is_list attribute.value
      then (get_list_size attribute >>= λ n. ok (total_size + n))
      else (get_string attribute.value >>= λ value. ok (total_size + length value))

unfoldable pub get_date_time_attribute_size : IppAttribute → Result ℕ
get_date_time_attribute_size attribute = do
  base ← get_base_attribute_size attribute
  ok (base + date_time_size)

unfoldable pub get_resolution_attribute_size : IppAttribute → Result ℕ
get_resolution_attribute_size attribute = do
  base ← get_base_attribute_size attribute
  ok (base + resolution_size)

-- As in the source, by `kResolutionSize`.
unfoldable pub get_range_of_integer_attribute_size : IppAttribute → Result ℕ
get_range_of_integer_attribute_size attribute = do
  base ← get_base_attribute_size attribute
  ok (base + resolution_size)

unfoldable pub size_functions : List (Bytes × (IppAttribute → Result ℕ))
size_functions =
    (codes "unsupported", get_string_attribute_size)
    ∷ (codes "no-value", get_string_attribute_size)
    ∷ (codes "integer", get_int_attribute_size)
    ∷ (codes "boolean", get_boolean_attribute_size)
    ∷ (codes "enum", get_int_attribute_size)
    ∷ (octet_string, get_octet_string_attribute_size)
    ∷ (date_time, get_date_time_attribute_size)
    ∷ (resolution, get_resolution_attribute_size)
    ∷ (range_of_integer, get_range_of_integer_attribute_size)
    ∷ (codes "begCollection", get_string_attribute_size)
    ∷ (codes "endCollection", get_string_attribute_size)
    ∷ (codes "textWithoutLanguage", get_string_attribute_size)
    ∷ (codes "nameWithoutLanguage", get_string_attribute_size)
    ∷ (codes "keyword", get_string_attribute_size)
    ∷ (codes "uri", get_string_attribute_size)
    ∷ (codes "charset", get_string_attribute_size)
    ∷ (codes "naturalLanguage", get_string_attribute_size)
    ∷ (codes "mimeMediaType", get_string_attribute_size)
    ∷ (codes "memberAttrName", get_string_attribute_size)
    ∷ []

-- One round of the loop of `GetAttributesSize`.
unfoldable pub get_attribute_size : IppAttribute → Result ℕ
unfolding size_functions find
get_attribute_size attribute = elim (find attribute.type size_functions) [
  | none ↦ err exited
  | some size_function ↦ size_function attribute
]

unfoldable pub get_attributes_size : List IppAttribute → Result ℕ
unfolding get_attribute_size
get_attributes_size [] = ok 0
get_attributes_size (a ∷ as_) = do
  n ← get_attribute_size a
  rest ← get_attributes_size as_
  ok (n + rest)
