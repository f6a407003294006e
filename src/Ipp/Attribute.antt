-- ===== src/Ipp/Attribute.antt =====
-- `IppAttribute` of ipp_util.h, its accessors, and `GetIppTag`.
pub mod Add
pub mod Size
use virtual_usb_printer.Common.{
  ℕ, ◌^◌, Bool, not, Option, none, some, List, [], ◌∷◌, ltb, leb, if◌then◌else◌, length,
  check_failed, exited, Result, ok, err, ◌>>=◌, check, or_check, Bytes, codes, bytes_eq, ◌>>◌,
}
use virtual_usb_printer.Json.{
  Value, list, dict, string, is_list, is_dict, get_list, get_bool, get_int, get_string, find_key,
}
use virtual_usb_printer.Ipp.Tag.{IppTag}
use virtual_usb_printer.Ipp.Tag

pub record IppAttribute : Type 0 where
  pub type : Bytes
  pub name : Bytes
  pub value : Value

-- `std::map::find`
unfoldable pub find {ℓ} : {A : Type ℓ} → Bytes → List (Bytes × A) → Option A
find k [] = none
find k ((j, a) ∷ m) = if bytes_eq k j then some a else find k m

abbrev pub get_list_size : IppAttribute → Result ℕ
get_list_size self = do vs ← get_list self.value; ok (length vs)

-- The loops over the items of a list, each of which must be of the type asked for.
unfoldable pub bools_of : List Value → Result (List Bool)
bools_of [] = ok []
bools_of (v ∷ vs) = do b ← get_bool v; bs ← bools_of vs; ok (b ∷ bs)

unfoldable pub ints_of : List Value → Result (List ℕ)
ints_of [] = ok []
ints_of (v ∷ vs) = do n ← get_int v; ns ← ints_of vs; ok (n ∷ ns)

unfoldable pub strings_of : List Value → Result (List Bytes)
strings_of [] = ok []
strings_of (v ∷ vs) = do s ← get_string v; ss ← strings_of vs; ok (s ∷ ss)

unfoldable pub bytes_of : List Value → Result Bytes
bytes_of [] = ok []
bytes_of (v ∷ vs) = do
  out ← get_int v
  check (ltb out (2 ^ 31))
  check (leb out 255)
  bs ← bytes_of vs
  ok (out ∷ bs)

abbrev pub get_bools : IppAttribute → Result (List Bool)
get_bools self = get_list self.value >>= bools_of

abbrev pub get_ints : IppAttribute → Result (List ℕ)
get_ints self = get_list self.value >>= ints_of

abbrev pub get_strings : IppAttribute → Result (List Bytes)
get_strings self = get_list self.value >>= strings_of

abbrev pub get_bytes : IppAttribute → Result Bytes
get_bytes self = get_list self.value >>= bytes_of

-- The names of groups and types.
abbrev pub operation_attributes : Bytes
operation_attributes = codes "operationAttributes"

abbrev pub unsupported_attributes : Bytes
unsupported_attributes = codes "unsupportedAttributes"

abbrev pub printer_attributes : Bytes
printer_attributes = codes "printerAttributes"

abbrev pub job_attributes : Bytes
job_attributes = codes "jobAttributes"

abbrev pub octet_string : Bytes
octet_string = codes "octetString"

abbrev pub date_time : Bytes
date_time = codes "dateTime"

abbrev pub resolution : Bytes
resolution = codes "resolution"

abbrev pub range_of_integer : Bytes
range_of_integer = codes "rangeOfInteger"

unfoldable pub tags : List (Bytes × IppTag)
tags =
    (operation_attributes, Tag.operation)
    ∷ (unsupported_attributes, Tag.unsupported_group)
    ∷ (printer_attributes, Tag.printer)
    ∷ (job_attributes, Tag.job)
    ∷ (codes "unsupported", Tag.unsupported_value)
    ∷ (codes "no-value", Tag.no_value)
    ∷ (codes "integer", Tag.integer)
    ∷ (codes "boolean", Tag.boolean)
    ∷ (codes "enum", Tag.enum)
    ∷ (octet_string, Tag.string)
    ∷ (date_time, Tag.date)
    ∷ (resolution, Tag.resolution)
    ∷ (range_of_integer, Tag.range)
    ∷ (codes "begCollection", Tag.begin_collection)
    ∷ (codes "endCollection", Tag.end_collection)
    ∷ (codes "textWithoutLanguage", Tag.text)
    ∷ (codes "nameWithoutLanguage", Tag.name)
    ∷ (codes "keyword", Tag.keyword)
    ∷ (codes "uri", Tag.uri)
    ∷ (codes "charset", Tag.charset)
    ∷ (codes "naturalLanguage", Tag.language)
    ∷ (codes "mimeMediaType", Tag.mime_type)
    ∷ (codes "memberAttrName", Tag.member_name)
    ∷ []

-- An unknown name ends the process.
unfoldable pub get_ipp_tag : Bytes → Result IppTag
unfolding tags find bytes_eq
get_ipp_tag name = elim (find name tags) [ none ↦ err exited | some tag ↦ ok tag ]

-- `CHECK(attribute.FindStringKey(key))`, and the string found: a value of another type is not found.
string_at : Value → Bytes → Result Bytes
string_at attribute key = or_check (find_key attribute key) >>= get_string

-- `GetAttribute`
unfoldable pub get_attribute : Value → Result IppAttribute
unfolding find_key string_at
get_attribute attribute = do
  check (is_dict attribute)
  type ← string_at attribute (codes "type")
  name ← string_at attribute (codes "name")
  value ← or_check (find_key attribute (codes "value"))
  ok (record { type = type; name = name; value = value })

-- `GetAttributes(attributes)`: an item that is no dictionary is reported, and then ends the process.
unfoldable pub get_attributes_of : List Value → Result (List IppAttribute)
unfolding get_attribute
get_attributes_of [] = ok []
get_attributes_of (v ∷ vs) = do a ← get_attribute v; rest ← get_attributes_of vs; ok (a ∷ rest)

-- `GetAttributes(attributes, key)`
unfoldable pub get_attributes : Value → Bytes → Result (List IppAttribute)
unfolding get_attributes_of find_key
get_attributes attributes key = do
  check (is_dict attributes)
  found ← or_check (find_key attributes key)
  vs ← get_list found
  get_attributes_of vs
