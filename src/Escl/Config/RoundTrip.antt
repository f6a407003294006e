-- ===== src/Escl/Config/RoundTrip.antt =====
-- The configuration that describes given capabilities.
use virtual_usb_printer.Common.{
  ℕ, ◌≡◌, refl, Option, none, some, List, [], ◌∷◌, Bytes, codes, bytes_eq,
}
use virtual_usb_printer.Json.{
  Value, Items, nil, cons, end, field, list, string, integer, dict, to_list, find_key, find_field,
  find_list, find_string, find_dict,
}
use virtual_usb_printer.Escl.Config.{
  SourceCapabilities, ScannerCapabilities, strings_of_list, ints_of_list, extract_string_list,
  extract_int_list, create_source_capabilities_from_config, adf_capabilities_of,
  create_scanner_capabilities_from_config,
}

abbrev string_items : List Bytes → Items
string_items [] = nil
string_items (s ∷ ss) = cons (string s) (string_items ss)

abbrev int_items : List ℕ → Items
int_items [] = nil
int_items (n ∷ ns) = cons (integer n) (int_items ns)

-- The dictionary of a source, its keys in their order.
unfoldable pub source_config : SourceCapabilities → Value
source_config c = dict (
    field (codes "ColorModes") (list (string_items c.color_modes)) (
      field (codes "DocumentFormats") (list (string_items c.formats))
        (field (codes "Resolutions") (list (int_items c.resolutions)) end)))

-- `ADF` is written where the scanner has one.
unfoldable pub scanner_config : ScannerCapabilities → Value
unfolding source_config
scanner_config c =
    let common = field (codes "MakeAndModel") (string c.make_and_model) (
      field (codes "Platen") (source_config c.platen_capabilities)
        (field (codes "SerialNumber") (string c.serial_number) end)) in
    dict (elim c.adf_capabilities [
      | none ↦ common
      | some adf ↦ field (codes "ADF") (source_config adf) common
    ])

strings_of_items : (ss : List Bytes) → strings_of_list (to_list (string_items ss)) ≡ some ss
unfolding strings_of_list
strings_of_items [] = refl
strings_of_items (s ∷ ss) = rw (strings_of_items ss) refl

ints_of_items : (ns : List ℕ) → ints_of_list (to_list (int_items ns)) ≡ some ns
unfolding ints_of_list
ints_of_items [] = refl
ints_of_items (n ∷ ns) = rw (ints_of_items ns) refl

source-source_config :
    (c : SourceCapabilities) → create_source_capabilities_from_config (source_config c) ≡ some c
unfolding create_source_capabilities_from_config source_config extract_string_list extract_int_list
    find_list find_key find_field bytes_eq
source-source_config c =
    rw (strings_of_items c.color_modes, strings_of_items c.formats, ints_of_items c.resolutions)
      refl

with_adf :
    (make serial : Bytes) (platen : SourceCapabilities) (adf : Option SourceCapabilities)
    → let c : ScannerCapabilities = record {
      make_and_model = make;
      serial_number = serial;
      platen_capabilities = platen;
      adf_capabilities = adf;
    } in
      create_scanner_capabilities_from_config (scanner_config c) ≡ some c
unfolding create_scanner_capabilities_from_config scanner_config adf_capabilities_of find_string
    find_dict find_key find_field bytes_eq
with_adf make serial platen none = rw (source-source_config platen) refl
with_adf make serial platen (some adf) =
    rw (source-source_config platen, source-source_config adf) refl

-- The configuration of a scanner, with or without a document feeder, is read back as its capabilities.
pub create_scanner_capabilities_from_config-scanner_config :
    (c : ScannerCapabilities) → create_scanner_capabilities_from_config (scanner_config c) ≡ some c
create_scanner_capabilities_from_config-scanner_config c =
    with_adf c.make_and_model c.serial_number c.platen_capabilities c.adf_capabilities
