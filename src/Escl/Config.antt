-- ===== src/Escl/Config.antt =====
-- The scanner's capabilities, and `CreateScannerCapabilitiesFromConfig`.
pub mod RoundTrip
use virtual_usb_printer.Common.{
  ℕ, not, Option, none, some, List, [], ◌∷◌, if◌then◌else◌, Bytes, codes, ◌>>=◌, ◌>>◌,
}
use virtual_usb_printer.Json.{Value, string, integer, is_dict, find_list, find_string, find_dict}

pub record SourceCapabilities : Type 0 where
  pub color_modes : List Bytes
  pub formats : List Bytes
  pub resolutions : List ℕ

pub record ScannerCapabilities : Type 0 where
  pub make_and_model : Bytes
  pub serial_number : Bytes
  pub platen_capabilities : SourceCapabilities
  pub adf_capabilities : Option SourceCapabilities

-- The loop of `ExtractStringList`.
unfoldable pub strings_of_list : List Value → Option (List Bytes)
strings_of_list [] = some []
strings_of_list (string s ∷ vs) = elim (strings_of_list vs) [
  | none ↦ none
  | some ss ↦ some (s ∷ ss)
]
strings_of_list (_ ∷ vs) = none

unfoldable pub extract_string_list : Value → Bytes → Option (List Bytes)
unfolding find_list strings_of_list
extract_string_list root config_name = elim (find_list root config_name) [
  | none ↦ none
  | some vs ↦ strings_of_list vs
]

-- The loop of `ExtractIntList`.
unfoldable pub ints_of_list : List Value → Option (List ℕ)
ints_of_list [] = some []
ints_of_list (integer n ∷ vs) = elim (ints_of_list vs) [ none ↦ none | some ns ↦ some (n ∷ ns) ]
ints_of_list (_ ∷ vs) = none

unfoldable pub extract_int_list : Value → Bytes → Option (List ℕ)
unfolding find_list ints_of_list
extract_int_list root config_name = elim (find_list root config_name) [
  | none ↦ none
  | some vs ↦ ints_of_list vs
]

infixl 5 ◌>>=?◌
abbrev ◌>>=?◌ {ℓ κ} : {A : Type ℓ} {B : Type κ} → Option A → (A → Option B) → Option B
none >>=? f = none
some a >>=? f = f a

unfoldable pub create_source_capabilities_from_config : Value → Option SourceCapabilities
unfolding extract_string_list extract_int_list
create_source_capabilities_from_config config =
    if is_dict config
    then (extract_string_list config (codes "ColorModes") >>=? λ color_modes.
        extract_string_list config (codes "DocumentFormats") >>=? λ formats.
        extract_int_list config (codes "Resolutions") >>=? λ resolutions.
        some (record { color_modes = color_modes; formats = formats; resolutions = resolutions }))
    else none

-- A missing `ADF` is no error; one whose capabilities do not parse is.
unfoldable pub adf_capabilities_of : Value → Option (Option SourceCapabilities)
unfolding find_dict create_source_capabilities_from_config
adf_capabilities_of config = elim (find_dict config (codes "ADF")) [
  | none ↦ some none
  | some value ↦
      create_source_capabilities_from_config value >>=? λ capabilities. some (some capabilities)
]

unfoldable pub create_scanner_capabilities_from_config : Value → Option ScannerCapabilities
unfolding find_string find_dict create_source_capabilities_from_config adf_capabilities_of
create_scanner_capabilities_from_config config =
    if is_dict config
    then (find_string config (codes "MakeAndModel") >>=? λ make_and_model.
        find_string config (codes "SerialNumber") >>=? λ serial_number.
        find_dict config (codes "Platen") >>=? λ value.
        create_source_capabilities_from_config value >>=? λ platen.
        adf_capabilities_of config >>=? λ adf. some (record {
          make_and_model = make_and_model;
          serial_number = serial_number;
          platen_capabilities = platen;
          adf_capabilities = adf;
        }))
    else none
