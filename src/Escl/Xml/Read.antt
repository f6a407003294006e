-- ===== src/Escl/Xml/Read.antt =====
-- `ScanSettingsFromXml`.
pub mod Ticket
pub mod ReadBack
use virtual_usb_printer.Common.{
  ℕ, Option, none, some, List, [], ◌∷◌, ◌++◌, if◌then◌else◌, undefined, Result, ok, err, Bytes,
  codes, bytes_eq,
}
use virtual_usb_printer.BaseStrings.{BaseStrings}
use virtual_usb_printer.Escl.Manager.{
  ColorMode, black_and_white, grayscale, rgb, ScanRegion, ScanSettings, EsclXml,
}
use virtual_usb_printer.Escl.Xml.{
  XmlNode, XmlNodes, nil, cons, node_name, node_children, node_content, LibXml,
}
use virtual_usb_printer.Escl.Xml.Write.{scanner_capabilities_as_xml, scanner_status_as_xml}

-- A step that may fail, `nullopt`, and what follows it.
abbrev pub and_then {ℓ} :
    {A : Type 0} {B : Type ℓ} → Result (Option A) → (A → Result (Option B)) → Result (Option B)
and_then (err e) f = err e
and_then (ok none) f = ok none
and_then (ok (some a)) f = f a

-- A string made of a pointer: a null pointer is undefined.
abbrev pub string_at : Option Bytes → Result (Option Bytes)
string_at none = err undefined
string_at (some s) = ok (some s)

-- The content of the first child.
unfoldable pub get_content : XmlNode → Result (Option Bytes)
get_content node = of_first (node_children node)
  where
    of_first : XmlNodes → Result (Option Bytes)
    of_first nil = ok none
    of_first (cons child children) = string_at (node_content child)

unfoldable pub color_mode_from_string : Bytes → Option ColorMode
unfolding bytes_eq
color_mode_from_string color_mode =
    if bytes_eq color_mode (codes "RGB24")
    then some rgb
    else if bytes_eq color_mode (codes "Grayscale8")
    then some grayscale
    else if bytes_eq color_mode (codes "BlackAndWhite1")
    then some black_and_white
    else none

-- `ScanRegion region;` and `ScanSettings settings;`
abbrev pub new_region : ScanRegion
new_region = record { units = []; height = none; width = none; x_offset = none; y_offset = none }

abbrev pub new_settings : ScanSettings
new_settings = record {
  document_format = [];
  color_mode = none;
  input_source = [];
  x_resolution = none;
  y_resolution = none;
  regions = [];
}

module _ (base : BaseStrings) where
  unfoldable pub get_int_content : XmlNode → Result (Option ℕ)
  unfolding get_content
  get_int_content node = and_then (get_content node) λ contents. ok (base.string_to_int contents)

  -- The body of the loop of `ScanRegionFromNode`.
  unfoldable pub region_child : XmlNode → ScanRegion → Result (Option ScanRegion)
  unfolding bytes_eq get_content get_int_content
  region_child child region =
      let name = node_name child in
      if bytes_eq name (codes "ContentRegionUnits")
      then and_then (get_content child) (λ content. ok (some (record region { units = content })))
      else if bytes_eq name (codes "Height")
      then and_then (get_int_content child) (λ n. ok (some (record region { height = some n })))
      else if bytes_eq name (codes "Width")
      then and_then (get_int_content child) (λ n. ok (some (record region { width = some n })))
      else if bytes_eq name (codes "XOffset")
      then and_then (get_int_content child) (λ n. ok (some (record region { x_offset = some n })))
      else if bytes_eq name (codes "YOffset")
      then and_then (get_int_content child) (λ n. ok (some (record region { y_offset = some n })))
      else ok (some region)

  unfoldable pub region_loop : XmlNodes → ScanRegion → Result (Option ScanRegion)
  unfolding region_child
  region_loop nil region = ok (some region)
  region_loop (cons child children) region =
      and_then (region_child child region) (region_loop children)

  unfoldable pub scan_region_from_node : XmlNode → Result (Option ScanRegion)
  unfolding region_loop
  scan_region_from_node node = region_loop (node_children node) new_region

  -- The loop over the children of `ScanRegions`.
  unfoldable pub regions_loop : XmlNodes → List ScanRegion → Result (Option (List ScanRegion))
  unfolding bytes_eq scan_region_from_node
  regions_loop nil regions = ok (some regions)
  regions_loop (cons child children) regions =
      and_then
        (if bytes_eq (node_name child) (codes "ScanRegion")
          then and_then (scan_region_from_node child)
              (λ region. ok (some (regions ++ (region ∷ []))))
          else ok (some regions))
        (regions_loop children)

  -- The body of the loop of `ScanSettingsFromXml`.
  unfoldable pub settings_node : XmlNode → ScanSettings → Result (Option ScanSettings)
  unfolding bytes_eq get_content get_int_content color_mode_from_string regions_loop
  settings_node node settings =
      let name = node_name node in
      if bytes_eq name (codes "ScanRegions")
      then and_then (regions_loop (node_children node) settings.regions)
          (λ regions. ok (some (record settings { regions = regions })))
      else if bytes_eq name (codes "DocumentFormat")
      then and_then (get_content node)
          (λ format. ok (some (record settings { document_format = format })))
      else if bytes_eq name (codes "ColorMode")
      then and_then (get_content node) (λ text.
        and_then (ok (color_mode_from_string text))
          (λ mode. ok (some (record settings { color_mode = some mode }))))
      else if bytes_eq name (codes "InputSource")
      then and_then (get_content node)
          (λ source. ok (some (record settings { input_source = source })))
      else if bytes_eq name (codes "XResolution")
      then and_then (get_int_content node)
          (λ n. ok (some (record settings { x_resolution = some n })))
      else if bytes_eq name (codes "YResolution")
      then and_then (get_int_content node)
          (λ n. ok (some (record settings { y_resolution = some n })))
      else ok (some settings)

  unfoldable pub settings_loop : XmlNodes → ScanSettings → Result (Option ScanSettings)
  unfolding settings_node
  settings_loop nil settings = ok (some settings)
  settings_loop (cons node nodes) settings =
      and_then (settings_node node settings) (settings_loop nodes)

  module _ (lib : LibXml) where
    unfoldable pub scan_settings_from_xml : Bytes → Result (Option ScanSettings)
    unfolding settings_loop
    scan_settings_from_xml xml = and_then (ok (lib.read_memory xml)) λ (root : Option XmlNode).
        and_then (ok root) λ (node : XmlNode). settings_loop (node_children node) new_settings

    -- xml_util.h
    unfoldable pub escl_xml : EsclXml
    unfolding scan_settings_from_xml scanner_capabilities_as_xml scanner_status_as_xml
    escl_xml = record {
      scan_settings_from_xml = scan_settings_from_xml;
      scanner_capabilities_as_xml = scanner_capabilities_as_xml lib;
      scanner_status_as_xml = scanner_status_as_xml lib;
    }
