-- ===== src/Escl/Xml/Read/ReadBack.antt =====
-- A document that asks for a scan job is read as what its elements say.
use virtual_usb_printer.Common.{
  ◌≡◌, refl, sym, ap, ◌∙◌, Option, some, List, [], ◌∷◌, ◌++◌, append-nil, append_assoc, All, ok,
  Bytes, codes, bytes_eq,
}
use virtual_usb_printer.BaseStrings.{BaseStrings}
use virtual_usb_printer.Escl.Manager.{
  ColorMode, black_and_white, grayscale, rgb, ScanRegion, ScanSettings, color_mode_as_string,
}
use virtual_usb_printer.Escl.Xml.{LibXml}
use virtual_usb_printer.Escl.Xml.Read.{
  get_content, color_mode_from_string, new_region, new_settings, region_child, region_loop,
  scan_region_from_node, regions_loop, settings_node, settings_loop, scan_settings_from_xml,
}
use virtual_usb_printer.Escl.Xml.Read.Ticket.{
  RegionItem, units_is, height_is, width_is, x_offset_is, y_offset_is, region_other, RegionsItem,
  region_is, regions_other, Item, regions_are, format_is, source_is, color_mode_is, x_resolution_is,
  y_resolution_is, settings_other, nodes_of, spelled, region_item_node, regions_item_node,
  item_node, document, IsRegionItem, IsRegionsItem, IsItem, region_after, regions_in,
  settings_after,
}

module _ (base : BaseStrings) where
  region_item_lem :
      (i : RegionItem) (r : ScanRegion)
      → IsRegionItem base i
      → region_child base (region_item_node i) r ≡ ok (some (region_after r (i ∷ [])))
  unfolding region_child bytes_eq get_content
  region_item_lem (units_is ns text) r h = refl
  region_item_lem (height_is ns text n) r h = rw h refl
  region_item_lem (width_is ns text n) r h = rw h refl
  region_item_lem (x_offset_is ns text n) r h = rw h refl
  region_item_lem (y_offset_is ns text n) r h = rw h refl
  region_item_lem (region_other node) r (a, (b, (c, (d, (e, rest))))) = rw (a, b, c, d, e) refl

  region_items_lem :
      (items : List RegionItem) (r : ScanRegion)
      → All (IsRegionItem base) items
      → region_loop base (nodes_of region_item_node items) r ≡ ok (some (region_after r items))
  unfolding region_loop
  region_items_lem [] r h = refl
  region_items_lem (i ∷ items) r h =
      rw (region_item_lem i r h.0) (region_items_lem items (region_after r (i ∷ [])) h.1)

  regions_items_lem :
      (items : List RegionsItem) (before : List ScanRegion)
      → All (IsRegionsItem base) items
      → regions_loop base (nodes_of regions_item_node items) before
        ≡ ok (some (before ++ regions_in items))
  unfolding regions_loop bytes_eq scan_region_from_node
  regions_items_lem [] before h =
      ap (λ (x : List ScanRegion). ok (some x)) (sym (append-nil before))
  regions_items_lem (region_is ns parts ∷ items) before h =
      rw (region_items_lem parts new_region (h.0)) (
        regions_items_lem items (before ++ (region_after new_region parts ∷ [])) h.1
        ∙ ap (λ (x : List ScanRegion). ok (some x))
            (append_assoc before (region_after new_region parts ∷ []) (regions_in items)))
  regions_items_lem (regions_other node ∷ items) before h =
      rw (h.0) (regions_items_lem items before h.1)

  color_mode_item :
      (ns : Option Bytes) (mode : ColorMode) (s : ScanSettings)
      → settings_node base (spelled ns (codes "ColorMode") (color_mode_as_string mode)) s
        ≡ ok (some (record s { color_mode = some mode }))
  unfolding settings_node bytes_eq get_content color_mode_from_string color_mode_as_string
  color_mode_item ns black_and_white s = refl
  color_mode_item ns grayscale s = refl
  color_mode_item ns rgb s = refl

  item_lem :
      (i : Item) (s : ScanSettings)
      → IsItem base i
      → settings_node base (item_node i) s ≡ ok (some (settings_after s (i ∷ [])))
  unfolding settings_node bytes_eq get_content
  item_lem (regions_are ns items) s h = rw (regions_items_lem items s.regions h) refl
  item_lem (format_is ns text) s h = refl
  item_lem (source_is ns text) s h = refl
  item_lem (color_mode_is ns mode) s h = color_mode_item ns mode s
  item_lem (x_resolution_is ns text n) s h = rw h refl
  item_lem (y_resolution_is ns text n) s h = rw h refl
  item_lem (settings_other node) s (a, (b, (c, (d, (e, (f, rest)))))) = rw (a, b, c, d, e, f) refl

  items_lem :
      (items : List Item) (s : ScanSettings)
      → All (IsItem base) items
      → settings_loop base (nodes_of item_node items) s ≡ ok (some (settings_after s items))
  unfolding settings_loop
  items_lem [] s h = refl
  items_lem (i ∷ items) s h =
      rw (item_lem i s h.0) (items_lem items (settings_after s (i ∷ [])) h.1)

  -- A document whose root has these items as its children, in their order and number, is read as what they
  -- say: of each setting the last one, and all regions.
  pub scan_settings_from_xml-document :
      (lib : LibXml) (body name : Bytes) (ns : Option Bytes) (declared : List (Bytes × Bytes))
      (items : List Item)
      → lib.read_memory body ≡ some (some (document ns declared name items))
      → All (IsItem base) items
      → scan_settings_from_xml base lib body ≡ ok (some (settings_after new_settings items))
  unfolding scan_settings_from_xml
  scan_settings_from_xml-document lib body name ns declared items e h =
      rw e (items_lem items new_settings h)
