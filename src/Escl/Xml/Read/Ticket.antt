-- ===== src/Escl/Xml/Read/Ticket.antt =====
-- A document that asks for a scan job: its elements in any order and number, and other nodes anywhere
-- between them.
use virtual_usb_printer.Common.{
  ℕ, ◌≡◌, false, Option, none, some, List, [], ◌∷◌, ◌++◌, All, Bytes, codes, bytes_eq,
}
use virtual_usb_printer.BaseStrings.{BaseStrings}
use virtual_usb_printer.Escl.Manager.{ColorMode, ScanRegion, ScanSettings, color_mode_as_string}
use virtual_usb_printer.Escl.Xml.{XmlNode, XmlNodes, nil, cons, element, node_name, text_node}
use virtual_usb_printer.Escl.Xml.Read.{new_region}

-- The children of `ScanRegion`, each with the prefix of its namespace. A number has its text too.
pub data RegionItem : Type 0 where
  units_is : Option Bytes → Bytes → RegionItem
  height_is width_is x_offset_is y_offset_is : Option Bytes → Bytes → ℕ → RegionItem
  region_other : XmlNode → RegionItem

-- The children of `ScanRegions`.
pub data RegionsItem : Type 0 where
  region_is : Option Bytes → List RegionItem → RegionsItem
  regions_other : XmlNode → RegionsItem

-- The children of the root.
pub data Item : Type 0 where
  regions_are : Option Bytes → List RegionsItem → Item
  format_is source_is : Option Bytes → Bytes → Item
  color_mode_is : Option Bytes → ColorMode → Item
  x_resolution_is y_resolution_is : Option Bytes → Bytes → ℕ → Item
  settings_other : XmlNode → Item

abbrev pub nodes_of : {A : Type 0} → (A → XmlNode) → List A → XmlNodes
nodes_of f [] = nil
nodes_of f (x ∷ xs) = cons (f x) (nodes_of f xs)

-- An element with a text.
abbrev pub spelled : Option Bytes → Bytes → Bytes → XmlNode
spelled ns name text = element ns [] name (cons (text_node text) nil)

abbrev pub region_item_node : RegionItem → XmlNode
region_item_node (units_is ns text) = spelled ns (codes "ContentRegionUnits") text
region_item_node (height_is ns text n) = spelled ns (codes "Height") text
region_item_node (width_is ns text n) = spelled ns (codes "Width") text
region_item_node (x_offset_is ns text n) = spelled ns (codes "XOffset") text
region_item_node (y_offset_is ns text n) = spelled ns (codes "YOffset") text
region_item_node (region_other node) = node

abbrev pub regions_item_node : RegionsItem → XmlNode
regions_item_node (region_is ns items) =
    element ns [] (codes "ScanRegion") (nodes_of region_item_node items)
regions_item_node (regions_other node) = node

abbrev pub item_node : Item → XmlNode
item_node (regions_are ns items) =
    element ns [] (codes "ScanRegions") (nodes_of regions_item_node items)
item_node (format_is ns text) = spelled ns (codes "DocumentFormat") text
item_node (source_is ns text) = spelled ns (codes "InputSource") text
item_node (color_mode_is ns mode) = spelled ns (codes "ColorMode") (color_mode_as_string mode)
item_node (x_resolution_is ns text n) = spelled ns (codes "XResolution") text
item_node (y_resolution_is ns text n) = spelled ns (codes "YResolution") text
item_node (settings_other node) = node

abbrev pub document : Option Bytes → List (Bytes × Bytes) → Bytes → List Item → XmlNode
document ns declared name items = element ns declared name (nodes_of item_node items)

-- The node has none of the names.
abbrev pub HasNoneOf : List Bytes → XmlNode → Type 0
HasNoneOf names node = All (λ name. bytes_eq (node_name node) name ≡ false) names

module _ (base : BaseStrings) where
  -- `StringToInt` reads each text as its number, and the other nodes have none of the names that are looked
  -- for at their place.
  abbrev pub IsRegionItem : RegionItem → Type 0
  IsRegionItem (units_is ns text) = Unit {0}
  IsRegionItem (height_is ns text n) = base.string_to_int text ≡ some n
  IsRegionItem (width_is ns text n) = base.string_to_int text ≡ some n
  IsRegionItem (x_offset_is ns text n) = base.string_to_int text ≡ some n
  IsRegionItem (y_offset_is ns text n) = base.string_to_int text ≡ some n
  IsRegionItem (region_other node) =
      HasNoneOf
        (codes "ContentRegionUnits"
          ∷ codes "Height"
          ∷ codes "Width"
          ∷ codes "XOffset"
          ∷ codes "YOffset"
          ∷ [])
        node

  abbrev pub IsRegionsItem : RegionsItem → Type 0
  IsRegionsItem (region_is ns items) = All IsRegionItem items
  IsRegionsItem (regions_other node) = bytes_eq (node_name node) (codes "ScanRegion") ≡ false

  abbrev pub IsItem : Item → Type 0
  IsItem (regions_are ns items) = All IsRegionsItem items
  IsItem (format_is ns text) = Unit {0}
  IsItem (source_is ns text) = Unit {0}
  IsItem (color_mode_is ns mode) = Unit {0}
  IsItem (x_resolution_is ns text n) = base.string_to_int text ≡ some n
  IsItem (y_resolution_is ns text n) = base.string_to_int text ≡ some n
  IsItem (settings_other node) =
      HasNoneOf
        (codes "ScanRegions"
          ∷ codes "DocumentFormat"
          ∷ codes "ColorMode"
          ∷ codes "InputSource"
          ∷ codes "XResolution"
          ∷ codes "YResolution"
          ∷ [])
        node

-- What the last item that gives one says, or else the value before.
abbrev pub value_or : {A : Type 0} → Option A → A → A
value_or none a = a
value_or (some b) a = b

abbrev pub latest : {A I : Type 0} → (I → Option A) → A → List I → A
latest given a [] = a
latest given a (i ∷ is) = latest given (value_or (given i) a) is

abbrev units_in : RegionItem → Option Bytes
units_in (units_is ns text) = some text
units_in _ = none

abbrev height_in : RegionItem → Option (Option ℕ)
height_in (height_is ns text n) = some (some n)
height_in _ = none

abbrev width_in : RegionItem → Option (Option ℕ)
width_in (width_is ns text n) = some (some n)
width_in _ = none

abbrev x_offset_in : RegionItem → Option (Option ℕ)
x_offset_in (x_offset_is ns text n) = some (some n)
x_offset_in _ = none

abbrev y_offset_in : RegionItem → Option (Option ℕ)
y_offset_in (y_offset_is ns text n) = some (some n)
y_offset_in _ = none

abbrev pub region_after : ScanRegion → List RegionItem → ScanRegion
region_after r items = record {
  units = latest units_in r.units items;
  height = latest height_in r.height items;
  width = latest width_in r.width items;
  x_offset = latest x_offset_in r.x_offset items;
  y_offset = latest y_offset_in r.y_offset items;
}

abbrev pub regions_in : List RegionsItem → List ScanRegion
regions_in [] = []
regions_in (region_is ns items ∷ rest) = region_after new_region items ∷ regions_in rest
regions_in (regions_other node ∷ rest) = regions_in rest

abbrev format_in : Item → Option Bytes
format_in (format_is ns text) = some text
format_in _ = none

abbrev color_mode_in : Item → Option (Option ColorMode)
color_mode_in (color_mode_is ns mode) = some (some mode)
color_mode_in _ = none

abbrev source_in : Item → Option Bytes
source_in (source_is ns text) = some text
source_in _ = none

abbrev x_resolution_in : Item → Option (Option ℕ)
x_resolution_in (x_resolution_is ns text n) = some (some n)
x_resolution_in _ = none

abbrev y_resolution_in : Item → Option (Option ℕ)
y_resolution_in (y_resolution_is ns text n) = some (some n)
y_resolution_in _ = none

abbrev pub with_regions : Item → List ScanRegion → List ScanRegion
with_regions (regions_are ns items) regions = regions ++ regions_in items
with_regions _ regions = regions

-- The regions of all `ScanRegions`, in their order.
abbrev pub all_regions : List ScanRegion → List Item → List ScanRegion
all_regions regions [] = regions
all_regions regions (i ∷ is) = all_regions (with_regions i regions) is

-- What the items say: of each setting the last one, and all regions.
abbrev pub settings_after : ScanSettings → List Item → ScanSettings
settings_after s items = record {
  document_format = latest format_in s.document_format items;
  color_mode = latest color_mode_in s.color_mode items;
  input_source = latest source_in s.input_source items;
  x_resolution = latest x_resolution_in s.x_resolution items;
  y_resolution = latest y_resolution_in s.y_resolution items;
  regions = all_regions s.regions items;
}

-- What a client asks for: every setting that the scanner decides by has a value.
pub record Ticket : Type 0 where
  pub document_format : Bytes
  pub color_mode : ColorMode
  pub input_source : Bytes
  pub x_resolution : ℕ
  pub y_resolution : ℕ
  pub regions : List ScanRegion

abbrev pub settings_of : Ticket → ScanSettings
settings_of t = record {
  document_format = t.document_format;
  color_mode = some t.color_mode;
  input_source = t.input_source;
  x_resolution = some t.x_resolution;
  y_resolution = some t.y_resolution;
  regions = t.regions;
}
