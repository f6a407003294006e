-- ===== src/Ipp/Parse/Grammar.antt =====
-- The attributes section that RFC 8010 describes, as data and as bytes.
use virtual_usb_printer.Common.{
  ℕ, ◌^◌, ◌<◌, ◌≡◌, true, false, List, [], ◌∷◌, ◌++◌, length, All, Bytes,
}
use virtual_usb_printer.ByteOrder.{wire}
use virtual_usb_printer.Ipp.Parse.{is_attribute_group_tag, ends_group}

-- One value: an additional value of an attribute has an empty name.
pub record WireAttribute : Type 0 where
  pub tag : ℕ
  pub name : Bytes
  pub value : Bytes

pub record WireGroup : Type 0 where
  pub tag : ℕ
  pub attributes : List WireAttribute

-- A value behind its tag.
abbrev pub body_wire : WireAttribute → Bytes
body_wire a = wire 2 (length a.name) ++ (a.name ++ (wire 2 (length a.value) ++ a.value))

abbrev pub attributes_wire : List WireAttribute → Bytes
attributes_wire [] = []
attributes_wire (a ∷ as_) = a.tag ∷ (body_wire a ++ attributes_wire as_)

abbrev pub groups_wire : List WireGroup → Bytes
groups_wire [] = []
groups_wire (g ∷ gs) = g.tag ∷ (attributes_wire g.attributes ++ groups_wire gs)

-- The groups, and the end-of-attributes tag.
abbrev pub section_wire : List WireGroup → Bytes
section_wire gs = groups_wire gs ++ (0x03 ∷ [])

pub record IsAttribute (a : WireAttribute) : Type 0 where
  pub value_tag : ends_group a.tag ≡ false
  pub short_name : length a.name < 2 ^ 16
  pub short_value : length a.value < 2 ^ 16

pub record IsGroup (g : WireGroup) : Type 0 where
  pub group_tag : is_attribute_group_tag g.tag ≡ true
  pub members : All IsAttribute g.attributes

abbrev pub IsSection : List WireGroup → Type 0
IsSection gs = All IsGroup gs
