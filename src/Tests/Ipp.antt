-- ===== src/Tests/Ipp.antt =====
-- The IPP side.
use virtual_usb_printer.Common.{
  ◌≡◌, refl, inl, inr, none, some, List, [], ◌∷◌, ◌++◌, arith, ok, Bytes, codes, bytes_eq,
}
use virtual_usb_printer.SmartBuffer.{SmartBuffer, erase}
use virtual_usb_printer.Ipp.Tag.{tag_value}
use virtual_usb_printer.Ipp.Tag
use virtual_usb_printer.Ipp.Header.{IppHeader, IsIppHeader, serialize, deserialize}
use virtual_usb_printer.Ipp.Parse.{
  is_attribute_group_tag, get_attributes_length, remove_ipp_attributes,
}
use virtual_usb_printer.Ipp.Parse.Grammar.{
  WireAttribute, WireGroup, IsGroup, IsSection, section_wire, attributes_wire,
}
use virtual_usb_printer.Ipp.Parse.Accepts.{remove_ipp_attributes-section_wire}
use virtual_usb_printer.Ipp.Parse.Sound.{remove_ipp_attributes-some}
use virtual_usb_printer.Ipp.Parse.Total.{Answers, get_attributes_length-Answers}
use virtual_usb_printer.Ipp.Attribute.{operation_attributes, get_ipp_tag}
use virtual_usb_printer.ByteOrder.{mem, swap}
use virtual_usb_printer.Ipp.Attribute.Add.{
  add_printer_attributes, add_string, add_string_attribute, add_integer, add_int_attribute,
}
use virtual_usb_printer.Ipp.Attribute.Size.{
  get_attributes_size, get_string_attribute_size, get_base_attribute_size, get_int_attribute_size,
}
use virtual_usb_printer.Ipp.Attribute.Add.Dispatch.{add_printer_attributes-IsGroup}
use virtual_usb_printer.Ipp.Manager.{Reply, response_header, handle_ipp_request}
use virtual_usb_printer.Ipp.Manager.Response.{
  HasDates, IsResponse, groups_of, handle_ipp_request-IsResponse, handle_ipp_request_readable,
}
use virtual_usb_printer.Tests.Data.{ipp_manager}

abbrev charset : WireAttribute
charset = record { tag = 0x47; name = codes "attributes-charset"; value = codes "utf-8" }

abbrev operation_group : WireGroup
operation_group = record { tag = 0x01; attributes = charset ∷ [] }

sent-IsSection : IsSection (operation_group ∷ [])
unfolding is_attribute_group_tag
sent-IsSection = (
  record {
    group_tag = refl;
    members =
        (record { value_tag = refl; short_name = omega arith; short_value = omega arith }, tt);
  },
  tt,
)

remove_ipp_attributes-section_wire_example :
    remove_ipp_attributes (section_wire (operation_group ∷ []) ++ codes "%PDF")
    ≡ ok (some (codes "%PDF"))
remove_ipp_attributes-section_wire_example =
    remove_ipp_attributes-section_wire (operation_group ∷ []) (codes "%PDF") sent-IsSection

abbrev smallest_section : SmartBuffer
smallest_section = 0x01 ∷ 0x03 ∷ 9 ∷ []

smallest_section_removed : remove_ipp_attributes smallest_section ≡ ok (some (9 ∷ []))
unfolding remove_ipp_attributes erase
smallest_section_removed = refl

remove_ipp_attributes-some_example :
    (gs : List WireGroup) × IsSection gs × (smallest_section ≡ section_wire gs ++ (9 ∷ []))
remove_ipp_attributes-some_example =
    remove_ipp_attributes-some smallest_section (9 ∷ [])
      (omega arith, (omega arith, (omega arith, tt))) smallest_section_removed

get_attributes_length-Answers_example : Answers (get_attributes_length smallest_section)
get_attributes_length-Answers_example = get_attributes_length-Answers smallest_section

-- Create-Job.
abbrev create_job_request : IppHeader
create_job_request = record { major = 2; minor = 0; operation_id = 0x0005; request_id = 17 }

create_job_request-IsIppHeader : IsIppHeader create_job_request
create_job_request-IsIppHeader = record {
  major = omega arith;
  minor = omega arith;
  operation_id = omega arith;
  request_id = omega arith;
}

abbrev group_bytes : Bytes
group_bytes = 0x01 ∷ 0x47 ∷ 0 ∷ 18 ∷ (codes "attributes-charset" ++ (0 ∷ 5 ∷ codes "utf-8"))

abbrev created : Reply
created = record {
  response =
      (2 ∷ 0 ∷ 0 ∷ 0 ∷ 0 ∷ 0 ∷ 0 ∷ 17 ∷ [])
      ++ (group_bytes
          ++ (0x02 ∷ 0x21 ∷ 0 ∷ 6 ∷ (codes "job-id" ++ (0 ∷ 4 ∷ 0 ∷ 0 ∷ 0 ∷ 3 ∷ 3 ∷ []))));
  recorded = none;
}

create_job_runs : handle_ipp_request ipp_manager create_job_request [] ≡ ok created
unfolding handle_ipp_request get_attributes_size bytes_eq get_string_attribute_size
    get_base_attribute_size get_int_attribute_size add_printer_attributes get_ipp_tag add_string
    add_string_attribute add_integer add_int_attribute serialize mem swap tag_value
create_job_runs = refl

manager-HasDates : HasDates ipp_manager
manager-HasDates = record {
  operations = ((λ d e g. absurd (cc)), tt);
  printers = tt;
  jobs = ((λ d e g. absurd (cc)), tt);
}

handle_ipp_request-IsResponse_example :
    IsResponse create_job_request (groups_of 0x0005) created.response
handle_ipp_request-IsResponse_example =
    handle_ipp_request-IsResponse ipp_manager create_job_request [] created manager-HasDates
      (inr (inl refl)) create_job_runs

handle_ipp_request_readable_example :
    (rest : SmartBuffer) × (deserialize created.response
      ≡ ok (some (response_header create_job_request, rest)))
    × (remove_ipp_attributes rest ≡ ok (some []))
handle_ipp_request_readable_example =
    handle_ipp_request_readable ipp_manager create_job_request [] created manager-HasDates
      create_job_request-IsIppHeader (inr (inl refl)) create_job_runs

operation_tag : get_ipp_tag operation_attributes ≡ ok Tag.operation
unfolding get_ipp_tag
operation_tag = refl

group_written :
    add_printer_attributes ipp_manager.operation_attributes operation_attributes [] ≡ ok group_bytes
unfolding add_printer_attributes get_ipp_tag add_string add_string_attribute tag_value mem swap
group_written = refl

add_printer_attributes-IsGroup_example :
    (g : WireGroup) × IsGroup g
    × (g.tag ≡ 0x01)
    × (group_bytes ≡ g.tag ∷ attributes_wire g.attributes)
unfolding is_attribute_group_tag tag_value
add_printer_attributes-IsGroup_example =
    add_printer_attributes-IsGroup ipp_manager.operation_attributes operation_attributes
      Tag.operation [] manager-HasDates.operations operation_tag refl group_written
