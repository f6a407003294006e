-- ===== src/Tests/Data.antt =====
-- Test data, and executable stand-ins for the functions of libbase.
use virtual_usb_printer.Common.{
  ℕ, ◌+◌, ◌-◌, ◌*◌, ◌&&◌, Option, none, some, List, [], ◌∷◌, leb, ◌==◌, if◌then◌else◌, ok, Bytes,
  codes, is_prefix,
}
use virtual_usb_printer.BaseStrings.{BaseStrings}
use virtual_usb_printer.Usbip.{UsbipCmdSubmit, UsbControlRequest}
use virtual_usb_printer.Descriptors.{
  UsbDeviceDescriptor, UsbConfigurationDescriptor, UsbDeviceQualifierDescriptor,
  UsbInterfaceDescriptor, UsbEndpointDescriptor,
}
use virtual_usb_printer.Ipp.Manager.{IppManager}
use virtual_usb_printer.Ipp.Attribute.{IppAttribute}
use virtual_usb_printer.Json.{integer, string}
use virtual_usb_printer.Printer.Interface.{InterfaceManager}
use virtual_usb_printer.Printer.Control.{UsbDescriptors}
use virtual_usb_printer.Printer.Data.{EsclService, UsbPrinter}

abbrev prepend : ℕ → List Bytes → List Bytes
prepend b [] = (b ∷ []) ∷ []
prepend b (x ∷ xs) = (b ∷ x) ∷ xs

-- Pieces between the bytes `c`.
abbrev pub split_at : ℕ → Bytes → List Bytes
split_at c [] = [] ∷ []
split_at c (b ∷ bs) = let rest = split_at c bs in if b == c then [] ∷ rest else prepend b rest

abbrev head_or : ℕ → Bytes → ℕ
head_or d [] = d
head_or d (b ∷ bs) = b

abbrev without_returns : Bytes → Bytes
without_returns [] = []
without_returns (b ∷ bs) = let rest = without_returns bs in if b == 13 then rest else b ∷ rest

abbrev non_empty : List Bytes → List Bytes
non_empty [] = []
non_empty ([] ∷ ls) = non_empty ls
non_empty ((b ∷ bs) ∷ ls) = (b ∷ bs) ∷ non_empty ls

abbrev trim : ℕ → Bytes → Bytes
trim c [] = []
trim c (b ∷ bs) = if b == c then trim c bs else b ∷ bs

-- The digits of a number to the base `k`, behind those of value `n`.
abbrev digits_from : ℕ → ℕ → Bytes → Option ℕ
digits_from k n [] = some n
digits_from k n (b ∷ bs) =
    let dec = digits_from k (k * n + (b - b'0')) bs in
    let hex = digits_from k (k * n + (b - b'a' + 10)) bs in
    if leb b'0' b && leb b b'9'
    then dec
    else if leb b'a' b && leb b b'f' && leb 11 k
    then hex
    else none

abbrev number : ℕ → Bytes → Option ℕ
number k [] = none
number k (b ∷ bs) = digits_from k 0 (b ∷ bs)

abbrev pub base : BaseStrings
base = record {
  split_string = λ s c. split_at (head_or 0 c) s;
  split_string_using_substr = λ s d. non_empty (split_at 10 (without_returns s));
  trim_string_leading = λ s c. trim (head_or 0 c) s;
  string_to_size_t = number 10;
  string_to_int = number 10;
  hex_string_to_uint = number 16;
  starts_with = λ s p. is_prefix p s;
}

-- A transfer of 4 bytes from the endpoint.
abbrev pub submit : ℕ → ℕ → UsbipCmdSubmit
submit ep setup = record {
  header = record { command = 1; seqnum = 7; devid = 2; direction = 1; ep = ep };
  transfer_flags = 0;
  transfer_buffer_length = 4;
  start_frame = 0;
  number_of_packets = 0;
  interval = 0;
  setup = setup;
}

-- `GET_DESCRIPTOR` for the whole configuration of 25 bytes.
abbrev pub get_configuration : UsbControlRequest
get_configuration = record {
  bm_request_type = 0x80;
  b_request = 6;
  w_value0 = 0;
  w_value1 = 2;
  w_index0 = 0;
  w_index1 = 0;
  w_length = 25;
}

abbrev pub device : UsbDeviceDescriptor
device = record {
  b_length = 18;
  b_descriptor_type = 1;
  bcd_usb = 0x0200;
  b_device_class = 0;
  b_device_sub_class = 0;
  b_device_protocol = 0;
  b_max_packet_size0 = 8;
  id_vendor = 0x04A9;
  id_product = 0x27E8;
  bcd_device = 0x0100;
  i_manufacturer = 1;
  i_product = 2;
  i_serial_number = 1;
  b_num_configurations = 1;
}

abbrev pub configuration : UsbConfigurationDescriptor
configuration = record {
  b_length = 9;
  b_descriptor_type = 2;
  w_total_length = 25;
  b_num_interfaces = 1;
  b_configuration_value = 1;
  i_configuration = 0;
  bm_attributes = 128;
  b_max_power = 0;
}

abbrev pub interface : UsbInterfaceDescriptor
interface = record {
  b_length = 9;
  b_descriptor_type = 4;
  b_interface_number = 0;
  b_alternate_setting = 0;
  b_num_endpoints = 1;
  b_interface_class = 7;
  b_interface_sub_class = 1;
  b_interface_protocol = 4;
  i_interface = 0;
}

abbrev pub endpoint : UsbEndpointDescriptor
endpoint = record {
  b_length = 7;
  b_descriptor_type = 5;
  b_endpoint_address = 1;
  bm_attributes = 2;
  w_max_packet_size = 512;
  b_interval = 0;
}

abbrev pub qualifier : UsbDeviceQualifierDescriptor
qualifier = record {
  b_length = 10;
  b_descriptor_type = 6;
  bcd_usb = 0x0200;
  b_device_class = 0;
  b_device_sub_class = 0;
  b_device_protocol = 0;
  b_max_packet_size0 = 8;
  b_num_configurations = 1;
  b_reserved = 0;
}

abbrev pub descriptors : UsbDescriptors
descriptors = record {
  device_descriptor = device;
  configuration_descriptor = configuration;
  qualifier_descriptor = qualifier;
  string_descriptors = (4 ∷ 3 ∷ 9 ∷ 4 ∷ []) ∷ [];
  ieee_device_id = 0 ∷ 2 ∷ [];
  interface_descriptors = interface ∷ [];
  endpoint_descriptors = (0, endpoint ∷ []) ∷ [];
}

abbrev pub attribute : Bytes → Bytes → IppAttribute
attribute name value = record { type = codes "charset"; name = name; value = string value }

abbrev pub ipp_manager : IppManager
ipp_manager = record {
  operation_attributes = attribute (codes "attributes-charset") (codes "utf-8") ∷ [];
  printer_attributes = [];
  job_attributes = record { type = codes "integer"; name = codes "job-id"; value = integer 3 } ∷ [];
  unsupported_attributes = [];
  document_output_path = [];
}

-- A printer without eSCL endpoints, on one interface.
abbrev pub escl : EsclService (Unit {0})
escl = record {
  handle_escl_request =
      λ s request body. ok (record { status = codes "404 Not Found"; headers = []; body = [] }, s);
}

abbrev pub printer : List InterfaceManager → UsbPrinter (Unit {0})
printer managers = record {
  usb_descriptors = descriptors;
  document_output_path = [];
  ipp_manager = ipp_manager;
  escl_manager = tt;
  interface_managers = managers;
}
