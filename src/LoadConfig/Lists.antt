-- ===== src/LoadConfig/Lists.antt =====
-- load_config.cc: the interfaces with their endpoints, the strings, and the device id.
pub mod Strings
pub mod Endpoints
pub mod Checked
pub mod Distinct
use virtual_usb_printer.Common.{
  ◌>>=◌, ◌>>◌, ℕ, ◌+◌, ◌*◌, ◌%◌, Option, none, some, List, [], ◌∷◌, ◌++◌, ltb, leb, ◌==◌,
  if◌then◌else◌, length, set, replicate, check_failed, Result, ok, err, check, or_check, Bytes,
  codes,
}
use virtual_usb_printer.Json.{Value, string, is_dict, find_dict, find_list, find_string}
use virtual_usb_printer.Descriptors.{UsbInterfaceDescriptor, UsbEndpointDescriptor}
use virtual_usb_printer.Printer.Control.{UsbDescriptors, find_endpoints}
use virtual_usb_printer.LoadConfig.Fields.{
  get_byte_value, get_device_descriptor, get_configuration_descriptor,
  get_device_qualifier_descriptor, get_interface_descriptor, get_endpoint_descriptor,
}

-- The endpoints under each interface's number.
abbrev pub EndpointMap : Type 0
EndpointMap = List (ℕ × List UsbEndpointDescriptor)

-- The loop of `GetInterfaceDescriptors`.
unfoldable pub interfaces_of : List Value → Result (List UsbInterfaceDescriptor)
unfolding get_interface_descriptor
interfaces_of [] = ok []
interfaces_of (descriptor ∷ list) = do
  check (is_dict descriptor)
  interface ← get_interface_descriptor descriptor
  interfaces ← interfaces_of list
  ok (interface ∷ interfaces)

unfoldable pub get_interface_descriptors : Value → Result (List UsbInterfaceDescriptor)
unfolding find_list interfaces_of
get_interface_descriptors printer = do
  list ← or_check (find_list printer (codes "interface_descriptors"))
  interfaces_of list

-- `endpoints_map[number] = endpoints`
unfoldable pub set_endpoints : ℕ → List UsbEndpointDescriptor → EndpointMap → EndpointMap
set_endpoints number endpoints [] = (number, endpoints) ∷ []
set_endpoints number endpoints ((i, old) ∷ rest) =
    if number == i
    then (number, endpoints) ∷ rest
    else if ltb number i
    then (number, endpoints) ∷ (i, old) ∷ rest
    else (i, old) ∷ set_endpoints number endpoints rest

-- What `endpoints_map[number]` refers to: a number that is not there gets an empty vector.
abbrev pub or_empty : Option (List UsbEndpointDescriptor) → List UsbEndpointDescriptor
or_empty none = []
or_empty (some endpoints) = endpoints

-- `endpoints_map[number].push_back(endpoint)`
unfoldable pub push_endpoint : ℕ → UsbEndpointDescriptor → EndpointMap → EndpointMap
unfolding find_endpoints set_endpoints
push_endpoint number endpoint map =
    set_endpoints number (or_empty (find_endpoints number map) ++ (endpoint ∷ [])) map

-- The inner loop of `GetEndpointDescriptorMap`.
unfoldable pub push_endpoints : ℕ → List Value → EndpointMap → Result EndpointMap
unfolding get_endpoint_descriptor push_endpoint
push_endpoints number [] map = ok map
push_endpoints number (endpoint_dictionary ∷ list) map = do
  check (is_dict endpoint_dictionary)
  endpoint ← get_endpoint_descriptor endpoint_dictionary
  push_endpoints number list (push_endpoint number endpoint map)

-- The outer loop.
unfoldable pub endpoint_map_of : List Value → EndpointMap → Result EndpointMap
unfolding get_interface_descriptor find_list push_endpoints
endpoint_map_of [] map = ok map
endpoint_map_of (interface_dictionary ∷ list) map = do
  check (is_dict interface_dictionary)
  interface ← get_interface_descriptor interface_dictionary
  endpoints_list ← or_check (find_list interface_dictionary (codes "endpoints"))
  filled ← push_endpoints interface.b_interface_number endpoints_list map
  endpoint_map_of list filled

unfoldable pub get_endpoint_descriptor_map : Value → Result EndpointMap
unfolding find_list endpoint_map_of
get_endpoint_descriptor_map printer = do
  interfaces_list ← or_check (find_list printer (codes "interface_descriptors"))
  endpoint_map_of interfaces_list []

-- The loop over the characters, which writes two bytes for each from the index `i` on.
unfoldable pub write_characters : ℕ → Bytes → Bytes → Bytes
write_characters i [] descriptor = descriptor
write_characters i (c ∷ str) descriptor =
    write_characters (i + 2) str (set (set descriptor i c) (i + 1) 0)

unfoldable pub convert_string_to_string_descriptor : Bytes → Result Bytes
unfolding write_characters
convert_string_to_string_descriptor str = do
  check (leb (length str) 126)
  let size = (length str * 2 + 2) % 256
  let zeros : Bytes = replicate size 0
  ok (write_characters 2 str (set (set zeros 0 size) 1 3))

-- `CHECK(value.is_string())`, and the string.
abbrev string_of : Value → Result Bytes
string_of (string s) = ok s
string_of _ = err check_failed

-- The loop over the list of strings.
unfoldable pub strings_of_config : List Value → Result (List Bytes)
unfolding convert_string_to_string_descriptor
strings_of_config [] = ok []
strings_of_config (value ∷ list) = do
  str ← string_of value
  descriptor ← convert_string_to_string_descriptor str
  strings ← strings_of_config list
  ok (descriptor ∷ strings)

unfoldable pub get_string_descriptors : Value → Result (List Bytes)
unfolding find_dict find_list get_byte_value strings_of_config
get_string_descriptors printer = do
  descriptor ← or_check (find_dict printer (codes "language_descriptor"))
  b_length ← get_byte_value descriptor (codes "bLength")
  b_descriptor_type ← get_byte_value descriptor (codes "bDescriptorType")
  lang_id1 ← get_byte_value descriptor (codes "langID1")
  lang_id2 ← get_byte_value descriptor (codes "langID2")
  list ← or_check (find_list printer (codes "string_descriptors"))
  strings ← strings_of_config list
  ok ((b_length ∷ b_descriptor_type ∷ lang_id1 ∷ lang_id2 ∷ []) ∷ strings)

unfoldable pub get_ieee_device_id : Value → Result Bytes
unfolding find_dict find_string get_byte_value
get_ieee_device_id printer = do
  descriptor ← or_check (find_dict printer (codes "ieee_device_id"))
  b_length1 ← get_byte_value descriptor (codes "bLength1")
  b_length2 ← get_byte_value descriptor (codes "bLength2")
  message ← or_check (find_string descriptor (codes "message"))
  ok (b_length1 ∷ b_length2 ∷ message)

-- `CreateUsbDescriptors` of virtual_usb_printer.cc.
unfoldable pub create_usb_descriptors : Value → Result UsbDescriptors
unfolding get_device_descriptor get_configuration_descriptor get_device_qualifier_descriptor
    get_interface_descriptors get_endpoint_descriptor_map get_string_descriptors get_ieee_device_id
create_usb_descriptors printer_config = do
  device ← get_device_descriptor printer_config
  configuration ← get_configuration_descriptor printer_config
  qualifier ← get_device_qualifier_descriptor printer_config
  interfaces ← get_interface_descriptors printer_config
  endpoint_map ← get_endpoint_descriptor_map printer_config
  strings ← get_string_descriptors printer_config
  ieee_device_id ← get_ieee_device_id printer_config
  ok (record {
    device_descriptor = device;
    configuration_descriptor = configuration;
    qualifier_descriptor = qualifier;
    string_descriptors = strings;
    ieee_device_id = ieee_device_id;
    interface_descriptors = interfaces;
    endpoint_descriptors = endpoint_map;
  })
