-- ===== src/Tests/Config.antt =====
-- A printer's configuration, and its descriptors.
use virtual_usb_printer.Common.{
  ℕ, ◌+◌, ◌≡◌, refl, some, List, [], ◌∷◌, ◌++◌, ◌==◌, if◌then◌else◌, arith, leb, exited,
  check_failed, ok, err, Bytes, codes, bytes_eq,
}
use virtual_usb_printer.Json.{
  Value, integer, string, list, dict, nil, cons, end, field, find_field, find_key, find_int,
  find_list, find_string, find_dict,
}
use virtual_usb_printer.Descriptors.{
  UsbInterfaceDescriptor, UsbEndpointDescriptor, configuration_bytes,
}
use virtual_usb_printer.Usbip.{UsbControlRequest}
use virtual_usb_printer.Printer.Control.{
  UsbDescriptors, find_endpoints, handle_get_string_descriptor, handle_get_configuration_descriptor,
}
use virtual_usb_printer.Printer.Control.Descriptor.{
  Interfaces, just_interfaces, interfaces_size, interfaces_wire,
}
use virtual_usb_printer.LoadConfig.Fields.{get_interface_descriptor, get_endpoint_descriptor}
use virtual_usb_printer.LoadConfig.Lists.{create_usb_descriptors}
use virtual_usb_printer.LoadConfig.Lists.Strings.{string_wire}
use virtual_usb_printer.LoadConfig.Lists.Endpoints.{read_interfaces, endpoints_under, found}
use virtual_usb_printer.LoadConfig.Loaded.{
  string_request_lem, interfaces_lem, configuration_request_lem, IsWellFormed,
  create_usb_descriptors-IsWellFormed,
}

abbrev interface_dict : Value
interface_dict =
    (dict (
      field (codes "bLength") (integer 9) (
        field (codes "bDescriptorType") (integer 4) (
          field (codes "bInterfaceNumber") (integer 0) (
            field (codes "bAlternateSetting") (integer 0) (
              field (codes "bNumEndpoints") (integer 2) (
                field (codes "bInterfaceClass") (integer 7) (
                  field (codes "bInterfaceSubClass") (integer 1) (
                    field (codes "bInterfaceProtocol") (integer 2) (
                      field (codes "iInterface") (integer 0) (
                        field (codes "endpoints")
                          (list (
                            cons
                              (dict (
                                field (codes "bLength") (integer 7) (
                                  field (codes "bDescriptorType") (integer 5) (
                                    field (codes "bEndpointAddress") (integer 1) (
                                      field (codes "bmAttributes") (integer 2) (
                                        field (codes "wMaxPacketSize") (integer 64)
                                          (field (codes "bInterval") (integer 0) end)))))))
                              (cons
                                (dict (
                                  field (codes "bLength") (integer 7) (
                                    field (codes "bDescriptorType") (integer 5) (
                                      field (codes "bEndpointAddress") (integer 129) (
                                        field (codes "bmAttributes") (integer 2) (
                                          field (codes "wMaxPacketSize") (integer 64)
                                            (field (codes "bInterval") (integer 0) end)))))))
                                nil)))
                          end)))))))))))

abbrev interface_items : List Value
interface_items = interface_dict ∷ []

abbrev strings : List Bytes
strings = codes "HP" ∷ codes "Printer" ∷ []

abbrev pub config : Value
config =
    (dict (
      field (codes "device_descriptor")
        (dict (
          field (codes "bLength") (integer 18) (
            field (codes "bDescriptorType") (integer 1) (
              field (codes "bcdUSB") (integer 272) (
                field (codes "bDeviceClass") (integer 0) (
                  field (codes "bDeviceSubClass") (integer 0) (
                    field (codes "bDeviceProtocol") (integer 0) (
                      field (codes "bMaxPacketSize0") (integer 8) (
                        field (codes "idVendor") (integer 1193) (
                          field (codes "idProduct") (integer 10216) (
                            field (codes "bcdDevice") (integer 256) (
                              field (codes "iManufacturer") (integer 1) (
                                field (codes "iProduct") (integer 2) (
                                  field (codes "iSerialNumber") (integer 1) (
                                    field (codes "bNumConfigurations") (integer 1)
                                      end)))))))))))))))
        (field (codes "configuration_descriptor")
          (dict (
            field (codes "bLength") (integer 9) (
              field (codes "bDescriptorType") (integer 2) (
                field (codes "wTotalLength") (integer 32) (
                  field (codes "bNumInterfaces") (integer 1) (
                    field (codes "bConfigurationValue") (integer 1) (
                      field (codes "iConfiguration") (integer 0) (
                        field (codes "bmAttributes") (integer 128)
                          (field (codes "bMaxPower") (integer 0) end)))))))))
          (field (codes "device_qualifier_descriptor")
            (dict (
              field (codes "bLength") (integer 10) (
                field (codes "bDescriptorType") (integer 6) (
                  field (codes "bcdUSB") (integer 512) (
                    field (codes "bDeviceClass") (integer 0) (
                      field (codes "bDeviceSubClass") (integer 0) (
                        field (codes "bDeviceProtocol") (integer 0) (
                          field (codes "bMaxPacketSize0") (integer 64) (
                            field (codes "bNumConfigurations") (integer 1)
                              (field (codes "bReserved") (integer 0) end))))))))))
            (field (codes "interface_descriptors") (list (cons interface_dict nil)) (
              field (codes "language_descriptor")
                (dict (
                  field (codes "bLength") (integer 4) (
                    field (codes "bDescriptorType") (integer 3) (
                      field (codes "langID1") (integer 9)
                        (field (codes "langID2") (integer 4) end)))))
                (field (codes "string_descriptors")
                  (list (cons (string (codes "HP")) (cons (string (codes "Printer")) nil)))
                  (field (codes "ieee_device_id")
                    (dict (
                      field (codes "bLength1") (integer 0) (
                        field (codes "bLength2") (integer 5)
                          (field (codes "message") (string (codes "MFG")) end))))
                    end))))))))

abbrev interface_ : UsbInterfaceDescriptor
interface_ = record {
  b_length = 9;
  b_descriptor_type = 4;
  b_interface_number = 0;
  b_alternate_setting = 0;
  b_num_endpoints = 2;
  b_interface_class = 7;
  b_interface_sub_class = 1;
  b_interface_protocol = 2;
  i_interface = 0;
}

abbrev endpoints : List UsbEndpointDescriptor
endpoints =
    (record {
      b_length = 7;
      b_descriptor_type = 5;
      b_endpoint_address = 1;
      bm_attributes = 2;
      w_max_packet_size = 64;
      b_interval = 0;
    })
    ∷ (record {
      b_length = 7;
      b_descriptor_type = 5;
      b_endpoint_address = 129;
      bm_attributes = 2;
      w_max_packet_size = 64;
      b_interval = 0;
    })
    ∷ []

abbrev interfaces : Interfaces
interfaces = (interface_, endpoints) ∷ []

abbrev pub descriptors : UsbDescriptors
descriptors = record {
  device_descriptor = record {
    b_length = 18;
    b_descriptor_type = 1;
    bcd_usb = 272;
    b_device_class = 0;
    b_device_sub_class = 0;
    b_device_protocol = 0;
    b_max_packet_size0 = 8;
    id_vendor = 1193;
    id_product = 10216;
    bcd_device = 256;
    i_manufacturer = 1;
    i_product = 2;
    i_serial_number = 1;
    b_num_configurations = 1;
  };
  configuration_descriptor = record {
    b_length = 9;
    b_descriptor_type = 2;
    w_total_length = 32;
    b_num_interfaces = 1;
    b_configuration_value = 1;
    i_configuration = 0;
    bm_attributes = 128;
    b_max_power = 0;
  };
  qualifier_descriptor = record {
    b_length = 10;
    b_descriptor_type = 6;
    bcd_usb = 512;
    b_device_class = 0;
    b_device_sub_class = 0;
    b_device_protocol = 0;
    b_max_packet_size0 = 64;
    b_num_configurations = 1;
    b_reserved = 0;
  };
  string_descriptors =
      (4 ∷ 3 ∷ 9 ∷ 4 ∷ []) ∷ string_wire (codes "HP") ∷ string_wire (codes "Printer") ∷ [];
  ieee_device_id = 0 ∷ 5 ∷ codes "MFG";
  interface_descriptors = interface_ ∷ [];
  endpoint_descriptors = (0, endpoints) ∷ [];
}

pub config_loads : create_usb_descriptors config ≡ ok descriptors
unfolding create_usb_descriptors find_dict find_list find_string find_int find_key find_field
    bytes_eq
config_loads = refl

interfaces_listed : find_list config (codes "interface_descriptors") ≡ some interface_items
unfolding find_list find_key find_field bytes_eq
interfaces_listed = refl

strings_listed :
    find_list config (codes "string_descriptors")
    ≡ some (string (codes "HP") ∷ string (codes "Printer") ∷ [])
unfolding find_list find_key find_field bytes_eq
strings_listed = refl

interfaces_read : read_interfaces interface_items ≡ ok interfaces
unfolding read_interfaces get_interface_descriptor get_endpoint_descriptor find_dict find_list
    find_string find_int find_key find_field bytes_eq
interfaces_read = refl

abbrev asked : ℕ → ℕ → UsbControlRequest
asked index size = record {
  bm_request_type = 0x80;
  b_request = 6;
  w_value0 = index;
  w_value1 = 3;
  w_index0 = 0;
  w_index1 = 0;
  w_length = size;
}

string_request_lem_example :
    handle_get_string_descriptor descriptors (asked 2 255)
    ≡ (if leb 7 62 then ok (string_wire (codes "Printer")) else err exited)
string_request_lem_example =
    string_request_lem config descriptors (asked 2 255) strings 1 (codes "Printer") config_loads
      strings_listed refl refl

interfaces_lem_example :
    (is : Interfaces) × (read_interfaces interface_items ≡ ok is)
    × (descriptors.interface_descriptors ≡ just_interfaces is)
    × ((number : ℕ)
        → find_endpoints number descriptors.endpoint_descriptors
          ≡ found (endpoints_under number is))
interfaces_lem_example =
    interfaces_lem config descriptors interface_items config_loads interfaces_listed

configuration_request_lem_example : handle_get_configuration_descriptor descriptors (asked 0 32) ≡ (
    if 32 == 9
    then ok (configuration_bytes descriptors.configuration_descriptor)
    else if 32 == 9 + interfaces_size interfaces
    then ok (configuration_bytes descriptors.configuration_descriptor ++ interfaces_wire interfaces)
    else err check_failed)
configuration_request_lem_example =
    configuration_request_lem config descriptors (asked 0 32) interface_items interfaces
      config_loads interfaces_listed interfaces_read (tt, tt) (omega arith, tt) refl

create_usb_descriptors-IsWellFormed_example : IsWellFormed descriptors
create_usb_descriptors-IsWellFormed_example =
    create_usb_descriptors-IsWellFormed config descriptors config_loads
