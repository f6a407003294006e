-- ===== src/LoadConfig/Fields.antt =====
-- load_config.cc: the descriptors out of the printer's JSON configuration.
pub mod Ranges
use virtual_usb_printer.Common.{
  ◌>>=◌, ◌>>◌, ℕ, ◌%◌, ◌^◌, not, ◌||◌, ltb, leb, ◌==◌, Result, ok, check, or_check, Bytes, codes,
}
use virtual_usb_printer.Json.{Value, is_dict, find_int, find_dict}
use virtual_usb_printer.Descriptors.{
  UsbDeviceDescriptor, UsbConfigurationDescriptor, UsbDeviceQualifierDescriptor,
  UsbInterfaceDescriptor, UsbEndpointDescriptor,
}

-- The value is an `int`: a bit pattern from 2 ^ 31 on is negative, and passes the test.
unfoldable pub get_byte_value : Value → Bytes → Result ℕ
unfolding find_int
get_byte_value config path = do
  check (is_dict config)
  val ← or_check (find_int config path)
  check (not (ltb val (2 ^ 31)) || leb val 255)
  ok (val % 256)

unfoldable pub get_word_value : Value → Bytes → Result ℕ
unfolding find_int
get_word_value config path = do
  check (is_dict config)
  val ← or_check (find_int config path)
  check (not (ltb val (2 ^ 31)) || leb val 65535)
  ok (val % 65536)

unfoldable pub get_device_descriptor : Value → Result UsbDeviceDescriptor
unfolding get_byte_value get_word_value find_dict
get_device_descriptor printer = do
  descriptor ← or_check (find_dict printer (codes "device_descriptor"))
  b_length ← get_byte_value descriptor (codes "bLength")
  check (b_length == 18)
  b_descriptor_type ← get_byte_value descriptor (codes "bDescriptorType")
  bcd_usb ← get_word_value descriptor (codes "bcdUSB")
  b_device_class ← get_byte_value descriptor (codes "bDeviceClass")
  b_device_sub_class ← get_byte_value descriptor (codes "bDeviceSubClass")
  b_device_protocol ← get_byte_value descriptor (codes "bDeviceProtocol")
  b_max_packet_size0 ← get_byte_value descriptor (codes "bMaxPacketSize0")
  id_vendor ← get_word_value descriptor (codes "idVendor")
  id_product ← get_word_value descriptor (codes "idProduct")
  bcd_device ← get_word_value descriptor (codes "bcdDevice")
  i_manufacturer ← get_byte_value descriptor (codes "iManufacturer")
  i_product ← get_byte_value descriptor (codes "iProduct")
  i_serial_number ← get_byte_value descriptor (codes "iSerialNumber")
  b_num_configurations ← get_byte_value descriptor (codes "bNumConfigurations")
  ok (record {
    b_length = b_length;
    b_descriptor_type = b_descriptor_type;
    bcd_usb = bcd_usb;
    b_device_class = b_device_class;
    b_device_sub_class = b_device_sub_class;
    b_device_protocol = b_device_protocol;
    b_max_packet_size0 = b_max_packet_size0;
    id_vendor = id_vendor;
    id_product = id_product;
    bcd_device = bcd_device;
    i_manufacturer = i_manufacturer;
    i_product = i_product;
    i_serial_number = i_serial_number;
    b_num_configurations = b_num_configurations;
  })

unfoldable pub get_configuration_descriptor : Value → Result UsbConfigurationDescriptor
unfolding get_byte_value get_word_value find_dict
get_configuration_descriptor printer = do
  descriptor ← or_check (find_dict printer (codes "configuration_descriptor"))
  b_length ← get_byte_value descriptor (codes "bLength")
  check (b_length == 9)
  b_descriptor_type ← get_byte_value descriptor (codes "bDescriptorType")
  w_total_length ← get_word_value descriptor (codes "wTotalLength")
  b_num_interfaces ← get_byte_value descriptor (codes "bNumInterfaces")
  b_configuration_value ← get_byte_value descriptor (codes "bConfigurationValue")
  i_configuration ← get_byte_value descriptor (codes "iConfiguration")
  bm_attributes ← get_byte_value descriptor (codes "bmAttributes")
  b_max_power ← get_byte_value descriptor (codes "bMaxPower")
  ok (record {
    b_length = b_length;
    b_descriptor_type = b_descriptor_type;
    w_total_length = w_total_length;
    b_num_interfaces = b_num_interfaces;
    b_configuration_value = b_configuration_value;
    i_configuration = i_configuration;
    bm_attributes = bm_attributes;
    b_max_power = b_max_power;
  })

unfoldable pub get_device_qualifier_descriptor : Value → Result UsbDeviceQualifierDescriptor
unfolding get_byte_value get_word_value find_dict
get_device_qualifier_descriptor printer = do
  descriptor ← or_check (find_dict printer (codes "device_qualifier_descriptor"))
  b_length ← get_byte_value descriptor (codes "bLength")
  check (b_length == 10)
  b_descriptor_type ← get_byte_value descriptor (codes "bDescriptorType")
  bcd_usb ← get_word_value descriptor (codes "bcdUSB")
  b_device_class ← get_byte_value descriptor (codes "bDeviceClass")
  b_device_sub_class ← get_byte_value descriptor (codes "bDeviceSubClass")
  b_device_protocol ← get_byte_value descriptor (codes "bDeviceProtocol")
  b_max_packet_size0 ← get_byte_value descriptor (codes "bMaxPacketSize0")
  b_num_configurations ← get_byte_value descriptor (codes "bNumConfigurations")
  b_reserved ← get_byte_value descriptor (codes "bReserved")
  ok (record {
    b_length = b_length;
    b_descriptor_type = b_descriptor_type;
    bcd_usb = bcd_usb;
    b_device_class = b_device_class;
    b_device_sub_class = b_device_sub_class;
    b_device_protocol = b_device_protocol;
    b_max_packet_size0 = b_max_packet_size0;
    b_num_configurations = b_num_configurations;
    b_reserved = b_reserved;
  })

unfoldable pub get_interface_descriptor : Value → Result UsbInterfaceDescriptor
unfolding get_byte_value get_word_value
get_interface_descriptor descriptor = do
  b_length ← get_byte_value descriptor (codes "bLength")
  check (b_length == 9)
  b_descriptor_type ← get_byte_value descriptor (codes "bDescriptorType")
  b_interface_number ← get_byte_value descriptor (codes "bInterfaceNumber")
  b_alternate_setting ← get_byte_value descriptor (codes "bAlternateSetting")
  b_num_endpoints ← get_byte_value descriptor (codes "bNumEndpoints")
  b_interface_class ← get_byte_value descriptor (codes "bInterfaceClass")
  b_interface_sub_class ← get_byte_value descriptor (codes "bInterfaceSubClass")
  b_interface_protocol ← get_byte_value descriptor (codes "bInterfaceProtocol")
  i_interface ← get_byte_value descriptor (codes "iInterface")
  ok (record {
    b_length = b_length;
    b_descriptor_type = b_descriptor_type;
    b_interface_number = b_interface_number;
    b_alternate_setting = b_alternate_setting;
    b_num_endpoints = b_num_endpoints;
    b_interface_class = b_interface_class;
    b_interface_sub_class = b_interface_sub_class;
    b_interface_protocol = b_interface_protocol;
    i_interface = i_interface;
  })

unfoldable pub get_endpoint_descriptor : Value → Result UsbEndpointDescriptor
unfolding get_byte_value get_word_value
get_endpoint_descriptor descriptor = do
  b_length ← get_byte_value descriptor (codes "bLength")
  check (b_length == 7)
  b_descriptor_type ← get_byte_value descriptor (codes "bDescriptorType")
  b_endpoint_address ← get_byte_value descriptor (codes "bEndpointAddress")
  bm_attributes ← get_byte_value descriptor (codes "bmAttributes")
  w_max_packet_size ← get_word_value descriptor (codes "wMaxPacketSize")
  b_interval ← get_byte_value descriptor (codes "bInterval")
  ok (record {
    b_length = b_length;
    b_descriptor_type = b_descriptor_type;
    b_endpoint_address = b_endpoint_address;
    bm_attributes = bm_attributes;
    w_max_packet_size = w_max_packet_size;
    b_interval = b_interval;
  })
