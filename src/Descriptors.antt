-- ===== src/Descriptors.antt =====
-- device_descriptors.h: the USB descriptors, and their bytes in memory, which `__attribute__((packed))`
-- lays out without padding.
pub mod Equality
use virtual_usb_printer.Common.{ℕ, List, [], ◌∷◌, ◌++◌, Bytes}
use virtual_usb_printer.ByteOrder.{mem}

pub record UsbDeviceDescriptor : Type 0 where
  pub b_length : ℕ
  pub b_descriptor_type : ℕ
  pub bcd_usb : ℕ
  pub b_device_class : ℕ
  pub b_device_sub_class : ℕ
  pub b_device_protocol : ℕ
  pub b_max_packet_size0 : ℕ
  pub id_vendor : ℕ
  pub id_product : ℕ
  pub bcd_device : ℕ
  pub i_manufacturer : ℕ
  pub i_product : ℕ
  pub i_serial_number : ℕ
  pub b_num_configurations : ℕ

pub record UsbConfigurationDescriptor : Type 0 where
  pub b_length : ℕ
  pub b_descriptor_type : ℕ
  pub w_total_length : ℕ
  pub b_num_interfaces : ℕ
  pub b_configuration_value : ℕ
  pub i_configuration : ℕ
  pub bm_attributes : ℕ
  pub b_max_power : ℕ

pub record UsbInterfaceDescriptor : Type 0 where
  pub b_length : ℕ
  pub b_descriptor_type : ℕ
  pub b_interface_number : ℕ
  pub b_alternate_setting : ℕ
  pub b_num_endpoints : ℕ
  pub b_interface_class : ℕ
  pub b_interface_sub_class : ℕ
  pub b_interface_protocol : ℕ
  pub i_interface : ℕ

pub record UsbEndpointDescriptor : Type 0 where
  pub b_length : ℕ
  pub b_descriptor_type : ℕ
  pub b_endpoint_address : ℕ
  pub bm_attributes : ℕ
  pub w_max_packet_size : ℕ
  pub b_interval : ℕ

pub record UsbDeviceQualifierDescriptor : Type 0 where
  pub b_length : ℕ
  pub b_descriptor_type : ℕ
  pub bcd_usb : ℕ
  pub b_device_class : ℕ
  pub b_device_sub_class : ℕ
  pub b_device_protocol : ℕ
  pub b_max_packet_size0 : ℕ
  pub b_num_configurations : ℕ
  pub b_reserved : ℕ

-- The memory of a packed struct.
unfoldable pub packed : List (ℕ × ℕ) → Bytes
packed [] = []
packed ((k, x) ∷ fields) = mem k x ++ packed fields

abbrev pub device_fields : UsbDeviceDescriptor → List (ℕ × ℕ)
device_fields d =
    (1, d.b_length)
    ∷ (1, d.b_descriptor_type)
    ∷ (2, d.bcd_usb)
    ∷ (1, d.b_device_class)
    ∷ (1, d.b_device_sub_class)
    ∷ (1, d.b_device_protocol)
    ∷ (1, d.b_max_packet_size0)
    ∷ (2, d.id_vendor)
    ∷ (2, d.id_product)
    ∷ (2, d.bcd_device)
    ∷ (1, d.i_manufacturer)
    ∷ (1, d.i_product)
    ∷ (1, d.i_serial_number)
    ∷ (1, d.b_num_configurations)
    ∷ []

unfoldable pub device_bytes : UsbDeviceDescriptor → Bytes
unfolding packed
device_bytes d = packed (device_fields d)

abbrev pub configuration_fields : UsbConfigurationDescriptor → List (ℕ × ℕ)
configuration_fields d =
    (1, d.b_length)
    ∷ (1, d.b_descriptor_type)
    ∷ (2, d.w_total_length)
    ∷ (1, d.b_num_interfaces)
    ∷ (1, d.b_configuration_value)
    ∷ (1, d.i_configuration)
    ∷ (1, d.bm_attributes)
    ∷ (1, d.b_max_power)
    ∷ []

unfoldable pub configuration_bytes : UsbConfigurationDescriptor → Bytes
unfolding packed
configuration_bytes d = packed (configuration_fields d)

abbrev pub interface_fields : UsbInterfaceDescriptor → List (ℕ × ℕ)
interface_fields d =
    (1, d.b_length)
    ∷ (1, d.b_descriptor_type)
    ∷ (1, d.b_interface_number)
    ∷ (1, d.b_alternate_setting)
    ∷ (1, d.b_num_endpoints)
    ∷ (1, d.b_interface_class)
    ∷ (1, d.b_interface_sub_class)
    ∷ (1, d.b_interface_protocol)
    ∷ (1, d.i_interface)
    ∷ []

unfoldable pub interface_bytes : UsbInterfaceDescriptor → Bytes
unfolding packed
interface_bytes d = packed (interface_fields d)

abbrev pub endpoint_fields : UsbEndpointDescriptor → List (ℕ × ℕ)
endpoint_fields d =
    (1, d.b_length)
    ∷ (1, d.b_descriptor_type)
    ∷ (1, d.b_endpoint_address)
    ∷ (1, d.bm_attributes)
    ∷ (2, d.w_max_packet_size)
    ∷ (1, d.b_interval)
    ∷ []

unfoldable pub endpoint_bytes : UsbEndpointDescriptor → Bytes
unfolding packed
endpoint_bytes d = packed (endpoint_fields d)

abbrev pub qualifier_fields : UsbDeviceQualifierDescriptor → List (ℕ × ℕ)
qualifier_fields d =
    (1, d.b_length)
    ∷ (1, d.b_descriptor_type)
    ∷ (2, d.bcd_usb)
    ∷ (1, d.b_device_class)
    ∷ (1, d.b_device_sub_class)
    ∷ (1, d.b_device_protocol)
    ∷ (1, d.b_max_packet_size0)
    ∷ (1, d.b_num_configurations)
    ∷ (1, d.b_reserved)
    ∷ []

unfoldable pub qualifier_bytes : UsbDeviceQualifierDescriptor → Bytes
unfolding packed
qualifier_bytes d = packed (qualifier_fields d)
