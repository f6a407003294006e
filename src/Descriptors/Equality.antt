-- ===== src/Descriptors/Equality.antt =====
-- `operator==` of device_descriptors.cc.
use virtual_usb_printer.Common.{◌≡◌, ◌↔◌, Bool, true, ◌&&◌, arith, ◌==◌}
use virtual_usb_printer.Descriptors.{
  UsbDeviceDescriptor, UsbConfigurationDescriptor, UsbInterfaceDescriptor, UsbEndpointDescriptor,
  UsbDeviceQualifierDescriptor,
}

unfoldable pub device_eq : UsbDeviceDescriptor → UsbDeviceDescriptor → Bool
device_eq lhs rhs =
    lhs.b_length == rhs.b_length
    && (lhs.b_descriptor_type == rhs.b_descriptor_type
        && (lhs.bcd_usb == rhs.bcd_usb
            && (lhs.b_device_class == rhs.b_device_class
                && (lhs.b_device_sub_class == rhs.b_device_sub_class
                    && (lhs.b_device_protocol == rhs.b_device_protocol
                        && (lhs.b_max_packet_size0 == rhs.b_max_packet_size0
                            && (lhs.id_vendor == rhs.id_vendor
                                && (lhs.id_product == rhs.id_product
                                    && (lhs.bcd_device == rhs.bcd_device
                                        && (lhs.i_manufacturer == rhs.i_manufacturer
                                            && (lhs.i_product == rhs.i_product
                                                && (lhs.i_serial_number == rhs.i_serial_number
                                                    && lhs.b_num_configurations
                                                      == rhs.b_num_configurations))))))))))))

unfoldable pub configuration_eq : UsbConfigurationDescriptor → UsbConfigurationDescriptor → Bool
configuration_eq lhs rhs =
    lhs.b_length == rhs.b_length
    && (lhs.b_descriptor_type == rhs.b_descriptor_type
        && (lhs.w_total_length == rhs.w_total_length
            && (lhs.b_num_interfaces == rhs.b_num_interfaces
                && (lhs.b_configuration_value == rhs.b_configuration_value
                    && (lhs.i_configuration == rhs.i_configuration
                        && (lhs.bm_attributes == rhs.bm_attributes
                            && lhs.b_max_power == rhs.b_max_power))))))

unfoldable pub interface_eq : UsbInterfaceDescriptor → UsbInterfaceDescriptor → Bool
interface_eq lhs rhs =
    lhs.b_length == rhs.b_length
    && (lhs.b_descriptor_type == rhs.b_descriptor_type
        && (lhs.b_interface_number == rhs.b_interface_number
            && (lhs.b_alternate_setting == rhs.b_alternate_setting
                && (lhs.b_num_endpoints == rhs.b_num_endpoints
                    && (lhs.b_interface_class == rhs.b_interface_class
                        && (lhs.b_interface_sub_class == rhs.b_interface_sub_class
                            && (lhs.b_interface_protocol == rhs.b_interface_protocol
                                && lhs.i_interface == rhs.i_interface)))))))

unfoldable pub endpoint_eq : UsbEndpointDescriptor → UsbEndpointDescriptor → Bool
endpoint_eq lhs rhs =
    lhs.b_length == rhs.b_length
    && (lhs.b_descriptor_type == rhs.b_descriptor_type
        && (lhs.b_endpoint_address == rhs.b_endpoint_address
            && (lhs.bm_attributes == rhs.bm_attributes
                && (lhs.w_max_packet_size == rhs.w_max_packet_size
                    && lhs.b_interval == rhs.b_interval))))

unfoldable pub qualifier_eq : UsbDeviceQualifierDescriptor → UsbDeviceQualifierDescriptor → Bool
qualifier_eq lhs rhs =
    lhs.b_length == rhs.b_length
    && (lhs.b_descriptor_type == rhs.b_descriptor_type
        && (lhs.bcd_usb == rhs.bcd_usb
            && (lhs.b_device_class == rhs.b_device_class
                && (lhs.b_device_sub_class == rhs.b_device_sub_class
                    && (lhs.b_device_protocol == rhs.b_device_protocol
                        && (lhs.b_max_packet_size0 == rhs.b_max_packet_size0
                            && (lhs.b_num_configurations == rhs.b_num_configurations
                                && lhs.b_reserved == rhs.b_reserved)))))))

device_eq_lem : (lhs rhs : UsbDeviceDescriptor) → (device_eq lhs rhs ≡ true) ↔ (lhs ≡ rhs)
unfolding device_eq
device_eq_lem lhs rhs = (λ e. ground (arith, e), λ e. rw e (ground arith))

configuration_eq_lem :
    (lhs rhs : UsbConfigurationDescriptor) → (configuration_eq lhs rhs ≡ true) ↔ (lhs ≡ rhs)
unfolding configuration_eq
configuration_eq_lem lhs rhs = (λ e. ground (arith, e), λ e. rw e (ground arith))

interface_eq_lem : (lhs rhs : UsbInterfaceDescriptor) → (interface_eq lhs rhs ≡ true) ↔ (lhs ≡ rhs)
unfolding interface_eq
interface_eq_lem lhs rhs = (λ e. ground (arith, e), λ e. rw e (ground arith))

endpoint_eq_lem : (lhs rhs : UsbEndpointDescriptor) → (endpoint_eq lhs rhs ≡ true) ↔ (lhs ≡ rhs)
unfolding endpoint_eq
endpoint_eq_lem lhs rhs = (λ e. ground (arith, e), λ e. rw e (ground arith))

qualifier_eq_lem :
    (lhs rhs : UsbDeviceQualifierDescriptor) → (qualifier_eq lhs rhs ≡ true) ↔ (lhs ≡ rhs)
unfolding qualifier_eq
qualifier_eq_lem lhs rhs = (λ e. ground (arith, e), λ e. rw e (ground arith))

-- `operator==` of each of the five descriptors holds exactly for descriptors that agree in every field.
pub descriptors_eq_lem :
    ((lhs rhs : UsbDeviceDescriptor) → (device_eq lhs rhs ≡ true) ↔ (lhs ≡ rhs))
    × ((lhs rhs : UsbConfigurationDescriptor) → (configuration_eq lhs rhs ≡ true) ↔ (lhs ≡ rhs))
    × ((lhs rhs : UsbInterfaceDescriptor) → (interface_eq lhs rhs ≡ true) ↔ (lhs ≡ rhs))
    × ((lhs rhs : UsbEndpointDescriptor) → (endpoint_eq lhs rhs ≡ true) ↔ (lhs ≡ rhs))
    × ((lhs rhs : UsbDeviceQualifierDescriptor) → (qualifier_eq lhs rhs ≡ true) ↔ (lhs ≡ rhs))
descriptors_eq_lem =
    (device_eq_lem, configuration_eq_lem, interface_eq_lem, endpoint_eq_lem, qualifier_eq_lem)
