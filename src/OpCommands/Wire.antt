-- ===== src/OpCommands/Wire.antt =====
-- The two replies against the layout that the USB/IP protocol fixes.
use virtual_usb_printer.Common.{
  ℕ, ◌+◌, ◌*◌, ◌≡◌, refl, ap, Bool, true, false, List, [], ◌∷◌, ◌++◌, append_assoc, arith, leb,
  if◌then◌else◌, length, take, length-append, undefined, ok, err, ◌>>◌, require, Bytes,
}
use virtual_usb_printer.ByteOrder.{mem, wire, mem-swap, length-mem}
use virtual_usb_printer.SmartBuffer.{add}
use virtual_usb_printer.Descriptors.{
  UsbDeviceDescriptor, UsbConfigurationDescriptor, UsbInterfaceDescriptor,
}
use virtual_usb_printer.OpCommands.{
  usb_path, bus_id, char_array, set_op_header, set_op_rep_devlist_header, set_op_rep_device,
  set_op_rep_devlist_interfaces, create_op_rep_devlist, create_op_rep_import, pack_op_header,
  pack_op_rep_device, pack_op_rep_devlist_header, interfaces_mem, pack_op_rep_devlist,
  pack_op_rep_import,
}

-- The device of both replies: path, bus id, numbers and the fields of the descriptors, in network order.
unfoldable pub device_wire : UsbDeviceDescriptor → UsbConfigurationDescriptor → Bytes
device_wire d c =
    char_array 256 usb_path
    ++ (char_array 32 bus_id
        ++ (wire 4 1
            ++ (wire 4 2
                ++ (wire 4 3
                    ++ (wire 2 d.id_vendor
                        ++ (wire 2 d.id_product
                            ++ (wire 2 d.bcd_device
                                ++ (mem 1 d.b_device_class
                                    ++ (mem 1 d.b_device_sub_class
                                        ++ (mem 1 d.b_device_protocol
                                            ++ (mem 1 c.b_configuration_value
                                                ++ (mem 1 d.b_num_configurations
                                                    ++ mem 1 c.b_num_interfaces))))))))))))

-- Version 0x0111, the command and the status 0.
abbrev pub header_wire : ℕ → Bytes
header_wire command = wire 2 0x0111 ++ (wire 2 command ++ wire 4 0)

-- Class, subclass, protocol and a zero for each interface.
abbrev pub interfaces_wire : List UsbInterfaceDescriptor → Bytes
interfaces_wire [] = []
interfaces_wire (i ∷ is) =
    mem 1 i.b_interface_class
    ++ (mem 1 i.b_interface_sub_class
        ++ (mem 1 i.b_interface_protocol ++ (mem 1 0 ++ interfaces_wire is)))

pack_op_rep_device-device_wire :
    (d : UsbDeviceDescriptor) (c : UsbConfigurationDescriptor)
    → pack_op_rep_device (set_op_rep_device d c) ≡ device_wire d c
unfolding pack_op_rep_device set_op_rep_device device_wire add
pack_op_rep_device-device_wire d c = simp mem-swap

pack_op_header-header_wire :
    (command : ℕ) → pack_op_header (set_op_header command 0) ≡ header_wire command
unfolding pack_op_header set_op_header add
pack_op_header-header_wire command = simp mem-swap

interfaces_mem-interfaces_wire :
    (is : List UsbInterfaceDescriptor)
    → interfaces_mem (set_op_rep_devlist_interfaces is) ≡ interfaces_wire is
unfolding interfaces_mem set_op_rep_devlist_interfaces
interfaces_mem-interfaces_wire [] = refl
interfaces_mem-interfaces_wire (i ∷ is) = simp (interfaces_mem-interfaces_wire is)

length-interfaces_wire :
    (is : List UsbInterfaceDescriptor) → length (interfaces_wire is) ≡ 4 * length is
length-interfaces_wire [] = refl
length-interfaces_wire (i ∷ is) =
    let whole : length (interfaces_wire (i ∷ is))
        ≡ 1 + (1 + (1 + (1 + length (interfaces_wire is)))) =
      simp (length-append, length-mem) in
    omega (arith, whole, length-interfaces_wire is)

-- The reply to a request to attach the device: the header of 8 bytes and the device.
pub pack_op_rep_import-wire :
    (d : UsbDeviceDescriptor) (c : UsbConfigurationDescriptor)
    → pack_op_rep_import (create_op_rep_import d c) ≡ header_wire 3 ++ device_wire d c
unfolding pack_op_rep_import create_op_rep_import add
pack_op_rep_import-wire d c =
    rw (pack_op_header-header_wire 3, pack_op_rep_device-device_wire d c) refl

-- The reply to a request for the devices lists one device, with the first of its interfaces, as many as the
-- configuration says; where it says more than there are, memory past the array is read.
pub pack_op_rep_devlist-wire :
    (d : UsbDeviceDescriptor) (c : UsbConfigurationDescriptor) (is : List UsbInterfaceDescriptor)
    → pack_op_rep_devlist (create_op_rep_devlist d c is) ≡ (
        if leb c.b_num_interfaces (length is)
        then ok (
            header_wire 5
            ++ (wire 4 1
                ++ (device_wire d c ++ take (4 * c.b_num_interfaces) (interfaces_wire is))))
        else err undefined)
unfolding pack_op_rep_devlist create_op_rep_devlist add pack_op_rep_devlist_header
    set_op_rep_devlist_header
pack_op_rep_devlist-wire d c is =
    let enough : leb (4 * c.b_num_interfaces) (length (interfaces_wire is))
        ≡ leb c.b_num_interfaces (length is) =
      ground (arith, length-interfaces_wire is) in
    rw
      (
        pack_op_header-header_wire 5,
        pack_op_rep_device-device_wire d c,
        interfaces_mem-interfaces_wire is,
        enough,
        mem-swap 4 1,
      )
      (checked (leb c.b_num_interfaces (length is)) (simp append_assoc))
  where
    checked :
        (b : Bool) {x y : Bytes}
        → x ≡ y
        → (require b undefined >> ok x) ≡ (if b then ok y else err undefined)
    checked true e = ap ok e
    checked false e = refl
