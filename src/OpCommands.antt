-- ===== src/OpCommands.antt =====
-- op_commands.h and op_commands.cc: the messages by which a host lists the exported devices and attaches one.
pub mod Wire
use virtual_usb_printer.Common.{
  ℕ, ◌-◌, ◌*◌, List, [], ◌∷◌, ◌++◌, leb, length, take, replicate, undefined, Result, ok, require,
  Bytes, codes, ◌>>=◌, ◌>>◌,
}
use virtual_usb_printer.ByteOrder.{mem, load, htons, htonl}
use virtual_usb_printer.SmartBuffer.{SmartBuffer, add}
use virtual_usb_printer.Descriptors.{
  UsbDeviceDescriptor, UsbConfigurationDescriptor, UsbInterfaceDescriptor,
}

pub record OpHeader : Type 0 where
  pub version : ℕ
  pub command : ℕ
  pub status : ℕ

-- `usb_path` is the array of 256 `char`s, `bus_id` that of 32.
pub record OpRepDevice : Type 0 where
  pub usb_path : Bytes
  pub bus_id : Bytes
  pub busnum : ℕ
  pub devnum : ℕ
  pub speed : ℕ
  pub id_vendor : ℕ
  pub id_product : ℕ
  pub bcd_device : ℕ
  pub b_device_class : ℕ
  pub b_device_sub_class : ℕ
  pub b_device_protocol : ℕ
  pub b_configuration_value : ℕ
  pub b_num_configurations : ℕ
  pub b_num_interfaces : ℕ

pub record OpRepDevlistHeader : Type 0 where
  pub header : OpHeader
  pub num_exported_devices : ℕ

pub record OpRepDevlistInterface : Type 0 where
  pub b_interface_class : ℕ
  pub b_interface_sub_class : ℕ
  pub b_interface_protocol : ℕ
  pub padding : ℕ

-- `interfaces` is the array that `SetOpRepDevlistInterfaces` allocates.
pub record OpRepDevlist : Type 0 where
  pub header : OpRepDevlistHeader
  pub device : OpRepDevice
  pub interfaces : List OpRepDevlistInterface

pub record OpRepImport : Type 0 where
  pub header : OpHeader
  pub device : OpRepDevice

-- `OP_REP_*` of usbip_constants.h.
abbrev pub op_rep_import_cmd : ℕ
op_rep_import_cmd = 0x0003

abbrev pub op_rep_devlist_cmd : ℕ
op_rep_devlist_cmd = 0x0005

-- `kUsbPath` and `kBusId`
abbrev pub usb_path : Bytes
usb_path = codes "/sys/devices/pci0000:00/0000:00:01.2/usb1/1-1"

abbrev pub bus_id : Bytes
bus_id = codes "1-1"

-- `memset` to 0, then `snprintf(array, size, "%s", s)`: the string cut to one below the size, and zeros.
unfoldable pub char_array : ℕ → Bytes → Bytes
char_array size s = let text = take (size - 1) s in text ++ replicate (size - length text) 0

-- `kUsbipVersion`
unfoldable pub set_op_header : ℕ → ℕ → OpHeader
set_op_header command status = record { version = 0x0111; command = command; status = status }

unfoldable pub set_op_rep_devlist_header : ℕ → ℕ → ℕ → OpRepDevlistHeader
unfolding set_op_header
set_op_rep_devlist_header command status num_exported_devices = record {
  header = set_op_header command status;
  num_exported_devices = num_exported_devices;
}

unfoldable pub set_op_rep_device : UsbDeviceDescriptor → UsbConfigurationDescriptor → OpRepDevice
unfolding char_array
set_op_rep_device dev_dsc config = record {
  usb_path = char_array 256 usb_path;
  bus_id = char_array 32 bus_id;
  busnum = 1;
  devnum = 2;
  speed = 3;
  id_vendor = dev_dsc.id_vendor;
  id_product = dev_dsc.id_product;
  bcd_device = dev_dsc.bcd_device;
  b_device_class = dev_dsc.b_device_class;
  b_device_sub_class = dev_dsc.b_device_sub_class;
  b_device_protocol = dev_dsc.b_device_protocol;
  b_configuration_value = config.b_configuration_value;
  b_num_configurations = dev_dsc.b_num_configurations;
  b_num_interfaces = config.b_num_interfaces;
}

unfoldable pub set_op_rep_devlist_interfaces :
    List UsbInterfaceDescriptor → List OpRepDevlistInterface
set_op_rep_devlist_interfaces [] = []
set_op_rep_devlist_interfaces (interface ∷ interfaces) =
    record {
      b_interface_class = interface.b_interface_class;
      b_interface_sub_class = interface.b_interface_sub_class;
      b_interface_protocol = interface.b_interface_protocol;
      padding = 0;
    }
    ∷ set_op_rep_devlist_interfaces interfaces

unfoldable pub create_op_rep_devlist :
    UsbDeviceDescriptor → UsbConfigurationDescriptor → List UsbInterfaceDescriptor → OpRepDevlist
unfolding set_op_rep_devlist_header set_op_rep_device set_op_rep_devlist_interfaces
create_op_rep_devlist device config interfaces = record {
  header = set_op_rep_devlist_header op_rep_devlist_cmd 0 1;
  device = set_op_rep_device device config;
  interfaces = set_op_rep_devlist_interfaces interfaces;
}

unfoldable pub create_op_rep_import : UsbDeviceDescriptor → UsbConfigurationDescriptor → OpRepImport
unfolding set_op_header set_op_rep_device
create_op_rep_import dev_dsc config = record {
  header = set_op_header op_rep_import_cmd 0;
  device = set_op_rep_device dev_dsc config;
}

-- The struct's bytes after the fields are swapped.
unfoldable pub pack_op_header : OpHeader → SmartBuffer
unfolding add
pack_op_header header =
    add [] (
      mem 2 (htons header.version) ++ (mem 2 (htons header.command) ++ mem 4 (htonl header.status)))

unfoldable pub pack_op_rep_device : OpRepDevice → SmartBuffer
unfolding add
pack_op_rep_device device = add [] (
    device.usb_path
    ++ (device.bus_id
        ++ (mem 4 (htonl device.busnum)
            ++ (mem 4 (htonl device.devnum)
                ++ (mem 4 (htonl device.speed)
                    ++ (mem 2 (htons device.id_vendor)
                        ++ (mem 2 (htons device.id_product)
                            ++ (mem 2 (htons device.bcd_device)
                                ++ (mem 1 device.b_device_class
                                    ++ (mem 1 device.b_device_sub_class
                                        ++ (mem 1 device.b_device_protocol
                                            ++ (mem 1 device.b_configuration_value
                                                ++ (mem 1 device.b_num_configurations
                                                    ++ mem 1 device.b_num_interfaces)))))))))))))

unfoldable pub pack_op_rep_devlist_header : OpRepDevlistHeader → SmartBuffer
unfolding add pack_op_header
pack_op_rep_devlist_header devlist_header =
    add (add [] (pack_op_header devlist_header.header))
      (mem 4 (htonl devlist_header.num_exported_devices))

-- The memory of the array.
unfoldable pub interfaces_mem : List OpRepDevlistInterface → Bytes
interfaces_mem [] = []
interfaces_mem (i ∷ is) =
    mem 1 i.b_interface_class
    ++ (mem 1 i.b_interface_sub_class
        ++ (mem 1 i.b_interface_protocol ++ (mem 1 i.padding ++ interfaces_mem is)))

-- As many interfaces are copied as the device says it has; past the array's end that is undefined.
unfoldable pub pack_op_rep_devlist : OpRepDevlist → Result SmartBuffer
unfolding add pack_op_rep_devlist_header pack_op_rep_device interfaces_mem
pack_op_rep_devlist devlist = do
  let interfaces_size = 4 * devlist.device.b_num_interfaces
  require (leb interfaces_size (length (interfaces_mem devlist.interfaces))) undefined
  let packed_devlist =
      add (add [] (pack_op_rep_devlist_header devlist.header)) (pack_op_rep_device devlist.device)
  ok (add packed_devlist (take interfaces_size (interfaces_mem devlist.interfaces)))

unfoldable pub pack_op_rep_import : OpRepImport → SmartBuffer
unfolding add pack_op_header pack_op_rep_device
pack_op_rep_import rep = add (add [] (pack_op_header rep.header)) (pack_op_rep_device rep.device)

unfoldable pub unpack_op_header : OpHeader → OpHeader
unpack_op_header header = record {
  version = htons header.version;
  command = htons header.command;
  status = htonl header.status;
}
