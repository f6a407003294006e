-- ===== src/Server/Connection.antt =====
-- `HandleConnection`: first the operation that lists or attaches the device, then the URBs.
pub mod Closed
use virtual_usb_printer.Common.{
  ℕ, zero, suc, ◌^◌, Bool, true, false, not, ◌&&◌, List, [], ◌∷◌, ◌++◌, ltb, ◌==◌, if◌then◌else◌,
  length, exited, out_of_fuel, Result, ok, err, ◌>>=◌, ◌>>◌, require, Bytes,
}
use virtual_usb_printer.BaseStrings.{BaseStrings}
use virtual_usb_printer.Usbip.{
  UsbipCmdSubmit, unpack_usbip_cmd_submit, field_at, command_usbip_cmd_submit,
  command_usbip_cmd_unlink,
}
use virtual_usb_printer.OpCommands.{
  OpHeader, create_op_rep_devlist, create_op_rep_import, pack_op_rep_devlist, pack_op_rep_import,
  unpack_op_header,
}
use virtual_usb_printer.Printer.Bulk.{to_size_t}
use virtual_usb_printer.Printer.Data.{EsclService, UsbPrinter}
use virtual_usb_printer.Printer.Dispatch.{handle_usb_request}
use virtual_usb_printer.Server.Socket.{recv, receive_buffer}

-- The state of a connection: the printer, whether the host has attached it, what the host will still send,
-- and the messages sent so far.
pub record Connection (E : Type 0) : Type 0 where
  pub printer : UsbPrinter E
  pub attached : Bool
  pub incoming : List Bytes
  pub sent : List Bytes

-- `OP_REQ_*` of usbip_constants.h.
abbrev pub op_req_import_cmd : ℕ
op_req_import_cmd = 0x8003

abbrev pub op_req_devlist_cmd : ℕ
op_req_devlist_cmd = 0x8005

-- The `OpHeader` whose memory the bytes are.
unfoldable pub header_of : Bytes → OpHeader
unfolding field_at
header_of bytes = record {
  version = field_at 2 0 bytes;
  command = field_at 2 2 bytes;
  status = field_at 4 4 bytes;
}

-- Whether the printer receives the data of a request: it does for a transfer to the device.
abbrev pub takes_data : UsbipCmdSubmit → Bool
takes_data command = not (command.header.ep == 0) && not (command.header.direction == 1)

module _ {E : Type 0} where
  -- `HandleDeviceList`
  unfoldable pub handle_device_list : Connection E → Result (Connection E)
  handle_device_list self =
      let descriptors = self.printer.usb_descriptors in
      pack_op_rep_devlist (
        create_op_rep_devlist descriptors.device_descriptor descriptors.configuration_descriptor
          descriptors.interface_descriptors)
      >>= λ message. ok (record self { sent = self.sent ++ (message ∷ []) })

  -- `HandleAttach`
  unfoldable pub handle_attach : Connection E → Connection E
  handle_attach self =
      let descriptors = self.printer.usb_descriptors in
      let message =
        pack_op_rep_import (
          create_op_rep_import descriptors.device_descriptor
            descriptors.configuration_descriptor) in
      record self { sent = self.sent ++ (message ∷ []) }

  -- `ReadBusId`: one `recv` of 32 bytes.
  unfoldable pub read_bus_id : Connection E → Result (Connection E)
  unfolding recv
  read_bus_id self =
      let received = recv 32 self.incoming in
      require (length (received.0) == 32) exited >> ok (record self { incoming = received.1 })

  -- Whether the connection stays open, and its state. The header is one `recv` too.
  unfoldable pub handle_op_request : Connection E → Result (Bool × Connection E)
  unfolding recv header_of unpack_op_header handle_device_list read_bus_id handle_attach
  handle_op_request self =
      let received = recv 8 self.incoming in
      let read = record self { incoming = received.1 } in
      let command = (unpack_op_header (header_of (received.0))).command in
      let listed = handle_device_list read >>= λ done. ok (false, done) in
      let attached =
        read_bus_id read >>= λ named. ok (true, record (handle_attach named) { attached = true }) in
      require (length (received.0) == 8) exited
      >> (if command == op_req_devlist_cmd
          then listed
          else if command == op_req_import_cmd
          then attached
          else ok (false, read))

  module _ (base : BaseStrings) (escl : EsclService E) where
    -- The printer serves the request. It receives data of a negative size in no way: the allocation ends
    -- the process.
    unfoldable pub serve_submit :
        Connection E → UsbipCmdSubmit → List Bytes → Result (Bool × Connection E)
    unfolding handle_usb_request receive_buffer to_size_t
    serve_submit self command incoming = do
      (received, left) ←
          if takes_data command
          then (require (ltb command.transfer_buffer_length (2 ^ 31)) exited
              >> receive_buffer (to_size_t command.transfer_buffer_length) incoming)
          else ok ([], incoming)
      served ← handle_usb_request base escl self.printer command received
      ok (
        true,
        record self { printer = served.printer; incoming = left; sent = self.sent ++ served.sent },
      )

    -- `Server::HandleUsbRequest`
    unfoldable pub handle_command : Connection E → Result (Bool × Connection E)
    unfolding serve_submit receive_buffer unpack_usbip_cmd_submit
    handle_command self = receive_buffer 48 self.incoming >>= λ received.
        unpack_usbip_cmd_submit (received.0) >>= λ unpacked.
        let id = (unpacked.0).header.command in
        let read = record self { incoming = received.1 } in
        if id == command_usbip_cmd_submit
        then serve_submit self (unpacked.0) (received.1)
        else if id == command_usbip_cmd_unlink
        then ok (true, read)
        else ok (false, read)

    -- The loop, by rounds.
    unfoldable pub handle_connection : ℕ → Connection E → Result (Connection E)
    unfolding handle_op_request handle_command
    handle_connection zero self = err out_of_fuel
    handle_connection (suc fuel) self =
        let round = if self.attached then handle_command self else handle_op_request self in
        round >>= λ r. let rest = handle_connection fuel (r.1) in if r.0 then rest else ok (r.1)
