-- ===== src/Tests/Usb.antt =====
-- The USB side: descriptors, the SETUP packet, the URB messages and the bulk-in requests.
use virtual_usb_printer.Common.{
  min, ◌≡◌, refl, none, List, [], ◌∷◌, ◌++◌, arith, leb, if◌then◌else◌, take, All, undefined, ok,
  err, ◌>>=◌, Bytes,
}
use virtual_usb_printer.ByteOrder.{wire}
use virtual_usb_printer.Usbip.{
  UsbipCmdSubmit, pack_usbip_ret_submit, unpack_usbip_cmd_submit, send_usb_control_response,
  command_usbip_ret_submit,
}
use virtual_usb_printer.Usbip.Wire.{
  cmd_submit_wire, ret_submit_wire, IsCmdSubmit, unpack_usbip_cmd_submit-wire,
  send_usb_control_response-wire,
}
use virtual_usb_printer.SmartBuffer.{SmartBuffer, add_from, shrink}
use virtual_usb_printer.Printer.Interface.{InterfaceManager, new_interface_manager}
use virtual_usb_printer.Printer.Setup.{setup_wire, word, IsSetup}
use virtual_usb_printer.Printer.Bulk.{handle_bulk_in_request, bulk_in, bulk_in_header, to_size_t}
use virtual_usb_printer.Printer.Bulk.Pieces.{
  bulk_in_lem, bulk_reads, payloads, bulk_reads_lem, asked, rest_of_queue,
}
use virtual_usb_printer.Printer.Control.{control_answer, send_answer, handle_usb_control}
use virtual_usb_printer.Printer.Control.Descriptor.{handle_usb_control-setup_wire}
use virtual_usb_printer.Printer.Dispatch.{Served, handle_usb_request}
use virtual_usb_printer.Printer.Dispatch.Isolation.{IsIsolated, handle_usb_request-IsIsolated}
use virtual_usb_printer.Printer.Dispatch.Invariant.{IsReady, handle_usb_request-IsReady}
use virtual_usb_printer.OpCommands.{
  create_op_rep_devlist, create_op_rep_import, pack_op_rep_devlist, pack_op_rep_import,
}
use virtual_usb_printer.OpCommands.Wire.{
  header_wire, device_wire, interfaces_wire as op_interfaces_wire, pack_op_rep_import-wire,
  pack_op_rep_devlist-wire,
}
use virtual_usb_printer.Tests.Data.{
  submit, get_configuration, device, configuration, interface, descriptors, base, escl, printer,
}

abbrev queued : List SmartBuffer → InterfaceManager
queued queue = record new_interface_manager { queue = queue }

abbrev six : SmartBuffer
six = 1 ∷ 2 ∷ 3 ∷ 4 ∷ 5 ∷ 6 ∷ []

asked_four : asked (submit 2 0) ≡ 4
unfolding to_size_t
asked_four = refl

bulk_reads_lem_example :
    (pieces : List Bytes) × (bulk_reads (submit 2 0 ∷ submit 2 0 ∷ []) (queued (six ∷ []))
      ≡ ok (pieces, queued []))
    × (payloads pieces ≡ six)
bulk_reads_lem_example =
    bulk_reads_lem (submit 2 0 ∷ []) (submit 2 0) (queued (six ∷ [])) six refl
      (omega (arith, asked_four)) (omega (arith, asked_four))

-- The rest of the first response stands behind the second one.
bulk_in_lem_example :
    bulk_in (submit 2 0) (queued (six ∷ (9 ∷ []) ∷ []))
    ≡ ok (
      pack_usbip_ret_submit (bulk_in_header (submit 2 0) (min (asked (submit 2 0)) 6))
          ++ take (asked (submit 2 0)) six,
      queued (rest_of_queue (asked (submit 2 0)) six ((9 ∷ []) ∷ [])),
    )
bulk_in_lem_example =
    bulk_in_lem (submit 2 0) (queued (six ∷ (9 ∷ []) ∷ [])) six ((9 ∷ []) ∷ []) refl

queue_order : rest_of_queue (asked (submit 2 0)) six ((9 ∷ []) ∷ []) ≡ (9 ∷ []) ∷ (5 ∷ 6 ∷ []) ∷ []
unfolding rest_of_queue to_size_t
queue_order = refl

configuration-IsSetup : IsSetup get_configuration
configuration-IsSetup = record {
  bm_request_type = omega arith;
  b_request = omega arith;
  w_value0 = omega arith;
  w_value1 = omega arith;
  w_index0 = omega arith;
  w_index1 = omega arith;
  w_length = omega arith;
}

abbrev control : UsbipCmdSubmit
control = submit 0 (word (setup_wire get_configuration) 0)

handle_usb_control-setup_wire_example : handle_usb_control descriptors control ≡ (
    control_answer descriptors get_configuration >>= λ answered. ok (send_answer control answered))
handle_usb_control-setup_wire_example =
    handle_usb_control-setup_wire descriptors control get_configuration configuration-IsSetup refl

submit-IsCmdSubmit : IsCmdSubmit (submit 2 0)
submit-IsCmdSubmit = record {
  command = omega arith;
  seqnum = omega arith;
  devid = omega arith;
  direction = omega arith;
  ep = omega arith;
  transfer_flags = omega arith;
  transfer_buffer_length = omega arith;
  start_frame = omega arith;
  number_of_packets = omega arith;
  interval = omega arith;
  setup = omega arith;
}

unpack_usbip_cmd_submit-wire_example :
    unpack_usbip_cmd_submit (cmd_submit_wire (submit 2 0) ++ (5 ∷ [])) ≡ ok (submit 2 0, 5 ∷ [])
unpack_usbip_cmd_submit-wire_example =
    unpack_usbip_cmd_submit-wire (submit 2 0) (5 ∷ []) submit-IsCmdSubmit

send_usb_control_response-wire_example :
    send_usb_control_response (submit 2 0) six
    ≡ ret_submit_wire (record {
      header = record ((submit 2 0).header) { command = command_usbip_ret_submit };
      status = 0;
      actual_length = 6;
      start_frame = 0;
      number_of_packets = 0;
      error_count = 0;
      setup = 0;
    })
      ++ six
send_usb_control_response-wire_example =
    send_usb_control_response-wire (submit 2 0) six (omega arith)

pack_op_rep_import-wire_example :
    pack_op_rep_import (create_op_rep_import device configuration)
    ≡ header_wire 3 ++ device_wire device configuration
pack_op_rep_import-wire_example = pack_op_rep_import-wire device configuration

pack_op_rep_devlist-wire_example :
    pack_op_rep_devlist (create_op_rep_devlist device configuration (interface ∷ [])) ≡ (
      if leb 1 1
      then ok (
          header_wire 5
          ++ (wire 4 1
              ++ (device_wire device configuration
                  ++ take 4 (op_interfaces_wire (interface ∷ [])))))
      else err undefined)
pack_op_rep_devlist-wire_example = pack_op_rep_devlist-wire device configuration (interface ∷ [])

-- A bulk-in request on the second endpoint of a printer with one interface, a message queued.
abbrev read_six : Served (Unit {0})
read_six = record {
  printer = printer (queued ((5 ∷ 6 ∷ []) ∷ []) ∷ []);
  sent = (pack_usbip_ret_submit (bulk_in_header (submit 2 0) 4) ++ (1 ∷ 2 ∷ 3 ∷ 4 ∷ [])) ∷ [];
  recorded = none;
  appended = none;
}

read_runs :
    handle_usb_request base escl (printer (queued (six ∷ []) ∷ [])) (submit 2 0) [] ≡ ok read_six
unfolding handle_usb_request handle_bulk_in_request add_from shrink
read_runs = refl

handle_usb_request-IsReady_example : All IsReady read_six.printer.interface_managers
unfolding IsReady
handle_usb_request-IsReady_example =
    handle_usb_request-IsReady base escl (printer (queued (six ∷ []) ∷ [])) (submit 2 0) [] read_six
      read_runs ((λ idle. refl), tt)

handle_usb_request-IsIsolated_example :
    IsIsolated (queued (six ∷ []) ∷ []) 2 read_six.printer.interface_managers
handle_usb_request-IsIsolated_example =
    handle_usb_request-IsIsolated base escl (printer (queued (six ∷ []) ∷ [])) (submit 2 0) []
      read_six read_runs
