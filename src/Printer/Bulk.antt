-- ===== src/Printer/Bulk.antt =====
-- `HandleBulkInRequest`: a queued response goes out in pieces of the size that the host asks for.
pub mod Pieces
use virtual_usb_printer.Common.{
  ℕ, ◌+◌, ◌-◌, ◌^◌, min, List, [], ltb, if◌then◌else◌, length, set, Result, ok, ◌>>=◌, Bytes, ◌>>◌,
}
use virtual_usb_printer.SmartBuffer.{SmartBuffer, add, add_from, shrink}
use virtual_usb_printer.Usbip.{
  UsbipCmdSubmit, UsbipRetSubmit, UsbipHeaderBasic, create_usbip_ret_submit, pack_usbip_ret_submit,
  to_int, send_usb_control_response,
}
use virtual_usb_printer.Printer.Interface.{
  InterfaceManager, queue_message, queue_empty, pop_message, get_interface_manager,
}

-- An `int` turned into a `size_t`: a negative one becomes a number close to 2 ^ 64.
unfoldable pub to_size_t : ℕ → ℕ
to_size_t n = if ltb n (2 ^ 31) then n else n + (2 ^ 64 - 2 ^ 32)

-- The reply's head: `actual_length` bytes will follow it.
unfoldable pub bulk_in_header : UsbipCmdSubmit → ℕ → UsbipRetSubmit
unfolding create_usbip_ret_submit
bulk_in_header usb_request size =
    let response = create_usbip_ret_submit usb_request in
    record response {
      header = record (response.header) { direction = 1 };
      actual_length = to_int size;
    }

-- Behind `PopMessage`: what is sent of the message, and the manager with the rest of it queued.
unfoldable pub send_piece :
    UsbipCmdSubmit → SmartBuffer → InterfaceManager → Result (Bytes × InterfaceManager)
unfolding bulk_in_header queue_message to_size_t
send_piece usb_request http_message im =
    let max_size = to_size_t usb_request.transfer_buffer_length in
    let size = length http_message in
    let response_buffer = pack_usbip_ret_submit (bulk_in_header usb_request (min max_size size)) in
    if ltb max_size size
    then (add_from [] http_message max_size >>= λ leftover.
        ok (add response_buffer (shrink http_message max_size), queue_message leftover im))
    else ok (add response_buffer http_message, im)

-- On the interface of the request: what is sent, and the manager behind it.
unfoldable pub bulk_in : UsbipCmdSubmit → InterfaceManager → Result (Bytes × InterfaceManager)
unfolding send_piece pop_message queue_empty
bulk_in usb_request im =
    if queue_empty im
    then ok (send_usb_control_response usb_request [], im)
    else pop_message im >>= λ p. send_piece usb_request p.0 p.1

unfoldable pub handle_bulk_in_request :
    UsbipCmdSubmit → List InterfaceManager → Result (Bytes × List InterfaceManager)
unfolding get_interface_manager bulk_in
handle_bulk_in_request usb_request managers = do
  (index, im) ← get_interface_manager managers usb_request.header.ep
  (sent, served) ← bulk_in usb_request im
  ok (sent, set managers index served)
