-- ===== src/Printer/Dispatch.antt =====
-- `HandleUsbRequest`: which handler serves a request. What `ReceiveBuffer` returns is an argument; the
-- socket shows in the messages that are sent.
pub mod Invariant
pub mod Isolation
pub mod Shape
use virtual_usb_printer.Common.{
  ℕ, suc, Bool, ◌&&◌, Option, none, some, List, [], ◌∷◌, leb, ◌==◌, if◌then◌else◌, length, Result,
  ok, ◌>>=◌, Bytes,
}
use virtual_usb_printer.BaseStrings.{BaseStrings}
use virtual_usb_printer.SmartBuffer.{SmartBuffer}
use virtual_usb_printer.Descriptors.{UsbInterfaceDescriptor}
use virtual_usb_printer.Usbip.{UsbipCmdSubmit, send_usb_data_response}
use virtual_usb_printer.Printer.Bulk.{handle_bulk_in_request}
use virtual_usb_printer.Printer.Control.{handle_usb_control}
use virtual_usb_printer.Printer.Data.{EsclService, UsbPrinter, handle_http_data}

-- What a request does: the printer behind it, the messages sent on the socket in their order, the
-- document written by the IPP manager, and the bytes appended to the output file.
pub record Served (E : Type 0) : Type 0 where
  pub printer : UsbPrinter E
  pub sent : List Bytes
  pub recorded : Option Bytes
  pub appended : Option Bytes

-- Class 7, subclass 1, protocol 4.
is_ipp_usb_interface : UsbInterfaceDescriptor → Bool
is_ipp_usb_interface interface =
    interface.b_interface_class == 7
    && (interface.b_interface_sub_class == 1 && interface.b_interface_protocol == 4)

unfoldable pub count_ipp_usb : List UsbInterfaceDescriptor → ℕ
unfolding is_ipp_usb_interface
count_ipp_usb [] = 0
count_ipp_usb (interface ∷ interfaces) =
    let rest = count_ipp_usb interfaces in if is_ipp_usb_interface interface then suc rest else rest

-- `!document_output_path_.empty()`
append_to : Bytes → SmartBuffer → Option Bytes
append_to [] received = none
append_to (b ∷ path) received = some received

-- The answer to a control request, where there is one.
sent_answer : Option Bytes → List Bytes
sent_answer none = []
sent_answer (some message) = message ∷ []

module _ {E : Type 0} where
  unfoldable pub is_ipp_usb : UsbPrinter E → Bool
  unfolding count_ipp_usb
  is_ipp_usb self = leb 2 (count_ipp_usb self.usb_descriptors.interface_descriptors)

  unfoldable pub handle_usb_data : UsbPrinter E → UsbipCmdSubmit → SmartBuffer → Served E
  unfolding append_to
  handle_usb_data self usb_request received = record {
    printer = self;
    sent = send_usb_data_response usb_request (length received) ∷ [];
    recorded = none;
    appended = append_to self.document_output_path received;
  }

  -- `HandleUsbControl` as a request of the printer.
  unfoldable pub serve_control : UsbPrinter E → UsbipCmdSubmit → Result (Served E)
  unfolding sent_answer
  serve_control self usb_request =
      handle_usb_control self.usb_descriptors usb_request >>= λ answered.
      ok (record { printer = self; sent = sent_answer answered; recorded = none; appended = none })

  -- `HandleBulkInRequest` as a request of the printer.
  unfoldable pub serve_bulk_in : UsbPrinter E → UsbipCmdSubmit → Result (Served E)
  serve_bulk_in self usb_request =
      handle_bulk_in_request usb_request self.interface_managers >>= λ r. ok (record {
        printer = record self { interface_managers = r.1 };
        sent = r.0 ∷ [];
        recorded = none;
        appended = none;
      })

  module _ (base : BaseStrings) (escl : EsclService E) where
    unfoldable pub handle_ipp_usb_data :
        UsbPrinter E → UsbipCmdSubmit → SmartBuffer → Result (Served E)
    unfolding handle_http_data
    handle_ipp_usb_data self usb_request received =
        handle_http_data base escl self usb_request.header.ep received >>= λ r. ok (record {
          printer = r.0;
          sent = send_usb_data_response usb_request (length received) ∷ [];
          recorded = r.1;
          appended = none;
        })

    unfoldable pub handle_usb_request :
        UsbPrinter E → UsbipCmdSubmit → SmartBuffer → Result (Served E)
    unfolding is_ipp_usb handle_usb_data handle_ipp_usb_data serve_control serve_bulk_in
    handle_usb_request self usb_request received =
        if usb_request.header.ep == 0
        then serve_control self usb_request
        else if usb_request.header.direction == 1
        then serve_bulk_in self usb_request
        else if is_ipp_usb self
        then handle_ipp_usb_data self usb_request received
        else ok (handle_usb_data self usb_request received)
