-- ===== src/Printer/Dispatch/Shape.antt =====
-- What no request changes: the descriptors, and how many interfaces there are.
use virtual_usb_printer.Common.{
  inl, inr, ◌++◌, ℕ, ◌≡◌, refl, Option, none, some, List, ◌==◌, Bool-cases, length, Ensures,
  Ensures-bind, Ensures-read, Bytes,
}
use virtual_usb_printer.BaseStrings.{BaseStrings}
use virtual_usb_printer.SmartBuffer.{SmartBuffer}
use virtual_usb_printer.Usbip.{UsbipCmdSubmit}
use virtual_usb_printer.Printer.Interface.{InterfaceManager, get_interface_manager}
use virtual_usb_printer.Printer.Bulk.{bulk_in, handle_bulk_in_request}
use virtual_usb_printer.Printer.Control.{handle_usb_control}
use virtual_usb_printer.Printer.Data.{
  EsclService, UsbPrinter, generate_http_response, start_message, is_complete, take_payload,
  finish_message, handle_part, handle_http_data,
}
use virtual_usb_printer.Printer.Data.Receive.{length-set}
use virtual_usb_printer.Printer.Dispatch.{
  Served, serve_control, serve_bulk_in, handle_ipp_usb_data, handle_usb_data, handle_usb_request,
  is_ipp_usb,
}

module _ {E : Type 0} where
  abbrev pub HasShapeOf : UsbPrinter E → UsbPrinter E → Type 0
  HasShapeOf self served =
      (served.usb_descriptors ≡ self.usb_descriptors)
      × (length served.interface_managers ≡ length self.interface_managers)

  abbrev pub Keeps : UsbPrinter E → UsbPrinter E × Option Bytes → Type 0
  Keeps self r = HasShapeOf self r.0

  abbrev pub KeepsServed : UsbPrinter E → Served E → Type 0
  KeepsServed self served = HasShapeOf self served.printer

  module _ (base : BaseStrings) (escl : EsclService E) where
    finish_message-Keeps :
        (self : UsbPrinter E) (index : ℕ) (im : InterfaceManager)
        → Ensures (Keeps self) (finish_message base escl self index im)
    unfolding finish_message
    finish_message-Keeps self index im =
        Ensures-read (Keeps self) (take_payload base escl im) _ λ payload e.
          Ensures-read (Keeps self)
            (generate_http_response base escl self im.request_header payload) _
            λ generated e'. (refl, length-set self.interface_managers index _)

    handle_part-Keeps :
        (self : UsbPrinter E) (index : ℕ) (started : Option (InterfaceManager × SmartBuffer))
        → Ensures (Keeps self) (handle_part base escl self index started)
    unfolding handle_part
    handle_part-Keeps self index none = (refl, refl)
    handle_part-Keeps self index (some (im, part)) =
        let added : InterfaceManager = record im { message = im.message ++ part } in
        elim (Bool-cases (is_complete base escl added part)) [
          | inl done ↦ rw (done, handle_part) (finish_message-Keeps self index added)
          | inr open_ ↦
              rw (open_, handle_part) (refl, length-set self.interface_managers index added)
        ]

    pub handle_http_data-Keeps :
        (self : UsbPrinter E) (ep : ℕ) (message : SmartBuffer)
        → Ensures (Keeps self) (handle_http_data base escl self ep message)
    unfolding handle_http_data
    handle_http_data-Keeps self ep message =
        Ensures-read (Keeps self) (get_interface_manager self.interface_managers ep) _ λ found e.
          Ensures-read (Keeps self) (start_message base escl found.1 message) _
            λ started e'. handle_part-Keeps self found.0 started

    abbrev KeepsLength : List InterfaceManager → Bytes × List InterfaceManager → Type 0
    KeepsLength managers r = length r.1 ≡ length managers

    handle_bulk_in_request-KeepsLength :
        (c : UsbipCmdSubmit) (managers : List InterfaceManager)
        → Ensures (KeepsLength managers) (handle_bulk_in_request c managers)
    unfolding handle_bulk_in_request
    handle_bulk_in_request-KeepsLength c managers =
        Ensures-read (KeepsLength managers) (get_interface_manager managers c.header.ep) _
          λ found e.
            Ensures-read (KeepsLength managers) (bulk_in c found.1) _
              λ served e'. length-set managers found.0 served.1

    serve_bulk_in-Keeps :
        (self : UsbPrinter E) (c : UsbipCmdSubmit)
        → Ensures (KeepsServed self) (serve_bulk_in self c)
    unfolding serve_bulk_in
    serve_bulk_in-Keeps self c =
        Ensures-bind (KeepsLength self.interface_managers) (KeepsServed self)
          (handle_bulk_in_request c self.interface_managers) _
          (handle_bulk_in_request-KeepsLength c self.interface_managers) λ r h. (refl, h)

    -- Every request leaves the descriptors and the number of interfaces as they are.
    pub handle_usb_request-Keeps :
        (self : UsbPrinter E) (c : UsbipCmdSubmit) (received : SmartBuffer)
        → Ensures (KeepsServed self) (handle_usb_request base escl self c received)
    unfolding handle_usb_request serve_control handle_ipp_usb_data handle_usb_data
    handle_usb_request-Keeps self c received = elim (Bool-cases (c.header.ep == 0)) [
      | inl control ↦
          rw (control, handle_usb_request)
            (Ensures-read (KeepsServed self) (handle_usb_control self.usb_descriptors c) _
              λ answered e. (refl, refl))
      | inr other ↦ elim (Bool-cases (c.header.direction == 1)) [
        | inl in_ ↦ rw (other, in_, handle_usb_request) (serve_bulk_in-Keeps self c)
        | inr out ↦ elim (Bool-cases (is_ipp_usb self)) [
          | inl ipp ↦
              rw (other, out, ipp, handle_usb_request)
                (Ensures-bind (Keeps self) (KeepsServed self)
                  (handle_http_data base escl self c.header.ep received) _
                  (handle_http_data-Keeps self c.header.ep received) λ r h. h)
          | inr plain ↦ rw (other, out, plain, handle_usb_request) (refl, refl)
        ]
      ]
    ]
