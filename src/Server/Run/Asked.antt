-- ===== src/Server/Run/Asked.antt =====
-- A host that asks for the devices.
use virtual_usb_printer.Common.{
  ℕ, zero, ◌==◌, exited, Bool, leb, sym, ap, ◌∙◌, inl, inr, take_all, Bool-cases, suc, ◌*◌, ◌≤◌,
  ◌≡◌, refl, true, false, List, [], ◌∷◌, ◌++◌, arith, length, take, ok, err, Bytes,
}
use virtual_usb_printer.BaseStrings.{BaseStrings}
use virtual_usb_printer.ByteOrder.{wire, swap}
use virtual_usb_printer.Usbip.{field_at}
use virtual_usb_printer.OpCommands.{create_op_rep_devlist, pack_op_rep_devlist, unpack_op_header}
use virtual_usb_printer.OpCommands.Wire.{
  header_wire, device_wire, interfaces_wire, pack_op_rep_devlist-wire,
}
use virtual_usb_printer.Printer.Control.{UsbDescriptors}
use virtual_usb_printer.Printer.Data.{EsclService, UsbPrinter}
use virtual_usb_printer.Server.Socket.{recv}
use virtual_usb_printer.Server.Received.{joined}
use virtual_usb_printer.Server.Connection.{
  header_of, handle_device_list, handle_op_request, handle_connection,
}
use virtual_usb_printer.Server.Run.{new_connection}

-- The header of a request for the devices, as the protocol lays it out: version, command, status.
abbrev pub list_request : Bytes
list_request = 0x01 ∷ 0x11 ∷ 0x80 ∷ 0x05 ∷ 0 ∷ 0 ∷ 0 ∷ 0 ∷ []

-- The first segment has the whole header, so that one `recv` gets it.
abbrev pub has_whole_header : List Bytes → Bool
has_whole_header [] = false
has_whole_header (s ∷ ss) = leb 8 (length s)

take_before :
    (n : ℕ) (front rest : Bytes) → n ≤ length front → take n (front ++ rest) ≡ take n front
take_before zero front rest h = refl
take_before (suc n) [] rest h = absurd (omega arith)
take_before (suc n) (b ∷ front) rest h = ap (◌∷◌ b) (take_before n front rest (omega arith))

recv-whole :
    (incoming : List Bytes)
    → has_whole_header incoming ≡ true
    → (recv 8 incoming).0 ≡ take 8 (joined incoming)
unfolding recv
recv-whole [] whole = absurd (cc)
recv-whole (s ∷ ss) whole =
    let enough : 8 ≤ length s = ground arith in
    elim (Bool-cases (leb (length s) 8)) [
      | inl a ↦
          let all : length s ≤ 8 = ground arith in
          rw a (sym (take_before 8 s (joined ss) enough ∙ take_all 8 s all))
      | inr a ↦ rw a (sym (take_before 8 s (joined ss) enough))
    ]

recv-cut :
    (incoming : List Bytes)
    → has_whole_header incoming ≡ false
    → length ((recv 8 incoming).0) == 8 ≡ false
unfolding recv
recv-cut [] whole = refl
recv-cut (s ∷ ss) whole = ground arith

-- The list of the one device.
abbrev pub device_list : UsbDescriptors → Bytes
device_list d =
    header_wire 5
    ++ (wire 4 1
        ++ (device_wire d.device_descriptor d.configuration_descriptor
            ++ take (4 * d.configuration_descriptor.b_num_interfaces)
                (interfaces_wire d.interface_descriptors)))

module _ {E : Type 0} (base : BaseStrings) (escl : EsclService E) where
  listed :
      (printer : UsbPrinter E) (more : List Bytes)
      → printer.usb_descriptors.configuration_descriptor.b_num_interfaces
        ≤ length printer.usb_descriptors.interface_descriptors
      → handle_device_list (new_connection printer more)
        ≡ ok (record (new_connection printer more) {
          sent = device_list printer.usb_descriptors ∷ [];
        })
  unfolding handle_device_list
  listed printer more h =
      let d = printer.usb_descriptors in
      let packed : pack_op_rep_devlist (
            create_op_rep_devlist d.device_descriptor d.configuration_descriptor
              d.interface_descriptors)
          ≡ ok (device_list d) =
        ground (
          arith,
          pack_op_rep_devlist-wire d.device_descriptor d.configuration_descriptor
              d.interface_descriptors,
        ) in
      rw (packed, handle_device_list) refl

  -- The header has arrived whole: the host gets the list, and the connection is closed.
  pub list_request_lem :
      (rounds : ℕ) (printer : UsbPrinter E) (incoming : List Bytes)
      → take 8 (joined incoming) ≡ list_request
      → has_whole_header incoming ≡ true
      → printer.usb_descriptors.configuration_descriptor.b_num_interfaces
        ≤ length printer.usb_descriptors.interface_descriptors
      → handle_connection base escl (suc rounds) (new_connection printer incoming)
        ≡ ok (record {
          printer = printer;
          attached = false;
          incoming = (recv 8 incoming).1;
          sent = device_list printer.usb_descriptors ∷ [];
        })
  unfolding handle_connection handle_op_request header_of unpack_op_header handle_device_list
      field_at swap
  list_request_lem rounds printer incoming asks whole h =
      let header : (recv 8 incoming).0 ≡ list_request = recv-whole incoming whole ∙ asks in
      rw header (rw (listed printer ((recv 8 incoming).1) h) refl)

  -- It has not: the process ends.
  pub cut_header_lem :
      (rounds : ℕ) (printer : UsbPrinter E) (incoming : List Bytes)
      → has_whole_header incoming ≡ false
      → handle_connection base escl (suc rounds) (new_connection printer incoming) ≡ err exited
  unfolding handle_connection handle_op_request
  cut_header_lem rounds printer incoming cut = rw (recv-cut incoming cut) refl
