-- ===== src/Printer/Exchange.antt =====
-- Requests of the host one after another: data transfers to an endpoint, and bulk-in requests from one.
pub mod Response
use virtual_usb_printer.Common.{
  ℕ, ◌+◌, ◌≡◌, refl, sym, ap, subst, ◌∙◌, true, false, Option, none, List, [], ◌∷◌, ◌++◌, ◌==◌,
  length, set, All, Result, ok, ◌>>=◌, bind-eq-ok, Ensures-ok, Bytes,
}
use virtual_usb_printer.BaseStrings.{BaseStrings}
use virtual_usb_printer.SmartBuffer.{SmartBuffer}
use virtual_usb_printer.Usbip.{UsbipCmdSubmit, send_usb_data_response}
use virtual_usb_printer.Printer.Interface.{InterfaceManager, get_interface_manager}
use virtual_usb_printer.Printer.Bulk.{bulk_in, handle_bulk_in_request}
use virtual_usb_printer.Printer.Bulk.Pieces.{bulk_reads}
use virtual_usb_printer.Printer.Data.{EsclService, UsbPrinter, handle_http_data}
use virtual_usb_printer.Printer.Data.Receive.{handle_transfers, get_interface_manager-set}
use virtual_usb_printer.Printer.Dispatch.{
  is_ipp_usb, serve_bulk_in, handle_ipp_usb_data, handle_usb_request,
}
use virtual_usb_printer.Printer.Dispatch.Shape.{Keeps, handle_http_data-Keeps}

-- A request, and the bytes that come with it.
abbrev pub Transfer : Type 0
Transfer = UsbipCmdSubmit × SmartBuffer

-- To an endpoint.
pub record IsOut (ep : ℕ) (t : Transfer) : Type 0 where
  pub to : t.0.header.ep ≡ ep
  pub control : (t.0.header.ep == 0) ≡ false
  pub direction : (t.0.header.direction == 1) ≡ false

-- From an endpoint.
pub record IsIn (ep : ℕ) (c : UsbipCmdSubmit) : Type 0 where
  pub from : c.header.ep ≡ ep
  pub control : (c.header.ep == 0) ≡ false
  pub direction : (c.header.direction == 1) ≡ true

abbrev pub messages_of : List Transfer → List SmartBuffer
messages_of [] = []
messages_of ((c, message) ∷ ts) = message ∷ messages_of ts

-- The answer to each: how much was received.
abbrev pub receipts : List Transfer → List Bytes
receipts [] = []
receipts ((c, message) ∷ ts) = send_usb_data_response c (length message) ∷ receipts ts

-- A bulk-in request brings no bytes.
abbrev pub reads : List UsbipCmdSubmit → List Transfer
reads [] = []
reads (c ∷ cs) = (c, []) ∷ reads cs

handle_bulk_in_request-ok :
    (c : UsbipCmdSubmit) (managers : List InterfaceManager) (index : ℕ) (im new : InterfaceManager)
    (piece : Bytes)
    → get_interface_manager managers c.header.ep ≡ ok (index, im)
    → bulk_in c im ≡ ok (piece, new)
    → handle_bulk_in_request c managers ≡ ok (piece, set managers index new)
unfolding handle_bulk_in_request
handle_bulk_in_request-ok c managers index im new piece found e =
    rw (found, handle_bulk_in_request) (rw (e, handle_bulk_in_request) refl)

module _ {E : Type 0} (base : BaseStrings) (escl : EsclService E) where
  -- The requests, one after another: the printer behind them, and what was sent.
  unfoldable pub serve_all : UsbPrinter E → List Transfer → Result (UsbPrinter E × List Bytes)
  unfolding handle_usb_request
  serve_all self [] = ok (self, [])
  serve_all self ((c, received) ∷ ts) = handle_usb_request base escl self c received >>= λ served.
      serve_all served.printer ts >>= λ rest. ok (rest.0, served.sent ++ rest.1)

  serve_out :
      (self after : UsbPrinter E) (ep : ℕ) (t : Transfer) (recorded : Option Bytes)
      → IsOut ep t
      → is_ipp_usb self ≡ true
      → handle_http_data base escl self ep t.1 ≡ ok (after, recorded)
      → handle_usb_request base escl self t.0 t.1
        ≡ ok (record {
          printer = after;
          sent = send_usb_data_response t.0 (length t.1) ∷ [];
          recorded = recorded;
          appended = none;
        })
  unfolding handle_usb_request handle_ipp_usb_data
  serve_out self after ep t recorded out ipp e =
      let here : handle_http_data base escl self t.0.header.ep t.1 ≡ ok (after, recorded) =
        subst (λ n. handle_http_data base escl self n t.1 ≡ ok (after, recorded)) (sym out.to) e in
      rw (out.control, handle_usb_request)
        (rw (out.direction, handle_usb_request)
          (rw (ipp, handle_usb_request) (rw (here, handle_ipp_usb_data) refl)))

  is_ipp_usb-Keeps :
      (self after : UsbPrinter E) (ep : ℕ) (message : SmartBuffer) (recorded : Option Bytes)
      → handle_http_data base escl self ep message ≡ ok (after, recorded)
      → is_ipp_usb self ≡ true
      → is_ipp_usb after ≡ true
  unfolding is_ipp_usb
  is_ipp_usb-Keeps self after ep message recorded e ipp =
      let (same, _) =
        Ensures-ok (Keeps self) _ (after, recorded)
          (handle_http_data-Keeps base escl self ep message) e in
      rw same ipp

  -- Transfers of a request, and what follows them.
  pub serve_outs :
      (ts us : List Transfer) (self after final : UsbPrinter E) (ep : ℕ)
      (documents sent : List Bytes)
      → All (IsOut ep) ts
      → is_ipp_usb self ≡ true
      → handle_transfers base escl self ep (messages_of ts) ≡ ok (after, documents)
      → serve_all after us ≡ ok (final, sent)
      → serve_all self (ts ++ us) ≡ ok (final, receipts ts ++ sent)
  unfolding serve_all handle_transfers
  serve_outs [] us self after final ep documents sent out ipp e served =
      let same : self ≡ after = cc in rw same served
  serve_outs ((c, message) ∷ ts) us self after final ep documents sent out ipp e served =
      let ((next, recorded), one, e1) =
        bind-eq-ok (handle_http_data base escl self ep message) _ e in
      let ((last, documents'), others, e2) =
        bind-eq-ok (handle_transfers base escl next ep (messages_of ts)) _ e1 in
      let same : last ≡ after = cc in
      let rest =
        serve_outs ts us next after final ep documents' sent out.1
          (is_ipp_usb-Keeps self next ep message recorded one ipp)
          (others ∙ ap (λ (x : UsbPrinter E). ok (x, documents')) same) served in
      rw (serve_out self next ep (c, message) recorded out.0 ipp one) (rw rest refl)

  serve_in :
      (self : UsbPrinter E) (c : UsbipCmdSubmit) (ep index : ℕ) (im new : InterfaceManager)
      (piece : Bytes)
      → IsIn ep c
      → get_interface_manager self.interface_managers ep ≡ ok (index, im)
      → bulk_in c im ≡ ok (piece, new)
      → handle_usb_request base escl self c []
        ≡ ok (record {
          printer = record self { interface_managers = set self.interface_managers index new };
          sent = piece ∷ [];
          recorded = none;
          appended = none;
        })
  unfolding handle_usb_request serve_bulk_in
  serve_in self c ep index im new piece in_ found e =
      let here : get_interface_manager self.interface_managers c.header.ep ≡ ok (index, im) =
        subst (λ n. get_interface_manager self.interface_managers n ≡ ok (index, im)) (sym in_.from)
          found in
      let read = handle_bulk_in_request-ok c self.interface_managers index im new piece here e in
      rw (in_.control, handle_usb_request)
        (rw (in_.direction, handle_usb_request) (rw (read, serve_bulk_in) refl))

  pub serve_ins :
      (cs : List UsbipCmdSubmit) (self : UsbPrinter E) (ep index : ℕ) (im new : InterfaceManager)
      (pieces : List Bytes)
      → All (IsIn ep) cs
      → get_interface_manager self.interface_managers ep ≡ ok (index, im)
      → bulk_reads cs im ≡ ok (pieces, new)
      → (after : UsbPrinter E) × (serve_all self (reads cs) ≡ ok (after, pieces))
        × (get_interface_manager after.interface_managers ep ≡ ok (index, new))
  unfolding serve_all bulk_reads
  serve_ins [] self ep index im new pieces in_ found e =
      let sent : [] ≡ pieces = cc in
      let same : im ≡ new = cc in
      (self, rw sent refl, found ∙ ap (λ (x : InterfaceManager). ok (index, x)) same)
  serve_ins (c ∷ cs) self ep index im new pieces in_ found e =
      let ((piece, between), one, e1) = bind-eq-ok (bulk_in c im) _ e in
      let ((pieces', last), others, e2) = bind-eq-ok (bulk_reads cs between) _ e1 in
      let sent : piece ∷ pieces' ≡ pieces = cc in
      let same : last ≡ new = cc in
      let next : UsbPrinter E = record self {
        interface_managers = set self.interface_managers index between;
      } in
      let (after, rest, there) =
        serve_ins cs next ep index between new pieces' in_.1
          (get_interface_manager-set self.interface_managers ep index im between found)
          (others ∙ ap (λ (x : InterfaceManager). ok (pieces', x)) same) in
      (
        after,
        rw (serve_in self c ep index im between piece in_.0 found one)
            (rw rest (ap (λ (x : List Bytes). ok (after, x)) sent)),
        there,
      )
