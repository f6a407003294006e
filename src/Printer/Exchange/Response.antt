-- ===== src/Printer/Exchange/Response.antt =====
-- A whole exchange: a request sent in data transfers, and its response read by bulk-in requests.
use virtual_usb_printer.Common.{
  ℕ, ◌<◌, ◌≤◌, ◌+◌, ◌≡◌, refl, ap, ◌∙◌, true, false, some, List, [], ◌∷◌, ◌++◌, length, set, All,
  ok, Bytes,
}
use virtual_usb_printer.BaseStrings.{BaseStrings}
use virtual_usb_printer.SmartBuffer.{SmartBuffer}
use virtual_usb_printer.Http.Request.{HttpRequest, content_length, is_chunked_message, deserialize}
use virtual_usb_printer.Http.Response.{serialize}
use virtual_usb_printer.Usbip.{UsbipCmdSubmit}
use virtual_usb_printer.Printer.Interface.{InterfaceManager, get_interface_manager}
use virtual_usb_printer.Printer.Bulk.Pieces.{bulk_reads_lem, payloads, sum_asked, asked}
use virtual_usb_printer.Printer.Data.{EsclService, UsbPrinter, Generated, generate_http_response}
use virtual_usb_printer.Printer.Data.Receive.{
  handle_transfers, handle_transfers_lem, joined, with_document, answered,
  get_interface_manager-set,
}
use virtual_usb_printer.Printer.Dispatch.{is_ipp_usb}
use virtual_usb_printer.Printer.Exchange.{
  Transfer, IsOut, IsIn, messages_of, receipts, reads, serve_all, serve_outs, serve_ins,
}

-- Nothing is being received, and nothing waits to be read.
pub record IsIdle (im : InterfaceManager) : Type 0 where
  pub receiving : im.receiving_message ≡ false
  pub empty : im.message ≡ []
  pub nothing : im.queue ≡ []

module _ {E : Type 0} (base : BaseStrings) (escl : EsclService E) where
  -- A request whose length is announced, sent to an idle interface of an IPP-over-USB printer in transfers
  -- that reach this length with the last of them and not before, and then bulk-in requests for sizes that
  -- reach the end of the response with the last of them and not before: each transfer is acknowledged, what
  -- the bulk-in requests read is the response that the printer generates, and the interface is idle again.
  pub exchange_lem :
      (self : UsbPrinter E) (out_ep in_ep index : ℕ) (ts : List Transfer)
      (first front last : SmartBuffer) (parts : List SmartBuffer) (im : InterfaceManager)
      (request : HttpRequest) (generated : Generated E) (cs : List UsbipCmdSubmit)
      (c : UsbipCmdSubmit)
      → is_ipp_usb self ≡ true
      → get_interface_manager self.interface_managers out_ep ≡ ok (index, im)
      → get_interface_manager self.interface_managers in_ep ≡ ok (index, im)
      → IsIdle im
      → All (IsOut out_ep) ts
      → messages_of ts ≡ first ∷ (parts ++ (last ∷ []))
      → deserialize base first ≡ ok (some (request, front))
      → is_chunked_message request ≡ false
      → length front + length (joined parts) < content_length base request
      → length front + length (joined parts) + length last ≡ content_length base request
      → generate_http_response base escl self request (front ++ (joined parts ++ last))
        ≡ ok generated
      → All (IsIn in_ep) (cs ++ (c ∷ []))
      → sum_asked cs < length (serialize generated.response [])
      → length (serialize generated.response []) ≤ sum_asked cs + asked c
      → (after : UsbPrinter E) × (pieces : List Bytes) × (serve_all base escl self
            (ts ++ reads (cs ++ (c ∷ [])))
          ≡ ok (after, receipts ts ++ pieces))
        × (payloads pieces ≡ serialize generated.response [])
        × (now : InterfaceManager) × (get_interface_manager after.interface_managers in_ep
            ≡ ok (index, now))
        × IsIdle now
  unfolding answered
  exchange_lem self out_ep in_ep index ts first front last parts im request generated cs c ipp
        at_out at_in idle out sent parsed whole short reached response in_ before end =
      let answer = serialize generated.response [] in
      let done : InterfaceManager = record im {
        queue = im.queue ++ (answer ∷ []);
        receiving_message = false;
        receiving_chunked = false;
        request_header = request;
        message = [];
      } in
      let behind : UsbPrinter E = record self {
        escl_manager = generated.escl_manager;
        interface_managers = set self.interface_managers index done;
      } in
      let received =
        handle_transfers_lem base escl self out_ep index first front last parts im request at_out
          idle.receiving idle.empty parsed whole short reached in
      let transfers : handle_transfers base escl self out_ep (messages_of ts)
          ≡ ok (behind, with_document generated.recorded []) =
        rw sent (received ∙ rw (response, answered) refl) in
      let (pieces, read, all) =
        bulk_reads_lem cs c done answer
          (ap (λ (q : List SmartBuffer). q ++ (answer ∷ [])) idle.nothing) before end in
      let (after, served, there) =
        serve_ins base escl (cs ++ (c ∷ [])) behind in_ep index done _ pieces in_
          (get_interface_manager-set self.interface_managers in_ep index im done at_in) read in
      (
        after,
        pieces,
        serve_outs base escl ts _ self behind after out_ep _ pieces out ipp transfers served,
        all,
        _,
        there,
        record { receiving = refl; empty = refl; nothing = refl },
      )
