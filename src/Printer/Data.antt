-- ===== src/Printer/Data.antt =====
-- The data transfers of `UsbPrinter`: `HandleHttpData`, `GenerateHttpResponse`, `QueueHttpResponse`.
pub mod Receive
use virtual_usb_printer.Common.{
  ℕ, Bool, true, false, ◌&&◌, Option, none, some, List, [], ◌==◌, if◌then◌else◌, length, set,
  Result, ok, ◌>>=◌, Bytes, codes, bytes_eq, ◌>>◌,
}
use virtual_usb_printer.BaseStrings.{BaseStrings}
use virtual_usb_printer.FlatMap.{assign}
use virtual_usb_printer.SmartBuffer.{SmartBuffer, add}
use virtual_usb_printer.Http.Request.{
  HttpRequest, HttpHeaders, deserialize as deserialize_request, content_length, is_chunked_message,
}
use virtual_usb_printer.Http.Response.{HttpResponse, serialize}
use virtual_usb_printer.Http.Chunk.{contains_final_chunk, merge_document}
use virtual_usb_printer.Ipp.Header.{IppHeader, deserialize as deserialize_ipp_header}
use virtual_usb_printer.Ipp.Parse.{remove_ipp_attributes}
use virtual_usb_printer.Ipp.Manager.{IppManager, handle_ipp_request}
use virtual_usb_printer.Printer.Interface.{InterfaceManager, queue_message, get_interface_manager}
use virtual_usb_printer.Printer.Control.{UsbDescriptors}

-- What the printer asks of its `EsclManager`, whose state is `E`.
pub record EsclService (E : Type 0) : Type 0 where
  pub handle_escl_request : E → HttpRequest → SmartBuffer → Result (HttpResponse × E)

pub record UsbPrinter (E : Type 0) : Type 0 where
  pub usb_descriptors : UsbDescriptors
  pub document_output_path : Bytes
  pub ipp_manager : IppManager
  pub escl_manager : E
  pub interface_managers : List InterfaceManager

-- The response, the state of the eSCL manager, and the document that was written to the output path.
pub record Generated (E : Type 0) : Type 0 where
  pub response : HttpResponse
  pub escl_manager : E
  pub recorded : Option Bytes

abbrev pub only_status : Bytes → HttpResponse
only_status status = record { status = status; headers = []; body = [] }

abbrev pub ipp_headers : HttpHeaders
ipp_headers = assign (codes "Content-Type") (codes "application/ipp") []

-- The setters that a parsed header calls.
abbrev pub start_request : InterfaceManager → HttpRequest → InterfaceManager
start_request im request = record im {
  receiving_message = true;
  request_header = request;
  receiving_chunked = is_chunked_message request;
}

abbrev pub start_parsed :
    InterfaceManager
    → Option (HttpRequest × SmartBuffer)
    → Result (Option (InterfaceManager × SmartBuffer))
start_parsed im none = ok none
start_parsed im (some (request, rest)) = ok (some (start_request im request, rest))

module _ {E : Type 0} (base : BaseStrings) (escl : EsclService E) where
  -- The branch of `POST /ipp/print`.
  unfoldable pub generate_ipp_response : UsbPrinter E → SmartBuffer → Result (Generated E)
  generate_ipp_response self body =
      let unsupported : Generated E = record {
        response = only_status (codes "415 Unsupported Media Type");
        escl_manager = self.escl_manager;
        recorded = none;
      } in
      deserialize_ipp_header body >>= λ (parsed : Option (IppHeader × SmartBuffer)). elim parsed [
        | none ↦ ok unsupported
        | some (ipp_header, attributes) ↦
            remove_ipp_attributes attributes >>= λ (removed : Option SmartBuffer). elim removed [
              | none ↦ ok unsupported
              | some document ↦ handle_ipp_request self.ipp_manager ipp_header document >>= λ reply.
                  ok (record {
                    response = record {
                      status = codes "200 OK";
                      headers = ipp_headers;
                      body = reply.response;
                    };
                    escl_manager = self.escl_manager;
                    recorded = reply.recorded;
                  })
            ]
      ]

  unfoldable pub generate_http_response :
      UsbPrinter E → HttpRequest → SmartBuffer → Result (Generated E)
  unfolding generate_ipp_response bytes_eq
  generate_http_response self request body =
      if bytes_eq request.method (codes "POST") && bytes_eq request.uri (codes "/ipp/print")
      then generate_ipp_response self body
      else if base.starts_with request.uri (codes "/eSCL")
      then (escl.handle_escl_request self.escl_manager request body >>= λ r.
          ok (record { response = r.0; escl_manager = r.1; recorded = none }))
      else ok (record {
        response = only_status (codes "404 Not Found");
        escl_manager = self.escl_manager;
        recorded = none;
      })

  -- The manager that is receiving, and the bytes of the body in this transfer; `none` where the
  -- transfer should begin a message and is no HTTP.
  unfoldable pub start_message :
      InterfaceManager → SmartBuffer → Result (Option (InterfaceManager × SmartBuffer))
  start_message im message =
      if im.receiving_message
      then ok (some (im, message))
      else (deserialize_request base message >>= start_parsed im)

  -- Behind `im->message()->Add(*message)`. Of a chunked message only the last transfer is looked at.
  unfoldable pub is_complete : InterfaceManager → SmartBuffer → Bool
  unfolding contains_final_chunk content_length
  is_complete im message =
      if im.receiving_chunked
      then contains_final_chunk message
      else length im.message == content_length base im.request_header

  unfoldable pub take_payload : InterfaceManager → Result SmartBuffer
  unfolding merge_document
  take_payload im = if im.receiving_chunked then merge_document base im.message else ok im.message

  -- `QueueHttpResponse`, on the interface of the request.
  unfoldable pub queue_http_response : HttpResponse → InterfaceManager → InterfaceManager
  unfolding queue_message
  queue_http_response response im = queue_message (serialize response []) im

  -- A complete message: the payload is taken, which empties the manager's message, and the response
  -- is queued.
  unfoldable pub finish_message :
      UsbPrinter E → ℕ → InterfaceManager → Result (UsbPrinter E × Option Bytes)
  unfolding take_payload generate_http_response queue_http_response
  finish_message self index im = do
    payload ← take_payload im
    generated ← generate_http_response self im.request_header payload
    let emptied = record im { message = []; receiving_message = false }
    ok (
      record self {
        escl_manager = generated.escl_manager;
        interface_managers =
            set self.interface_managers index (queue_http_response generated.response emptied);
      },
      generated.recorded,
    )

  -- Behind the start of a message: the bytes are added, and a complete message is answered.
  unfoldable pub handle_part :
      UsbPrinter E
      → ℕ
      → Option (InterfaceManager × SmartBuffer)
      → Result (UsbPrinter E × Option Bytes)
  unfolding add is_complete finish_message
  handle_part self index none = ok (self, none)
  handle_part self index (some (im, part)) =
      let added = record im { message = add im.message part } in
      if is_complete added part
      then finish_message self index added
      else ok (record self { interface_managers = set self.interface_managers index added }, none)

  -- The printer behind the transfer, and the document that it wrote.
  unfoldable pub handle_http_data :
      UsbPrinter E → ℕ → SmartBuffer → Result (UsbPrinter E × Option Bytes)
  unfolding get_interface_manager start_message handle_part
  handle_http_data self ep message = do
    (index, im) ← get_interface_manager self.interface_managers ep
    started ← start_message im message
    handle_part self index started
