-- ===== src/Ipp/Manager.antt =====
-- `IppManager` of ipp_manager.cc: the answers to IPP requests.
pub mod Response
use virtual_usb_printer.Common.{
  ℕ, Option, none, some, List, [], ◌∷◌, ◌==◌, if◌then◌else◌, Result, ok, ◌>>=◌, Bytes, ◌>>◌,
}
use virtual_usb_printer.SmartBuffer.{SmartBuffer}
use virtual_usb_printer.Ipp.Header.{IppHeader, serialize}
use virtual_usb_printer.Ipp.Attribute.{
  IppAttribute, operation_attributes, printer_attributes, job_attributes,
}
use virtual_usb_printer.Ipp.Attribute.Add.{add_printer_attributes, add_end_of_attributes}
use virtual_usb_printer.Ipp.Attribute.Size.{get_attributes_size}

pub record IppManager : Type 0 where
  pub operation_attributes : List IppAttribute
  pub printer_attributes : List IppAttribute
  pub job_attributes : List IppAttribute
  pub unsupported_attributes : List IppAttribute
  pub document_output_path : Bytes

-- The response, and what `WriteFile` was asked to put into the file at `document_output_path`.
-- A write that fails is only reported.
pub record Reply : Type 0 where
  pub response : SmartBuffer
  pub recorded : Option Bytes

-- `kSuccessStatus`
abbrev pub success_status : ℕ
success_status = 0

abbrev pub response_header : IppHeader → IppHeader
response_header request_header = record request_header { operation_id = success_status }

-- Header, operation attributes and end tag. The sizes are summed for `reserve` alone, but the sum
-- ends the process on an attribute that has none.
unfoldable pub handle_validate_job : IppManager → IppHeader → Result SmartBuffer
unfolding add_end_of_attributes
handle_validate_job self request_header = do
  _size ← get_attributes_size self.operation_attributes
  let buf = serialize (response_header request_header) []
  operations ← add_printer_attributes self.operation_attributes operation_attributes buf
  ok (add_end_of_attributes operations)

-- Header, operation attributes, one more group and end tag.
unfoldable pub two_groups : IppManager → List IppAttribute → Bytes → IppHeader → Result SmartBuffer
unfolding add_end_of_attributes
two_groups self attributes group request_header = do
  _size ← get_attributes_size self.operation_attributes
  _more ← get_attributes_size attributes
  let buf = serialize (response_header request_header) []
  operations ← add_printer_attributes self.operation_attributes operation_attributes buf
  groups ← add_printer_attributes attributes group operations
  ok (add_end_of_attributes groups)

unfoldable pub handle_create_job : IppManager → IppHeader → Result SmartBuffer
unfolding two_groups
handle_create_job self request_header =
    two_groups self self.job_attributes job_attributes request_header

-- `!document_output_path_.empty()`
abbrev pub to_record : Bytes → SmartBuffer → Option Bytes
to_record [] body = none
to_record (b ∷ path) body = some body

unfoldable pub handle_send_document : IppManager → IppHeader → SmartBuffer → Result Reply
unfolding two_groups
handle_send_document self request_header body = do
  buf ← two_groups self self.job_attributes job_attributes request_header
  ok (record { response = buf; recorded = to_record self.document_output_path body })

unfoldable pub handle_get_job_attributes : IppManager → IppHeader → Result SmartBuffer
unfolding two_groups
handle_get_job_attributes self request_header =
    two_groups self self.job_attributes job_attributes request_header

unfoldable pub handle_get_printer_attributes : IppManager → IppHeader → Result SmartBuffer
unfolding two_groups
handle_get_printer_attributes self request_header =
    two_groups self self.printer_attributes printer_attributes request_header

-- `IPP_*` of usbip_constants.h.
abbrev pub ipp_validate_job : ℕ
ipp_validate_job = 0x0004

abbrev pub ipp_create_job : ℕ
ipp_create_job = 0x0005

abbrev pub ipp_send_document : ℕ
ipp_send_document = 0x0006

abbrev pub ipp_get_job_attributes : ℕ
ipp_get_job_attributes = 0x0009

abbrev pub ipp_get_printer_attributes : ℕ
ipp_get_printer_attributes = 0x000B

abbrev unrecorded : Result SmartBuffer → Result Reply
unrecorded r = r >>= λ buf. ok (record { response = buf; recorded = none })

-- An unknown operation is answered by an empty buffer.
unfoldable pub handle_ipp_request : IppManager → IppHeader → SmartBuffer → Result Reply
unfolding handle_validate_job handle_create_job handle_send_document handle_get_job_attributes
    handle_get_printer_attributes
handle_ipp_request self ipp_header body =
    let id = ipp_header.operation_id in
    if id == ipp_validate_job
    then unrecorded (handle_validate_job self ipp_header)
    else if id == ipp_create_job
    then unrecorded (handle_create_job self ipp_header)
    else if id == ipp_send_document
    then handle_send_document self ipp_header body
    else if id == ipp_get_job_attributes
    then unrecorded (handle_get_job_attributes self ipp_header)
    else if id == ipp_get_printer_attributes
    then unrecorded (handle_get_printer_attributes self ipp_header)
    else ok (record { response = []; recorded = none })
