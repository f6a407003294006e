-- ===== src/Printer/Control.antt =====
-- The control requests of `UsbPrinter`. What a handler hands to `SendUsbControlResponse` is its result;
-- `none` is a request that it does not answer. Printing to the log is left out.
pub mod Descriptor
use virtual_usb_printer.Common.{
  ℕ, zero, suc, ◌%◌, Bool, not, ◌||◌, Option, none, some, List, [], ◌∷◌, ltb, leb, ◌==◌,
  if◌then◌else◌, length, get_elem?, take, exited, undefined, Result, ok, err, ◌>>=◌, ◌>>◌, require,
  check, Bytes,
}
use virtual_usb_printer.SmartBuffer.{SmartBuffer, add}
use virtual_usb_printer.Descriptors.{
  UsbDeviceDescriptor, UsbConfigurationDescriptor, UsbDeviceQualifierDescriptor,
  UsbInterfaceDescriptor, UsbEndpointDescriptor, device_bytes, configuration_bytes, qualifier_bytes,
  interface_bytes, endpoint_bytes,
}
use virtual_usb_printer.Usbip.{UsbControlRequest, UsbipCmdSubmit, send_usb_control_response}
use virtual_usb_printer.Printer.Setup.{create_usb_control_request, get_control_type}

pub record UsbDescriptors : Type 0 where
  pub device_descriptor : UsbDeviceDescriptor
  pub configuration_descriptor : UsbConfigurationDescriptor
  pub qualifier_descriptor : UsbDeviceQualifierDescriptor
  pub string_descriptors : List Bytes
  pub ieee_device_id : Bytes
  pub interface_descriptors : List UsbInterfaceDescriptor
  -- A `std::map`: the endpoints under each interface's number.
  pub endpoint_descriptors : List (ℕ × List UsbEndpointDescriptor)

abbrev pub sizeof_device_descriptor : ℕ
sizeof_device_descriptor = 18

abbrev pub sizeof_configuration_descriptor : ℕ
sizeof_configuration_descriptor = 9

unfoldable pub handle_get_status : Bytes
handle_get_status = add [] (0 ∷ 0 ∷ [])

unfoldable pub handle_get_device_descriptor : UsbDescriptors → UsbControlRequest → Bytes
unfolding add device_bytes
handle_get_device_descriptor self control_request =
    let dev = device_bytes self.device_descriptor in
    if ltb control_request.w_length sizeof_device_descriptor
    then add [] (take control_request.w_length dev)
    else add [] dev

-- `endpoints.find(number)`
unfoldable pub find_endpoints :
    ℕ → List (ℕ × List UsbEndpointDescriptor) → Option (List UsbEndpointDescriptor)
find_endpoints number [] = none
find_endpoints number ((i, endpoints) ∷ rest) =
    if number == i then some endpoints else find_endpoints number rest

-- The loop over the endpoints of an interface.
unfoldable pub add_endpoints : List UsbEndpointDescriptor → SmartBuffer → SmartBuffer
unfolding add endpoint_bytes
add_endpoints [] response = response
add_endpoints (endpoint ∷ endpoints) response =
    add_endpoints endpoints (add response (endpoint_bytes endpoint))

-- The loop over the interfaces, `count` rounds of it. An index past the vector is undefined.
unfoldable pub add_interfaces :
    ℕ
    → List (ℕ × List UsbEndpointDescriptor)
    → List UsbInterfaceDescriptor
    → SmartBuffer
    → Result SmartBuffer
unfolding add interface_bytes find_endpoints add_endpoints
add_interfaces zero endpoints interfaces response = ok response
add_interfaces (suc count) endpoints [] response = err undefined
add_interfaces (suc count) endpoints (interface ∷ interfaces) response =
    let added = add response (interface_bytes interface) in
    elim (find_endpoints interface.b_interface_number endpoints) [
      | none ↦ err exited
      | some found ↦ add_interfaces count endpoints interfaces (add_endpoints found added)
    ]

unfoldable pub handle_get_configuration_descriptor :
    UsbDescriptors → UsbControlRequest → Result Bytes
unfolding add configuration_bytes add_interfaces
handle_get_configuration_descriptor self control_request =
    let response = add [] (configuration_bytes self.configuration_descriptor) in
    if control_request.w_length == sizeof_configuration_descriptor
    then ok response
    else (add_interfaces self.configuration_descriptor.b_num_interfaces self.endpoint_descriptors
          self.interface_descriptors response
        >>= λ filled. check (control_request.w_length == length filled) >> ok filled)

unfoldable pub handle_get_device_qualifier_descriptor : UsbDescriptors → Bytes
unfolding add qualifier_bytes
handle_get_device_qualifier_descriptor self = add [] (qualifier_bytes self.qualifier_descriptor)

-- The first byte of a string descriptor is its size. It is a `char`, which is signed on x86-64: from 128 on
-- it is negative, and `reserve` of the size that it is turned into throws, which ends the process.
unfoldable pub string_prefix : Bytes → Result Bytes
unfolding add
string_prefix [] = err undefined
string_prefix (size ∷ bytes) = do
  require (ltb size 128) exited
  require (leb size (suc (length bytes))) undefined
  ok (add [] (take size (size ∷ bytes)))

unfoldable pub handle_get_string_descriptor : UsbDescriptors → UsbControlRequest → Result Bytes
unfolding string_prefix
handle_get_string_descriptor self control_request =
    elim (get_elem? self.string_descriptors control_request.w_value0) [
      | none ↦ err undefined
      | some bytes ↦ string_prefix bytes
    ]

unfoldable pub handle_get_configuration : UsbDescriptors → Bytes
unfolding add
handle_get_configuration self =
    add [] (self.configuration_descriptor.b_configuration_value % 256 ∷ [])

unfoldable pub handle_get_device_id : UsbDescriptors → Bytes
unfolding add
handle_get_device_id self = add [] self.ieee_device_id

abbrev answer : Bytes → Result (Option Bytes)
answer bytes = ok (some bytes)

abbrev answer_if : Result Bytes → Result (Option Bytes)
answer_if r = r >>= λ bytes. ok (some bytes)

-- `wValue1` is one of `USB_DESCRIPTOR_*`.
unfoldable pub handle_get_descriptor : UsbDescriptors → UsbControlRequest → Result (Option Bytes)
unfolding handle_get_device_descriptor handle_get_configuration_descriptor
    handle_get_string_descriptor handle_get_device_qualifier_descriptor
handle_get_descriptor self control_request =
    let kind = control_request.w_value1 in
    if kind == 0x01
    then answer (handle_get_device_descriptor self control_request)
    else if kind == 0x02
    then answer_if (handle_get_configuration_descriptor self control_request)
    else if kind == 0x03
    then answer_if (handle_get_string_descriptor self control_request)
    else if kind == 0x06
    then answer (handle_get_device_qualifier_descriptor self)
    else ok none

-- `HandleUnsupportedRequest` sends an empty answer: to `CLEAR_FEATURE`, `SET_FEATURE`, `SET_ADDRESS`,
-- `SET_DESCRIPTOR`, `SET_CONFIGURATION`, `GET_INTERFACE`, `SET_INTERFACE` and `SET_FRAME`.
is_unsupported : ℕ → Bool
is_unsupported id =
    id == 0x01
    || (id == 0x03
        || (id == 0x05
            || (id == 0x07 || (id == 0x09 || (id == 0x0A || (id == 0x0B || id == 0x0C))))))

unfoldable pub handle_standard_control : UsbDescriptors → UsbControlRequest → Result (Option Bytes)
unfolding handle_get_status handle_get_descriptor handle_get_configuration is_unsupported
handle_standard_control self control_request =
    let id = control_request.b_request in
    if id == 0x00
    then answer handle_get_status
    else if id == 0x06
    then handle_get_descriptor self control_request
    else if id == 0x08
    then answer (handle_get_configuration self)
    else if is_unsupported id
    then answer []
    else ok none

-- Only `GET_DEVICE_ID` is answered.
unfoldable pub handle_printer_control : UsbDescriptors → UsbControlRequest → Result (Option Bytes)
unfolding handle_get_device_id
handle_printer_control self control_request =
    if control_request.b_request == 0 then answer (handle_get_device_id self) else ok none

-- `STANDARD_TYPE` is 0 and `CLASS_TYPE` is 1; the others are not handled.
unfoldable pub control_answer : UsbDescriptors → UsbControlRequest → Result (Option Bytes)
unfolding get_control_type handle_standard_control handle_printer_control
control_answer self control_request =
    let request_type = get_control_type control_request.bm_request_type in
    if request_type == 0
    then handle_standard_control self control_request
    else if request_type == 1
    then handle_printer_control self control_request
    else ok none

-- `SendUsbControlResponse` of the answer, if there is one.
unfoldable pub send_answer : UsbipCmdSubmit → Option Bytes → Option Bytes
unfolding send_usb_control_response
send_answer usb_request none = none
send_answer usb_request (some bytes) = some (send_usb_control_response usb_request bytes)

-- The message sent on the socket, if one is.
unfoldable pub handle_usb_control : UsbDescriptors → UsbipCmdSubmit → Result (Option Bytes)
unfolding create_usb_control_request control_answer send_answer
handle_usb_control self usb_request =
    control_answer self (create_usb_control_request usb_request.setup) >>= λ answered.
    ok (send_answer usb_request answered)
