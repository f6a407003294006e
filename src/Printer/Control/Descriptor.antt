-- ===== src/Printer/Control/Descriptor.antt =====
-- What the descriptor requests are answered with.
use virtual_usb_printer.Common.{
  ℕ, zero, suc, ◌+◌, ◌*◌, ◌<◌, min, ◌≡◌, refl, sym, ap, subst, ◌∙◌, inl, inr, none, some, List, [],
  ◌∷◌, ◌++◌, append-nil, append_assoc, arith, ◌==◌, if◌then◌else◌, Option-cases, length, get_elem?,
  take, All, length-append, length-take, take_all, check_failed, undefined, ok, err, ◌>>=◌, Bytes,
}
use virtual_usb_printer.ByteOrder.{mem, length-mem}
use virtual_usb_printer.Descriptors.{
  UsbDeviceDescriptor, UsbConfigurationDescriptor, UsbInterfaceDescriptor, UsbEndpointDescriptor,
  device_bytes, configuration_bytes, interface_bytes, endpoint_bytes, packed, device_fields,
  configuration_fields, interface_fields, endpoint_fields,
}
use virtual_usb_printer.SmartBuffer.{add}
use virtual_usb_printer.Usbip.{UsbControlRequest, UsbipCmdSubmit}
use virtual_usb_printer.Printer.Setup.{
  create_usb_control_request, setup_wire, IsSetup, word, create_usb_control_request-setup_wire,
}
use virtual_usb_printer.Printer.Control.{
  UsbDescriptors, handle_get_device_descriptor, find_endpoints, add_endpoints, add_interfaces,
  handle_get_configuration_descriptor, handle_get_string_descriptor, control_answer,
  handle_usb_control, string_prefix, send_answer,
}

-- The sum of the sizes of the fields.
abbrev sum_sizes : List (ℕ × ℕ) → ℕ
sum_sizes [] = 0
sum_sizes ((k, x) ∷ fields) = k + sum_sizes fields

length-packed : (fields : List (ℕ × ℕ)) → length (packed fields) ≡ sum_sizes fields
unfolding packed
length-packed [] = refl
length-packed ((k, x) ∷ fields) =
    omega (arith, length-append (mem k x) (packed fields), length-mem k x, length-packed fields)

length-device_bytes : (d : UsbDeviceDescriptor) → length (device_bytes d) ≡ 18
unfolding device_bytes
length-device_bytes d = length-packed (device_fields d)

length-configuration_bytes : (d : UsbConfigurationDescriptor) → length (configuration_bytes d) ≡ 9
unfolding configuration_bytes
length-configuration_bytes d = length-packed (configuration_fields d)

length-interface_bytes : (d : UsbInterfaceDescriptor) → length (interface_bytes d) ≡ 9
unfolding interface_bytes
length-interface_bytes d = length-packed (interface_fields d)

length-endpoint_bytes : (d : UsbEndpointDescriptor) → length (endpoint_bytes d) ≡ 7
unfolding endpoint_bytes
length-endpoint_bytes d = length-packed (endpoint_fields d)

-- A request for the device descriptor is answered with its first `wLength` bytes, or with all 18 of them
-- where it asks for more.
pub handle_get_device_descriptor_lem :
    (self : UsbDescriptors) (r : UsbControlRequest)
    → (handle_get_device_descriptor self r ≡ take r.w_length (device_bytes self.device_descriptor))
      × (length (handle_get_device_descriptor self r) ≡ min r.w_length 18)
unfolding handle_get_device_descriptor add
handle_get_device_descriptor_lem self r = ground (
  arith,
  length-device_bytes self.device_descriptor,
  take_all r.w_length (device_bytes self.device_descriptor),
  length-take r.w_length (device_bytes self.device_descriptor),
)

abbrev pub endpoints_wire : List UsbEndpointDescriptor → Bytes
endpoints_wire [] = []
endpoints_wire (e ∷ es) = endpoint_bytes e ++ endpoints_wire es

-- Interfaces, each with its endpoints.
abbrev pub Interfaces : Type 0
Interfaces = List (UsbInterfaceDescriptor × List UsbEndpointDescriptor)

abbrev pub interfaces_wire : Interfaces → Bytes
interfaces_wire [] = []
interfaces_wire ((i, es) ∷ rest) = interface_bytes i ++ (endpoints_wire es ++ interfaces_wire rest)

-- 9 bytes for each interface and 7 for each endpoint.
abbrev pub interfaces_size : Interfaces → ℕ
interfaces_size [] = 0
interfaces_size ((i, es) ∷ rest) = 9 + 7 * length es + interfaces_size rest

abbrev pub just_interfaces : Interfaces → List UsbInterfaceDescriptor
just_interfaces [] = []
just_interfaces ((i, es) ∷ rest) = i ∷ just_interfaces rest

-- The map holds for every interface the endpoints that the list has for it.
abbrev pub HasEndpoints : List (ℕ × List UsbEndpointDescriptor) → Interfaces → Type 0
HasEndpoints endpoints = All (λ i. find_endpoints (i.0).b_interface_number endpoints ≡ some (i.1))

add_endpoints_lem :
    (es : List UsbEndpointDescriptor) (response : Bytes)
    → add_endpoints es response ≡ response ++ endpoints_wire es
unfolding add_endpoints add
add_endpoints_lem [] response = sym (append-nil response)
add_endpoints_lem (e ∷ es) response =
    add_endpoints_lem es (response ++ endpoint_bytes e)
    ∙ append_assoc response (endpoint_bytes e) (endpoints_wire es)

add_interfaces_lem :
    (endpoints : List (ℕ × List UsbEndpointDescriptor)) (is : Interfaces)
    (more : List UsbInterfaceDescriptor) (response : Bytes)
    → HasEndpoints endpoints is
    → add_interfaces (length is) endpoints (just_interfaces is ++ more) response
      ≡ ok (response ++ interfaces_wire is)
unfolding add_interfaces add
add_interfaces_lem endpoints [] more response h = ap ok (sym (append-nil response))
add_interfaces_lem endpoints ((i, es) ∷ is) more response h =
    rw (h.0, add_interfaces)
      (rw (add_endpoints_lem es (response ++ interface_bytes i)) (
        add_interfaces_lem endpoints is more ((response ++ interface_bytes i) ++ endpoints_wire es)
          h.1
        ∙ ap ok (simp append_assoc)))

length-interfaces_wire : (is : Interfaces) → length (interfaces_wire is) ≡ interfaces_size is
length-interfaces_wire [] = refl
length-interfaces_wire ((i, es) ∷ is) = omega (
  arith,
  length-append (interface_bytes i) (endpoints_wire es ++ interfaces_wire is),
  length-append (endpoints_wire es) (interfaces_wire is),
  length-interface_bytes i,
  length-endpoints_wire es,
  length-interfaces_wire is,
)
  where
    length-endpoints_wire :
        (es : List UsbEndpointDescriptor) → length (endpoints_wire es) ≡ 7 * length es
    length-endpoints_wire [] = refl
    length-endpoints_wire (e ∷ es) = omega (
      arith,
      length-append (endpoint_bytes e) (endpoints_wire es),
      length-endpoint_bytes e,
      length-endpoints_wire es,
    )

-- A request for the configuration descriptor whose interfaces all have their endpoints listed is answered
-- with the descriptor alone where it asks for 9 bytes; where it asks for the size of the whole, with the
-- descriptor, and each interface followed by its endpoints. Any other size ends the process.
pub handle_get_configuration_descriptor_lem :
    (self : UsbDescriptors) (r : UsbControlRequest) (is : Interfaces)
    (more : List UsbInterfaceDescriptor)
    → self.interface_descriptors ≡ just_interfaces is ++ more
    → self.configuration_descriptor.b_num_interfaces ≡ length is
    → HasEndpoints self.endpoint_descriptors is
    → handle_get_configuration_descriptor self r ≡ (
        if r.w_length == 9
        then ok (configuration_bytes self.configuration_descriptor)
        else if r.w_length == 9 + interfaces_size is
        then ok (configuration_bytes self.configuration_descriptor ++ interfaces_wire is)
        else err check_failed)
unfolding handle_get_configuration_descriptor add
handle_get_configuration_descriptor_lem self r is more e n h =
    let head = configuration_bytes self.configuration_descriptor in
    let filled : add_interfaces self.configuration_descriptor.b_num_interfaces
          self.endpoint_descriptors self.interface_descriptors head
        ≡ ok (head ++ interfaces_wire is) =
      ap (λ x. add_interfaces x self.endpoint_descriptors self.interface_descriptors head) n
      ∙ ap (λ x. add_interfaces (length is) self.endpoint_descriptors x head) e
      ∙ add_interfaces_lem self.endpoint_descriptors is more head h in
    let size : length (head ++ interfaces_wire is) ≡ 9 + interfaces_size is = omega (
      arith,
      length-append head (interfaces_wire is),
      length-interfaces_wire is,
      length-configuration_bytes self.configuration_descriptor,
    ) in
    ground (arith, filled, size)

All-get_elem? :
    (P : Bytes → Type 0) (xs : List Bytes) (i : ℕ) (x : Bytes)
    → All P xs
    → get_elem? xs i ≡ some x
    → P x
All-get_elem? P [] i x h e = absurd (cc)
All-get_elem? P (y ∷ ys) zero x h e = subst P (cc) h.0
All-get_elem? P (y ∷ ys) (suc i) x h e = All-get_elem? P ys i x h.1 e

string_prefix_whole :
    (s : Bytes) → get_elem? s 0 ≡ some (length s) → length s < 128 → string_prefix s ≡ ok s
unfolding string_prefix add
string_prefix_whole [] e h = absurd (cc)
string_prefix_whole (size ∷ s) e h = ground (arith, take_all size (size ∷ s))

abbrev pub IsString : Bytes → Type 0
IsString s = (get_elem? s 0 ≡ some (length s)) × (length s < 128)

-- A string descriptor whose first byte is its size, below 128, is answered whole; a request for one
-- that is not there is undefined.
pub handle_get_string_descriptor_lem :
    (self : UsbDescriptors) (r : UsbControlRequest)
    → All IsString self.string_descriptors
    → handle_get_string_descriptor self r ≡ elim (get_elem? self.string_descriptors r.w_value0) [
      | none ↦ err undefined
      | some bytes ↦ ok bytes
    ]
unfolding handle_get_string_descriptor
handle_get_string_descriptor_lem self r h =
    elim (Option-cases (get_elem? self.string_descriptors r.w_value0)) [
      | inl e ↦ ground (arith, e)
      | inr (s, e) ↦
          let v = All-get_elem? IsString self.string_descriptors r.w_value0 s h e in
          ground (arith, e, string_prefix_whole s v.0 v.1)
    ]

-- The answer to a control request is the answer to the request that the eight bytes of its SETUP packet
-- spell: its fields are what the handlers get.
pub handle_usb_control-setup_wire :
    (self : UsbDescriptors) (c : UsbipCmdSubmit) (r : UsbControlRequest)
    → IsSetup r
    → c.setup ≡ word (setup_wire r) 0
    → handle_usb_control self c
      ≡ (control_answer self r >>= λ answered. ok (send_answer c answered))
unfolding handle_usb_control
handle_usb_control-setup_wire self c r v e =
    ap
      (λ (x : UsbControlRequest). control_answer self x >>= λ answered. ok (send_answer c answered))
      (ap create_usb_control_request e ∙ create_usb_control_request-setup_wire r v)
