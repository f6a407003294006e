-- ===== src/LoadConfig/Loaded.antt =====
-- What a configuration that loads gives, and how the requests for it are answered.
use virtual_usb_printer.Common.{
  ℕ, suc, ◌+◌, ◌≤◌, ◌≡◌, sym, ap, subst, ◌∙◌, some, List, [], ◌∷◌, ◌++◌, append-nil, arith, leb,
  ◌==◌, if◌then◌else◌, length, get_elem?, All, exited, check_failed, ok, err, or_check, bind-eq-ok,
  Ensures-ok, Bytes, codes,
}
use virtual_usb_printer.Json.{Value, find_list, find_dict}
use virtual_usb_printer.Usbip.{UsbControlRequest}
use virtual_usb_printer.Descriptors.{UsbEndpointDescriptor, configuration_bytes}
use virtual_usb_printer.Printer.Control.{
  UsbDescriptors, handle_get_string_descriptor, handle_get_configuration_descriptor, find_endpoints,
}
use virtual_usb_printer.Printer.Control.Descriptor.{
  Interfaces, just_interfaces, interfaces_size, interfaces_wire,
  handle_get_configuration_descriptor_lem,
}
use virtual_usb_printer.LoadConfig.Fields.{
  get_byte_value, get_device_descriptor, get_configuration_descriptor,
  get_device_qualifier_descriptor,
}
use virtual_usb_printer.LoadConfig.Fields.Ranges.{
  IsDevice, IsConfiguration, IsQualifier, IsInterface, IsEndpoint, get_device_descriptor-IsDevice,
  get_configuration_descriptor-IsConfiguration, get_device_qualifier_descriptor-IsQualifier,
  get_interface_descriptor-IsInterface, get_endpoint_descriptor-IsEndpoint,
}
use virtual_usb_printer.LoadConfig.Lists.{
  strings_of_config, get_string_descriptors, get_interface_descriptors, get_endpoint_descriptor_map,
  get_ieee_device_id, create_usb_descriptors, interfaces_of, endpoint_map_of,
}
use virtual_usb_printer.LoadConfig.Lists.Strings.{
  string_wire, string_values, strings_of_config_lem, string_prefix-string_wire, short_strings,
}
use virtual_usb_printer.LoadConfig.Lists.Endpoints.{
  read_interfaces, endpoints_under, found, Holds, interfaces_of-read_interfaces,
  endpoint_map_of_lem,
}
use virtual_usb_printer.LoadConfig.Lists.Checked.{AllUnder, read_interfaces-All, interfaces_of-All}
use virtual_usb_printer.LoadConfig.Lists.Distinct.{AreDistinct, HaveSome, Holds-HasEndpoints}

-- Each part of the descriptors comes from its own reader.
record IsLoaded (config : Value) (self : UsbDescriptors) : Type 0 where
  device : get_device_descriptor config ≡ ok self.device_descriptor
  configuration : get_configuration_descriptor config ≡ ok self.configuration_descriptor
  qualifier : get_device_qualifier_descriptor config ≡ ok self.qualifier_descriptor
  interfaces : get_interface_descriptors config ≡ ok self.interface_descriptors
  endpoints : get_endpoint_descriptor_map config ≡ ok self.endpoint_descriptors
  strings : get_string_descriptors config ≡ ok self.string_descriptors
  device_id : get_ieee_device_id config ≡ ok self.ieee_device_id

create_usb_descriptors-IsLoaded :
    (config : Value) (self : UsbDescriptors)
    → create_usb_descriptors config ≡ ok self
    → IsLoaded config self
unfolding create_usb_descriptors
create_usb_descriptors-IsLoaded config self e =
    let (device, a, e1) = bind-eq-ok (get_device_descriptor config) _ e in
    let (configuration, b, e2) = bind-eq-ok (get_configuration_descriptor config) _ e1 in
    let (qualifier, c, e3) = bind-eq-ok (get_device_qualifier_descriptor config) _ e2 in
    let (interfaces, d, e4) = bind-eq-ok (get_interface_descriptors config) _ e3 in
    let (endpoint_map, f, e5) = bind-eq-ok (get_endpoint_descriptor_map config) _ e4 in
    let (strings, g, e6) = bind-eq-ok (get_string_descriptors config) _ e5 in
    let (device_id, h, e7) = bind-eq-ok (get_ieee_device_id config) _ e6 in ground (arith, e7)

-- The list of the configuration behind the language descriptor.
string_at :
    (config : Value) (descriptors ss : List Bytes) (i : ℕ) (s : Bytes)
    → get_string_descriptors config ≡ ok descriptors
    → find_list config (codes "string_descriptors") ≡ some (string_values ss)
    → get_elem? ss i ≡ some s
    → (get_elem? descriptors (suc i) ≡ some (string_wire s)) × (length s ≤ 126)
unfolding get_string_descriptors
string_at config descriptors ss i s e listed h =
    let (descriptor, _, e1) =
      bind-eq-ok (or_check (find_dict config (codes "language_descriptor"))) _ e in
    let (l0, _, e2) = bind-eq-ok (get_byte_value descriptor (codes "bLength")) _ e1 in
    let (l1, _, e3) = bind-eq-ok (get_byte_value descriptor (codes "bDescriptorType")) _ e2 in
    let (l2, _, e4) = bind-eq-ok (get_byte_value descriptor (codes "langID1")) _ e3 in
    let (l3, _, e5) = bind-eq-ok (get_byte_value descriptor (codes "langID2")) _ e4 in
    let (list, found, e6) =
      bind-eq-ok (or_check (find_list config (codes "string_descriptors"))) _ e5 in
    let (strings, made, e7) = bind-eq-ok (strings_of_config list) _ e6 in
    let same : list ≡ string_values ss = ground (arith, found, listed) in
    let made' : strings_of_config (string_values ss) ≡ ok strings = rw (← same) made in
    let whole : (l0 ∷ l1 ∷ l2 ∷ l3 ∷ []) ∷ strings ≡ descriptors = cc in
    (
      ap (λ (x : List Bytes). get_elem? x (suc i)) (sym whole)
          ∙ strings_of_config_lem ss strings i s made' h,
      short_strings ss strings i s made' h,
    )

-- A request for the string descriptor of a loaded configuration with the number `i + 1`, where the list of
-- the configuration has a string at `i`: a string of up to 62 characters is answered with its descriptor as
-- the USB standard lays it out; the request for a longer one, which loads up to 126, ends the process.
pub string_request_lem :
    (config : Value) (self : UsbDescriptors) (r : UsbControlRequest) (ss : List Bytes) (i : ℕ)
    (s : Bytes)
    → create_usb_descriptors config ≡ ok self
    → find_list config (codes "string_descriptors") ≡ some (string_values ss)
    → get_elem? ss i ≡ some s
    → r.w_value0 ≡ suc i
    → handle_get_string_descriptor self r
      ≡ (if leb (length s) 62 then ok (string_wire s) else err exited)
unfolding handle_get_string_descriptor
string_request_lem config self r ss i s e listed h index =
    let loaded = create_usb_descriptors-IsLoaded config self e in
    let (there, short) = string_at config self.string_descriptors ss i s loaded.strings listed h in
    let found : get_elem? self.string_descriptors r.w_value0 ≡ some (string_wire s) =
      ap (get_elem? self.string_descriptors) index ∙ there in
    rw (found, handle_get_string_descriptor) (string_prefix-string_wire s short)

-- The interfaces and the map of endpoints of one list.
interface_lists :
    (config : Value) (self : UsbDescriptors) (vs : List Value)
    → IsLoaded config self
    → find_list config (codes "interface_descriptors") ≡ some vs
    → (interfaces_of vs ≡ ok self.interface_descriptors)
      × (endpoint_map_of vs [] ≡ ok self.endpoint_descriptors)
unfolding get_interface_descriptors get_endpoint_descriptor_map
interface_lists config self vs loaded listed =
    (rw listed at loaded.interfaces, rw listed at loaded.endpoints)

-- The interfaces of a loaded configuration are those of its list, in their order. The map has under each
-- number all endpoints of the interfaces with this number, in their order, and no entry for a number
-- under which there are none.
pub interfaces_lem :
    (config : Value) (self : UsbDescriptors) (vs : List Value)
    → create_usb_descriptors config ≡ ok self
    → find_list config (codes "interface_descriptors") ≡ some vs
    → (is : Interfaces) × (read_interfaces vs ≡ ok is)
      × (self.interface_descriptors ≡ just_interfaces is)
      × ((number : ℕ)
          → find_endpoints number self.endpoint_descriptors ≡ found (endpoints_under number is))
interfaces_lem config self vs e listed =
    let (list, map) =
      interface_lists config self vs (create_usb_descriptors-IsLoaded config self e) listed in
    let (is, read, holds) = endpoint_map_of_lem vs self.endpoint_descriptors map in
    (is, read, interfaces_of-read_interfaces vs self.interface_descriptors is list read, holds)

-- A request for the configuration descriptor of a loaded configuration that announces as many interfaces
-- as its list has, with distinct numbers, and that has an endpoint for each: for 9 bytes it is answered
-- with the descriptor alone; for the size of the whole, with the descriptor, and each interface of the
-- list followed by its own endpoints. Any other size ends the process.
pub configuration_request_lem :
    (config : Value) (self : UsbDescriptors) (r : UsbControlRequest) (vs : List Value)
    (is : Interfaces)
    → create_usb_descriptors config ≡ ok self
    → find_list config (codes "interface_descriptors") ≡ some vs
    → read_interfaces vs ≡ ok is
    → AreDistinct is
    → HaveSome is
    → self.configuration_descriptor.b_num_interfaces ≡ length is
    → handle_get_configuration_descriptor self r ≡ (
        if r.w_length == 9
        then ok (configuration_bytes self.configuration_descriptor)
        else if r.w_length == 9 + interfaces_size is
        then ok (configuration_bytes self.configuration_descriptor ++ interfaces_wire is)
        else err check_failed)
configuration_request_lem config self r vs is e listed read distinct filled count =
    let (is', read', same, holds) = interfaces_lem config self vs e listed in
    let one : is' ≡ is = cc in
    let own : Holds self.endpoint_descriptors (λ j. endpoints_under j is) =
      λ number. holds number ∙ ap (λ (x : Interfaces). found (endpoints_under number x)) one in
    handle_get_configuration_descriptor_lem self r is []
      (same ∙ ap just_interfaces one ∙ sym (append-nil (just_interfaces is))) count
      (Holds-HasEndpoints self.endpoint_descriptors is own distinct filled)

-- Descriptors that announce their own size, with every field in the bytes that its struct has for it.
pub record IsWellFormed (self : UsbDescriptors) : Type 0 where
  pub device : IsDevice self.device_descriptor
  pub configuration : IsConfiguration self.configuration_descriptor
  pub qualifier : IsQualifier self.qualifier_descriptor
  pub interfaces : All IsInterface self.interface_descriptors
  pub endpoints :
      (number : ℕ) (es : List UsbEndpointDescriptor)
      → find_endpoints number self.endpoint_descriptors ≡ some es
      → All IsEndpoint es

found-All :
    (es fs : List UsbEndpointDescriptor)
    → All IsEndpoint es
    → found es ≡ some fs
    → All IsEndpoint fs
found-All [] fs h e = absurd (cc)
found-All (d ∷ es) fs h e = let same : d ∷ es ≡ fs = cc in subst (All IsEndpoint) same h

interface_list :
    (config : Value) (self : UsbDescriptors)
    → IsLoaded config self
    → (vs : List Value) × (find_list config (codes "interface_descriptors") ≡ some vs)
unfolding get_interface_descriptors
interface_list config self loaded =
    let (vs, there, _) =
      bind-eq-ok (or_check (find_list config (codes "interface_descriptors"))) _
        loaded.interfaces in
    (vs, ground (arith, there))

-- Whatever the configuration: descriptors that load are well formed. Every descriptor announces the size
-- that its struct has, and every field fits into its bytes.
pub create_usb_descriptors-IsWellFormed :
    (config : Value) (self : UsbDescriptors)
    → create_usb_descriptors config ≡ ok self
    → IsWellFormed self
create_usb_descriptors-IsWellFormed config self e =
    let loaded = create_usb_descriptors-IsLoaded config self e in
    let (vs, listed) = interface_list config self loaded in
    let (list, _) = interface_lists config self vs loaded listed in
    let (is, read, _, holds) = interfaces_lem config self vs e listed in
    let all =
      Ensures-ok (AllUnder IsEndpoint) (read_interfaces vs) is
        (read_interfaces-All IsEndpoint get_endpoint_descriptor-IsEndpoint vs) read in
    record {
      device = Ensures-ok IsDevice _ _ (get_device_descriptor-IsDevice config) loaded.device;
      configuration =
          Ensures-ok IsConfiguration _ _ (get_configuration_descriptor-IsConfiguration config)
            loaded.configuration;
      qualifier =
          Ensures-ok IsQualifier _ _ (get_device_qualifier_descriptor-IsQualifier config)
            loaded.qualifier;
      interfaces =
          Ensures-ok (All IsInterface) _ _
            (interfaces_of-All IsInterface get_interface_descriptor-IsInterface vs) list;
      endpoints = λ number es there.
          found-All (endpoints_under number is) es (all number) (sym (holds number) ∙ there);
    }
