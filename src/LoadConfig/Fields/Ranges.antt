-- ===== src/LoadConfig/Fields/Ranges.antt =====
-- What the configuration's numbers are checked for.
use virtual_usb_printer.Common.{
  ℕ, ◌^◌, ◌<◌, ◌≡◌, not, ◌||◌, List, arith, ltb, leb, ◌==◌, All, Result, ◌>>=◌, check, or_check,
  Ensures, Ensures-bind, Ensures-read, Bytes, codes,
}
use virtual_usb_printer.Json.{Value, is_dict, find_int, find_dict}
use virtual_usb_printer.Descriptors.{
  UsbDeviceDescriptor, UsbConfigurationDescriptor, UsbDeviceQualifierDescriptor,
  UsbInterfaceDescriptor, UsbEndpointDescriptor, device_fields, configuration_fields,
  qualifier_fields, interface_fields, endpoint_fields,
}
use virtual_usb_printer.LoadConfig.Fields.{
  get_byte_value, get_word_value, get_device_descriptor, get_configuration_descriptor,
  get_device_qualifier_descriptor, get_interface_descriptor, get_endpoint_descriptor,
}

-- Every field fits into the bytes that the struct has for it.
abbrev pub FitFields : List (ℕ × ℕ) → Type 0
FitFields = All (λ field. field.1 < 256 ^ field.0)

byte_bound : (config : Value) (path : Bytes) → Ensures (λ b. b < 256) (get_byte_value config path)
unfolding get_byte_value
byte_bound config path =
    Ensures-read (λ b. b < 256) (check (is_dict config)) _
      λ _ _.
        Ensures-read (λ b. b < 256) (or_check (find_int config path)) _
          λ val _.
            Ensures-read (λ b. b < 256) (check (not (ltb val (2 ^ 31)) || leb val 255)) _
              λ _ _. omega arith

word_bound : (config : Value) (path : Bytes) → Ensures (λ w. w < 65536) (get_word_value config path)
unfolding get_word_value
word_bound config path =
    Ensures-read (λ w. w < 65536) (check (is_dict config)) _
      λ _ _.
        Ensures-read (λ w. w < 65536) (or_check (find_int config path)) _
          λ val _.
            Ensures-read (λ w. w < 65536) (check (not (ltb val (2 ^ 31)) || leb val 65535)) _
              λ _ _. omega arith

module _ {A : Type 0} (P : A → Type 0) (config : Value) (path : Bytes) (k : ℕ → Result A) where
  with_byte : ((b : ℕ) → b < 256 → Ensures P (k b)) → Ensures P (get_byte_value config path >>= k)
  with_byte = Ensures-bind (λ b. b < 256) P (get_byte_value config path) k (byte_bound config path)

  with_word : ((w : ℕ) → w < 65536 → Ensures P (k w)) → Ensures P (get_word_value config path >>= k)
  with_word =
      Ensures-bind (λ w. w < 65536) P (get_word_value config path) k (word_bound config path)

-- A device descriptor that announces its own 18 bytes.
abbrev pub IsDevice : UsbDeviceDescriptor → Type 0
IsDevice d = (d.b_length ≡ 18) × FitFields (device_fields d)

pub get_device_descriptor-IsDevice :
    (config : Value) → Ensures IsDevice (get_device_descriptor config)
unfolding get_device_descriptor
get_device_descriptor-IsDevice config =
    Ensures-read IsDevice (or_check (find_dict config (codes "device_descriptor"))) _ λ d _.
      with_byte IsDevice d (codes "bLength") _ λ f0 h0.
        Ensures-read IsDevice (check (f0 == 18)) _ λ _ e.
          with_byte IsDevice d (codes "bDescriptorType") _ λ f1 h1.
            with_word IsDevice d (codes "bcdUSB") _ λ f2 h2.
              with_byte IsDevice d (codes "bDeviceClass") _ λ f3 h3.
                with_byte IsDevice d (codes "bDeviceSubClass") _ λ f4 h4.
                  with_byte IsDevice d (codes "bDeviceProtocol") _ λ f5 h5.
                    with_byte IsDevice d (codes "bMaxPacketSize0") _ λ f6 h6.
                      with_word IsDevice d (codes "idVendor") _ λ f7 h7.
                        with_word IsDevice d (codes "idProduct") _ λ f8 h8.
                          with_word IsDevice d (codes "bcdDevice") _ λ f9 h9.
                            with_byte IsDevice d (codes "iManufacturer") _ λ f10 h10.
                              with_byte IsDevice d (codes "iProduct") _ λ f11 h11.
                                with_byte IsDevice d (codes "iSerialNumber") _ λ f12 h12.
                                  with_byte IsDevice d (codes "bNumConfigurations") _
                                    λ f13 h13. ground arith

-- A configuration descriptor that announces its own 9 bytes.
abbrev pub IsConfiguration : UsbConfigurationDescriptor → Type 0
IsConfiguration d = (d.b_length ≡ 9) × FitFields (configuration_fields d)

pub get_configuration_descriptor-IsConfiguration :
    (config : Value) → Ensures IsConfiguration (get_configuration_descriptor config)
unfolding get_configuration_descriptor
get_configuration_descriptor-IsConfiguration config =
    Ensures-read IsConfiguration (or_check (find_dict config (codes "configuration_descriptor"))) _
      λ d _. with_byte IsConfiguration d (codes "bLength") _ λ f0 h0.
        Ensures-read IsConfiguration (check (f0 == 9)) _ λ _ e.
          with_byte IsConfiguration d (codes "bDescriptorType") _ λ f1 h1.
            with_word IsConfiguration d (codes "wTotalLength") _ λ f2 h2.
              with_byte IsConfiguration d (codes "bNumInterfaces") _ λ f3 h3.
                with_byte IsConfiguration d (codes "bConfigurationValue") _ λ f4 h4.
                  with_byte IsConfiguration d (codes "iConfiguration") _ λ f5 h5.
                    with_byte IsConfiguration d (codes "bmAttributes") _ λ f6 h6.
                      with_byte IsConfiguration d (codes "bMaxPower") _ λ f7 h7. ground arith

-- A device qualifier descriptor that announces its own 10 bytes.
abbrev pub IsQualifier : UsbDeviceQualifierDescriptor → Type 0
IsQualifier d = (d.b_length ≡ 10) × FitFields (qualifier_fields d)

pub get_device_qualifier_descriptor-IsQualifier :
    (config : Value) → Ensures IsQualifier (get_device_qualifier_descriptor config)
unfolding get_device_qualifier_descriptor
get_device_qualifier_descriptor-IsQualifier config =
    Ensures-read IsQualifier (or_check (find_dict config (codes "device_qualifier_descriptor"))) _
      λ d _. with_byte IsQualifier d (codes "bLength") _ λ f0 h0.
        Ensures-read IsQualifier (check (f0 == 10)) _ λ _ e.
          with_byte IsQualifier d (codes "bDescriptorType") _ λ f1 h1.
            with_word IsQualifier d (codes "bcdUSB") _ λ f2 h2.
              with_byte IsQualifier d (codes "bDeviceClass") _ λ f3 h3.
                with_byte IsQualifier d (codes "bDeviceSubClass") _ λ f4 h4.
                  with_byte IsQualifier d (codes "bDeviceProtocol") _ λ f5 h5.
                    with_byte IsQualifier d (codes "bMaxPacketSize0") _ λ f6 h6.
                      with_byte IsQualifier d (codes "bNumConfigurations") _
                        λ f7 h7. with_byte IsQualifier d (codes "bReserved") _ λ f8 h8. ground arith

-- An interface descriptor that announces its own 9 bytes.
abbrev pub IsInterface : UsbInterfaceDescriptor → Type 0
IsInterface d = (d.b_length ≡ 9) × FitFields (interface_fields d)

pub get_interface_descriptor-IsInterface :
    (config : Value) → Ensures IsInterface (get_interface_descriptor config)
unfolding get_interface_descriptor
get_interface_descriptor-IsInterface config =
    with_byte IsInterface config (codes "bLength") _ λ f0 h0.
      Ensures-read IsInterface (check (f0 == 9)) _ λ _ e.
        with_byte IsInterface config (codes "bDescriptorType") _ λ f1 h1.
          with_byte IsInterface config (codes "bInterfaceNumber") _ λ f2 h2.
            with_byte IsInterface config (codes "bAlternateSetting") _ λ f3 h3.
              with_byte IsInterface config (codes "bNumEndpoints") _ λ f4 h4.
                with_byte IsInterface config (codes "bInterfaceClass") _ λ f5 h5.
                  with_byte IsInterface config (codes "bInterfaceSubClass") _ λ f6 h6.
                    with_byte IsInterface config (codes "bInterfaceProtocol") _ λ f7 h7.
                      with_byte IsInterface config (codes "iInterface") _ λ f8 h8. ground arith

-- An endpoint descriptor that announces its own 7 bytes.
abbrev pub IsEndpoint : UsbEndpointDescriptor → Type 0
IsEndpoint d = (d.b_length ≡ 7) × FitFields (endpoint_fields d)

pub get_endpoint_descriptor-IsEndpoint :
    (config : Value) → Ensures IsEndpoint (get_endpoint_descriptor config)
unfolding get_endpoint_descriptor
get_endpoint_descriptor-IsEndpoint config = with_byte IsEndpoint config (codes "bLength") _ λ f0 h0.
    Ensures-read IsEndpoint (check (f0 == 7)) _ λ _ e.
      with_byte IsEndpoint config (codes "bDescriptorType") _ λ f1 h1.
        with_byte IsEndpoint config (codes "bEndpointAddress") _ λ f2 h2.
          with_byte IsEndpoint config (codes "bmAttributes") _ λ f3 h3.
            with_word IsEndpoint config (codes "wMaxPacketSize") _
              λ f4 h4. with_byte IsEndpoint config (codes "bInterval") _ λ f5 h5. ground arith
