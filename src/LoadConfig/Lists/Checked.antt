-- ===== src/LoadConfig/Lists/Checked.antt =====
-- What holds of every interface and endpoint that is read.
use virtual_usb_printer.Common.{
  ℕ, Bool, true, false, List, [], ◌∷◌, ◌==◌, if◌then◌else◌, check, or_check, Ensures, Ensures-bind,
  Ensures-read, All, All-append, codes,
}
use virtual_usb_printer.Json.{Value, is_dict, find_list}
use virtual_usb_printer.Descriptors.{UsbInterfaceDescriptor, UsbEndpointDescriptor}
use virtual_usb_printer.Printer.Control.Descriptor.{Interfaces}
use virtual_usb_printer.LoadConfig.Fields.{get_interface_descriptor, get_endpoint_descriptor}
use virtual_usb_printer.LoadConfig.Lists.{interfaces_of}
use virtual_usb_printer.LoadConfig.Lists.Endpoints.{
  read_endpoints, read_interfaces, endpoints_under,
}

-- What is read of one endpoint holds of all.
read_endpoints-All :
    (P : UsbEndpointDescriptor → Type 0)
    → ((v : Value) → Ensures P (get_endpoint_descriptor v))
    → (vs : List Value) → Ensures (All P) (read_endpoints vs)
unfolding read_endpoints
read_endpoints-All P h [] = tt
read_endpoints-All P h (v ∷ vs) = Ensures-read (All P) (check (is_dict v)) _ λ _ _.
    Ensures-bind P (All P) (get_endpoint_descriptor v) _ (h v) λ e p.
      Ensures-bind (All P) (All P) (read_endpoints vs) _ (read_endpoints-All P h vs)
        λ es ps. (p, ps)

abbrev pub AllUnder : (UsbEndpointDescriptor → Type 0) → Interfaces → Type 0
AllUnder P is = (number : ℕ) → All P (endpoints_under number is)

All_if :
    (P : UsbEndpointDescriptor → Type 0) (b : Bool) (es : List UsbEndpointDescriptor)
    → All P es
    → All P (if b then es else [])
All_if P true es h = h
All_if P false es h = tt

pub read_interfaces-All :
    (P : UsbEndpointDescriptor → Type 0)
    → ((v : Value) → Ensures P (get_endpoint_descriptor v))
    → (vs : List Value) → Ensures (AllUnder P) (read_interfaces vs)
unfolding read_interfaces
read_interfaces-All P h [] = λ _. tt
read_interfaces-All P h (v ∷ vs) = Ensures-read (AllUnder P) (check (is_dict v)) _ λ _ _.
    Ensures-read (AllUnder P) (get_interface_descriptor v) _ λ i _.
      Ensures-read (AllUnder P) (or_check (find_list v (codes "endpoints"))) _ λ list _.
        Ensures-bind (All P) (AllUnder P) (read_endpoints list) _ (read_endpoints-All P h list)
          λ es ps.
            Ensures-bind (AllUnder P) (AllUnder P) (read_interfaces vs) _
              (read_interfaces-All P h vs)
              λ is qs. λ number.
                All-append P (if number == i.b_interface_number then es else [])
                  (endpoints_under number is) (All_if P (number == i.b_interface_number) es ps)
                  (qs number)

pub interfaces_of-All :
    (P : UsbInterfaceDescriptor → Type 0)
    → ((v : Value) → Ensures P (get_interface_descriptor v))
    → (vs : List Value) → Ensures (All P) (interfaces_of vs)
unfolding interfaces_of
interfaces_of-All P h [] = tt
interfaces_of-All P h (v ∷ vs) = Ensures-read (All P) (check (is_dict v)) _ λ _ _.
    Ensures-bind P (All P) (get_interface_descriptor v) _ (h v) λ e p.
      Ensures-bind (All P) (All P) (interfaces_of vs) _ (interfaces_of-All P h vs) λ es ps. (p, ps)
