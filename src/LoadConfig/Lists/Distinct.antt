-- ===== src/LoadConfig/Lists/Distinct.antt =====
-- Interfaces with distinct numbers.
use virtual_usb_printer.Common.{
  ℕ, ◌≡◌, refl, ap, ◌∙◌, true, false, some, List, [], ◌∷◌, ◌++◌, append-nil, arith, ◌==◌, All,
  length, ◌<◌,
}
use virtual_usb_printer.Descriptors.{UsbInterfaceDescriptor, UsbEndpointDescriptor}
use virtual_usb_printer.Printer.Control.Descriptor.{Interfaces, HasEndpoints}
use virtual_usb_printer.LoadConfig.Lists.{EndpointMap}
use virtual_usb_printer.LoadConfig.Lists.Endpoints.{endpoints_under, found, Holds}

-- Distinct numbers: the interfaces under a number are one.
abbrev pub IsAbsent : ℕ → Interfaces → Type 0
IsAbsent number [] = Unit {0}
IsAbsent number ((i, es) ∷ is) = (number == i.b_interface_number ≡ false) × IsAbsent number is

abbrev pub AreDistinct : Interfaces → Type 0
AreDistinct [] = Unit {0}
AreDistinct ((i, es) ∷ is) = IsAbsent i.b_interface_number is × AreDistinct is

-- Every interface has an endpoint.
abbrev pub HaveSome : Interfaces → Type 0
HaveSome = All (λ i. 0 < length (i.1))

absent_lem : (number : ℕ) (is : Interfaces) → IsAbsent number is → endpoints_under number is ≡ []
absent_lem number [] h = refl
absent_lem number ((i, es) ∷ is) h = rw (h.0) (absent_lem number is h.1)

found-some : (es : List UsbEndpointDescriptor) → 0 < length es → found es ≡ some es
found-some [] h = absurd (omega arith)
found-some (e ∷ es) h = refl

-- Behind an interface with another number.
behind :
    (i : UsbInterfaceDescriptor) (es : List UsbEndpointDescriptor) (is more : Interfaces)
    → IsAbsent i.b_interface_number more
    → All (λ x. endpoints_under (x.0).b_interface_number is ≡ x.1) more
    → All (λ x. endpoints_under (x.0).b_interface_number ((i, es) ∷ is) ≡ x.1) more
behind i es is [] a h = tt
behind i es is ((j, fs) ∷ more) a h =
    let other : j.b_interface_number == i.b_interface_number ≡ false = ground (arith, a.0) in
    (rw other (h.0), behind i es is more a.1 h.1)

own_endpoints :
    (is : Interfaces)
    → AreDistinct is
    → All (λ x. endpoints_under (x.0).b_interface_number is ≡ x.1) is
own_endpoints [] d = tt
own_endpoints ((i, es) ∷ is) d =
    let self : i.b_interface_number == i.b_interface_number ≡ true = ground arith in
    (
      rw self (ap (◌++◌ es) (absent_lem i.b_interface_number is d.0) ∙ append-nil es),
      behind i es is is d.0 (own_endpoints is d.1),
    )

endpoints_found :
    (map : EndpointMap) (full is : Interfaces)
    → Holds map (λ j. endpoints_under j full)
    → HaveSome is
    → All (λ x. endpoints_under (x.0).b_interface_number full ≡ x.1) is
    → HasEndpoints map is
endpoints_found map full [] h s o = tt
endpoints_found map full ((i, es) ∷ is) h s o = (
  h i.b_interface_number ∙ ap found (o.0) ∙ found-some es (s.0),
  endpoints_found map full is h s.1 o.1,
)

-- With distinct numbers, and an endpoint for each interface, the map has for each interface its own.
pub Holds-HasEndpoints :
    (map : EndpointMap) (is : Interfaces)
    → Holds map (λ j. endpoints_under j is)
    → AreDistinct is
    → HaveSome is
    → HasEndpoints map is
Holds-HasEndpoints map is h d s = endpoints_found map is is h s (own_endpoints is d)
