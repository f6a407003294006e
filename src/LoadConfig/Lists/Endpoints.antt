-- ===== src/LoadConfig/Lists/Endpoints.antt =====
-- The map of endpoints against the interfaces, each read with its own endpoints.
use virtual_usb_printer.Common.{
  ℕ, ◌≡◌, refl, sym, ap, ◌∙◌, inl, inr, Bool, true, false, Option, none, some, List, [], ◌∷◌, ◌++◌,
  append-nil, append_assoc, arith, ◌==◌, if◌then◌else◌, Bool-cases, Result, ok, ◌>>=◌, ◌>>◌, check,
  or_check, bind-eq-ok, check-eq-ok, codes,
}
use virtual_usb_printer.Json.{Value, is_dict, find_list}
use virtual_usb_printer.Descriptors.{UsbInterfaceDescriptor, UsbEndpointDescriptor}
use virtual_usb_printer.Printer.Control.{find_endpoints}
use virtual_usb_printer.Printer.Control.Descriptor.{Interfaces, just_interfaces}
use virtual_usb_printer.LoadConfig.Fields.{get_interface_descriptor, get_endpoint_descriptor}
use virtual_usb_printer.LoadConfig.Lists.{
  EndpointMap, interfaces_of, set_endpoints, or_empty, push_endpoint, push_endpoints,
  endpoint_map_of,
}

-- The endpoints of one interface.
unfoldable pub read_endpoints : List Value → Result (List UsbEndpointDescriptor)
read_endpoints [] = ok []
read_endpoints (v ∷ vs) = do
  check (is_dict v)
  e ← get_endpoint_descriptor v
  es ← read_endpoints vs
  ok (e ∷ es)

-- The interfaces, each with its endpoints.
unfoldable pub read_interfaces : List Value → Result Interfaces
unfolding read_endpoints
read_interfaces [] = ok []
read_interfaces (v ∷ vs) = do
  check (is_dict v)
  i ← get_interface_descriptor v
  list ← or_check (find_list v (codes "endpoints"))
  es ← read_endpoints list
  is ← read_interfaces vs
  ok ((i, es) ∷ is)

-- All endpoints of the interfaces with the number, in their order.
abbrev pub endpoints_under : ℕ → Interfaces → List UsbEndpointDescriptor
endpoints_under number [] = []
endpoints_under number ((i, es) ∷ is) =
    (if number == i.b_interface_number then es else []) ++ endpoints_under number is

-- What a map finds that has no empty entries.
abbrev pub found : List UsbEndpointDescriptor → Option (List UsbEndpointDescriptor)
found [] = none
found (e ∷ es) = some (e ∷ es)

abbrev pub Holds : EndpointMap → (ℕ → List UsbEndpointDescriptor) → Type 0
Holds map held = (number : ℕ) → find_endpoints number map ≡ found (held number)

found-append :
    (es : List UsbEndpointDescriptor) (e : UsbEndpointDescriptor)
    → found (es ++ (e ∷ [])) ≡ some (es ++ (e ∷ []))
found-append [] e = refl
found-append (d ∷ es) e = refl

or_empty-found : (es : List UsbEndpointDescriptor) → or_empty (found es) ≡ es
or_empty-found [] = refl
or_empty-found (e ∷ es) = refl

find-set :
    (j n : ℕ) (es : List UsbEndpointDescriptor) (map : EndpointMap)
    → find_endpoints j (set_endpoints n es map) ≡ (if j == n then some es else find_endpoints j map)
unfolding find_endpoints set_endpoints
find-set j n es [] = ground arith
find-set j n es ((i, old) ∷ map) = ground (arith, find-set j n es map)

push_endpoint-Holds :
    (map : EndpointMap) (held : ℕ → List UsbEndpointDescriptor) (n : ℕ) (e : UsbEndpointDescriptor)
    → Holds map held
    → Holds (push_endpoint n e map) (λ j. held j ++ (if j == n then e ∷ [] else []))
unfolding push_endpoint
push_endpoint-Holds map held n e h j =
    let grown : or_empty (find_endpoints n map) ≡ held n =
      ap or_empty (h n) ∙ or_empty-found (held n) in
    let step = find-set j n (or_empty (find_endpoints n map) ++ (e ∷ [])) map in
    elim (Bool-cases (j == n)) [
      | inl same ↦
          let n' : n ≡ j = ground (arith, same) in
          let all : or_empty (find_endpoints n map) ++ (e ∷ []) ≡ held j ++ (e ∷ []) =
            ap (λ (x : List UsbEndpointDescriptor). x ++ (e ∷ [])) (grown ∙ ap held n') in
          step ∙ rw same (ap some all ∙ sym (found-append (held j) e))
      | inr other ↦ step ∙ rw other (h j ∙ ap found (sym (append-nil (held j))))
    ]

Holds-eq :
    (map : EndpointMap) (held held' : ℕ → List UsbEndpointDescriptor)
    → ((j : ℕ) → held j ≡ held' j)
    → Holds map held
    → Holds map held'
Holds-eq map held held' e h j = h j ∙ ap found (e j)

-- One endpoint, and then others, under the same test.
one_and_more :
    (b : Bool) (held es : List UsbEndpointDescriptor) (d : UsbEndpointDescriptor)
    → (held ++ (if b then d ∷ [] else [])) ++ (if b then es else [])
      ≡ held ++ (if b then d ∷ es else [])
one_and_more true held es d = append_assoc held (d ∷ []) es
one_and_more false held es d = append-nil (held ++ [])

no_more : (b : Bool) (held : List UsbEndpointDescriptor) → held ≡ held ++ (if b then [] else [])
no_more true held = sym (append-nil held)
no_more false held = sym (append-nil held)

read_endpoint :
    (v : Value) (vs : List Value) {d : UsbEndpointDescriptor} {es : List UsbEndpointDescriptor}
    → is_dict v ≡ true
    → get_endpoint_descriptor v ≡ ok d
    → read_endpoints vs ≡ ok es
    → read_endpoints (v ∷ vs) ≡ ok (d ∷ es)
unfolding read_endpoints
read_endpoint v vs c got read = rw (c, got, read) refl

read_interface :
    (v : Value) (vs list : List Value) {i : UsbInterfaceDescriptor}
    {es : List UsbEndpointDescriptor} {is : Interfaces}
    → is_dict v ≡ true
    → get_interface_descriptor v ≡ ok i
    → or_check (find_list v (codes "endpoints")) ≡ ok list
    → read_endpoints list ≡ ok es
    → read_interfaces vs ≡ ok is
    → read_interfaces (v ∷ vs) ≡ ok ((i, es) ∷ is)
unfolding read_interfaces
read_interface v vs list c got there read others = rw (c, got, there, read, others) refl

push_endpoints-Holds :
    (vs : List Value) (n : ℕ) (map map' : EndpointMap) (held : ℕ → List UsbEndpointDescriptor)
    → Holds map held
    → push_endpoints n vs map ≡ ok map'
    → (es : List UsbEndpointDescriptor) × (read_endpoints vs ≡ ok es)
      × Holds map' (λ j. held j ++ (if j == n then es else []))
unfolding push_endpoints read_endpoints
push_endpoints-Holds [] n map map' held h e =
    let same : map ≡ map' = cc in
    ([], refl, rw (← same) (Holds-eq map held _ (λ j. no_more (j == n) (held j)) h))
push_endpoints-Holds (v ∷ vs) n map map' held h e =
    let (c, e1) = check-eq-ok (is_dict v) _ e in
    let (d, got, e2) = bind-eq-ok (get_endpoint_descriptor v) _ e1 in
    let one = push_endpoint-Holds map held n d h in
    let (es, read, all) = push_endpoints-Holds vs n (push_endpoint n d map) map' _ one e2 in
    (
      d ∷ es,
      read_endpoint v vs c got read,
      Holds-eq map' _ _ (λ j. one_and_more (j == n) (held j) es d) all,
    )

endpoint_map_of-Holds :
    (vs : List Value) (map map' : EndpointMap) (held : ℕ → List UsbEndpointDescriptor)
    → Holds map held
    → endpoint_map_of vs map ≡ ok map'
    → (is : Interfaces) × (read_interfaces vs ≡ ok is)
      × Holds map' (λ j. held j ++ endpoints_under j is)
unfolding endpoint_map_of read_interfaces
endpoint_map_of-Holds [] map map' held h e =
    let same : map ≡ map' = cc in
    ([], refl, rw (← same) (Holds-eq map held _ (λ j. sym (append-nil (held j))) h))
endpoint_map_of-Holds (v ∷ vs) map map' held h e =
    let (c, e1) = check-eq-ok (is_dict v) _ e in
    let (i, got, e2) = bind-eq-ok (get_interface_descriptor v) _ e1 in
    let (list, there, e3) = bind-eq-ok (or_check (find_list v (codes "endpoints"))) _ e2 in
    let (filled, pushed, e4) = bind-eq-ok (push_endpoints i.b_interface_number list map) _ e3 in
    let (es, read, mine) =
      push_endpoints-Holds list i.b_interface_number map filled held h pushed in
    let (is, others, all) = endpoint_map_of-Holds vs filled map' _ mine e4 in
    (
      (i, es) ∷ is,
      read_interface v vs list c got there read others,
      Holds-eq map' _ _
          (λ j.
            append_assoc (held j) (if j == i.b_interface_number then es else [])
              (endpoints_under j is))
          all,
    )

-- The two loops over the interfaces read the same ones.
pub interfaces_of-read_interfaces :
    (vs : List Value) (l : List UsbInterfaceDescriptor) (is : Interfaces)
    → interfaces_of vs ≡ ok l
    → read_interfaces vs ≡ ok is
    → l ≡ just_interfaces is
unfolding interfaces_of read_interfaces
interfaces_of-read_interfaces [] l is e r =
    let a : [] ≡ l = cc in let b : [] ≡ is = cc in sym a ∙ ap just_interfaces b
interfaces_of-read_interfaces (v ∷ vs) l is e r =
    let (c, e1) = check-eq-ok (is_dict v) _ e in
    let (i, got, e2) = bind-eq-ok (get_interface_descriptor v) _ e1 in
    let (rest, more, e3) = bind-eq-ok (interfaces_of vs) _ e2 in
    let (c', r1) = check-eq-ok (is_dict v) _ r in
    let (i', got', r2) = bind-eq-ok (get_interface_descriptor v) _ r1 in
    let (list, there, r3) = bind-eq-ok (or_check (find_list v (codes "endpoints"))) _ r2 in
    let (es, read, r4) = bind-eq-ok (read_endpoints list) _ r3 in
    let (rest', more', r5) = bind-eq-ok (read_interfaces vs) _ r4 in
    let same : i ≡ i' = cc in
    let a : i ∷ rest ≡ l = cc in
    let b : (i', es) ∷ rest' ≡ is = cc in
    sym a
    ∙ (λ k. same k ∷ interfaces_of-read_interfaces vs rest rest' more more' k)
    ∙ ap just_interfaces b

-- The map of a whole list of interfaces.
pub endpoint_map_of_lem :
    (vs : List Value) (map : EndpointMap)
    → endpoint_map_of vs [] ≡ ok map
    → (is : Interfaces) × (read_interfaces vs ≡ ok is) × Holds map (λ j. endpoints_under j is)
unfolding find_endpoints
endpoint_map_of_lem vs map e = endpoint_map_of-Holds vs [] map (λ _. []) (λ _. refl) e
