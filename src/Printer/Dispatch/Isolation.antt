-- ===== src/Printer/Dispatch/Isolation.antt =====
-- A request touches no interface but the one of its endpoint.
use virtual_usb_printer.Common.{
  ℕ, zero, suc, ◌≡◌, refl, sym, ap, subst, ◌∙◌, ◌≢◌, inl, inr, Option, none, some, List, [], ◌∷◌,
  ◌++◌, arith, ◌==◌, Bool-cases, length, get_elem?, set, Result, ok, bind-eq-ok, Bytes,
}
use virtual_usb_printer.BaseStrings.{BaseStrings}
use virtual_usb_printer.SmartBuffer.{SmartBuffer}
use virtual_usb_printer.Usbip.{UsbipCmdSubmit}
use virtual_usb_printer.Printer.Interface.{InterfaceManager, get_interface_manager, interface_index}
use virtual_usb_printer.Printer.Bulk.{bulk_in, handle_bulk_in_request}
use virtual_usb_printer.Printer.Control.{handle_usb_control}
use virtual_usb_printer.Printer.Data.{
  EsclService, UsbPrinter, generate_http_response, start_message, is_complete, take_payload,
  finish_message, handle_part, handle_http_data,
}
use virtual_usb_printer.Printer.Data.Receive.{get_interface_manager-ok}
use virtual_usb_printer.Printer.Dispatch.{
  Served, serve_control, serve_bulk_in, handle_ipp_usb_data, handle_usb_data, handle_usb_request,
  is_ipp_usb,
}
use virtual_usb_printer.Printer.Dispatch.Invariant.{first, second}

-- The managers behind a request on the endpoint are those before it, but for the one of the endpoint.
unfoldable pub IsIsolated : List InterfaceManager → ℕ → List InterfaceManager → Type 0
IsIsolated before ep after =
    (j : ℕ) → interface_index (length before) ep ≢ ok j → get_elem? after j ≡ get_elem? before j

get_elem?-set :
    (managers : List InterfaceManager) (i j : ℕ) (im : InterfaceManager)
    → i ≢ j
    → get_elem? (set managers i im) j ≡ get_elem? managers j
get_elem?-set [] i j im n = refl
get_elem?-set (m ∷ managers) zero zero im n = absurd (n refl)
get_elem?-set (m ∷ managers) zero (suc j) im n = refl
get_elem?-set (m ∷ managers) (suc i) zero im n = refl
get_elem?-set (m ∷ managers) (suc i) (suc j) im n =
    get_elem?-set managers i j im (λ e. n (ap suc e))

unchanged-IsIsolated :
    (before after : List InterfaceManager) (ep : ℕ) → before ≡ after → IsIsolated before ep after
unfolding IsIsolated
unchanged-IsIsolated before after ep e = λ j n. ap (λ x. get_elem? x j) (sym e)

set-IsIsolated :
    (before after : List InterfaceManager) (ep index : ℕ) (im new : InterfaceManager)
    → get_interface_manager before ep ≡ ok (index, im)
    → set before index new ≡ after
    → IsIsolated before ep after
unfolding IsIsolated
set-IsIsolated before after ep index im new found e = λ j n.
    ap (λ x. get_elem? x j) (sym e)
    ∙ get_elem?-set before index j new
        (λ same. n ((get_interface_manager-ok before ep index im found).0 ∙ ap ok same))

handle_bulk_in_request-IsIsolated :
    (c : UsbipCmdSubmit) (before after : List InterfaceManager) (sent : Bytes)
    → handle_bulk_in_request c before ≡ ok (sent, after)
    → IsIsolated before c.header.ep after
unfolding handle_bulk_in_request
handle_bulk_in_request-IsIsolated c before after sent e =
    let ((index, im), found, e1) = bind-eq-ok (get_interface_manager before c.header.ep) _ e in
    let ((bytes, new), _, e2) = bind-eq-ok (bulk_in c im) _ e1 in
    set-IsIsolated before after c.header.ep index im new found (second e2)

module _ {E : Type 0} (base : BaseStrings) (escl : EsclService E) where
  abbrev managers_of : UsbPrinter E → List InterfaceManager
  managers_of self = self.interface_managers

  handle_part-IsIsolated :
      (self after : UsbPrinter E) (ep index : ℕ) (found : InterfaceManager)
      (started : Option (InterfaceManager × SmartBuffer)) (recorded : Option Bytes)
      → get_interface_manager self.interface_managers ep ≡ ok (index, found)
      → handle_part base escl self index started ≡ ok (after, recorded)
      → IsIsolated self.interface_managers ep after.interface_managers
  unfolding handle_part finish_message
  handle_part-IsIsolated self after ep index found none recorded g e =
      unchanged-IsIsolated _ _ ep (ap managers_of (first e))
  handle_part-IsIsolated self after ep index found (some (im, part)) recorded g e =
      let added : InterfaceManager = record im { message = im.message ++ part } in
      elim (Bool-cases (is_complete base escl added part)) [
        | inl done ↦
            let finished : finish_message base escl self index added ≡ ok (after, recorded) =
              ground (arith, done, e) in
            let (payload, _, e1) = bind-eq-ok (take_payload base escl added) _ finished in
            let (generated, _, e2) =
              bind-eq-ok (generate_http_response base escl self added.request_header payload) _
                e1 in
            set-IsIsolated _ _ ep index found _ g (ap managers_of (first e2))
        | inr open_ ↦
            let stored : ◌≡◌ {A = Result (UsbPrinter E × Option Bytes)}
                (ok (
                  record self { interface_managers = set self.interface_managers index added },
                  none,
                ))
                (ok (after, recorded)) =
              ground (arith, open_, e) in
            set-IsIsolated _ _ ep index found added g (ap managers_of (first stored))
      ]

  handle_http_data-IsIsolated :
      (self after : UsbPrinter E) (ep : ℕ) (message : SmartBuffer) (recorded : Option Bytes)
      → handle_http_data base escl self ep message ≡ ok (after, recorded)
      → IsIsolated self.interface_managers ep after.interface_managers
  unfolding handle_http_data
  handle_http_data-IsIsolated self after ep message recorded e =
      let ((index, im), found, e1) =
        bind-eq-ok (get_interface_manager self.interface_managers ep) _ e in
      let (started, _, e2) = bind-eq-ok (start_message base escl im message) _ e1 in
      handle_part-IsIsolated self after ep index im started recorded found e2

  abbrev managers_behind : Served E → List InterfaceManager
  managers_behind served = served.printer.interface_managers

  same_served : (a b : Served E) → ◌≡◌ {A = Result (Served E)} (ok a) (ok b) → a ≡ b
  same_served a b e = cc

  -- A request changes no interface but the one that its endpoint belongs to.
  pub handle_usb_request-IsIsolated :
      (self : UsbPrinter E) (c : UsbipCmdSubmit) (received : SmartBuffer) (served : Served E)
      → handle_usb_request base escl self c received ≡ ok served
      → IsIsolated self.interface_managers c.header.ep served.printer.interface_managers
  unfolding handle_usb_request serve_control serve_bulk_in handle_ipp_usb_data handle_usb_data
  handle_usb_request-IsIsolated self c received served e = elim (Bool-cases (c.header.ep == 0)) [
    | inl control ↦
        let run : serve_control self c ≡ ok served = ground (arith, control, e) in
        let (_, _, e1) = bind-eq-ok (handle_usb_control self.usb_descriptors c) _ run in
        unchanged-IsIsolated _ _ c.header.ep (ap managers_behind (same_served _ served e1))
    | inr other ↦ elim (Bool-cases (c.header.direction == 1)) [
      | inl in_ ↦
          let run : serve_bulk_in self c ≡ ok served = ground (arith, other, in_, e) in
          let ((sent, new), done, e1) =
            bind-eq-ok (handle_bulk_in_request c self.interface_managers) _ run in
          subst (IsIsolated self.interface_managers c.header.ep)
            (ap managers_behind (same_served _ served e1))
            (handle_bulk_in_request-IsIsolated c self.interface_managers new sent done)
      | inr out ↦ elim (Bool-cases (is_ipp_usb self)) [
        | inl ipp ↦
            let run : handle_ipp_usb_data base escl self c received ≡ ok served =
              ground (arith, other, out, ipp, e) in
            let ((new, recorded), done, e1) =
              bind-eq-ok (handle_http_data base escl self c.header.ep received) _ run in
            subst (IsIsolated self.interface_managers c.header.ep)
              (ap managers_behind (same_served _ served e1))
              (handle_http_data-IsIsolated self new c.header.ep received recorded done)
        | inr plain ↦
            let run : ◌≡◌ {A = Result (Served E)} (ok (handle_usb_data self c received))
                (ok served) =
              ground (arith, other, out, plain, e) in
            unchanged-IsIsolated _ _ c.header.ep (ap managers_behind (same_served _ served run))
      ]
    ]
  ]
