-- ===== src/Printer/Dispatch/Invariant.antt =====
-- What every request keeps.
use virtual_usb_printer.Common.{
  ℕ, zero, suc, ◌≡◌, refl, sym, ap, subst, ◌∙◌, inl, inr, true, false, Option, none, some, List, [],
  ◌∷◌, ◌++◌, arith, ◌==◌, Bool-cases, get_elem?, set, All, Result, ok, bind-eq-ok, Bytes,
}
use virtual_usb_printer.BaseStrings.{BaseStrings}
use virtual_usb_printer.SmartBuffer.{SmartBuffer}
use virtual_usb_printer.Http.Request.{HttpRequest, deserialize}
use virtual_usb_printer.Usbip.{UsbipCmdSubmit}
use virtual_usb_printer.Printer.Interface.{InterfaceManager, queue_message, get_interface_manager}
use virtual_usb_printer.Printer.Bulk.{bulk_in, handle_bulk_in_request}
use virtual_usb_printer.Printer.Bulk.Pieces.{bulk_in_lem, rest_of_queue, asked, bulk_in_empty}
use virtual_usb_printer.Printer.Control.{handle_usb_control}
use virtual_usb_printer.Printer.Data.{
  EsclService, UsbPrinter, generate_http_response, start_message, is_complete, take_payload,
  queue_http_response, finish_message, handle_http_data, handle_part, start_parsed, start_request,
}
use virtual_usb_printer.Printer.Data.Receive.{get_interface_manager-ok}
use virtual_usb_printer.Printer.Dispatch.{
  Served, serve_control, serve_bulk_in, handle_ipp_usb_data, handle_usb_data, handle_usb_request,
  is_ipp_usb,
}

-- An interface that is not receiving a message holds no bytes of one.
unfoldable pub IsReady : InterfaceManager → Type 0
IsReady im = im.receiving_message ≡ false → im.message ≡ []

All-set :
    (managers : List InterfaceManager) (index : ℕ) (im : InterfaceManager)
    → All IsReady managers
    → IsReady im
    → All IsReady (set managers index im)
All-set [] index im h r = tt
All-set (m ∷ managers) zero im h r = (r, h.1)
All-set (m ∷ managers) (suc index) im h r = (h.0, All-set managers index im h.1 r)

All-get :
    (managers : List InterfaceManager) (index : ℕ) (im : InterfaceManager)
    → All IsReady managers
    → get_elem? managers index ≡ some im
    → IsReady im
All-get [] index im h e = absurd (cc)
All-get (m ∷ managers) zero im h e = subst IsReady {x = m} {y = im} (cc) h.0
All-get (m ∷ managers) (suc index) im h e = All-get managers index im h.1 e

pub second :
    {A B : Type 0} {a b : A} {x y : B} → ◌≡◌ {A = Result (A × B)} (ok (a, x)) (ok (b, y)) → x ≡ y
second e = cc

-- A bulk-in request leaves what is being received as it is.
bulk_in-IsReady :
    (c : UsbipCmdSubmit) (im served : InterfaceManager) (sent : Bytes) (queue : List SmartBuffer)
    → im.queue ≡ queue
    → bulk_in c im ≡ ok (sent, served)
    → IsReady im
    → IsReady served
unfolding IsReady
bulk_in-IsReady c im served sent [] q e h =
    subst IsReady {x = im} {y = served} (second (sym (bulk_in_empty c im q) ∙ e)) h
bulk_in-IsReady c im served sent (message ∷ queue) q e h =
    subst IsReady {x = record im { queue = rest_of_queue (asked c) message queue }} {y = served}
      (second (sym (bulk_in_lem c im message queue q) ∙ e)) h

handle_bulk_in_request-IsReady :
    (c : UsbipCmdSubmit) (managers served : List InterfaceManager) (sent : Bytes)
    → handle_bulk_in_request c managers ≡ ok (sent, served)
    → All IsReady managers
    → All IsReady served
unfolding handle_bulk_in_request
handle_bulk_in_request-IsReady c managers served sent e h =
    let ((index, im), found, e1) = bind-eq-ok (get_interface_manager managers c.header.ep) _ e in
    let ((bytes, new), read, e2) = bind-eq-ok (bulk_in c im) _ e1 in
    let (_, at) = get_interface_manager-ok managers c.header.ep index im found in
    subst (All IsReady) (second e2) (
      All-set managers index new h
        (bulk_in-IsReady c im new bytes im.queue refl read (All-get managers index im h at)))

pub first :
    {A B : Type 0} {a b : A} {x y : B} → ◌≡◌ {A = Result (A × B)} (ok (a, x)) (ok (b, y)) → a ≡ b
first e = cc

module _ {E : Type 0} (base : BaseStrings) (escl : EsclService E) where
  start_message-receiving :
      (im started : InterfaceManager) (message part : SmartBuffer)
      → start_message base escl im message ≡ ok (some (started, part))
      → started.receiving_message ≡ true
  unfolding start_message
  start_message-receiving im started message part e = elim (Bool-cases im.receiving_message) [
    | inl busy ↦
        let same : ◌≡◌ {A = Result (Option (InterfaceManager × SmartBuffer))}
            (ok (some (im, message))) (ok (some (started, part))) =
          ground (arith, busy, e) in
        let eq : im ≡ started = cc in
        sym (ap (λ (x : InterfaceManager). x.receiving_message) eq) ∙ busy
    | inr idle ↦
        let e' = rw idle at e in
        let (parsed, _, e1) = bind-eq-ok (deserialize base message) _ e' in from_parsed parsed e1
  ]
    where
      from_parsed :
          (parsed : Option (HttpRequest × SmartBuffer))
          → start_parsed im parsed ≡ ok (some (started, part))
          → started.receiving_message ≡ true
      from_parsed none e1 = absurd (cc)
      from_parsed (some (request, rest)) e1 =
          let eq : start_request im request ≡ started = cc in
          sym (ap (λ (x : InterfaceManager). x.receiving_message) eq)

  finish_message-IsReady :
      (self served : UsbPrinter E) (index : ℕ) (im : InterfaceManager) (recorded : Option Bytes)
      → finish_message base escl self index im ≡ ok (served, recorded)
      → All IsReady self.interface_managers
      → All IsReady served.interface_managers
  unfolding finish_message queue_http_response queue_message IsReady
  finish_message-IsReady self served index im recorded e h =
      let (payload, _, e1) = bind-eq-ok (take_payload base escl im) _ e in
      let (generated, _, e2) =
        bind-eq-ok (generate_http_response base escl self im.request_header payload) _ e1 in
      subst (All IsReady) (ap (λ (x : UsbPrinter E). x.interface_managers) (first e2))
        (All-set self.interface_managers index _ h (λ idle. refl))

  receiving-IsReady : (im : InterfaceManager) → im.receiving_message ≡ true → IsReady im
  unfolding IsReady
  receiving-IsReady im busy idle = absurd (cc)

  handle_part-IsReady :
      (self served : UsbPrinter E) (index : ℕ) (started : Option (InterfaceManager × SmartBuffer))
      (recorded : Option Bytes)
      → handle_part base escl self index started ≡ ok (served, recorded)
      → ((im : InterfaceManager) (part : SmartBuffer)
          → started ≡ some (im, part)
          → im.receiving_message ≡ true)
      → All IsReady self.interface_managers
      → All IsReady served.interface_managers
  unfolding handle_part
  handle_part-IsReady self served index none recorded e r h =
      subst (All IsReady) (ap (λ (x : UsbPrinter E). x.interface_managers) (first e)) h
  handle_part-IsReady self served index (some (im, part)) recorded e r h =
      let added : InterfaceManager = record im { message = im.message ++ part } in
      elim (Bool-cases (is_complete base escl added part)) [
        | inl done ↦
            finish_message-IsReady self served index added recorded (ground (arith, done, e)) h
        | inr open_ ↦
            let stored : ◌≡◌ {A = Result (UsbPrinter E × Option Bytes)}
                (ok (
                  record self { interface_managers = set self.interface_managers index added },
                  none,
                ))
                (ok (served, recorded)) =
              ground (arith, open_, e) in
            subst (All IsReady) (ap (λ (x : UsbPrinter E). x.interface_managers) (first stored)) (
              All-set self.interface_managers index added h
                (receiving-IsReady added (r im part refl)))
      ]

  handle_http_data-IsReady :
      (self served : UsbPrinter E) (ep : ℕ) (message : SmartBuffer) (recorded : Option Bytes)
      → handle_http_data base escl self ep message ≡ ok (served, recorded)
      → All IsReady self.interface_managers
      → All IsReady served.interface_managers
  unfolding handle_http_data
  handle_http_data-IsReady self served ep message recorded e h =
      let ((index, im), found, e1) =
        bind-eq-ok (get_interface_manager self.interface_managers ep) _ e in
      let (started, se, e2) = bind-eq-ok (start_message base escl im message) _ e1 in
      handle_part-IsReady self served index started recorded e2
        (λ now part eq. start_message-receiving im now message part (se ∙ ap ok eq)) h

  managers : Served E → List InterfaceManager
  managers served = served.printer.interface_managers

  ok-eq : (a b : Served E) → ◌≡◌ {A = Result (Served E)} (ok a) (ok b) → a ≡ b
  ok-eq a b e = cc

  serve_control-IsReady :
      (self : UsbPrinter E) (c : UsbipCmdSubmit) (served : Served E)
      → serve_control self c ≡ ok served
      → All IsReady self.interface_managers
      → All IsReady served.printer.interface_managers
  unfolding serve_control managers
  serve_control-IsReady self c served e h =
      let (_, _, e1) = bind-eq-ok (handle_usb_control self.usb_descriptors c) _ e in
      subst (All IsReady) (ap managers (ok-eq _ served e1)) h

  serve_bulk_in-IsReady :
      (self : UsbPrinter E) (c : UsbipCmdSubmit) (served : Served E)
      → serve_bulk_in self c ≡ ok served
      → All IsReady self.interface_managers
      → All IsReady served.printer.interface_managers
  unfolding serve_bulk_in managers
  serve_bulk_in-IsReady self c served e h =
      let ((sent, new), done, e1) =
        bind-eq-ok (handle_bulk_in_request c self.interface_managers) _ e in
      subst (All IsReady) (ap managers (ok-eq _ served e1))
        (handle_bulk_in_request-IsReady c self.interface_managers new sent done h)

  handle_ipp_usb_data-IsReady :
      (self : UsbPrinter E) (c : UsbipCmdSubmit) (received : SmartBuffer) (served : Served E)
      → handle_ipp_usb_data base escl self c received ≡ ok served
      → All IsReady self.interface_managers
      → All IsReady served.printer.interface_managers
  unfolding handle_ipp_usb_data managers
  handle_ipp_usb_data-IsReady self c received served e h =
      let ((new, recorded), done, e1) =
        bind-eq-ok (handle_http_data base escl self c.header.ep received) _ e in
      subst (All IsReady) (ap managers (ok-eq _ served e1))
        (handle_http_data-IsReady self new c.header.ep received recorded done h)

  handle_usb_data-IsReady :
      (self : UsbPrinter E) (c : UsbipCmdSubmit) (received : SmartBuffer) (served : Served E)
      → ◌≡◌ {A = Result (Served E)} (ok (handle_usb_data self c received)) (ok served)
      → All IsReady self.interface_managers
      → All IsReady served.printer.interface_managers
  unfolding handle_usb_data managers
  handle_usb_data-IsReady self c received served e h =
      subst (All IsReady) (ap managers (ok-eq _ served e)) h

  -- No request leaves bytes of a message behind on an interface that is not receiving one.
  pub handle_usb_request-IsReady :
      (self : UsbPrinter E) (c : UsbipCmdSubmit) (received : SmartBuffer) (served : Served E)
      → handle_usb_request base escl self c received ≡ ok served
      → All IsReady self.interface_managers
      → All IsReady served.printer.interface_managers
  unfolding handle_usb_request
  handle_usb_request-IsReady self c received served e h = elim (Bool-cases (c.header.ep == 0)) [
    | inl control ↦ serve_control-IsReady self c served (ground (arith, control, e)) h
    | inr other ↦ elim (Bool-cases (c.header.direction == 1)) [
      | inl in_ ↦ serve_bulk_in-IsReady self c served (ground (arith, other, in_, e)) h
      | inr out ↦ elim (Bool-cases (is_ipp_usb self)) [
        | inl ipp ↦
            handle_ipp_usb_data-IsReady self c received served (ground (arith, other, out, ipp, e))
              h
        | inr plain ↦
            handle_usb_data-IsReady self c received served (ground (arith, other, out, plain, e)) h
      ]
    ]
  ]
