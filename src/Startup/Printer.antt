-- ===== src/Startup/Printer.antt =====
-- The printer from the start of the program on.
use virtual_usb_printer.Common.{
  ℕ, suc, zero, ◌≡◌, refl, sym, ap, subst, ◌∙◌, Option, none, some, length, replicate,
  length-replicate, All, if◌then◌else◌, Bool-cases, inl, inr, Result, ok, bind-eq-ok, Ensures-ok,
  Bytes,
}
use virtual_usb_printer.Json.{Value, is_dict}
use virtual_usb_printer.BaseStrings.{BaseStrings}
use virtual_usb_printer.SmartBuffer.{SmartBuffer}
use virtual_usb_printer.Usbip.{UsbipCmdSubmit}
use virtual_usb_printer.LoadConfig.Lists.{create_usb_descriptors}
use virtual_usb_printer.LoadConfig.Loaded.{IsWellFormed, create_usb_descriptors-IsWellFormed}
use virtual_usb_printer.Ipp.Manager.{IppManager}
use virtual_usb_printer.Escl.Manager.{EsclXml}
use virtual_usb_printer.Escl.Service.{Scanner, escl_service}
use virtual_usb_printer.Printer.Interface.{new_interface_manager}
use virtual_usb_printer.Printer.Control.{UsbDescriptors}
use virtual_usb_printer.Printer.Data.{UsbPrinter}
use virtual_usb_printer.Printer.Dispatch.{Served, handle_usb_request}
use virtual_usb_printer.Printer.Dispatch.Invariant.{IsReady, handle_usb_request-IsReady}
use virtual_usb_printer.Printer.Dispatch.Shape.{KeepsServed, handle_usb_request-Keeps}
use virtual_usb_printer.Startup.{
  Environment, Flags, or_return, new_printer, is_empty, read_config, initialize_ipp_manager,
  initialize_escl_manager, start_from, start,
}

-- A printer as `main` makes it, and as every request leaves it.
pub record IsSound (self : UsbPrinter Scanner) : Type 0 where
  pub descriptors : IsWellFormed self.usb_descriptors
  pub one_each : length self.interface_managers ≡ length self.usb_descriptors.interface_descriptors
  pub ready : All IsReady self.interface_managers

replicate-IsReady : (n : ℕ) → All IsReady (replicate n new_interface_manager)
unfolding IsReady
replicate-IsReady zero = tt
replicate-IsReady (suc n) = (λ idle. refl, replicate-IsReady n)

new_printer-IsSound :
    (descriptors : UsbDescriptors) (path : Bytes) (ipp : IppManager) (scanner : Scanner)
    → IsWellFormed descriptors
    → IsSound (new_printer descriptors path ipp scanner)
new_printer-IsSound descriptors path ipp scanner h = record {
  descriptors = h;
  one_each = length-replicate (length descriptors.interface_descriptors) new_interface_manager;
  ready = replicate-IsReady (length descriptors.interface_descriptors);
}

or_return-some :
    {A B : Type 0} (o : Option A) (next : A → Result (Option B)) {b : B}
    → or_return o next ≡ ok (some b)
    → (a : A) × (o ≡ some a) × (next a ≡ ok (some b))
or_return-some none next e = absurd (cc)
or_return-some (some a) next e = (a, refl, e)

start_from-IsSound :
    (env : Environment) (flags : Flags) (config : Value) (self : UsbPrinter Scanner)
    → start_from env flags config ≡ ok (some self)
    → IsSound self
unfolding start_from
start_from-IsSound env flags config self e =
    let (descriptors, loaded, e1) = bind-eq-ok (create_usb_descriptors config) _ e in
    let (ipp, _, e2) = bind-eq-ok (initialize_ipp_manager env flags) _ e1 in
    let (ipp_manager, _, e3) = or_return-some ipp _ e2 in
    let (escl_manager, _, e4) =
      or_return-some (initialize_escl_manager env flags.scanner_capabilities_path) _ e3 in
    let made : new_printer descriptors flags.record_doc_path ipp_manager
          (record { manager = escl_manager; worlds = env.worlds })
        ≡ self =
      cc in
    subst IsSound made (
      new_printer-IsSound descriptors flags.record_doc_path ipp_manager _
        (create_usb_descriptors-IsWellFormed config descriptors loaded))

start-IsSound :
    (env : Environment) (flags : Flags) (self : UsbPrinter Scanner)
    → start env flags ≡ ok (some self)
    → IsSound self
unfolding start
start-IsSound env flags self e = elim (Bool-cases (is_empty flags.descriptors_path)) [
  | inl empty ↦ absurd (let x = rw (empty, start) at e in cc)
  | inr given ↦
      let (config, _, e1) =
        or_return-some (read_config env flags.descriptors_path) _ (rw (given, start) at e) in
      by_type config e1
]
  where
    by_type :
        (config : Value)
        → (if is_dict config then start_from env flags config else ok none) ≡ ok (some self)
        → IsSound self
    by_type config e = elim (Bool-cases (is_dict config)) [
      | inl dict ↦ start_from-IsSound env flags config self (rw dict at e)
      | inr other ↦ absurd (let x = rw other at e in cc)
    ]

module _ (base : BaseStrings) (xml : EsclXml) where
  -- The printers behind some requests.
  pub data Serves (first : UsbPrinter Scanner) : UsbPrinter Scanner → Type 0 where
    here : Serves first first
    next :
        (self : UsbPrinter Scanner) (c : UsbipCmdSubmit) (received : SmartBuffer)
        (served : Served Scanner)
        → Serves first self
        → handle_usb_request base (escl_service base xml) self c received ≡ ok served
        → Serves first served.printer

  -- The printer that the program starts with, and every printer behind requests that were served: its
  -- descriptors are well formed, it has one manager for each interface, and a manager that is not
  -- receiving a message holds no bytes of one.
  pub Serves-IsSound :
      (env : Environment) (flags : Flags) (first self : UsbPrinter Scanner)
      → start env flags ≡ ok (some first)
      → Serves first self
      → IsSound self
  Serves-IsSound env flags first _ e here = start-IsSound env flags first e
  Serves-IsSound env flags first _ e (next self c received served earlier done) =
      let sound = Serves-IsSound env flags first self e earlier in
      let (same, count) =
        Ensures-ok (KeepsServed self) _ served
          (handle_usb_request-Keeps base (escl_service base xml) self c received) done in
      record {
        descriptors = subst IsWellFormed (sym same) sound.descriptors;
        one_each =
            count
            ∙ sound.one_each
            ∙ ap (λ (d : UsbDescriptors). length d.interface_descriptors) (sym same);
        ready =
            handle_usb_request-IsReady base (escl_service base xml) self c received served done
              sound.ready;
      }
