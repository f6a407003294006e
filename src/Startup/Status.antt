-- ===== src/Startup/Status.antt =====
-- The status of a configured scanner.
use virtual_usb_printer.Common.{
  ℕ, ◌≡◌, refl, sym, ap, ◌∙◌, inl, inr, none, some, ◌∷◌, ◌==◌, Bool-cases, Option-cases, undefined,
  ok, err, Ensures-ok, Bytes, codes, bytes_eq,
}
use virtual_usb_printer.BaseStrings.{BaseStrings}
use virtual_usb_printer.Json.{Value}
use virtual_usb_printer.FlatMap.{count}
use virtual_usb_printer.SmartBuffer.{SmartBuffer}
use virtual_usb_printer.Http.Request.{HttpRequest}
use virtual_usb_printer.Http.Response.{HttpResponse}
use virtual_usb_printer.Escl.Config.{ScannerCapabilities, create_scanner_capabilities_from_config}
use virtual_usb_printer.Escl.Manager.{
  JobState, canceled, completed, pending, EsclManager, EsclXml, World, accept_job, provide_document,
  delete_job, handle_escl_request,
}
use virtual_usb_printer.Escl.Manager.Requests.{OfAnswers, Ensures-handle_escl_request}
use virtual_usb_printer.Escl.Xml.{LibXml}
use virtual_usb_printer.Escl.Xml.Write.{scanner_status_as_xml}
use virtual_usb_printer.Escl.Xml.Read.{escl_xml}
use virtual_usb_printer.Startup.{Environment, new_scanner, read_config, initialize_escl_manager}

-- The answer leaves `idle` as it is.
abbrev KeepsIdle : EsclManager → HttpResponse × EsclManager → Type 0
KeepsIdle self r = (r.1).status.idle ≡ self.status.idle

provide_document-KeepsIdle :
    (world : World) (self : EsclManager) (uuid : Bytes) (created : ℕ) (s : JobState)
    → KeepsIdle self (provide_document world self uuid (record { created = created; state = s }))
unfolding provide_document
provide_document-KeepsIdle world self uuid created canceled = refl
provide_document-KeepsIdle world self uuid created completed = refl
provide_document-KeepsIdle world self uuid created pending = refl

delete_job-KeepsIdle : (self : EsclManager) (uuid : Bytes) → KeepsIdle self (delete_job self uuid)
unfolding delete_job
delete_job-KeepsIdle self uuid = elim (Bool-cases (count uuid self.status.jobs == 1)) [
  | inl e ↦ rw e refl
  | inr e ↦ rw e refl
]

accept_job-KeepsIdle : (world : World) (self : EsclManager) → KeepsIdle self (accept_job world self)
unfolding accept_job
accept_job-KeepsIdle world self = refl

every_answer-KeepsIdle :
    (world : World) (self : EsclManager) → OfAnswers world self (KeepsIdle self)
every_answer-KeepsIdle world self = record {
  inform = λ text. refl;
  refuse = λ status h. refl;
  accept = accept_job-KeepsIdle world self;
  provide = λ uuid info found. provide_document-KeepsIdle world self uuid info.created info.state;
  delete = λ uuid. delete_job-KeepsIdle self uuid;
}

module _ (base : BaseStrings) (xml : EsclXml) where
  -- The managers after some answered requests.
  pub data Behind (first : EsclManager) : EsclManager → Type 0 where
    here : Behind first first
    next :
        (world : World) (self : EsclManager) (request : HttpRequest) (body : SmartBuffer)
        (response : HttpResponse) (after : EsclManager)
        → Behind first self
        → handle_escl_request base xml world self request body ≡ ok (response, after)
        → Behind first after

  Behind-KeepsIdle :
      (first self : EsclManager) → Behind first self → self.status.idle ≡ first.status.idle
  Behind-KeepsIdle first _ here = refl
  Behind-KeepsIdle first _ (next world self request body response after earlier e) =
      Ensures-ok (KeepsIdle self) _ (response, after)
        (Ensures-handle_escl_request base xml world self request body (KeepsIdle self)
          (every_answer-KeepsIdle world self))
        e
      ∙ Behind-KeepsIdle first self earlier

initialize_escl_manager_idle :
    (env : Environment) (b : ℕ) (path : Bytes) (manager : EsclManager)
    → initialize_escl_manager env (b ∷ path) ≡ some manager
    → manager.status.idle ≡ none
unfolding initialize_escl_manager
initialize_escl_manager_idle env b path manager e =
    elim (Option-cases (read_config env (b ∷ path))) [
      | inl absent ↦ absurd (let x = rw (absent, initialize_escl_manager) at e in cc)
      | inr (json, found) ↦ by_json json (rw (found, initialize_escl_manager) at e)
    ]
  where
    same_manager :
        (c : ScannerCapabilities) → some (new_scanner c) ≡ some manager → manager.status.idle ≡ none
    same_manager c e =
        let same : new_scanner c ≡ manager = cc in
        ap (λ (m : EsclManager). m.status.idle) (sym same)

    by_json :
        (json : Value)
        → elim (create_scanner_capabilities_from_config json) [
          | none ↦ none
          | some capabilities ↦ some (new_scanner capabilities)
        ]
          ≡ some manager
        → manager.status.idle ≡ none
    by_json json e = elim (Option-cases (create_scanner_capabilities_from_config json)) [
      | inl absent ↦ absurd (let x = rw absent at e in cc)
      | inr (c, found) ↦ same_manager c (rw found at e)
    ]

-- The status of a configured scanner cannot be read: `initialize_escl_manager` leaves `idle` unset, no
-- request sets it, and so after any requests that were answered, a GET of /eSCL/ScannerStatus reads it
-- uninitialised.
pub scanner_status_undefined :
    (base : BaseStrings) (lib : LibXml) (env : Environment) (b : ℕ) (path : Bytes)
    (manager self : EsclManager) (world : World) (request : HttpRequest) (body : SmartBuffer)
    → initialize_escl_manager env (b ∷ path) ≡ some manager
    → Behind base (escl_xml base lib) manager self
    → request.method ≡ codes "GET"
    → request.uri ≡ codes "/eSCL/ScannerStatus"
    → handle_escl_request base (escl_xml base lib) world self request body ≡ err undefined
unfolding handle_escl_request scanner_status_as_xml bytes_eq escl_xml
scanner_status_undefined base lib env b path manager self world request body e earlier get uri =
    let unset =
      Behind-KeepsIdle base (escl_xml base lib) manager self earlier
      ∙ initialize_escl_manager_idle env b path manager e in
    rw (get, handle_escl_request)
      (rw (uri, handle_escl_request) (rw (unset, scanner_status_as_xml) refl))
