-- ===== src/Escl/Manager/Requests.antt =====
-- What holds of every answered request: it holds where each answer is made.
use virtual_usb_printer.Common.{
  ◌≡◌, refl, inl, inr, Bool, true, false, ◌&&◌, Option, none, some, if◌then◌else◌, Option-cases,
  is_prefix, Result, ok, ◌>>=◌, Ensures, Ensures-read, Bytes, codes, bytes_eq,
}
use virtual_usb_printer.BaseStrings.{BaseStrings}
use virtual_usb_printer.FlatMap.{find}
use virtual_usb_printer.SmartBuffer.{SmartBuffer}
use virtual_usb_printer.Http.Request.{HttpRequest}
use virtual_usb_printer.Http.Response.{HttpResponse}
use virtual_usb_printer.Escl.Manager.{
  ScanSettings, JobInfo, EsclManager, EsclXml, World, status_only, text_xml, is_endpoint,
  capabilities_of, is_supported, accept_job, create_job, document_uuid, job_uuid, provide_document,
  next_document, delete_job, handle_create_scan_job, handle_get_next_document, handle_delete_job,
  handle_escl_request,
}

-- The answers that the manager makes, one by one.
pub record OfAnswers (world : World) (self : EsclManager) (P : HttpResponse × EsclManager → Type 0)
    : Type 0 where
  pub inform : (text : Bytes) → P (text_xml text, self)
  pub refuse : (status : Bytes) → is_prefix (codes "4") status ≡ true → P (status_only status, self)
  pub accept : P (accept_job world self)
  pub provide :
      (uuid : Bytes) (info : JobInfo)
      → find uuid self.status.jobs ≡ some info
      → P (provide_document world self uuid info)
  pub delete : (uuid : Bytes) → P (delete_job self uuid)

module _ (world : World) (self : EsclManager) (P : HttpResponse × EsclManager → Type 0) where
  unfoldable AllOf : Result (HttpResponse × EsclManager) → Type 0
  AllOf r = Ensures P r

  AllOf-if :
      (b : Bool) (x y : Result (HttpResponse × EsclManager))
      → AllOf x
      → AllOf y
      → AllOf (if b then x else y)
  AllOf-if true x y h k = h
  AllOf-if false x y h k = k

  AllOf-ok : (r : HttpResponse × EsclManager) → P r → AllOf (ok r)
  unfolding AllOf
  AllOf-ok r h = h

  AllOf-answer :
      (text : Result Bytes) (answer : Bytes → HttpResponse)
      → ((body : Bytes) → P (answer body, self))
      → AllOf (text >>= λ body. ok (answer body, self))
  unfolding AllOf
  AllOf-answer text answer h = Ensures-read P text _ λ body e. h body

  module _ (of : OfAnswers world self P) where
    by_test :
        (supported : Bool)
        → P (
            if supported then accept_job world self else (status_only (codes "409 Conflict"), self))
    unfolding is_prefix
    by_test true = of.accept
    by_test false = of.refuse (codes "409 Conflict") refl

    create_job-AllOf : (settings : ScanSettings) → AllOf (create_job world self settings)
    unfolding create_job AllOf is_prefix
    create_job-AllOf settings =
        elim (Option-cases (capabilities_of self.scanner_capabilities settings.input_source)) [
          | inl absent ↦ rw (absent, create_job) (of.refuse (codes "409 Conflict") refl)
          | inr (caps, found) ↦
              rw (found, create_job)
                (Ensures-read P (is_supported caps settings) _ λ supported e. by_test supported)
        ]

    next_document-AllOf : (uuid : Bytes) → P (next_document world self uuid)
    unfolding next_document is_prefix
    next_document-AllOf uuid = elim (Option-cases (find uuid self.status.jobs)) [
      | inl absent ↦ rw (absent, next_document) (of.refuse (codes "404 Not Found") refl)
      | inr (info, found) ↦ rw (found, next_document) (of.provide uuid info found)
    ]

    module _ (base : BaseStrings) (xml : EsclXml) where
      by_settings :
          (parsed : Option ScanSettings)
          → AllOf (elim parsed [
            | none ↦ ok (status_only (codes "415 Unsupported Media Type"), self)
            | some settings ↦ create_job world self settings
          ])
      unfolding is_prefix
      by_settings none =
          AllOf-ok (status_only (codes "415 Unsupported Media Type"), self)
            (of.refuse (codes "415 Unsupported Media Type") refl)
      by_settings (some settings) = create_job-AllOf settings

      create : (body : SmartBuffer) → AllOf (handle_create_scan_job base xml world self body)
      unfolding handle_create_scan_job AllOf
      create body =
          Ensures-read P (xml.scan_settings_from_xml body) _ λ parsed e. by_settings parsed

      get_document : (uri : Bytes) → P (handle_get_next_document base xml world self uri)
      unfolding handle_get_next_document is_prefix
      get_document uri = elim (Option-cases (document_uuid (base.split_string uri (codes "/")))) [
        | inl bad ↦
            rw (bad, handle_get_next_document) (of.refuse (codes "405 Method Not Allowed") refl)
        | inr (uuid, good) ↦ rw (good, handle_get_next_document) (next_document-AllOf uuid)
      ]

      delete_one : (uri : Bytes) → P (handle_delete_job base xml self uri)
      unfolding handle_delete_job is_prefix
      delete_one uri = elim (Option-cases (job_uuid (base.split_string uri (codes "/")))) [
        | inl bad ↦ rw (bad, handle_delete_job) (of.refuse (codes "405 Method Not Allowed") refl)
        | inr (uuid, good) ↦ rw (good, handle_delete_job) (of.delete uuid)
      ]

      refused :
          (status : Bytes)
          → is_prefix (codes "4") status ≡ true
          → AllOf (ok (status_only status, self))
      refused status h = AllOf-ok (status_only status, self) (of.refuse status h)

      every :
          (request : HttpRequest) (body : SmartBuffer)
          → AllOf (handle_escl_request base xml world self request body)
      unfolding handle_escl_request is_prefix
      every request body =
          let is_get = bytes_eq request.method (codes "GET") in
          let is_job = base.starts_with request.uri (codes "/eSCL/ScanJobs/") in
          AllOf-if (is_get && bytes_eq request.uri (codes "/eSCL/ScannerCapabilities")) _ _
            (AllOf-ok (text_xml (xml.scanner_capabilities_as_xml self.scanner_capabilities), self)
              (of.inform _))
            (AllOf-if (is_get && bytes_eq request.uri (codes "/eSCL/ScannerStatus")) _ _
              (AllOf-answer (xml.scanner_status_as_xml world.now self.status) text_xml of.inform)
              (AllOf-if
                (bytes_eq request.method (codes "POST")
                  && bytes_eq request.uri (codes "/eSCL/ScanJobs"))
                _ _ (create body)
                (AllOf-if (is_get && is_job) _ _
                  (AllOf-ok (handle_get_next_document base xml world self request.uri)
                    (get_document request.uri))
                  (AllOf-if (bytes_eq request.method (codes "DELETE") && is_job) _ _
                    (AllOf-ok (handle_delete_job base xml self request.uri)
                      (delete_one request.uri))
                    (AllOf-if (is_endpoint base xml request.uri) _ _
                      (refused (codes "405 Method Not Allowed") refl)
                      (refused (codes "404 Not Found") refl))))))

-- What holds of each answer holds of every answered request.
pub Ensures-handle_escl_request :
    (base : BaseStrings) (xml : EsclXml) (world : World) (self : EsclManager)
    (request : HttpRequest) (body : SmartBuffer) (P : HttpResponse × EsclManager → Type 0)
    → OfAnswers world self P
    → Ensures P (handle_escl_request base xml world self request body)
unfolding AllOf
Ensures-handle_escl_request base xml world self request body P of =
    every world self P of base xml request body
