-- ===== src/Escl/Manager/Scan.antt =====
-- A whole scan: the job is created, and its document fetched at the address that the answer gives.
use virtual_usb_printer.Common.{
  ℕ, false, ◌≡◌, refl, ap, ◌∙◌, true, some, [], ◌∷◌, ◌++◌, ok, Bytes, codes, bytes_eq,
  bytes_eq_refl,
}
use virtual_usb_printer.BaseStrings.{BaseStrings}
use virtual_usb_printer.FlatMap.{find, assign}
use virtual_usb_printer.FlatMap.Laws.{find-assign}
use virtual_usb_printer.SmartBuffer.{SmartBuffer, add}
use virtual_usb_printer.Http.Request.{HttpRequest}
use virtual_usb_printer.Escl.Config.{SourceCapabilities}
use virtual_usb_printer.Escl.Uuid.{generate_uuid}
use virtual_usb_printer.Escl.Manager.{
  ScanSettings, pending, completed, JobInfo, EsclManager, EsclXml, World, status_only, job_headers,
  capabilities_of, is_supported, accept_job, create_job, document_uuid, provide_document,
  next_document, handle_create_scan_job, handle_get_next_document, handle_escl_request,
}

-- A POST that creates a scan job.
pub record IsPost (request : HttpRequest) : Type 0 where
  pub method : request.method ≡ codes "POST"
  pub uri : request.uri ≡ codes "/eSCL/ScanJobs"

-- A GET of the document of the job, and what the functions of libbase make of its address.
pub record IsGet (base : BaseStrings) (uuid : Bytes) (request : HttpRequest) : Type 0 where
  pub method : request.method ≡ codes "GET"
  pub uri : request.uri ≡ codes "/eSCL/ScanJobs/" ++ (uuid ++ codes "/NextDocument")
  pub starts : base.starts_with request.uri (codes "/eSCL/ScanJobs/") ≡ true
  pub splits :
      base.split_string request.uri (codes "/")
      ≡ [] ∷ codes "eSCL" ∷ codes "ScanJobs" ∷ uuid ∷ codes "NextDocument" ∷ []

-- The manager with the job, in this state.
abbrev with_info : EsclManager → Bytes → JobInfo → EsclManager
with_info self uuid info = record self {
  status = record (self.status) { jobs = assign uuid info self.status.jobs };
}

found_again :
    (self : EsclManager) (uuid : Bytes) (info : JobInfo)
    → find uuid (with_info self uuid info).status.jobs ≡ some info
found_again self uuid info =
    find-assign uuid uuid info self.status.jobs ∙ rw (bytes_eq_refl uuid) refl

-- A pending job hands out the document, and is completed; a completed one is refused.
pending_lem :
    (world : World) (self : EsclManager) (uuid : Bytes) (now : ℕ)
    → let created = with_info self uuid (record { created = now; state = pending }) in
      next_document world created uuid ≡ (
        record {
          status = codes "200 OK";
          headers = assign (codes "Content-Type") (codes "image/jpeg") [];
          body = world.document;
        },
        with_info created uuid (record { created = now; state = completed }),
      )
unfolding next_document provide_document add
pending_lem world self uuid now =
    rw (found_again self uuid (record { created = now; state = pending }), next_document) refl

completed_lem :
    (world : World) (self : EsclManager) (uuid : Bytes) (now : ℕ)
    → let done = with_info self uuid (record { created = now; state = completed }) in
      next_document world done uuid ≡ (status_only (codes "404 Not Found"), done)
unfolding next_document provide_document
completed_lem world self uuid now =
    rw (found_again self uuid (record { created = now; state = completed }), next_document) refl

module _ (base : BaseStrings) (xml : EsclXml) where
  post_lem :
      (world : World) (self : EsclManager) (request : HttpRequest) (body : SmartBuffer)
      (settings : ScanSettings) (caps : SourceCapabilities)
      → IsPost request
      → xml.scan_settings_from_xml body ≡ ok (some settings)
      → capabilities_of self.scanner_capabilities settings.input_source ≡ some caps
      → is_supported caps settings ≡ ok true
      → handle_escl_request base xml world self request body ≡ ok (accept_job world self)
  unfolding handle_escl_request handle_create_scan_job create_job bytes_eq
  post_lem world self request body settings caps post read found supported =
      let made : handle_create_scan_job base xml world self body ≡ ok (accept_job world self) =
        rw (read, handle_create_scan_job)
          (rw (found, create_job) (rw (supported, create_job) refl)) in
      rw (post.method, handle_escl_request) (rw (post.uri, handle_escl_request) made)

  not_capabilities :
      (uuid : Bytes) (request : HttpRequest)
      → IsGet base uuid request
      → bytes_eq request.uri (codes "/eSCL/ScannerCapabilities") ≡ false
  unfolding bytes_eq
  not_capabilities uuid request get = rw get.uri refl

  not_status :
      (uuid : Bytes) (request : HttpRequest)
      → IsGet base uuid request
      → bytes_eq request.uri (codes "/eSCL/ScannerStatus") ≡ false
  unfolding bytes_eq
  not_status uuid request get = rw get.uri refl

  fetched :
      (world : World) (self : EsclManager) (uuid : Bytes) (request : HttpRequest)
      → IsGet base uuid request
      → handle_get_next_document base xml world self request.uri ≡ next_document world self uuid
  unfolding handle_get_next_document document_uuid bytes_eq
  fetched world self uuid request get = rw (get.splits, handle_get_next_document) refl

  get_lem :
      (world : World) (self : EsclManager) (uuid : Bytes) (request : HttpRequest)
      (body : SmartBuffer)
      → IsGet base uuid request
      → handle_escl_request base xml world self request body ≡ ok (next_document world self uuid)
  unfolding handle_escl_request
  get_lem world self uuid request body get =
      rw (get.method, handle_escl_request)
        (rw (not_capabilities uuid request get, handle_escl_request)
          (rw (not_status uuid request get, handle_escl_request)
            (rw (get.starts, handle_escl_request)
              (ap (λ r. ok r) (fetched world self uuid request get)))))

  -- A scan that the scanner supports: the POST is accepted, and its answer names the address of the job. A GET
  -- of the document at this address gives the document, and the next one is refused, whatever the world is
  -- at the time. What is assumed of libbase is what this address starts with, and how it splits at its slashes.
  pub scan_lem :
      (first second third : World) (self : EsclManager) (post get : HttpRequest)
      (body body' body'' : SmartBuffer) (settings : ScanSettings) (caps : SourceCapabilities)
      → IsPost post
      → IsGet base (generate_uuid first.random_bytes) get
      → xml.scan_settings_from_xml body ≡ ok (some settings)
      → capabilities_of self.scanner_capabilities settings.input_source ≡ some caps
      → is_supported caps settings ≡ ok true
      → (created done : EsclManager) × (handle_escl_request base xml first self post body
          ≡ ok (
            record {
              status = codes "201 Created";
              headers = job_headers (generate_uuid first.random_bytes);
              body = [];
            },
            created,
          ))
        × (handle_escl_request base xml second created get body'
            ≡ ok (
              record {
                status = codes "200 OK";
                headers = assign (codes "Content-Type") (codes "image/jpeg") [];
                body = second.document;
              },
              done,
            ))
        × (handle_escl_request base xml third done get body''
            ≡ ok (status_only (codes "404 Not Found"), done))
  unfolding accept_job
  scan_lem first second third self post get body body' body'' settings caps is_post is_get read
        found supported =
      let uuid = generate_uuid first.random_bytes in
      let created = with_info self uuid (record { created = first.now; state = pending }) in
      let done = with_info created uuid (record { created = first.now; state = completed }) in
      (
        created,
        done,
        post_lem first self post body settings caps is_post read found supported,
        get_lem second created uuid get body' is_get
            ∙ ap (λ r. ok r) (pending_lem second self uuid first.now),
        get_lem third done uuid get body'' is_get
            ∙ ap (λ r. ok r) (completed_lem third created uuid first.now),
      )
