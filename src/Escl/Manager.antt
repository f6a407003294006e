-- ===== src/Escl/Manager.antt =====
-- `EsclManager::HandleEsclRequest`: the eSCL endpoints, and the scan jobs. The functions of xml_util.h are
-- an interface, which Escl/Xml fills. A number, flag or enumeration that a struct does not initialise is
-- `none` until it is assigned; to read it then is undefined.
pub mod Jobs
pub mod Requests
pub mod Machine
pub mod Scan
use virtual_usb_printer.Common.{
  ℕ, Bool, false, ◌&&◌, ◌||◌, Option, none, some, List, [], ◌∷◌, ◌++◌, ◌==◌, if◌then◌else◌,
  undefined, Result, ok, err, ◌>>=◌, ◌>>◌, Bytes, codes, bytes_eq,
}
use virtual_usb_printer.BaseStrings.{BaseStrings}
use virtual_usb_printer.FlatMap.{FlatMap, find, assign, erase, count}
use virtual_usb_printer.SmartBuffer.{SmartBuffer, add}
use virtual_usb_printer.Http.Request.{HttpRequest, HttpHeaders}
use virtual_usb_printer.Http.Response.{HttpResponse}
use virtual_usb_printer.Escl.Config.{SourceCapabilities, ScannerCapabilities}
use virtual_usb_printer.Escl.Uuid.{generate_uuid}

pub data ColorMode : Type 0 where
  black_and_white grayscale rgb : ColorMode

pub record ScanRegion : Type 0 where
  pub units : Bytes
  pub height : Option ℕ
  pub width : Option ℕ
  pub x_offset : Option ℕ
  pub y_offset : Option ℕ

pub record ScanSettings : Type 0 where
  pub document_format : Bytes
  pub color_mode : Option ColorMode
  pub input_source : Bytes
  pub x_resolution : Option ℕ
  pub y_resolution : Option ℕ
  pub regions : List ScanRegion

pub data JobState : Type 0 where
  canceled completed pending : JobState

pub record JobInfo : Type 0 where
  pub created : ℕ
  pub state : JobState

pub record ScannerStatus : Type 0 where
  pub idle : Option Bool
  pub jobs : FlatMap JobInfo

pub record EsclManager : Type 0 where
  pub scanner_capabilities : ScannerCapabilities
  pub status : ScannerStatus

-- xml_util.h
pub record EsclXml : Type 0 where
  pub scan_settings_from_xml : Bytes → Result (Option ScanSettings)
  pub scanner_capabilities_as_xml : ScannerCapabilities → Bytes
  -- The first argument is the time, in microseconds.
  pub scanner_status_as_xml : ℕ → ScannerStatus → Result Bytes

-- What one request reads of the world: 32 random bytes, the time, and what `ReadFileToString` leaves in its
-- string for the document path.
pub record World : Type 0 where
  pub random_bytes : Bytes
  pub now : ℕ
  pub document : Bytes

unfoldable pub color_mode_as_string : ColorMode → Bytes
color_mode_as_string black_and_white = codes "BlackAndWhite1"
color_mode_as_string grayscale = codes "Grayscale8"
color_mode_as_string rgb = codes "RGB24"

-- `base::Contains`
unfoldable pub contains : Bytes → List Bytes → Bool
unfolding bytes_eq
contains x [] = false
contains x (y ∷ ys) = bytes_eq x y || contains x ys

unfoldable pub contains_int : ℕ → List ℕ → Bool
contains_int x [] = false
contains_int x (y ∷ ys) = x == y || contains_int x ys

-- `HttpResponse response; response.status = status;`
abbrev pub status_only : Bytes → HttpResponse
status_only status = record { status = status; headers = []; body = [] }

abbrev pub text_xml : SmartBuffer → HttpResponse
text_xml body = record {
  status = codes "200 OK";
  headers = assign (codes "Content-Type") (codes "text/xml") [];
  body = add [] body;
}

-- The capabilities of the source, `none` for one that the scanner does not have.
unfoldable pub capabilities_of : ScannerCapabilities → Bytes → Option SourceCapabilities
unfolding bytes_eq
capabilities_of self input_source =
    if bytes_eq input_source (codes "Platen")
    then some self.platen_capabilities
    else if bytes_eq input_source (codes "ADF")
    then self.adf_capabilities
    else none

-- A member that may not have been assigned.
abbrev pub read_member : {A : Type 0} → Option A → Result A
read_member none = err undefined
read_member (some a) = ok a

-- Equal resolutions that the source has.
unfoldable pub has_resolution : SourceCapabilities → ScanSettings → Result Bool
unfolding contains_int
has_resolution caps settings = do
  x_resolution ← read_member settings.x_resolution
  y_resolution ← read_member settings.y_resolution
  ok (x_resolution == y_resolution && contains_int x_resolution caps.resolutions)

unfoldable pub is_supported : SourceCapabilities → ScanSettings → Result Bool
unfolding color_mode_as_string contains has_resolution
is_supported caps settings = do
  color_mode ← read_member settings.color_mode
  if contains (color_mode_as_string color_mode) caps.color_modes
        && contains settings.document_format caps.formats
      then has_resolution caps settings
      else ok false

abbrev set_jobs : EsclManager → FlatMap JobInfo → EsclManager
set_jobs self jobs = record self { status = record (self.status) { jobs = jobs } }

-- The headers of the answer to an accepted job.
abbrev pub job_headers : Bytes → HttpHeaders
job_headers uuid =
    assign (codes "Pragma") (codes "no-cache")
      (assign (codes "Location") (codes "/eSCL/ScanJobs/" ++ uuid) [])

-- An accepted job is pending under a new uuid.
unfoldable pub accept_job : World → EsclManager → HttpResponse × EsclManager
unfolding generate_uuid
accept_job world self =
    let uuid = generate_uuid world.random_bytes in
    (
      record { status = codes "201 Created"; headers = job_headers uuid; body = [] },
      set_jobs self
          (assign uuid (record { created = world.now; state = pending }) self.status.jobs),
    )

-- The job that the settings ask for, or the refusal.
unfoldable pub create_job : World → EsclManager → ScanSettings → Result (HttpResponse × EsclManager)
unfolding capabilities_of is_supported accept_job
create_job world self settings =
    elim (capabilities_of self.scanner_capabilities settings.input_source) [
      | none ↦ ok (status_only (codes "409 Conflict"), self)
      | some caps ↦ is_supported caps settings >>= λ supported.
          ok (
            if supported then accept_job world self else (status_only (codes "409 Conflict"), self))
    ]

-- `tokens.size() != 5 || tokens[4] != "NextDocument"`; then `tokens[3]`.
unfoldable pub document_uuid : List Bytes → Option Bytes
unfolding bytes_eq
document_uuid (_ ∷ _ ∷ _ ∷ uuid ∷ last ∷ []) =
    if bytes_eq last (codes "NextDocument") then some uuid else none
document_uuid _ = none

-- `tokens.size() != 4`; then `tokens[3]`.
unfoldable pub job_uuid : List Bytes → Option Bytes
job_uuid (_ ∷ _ ∷ _ ∷ uuid ∷ []) = some uuid
job_uuid _ = none

-- The answer for a job: its document where it is pending.
unfoldable pub provide_document : World → EsclManager → Bytes → JobInfo → HttpResponse × EsclManager
provide_document world self uuid info = by_state info.state
  where
    by_state : JobState → HttpResponse × EsclManager
    by_state canceled = (status_only (codes "404 Not Found"), self)
    by_state completed = (status_only (codes "404 Not Found"), self)
    by_state pending = (
      record {
        status = codes "200 OK";
        headers = assign (codes "Content-Type") (codes "image/jpeg") [];
        body = add [] world.document;
      },
      set_jobs self (assign uuid (record info { state = completed }) self.status.jobs),
    )

unfoldable pub next_document : World → EsclManager → Bytes → HttpResponse × EsclManager
unfolding provide_document
next_document world self uuid = elim (find uuid self.status.jobs) [
  | none ↦ (status_only (codes "404 Not Found"), self)
  | some info ↦ provide_document world self uuid info
]

unfoldable pub delete_job : EsclManager → Bytes → HttpResponse × EsclManager
delete_job self uuid =
    let erased = count uuid self.status.jobs in
    let deleted = set_jobs self (erase uuid self.status.jobs) in
    if erased == 1
    then (status_only (codes "200 OK"), deleted)
    else (status_only (codes "404 Not Found"), deleted)

module _ (base : BaseStrings) (xml : EsclXml) where
  unfoldable pub handle_create_scan_job :
      World → EsclManager → SmartBuffer → Result (HttpResponse × EsclManager)
  unfolding create_job
  handle_create_scan_job world self request_body =
      xml.scan_settings_from_xml request_body >>= λ (parsed : Option ScanSettings). elim parsed [
        | none ↦ ok (status_only (codes "415 Unsupported Media Type"), self)
        | some settings ↦ create_job world self settings
      ]

  unfoldable pub handle_get_next_document : World → EsclManager → Bytes → HttpResponse × EsclManager
  unfolding document_uuid next_document
  handle_get_next_document world self uri =
      elim (document_uuid (base.split_string uri (codes "/"))) [
        | none ↦ (status_only (codes "405 Method Not Allowed"), self)
        | some uuid ↦ next_document world self uuid
      ]

  unfoldable pub handle_delete_job : EsclManager → Bytes → HttpResponse × EsclManager
  unfolding job_uuid delete_job
  handle_delete_job self uri = elim (job_uuid (base.split_string uri (codes "/"))) [
    | none ↦ (status_only (codes "405 Method Not Allowed"), self)
    | some uuid ↦ delete_job self uuid
  ]

  abbrev pub is_endpoint : Bytes → Bool
  is_endpoint uri =
      bytes_eq uri (codes "/eSCL/ScannerCapabilities")
      || (bytes_eq uri (codes "/eSCL/ScannerStatus")
          || base.starts_with uri (codes "/eSCL/ScanJobs"))

  unfoldable pub handle_escl_request :
      World → EsclManager → HttpRequest → SmartBuffer → Result (HttpResponse × EsclManager)
  unfolding bytes_eq handle_create_scan_job handle_get_next_document handle_delete_job
  handle_escl_request world self request request_body =
      let is_get = bytes_eq request.method (codes "GET") in
      let is_job = base.starts_with request.uri (codes "/eSCL/ScanJobs/") in
      if is_get && bytes_eq request.uri (codes "/eSCL/ScannerCapabilities")
      then ok (text_xml (xml.scanner_capabilities_as_xml self.scanner_capabilities), self)
      else if is_get && bytes_eq request.uri (codes "/eSCL/ScannerStatus")
      then (xml.scanner_status_as_xml world.now self.status >>= λ body. ok (text_xml body, self))
      else if bytes_eq request.method (codes "POST")
          && bytes_eq request.uri (codes "/eSCL/ScanJobs")
      then handle_create_scan_job world self request_body
      else if is_get && is_job
      then ok (handle_get_next_document world self request.uri)
      else if bytes_eq request.method (codes "DELETE") && is_job
      then ok (handle_delete_job self request.uri)
      else if is_endpoint request.uri
      then ok (status_only (codes "405 Method Not Allowed"), self)
      else ok (status_only (codes "404 Not Found"), self)
