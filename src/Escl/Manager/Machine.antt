-- ===== src/Escl/Manager/Machine.antt =====
-- The scan jobs as an abstract machine, and the manager as one that implements it.
use virtual_usb_printer.Common.{
  ℕ, ◌≡◌, refl, ap, ◌∙◌, sym, inl, inr, true, Option, none, some, Bool-cases, if◌then◌else◌, ok,
  Option-cases, Ensures-ok, is_prefix, Bytes, codes, bytes_eq, bytes_eq→eq, [],
}
use virtual_usb_printer.BaseStrings.{BaseStrings}
use virtual_usb_printer.FlatMap.{FlatMap, find, count, assign, erase}
use virtual_usb_printer.FlatMap.Laws.{find-assign, find-erase}
use virtual_usb_printer.SmartBuffer.{SmartBuffer, add}
use virtual_usb_printer.Http.Request.{HttpRequest}
use virtual_usb_printer.Http.Response.{HttpResponse}
use virtual_usb_printer.Escl.Uuid.{generate_uuid}
use virtual_usb_printer.Escl.Manager.{
  JobState, canceled, completed, pending, JobInfo, EsclManager, EsclXml, World, status_only,
  text_xml, job_headers, accept_job, provide_document, delete_job, handle_escl_request,
}
use virtual_usb_printer.Escl.Manager.Requests.{Ensures-handle_escl_request}

-- Which job there is under each name. The order in which the map keeps them is forgotten.
abbrev pub Jobs : Type 0
Jobs = Bytes → Option JobInfo

unfoldable pub jobs_of : EsclManager → Jobs
jobs_of self k = find k self.status.jobs

-- The jobs but for the one under `uuid`.
abbrev pub with_job : Bytes → Option JobInfo → Jobs → Jobs
with_job uuid job jobs k = if bytes_eq k uuid then job else jobs k

-- The steps of the machine: the jobs before, the answer, and the jobs after.
pub data JobStep (world : World) (before : Jobs) : HttpResponse → Jobs → Type 0 where
  -- A new job is pending.
  accepted :
      (after : Jobs)
      → ((k : Bytes)
          → after k
            ≡ with_job
                (generate_uuid world.random_bytes)
                (some (record { created = world.now; state = pending }))
                before
                k)
      → JobStep world before
          (record {
            status = codes "201 Created";
            headers = job_headers (generate_uuid world.random_bytes);
            body = [];
          })
          after
  -- A pending job hands out the document, and is completed.
  provided :
      (uuid : Bytes) (created : ℕ) (after : Jobs)
      → before uuid ≡ some (record { created = created; state = pending })
      → ((k : Bytes)
          → after k
            ≡ with_job uuid (some (record { created = created; state = completed })) before k)
      → JobStep world before
          (record {
            status = codes "200 OK";
            headers = assign (codes "Content-Type") (codes "image/jpeg") [];
            body = world.document;
          })
          after
  -- A job that there is goes away.
  removed :
      (uuid : Bytes) (info : JobInfo) (after : Jobs)
      → before uuid ≡ some info
      → ((k : Bytes) → after k ≡ with_job uuid none before k)
      → JobStep world before (status_only (codes "200 OK")) after
  -- A text about the scanner.
  informed :
      (text : Bytes) (after : Jobs)
      → ((k : Bytes) → after k ≡ before k)
      → JobStep world before (text_xml text) after
  -- A refusal, of a status from 400 on.
  refused :
      (status : Bytes) (after : Jobs)
      → is_prefix (codes "4") status ≡ true
      → ((k : Bytes) → after k ≡ before k)
      → JobStep world before (status_only status) after

abbrev IsStep : World → EsclManager → HttpResponse × EsclManager → Type 0
IsStep world self r = JobStep world (jobs_of self) r.0 (jobs_of r.1)

accept_job-IsStep : (world : World) (self : EsclManager) → IsStep world self (accept_job world self)
unfolding accept_job jobs_of
accept_job-IsStep world self = accepted _ λ k.
    find-assign k (generate_uuid world.random_bytes)
      (record { created = world.now; state = pending }) self.status.jobs

provide_document-IsStep :
    (world : World) (self : EsclManager) (uuid : Bytes) (created : ℕ) (s : JobState)
    → find uuid self.status.jobs ≡ some (record { created = created; state = s })
    → IsStep world self (provide_document world self uuid (record { created = created; state = s }))
unfolding provide_document jobs_of is_prefix add
provide_document-IsStep world self uuid created canceled found =
    refused (codes "404 Not Found") _ refl (λ k. refl)
provide_document-IsStep world self uuid created completed found =
    refused (codes "404 Not Found") _ refl (λ k. refl)
provide_document-IsStep world self uuid created pending found =
    provided uuid created _ found
      λ k. find-assign k uuid (record { created = created; state = completed }) self.status.jobs

erase_absent :
    (jobs : FlatMap JobInfo) (uuid k : Bytes)
    → find uuid jobs ≡ none
    → find k (erase uuid jobs) ≡ find k jobs
erase_absent jobs uuid k absent = elim (Bool-cases (bytes_eq k uuid)) [
  | inl same ↦
      find-erase k uuid jobs
      ∙ rw same (sym absent)
      ∙ ap (λ (x : Bytes). find x jobs) (sym (bytes_eq→eq k uuid same))
  | inr other ↦ find-erase k uuid jobs ∙ rw other refl
]

delete_job-IsStep :
    (world : World) (self : EsclManager) (uuid : Bytes) → IsStep world self (delete_job self uuid)
unfolding delete_job jobs_of count is_prefix
delete_job-IsStep world self uuid = elim (Option-cases (find uuid self.status.jobs)) [
  | inl absent ↦
      rw (absent, delete_job, count)
        (refused (codes "404 Not Found") _ refl λ k. erase_absent self.status.jobs uuid k absent)
  | inr (info, found) ↦
      rw (found, delete_job, count)
        (removed uuid info _ found λ k. find-erase k uuid self.status.jobs)
]

-- The manager implements the machine that knows which job there is under each name, and not in which order:
-- every answered request is a step of it. A step adds a new pending job under the uuid that its answer names;
-- or hands out the document for a pending job, which is completed; or takes a job away; or leaves the jobs as
-- they are, with a text about the scanner or a refusal.
pub handle_escl_request-IsStep :
    (base : BaseStrings) (xml : EsclXml) (world : World) (self after : EsclManager)
    (request : HttpRequest) (body : SmartBuffer) (response : HttpResponse)
    → handle_escl_request base xml world self request body ≡ ok (response, after)
    → JobStep world (jobs_of self) response (jobs_of after)
handle_escl_request-IsStep base xml world self after request body response e =
    Ensures-ok (IsStep world self) _ (response, after)
      (Ensures-handle_escl_request base xml world self request body (IsStep world self) (record {
        inform = λ text. informed text _ (λ k. refl);
        refuse = λ status h. refused status _ h (λ k. refl);
        accept = accept_job-IsStep world self;
        provide = λ uuid info found.
            provide_document-IsStep world self uuid info.created info.state found;
        delete = delete_job-IsStep world self;
      }))
      e
