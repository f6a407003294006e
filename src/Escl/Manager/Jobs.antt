-- ===== src/Escl/Manager/Jobs.antt =====
-- The life of a scan job: created pending, its document handed out once.
use virtual_usb_printer.Common.{
  ℕ, ◌+◌, ◌≤◌, Result, ok, err, bind-eq-ok, Result-cases, ◌≡◌, refl, ap, subst, ◌∙◌, ◌⊎◌, inl, inr,
  true, Option, none, some, List, [], ◌∷◌, arith, ◌==◌, if◌then◌else◌, Bool-cases, Option-cases,
  Bytes, codes, bytes_eq, bytes_eq→eq,
}
use virtual_usb_printer.BaseStrings.{BaseStrings}
use virtual_usb_printer.FlatMap.{find, count}
use virtual_usb_printer.FlatMap.Laws.{find-assign, find-erase}
use virtual_usb_printer.SmartBuffer.{SmartBuffer}
use virtual_usb_printer.Http.Response.{HttpResponse}
use virtual_usb_printer.Escl.Uuid.{generate_uuid}
use virtual_usb_printer.Escl.Manager.{
  ScanSettings, JobState, canceled, completed, pending, JobInfo, EsclManager, EsclXml, World,
  status_only, capabilities_of, is_supported, accept_job, create_job, document_uuid, job_uuid,
  provide_document, next_document, delete_job, handle_create_scan_job, handle_get_next_document,
  handle_delete_job,
}

abbrev is_pending : JobState → ℕ
is_pending canceled = 0
is_pending completed = 0
is_pending pending = 1

abbrev pending_of : Option JobInfo → ℕ
pending_of none = 0
pending_of (some info) = is_pending info.state

-- Whether the job is pending, as a number.
unfoldable pub pending_count : Bytes → EsclManager → ℕ
pending_count k self = pending_of (find k self.status.jobs)

-- A job that was accepted, and a document that was handed out, as a number: the answers say so.
unfoldable pub accepted : HttpResponse → ℕ
accepted response = if bytes_eq response.status (codes "201 Created") then 1 else 0

unfoldable pub handed_out : HttpResponse → ℕ
handed_out response = if bytes_eq response.status (codes "200 OK") then 1 else 0

abbrev only_for : Bytes → Bytes → ℕ → ℕ
only_for k uuid n = if bytes_eq k uuid then n else 0

State-cases : (s : JobState) → (is_pending s ≡ 0) ⊎ (s ≡ pending)
State-cases canceled = inl refl
State-cases completed = inl refl
State-cases pending = inr refl

-- A job that is not pending is refused, and nothing changes.
refused :
    (world : World) (self : EsclManager) (uuid : Bytes) (created : ℕ) (s : JobState)
    → is_pending s ≡ 0
    → (handed_out ((provide_document world self uuid (record { created = created; state = s })).0)
        ≡ 0)
      × ((provide_document world self uuid (record { created = created; state = s })).1 ≡ self)
unfolding provide_document handed_out bytes_eq
refused world self uuid created canceled e = (refl, refl)
refused world self uuid created completed e = (refl, refl)
refused world self uuid created pending e = absurd (omega arith)

-- A pending job's document is handed out, and the job is completed.
provided :
    (world : World) (self : EsclManager) (k uuid : Bytes) (created : ℕ) (s : JobState)
    → s ≡ pending
    → (handed_out ((provide_document world self uuid (record { created = created; state = s })).0)
        ≡ 1)
      × (pending_count k
            ((provide_document world self uuid (record { created = created; state = s })).1)
          ≡ (if bytes_eq k uuid then 0 else pending_count k self))
unfolding provide_document handed_out pending_count bytes_eq
provided world self k uuid created canceled e = absurd (cc)
provided world self k uuid created completed e = absurd (cc)
provided world self k uuid created pending e = (
  refl,
  ground (
    arith,
    find-assign k uuid (record { created = created; state = completed }) self.status.jobs,
  ),
)

pending_here :
    (self : EsclManager) (k uuid : Bytes) (info : JobInfo)
    → find uuid self.status.jobs ≡ some info
    → bytes_eq k uuid ≡ true
    → pending_count k self ≡ is_pending info.state
unfolding pending_count
pending_here self k uuid info found same =
    ap (λ (x : Bytes). pending_of (find x self.status.jobs)) (bytes_eq→eq k uuid same)
    ∙ ap pending_of found

no_job :
    (self : EsclManager) (k uuid : Bytes)
    → only_for k uuid (handed_out (status_only (codes "404 Not Found"))) + pending_count k self
      ≤ pending_count k self
unfolding handed_out bytes_eq
no_job self k uuid = ground arith

sum_le : (f : ℕ → ℕ) {m m' n n' p : ℕ} → m ≡ m' → n ≡ n' → f m' + n' ≤ p → f m + n ≤ p
sum_le f e d h = omega (arith, ap f e, d)

next_document_step :
    (world : World) (self : EsclManager) (k uuid : Bytes)
    → let r = next_document world self uuid in
      only_for k uuid (handed_out (r.0)) + pending_count k (r.1) ≤ pending_count k self
unfolding next_document
next_document_step world self k uuid = elim (Option-cases (find uuid self.status.jobs)) [
  | inl absent ↦ rw (absent, next_document) (no_job self k uuid)
  | inr (info, found) ↦
      rw (found, next_document)
        (elim (State-cases info.state) [
          | inl over ↦
              let (none_, same) = refused world self uuid info.created info.state over in
              sum_le (only_for k uuid) none_ (ap (pending_count k) same) (ground arith)
          | inr open_ ↦
              let (one, after) = provided world self k uuid info.created info.state open_ in
              sum_le (only_for k uuid) one after
                (ground (arith, pending_here self k uuid info found, ap is_pending open_))
        ])
]

delete_job_step :
    (self : EsclManager) (k uuid : Bytes)
    → pending_count k ((delete_job self uuid).1) ≤ pending_count k self
unfolding delete_job pending_count
delete_job_step self k uuid = elim (Bool-cases (count uuid self.status.jobs == 1)) [
  | inl e ↦ ground (arith, e, find-erase k uuid self.status.jobs)
  | inr e ↦ ground (arith, e, find-erase k uuid self.status.jobs)
]

create_job_step :
    (world : World) (self : EsclManager) (settings : ScanSettings) (k : Bytes)
    (r : HttpResponse × EsclManager)
    → create_job world self settings ≡ ok r
    → pending_count k (r.1)
      ≤ only_for k (generate_uuid world.random_bytes) (accepted (r.0)) + pending_count k self
unfolding create_job accept_job pending_count accepted bytes_eq
create_job_step world self settings k r e =
    let uuid = generate_uuid world.random_bytes in
    let job : JobInfo = record { created = world.now; state = pending } in
    elim (Option-cases (capabilities_of self.scanner_capabilities settings.input_source)) [
      | inl absent ↦ ground (arith, absent)
      | inr (caps, found) ↦
          let (good, supported, e') =
            bind-eq-ok (is_supported caps settings) _ (rw (found, create_job) at e) in
          elim (Bool-cases good) [
            | inl yes_ ↦ ground (arith, yes_, find-assign k uuid job self.status.jobs)
            | inr no_ ↦ ground (arith, no_)
          ]
    ]

-- The requests that change jobs.
pub data JobRequest : Type 0 where
  create : World → SmartBuffer → JobRequest
  get : World → Bytes → JobRequest
  delete : Bytes → JobRequest

module _ (base : BaseStrings) (xml : EsclXml) where
  unfoldable pub serve : JobRequest → EsclManager → Result (HttpResponse × EsclManager)
  unfolding handle_create_scan_job handle_get_next_document handle_delete_job
  serve (create world body) self = handle_create_scan_job base xml world self body
  serve (get world uri) self = ok (handle_get_next_document base xml world self uri)
  serve (delete uri) self = ok (handle_delete_job base xml self uri)

  -- Whether the answer accepts a job with the uuid `k`, and whether it hands out its document.
  unfoldable pub accepts : Bytes → JobRequest → HttpResponse → ℕ
  unfolding accepted
  accepts k (create world body) response =
      only_for k (generate_uuid world.random_bytes) (accepted response)
  accepts k (get world uri) response = 0
  accepts k (delete uri) response = 0

  unfoldable pub hands_out : Bytes → JobRequest → HttpResponse → ℕ
  unfolding handed_out
  hands_out k (create world body) response = 0
  hands_out k (get world uri) response =
      for_uuid (document_uuid (base.split_string uri (codes "/")))
    where
      for_uuid : Option Bytes → ℕ
      for_uuid none = 0
      for_uuid (some uuid) = only_for k uuid (handed_out response)
  hands_out k (delete uri) response = 0

  -- Over a list of requests, from a state on: how many answers accept a job with the uuid `k`, how many
  -- hand out its document, and the state behind the last answer. A request that ends the process has no
  -- answer, and no others follow.
  abbrev counted : Result (HttpResponse × EsclManager) → (HttpResponse × EsclManager → ℕ) → ℕ
  counted (err e) count = 0
  counted (ok served) count = count served

  unfoldable pub total_accepted : Bytes → List JobRequest → EsclManager → ℕ
  unfolding serve accepts
  total_accepted k [] self = 0
  total_accepted k (r ∷ rs) self =
      counted (serve r self) λ served. accepts k r (served.0) + total_accepted k rs (served.1)

  unfoldable pub total_handed_out : Bytes → List JobRequest → EsclManager → ℕ
  unfolding serve hands_out
  total_handed_out k [] self = 0
  total_handed_out k (r ∷ rs) self =
      counted (serve r self) λ served. hands_out k r (served.0) + total_handed_out k rs (served.1)

  unfoldable pub state_behind : List JobRequest → EsclManager → EsclManager
  unfolding serve
  state_behind [] self = self
  state_behind (r ∷ rs) self = elim (serve r self) [
    | err e ↦ self
    | ok served ↦ state_behind rs (served.1)
  ]

  next_step :
      (world : World) (self : EsclManager) (uri k : Bytes)
      → let r = handle_get_next_document base xml world self uri in
        hands_out k (get world uri) (r.0) + pending_count k (r.1) ≤ 0 + pending_count k self
  unfolding hands_out handle_get_next_document pending_count
  next_step world self uri k =
      elim (Option-cases (document_uuid (base.split_string uri (codes "/")))) [
        | inl bad ↦ rw (bad, handle_get_next_document) (omega arith)
        | inr (uuid, good) ↦
            rw (good, handle_get_next_document)
              (omega (arith, next_document_step world self k uuid))
      ]

  delete_step :
      (self : EsclManager) (uri k : Bytes)
      → 0 + pending_count k ((handle_delete_job base xml self uri).1) ≤ 0 + pending_count k self
  unfolding handle_delete_job pending_count
  delete_step self uri k = elim (Option-cases (job_uuid (base.split_string uri (codes "/")))) [
    | inl bad ↦ rw (bad, handle_delete_job) (omega arith)
    | inr (uuid, good) ↦ rw (good, handle_delete_job) (omega (arith, delete_job_step self k uuid))
  ]

  serve_step :
      (r : JobRequest) (self : EsclManager) (k : Bytes) (served : HttpResponse × EsclManager)
      → serve r self ≡ ok served
      → hands_out k r (served.0) + pending_count k (served.1)
        ≤ accepts k r (served.0) + pending_count k self
  unfolding serve accepts hands_out accepted bytes_eq
  serve_step (create world body) self k served e =
      let (parsed, from_xml, e') = bind-eq-ok (xml.scan_settings_from_xml body) _ e in
      by_settings parsed e'
    where
      by_settings :
          (parsed : Option ScanSettings)
          → elim parsed [
            | none ↦ ok (status_only (codes "415 Unsupported Media Type"), self)
            | some settings ↦ create_job world self settings
          ]
            ≡ ok served
          → 0 + pending_count k (served.1)
            ≤ only_for k (generate_uuid world.random_bytes) (accepted (served.0))
              + pending_count k self
      by_settings none e =
          let same : (status_only (codes "415 Unsupported Media Type"), self) ≡ served = cc in
          subst
            (λ (x : HttpResponse × EsclManager).
              0 + pending_count k (x.1)
              ≤ only_for k (generate_uuid world.random_bytes) (accepted (x.0))
                + pending_count k self)
            same (ground arith)
      by_settings (some settings) e = omega (arith, create_job_step world self settings k served e)
  serve_step (get world uri) self k served e =
      let same : handle_get_next_document base xml world self uri ≡ served = cc in
      subst
        (λ (x : HttpResponse × EsclManager).
          hands_out k (get world uri) (x.0) + pending_count k (x.1) ≤ 0 + pending_count k self)
        same (next_step world self uri k)
  serve_step (delete uri) self k served e =
      let same : handle_delete_job base xml self uri ≡ served = cc in
      subst
        (λ (x : HttpResponse × EsclManager). 0 + pending_count k (x.1) ≤ 0 + pending_count k self)
        same (delete_step self uri k)

  -- The document of a scan job is handed out at most as often as a job with its uuid was accepted: counting
  -- one that is pending at the start, and leaving one for a job that is pending at the end.
  pub total_handed_out_lem :
      (rs : List JobRequest) (self : EsclManager) (k : Bytes)
      → total_handed_out k rs self + pending_count k (state_behind rs self)
        ≤ total_accepted k rs self + pending_count k self
  unfolding total_handed_out total_accepted state_behind
  total_handed_out_lem [] self k = omega arith
  total_handed_out_lem (r ∷ rs) self k = elim (Result-cases (serve r self)) [
    | inl (served, e) ↦
        rw (e, total_handed_out, total_accepted, state_behind)
          (omega (arith, serve_step r self k served e, total_handed_out_lem rs (served.1) k))
    | inr (fault, e) ↦ rw (e, total_handed_out, total_accepted, state_behind) (omega arith)
  ]
