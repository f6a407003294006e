-- ===== src/Escl/Xml/Job.antt =====
-- What the manager makes of a document that asks for a scan job.
use virtual_usb_printer.Common.{
  ◌≡◌, refl, sym, ap, ◌∙◌, inl, inr, Bool, false, ◌&&◌, Option, none, some, List, arith, All, ◌==◌,
  if◌then◌else◌, Bool-cases, Option-cases, undefined, Result, ok, err, Bytes, codes, bytes_eq,
}
use virtual_usb_printer.BaseStrings.{BaseStrings}
use virtual_usb_printer.Escl.Config.{SourceCapabilities}
use virtual_usb_printer.Escl.Manager.{
  ScanSettings, EsclManager, World, color_mode_as_string, contains, contains_int, status_only,
  capabilities_of, has_resolution, is_supported, accept_job, create_job, handle_create_scan_job,
}
use virtual_usb_printer.Escl.Xml.{XmlNode, XmlNodes, nil, cons, node_name, node_children, LibXml}
use virtual_usb_printer.Escl.Xml.Read.{
  and_then, get_content, get_int_content, regions_loop, new_settings, settings_node, settings_loop,
  scan_settings_from_xml, escl_xml,
}
use virtual_usb_printer.Escl.Xml.Read.Ticket.{
  Item, document, IsItem, settings_after, Ticket, settings_of,
}
use virtual_usb_printer.Escl.Xml.Read.ReadBack.{scan_settings_from_xml-document}

-- The source offers what the ticket asks for.
abbrev pub offers : SourceCapabilities → Ticket → Bool
offers caps t =
    contains (color_mode_as_string t.color_mode) caps.color_modes
    && (contains t.document_format caps.formats
        && (t.x_resolution == t.y_resolution && contains_int t.x_resolution caps.resolutions))

offers_lem :
    (caps : SourceCapabilities) (t : Ticket)
    → is_supported caps (settings_of t) ≡ ok (offers caps t)
unfolding is_supported has_resolution
offers_lem caps t = ground arith

create_job_lem :
    (world : World) (self : EsclManager) (t : Ticket)
    → create_job world self (settings_of t)
      ≡ ok (elim (capabilities_of self.scanner_capabilities t.input_source) [
        | none ↦ (status_only (codes "409 Conflict"), self)
        | some caps ↦
            if offers caps t
            then accept_job world self
            else (status_only (codes "409 Conflict"), self)
      ])
unfolding create_job
create_job_lem world self t =
    elim (Option-cases (capabilities_of self.scanner_capabilities t.input_source)) [
      | inl absent ↦ rw (absent, create_job) refl
      | inr (caps, found) ↦ rw (found, create_job) (rw (offers_lem caps t) refl)
    ]

module _ (base : BaseStrings) (lib : LibXml) where
  -- A body is parsed to a document whose elements stand in any order, any of them any number of times or not at
  -- all, each with one text (the regions with their elements), of which `StringToInt` reads the numbers, and with other nodes anywhere between
  -- them, which have none of the names that are looked for at their place. If the last colour mode, format,
  -- source and resolutions and all regions in their order make up a ticket, the answer is a new job where the
  -- scanner has the source of the ticket and the source offers what it asks for, and a conflict otherwise.
  pub handle_create_scan_job-document :
      (world : World) (self : EsclManager) (body name : Bytes) (ns : Option Bytes)
      (declared : List (Bytes × Bytes)) (items : List Item) (t : Ticket)
      → lib.read_memory body ≡ some (some (document ns declared name items))
      → All (IsItem base) items
      → settings_after new_settings items ≡ settings_of t
      → handle_create_scan_job base (escl_xml base lib) world self body
        ≡ ok (elim (capabilities_of self.scanner_capabilities t.input_source) [
          | none ↦ (status_only (codes "409 Conflict"), self)
          | some caps ↦
              if offers caps t
              then accept_job world self
              else (status_only (codes "409 Conflict"), self)
        ])
  unfolding handle_create_scan_job create_job escl_xml
  handle_create_scan_job-document world self body name ns declared items t e h says =
      let read : scan_settings_from_xml base lib body ≡ ok (some (settings_of t)) =
        scan_settings_from_xml-document base lib body name ns declared items e h
        ∙ ap (λ (s : ScanSettings). ok (some s)) says in
      rw read (create_job_lem world self t)

  -- No node of the list has the name.
  abbrev pub IsMissing : Bytes → XmlNodes → Type 0
  IsMissing name nil = Unit {0}
  IsMissing name (cons node nodes) = (bytes_eq (node_name node) name ≡ false) × IsMissing name nodes

  and_then-some :
      {A B : Type 0} (m : Result (Option A)) (f : A → Result (Option B)) {b : B}
      → and_then m f ≡ ok (some b)
      → (a : A) × (m ≡ ok (some a)) × (f a ≡ ok (some b))
  and_then-some (err e) f h = absurd (cc)
  and_then-some (ok none) f h = absurd (cc)
  and_then-some (ok (some a)) f h = (a, refl, h)

  -- A branch that sets another member.
  sets_other :
      {A : Type 0} (m : Result (Option A)) (g : A → ScanSettings) (s s' : ScanSettings)
      → ((a : A) → (g a).color_mode ≡ s.color_mode)
      → and_then m (λ a. ok (some (g a))) ≡ ok (some s')
      → s'.color_mode ≡ s.color_mode
  sets_other m g s s' h e =
      let (a, _, e') = and_then-some m (λ a. ok (some (g a))) e in
      let same : g a ≡ s' = cc in ap (λ (x : ScanSettings). x.color_mode) (sym same) ∙ h a

  keeps_color_mode :
      (node : XmlNode) (s s' : ScanSettings)
      → bytes_eq (node_name node) (codes "ColorMode") ≡ false
      → settings_node base node s ≡ ok (some s')
      → s'.color_mode ≡ s.color_mode
  unfolding settings_node
  keeps_color_mode node s s' h e =
      elim (Bool-cases (bytes_eq (node_name node) (codes "ScanRegions"))) [
        | inl a ↦
            sets_other (regions_loop base (node_children node) s.regions) _ s s' (λ _. refl)
              (rw a at e)
        | inr a ↦ elim (Bool-cases (bytes_eq (node_name node) (codes "DocumentFormat"))) [
          | inl b ↦ sets_other (get_content node) _ s s' (λ _. refl) (rw (a, b) at e)
          | inr b ↦ elim (Bool-cases (bytes_eq (node_name node) (codes "InputSource"))) [
            | inl c ↦ sets_other (get_content node) _ s s' (λ _. refl) (rw (a, b, h, c) at e)
            | inr c ↦ elim (Bool-cases (bytes_eq (node_name node) (codes "XResolution"))) [
              | inl d ↦
                  sets_other (get_int_content base node) _ s s' (λ _. refl)
                    (rw (a, b, h, c, d) at e)
              | inr d ↦ elim (Bool-cases (bytes_eq (node_name node) (codes "YResolution"))) [
                | inl f ↦
                    sets_other (get_int_content base node) _ s s' (λ _. refl)
                      (rw (a, b, h, c, d, f) at e)
                | inr f ↦
                    let same : s ≡ s' = let x = rw (a, b, h, c, d, f) at e in cc in
                    ap (λ (x : ScanSettings). x.color_mode) (sym same)
              ]
            ]
          ]
        ]
      ]

  loop_keeps_color_mode :
      (nodes : XmlNodes) (s s' : ScanSettings)
      → IsMissing (codes "ColorMode") nodes
      → settings_loop base nodes s ≡ ok (some s')
      → s'.color_mode ≡ s.color_mode
  unfolding settings_loop
  loop_keeps_color_mode nil s s' h e =
      let same : s ≡ s' = cc in ap (λ (x : ScanSettings). x.color_mode) (sym same)
  loop_keeps_color_mode (cons node nodes) s s' h e =
      let (s1, one, rest) =
        and_then-some (settings_node base node s) (settings_loop base nodes) e in
      loop_keeps_color_mode nodes s1 s' h.1 rest ∙ keeps_color_mode node s s1 (h.0) one

  -- A document without a `ColorMode` that is read, and names a source that the scanner has, makes the
  -- manager read a colour mode that nothing has set.
  pub handle_create_scan_job_undefined :
      (world : World) (self : EsclManager) (body : Bytes) (root : XmlNode) (settings : ScanSettings)
      (caps : SourceCapabilities)
      → lib.read_memory body ≡ some (some root)
      → IsMissing (codes "ColorMode") (node_children root)
      → scan_settings_from_xml base lib body ≡ ok (some settings)
      → capabilities_of self.scanner_capabilities settings.input_source ≡ some caps
      → handle_create_scan_job base (escl_xml base lib) world self body ≡ err undefined
  unfolding handle_create_scan_job create_job escl_xml is_supported
  handle_create_scan_job_undefined world self body root settings caps e h read found =
      let unset : settings.color_mode ≡ none =
        loop_keeps_color_mode (node_children root) new_settings settings h (inside e read) in
      rw read (rw (found, create_job) (rw (unset, is_supported) refl))
    where
      inside :
          lib.read_memory body ≡ some (some root)
          → scan_settings_from_xml base lib body ≡ ok (some settings)
          → settings_loop base (node_children root) new_settings ≡ ok (some settings)
      inside e read = rw e at read
