-- ===== src/Escl/Xml/Write.antt =====
-- `ScannerCapabilitiesAsXml` and `ScannerStatusAsXml`.
use virtual_usb_printer.Common.{
  ℕ, ◌-◌, ◌/◌, ◌^◌, Bool, some, List, [], ◌∷◌, ◌++◌, ltb, if◌then◌else◌, Result, ok, ◌>>=◌, Bytes,
  codes,
}
use virtual_usb_printer.FlatMap.{FlatMap}
use virtual_usb_printer.Http.Response.{to_string}
use virtual_usb_printer.Escl.Config.{SourceCapabilities, ScannerCapabilities}
use virtual_usb_printer.Escl.Manager.{
  JobState, canceled, completed, pending, JobInfo, ScannerStatus, read_member,
}
use virtual_usb_printer.Escl.Xml.{XmlNode, element, to_nodes, LibXml}

abbrev pub pwg_ns : Bytes
pwg_ns = codes "pwg"

abbrev pub scan_ns : Bytes
scan_ns = codes "scan"

-- `std::to_string` of an `int`, a bit pattern.
unfoldable pub int_to_string : ℕ → Bytes
unfolding to_string
int_to_string n = if ltb n (2 ^ 31) then to_string n else codes "-" ++ to_string (2 ^ 32 - n)

-- `AddNode`, with the children that the node gets afterwards.
unfoldable pub add_node : Bytes → Bytes → List XmlNode → XmlNode
add_node ns name children = element (some ns) [] name (to_nodes children)

-- Behind the names that every root declares: the node with the namespace `scan`.
abbrev pwg_declared : Bytes × Bytes
pwg_declared = (pwg_ns, codes "http://www.pwg.org/schemas/2010/12/sm")

abbrev scan_declared : Bytes × Bytes
scan_declared = (scan_ns, codes "http://schemas.hp.com/imaging/escl/2011/05/03")

abbrev xsi_declared : Bytes × Bytes
xsi_declared = (codes "xsi", codes "http://www.w3.org/2001/XMLSchema-instance")

-- The strings that a job of a state is described by: images completed, images to transfer, the state and its
-- reason.
abbrev pub state_texts : JobState → Bytes × Bytes × Bytes × Bytes
state_texts pending = (codes "1", codes "1", codes "Pending", codes "JobScanning")
state_texts canceled = (codes "0", codes "0", codes "Canceled", codes "JobTimedOut")
state_texts completed = (codes "1", codes "0", codes "Completed", codes "JobCompletedSuccessfully")

module _ (lib : LibXml) where
  unfoldable pub add_node_with_content : Bytes → Bytes → Bytes → XmlNode
  add_node_with_content ns name content = element (some ns) [] name (lib.content_nodes content)

  -- One node for each string.
  unfoldable pub add_each : Bytes → Bytes → List Bytes → List XmlNode
  unfolding add_node_with_content
  add_each ns name [] = []
  add_each ns name (s ∷ ss) = add_node_with_content ns name s ∷ add_each ns name ss

  unfoldable pub add_resolutions : List ℕ → List XmlNode
  unfolding add_node add_node_with_content int_to_string
  add_resolutions [] = []
  add_resolutions (resolution ∷ resolutions) =
      add_node scan_ns (codes "DiscreteResolution") (
        add_node_with_content scan_ns (codes "XResolution") (int_to_string resolution)
        ∷ add_node_with_content scan_ns (codes "YResolution") (int_to_string resolution)
        ∷ [])
      ∷ add_resolutions resolutions

  unfoldable pub source_capabilities_as_xml : SourceCapabilities → Bytes → XmlNode
  unfolding add_node add_node_with_content add_each add_resolutions
  source_capabilities_as_xml caps name =
      let content = λ (n c : Bytes). add_node_with_content scan_ns n c in
      let profile = add_node scan_ns (codes "SettingProfile") (
        add_node scan_ns (codes "ColorModes")
          (add_each scan_ns (codes "ColorMode") caps.color_modes)
        ∷ add_node scan_ns (codes "DocumentFormats")
            (add_each pwg_ns (codes "DocumentFormat") caps.formats)
        ∷ add_node scan_ns (codes "SupportedResolutions")
            (add_node scan_ns (codes "DiscreteResolutions") (add_resolutions caps.resolutions) ∷ [])
        ∷ []) in
      let intents = add_node scan_ns (codes "SupportedIntents") (
        add_each scan_ns (codes "Intent")
          (codes "Document" ∷ codes "TextAndGraphic" ∷ codes "Photo" ∷ codes "Preview" ∷ [])) in
      add_node scan_ns name (
        content (codes "MinWidth") (codes "16")
        ∷ content (codes "MaxWidth") (codes "2550")
        ∷ content (codes "MinHeight") (codes "16")
        ∷ content (codes "MaxHeight") (codes "3507")
        ∷ content (codes "MaxScanRegions") (codes "1")
        ∷ add_node scan_ns (codes "SettingProfiles") (profile ∷ [])
        ∷ intents
        ∷ content (codes "MaxOpticalXResolution") (codes "2400")
        ∷ content (codes "MaxOpticalYResolution") (codes "2400")
        ∷ content (codes "RiskyLeftMargin") (codes "0")
        ∷ content (codes "RiskyRightMargin") (codes "0")
        ∷ content (codes "RiskyTopMargin") (codes "0")
        ∷ content (codes "RiskyBottomMargin") (codes "0")
        ∷ [])

  -- `elapsed.InSeconds()`: ticks are microseconds, and do not run back.
  unfoldable pub job_node : ℕ → Bytes × JobInfo → XmlNode
  unfolding add_node add_node_with_content to_string
  job_node now (uuid, info) =
      let (images_completed, images_to_transfer, job_state, reason) = state_texts info.state in
      add_node scan_ns (codes "JobInfo") (
        add_node_with_content pwg_ns (codes "JobUri") (codes "/eSCL/ScanJobs/" ++ uuid)
        ∷ add_node_with_content pwg_ns (codes "JobUuid") (codes "urn:uuid:" ++ uuid)
        ∷ add_node_with_content scan_ns (codes "Age") (to_string ((now - info.created) / 1000000))
        ∷ add_node_with_content pwg_ns (codes "ImagesCompleted") images_completed
        ∷ add_node_with_content pwg_ns (codes "ImagesToTransfer") images_to_transfer
        ∷ add_node_with_content pwg_ns (codes "JobState") job_state
        ∷ add_node pwg_ns (codes "JobStateReasons")
            (add_node_with_content pwg_ns (codes "JobStateReason") reason ∷ [])
        ∷ [])

  -- The loop over the jobs.
  unfoldable pub job_nodes : ℕ → FlatMap JobInfo → List XmlNode
  unfolding job_node
  job_nodes now [] = []
  job_nodes now (job ∷ jobs) = job_node now job ∷ job_nodes now jobs

  unfoldable pub job_list_as_xml : ℕ → FlatMap JobInfo → XmlNode
  unfolding add_node job_nodes
  job_list_as_xml now jobs = add_node scan_ns (codes "Jobs") (job_nodes now jobs)

  unfoldable pub capabilities_tree : ScannerCapabilities → XmlNode
  unfolding add_node add_node_with_content source_capabilities_as_xml
  capabilities_tree caps =
      element (some scan_ns) (pwg_declared ∷ scan_declared ∷ xsi_declared ∷ [])
        (codes "ScannerCapabilities")
        (to_nodes (
          add_node_with_content pwg_ns (codes "Version") (codes "2.63")
          ∷ add_node_with_content pwg_ns (codes "MakeAndModel") caps.make_and_model
          ∷ add_node_with_content pwg_ns (codes "SerialNumber") caps.serial_number
          ∷ add_node scan_ns (codes "Platen")
              (source_capabilities_as_xml caps.platen_capabilities (codes "PlatenInputCaps") ∷ [])
          ∷ []))

  unfoldable pub scanner_capabilities_as_xml : ScannerCapabilities → Bytes
  unfolding capabilities_tree
  scanner_capabilities_as_xml caps = lib.dump (capabilities_tree caps)

  unfoldable pub status_tree : ℕ → Bool → FlatMap JobInfo → XmlNode
  unfolding add_node_with_content job_list_as_xml
  status_tree now idle jobs =
      element (some scan_ns) (scan_declared ∷ pwg_declared ∷ xsi_declared ∷ [])
        (codes "ScannerStatus")
        (to_nodes (
          add_node_with_content pwg_ns (codes "Version") (codes "2.6.3")
          ∷ add_node_with_content pwg_ns (codes "State")
              (if idle then codes "Idle" else codes "Busy")
          ∷ job_list_as_xml now jobs
          ∷ []))

  -- It reads `idle`.
  unfoldable pub scanner_status_as_xml : ℕ → ScannerStatus → Result Bytes
  unfolding status_tree
  scanner_status_as_xml now status =
      read_member status.idle >>= λ idle. ok (lib.dump (status_tree now idle status.jobs))
