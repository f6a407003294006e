-- ===== src/Tests/Jobs.antt =====
-- The scan jobs and the scanner's configuration.
use virtual_usb_printer.Common.{
  ◌+◌, ◌≤◌, ◌≡◌, refl, ok, none, some, List, [], ◌∷◌, replicate, Bytes, codes,
}
use virtual_usb_printer.FlatMap.{find, assign}
use virtual_usb_printer.Escl.Config.{
  SourceCapabilities, ScannerCapabilities, create_scanner_capabilities_from_config,
}
use virtual_usb_printer.Escl.Config.RoundTrip.{
  scanner_config, create_scanner_capabilities_from_config-scanner_config,
}
use virtual_usb_printer.Escl.Uuid.{generate_uuid}
use virtual_usb_printer.Escl.Manager.{ScanSettings, rgb, EsclXml, EsclManager, World}
use virtual_usb_printer.Escl.Manager.Jobs.{
  pending_count, JobRequest, create, get, total_accepted, total_handed_out, state_behind,
  total_handed_out_lem,
}
use virtual_usb_printer.Tests.Data.{base}

abbrev pub platen : SourceCapabilities
platen = record {
  color_modes = codes "RGB24" ∷ [];
  formats = codes "image/jpeg" ∷ [];
  resolutions = 300 ∷ [];
}

abbrev pub capabilities : ScannerCapabilities
capabilities = record {
  make_and_model = codes "Test";
  serial_number = codes "1";
  platen_capabilities = platen;
  adf_capabilities = none;
}

create_scanner_capabilities_from_config-scanner_config_example :
    create_scanner_capabilities_from_config (scanner_config capabilities) ≡ some capabilities
create_scanner_capabilities_from_config-scanner_config_example =
    create_scanner_capabilities_from_config-scanner_config capabilities

abbrev pub settings : ScanSettings
settings = record {
  document_format = codes "image/jpeg";
  color_mode = some rgb;
  input_source = codes "Platen";
  x_resolution = some 300;
  y_resolution = some 300;
  regions = [];
}

abbrev pub xml : EsclXml
xml = record {
  scan_settings_from_xml = λ body. ok (some settings);
  scanner_capabilities_as_xml = λ c. [];
  scanner_status_as_xml = λ t s. ok [];
}

abbrev pub world : World
world = record { random_bytes = replicate 32 0; now = 5; document = codes "image" }

abbrev pub scanner : EsclManager
scanner = record { scanner_capabilities = capabilities; status = record { idle = none; jobs = [] } }

abbrev pub uuid : Bytes
uuid = codes "00000000-0000-4000-8000-000000000000"

uuid_generated : generate_uuid world.random_bytes ≡ uuid
unfolding generate_uuid
uuid_generated = refl

-- One job, and its document asked for twice.
abbrev pub requests : List JobRequest
requests =
    create world []
    ∷ get world (codes "/eSCL/ScanJobs/00000000-0000-4000-8000-000000000000/NextDocument")
    ∷ get world (codes "/eSCL/ScanJobs/00000000-0000-4000-8000-000000000000/NextDocument")
    ∷ []

handed_out_once : total_handed_out base xml uuid requests scanner ≡ 1
unfolding total_handed_out find assign
handed_out_once = refl

total_handed_out_lem_example :
    total_handed_out base xml uuid requests scanner
      + pending_count uuid (state_behind base xml requests scanner)
    ≤ total_accepted base xml uuid requests scanner + pending_count uuid scanner
total_handed_out_lem_example = total_handed_out_lem base xml requests scanner uuid
