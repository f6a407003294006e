-- ===== src/Tests/Scan.antt =====
-- Documents that ask for a scan job, and the jobs as a machine.
use virtual_usb_printer.Common.{
  true, is_prefix, ◌≡◌, refl, none, some, List, [], ◌∷◌, All, Option, Bytes, if◌then◌else◌,
  undefined, ok, err, codes, bytes_eq,
}
use virtual_usb_printer.FlatMap.{assign}
use virtual_usb_printer.Http.Request.{HttpRequest}
use virtual_usb_printer.Escl.Manager.{
  EsclManager, has_resolution, is_supported, color_mode_as_string, contains, contains_int,
  job_headers, ScanSettings, rgb, status_only, capabilities_of, accept_job, handle_create_scan_job,
  handle_escl_request,
}
use virtual_usb_printer.Escl.Uuid.{generate_uuid}
use virtual_usb_printer.Escl.Manager.Scan.{IsGet, scan_lem}
use virtual_usb_printer.Escl.Manager.Machine.{jobs_of, JobStep, handle_escl_request-IsStep}
use virtual_usb_printer.Escl.Xml.{XmlNode, nil, cons, element, text_node, to_nodes, LibXml}
use virtual_usb_printer.Escl.Xml.Write.{pwg_ns, scan_ns}
use virtual_usb_printer.Escl.Xml.Read.{
  get_content, settings_node, settings_loop, scan_settings_from_xml, escl_xml,
}
use virtual_usb_printer.Escl.Xml.Read.Ticket.{
  RegionItem, units_is, height_is, width_is, x_offset_is, y_offset_is, region_other, region_is,
  Item, regions_are, format_is, source_is, color_mode_is, x_resolution_is, y_resolution_is,
  settings_other, spelled, document, IsRegionItem, IsItem, Ticket,
}
use virtual_usb_printer.Escl.Xml.Job.{
  offers, handle_create_scan_job-document, handle_create_scan_job_undefined,
}
use virtual_usb_printer.Tests.Data.{base}
use virtual_usb_printer.Tests.Jobs.{settings, platen, capabilities, world, scanner, xml}

abbrev pub library : XmlNode → LibXml
library root = record {
  content_nodes = λ s. cons (text_node s) nil;
  dump = λ n. [];
  read_memory = λ b. some (some root);
}

abbrev ticket : Ticket
ticket = record {
  document_format = codes "application/pdf";
  color_mode = rgb;
  input_source = codes "Platen";
  x_resolution = 300;
  y_resolution = 300;
  regions =
      record {
        units = codes "escl:ThreeHundredthsOfInches";
        height = some 600;
        width = some 200;
        x_offset = some 0;
        y_offset = some 0;
      }
      ∷ [];
}

abbrev pwg : Option Bytes
pwg = some pwg_ns

abbrev scan : Option Bytes
scan = some scan_ns

-- The document of escl_manager_test.cc, with white space between some of its elements.
abbrev region_items : List RegionItem
region_items =
    units_is pwg (codes "escl:ThreeHundredthsOfInches")
    ∷ region_other (text_node (codes "\n"))
    ∷ height_is pwg (codes "600") 600
    ∷ width_is pwg (codes "200") 200
    ∷ x_offset_is pwg (codes "0") 0
    ∷ y_offset_is pwg (codes "0") 0
    ∷ []

abbrev items : List Item
items =
    settings_other (spelled pwg (codes "Version") (codes "2.0"))
    ∷ settings_other (text_node (codes "\n"))
    ∷ regions_are pwg (region_is pwg region_items ∷ [])
    ∷ format_is pwg (codes "application/pdf")
    ∷ color_mode_is scan rgb
    ∷ x_resolution_is scan (codes "300") 300
    ∷ y_resolution_is scan (codes "300") 300
    ∷ source_is pwg (codes "Platen")
    ∷ source_is scan (codes "Platen")
    ∷ []

region_items-IsRegionItem : All (IsRegionItem base) region_items
unfolding bytes_eq
region_items-IsRegionItem =
    (tt, ((refl, (refl, (refl, (refl, (refl, tt))))), (refl, (refl, (refl, (refl, tt))))))

items-IsItem : All (IsItem base) items
unfolding bytes_eq
items-IsItem = (
  (refl, (refl, (refl, (refl, (refl, (refl, tt)))))),
  (
    (refl, (refl, (refl, (refl, (refl, (refl, tt)))))),
    ((region_items-IsRegionItem, tt), (tt, (tt, (refl, (refl, (tt, (tt, tt))))))),
  ),
)

abbrev root : XmlNode
root = document scan [] (codes "ScanSettings") items

handle_create_scan_job-document_example :
    handle_create_scan_job base (escl_xml base (library root)) world scanner []
    ≡ ok (elim (capabilities_of capabilities (codes "Platen")) [
      | none ↦ (status_only (codes "409 Conflict"), scanner)
      | some caps ↦
          if offers caps ticket
          then accept_job world scanner
          else (status_only (codes "409 Conflict"), scanner)
    ])
handle_create_scan_job-document_example =
    handle_create_scan_job-document base (library root) world scanner [] (codes "ScanSettings") scan
      [] items ticket refl items-IsItem refl

abbrev colourless : XmlNode
colourless =
    element (some scan_ns) [] (codes "ScanSettings")
      (to_nodes (spelled pwg (codes "InputSource") (codes "Platen") ∷ []))

abbrev colourless_settings : ScanSettings
colourless_settings = record {
  document_format = [];
  color_mode = none;
  input_source = codes "Platen";
  x_resolution = none;
  y_resolution = none;
  regions = [];
}

colourless_read :
    scan_settings_from_xml base (library colourless) [] ≡ ok (some colourless_settings)
unfolding scan_settings_from_xml settings_loop settings_node get_content bytes_eq
colourless_read = refl

platen_found : capabilities_of capabilities (codes "Platen") ≡ some platen
unfolding capabilities_of bytes_eq
platen_found = refl

handle_create_scan_job_undefined_example :
    handle_create_scan_job base (escl_xml base (library colourless)) world scanner []
    ≡ err undefined
unfolding bytes_eq
handle_create_scan_job_undefined_example =
    handle_create_scan_job_undefined base (library colourless) world scanner [] colourless
      colourless_settings platen refl (refl, tt) colourless_read platen_found

abbrev post : HttpRequest
post = record { method = codes "POST"; uri = codes "/eSCL/ScanJobs"; headers = [] }

post_accepted : handle_escl_request base xml world scanner post [] ≡ ok (accept_job world scanner)
unfolding handle_escl_request handle_create_scan_job bytes_eq
post_accepted = refl

handle_escl_request-IsStep_example :
    JobStep world
      (jobs_of scanner)
      ((accept_job world scanner).0)
      (jobs_of ((accept_job world scanner).1))
handle_escl_request-IsStep_example =
    handle_escl_request-IsStep base xml world scanner ((accept_job world scanner).1) post []
      ((accept_job world scanner).0) post_accepted

abbrev get : HttpRequest
get = record {
  method = codes "GET";
  uri = codes "/eSCL/ScanJobs/00000000-0000-4000-8000-000000000000/NextDocument";
  headers = [];
}

get-IsGet : IsGet base (generate_uuid world.random_bytes) get
unfolding generate_uuid is_prefix
get-IsGet = record { method = refl; uri = refl; starts = refl; splits = refl }

settings_supported : is_supported platen settings ≡ ok true
unfolding is_supported has_resolution color_mode_as_string contains contains_int bytes_eq
settings_supported = refl

scan_lem_example :
    (created done : EsclManager) × (handle_escl_request base xml world scanner post []
      ≡ ok (
        record {
          status = codes "201 Created";
          headers = job_headers (generate_uuid world.random_bytes);
          body = [];
        },
        created,
      ))
    × (handle_escl_request base xml world created get []
        ≡ ok (
          record {
            status = codes "200 OK";
            headers = assign (codes "Content-Type") (codes "image/jpeg") [];
            body = codes "image";
          },
          done,
        ))
    × (handle_escl_request base xml world done get []
        ≡ ok (status_only (codes "404 Not Found"), done))
scan_lem_example =
    scan_lem base xml world world world scanner post get [] [] [] settings platen
      (record { method = refl; uri = refl }) get-IsGet refl platen_found settings_supported
