-- ===== src/Tests/Start.antt =====
-- The program from its start.
use virtual_usb_printer.Common.{
  ◌≡◌, refl, none, some, [], if◌then◌else◌, undefined, ok, err, codes, bytes_eq,
}
use virtual_usb_printer.Json.{find_dict, find_list, find_string, find_int, find_key, find_field}
use virtual_usb_printer.Http.Request.{HttpRequest}
use virtual_usb_printer.Escl.Config.{create_scanner_capabilities_from_config}
use virtual_usb_printer.Escl.Config.RoundTrip.{
  scanner_config, create_scanner_capabilities_from_config-scanner_config,
}
use virtual_usb_printer.Ipp.Manager.{IppManager}
use virtual_usb_printer.Escl.Manager.{status_only, handle_escl_request}
use virtual_usb_printer.Escl.Service.{Scanner, escl_service}
use virtual_usb_printer.Escl.Xml.{nil, element}
use virtual_usb_printer.Escl.Xml.Read.{escl_xml}
use virtual_usb_printer.Usbip.{UsbipCmdSubmit}
use virtual_usb_printer.Printer.Bulk.{bulk_in, handle_bulk_in_request}
use virtual_usb_printer.Printer.Interface.{get_interface_manager, queue_empty}
use virtual_usb_printer.Printer.Data.{UsbPrinter}
use virtual_usb_printer.Printer.Dispatch.{Served, serve_bulk_in, handle_usb_request}
use virtual_usb_printer.Startup.{
  Environment, Flags, new_scanner, new_printer, read_config, initialize_escl_manager, start_from,
  start,
}
use virtual_usb_printer.Startup.Status.{here, next, scanner_status_undefined}
use virtual_usb_printer.Startup.Printer.{
  IsSound, here as first_printer, next as then_served, Serves-IsSound,
}
use virtual_usb_printer.Tests.Data.{base, submit}
use virtual_usb_printer.Tests.Jobs.{capabilities, world, xml}
use virtual_usb_printer.Tests.Config.{config, descriptors}
use virtual_usb_printer.Tests.Scan.{library}

-- The file "d" is the configuration of the printer, and any other that of the scanner.
abbrev env : Environment
env = record {
  read_file = λ path. some path;
  read_json = λ contents.
      if bytes_eq contents (codes "d") then some config else some (scanner_config capabilities);
  worlds = λ n. world;
}

scanner_read : initialize_escl_manager env (codes "s") ≡ some (new_scanner capabilities)
unfolding initialize_escl_manager read_config bytes_eq
scanner_read = rw (create_scanner_capabilities_from_config-scanner_config capabilities) refl

abbrev status_request : HttpRequest
status_request = record { method = codes "GET"; uri = codes "/eSCL/ScannerStatus"; headers = [] }

abbrev put : HttpRequest
put = record { method = codes "PUT"; uri = codes "/eSCL/ScannerStatus"; headers = [] }

put_refused :
    handle_escl_request base
      (escl_xml base (library (element none [] [] nil)))
      world
      (new_scanner capabilities)
      put
      []
    ≡ ok (status_only (codes "405 Method Not Allowed"), new_scanner capabilities)
unfolding handle_escl_request bytes_eq
put_refused = refl

scanner_status_undefined_example :
    handle_escl_request base
      (escl_xml base (library (element none [] [] nil)))
      world
      (new_scanner capabilities)
      status_request
      []
    ≡ err undefined
scanner_status_undefined_example =
    scanner_status_undefined base (library (element none [] [] nil)) env b's' []
      (new_scanner capabilities) (new_scanner capabilities) world status_request [] scanner_read
      (next world (new_scanner capabilities) put [] (status_only (codes "405 Method Not Allowed"))
        (new_scanner capabilities) here put_refused)
      refl refl

abbrev flags : Flags
flags = record {
  descriptors_path = codes "d";
  record_doc_path = [];
  attributes_path = [];
  scanner_capabilities_path = codes "s";
}

abbrev ipp_manager : IppManager
ipp_manager = record {
  operation_attributes = [];
  printer_attributes = [];
  job_attributes = [];
  unsupported_attributes = [];
  document_output_path = [];
}

abbrev first : UsbPrinter Scanner
first =
    new_printer descriptors [] ipp_manager
      (record { manager = new_scanner capabilities; worlds = env.worlds })

from_config : start_from env flags config ≡ ok (some first)
unfolding start_from find_dict find_list find_string find_int find_key find_field bytes_eq
    create_scanner_capabilities_from_config scanner_config
from_config = refl

started : start env flags ≡ ok (some first)
unfolding start read_config bytes_eq
started = from_config

abbrev read_none : UsbipCmdSubmit
read_none = submit 1 0

nothing_read :
    (served : Served Scanner) × (handle_usb_request base (escl_service base xml) first read_none []
      ≡ ok served)
unfolding handle_usb_request serve_bulk_in handle_bulk_in_request get_interface_manager bulk_in
    queue_empty
nothing_read = (_, refl)

Serves-IsSound_example : IsSound ((nothing_read.0).printer)
Serves-IsSound_example =
    Serves-IsSound base xml env flags first ((nothing_read.0).printer) started
      (then_served first read_none [] nothing_read.0 first_printer nothing_read.1)
