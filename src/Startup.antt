-- ===== src/Startup.antt =====
-- virtual_usb_printer.cc: the start of the program, up to `Server::Run`. The flags are parsed; files and the
-- JSON reader of libbase are an argument. `none` is `return 1`.
pub mod Printer
pub mod Status
use virtual_usb_printer.Common.{
  ℕ, Bool, true, false, Option, none, some, [], ◌∷◌, if◌then◌else◌, length, replicate, Result, ok,
  ◌>>=◌, Bytes,
}
use virtual_usb_printer.Json.{Value, is_dict}
use virtual_usb_printer.LoadConfig.Lists.{create_usb_descriptors}
use virtual_usb_printer.Ipp.Attribute.{
  get_attributes, operation_attributes, printer_attributes, job_attributes, unsupported_attributes,
}
use virtual_usb_printer.Ipp.Manager.{IppManager}
use virtual_usb_printer.Printer.Interface.{new_interface_manager}
use virtual_usb_printer.Printer.Control.{UsbDescriptors}
use virtual_usb_printer.Printer.Data.{UsbPrinter}
use virtual_usb_printer.Escl.Config.{ScannerCapabilities, create_scanner_capabilities_from_config}
use virtual_usb_printer.Escl.Manager.{EsclManager, World}
use virtual_usb_printer.Escl.Service.{Scanner}

-- `DEFINE_string`
pub record Flags : Type 0 where
  pub descriptors_path : Bytes
  pub record_doc_path : Bytes
  pub attributes_path : Bytes
  pub scanner_capabilities_path : Bytes

-- `ReadFileToString` and `JSONReader::Read`, where `none` is a failure, and what the scanner will read of
-- the world, request by request; the document of `scanner_doc_path` is part of that.
pub record Environment : Type 0 where
  pub read_file : Bytes → Option Bytes
  pub read_json : Bytes → Option Value
  pub worlds : ℕ → World

abbrev pub is_empty : Bytes → Bool
is_empty [] = true
is_empty (b ∷ bs) = false

-- A step that fails by `return 1`, and what follows it.
abbrev pub or_return {ℓ κ} :
    {A : Type ℓ} {B : Type κ} → Option A → (A → Result (Option B)) → Result (Option B)
or_return none next = ok none
or_return (some a) next = next a

-- `EsclManager()`, whose members are zero.
abbrev pub no_scanner : EsclManager
no_scanner = record {
  scanner_capabilities = record {
    make_and_model = [];
    serial_number = [];
    platen_capabilities = record { color_modes = []; formats = []; resolutions = [] };
    adf_capabilities = none;
  };
  status = record { idle = some false; jobs = [] };
}

-- `EsclManager(capabilities, document_path)`, which does not initialise `idle`.
abbrev pub new_scanner : ScannerCapabilities → EsclManager
new_scanner capabilities = record {
  scanner_capabilities = capabilities;
  status = record { idle = none; jobs = [] };
}

-- The file, parsed.
unfoldable pub read_config : Environment → Bytes → Option Value
read_config env path = elim (env.read_file path) [
  | none ↦ none
  | some contents ↦ env.read_json contents
]

unfoldable pub initialize_escl_manager : Environment → Bytes → Option EsclManager
unfolding read_config
initialize_escl_manager env capabilities_path =
    if is_empty capabilities_path
    then some no_scanner
    else elim (read_config env capabilities_path) [
      | none ↦ none
      | some json ↦ elim (create_scanner_capabilities_from_config json) [
        | none ↦ none
        | some capabilities ↦ some (new_scanner capabilities)
      ]
    ]

unfoldable pub initialize_ipp_manager : Environment → Flags → Result (Option IppManager)
unfolding read_config
initialize_ipp_manager env flags =
    if is_empty flags.attributes_path
    then ok (
        some (record {
          operation_attributes = [];
          printer_attributes = [];
          job_attributes = [];
          unsupported_attributes = [];
          document_output_path = [];
        }))
    else or_return (read_config env flags.attributes_path) λ result.
      get_attributes result operation_attributes >>= λ operation.
      get_attributes result printer_attributes >>= λ printer.
      get_attributes result job_attributes >>= λ job.
      get_attributes result unsupported_attributes >>= λ unsupported. ok (
        some (record {
          operation_attributes = operation;
          printer_attributes = printer;
          job_attributes = job;
          unsupported_attributes = unsupported;
          document_output_path = flags.record_doc_path;
        }))

-- `UsbPrinter`, with one manager for each interface.
abbrev pub new_printer : UsbDescriptors → Bytes → IppManager → Scanner → UsbPrinter Scanner
new_printer descriptors document_output_path ipp_manager escl_manager = record {
  usb_descriptors = descriptors;
  document_output_path = document_output_path;
  ipp_manager = ipp_manager;
  escl_manager = escl_manager;
  interface_managers = replicate (length descriptors.interface_descriptors) new_interface_manager;
}

-- Behind the configuration of the printer: its parts, and the printer.
unfoldable pub start_from : Environment → Flags → Value → Result (Option (UsbPrinter Scanner))
unfolding create_usb_descriptors initialize_ipp_manager initialize_escl_manager
start_from env flags descriptors = create_usb_descriptors descriptors >>= λ usb_descriptors.
    initialize_ipp_manager env flags >>= λ (ipp : Option IppManager). or_return ipp λ ipp_manager.
      or_return (initialize_escl_manager env flags.scanner_capabilities_path) λ escl_manager. ok (
        some (
          new_printer usb_descriptors flags.record_doc_path ipp_manager
            (record { manager = escl_manager; worlds = env.worlds })))

-- The printer that `main` gives to the server.
unfoldable pub start : Environment → Flags → Result (Option (UsbPrinter Scanner))
unfolding read_config start_from
start env flags =
    if is_empty flags.descriptors_path
    then ok none
    else or_return (read_config env flags.descriptors_path)
        λ descriptors. if is_dict descriptors then start_from env flags descriptors else ok none
