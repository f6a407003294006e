-- ===== src/Tests/Exchange.antt =====
-- A request in three transfers, and its response.
use virtual_usb_printer.Common.{
  ℕ, ◌≡◌, refl, true, none, some, List, [], ◌∷◌, ◌++◌, arith, length, ok, Bytes, codes, bytes_eq,
  is_prefix,
}
use virtual_usb_printer.SmartBuffer.{SmartBuffer, erase, find_first_occurrence}
use virtual_usb_printer.FlatMap.{bytes_lt, find, emplace, assign}
use virtual_usb_printer.Http.Request.{HttpRequest, deserialize, content_length, is_chunked_message}
use virtual_usb_printer.Http.Response.{serialize}
use virtual_usb_printer.Usbip.{UsbipCmdSubmit}
use virtual_usb_printer.Printer.Interface.{
  InterfaceManager, new_interface_manager, get_interface_manager,
}
use virtual_usb_printer.Printer.Bulk.{to_size_t}
use virtual_usb_printer.Printer.Bulk.Pieces.{payloads, asked}
use virtual_usb_printer.Printer.Data.{UsbPrinter, Generated, generate_http_response}
use virtual_usb_printer.Printer.Dispatch.{is_ipp_usb}
use virtual_usb_printer.Printer.Exchange.{Transfer, IsOut, IsIn, receipts, reads, serve_all}
use virtual_usb_printer.Printer.Exchange.Response.{IsIdle, exchange_lem}
use virtual_usb_printer.Tests.Data.{submit, interface, descriptors, base, escl, printer}

abbrev two_interfaces : UsbPrinter (Unit {0})
two_interfaces = record (printer (new_interface_manager ∷ new_interface_manager ∷ [])) {
  usb_descriptors = record descriptors { interface_descriptors = interface ∷ interface ∷ [] };
}

two_ipp_usb : is_ipp_usb two_interfaces ≡ true
unfolding is_ipp_usb
two_ipp_usb = refl

abbrev out_ : ℕ → UsbipCmdSubmit
out_ ep = record (submit ep 0) {
  header = record { command = 1; seqnum = 8; devid = 2; direction = 0; ep = ep };
}

abbrev in_ : ℕ → UsbipCmdSubmit
in_ size = record (submit 2 0) { transfer_buffer_length = size }

abbrev first_transfer : SmartBuffer
first_transfer = codes "POST /x HTTP/1.1\r\nContent-Length: 5\r\n\r\nhe"

abbrev request : HttpRequest
request = record {
  method = codes "POST";
  uri = codes "/x";
  headers = (codes "Content-Length", codes "5") ∷ [];
}

abbrev transfers : List Transfer
transfers = (out_ 1, first_transfer) ∷ (out_ 1, codes "l") ∷ (out_ 1, codes "lo") ∷ []

abbrev to_one : (bytes : SmartBuffer) → IsOut 1 (out_ 1, bytes)
to_one bytes = record { to = refl; control = refl; direction = refl }

abbrev from_two : (size : ℕ) → IsIn 2 (in_ size)
from_two size = record { from = refl; control = refl; direction = refl }

request_parsed : deserialize base first_transfer ≡ ok (some (request, codes "he"))
unfolding deserialize find_first_occurrence erase emplace find assign
request_parsed = refl

first_endpoint :
    get_interface_manager (new_interface_manager ∷ new_interface_manager ∷ []) 1
    ≡ ok (0, new_interface_manager)
unfolding get_interface_manager
first_endpoint = refl

second_endpoint :
    get_interface_manager (new_interface_manager ∷ new_interface_manager ∷ []) 2
    ≡ ok (0, new_interface_manager)
unfolding get_interface_manager
second_endpoint = refl

abbrev not_found : Generated (Unit {0})
not_found = record {
  response = record { status = codes "404 Not Found"; headers = []; body = [] };
  escl_manager = tt;
  recorded = none;
}

answered : generate_http_response base escl two_interfaces request (codes "hello") ≡ ok not_found
unfolding generate_http_response bytes_eq is_prefix
answered = refl

size_of_answer : length (serialize not_found.response []) ≡ 85
unfolding serialize assign bytes_eq bytes_lt
size_of_answer = refl

asked_fifty : asked (in_ 50) ≡ 50
unfolding to_size_t
asked_fifty = refl

exchange_lem_example :
    (after : UsbPrinter (Unit {0})) × (pieces : List Bytes) × (serve_all base escl two_interfaces
        (transfers ++ reads (in_ 50 ∷ in_ 50 ∷ []))
      ≡ ok (after, receipts transfers ++ pieces))
    × (payloads pieces ≡ serialize not_found.response [])
    × (now : InterfaceManager) × (get_interface_manager after.interface_managers 2 ≡ ok (0, now))
    × IsIdle now
unfolding content_length is_chunked_message find
exchange_lem_example =
    exchange_lem base escl two_interfaces 1 2 0 transfers first_transfer (codes "he") (codes "lo")
      (codes "l" ∷ []) new_interface_manager request not_found (in_ 50 ∷ []) (in_ 50) two_ipp_usb
      first_endpoint second_endpoint (record { receiving = refl; empty = refl; nothing = refl })
      (to_one first_transfer, (to_one (codes "l"), (to_one (codes "lo"), tt))) refl request_parsed
      refl (omega arith) refl answered (from_two 50, (from_two 50, tt))
      (omega (arith, asked_fifty, size_of_answer)) (omega (arith, asked_fifty, size_of_answer))
