-- ===== src/Tests/Http.antt =====
-- The HTTP side, and requests in several transfers.
use virtual_usb_printer.Common.{
  ◌≡◌, refl, ◌↔◌, true, Option, none, some, [], ◌∷◌, ◌++◌, arith, if◌then◌else◌, out_of_fuel, ok,
  err, Bytes, codes, bytes_eq,
}
use virtual_usb_printer.SmartBuffer.{SmartBuffer, add_range, erase, find_first_occurrence}
use virtual_usb_printer.FlatMap.{find, emplace, assign}
use virtual_usb_printer.Http.Request.{
  HttpRequest, deserialize, http_line_end, content_length, is_chunked_message,
}
use virtual_usb_printer.Http.Request.Parsed.{IsParsed, deserialize-IsParsed}
use virtual_usb_printer.Http.Response.{HttpResponse, to_string, standard_headers, serialize}
use virtual_usb_printer.Http.Response.Serialized.{headers_wire, numeral, serialize_lem}
use virtual_usb_printer.Http.Chunk.{
  contains_final_chunk, parse_http_chunked_message, merge_loop, merge_document,
}
use virtual_usb_printer.Http.Chunk.Parse.{Chunk, IsChunk, parse_http_chunked_message-chunk_wire}
use virtual_usb_printer.Http.Chunk.Merge.{merge_document-chunks_wire, merge_loop_hangs}
use virtual_usb_printer.Http.Chunk.Final.{EndsOnce, contains_final_chunk_lem}
use virtual_usb_printer.Printer.Interface.{new_interface_manager, get_interface_manager}
use virtual_usb_printer.Printer.Data.{UsbPrinter}
use virtual_usb_printer.Printer.Data.Receive.{
  handle_transfers, collected, answered, handle_transfers_lem,
}
use virtual_usb_printer.Tests.Data.{base, escl, printer}

abbrev hello : Chunk
hello = record { size = codes "5"; bytes = codes "hello" }

abbrev empty_chunk : Chunk
empty_chunk = record { size = codes "0"; bytes = [] }

hello-IsChunk : IsChunk base hello
hello-IsChunk = record { not_empty = omega arith; no_return = ((λ e. cc), tt); reads = refl }

empty_chunk-IsChunk : IsChunk base empty_chunk
empty_chunk-IsChunk = record { not_empty = omega arith; no_return = ((λ e. cc), tt); reads = refl }

parse_http_chunked_message-chunk_wire_example :
    parse_http_chunked_message base (codes "5\r\nhello\r\n0\r\n\r\n")
    ≡ ok (codes "hello", codes "0\r\n\r\n")
parse_http_chunked_message-chunk_wire_example =
    parse_http_chunked_message-chunk_wire base hello (codes "0\r\n\r\n") hello-IsChunk (omega arith)

merge_document-chunks_wire_example :
    merge_document base (codes "5\r\nhello\r\n0\r\n\r\n") ≡ ok (codes "hello")
merge_document-chunks_wire_example =
    merge_document-chunks_wire base (hello ∷ empty_chunk ∷ [])
      (hello-IsChunk, (empty_chunk-IsChunk, tt)) (omega arith)

no_line_end : find_first_occurrence (codes "\n") http_line_end ≡ none
unfolding find_first_occurrence
no_line_end = refl

merge_loop_hangs_example : merge_loop 100 base [] (codes "\n") ≡ err out_of_fuel
merge_loop_hangs_example = merge_loop_hangs 100 base [] (codes "\n") (omega arith) no_line_end

-- A message that passes for complete and whose chunks are never merged.
abbrev odd_message : SmartBuffer
odd_message = codes "4\r\n0\r\n\r\n"

odd_message_complete : contains_final_chunk odd_message ≡ true
unfolding contains_final_chunk find_first_occurrence
odd_message_complete = refl

odd_message_hangs : merge_document base odd_message ≡ err out_of_fuel
unfolding merge_document parse_http_chunked_message find_first_occurrence add_range erase
odd_message_hangs = refl

contains_final_chunk_lem_example : (contains_final_chunk odd_message ≡ true) ↔ EndsOnce odd_message
contains_final_chunk_lem_example = contains_final_chunk_lem odd_message

abbrev first_transfer : SmartBuffer
first_transfer = codes "POST /x HTTP/1.1\r\nContent-Length: 5\r\n\r\nhe"

abbrev request : HttpRequest
request = record {
  method = codes "POST";
  uri = codes "/x";
  headers = (codes "Content-Length", codes "5") ∷ [];
}

request_parsed : deserialize base first_transfer ≡ ok (some (request, codes "he"))
unfolding deserialize find_first_occurrence erase emplace find assign
request_parsed = refl

deserialize-IsParsed_example :
    (o : Option (HttpRequest × SmartBuffer)) × (deserialize base first_transfer ≡ ok o)
    × IsParsed first_transfer o
deserialize-IsParsed_example = deserialize-IsParsed base first_transfer

abbrev idle_printer : UsbPrinter (Unit {0})
idle_printer = printer (new_interface_manager ∷ [])

idle_interface :
    get_interface_manager (new_interface_manager ∷ []) 1 ≡ ok (0, new_interface_manager)
unfolding get_interface_manager
idle_interface = refl

handle_transfers_lem_example :
    handle_transfers base escl idle_printer 1 (first_transfer ∷ codes "l" ∷ codes "lo" ∷ [])
    ≡ collected base escl
        (answered base escl idle_printer 0 new_interface_manager request (codes "hello"))
unfolding content_length is_chunked_message find
handle_transfers_lem_example =
    handle_transfers_lem base escl idle_printer 1 0 first_transfer (codes "he") (codes "lo")
      (codes "l" ∷ []) new_interface_manager request idle_interface refl refl request_parsed refl
      (omega arith) refl

abbrev not_found : HttpResponse
not_found = record { status = codes "404 Not Found"; headers = []; body = codes "x" }

serialize_lem_example :
    (serialize not_found []
      ≡ codes "HTTP/1.1 "
        ++ (not_found.status
            ++ (http_line_end
                ++ (headers_wire (standard_headers not_found) ++ (http_line_end ++ codes "x")))))
    × ((k : Bytes)
        → find k (standard_headers not_found) ≡ (
            if bytes_eq k (codes "Content-Length")
            then some (to_string 1)
            else if bytes_eq k (codes "Connection")
            then some (codes "close")
            else if bytes_eq k (codes "Server")
            then some (codes "localhost:0")
            else none))
    × (numeral (to_string 1) 0 ≡ 1)
unfolding find
serialize_lem_example = serialize_lem not_found []
