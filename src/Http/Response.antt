-- ===== src/Http/Response.antt =====
-- `HttpResponse` of http_util.h.
pub mod Serialized
use virtual_usb_printer.Common.{
  ℕ, zero, suc, ◌+◌, ◌/◌, ◌%◌, [], ◌∷◌, ◌++◌, ltb, if◌then◌else◌, length, set, Bytes, codes,
}
use virtual_usb_printer.FlatMap.{FlatMap, assign}
use virtual_usb_printer.SmartBuffer.{SmartBuffer, add}
use virtual_usb_printer.Http.Request.{HttpHeaders, http_line_end}

pub record HttpResponse : Type 0 where
  pub status : Bytes
  pub headers : HttpHeaders
  pub body : SmartBuffer

-- `std::to_string`: decimal digits. A number has no more digits than its value plus one.
unfoldable pub decimal : ℕ → ℕ → Bytes
decimal zero n = []
decimal (suc fuel) n =
    let front = decimal fuel (n / 10) in
    if ltb n 10 then (b'0' + n) ∷ [] else front ++ ((b'0' + n % 10) ∷ [])

unfoldable pub to_string : ℕ → Bytes
unfolding decimal
to_string n = decimal (suc n) n

-- The headers with the standard ones set, over any that the response has under their names.
unfoldable pub standard_headers : HttpResponse → HttpHeaders
unfolding to_string
standard_headers self = assign (codes "Content-Length") (to_string (length self.body)) (
    assign (codes "Connection") (codes "close")
      (assign (codes "Server") (codes "localhost:0") self.headers))

-- The loop over the headers.
unfoldable pub add_headers : HttpHeaders → SmartBuffer → SmartBuffer
unfolding add
add_headers [] buf = buf
add_headers ((name, value) ∷ headers) buf =
    add_headers headers (add (add (add (add buf name) (codes ": ")) value) http_line_end)

unfoldable pub serialize : HttpResponse → SmartBuffer → SmartBuffer
unfolding standard_headers add_headers
serialize self buf =
    let line = add (add (add buf (codes "HTTP/1.1 ")) self.status) http_line_end in
    add (add (add_headers (standard_headers self) line) http_line_end) self.body
