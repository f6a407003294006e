-- ===== src/Http/Response/Serialized.antt =====
-- What `HttpResponse::Serialize` writes.
use virtual_usb_printer.Common.{
  ℕ, zero, suc, ◌+◌, ◌-◌, ◌*◌, ◌/◌, ◌%◌, ◌<◌, ◌≡◌, refl, sym, ap, ◌∙◌, inl, inr, Option, some, [],
  ◌∷◌, ◌++◌, append-nil, append_assoc, arith, ltb, if◌then◌else◌, Bool-cases, length, Bytes, codes,
  bytes_eq,
}
use virtual_usb_printer.FlatMap.{find, assign}
use virtual_usb_printer.FlatMap.Laws.{find-assign}
use virtual_usb_printer.SmartBuffer.{SmartBuffer, add}
use virtual_usb_printer.Http.Request.{HttpHeaders, http_line_end}
use virtual_usb_printer.Http.Response.{
  HttpResponse, decimal, to_string, standard_headers, add_headers, serialize,
}

-- A header line for each header.
abbrev pub headers_wire : HttpHeaders → Bytes
headers_wire [] = []
headers_wire ((name, value) ∷ headers) =
    name ++ (codes ": " ++ (value ++ (http_line_end ++ headers_wire headers)))

add_headers_lem :
    (headers : HttpHeaders) (buf : SmartBuffer)
    → add_headers headers buf ≡ buf ++ headers_wire headers
unfolding add_headers add
add_headers_lem [] buf = sym (append-nil buf)
add_headers_lem ((name, value) ∷ headers) buf =
    add_headers_lem headers ((((buf ++ name) ++ codes ": ") ++ value) ++ http_line_end)
    ∙ simp append_assoc

-- The value of a decimal numeral behind some digits of value `n`.
abbrev pub numeral : Bytes → ℕ → ℕ
numeral [] n = n
numeral (b ∷ bs) n = numeral bs (10 * n + (b - b'0'))

numeral-append :
    (xs : Bytes) (b n : ℕ) → numeral (xs ++ (b ∷ [])) n ≡ 10 * numeral xs n + (b - b'0')
numeral-append [] b n = refl
numeral-append (x ∷ xs) b n = numeral-append xs b (10 * n + (x - b'0'))

numeral-decimal : (fuel n : ℕ) → n < fuel → numeral (decimal fuel n) 0 ≡ n
unfolding decimal
numeral-decimal zero n h = absurd (omega arith)
numeral-decimal (suc fuel) n h = elim (Bool-cases (ltb n 10)) [
  | inl small ↦ ground (arith, small)
  | inr large ↦
      let front = numeral-decimal fuel (n / 10) (ground arith) in
      ground (arith, large, front, numeral-append (decimal fuel (n / 10)) (b'0' + n % 10) 0)
]

-- The length that a response announces reads as the number of bytes of its body.
pub numeral-to_string : (n : ℕ) → numeral (to_string n) 0 ≡ n
unfolding to_string
numeral-to_string n = numeral-decimal (suc n) n (omega arith)

find-standard_headers :
    (self : HttpResponse) (k : Bytes)
    → find k (standard_headers self) ≡ (
        if bytes_eq k (codes "Content-Length")
        then some (to_string (length self.body))
        else if bytes_eq k (codes "Connection")
        then some (codes "close")
        else if bytes_eq k (codes "Server")
        then some (codes "localhost:0")
        else find k self.headers)
unfolding standard_headers
find-standard_headers self k =
    let server = assign (codes "Server") (codes "localhost:0") self.headers in
    let connection = assign (codes "Connection") (codes "close") server in
    find-assign k (codes "Content-Length") (to_string (length self.body)) connection
    ∙ ap (otherwise (codes "Content-Length") (to_string (length self.body))) (
        find-assign k (codes "Connection") (codes "close") server
        ∙ ap (otherwise (codes "Connection") (codes "close"))
            (find-assign k (codes "Server") (codes "localhost:0") self.headers))
  where
    otherwise : Bytes → Bytes → Option Bytes → Option Bytes
    otherwise name value o = if bytes_eq k name then some value else o

-- A response is its status line, a line for each header, an empty line and its body. It has all its headers,
-- and under their names the server, `close` for the connection and the length of the body, which reads as
-- the number of bytes that follow the empty line.
pub serialize_lem :
    (self : HttpResponse) (buf : SmartBuffer)
    → (serialize self buf
        ≡ buf
          ++ (codes "HTTP/1.1 "
              ++ (self.status
                  ++ (http_line_end
                      ++ (headers_wire (standard_headers self) ++ (http_line_end ++ self.body))))))
      × ((k : Bytes)
          → find k (standard_headers self) ≡ (
              if bytes_eq k (codes "Content-Length")
              then some (to_string (length self.body))
              else if bytes_eq k (codes "Connection")
              then some (codes "close")
              else if bytes_eq k (codes "Server")
              then some (codes "localhost:0")
              else find k self.headers))
      × (numeral (to_string (length self.body)) 0 ≡ length self.body)
unfolding serialize add
serialize_lem self buf = (
  rw
      (add_headers_lem (standard_headers self)
        (((buf ++ codes "HTTP/1.1 ") ++ self.status) ++ http_line_end))
      (simp append_assoc),
  find-standard_headers self,
  numeral-to_string (length self.body),
)
