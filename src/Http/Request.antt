-- ===== src/Http/Request.antt =====
-- `HttpRequest` of http_util.h.
pub mod Parsed
use virtual_usb_printer.Common.{
  ℕ, ◌+◌, ◌-◌, min, Bool, false, not, ◌&&◌, Option, none, some, List, [], ◌∷◌, ◌==◌, if◌then◌else◌,
  length, take, drop, Result, ok, ◌>>=◌, Bytes, codes, bytes_eq,
}
use virtual_usb_printer.BaseStrings.{BaseStrings}
use virtual_usb_printer.FlatMap.{FlatMap, find, emplace}
use virtual_usb_printer.SmartBuffer.{SmartBuffer, find_first_occurrence, search_from, erase}

abbrev pub http_line_end : Bytes
http_line_end = codes "\r\n"

abbrev pub http_request_end : Bytes
http_request_end = codes "\r\n\r\n"

abbrev pub HttpHeaders : Type 0
HttpHeaders = FlatMap Bytes

pub record HttpRequest : Type 0 where
  pub method : Bytes
  pub uri : Bytes
  pub headers : HttpHeaders

-- The loop of `ParseHttpHeaders` over the lines. `substr(n)` is `drop n`, for `n` up to the size.
unfoldable pub parse_header_lines : BaseStrings → List Bytes → HttpHeaders → Option HttpHeaders
parse_header_lines base [] parsed_headers = some parsed_headers
parse_header_lines base (line ∷ lines) parsed_headers = elim (search_from (codes ":") line) [
  | none ↦ none
  | some split ↦ parse_header_lines base lines (
      emplace (take split line) (base.trim_string_leading (drop (split + 1) line) (codes " "))
        parsed_headers)
]

unfoldable pub parse_http_headers : BaseStrings → Bytes → Option HttpHeaders
unfolding parse_header_lines
parse_http_headers base headers =
    parse_header_lines base (base.split_string_using_substr headers http_line_end) []

validate_tokens : List Bytes → Bool
validate_tokens (name ∷ version ∷ []) =
    bytes_eq name (codes "HTTP") && not (bytes_eq version (codes "1.0"))
validate_tokens _ = false

unfoldable pub validate_http_version : BaseStrings → Bytes → Bool
unfolding validate_tokens bytes_eq
validate_http_version base version = validate_tokens (base.split_string version (codes "/"))

-- From the tokens of the request line on. The indices are those of the end of the request line and of
-- the end of the headers.
unfoldable pub request_of_tokens :
    BaseStrings → SmartBuffer → ℕ → ℕ → List Bytes → Result (Option (HttpRequest × SmartBuffer))
unfolding validate_http_version parse_http_headers
request_of_tokens base message line_end request_end (method ∷ uri ∷ http_version ∷ []) =
    if not (validate_http_version base http_version)
    then ok none
    else let headers_start = min (line_end + 2) request_end in
      let text = take (request_end - headers_start) (drop headers_start message) in
      elim (parse_http_headers base text) [
        | none ↦ ok none
        | some headers ↦ erase message 0 (request_end + 4) >>= λ rest.
            ok (some (record { method = method; uri = uri; headers = headers }, rest))
      ]
request_of_tokens base message line_end request_end _ = ok none

-- `none` is `nullopt`, with the message left as it is.
unfoldable pub deserialize : BaseStrings → SmartBuffer → Result (Option (HttpRequest × SmartBuffer))
unfolding request_of_tokens
deserialize base message = elim (find_first_occurrence message http_request_end) [
  | none ↦ ok none
  | some request_end ↦ elim (find_first_occurrence message http_line_end) [
    | none ↦ ok none
    | some line_end ↦
        if line_end == 0
        then ok none
        else request_of_tokens base message line_end request_end
            (base.split_string (take line_end message) (codes " "))
  ]
]

unfoldable pub content_length : BaseStrings → HttpRequest → ℕ
content_length base self = elim (find (codes "Content-Length") self.headers) [
  | none ↦ 0
  | some text ↦ elim (base.string_to_size_t text) [ none ↦ 0 | some length ↦ length ]
]

unfoldable pub is_chunked_message : HttpRequest → Bool
unfolding bytes_eq
is_chunked_message self = elim (find (codes "Transfer-Encoding") self.headers) [
  | none ↦ false
  | some encoding ↦ bytes_eq encoding (codes "chunked")
]
