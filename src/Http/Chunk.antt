-- ===== src/Http/Chunk.antt =====
-- Chunked messages: the functions of http_util.cc behind `IsHttpChunkedMessage`.
pub mod Parse
pub mod Merge
pub mod Final
use virtual_usb_printer.Common.{
  ℕ, zero, suc, ◌+◌, Bool, true, false, not, none, some, [], ◌∷◌, ltb, leb, ◌==◌, if◌then◌else◌,
  length, take, check_failed, out_of_fuel, Result, ok, err, ◌>>=◌, ◌>>◌, check, Bytes, codes,
}
use virtual_usb_printer.BaseStrings.{BaseStrings}
use virtual_usb_printer.SmartBuffer.{SmartBuffer, add, add_range, erase, find_first_occurrence}
use virtual_usb_printer.Http.Request.{http_line_end, http_request_end}

unfoldable pub is_http_chunked_message : SmartBuffer → Bool
is_http_chunked_message message =
    elim (find_first_occurrence message (codes "Transfer-Encoding: chunked")) [
      | none ↦ false
      | some i ↦ true
    ]

-- Where no size can be read it is taken for 0.
unfoldable pub extract_chunk_size : BaseStrings → SmartBuffer → ℕ
extract_chunk_size base message = elim (find_first_occurrence message http_line_end) [
  | none ↦ 0
  | some end ↦ elim (base.hex_string_to_uint (take end message)) [
    | none ↦ 0
    | some chunk_size ↦ chunk_size
  ]
]

-- `StartsWith(message, "\r\n")`
abbrev pub starts_with_line_end : SmartBuffer → Bool
starts_with_line_end message = elim (find_first_occurrence message http_line_end) [
  | none ↦ false
  | some i ↦ i == 0
]

-- `if (StartsWith(*message, "\r\n")) message->Erase(0, 2);`
unfoldable pub skip_line_end : SmartBuffer → Result SmartBuffer
skip_line_end message = if starts_with_line_end message then erase message 0 2 else ok message

-- From the line end at `start` on: the chunk, and what is left of the message.
unfoldable pub take_chunk : SmartBuffer → ℕ → ℕ → Result (SmartBuffer × SmartBuffer)
unfolding skip_line_end
take_chunk message chunk_size start = do
  ret ← add_range [] message (start + 2) chunk_size
  let to_erase_length = start + chunk_size + 2
  check (leb to_erase_length (length message))
  erased ← erase message 0 to_erase_length
  left ← skip_line_end erased
  ok (ret, left)

-- The chunk, and what is left of the message.
unfoldable pub parse_http_chunked_message :
    BaseStrings → SmartBuffer → Result (SmartBuffer × SmartBuffer)
unfolding take_chunk extract_chunk_size
parse_http_chunked_message base message = skip_line_end message >>= λ rest.
    let chunk_size = extract_chunk_size base rest in
    elim (find_first_occurrence rest http_line_end) [
      | none ↦ ok ([], rest)
      | some start ↦ take_chunk rest chunk_size start
    ]

-- "0\r\n\r\n"
abbrev pub final_chunk : Bytes
final_chunk = codes "0\r\n\r\n"

unfoldable pub contains_final_chunk : SmartBuffer → Bool
contains_final_chunk message = elim (find_first_occurrence message final_chunk) [
  | none ↦ false
  | some i ↦ length message == i + 5
]

-- `while (message->size() > 0)`, by rounds. The last chunk is what `chunk` holds behind the loop.
unfoldable pub process_loop : ℕ → BaseStrings → SmartBuffer → SmartBuffer → Result SmartBuffer
process_loop fuel base chunk [] = ok chunk
process_loop zero base chunk (b ∷ message) = err out_of_fuel
process_loop (suc fuel) base chunk (b ∷ message) =
    parse_http_chunked_message base (b ∷ message) >>= λ r. process_loop fuel base r.0 r.1

unfoldable pub process_message_chunks : ℕ → BaseStrings → SmartBuffer → Result Bool
unfolding process_loop is_http_chunked_message
process_message_chunks fuel base message = do
  chunks ←
      if is_http_chunked_message message
      then elim (find_first_occurrence message http_request_end) [
        | none ↦ err check_failed
        | some start ↦ check (ltb 0 start) >> erase message 0 (start + 4)
      ]
      else ok message
  chunk ← process_loop fuel base [] chunks
  ok (not (length chunk == 0))

unfoldable pub extract_ipp_message : BaseStrings → SmartBuffer → Result (SmartBuffer × SmartBuffer)
unfolding parse_http_chunked_message
extract_ipp_message = parse_http_chunked_message

-- The loop of `MergeDocument`, by rounds; the message is empty behind it.
unfoldable pub merge_loop : ℕ → BaseStrings → SmartBuffer → SmartBuffer → Result SmartBuffer
unfolding add
merge_loop fuel base document [] = ok document
merge_loop zero base document (b ∷ message) = err out_of_fuel
merge_loop (suc fuel) base document (b ∷ message) =
    parse_http_chunked_message base (b ∷ message) >>= λ r.
    merge_loop fuel base (add document r.0) r.1

-- More rounds than the message has bytes.
unfoldable pub merge_document : BaseStrings → SmartBuffer → Result SmartBuffer
unfolding merge_loop
merge_document base message = merge_loop (suc (length message)) base [] message
