-- ===== src/Http/Chunk/Parse.antt =====
-- One chunk: what `ParseHttpChunkedMessage` takes off a message.
use virtual_usb_printer.Common.{
  ℕ, ◌+◌, ◌^◌, ◌≤◌, ◌<◌, ◌≡◌, sym, ap, ◌∙◌, ◌≢◌, none, some, [], ◌∷◌, ◌++◌, arith, length, take,
  drop, All, length-append, drop-length, take-length, drop-drop, Result, ok, ◌>>=◌, Bytes,
}
use virtual_usb_printer.BaseStrings.{BaseStrings}
use virtual_usb_printer.SmartBuffer.{
  SmartBuffer, add, add_range, erase, find_first_occurrence, search_from,
}
use virtual_usb_printer.SmartBuffer.Edit.{erase_front, add_range_lem}
use virtual_usb_printer.SmartBuffer.Search.{find_first_occurrence-search_from, search_from-append}
use virtual_usb_printer.Http.Request.{http_line_end}
use virtual_usb_printer.Http.Chunk.{extract_chunk_size, skip_line_end, parse_http_chunked_message}

-- A chunk as RFC 7230 writes it: the size in hexadecimal, the data, and a line end behind each.
pub record Chunk : Type 0 where
  pub size : Bytes
  pub bytes : Bytes

abbrev pub chunk_wire : Chunk → Bytes → Bytes
chunk_wire c rest = c.size ++ (13 ∷ 10 ∷ (c.bytes ++ (13 ∷ 10 ∷ rest)))

-- `HexStringToUInt` reads the chunk's size in the digits, which hold no line end.
pub record IsChunk (base : BaseStrings) (c : Chunk) : Type 0 where
  pub not_empty : 0 < length c.size
  pub no_return : All (λ b. b ≢ 13) c.size
  pub reads : base.hex_string_to_uint c.size ≡ some (length c.bytes)

line_end-ne-nil : http_line_end ≢ []
line_end-ne-nil e = cc

pub line_end_search :
    (m : SmartBuffer) → find_first_occurrence m http_line_end ≡ search_from http_line_end m
line_end_search m = find_first_occurrence-search_from m http_line_end line_end-ne-nil

-- Where the first line end stands behind `front`.
pub find_line_end :
    (front rest : Bytes)
    → All (λ b. b ≢ 13) front
    → find_first_occurrence (front ++ (13 ∷ 10 ∷ rest)) http_line_end ≡ some (length front)
find_line_end front rest h =
    line_end_search (front ++ (13 ∷ 10 ∷ rest)) ∙ search_from-append front 13 (10 ∷ []) rest h

skip_line_end_found :
    (m : SmartBuffer)
    → find_first_occurrence m http_line_end ≡ some 0
    → 2 ≤ length m
    → skip_line_end m ≡ ok (drop 2 m)
unfolding skip_line_end
skip_line_end_found m e h = ground (arith, e, erase_front m 2)

pub skip_line_end_there : (rest : Bytes) → skip_line_end (13 ∷ 10 ∷ rest) ≡ ok rest
skip_line_end_there rest =
    skip_line_end_found (13 ∷ 10 ∷ rest) (find_line_end [] rest tt) (omega arith)

pub skip_line_end_none :
    (message : SmartBuffer) (i : ℕ)
    → find_first_occurrence message http_line_end ≡ some i
    → 0 < i
    → skip_line_end message ≡ ok message
unfolding skip_line_end
skip_line_end_none message i e h = ground (arith, e)

-- A message without a line end.
pub skip_line_end_absent :
    (message : SmartBuffer)
    → find_first_occurrence message http_line_end ≡ none
    → skip_line_end message ≡ ok message
unfolding skip_line_end
skip_line_end_absent message e = ground (arith, e)

extract_chunk_size_found :
    (base : BaseStrings) (m : SmartBuffer) (i n : ℕ)
    → find_first_occurrence m http_line_end ≡ some i
    → base.hex_string_to_uint (take i m) ≡ some n
    → extract_chunk_size base m ≡ n
unfolding extract_chunk_size
extract_chunk_size_found base m i n e h = ground (arith, e, h)

-- The steps of a round on a message that does not begin with a line end.
pub parse_steps :
    (base : BaseStrings) (m : SmartBuffer) (start size : ℕ) (ret erased : SmartBuffer)
    → skip_line_end m ≡ ok m
    → find_first_occurrence m http_line_end ≡ some start
    → extract_chunk_size base m ≡ size
    → add_range [] m (start + 2) size ≡ ok ret
    → start + size + 2 ≤ length m
    → erase m 0 (start + size + 2) ≡ ok erased
    → parse_http_chunked_message base m ≡ (skip_line_end erased >>= λ left. ok (ret, left))
unfolding parse_http_chunked_message
parse_steps base m start size ret erased sk f e a h er = ground (arith, sk, f, e, a, er)

module _ (base : BaseStrings) (c : Chunk) (rest : Bytes) (v : IsChunk base c) where
  found : find_first_occurrence (chunk_wire c rest) http_line_end ≡ some (length c.size)
  found = find_line_end c.size (c.bytes ++ (13 ∷ 10 ∷ rest)) v.no_return

  extract_chunk_size-chunk_wire : extract_chunk_size base (chunk_wire c rest) ≡ length c.bytes
  extract_chunk_size-chunk_wire =
      extract_chunk_size_found base (chunk_wire c rest) (length c.size) (length c.bytes) found
        (rw (take-length c.size (13 ∷ 10 ∷ (c.bytes ++ (13 ∷ 10 ∷ rest)))) v.reads)

  pub length-chunk_wire :
      length (chunk_wire c rest) ≡ length c.size + 2 + (length c.bytes + 2 + length rest)
  length-chunk_wire = omega (
    arith,
    length-append c.size (13 ∷ 10 ∷ (c.bytes ++ (13 ∷ 10 ∷ rest))),
    length-append c.bytes (13 ∷ 10 ∷ rest),
  )

  behind_size : drop (length c.size + 2) (chunk_wire c rest) ≡ c.bytes ++ (13 ∷ 10 ∷ rest)
  behind_size =
      sym (drop-drop 2 (length c.size) (chunk_wire c rest))
      ∙ ap (drop 2) (drop-length c.size (13 ∷ 10 ∷ (c.bytes ++ (13 ∷ 10 ∷ rest))))

  behind_bytes : drop (length c.size + length c.bytes + 2) (chunk_wire c rest) ≡ 13 ∷ 10 ∷ rest
  behind_bytes =
      let e : length c.size + length c.bytes + 2 ≡ length c.size + 2 + length c.bytes =
        omega arith in
      rw e (
        sym (drop-drop (length c.bytes) (length c.size + 2) (chunk_wire c rest))
        ∙ ap (drop (length c.bytes)) behind_size
        ∙ drop-length c.bytes (13 ∷ 10 ∷ rest))

  range :
      length (chunk_wire c rest) < 2 ^ 64
      → add_range [] (chunk_wire c rest) (length c.size + 2) (length c.bytes) ≡ ok c.bytes
  unfolding add
  range h =
      add_range_lem [] (chunk_wire c rest) (length c.size + 2) (length c.bytes)
        (omega (arith, length-chunk_wire))
      ∙ rw (behind_size, take-length c.bytes (13 ∷ 10 ∷ rest)) (ground (arith, length-chunk_wire))

  -- A well-formed chunk is taken off whole: its data is returned, and what follows it is left.
  pub parse_http_chunked_message-chunk_wire :
      length (chunk_wire c rest) < 2 ^ 64
      → parse_http_chunked_message base (chunk_wire c rest) ≡ ok (c.bytes, rest)
  parse_http_chunked_message-chunk_wire h =
      let m = chunk_wire c rest in
      let inside : length c.size + length c.bytes + 2 ≤ length m =
        omega (arith, length-chunk_wire) in
      let erased : erase m 0 (length c.size + length c.bytes + 2) ≡ ok (13 ∷ 10 ∷ rest) =
        erase_front m (length c.size + length c.bytes + 2) inside ∙ ap ok behind_bytes in
      parse_steps base m (length c.size) (length c.bytes) c.bytes (13 ∷ 10 ∷ rest)
        (skip_line_end_none m (length c.size) found v.not_empty) found extract_chunk_size-chunk_wire
        (range h) inside erased
      ∙ ap (λ (r : Result SmartBuffer). r >>= λ left. ok (c.bytes, left)) (skip_line_end_there rest)
