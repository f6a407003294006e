-- ===== src/Http/Chunk/Merge.antt =====
-- `MergeDocument`: what it gives on well-formed messages, and on which it never ends.
use virtual_usb_printer.Common.{
  ℕ, zero, suc, ◌+◌, ◌^◌, ◌≤◌, ◌<◌, ◌≡◌, refl, ap, subst, ◌∙◌, ◌⊎◌, inl, inr, none, List, [], ◌∷◌,
  ◌++◌, append-nil, append_assoc, arith, leb, Bool-cases, Option-cases, length, All, length-drop,
  out_of_fuel, Result, ok, err, ◌>>=◌, check, bind-eq-ok, Result-cases, Bytes,
}
use virtual_usb_printer.BaseStrings.{BaseStrings}
use virtual_usb_printer.SmartBuffer.{SmartBuffer, add, add_range, erase, find_first_occurrence}
use virtual_usb_printer.SmartBuffer.Edit.{erase_front-ok}
use virtual_usb_printer.Http.Request.{http_line_end}
use virtual_usb_printer.Http.Chunk.{
  take_chunk, starts_with_line_end, skip_line_end, parse_http_chunked_message, merge_loop,
  merge_document, extract_chunk_size,
}
use virtual_usb_printer.Http.Chunk.Parse.{
  Chunk, chunk_wire, IsChunk, parse_http_chunked_message-chunk_wire, length-chunk_wire,
  skip_line_end_absent,
}

abbrev pub chunks_wire : List Chunk → Bytes
chunks_wire [] = []
chunks_wire (c ∷ cs) = chunk_wire c (chunks_wire cs)

abbrev pub chunks_bytes : List Chunk → Bytes
chunks_bytes [] = []
chunks_bytes (c ∷ cs) = c.bytes ++ chunks_bytes cs

merge_step :
    (fuel : ℕ) (base : BaseStrings) (document m : SmartBuffer)
    → 0 < length m
    → merge_loop (suc fuel) base document m
      ≡ (parse_http_chunked_message base m >>= λ r. merge_loop fuel base (document ++ r.0) r.1)
unfolding merge_loop add
merge_step fuel base document [] h = absurd (omega arith)
merge_step fuel base document (b ∷ m) h = refl

merge_loop-chunks_wire :
    (fuel : ℕ) (base : BaseStrings) (document : SmartBuffer) (cs : List Chunk)
    → All (IsChunk base) cs
    → length (chunks_wire cs) < 2 ^ 64
    → length cs ≤ fuel
    → merge_loop fuel base document (chunks_wire cs) ≡ ok (document ++ chunks_bytes cs)
merge_loop-chunks_wire fuel base document [] v h f = rw append-nil (unfold merge_loop in refl)
merge_loop-chunks_wire zero base document (c ∷ cs) v h f = absurd (omega arith)
merge_loop-chunks_wire (suc fuel) base document (c ∷ cs) v h f =
    let size = length-chunk_wire base c (chunks_wire cs) v.0 in
    merge_step fuel base document (chunks_wire (c ∷ cs)) (omega arith)
    ∙ ap
        (λ (r : Result (SmartBuffer × SmartBuffer)).
          r >>= λ p. merge_loop fuel base (document ++ p.0) p.1)
        (parse_http_chunked_message-chunk_wire base c (chunks_wire cs) v.0 h)
    ∙ merge_loop-chunks_wire fuel base (document ++ c.bytes) cs v.1 (omega arith) (omega arith)
    ∙ ap ok (append_assoc document c.bytes (chunks_bytes cs))

length-chunks_wire :
    (base : BaseStrings) (cs : List Chunk)
    → All (IsChunk base) cs
    → length cs ≤ length (chunks_wire cs)
length-chunks_wire base [] v = omega arith
length-chunks_wire base (c ∷ cs) v =
    omega (arith, length-chunk_wire base c (chunks_wire cs) v.0, length-chunks_wire base cs v.1)

-- `MergeDocument` joins the data of the chunks of a well-formed message, the last and empty one
-- included, in their order, and ends.
pub merge_document-chunks_wire :
    (base : BaseStrings) (cs : List Chunk)
    → All (IsChunk base) cs
    → length (chunks_wire cs) < 2 ^ 64
    → merge_document base (chunks_wire cs) ≡ ok (chunks_bytes cs)
unfolding merge_document
merge_document-chunks_wire base cs v h =
    merge_loop-chunks_wire (suc (length (chunks_wire cs))) base [] cs v h
      (omega (arith, length-chunks_wire base cs v))

-- Without a line end a round changes nothing.
parse_without_line_end :
    (base : BaseStrings) (m : SmartBuffer)
    → find_first_occurrence m http_line_end ≡ none
    → parse_http_chunked_message base m ≡ ok ([], m)
unfolding parse_http_chunked_message
parse_without_line_end base m e = ground (arith, skip_line_end_absent m e, e)

-- On a message that is not empty and holds no line end `MergeDocument` never ends: whatever the
-- number of rounds, it asks for more.
pub merge_loop_hangs :
    (fuel : ℕ) (base : BaseStrings) (document m : SmartBuffer)
    → 0 < length m
    → find_first_occurrence m http_line_end ≡ none
    → merge_loop fuel base document m ≡ err out_of_fuel
merge_loop_hangs fuel base document [] h e = absurd (omega arith)
merge_loop_hangs zero base document (b ∷ m) h e = unfold merge_loop in refl
merge_loop_hangs (suc fuel) base document (b ∷ m) h e =
    merge_step fuel base document (b ∷ m) h
    ∙ ap
        (λ (r : Result (SmartBuffer × SmartBuffer)).
          r >>= λ p. merge_loop fuel base (document ++ p.0) p.1)
        (parse_without_line_end base (b ∷ m) e)
    ∙ merge_loop_hangs fuel base (document ++ []) (b ∷ m) h e

skip_cases :
    (m rest : SmartBuffer) → skip_line_end m ≡ ok rest → (rest ≡ m) ⊎ (length rest < length m)
unfolding skip_line_end
skip_cases m rest e = elim (Bool-cases (starts_with_line_end m)) [
  | inr no_ ↦ inl (ground (arith, no_))
  | inl begins ↦
      let erased : erase m 0 2 ≡ ok rest = rw begins at e in
      let (h, d) = erase_front-ok m 2 erased in inr (omega (arith, ap length d, length-drop 2 m))
]

skip_le : (m rest : SmartBuffer) → skip_line_end m ≡ ok rest → length rest ≤ length m
skip_le m rest e = elim (skip_cases m rest e) [
  | inl same ↦ omega (arith, ap length same)
  | inr less ↦ omega arith
]

take_chunk_shorter :
    (m : SmartBuffer) (size start : ℕ) (ret left : SmartBuffer)
    → take_chunk m size start ≡ ok (ret, left)
    → length left < length m
unfolding take_chunk
take_chunk_shorter m size start ret left e =
    let (r, _, e1) = bind-eq-ok (add_range [] m (start + 2) size) _ e in
    let (_, _, e2) = bind-eq-ok (check (leb (start + size + 2) (length m))) _ e1 in
    let (erased, er, e3) = bind-eq-ok (erase m 0 (start + size + 2)) _ e2 in
    let (rest, sk, e4) = bind-eq-ok (skip_line_end erased) _ e3 in
    let (h, d) = erase_front-ok m (start + size + 2) er in
    let same : rest ≡ left = cc in
    omega
      (arith, skip_le erased rest sk, ap length d, ap length same, length-drop (start + size + 2) m)

after_skip :
    (base : BaseStrings) (m rest ret left : SmartBuffer)
    → skip_line_end m ≡ ok rest
    → parse_http_chunked_message base m ≡ ok (ret, left)
    → (length left < length rest)
      ⊎ ((left ≡ rest) × (find_first_occurrence rest http_line_end ≡ none))
unfolding parse_http_chunked_message
after_skip base m rest ret left sk e =
    elim (Option-cases (find_first_occurrence rest http_line_end)) [
      | inl absent ↦ inr (ground (arith, sk, absent), absent)
      | inr (start, found) ↦ inl (
          take_chunk_shorter rest (extract_chunk_size base rest) start ret left
            (ground (arith, sk, found)))
    ]

-- A round that ends has shortened the message, or left it as it is for want of a line end.
pub parse_progress :
    (base : BaseStrings) (m ret left : SmartBuffer)
    → parse_http_chunked_message base m ≡ ok (ret, left)
    → (length left < length m) ⊎ (find_first_occurrence m http_line_end ≡ none)
unfolding parse_http_chunked_message
parse_progress base m ret left e =
    let (rest, sk, _) = bind-eq-ok (skip_line_end m) _ e in
    elim (after_skip base m rest ret left sk e) [
      | inl less ↦ inl (omega (arith, skip_le m rest sk))
      | inr (same, absent) ↦ elim (skip_cases m rest sk) [
        | inl kept ↦ inr (subst (λ x. find_first_occurrence x http_line_end ≡ none) kept absent)
        | inr shorter ↦ inl (omega (arith, ap length same))
      ]
    ]

-- The rounds that `merge_loop` is given are enough: if it asks for more than the message has bytes,
-- it asks for more whatever it is given.
pub merge_loop_enough :
    (fuel : ℕ) (base : BaseStrings) (document m : SmartBuffer)
    → length m ≤ fuel
    → merge_loop fuel base document m ≡ err out_of_fuel
    → (n : ℕ) → merge_loop n base document m ≡ err out_of_fuel
unfolding merge_loop
merge_loop_enough fuel base document [] h e zero = e
merge_loop_enough fuel base document [] h e (suc n) = e
merge_loop_enough zero base document (b ∷ m) h e n = absurd (omega arith)
merge_loop_enough (suc fuel) base document (b ∷ m) h e zero = refl
merge_loop_enough (suc fuel) base document (b ∷ m) h e (suc n) =
    elim (Result-cases (parse_http_chunked_message base (b ∷ m))) [
      | inl ((ret, left), parsed) ↦ elim (parse_progress base (b ∷ m) ret left parsed) [
        | inl shorter ↦
            let e' : merge_loop fuel base (document ++ ret) left ≡ err out_of_fuel =
              ground (arith, e, parsed) in
            ground
              (arith, parsed, merge_loop_enough fuel base (document ++ ret) left (omega arith) e' n)
        | inr absent ↦ merge_loop_hangs (suc n) base document (b ∷ m) (omega arith) absent
      ]
      | inr (fault, failed) ↦ ground (arith, e, failed)
    ]
