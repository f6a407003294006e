-- ===== src/Http/Request/Parsed.antt =====
-- What `HttpRequest::Deserialize` takes off the message.
use virtual_usb_printer.Common.{
  ℕ, ◌+◌, ◌-◌, ◌≤◌, ◌<◌, min, ◌≡◌, refl, sym, ap, subst, ◌∙◌, inl, inr, Option, none, some, List,
  [], ◌∷◌, ◌++◌, arith, ◌==◌, Bool-cases, Option-cases, length, take, drop, take-append-drop,
  length-take, drop-length, drop-drop, Result, ok, Bytes, codes, is_prefix→append,
}
use virtual_usb_printer.BaseStrings.{BaseStrings}
use virtual_usb_printer.SmartBuffer.{SmartBuffer, find_first_occurrence}
use virtual_usb_printer.SmartBuffer.Edit.{erase_front}
use virtual_usb_printer.SmartBuffer.Search.{
  OccursAt, IsFirst, find_first_occurrence-IsFirst, OccursAt-fits,
}
use virtual_usb_printer.Http.Request.{
  HttpRequest, http_request_end, http_line_end, deserialize, request_of_tokens,
  validate_http_version, parse_http_headers,
}

-- The buffer is a head, the first "\r\n\r\n" of the buffer, and the rest.
abbrev pub HasHead : SmartBuffer → SmartBuffer → Type 0
HasHead m rest =
    (head : Bytes) × (m ≡ head ++ (http_request_end ++ rest))
    × ((j : ℕ) → j < length head → ¬ OccursAt http_request_end m j)

-- What a parse gives: nothing, or a request and what follows the head.
unfoldable pub IsParsed : SmartBuffer → Option (HttpRequest × SmartBuffer) → Type 0
IsParsed m none = Unit {0}
IsParsed m (some (request, rest)) = HasHead m rest

Parsed : SmartBuffer → Result (Option (HttpRequest × SmartBuffer)) → Type 0
Parsed m r = (o : Option (HttpRequest × SmartBuffer)) × (r ≡ ok o) × IsParsed m o

head_split :
    (m : SmartBuffer) (i : ℕ)
    → i ≤ length m
    → OccursAt http_request_end m i
    → (i + 4 ≤ length m) × (m ≡ take i m ++ (http_request_end ++ drop (i + 4) m))
head_split m i h o =
    let (rest, d) = is_prefix→append http_request_end (drop i m) o in
    let fits : i + 4 ≤ length m = OccursAt-fits http_request_end m i h o in
    let left : rest ≡ drop (i + 4) m =
      sym (drop-length http_request_end rest) ∙ ap (drop 4) (sym d) ∙ drop-drop 4 i m in
    (fits, sym (take-append-drop i m) ∙ ap (◌++◌ (take i m)) (d ∙ ap (◌++◌ http_request_end) left))

-- A parse with the three tokens of a request line gives up, or takes the head off.
tokens-Parsed :
    (base : BaseStrings) (m : SmartBuffer) (line_end i : ℕ) (tokens : List Bytes)
    → HasHead m (drop (i + 4) m)
    → i + 4 ≤ length m
    → Parsed m (request_of_tokens base m line_end i tokens)
unfolding request_of_tokens IsParsed Parsed
tokens-Parsed base m line_end i [] h f = (none, refl, tt)
tokens-Parsed base m line_end i (a ∷ []) h f = (none, refl, tt)
tokens-Parsed base m line_end i (a ∷ b ∷ []) h f = (none, refl, tt)
tokens-Parsed base m line_end i (a ∷ b ∷ c ∷ []) h f =
    elim (Bool-cases (validate_http_version base c)) [
      | inr invalid ↦ (none, ground (arith, invalid), tt)
      | inl valid ↦
          let start = min (line_end + 2) i in
          let text = take (i - start) (drop start m) in
          elim (Option-cases (parse_http_headers base text)) [
            | inl malformed ↦ (none, ground (arith, valid, malformed), tt)
            | inr (headers, parsed) ↦ (
              some (record { method = a; uri = b; headers = headers }, drop (i + 4) m),
              ground (arith, valid, parsed, erase_front m (i + 4) f),
              h,
            )
          ]
    ]
tokens-Parsed base m line_end i (a ∷ b ∷ c ∷ d ∷ more) h f = (none, refl, tt)

-- `HttpRequest::Deserialize` always returns. Where it gives a request, the message loses exactly its head:
-- all that stands before the first "\r\n\r\n", and that.
pub deserialize-IsParsed :
    (base : BaseStrings) (m : SmartBuffer)
    → (o : Option (HttpRequest × SmartBuffer)) × (deserialize base m ≡ ok o) × IsParsed m o
unfolding deserialize IsFirst IsParsed Parsed
deserialize-IsParsed base m = elim (Option-cases (find_first_occurrence m http_request_end)) [
  | inl absent ↦ (none, ground (arith, absent), tt)
  | inr (i, found) ↦ elim (Option-cases (find_first_occurrence m http_line_end)) [
    | inl no_line ↦ (none, ground (arith, found, no_line), tt)
    | inr (line_end, line) ↦ elim (Bool-cases (line_end == 0)) [
      | inl empty ↦ (none, ground (arith, found, line, empty), tt)
      | inr nonempty ↦
          let first : IsFirst http_request_end m (some i) =
            subst (IsFirst http_request_end m) found
              (find_first_occurrence-IsFirst m http_request_end (λ e. cc)) in
          let (fits, split) = head_split m i first.0 (first.1) in
          let (o, e, p) =
            tokens-Parsed base m line_end i (base.split_string (take line_end m) (codes " "))
              (take i m, split, λ j less. first.2 j (omega (arith, length-take i m))) fits in
          (o, ground (arith, found, line, nonempty, e), p)
    ]
  ]
]
