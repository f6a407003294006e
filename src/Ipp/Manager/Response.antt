-- ===== src/Ipp/Manager/Response.antt =====
-- The responses of `IppManager`, read by the program's own parser.
use virtual_usb_printer.Common.{
  ℕ, ◌≡◌, refl, sym, ap, subst, ◌∙◌, ◌⊎◌, inl, inr, true, Option, none, some, List, [], ◌∷◌, ◌++◌,
  map, append-nil, append_assoc, arith, ◌==◌, if◌then◌else◌, All, Result, ok, err, ◌>>=◌,
  bind-eq-ok, Bytes,
}
use mathlib.Core.Path.{ap₂}
use virtual_usb_printer.SmartBuffer.{SmartBuffer, add}
use virtual_usb_printer.Ipp.Tag.{tag_value}
use virtual_usb_printer.Ipp.Tag
use virtual_usb_printer.Ipp.Header.{
  IppHeader, IsIppHeader, serialize, deserialize, header_wire, serialize-header_wire,
  deserialize-header_wire,
}
use virtual_usb_printer.Ipp.Parse.{is_attribute_group_tag, remove_ipp_attributes}
use virtual_usb_printer.Ipp.Parse.Grammar.{
  WireGroup, attributes_wire, groups_wire, section_wire, IsSection,
}
use virtual_usb_printer.Ipp.Parse.Accepts.{remove_ipp_attributes-section_wire}
use virtual_usb_printer.Ipp.Attribute.{
  IppAttribute, operation_attributes, printer_attributes, job_attributes, get_ipp_tag,
}
use virtual_usb_printer.Ipp.Attribute.Add.{add_printer_attributes, add_end_of_attributes}
use virtual_usb_printer.Ipp.Attribute.Size.{get_attributes_size}
use virtual_usb_printer.Ipp.Attribute.Add.Wire.{HasDateLength}
use virtual_usb_printer.Ipp.Attribute.Add.Dispatch.{add_printer_attributes-IsGroup}
use virtual_usb_printer.Ipp.Manager.{
  IppManager, Reply, response_header, handle_validate_job, two_groups, handle_ipp_request,
  to_record,
}

-- The dates of every attribute that is sent.
pub record HasDates (m : IppManager) : Type 0 where
  pub operations : All HasDateLength m.operation_attributes
  pub printers : All HasDateLength m.printer_attributes
  pub jobs : All HasDateLength m.job_attributes

-- The success header for the request, and well-formed groups whose tags are those listed.
abbrev pub IsResponse : IppHeader → List ℕ → SmartBuffer → Type 0
IsResponse h tags out =
    (gs : List WireGroup) × IsSection gs
    × (map (λ g. g.tag) gs ≡ tags)
    × (out ≡ header_wire (response_header h) ++ section_wire gs)

ok-injective : {a b : SmartBuffer} → ok a ≡ ok b → a ≡ b
ok-injective e = cc

-- The end tag behind the groups.
finish :
    (h : IppHeader) (gs : List WireGroup) (groups out : SmartBuffer)
    → groups ≡ header_wire (response_header h) ++ groups_wire gs
    → ok (add_end_of_attributes groups) ≡ ok out
    → out ≡ header_wire (response_header h) ++ section_wire gs
unfolding add_end_of_attributes add tag_value
finish h gs groups out e f = sym (ok-injective f) ∙ rw e (simp append_assoc)

start : (h : IppHeader) → serialize (response_header h) [] ≡ header_wire (response_header h)
start h = serialize-header_wire (response_header h) []

abbrev with_group : SmartBuffer → WireGroup → SmartBuffer
with_group buf g = buf ++ (g.tag ∷ attributes_wire g.attributes)

finish_one :
    (h : IppHeader) (g : WireGroup) (s operations out : SmartBuffer)
    → s ≡ header_wire (response_header h)
    → operations ≡ with_group s g
    → ok (add_end_of_attributes operations) ≡ ok out
    → out ≡ header_wire (response_header h) ++ section_wire (g ∷ [])
finish_one h g s operations out es eo e =
    finish h (g ∷ []) operations out (eo ∙ rw es (simp append-nil)) e

finish_two :
    (h : IppHeader) (g k : WireGroup) (s operations groups out : SmartBuffer)
    → s ≡ header_wire (response_header h)
    → operations ≡ with_group s g
    → groups ≡ with_group operations k
    → ok (add_end_of_attributes groups) ≡ ok out
    → out ≡ header_wire (response_header h) ++ section_wire (g ∷ k ∷ [])
finish_two h g k s operations groups out es eo eg e =
    finish h (g ∷ k ∷ []) groups out (eg ∙ rw (eo, es) (simp (append-nil, append_assoc))) e

handle_validate_job-IsResponse :
    (m : IppManager) (h : IppHeader) {out : SmartBuffer}
    → HasDates m
    → handle_validate_job m h ≡ ok out
    → IsResponse h (0x01 ∷ []) out
unfolding handle_validate_job tag_value is_attribute_group_tag get_ipp_tag
handle_validate_job-IsResponse m h {out} d e =
    let (_, _, e1) = bind-eq-ok (get_attributes_size m.operation_attributes) _ e in
    let (operations, r, e2) =
      bind-eq-ok
        (add_printer_attributes m.operation_attributes operation_attributes
          (serialize (response_header h) []))
        _ e1 in
    let (g, v, t, split) =
      add_printer_attributes-IsGroup m.operation_attributes operation_attributes Tag.operation _
        d.operations refl refl r in
    (g ∷ [], (v, tt), ap (λ x. x ∷ []) t, finish_one h g _ operations out (start h) split e2)

two_groups-IsResponse :
    (m : IppManager) (as_ : List IppAttribute) (group : Bytes) (tag : Tag.IppTag) (h : IppHeader)
    {out : SmartBuffer}
    → HasDates m
    → All HasDateLength as_
    → get_ipp_tag group ≡ ok tag
    → is_attribute_group_tag (tag_value tag) ≡ true
    → two_groups m as_ group h ≡ ok out
    → IsResponse h (0x01 ∷ tag_value tag ∷ []) out
unfolding two_groups tag_value is_attribute_group_tag get_ipp_tag
two_groups-IsResponse m as_ group tag h {out} d ds et ht e =
    let (_, _, e1) = bind-eq-ok (get_attributes_size m.operation_attributes) _ e in
    let (_, _, e2) = bind-eq-ok (get_attributes_size as_) _ e1 in
    let (operations, r, e3) =
      bind-eq-ok
        (add_printer_attributes m.operation_attributes operation_attributes
          (serialize (response_header h) []))
        _ e2 in
    let (groups, r2, e4) = bind-eq-ok (add_printer_attributes as_ group operations) _ e3 in
    let (g, v, t, split) =
      add_printer_attributes-IsGroup m.operation_attributes operation_attributes Tag.operation _
        d.operations refl refl r in
    let (g2, v2, t2, split2) =
      add_printer_attributes-IsGroup as_ group tag operations ds et ht r2 in
    (
      g ∷ g2 ∷ [],
      (v, (v2, tt)),
      ap₂ (λ x y. x ∷ y ∷ []) t t2,
      finish_two h g g2 _ operations groups out (start h) split split2 e4,
    )

-- The group tags of the response to each operation.
abbrev pub groups_of : ℕ → List ℕ
groups_of id =
    if id == 0x0004 then 0x01 ∷ [] else if id == 0x000B then 0x01 ∷ 0x04 ∷ [] else 0x01 ∷ 0x02 ∷ []

-- The operations that `HandleIppRequest` knows.
abbrev pub IsKnown : ℕ → Type 0
IsKnown id = (id ≡ 0x0004) ⊎ ((id ≡ 0x0005) ⊎ ((id ≡ 0x0006) ⊎ ((id ≡ 0x0009) ⊎ (id ≡ 0x000B))))

unrecorded_response :
    (q : Result SmartBuffer) (r : Reply)
    → (q >>= λ buf. ok (record { response = buf; recorded = none })) ≡ ok r
    → q ≡ ok r.response
unrecorded_response (err f) r e = absurd (cc)
unrecorded_response (ok b) r e = ground arith

send_document_response :
    (q : Result SmartBuffer) (o : Option Bytes) (r : Reply)
    → (q >>= λ buf. ok (record { response = buf; recorded = o })) ≡ ok r
    → q ≡ ok r.response
send_document_response (err f) o r e = absurd (cc)
send_document_response (ok b) o r e = ground arith

with_jobs :
    (m : IppManager) (h : IppHeader) {out : SmartBuffer}
    → HasDates m
    → two_groups m m.job_attributes job_attributes h ≡ ok out
    → IsResponse h (0x01 ∷ 0x02 ∷ []) out
unfolding tag_value is_attribute_group_tag get_ipp_tag
with_jobs m h d =
    two_groups-IsResponse m m.job_attributes job_attributes Tag.job h d d.jobs refl refl

with_printer :
    (m : IppManager) (h : IppHeader) {out : SmartBuffer}
    → HasDates m
    → two_groups m m.printer_attributes printer_attributes h ≡ ok out
    → IsResponse h (0x01 ∷ 0x04 ∷ []) out
unfolding tag_value is_attribute_group_tag get_ipp_tag
with_printer m h d =
    two_groups-IsResponse m m.printer_attributes printer_attributes Tag.printer h d d.printers refl
      refl

-- A response that is made to a known operation, where the configured dates have 11 bytes, is the success
-- header for the request, the groups of that operation in order, and the end tag, all well formed.
pub handle_ipp_request-IsResponse :
    (m : IppManager) (h : IppHeader) (body : SmartBuffer) (r : Reply)
    → HasDates m
    → IsKnown h.operation_id
    → handle_ipp_request m h body ≡ ok r
    → IsResponse h (groups_of h.operation_id) r.response
unfolding handle_ipp_request
handle_ipp_request-IsResponse m h body r d (inl k) e =
    subst (λ id. IsResponse h (groups_of id) r.response) (sym k)
      (handle_validate_job-IsResponse m h d (unrecorded_response _ r (ground arith)))
handle_ipp_request-IsResponse m h body r d (inr (inl k)) e =
    subst (λ id. IsResponse h (groups_of id) r.response) (sym k)
      (with_jobs m h d (unrecorded_response _ r (ground arith)))
handle_ipp_request-IsResponse m h body r d (inr (inr (inl k))) e =
    subst (λ id. IsResponse h (groups_of id) r.response) (sym k)
      (with_jobs m h d (
        send_document_response (two_groups m m.job_attributes job_attributes h)
          (to_record m.document_output_path body) r (ground arith)))
handle_ipp_request-IsResponse m h body r d (inr (inr (inr (inl k)))) e =
    subst (λ id. IsResponse h (groups_of id) r.response) (sym k)
      (with_jobs m h d (unrecorded_response _ r (ground arith)))
handle_ipp_request-IsResponse m h body r d (inr (inr (inr (inr k)))) e =
    subst (λ id. IsResponse h (groups_of id) r.response) (sym k)
      (with_printer m h d (unrecorded_response _ r (ground arith)))

-- The program's own parser reads back every response that is made to a known operation, where the
-- request's header fits its fields and dates have their 11 bytes: first the request's header with the
-- status 0, then an attributes section with nothing behind it.
pub handle_ipp_request_readable :
    (m : IppManager) (h : IppHeader) (body : SmartBuffer) (r : Reply)
    → HasDates m
    → IsIppHeader h
    → IsKnown h.operation_id
    → handle_ipp_request m h body ≡ ok r
    → (rest : SmartBuffer) × (deserialize r.response ≡ ok (some (response_header h, rest)))
      × (remove_ipp_attributes rest ≡ ok (some []))
handle_ipp_request_readable m h body r d v k e =
    let (gs, ws, _, split) = handle_ipp_request-IsResponse m h body r d k e in
    let status : IsIppHeader (response_header h) = record {
      major = v.major;
      minor = v.minor;
      operation_id = omega arith;
      request_id = v.request_id;
    } in
    let stripped : remove_ipp_attributes (section_wire gs) ≡ ok (some []) =
      rw append-nil at (remove_ipp_attributes-section_wire gs [] ws) in
    (
      section_wire gs,
      ap deserialize split ∙ deserialize-header_wire (response_header h) (section_wire gs) status,
      stripped,
    )

-- An unknown operation is answered by no bytes at all, and nothing is recorded.
pub handle_ipp_request_unknown :
    (m : IppManager) (h : IppHeader) (body : SmartBuffer)
    → ¬ IsKnown h.operation_id
    → handle_ipp_request m h body ≡ ok (record { response = []; recorded = none })
unfolding handle_ipp_request
handle_ipp_request_unknown m h body n = ground arith
