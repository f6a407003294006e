-- ===== src/Ipp/Attribute/Add/Dispatch.antt =====
-- `AddPrinterAttributes`: the table of writers, and whole groups.
use virtual_usb_printer.Common.{
  ◌≡◌, refl, sym, subst, ◌∙◌, inl, inr, true, some, List, [], ◌∷◌, ◌++◌, append-nil, append_assoc,
  arith, Bool-cases, Option-cases, All, Result, ok, Bytes, codes, bytes_eq, bytes_eq→eq,
}
use virtual_usb_printer.SmartBuffer.{SmartBuffer, add}
use virtual_usb_printer.Ipp.Tag.{IppTag, tag_value}
use virtual_usb_printer.Ipp.Tag
use virtual_usb_printer.Ipp.Parse.{is_attribute_group_tag}
use virtual_usb_printer.Ipp.Parse.Grammar.{WireGroup, attributes_wire, IsGroup}
use virtual_usb_printer.Ipp.Attribute.{IppAttribute, get_ipp_tag, find}
use virtual_usb_printer.Ipp.Attribute.Add.{
  add_boolean, add_integer, add_string, add_octet_string, add_date, add_range, add_resolution,
  add_functions, add_attribute, add_attributes, add_printer_attributes,
}
use virtual_usb_printer.Ipp.Attribute.Add.Wire.{
  Writes, Writes-bind, IsValueTag, IsValueType, HasDateLength, add_boolean-Writes,
  add_integer-Writes, add_string-Writes, add_octet_string-Writes, add_date-Writes, add_range-Writes,
  add_resolution-Writes,
}

-- What holds of every entry of a map holds of what is found in it.
pub find-some {ℓ κ} :
    {A : Type ℓ} (P : Bytes → A → Type κ) (k : Bytes) (m : List (Bytes × A)) {a : A}
    → All (λ e. P e.0 e.1) m
    → find k m ≡ some a
    → P k a
unfolding find
find-some P k [] h e = absurd (cc)
find-some P k ((j, b) ∷ m) {a} h e = elim (Bool-cases (bytes_eq k j)) [
  | inl same ↦
      let found : b ≡ a = ground (arith, same) in
      subst (P k) found (subst (λ x. P x b) (sym (bytes_eq→eq k j same)) h.0)
  | inr other ↦ find-some P k m h.1 (rw other at e)
]

Writer : Bytes → (IppAttribute → SmartBuffer → Result SmartBuffer) → Type 0
Writer k f =
    (a : IppAttribute) (buf : SmartBuffer) → a.type ≡ k → HasDateLength a → Writes buf (f a buf)

value_type : (k : Bytes) (t : IppTag) → get_ipp_tag k ≡ ok t → IsValueTag t → IsValueType k
value_type k t e v tag e' = let same : t ≡ tag = cc in subst IsValueTag same v

-- An entry of the table, from the tag that `GetIppTag` gives its key.
entry :
    (k : Bytes) (t : IppTag) (f : IppAttribute → SmartBuffer → Result SmartBuffer)
    → get_ipp_tag k ≡ ok t
    → IsValueTag t
    → ((a : IppAttribute) (buf : SmartBuffer)
        → IsValueType a.type
        → a.type ≡ k
        → HasDateLength a
        → Writes buf (f a buf))
    → Writer k f
unfolding Writer
entry k t f e v w a buf same d = w a buf (subst IsValueType (sym same) (value_type k t e v)) same d

add_functions-Writer : All (λ e. Writer e.0 e.1) add_functions
unfolding add_functions get_ipp_tag tag_value is_attribute_group_tag
add_functions-Writer = (
  entry (codes "unsupported") Tag.unsupported_value add_string refl refl
      (λ a buf h same d. add_string-Writes a buf h),
  (
    entry (codes "no-value") Tag.no_value add_string refl refl
        (λ a buf h same d. add_string-Writes a buf h),
    (
      entry (codes "integer") Tag.integer add_integer refl refl
          (λ a buf h same d. add_integer-Writes a buf h),
      (
        entry (codes "boolean") Tag.boolean add_boolean refl refl
            (λ a buf h same d. add_boolean-Writes a buf h),
        (
          entry (codes "enum") Tag.enum add_integer refl refl
              (λ a buf h same d. add_integer-Writes a buf h),
          (
            entry (codes "octetString") Tag.string add_octet_string refl refl
                (λ a buf h same d. add_octet_string-Writes a buf h),
            (
              entry (codes "dateTime") Tag.date add_date refl refl
                  (λ a buf h same d. add_date-Writes a buf h same d),
              (
                entry (codes "resolution") Tag.resolution add_resolution refl refl
                    (λ a buf h same d. add_resolution-Writes a buf h),
                (
                  entry (codes "rangeOfInteger") Tag.range add_range refl refl
                      (λ a buf h same d. add_range-Writes a buf h),
                  (
                    entry (codes "begCollection") Tag.begin_collection add_string refl refl
                        (λ a buf h same d. add_string-Writes a buf h),
                    (
                      entry (codes "endCollection") Tag.end_collection add_string refl refl
                          (λ a buf h same d. add_string-Writes a buf h),
                      (
                        entry (codes "textWithoutLanguage") Tag.text add_string refl refl
                            (λ a buf h same d. add_string-Writes a buf h),
                        (
                          entry (codes "nameWithoutLanguage") Tag.name add_string refl refl
                              (λ a buf h same d. add_string-Writes a buf h),
                          (
                            entry (codes "keyword") Tag.keyword add_string refl refl
                                (λ a buf h same d. add_string-Writes a buf h),
                            (
                              entry (codes "uri") Tag.uri add_string refl refl
                                  (λ a buf h same d. add_string-Writes a buf h),
                              (
                                entry (codes "charset") Tag.charset add_string refl refl
                                    (λ a buf h same d. add_string-Writes a buf h),
                                (
                                  entry (codes "naturalLanguage") Tag.language add_string refl refl
                                      (λ a buf h same d. add_string-Writes a buf h),
                                  (
                                    entry (codes "mimeMediaType") Tag.mime_type add_string refl refl
                                        (λ a buf h same d. add_string-Writes a buf h),
                                    (
                                      entry (codes "memberAttrName") Tag.member_name add_string refl
                                          refl (λ a buf h same d. add_string-Writes a buf h),
                                      tt,
                                    ),
                                  ),
                                ),
                              ),
                            ),
                          ),
                        ),
                      ),
                    ),
                  ),
                ),
              ),
            ),
          ),
        ),
      ),
    ),
  ),
)

pub add_attribute-Writes :
    (a : IppAttribute) (buf : SmartBuffer) → HasDateLength a → Writes buf (add_attribute a buf)
unfolding add_attribute Writer
add_attribute-Writes a buf d = elim (Option-cases (find a.type add_functions)) [
  | inl e ↦ rw (e, add_attribute) tt
  | inr (f, e) ↦
      rw (e, add_attribute)
        (find-some Writer a.type add_functions add_functions-Writer e a buf refl d)
]

pub add_attributes-Writes :
    (as_ : List IppAttribute) (buf : SmartBuffer)
    → All HasDateLength as_
    → Writes buf (add_attributes as_ buf)
unfolding add_attributes
add_attributes-Writes [] buf d = ([], tt, sym (append-nil buf))
add_attributes-Writes (a ∷ as_) buf d =
    Writes-bind buf (add_attribute a buf) (add_attributes as_) (add_attribute-Writes a buf d.0)
      (λ b. add_attributes-Writes as_ b d.1)

-- Where every date attribute holds its 11 bytes and the name is that of a group, a call of
-- `AddPrinterAttributes` that returns has appended one well-formed group behind the buffer, with the tag of
-- the name.
pub add_printer_attributes-IsGroup :
    (as_ : List IppAttribute) (group : Bytes) (tag : IppTag) (buf : SmartBuffer) {out : SmartBuffer}
    → All HasDateLength as_
    → get_ipp_tag group ≡ ok tag
    → is_attribute_group_tag (tag_value tag) ≡ true
    → add_printer_attributes as_ group buf ≡ ok out
    → (g : WireGroup) × IsGroup g
      × (g.tag ≡ tag_value tag)
      × (out ≡ buf ++ (g.tag ∷ attributes_wire g.attributes))
unfolding add_printer_attributes add
add_printer_attributes-IsGroup as_ group tag buf {out} d e h r =
    let (ws, vs, split) = written in
    (
      record { tag = tag_value tag; attributes = ws },
      record { group_tag = h; members = vs },
      refl,
      split ∙ simp append_assoc,
    )
  where
    ran : add_attributes as_ (buf ++ (tag_value tag ∷ [])) ≡ ok out
    ran = rw e at r

    written : Writes (buf ++ (tag_value tag ∷ [])) (ok out)
    written = subst (Writes _) ran (add_attributes-Writes as_ (buf ++ (tag_value tag ∷ [])) d)
