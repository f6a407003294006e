-- ===== src/Ipp/Attribute/Size/Numbers.antt =====
-- The sizes of attributes of numbers against what is written for them.
use virtual_usb_printer.Common.{
  ℕ, ◌+◌, ◌*◌, ◌≡◌, refl, ap, inl, inr, true, false, List, [], ◌∷◌, ◌++◌, arith, ◌==◌,
  if◌then◌else◌, Bool-cases, length, length-append, Result, ok, check, Bytes, codes, bytes_eq, some,
  ◌⊎◌, bind-eq-ok,
}
use virtual_usb_printer.Json.{is_list, get_bool, get_int}
use virtual_usb_printer.SmartBuffer.{SmartBuffer, add}
use virtual_usb_printer.ByteOrder.{mem, htonl, length-mem}
use virtual_usb_printer.Ipp.Attribute.{
  IppAttribute, find, get_ints, bools_of, ints_of, get_ipp_tag, range_of_integer,
}
use virtual_usb_printer.Ipp.Attribute.Add.{
  add_ints, add_front, add_int_attribute, add_boolean_attribute, add_boolean, add_integer,
  add_range, add_attribute, add_functions,
}
use virtual_usb_printer.Ipp.Attribute.Size.{
  exempt, size_functions, get_attribute_size, get_base_attribute_size, get_boolean_attribute_size,
  get_int_attribute_size, get_range_of_integer_attribute_size,
}
use virtual_usb_printer.Ipp.Attribute.Size.Written.{
  Adds, front-Adds, value-Adds, length-ints_of, length-bools_of, value_count, IsFilled, list_shape,
  single, by_shape-Adds,
}

-- The base size, and the items, of an attribute whose values are written one by one.
base_size :
    (a : IppAttribute)
    → exempt a.type ≡ false
    → get_base_attribute_size a ≡ ok (5 * value_count a.value + length a.name)
unfolding get_base_attribute_size
base_size a plain = elim (Bool-cases (is_list a.value)) [
  | inl l ↦ let (vs, items, count) = list_shape a.value l in rw (l, plain, items, count) refl
  | inr l ↦ let n = single a.value l in rw (l, n) refl
]

integer_size :
    (a : IppAttribute)
    → exempt a.type ≡ false
    → get_int_attribute_size a
      ≡ ok (5 * value_count a.value + length a.name + 4 * value_count a.value)
unfolding get_int_attribute_size
integer_size a plain = elim (Bool-cases (is_list a.value)) [
  | inl l ↦
      let (vs, items, count) = list_shape a.value l in
      rw (base_size a plain, l, items, count) (ap ok (omega arith))
  | inr l ↦ let n = single a.value l in rw (base_size a plain, l, n) refl
]

boolean_size :
    (a : IppAttribute)
    → exempt a.type ≡ false
    → get_boolean_attribute_size a
      ≡ ok (5 * value_count a.value + length a.name + 1 * value_count a.value)
unfolding get_boolean_attribute_size
boolean_size a plain = elim (Bool-cases (is_list a.value)) [
  | inl l ↦
      let (vs, items, count) = list_shape a.value l in
      rw (base_size a plain, l, items, count) (ap ok (omega arith))
  | inr l ↦ let n = single a.value l in rw (base_size a plain, l, n) refl
]

integer-Adds :
    (a : IppAttribute) (buf : SmartBuffer)
    → IsFilled a.value
    → Adds
        (5 * value_count a.value + length a.name + 4 * value_count a.value)
        buf
        (add_integer a buf)
unfolding add_integer add_int_attribute
integer-Adds a buf filled b e =
    let (tag, got, written) = bind-eq-ok (get_ipp_tag a.type) _ e in
    by_shape-Adds (add_int_attribute tag a.name) ints_of get_int 4 a buf length-ints_of
      (λ v inc c d w.
        let grown = value-Adds tag a.name inc 4 (mem 4 (htonl v)) c d w in
        omega (arith, grown, length-mem 4 (htonl v)))
      filled b written

boolean-Adds :
    (a : IppAttribute) (buf : SmartBuffer)
    → IsFilled a.value
    → Adds
        (5 * value_count a.value + length a.name + 1 * value_count a.value)
        buf
        (add_boolean a buf)
unfolding add_boolean add_boolean_attribute
boolean-Adds a buf filled b e =
    let (tag, got, written) = bind-eq-ok (get_ipp_tag a.type) _ e in
    by_shape-Adds (add_boolean_attribute tag a.name) bools_of get_bool 1 a buf length-bools_of
      (λ v inc c d w. value-Adds tag a.name inc 1 ((if v then 1 else 0) ∷ []) c d w) filled b
      written

length-add_ints :
    (vs : List ℕ) (buf : SmartBuffer) → length (add_ints vs buf) ≡ length buf + 4 * length vs
unfolding add
length-add_ints [] buf = omega arith
length-add_ints (v ∷ vs) buf = omega (
  arith,
  length-add_ints vs (buf ++ mem 4 (htonl v)),
  length-append buf (mem 4 (htonl v)),
  length-mem 4 (htonl v),
)

range-Adds :
    (a : IppAttribute) (buf : SmartBuffer) → Adds (13 + length a.name) buf (add_range a buf)
unfolding add_range
range-Adds a buf b e =
    let (tag, t, e1) = bind-eq-ok (get_ipp_tag a.type) _ e in
    let (u, c, e2) = bind-eq-ok (check (is_list a.value)) _ e1 in
    let (vs, v, e3) = bind-eq-ok (get_ints a) _ e2 in
    let (w, two, e4) = bind-eq-ok (check (length vs == 2)) _ e3 in
    let (front, f, e5) = bind-eq-ok (add_front tag a.name true 8 buf) _ e4 in
    let same : add_ints vs front ≡ b = cc in
    let n : length vs ≡ 2 = ground (arith, two) in
    omega
      (arith, ap length same, length-add_ints vs front, n, front-Adds tag a.name true 8 buf front f)

range_size :
    (a : IppAttribute)
    → a.type ≡ range_of_integer
    → get_range_of_integer_attribute_size a ≡ ok (14 + length a.name)
unfolding get_range_of_integer_attribute_size get_base_attribute_size bytes_eq
range_size a t =
    let one : exempt a.type ≡ true = ap exempt t in
    elim (Bool-cases (is_list a.value)) [
      | inl l ↦ rw (l, one) (ap ok (omega arith))
      | inr l ↦ rw l (ap ok (omega arith))
    ]

-- A type of numbers: `integer`, `enum`, `boolean` or `rangeOfInteger`.
abbrev pub IsNumberType : Bytes → Type 0
IsNumberType type =
    (type ≡ codes "integer")
    ⊎ ((type ≡ codes "enum") ⊎ ((type ≡ codes "boolean") ⊎ (type ≡ range_of_integer)))

-- The bytes that are reserved and not written.
abbrev pub surplus : Bytes → ℕ
surplus type = if bytes_eq type range_of_integer then 1 else 0

-- A writer and a size that the tables hold for a type.
at_entry :
    (a : IppAttribute) (buf b : SmartBuffer) (n more : ℕ)
    (write : IppAttribute → SmartBuffer → Result SmartBuffer) (size : IppAttribute → Result ℕ)
    → find a.type add_functions ≡ some write
    → find a.type size_functions ≡ some size
    → ((c : SmartBuffer) → write a buf ≡ ok c → length c + more ≡ length buf + n)
    → size a ≡ ok n
    → add_attribute a buf ≡ ok b
    → (m : ℕ) × (get_attribute_size a ≡ ok m) × (length b + more ≡ length buf + m)
unfolding add_attribute get_attribute_size
at_entry a buf b n more write size w s grows is_n e =
    (n, rw (s, get_attribute_size) is_n, grows b (rw (w, add_attribute) at e))

-- For an attribute of the type `integer`, `enum`, `boolean` or `rangeOfInteger` that is written, where a
-- list of values has an item: `GetAttributesSize` counts for it exactly the bytes that
-- `AddPrinterAttributes` writes for it, and one byte more than these where the type is `rangeOfInteger`.
pub get_attribute_size_lem :
    (a : IppAttribute) (buf b : SmartBuffer)
    → IsNumberType a.type
    → IsFilled a.value
    → add_attribute a buf ≡ ok b
    → (n : ℕ) × (get_attribute_size a ≡ ok n) × (length b + surplus a.type ≡ length buf + n)
unfolding bytes_eq find add_functions size_functions
get_attribute_size_lem a buf b (inl t) filled e =
    let none_ : surplus a.type ≡ 0 = ap surplus t in
    rw none_ (
      at_entry a buf b _ 0 add_integer get_int_attribute_size (ap (λ x. find x add_functions) t)
        (ap (λ x. find x size_functions) t)
        (λ c w. let grown = integer-Adds a buf filled c w in omega (arith, grown))
        (integer_size a (ap exempt t)) e)
get_attribute_size_lem a buf b (inr (inl t)) filled e =
    let none_ : surplus a.type ≡ 0 = ap surplus t in
    rw none_ (
      at_entry a buf b _ 0 add_integer get_int_attribute_size (ap (λ x. find x add_functions) t)
        (ap (λ x. find x size_functions) t)
        (λ c w. let grown = integer-Adds a buf filled c w in omega (arith, grown))
        (integer_size a (ap exempt t)) e)
get_attribute_size_lem a buf b (inr (inr (inl t))) filled e =
    let none_ : surplus a.type ≡ 0 = ap surplus t in
    rw none_ (
      at_entry a buf b _ 0 add_boolean get_boolean_attribute_size (ap (λ x. find x add_functions) t)
        (ap (λ x. find x size_functions) t)
        (λ c w. let grown = boolean-Adds a buf filled c w in omega (arith, grown))
        (boolean_size a (ap exempt t)) e)
get_attribute_size_lem a buf b (inr (inr (inr t))) filled e =
    let one : surplus a.type ≡ 1 = ap surplus t in
    rw one (
      at_entry a buf b _ 1 add_range get_range_of_integer_attribute_size
        (ap (λ x. find x add_functions) t) (ap (λ x. find x size_functions) t)
        (λ c w. let grown = range-Adds a buf c w in omega (arith, grown)) (range_size a t) e)
