-- ===== src/Ipp/Attribute/Add/Wire.antt =====
-- What the attribute writers append is a well-formed part of an attributes section.
use virtual_usb_printer.Common.{
  ℕ, ◌%◌, ◌^◌, ◌≤◌, ◌<◌, ◌≡◌, refl, sym, ap, subst, ◌∙◌, inl, inr, Bool, true, false, not, ◌&&◌,
  ◌||◌, List, [], ◌∷◌, ◌++◌, append-nil, append_assoc, arith, ltb, leb, ◌==◌, if◌then◌else◌, leb→le,
  Bool-cases, length, All, length-append, All-append, check_failed, Result, ok, err, ◌>>=◌, check,
  Bytes,
}
use mathlib.Core.Path.{fun_ext}
use virtual_usb_printer.Json.{Value, is_list, get_bool, get_int, get_string}
use virtual_usb_printer.SmartBuffer.{SmartBuffer, add}
use virtual_usb_printer.ByteOrder.{mem, htons, htonl, wire, mem-swap, length-mem}
use virtual_usb_printer.Ipp.Tag.{IppTag, tag_value}
use virtual_usb_printer.Ipp.Parse.{ends_group}
use virtual_usb_printer.Ipp.Parse.Grammar.{WireAttribute, attributes_wire, IsAttribute}
use virtual_usb_printer.Ipp.Attribute.{
  IppAttribute, get_bools, get_ints, get_strings, get_bytes, get_ipp_tag, date_time,
}
use virtual_usb_printer.Ipp.Attribute.Add.{
  by_shape, add_ints, add_resolution_items, add_front, add_boolean_attribute, add_int_attribute,
  add_string_attribute, add_values, add_boolean, add_integer, add_string, add_octet_string,
  add_date, add_range, add_resolution,
}

-- A write that succeeds appends well-formed attributes.
abbrev pub Writes : SmartBuffer → Result SmartBuffer → Type 0
Writes buf (ok b) =
    (as_ : List WireAttribute) × All IsAttribute as_ × (b ≡ buf ++ attributes_wire as_)
Writes buf (err e) = Unit {0}

attributes_wire-append :
    (as_ bs : List WireAttribute)
    → attributes_wire (as_ ++ bs) ≡ attributes_wire as_ ++ attributes_wire bs
attributes_wire-append [] bs = refl
attributes_wire-append (a ∷ as_) bs = simp (attributes_wire-append as_ bs, append_assoc)

Writes-compose :
    (buf b : SmartBuffer) (r : Result SmartBuffer) → Writes buf (ok b) → Writes b r → Writes buf r
Writes-compose buf b (err e) w x = tt
Writes-compose buf b (ok c) (as_, vs, e) (bs, ws, f) = (
  as_ ++ bs,
  All-append IsAttribute as_ bs vs ws,
  f
      ∙ rw (e, attributes_wire-append as_ bs)
          (append_assoc buf (attributes_wire as_) (attributes_wire bs)),
)

pub Writes-bind :
    (buf : SmartBuffer) (m : Result SmartBuffer) (f : SmartBuffer → Result SmartBuffer)
    → Writes buf m
    → ((b : SmartBuffer) → Writes b (f b))
    → Writes buf (m >>= f)
Writes-bind buf (err e) f w x = tt
Writes-bind buf (ok b) f w x = Writes-compose buf b (f b) w (x b)

-- A step that reads a value first.
pub Writes-read :
    {A : Type 0} (buf : SmartBuffer) (m : Result A) (f : A → Result SmartBuffer)
    → ((a : A) → m ≡ ok a → Writes buf (f a))
    → Writes buf (m >>= f)
Writes-read buf (err e) f x = tt
Writes-read buf (ok a) f x = x a refl

-- The tag stands for a value, not for a group or the end.
abbrev pub IsValueTag : IppTag → Type 0
IsValueTag tag = ends_group (tag_value tag) ≡ false

abbrev pub shown : Bool → Bytes → Bytes
shown include_name name = if include_name then name else []

front_layout :
    (tag : IppTag) (name : Bytes) (inc : Bool) (n : ℕ) (buf : SmartBuffer)
    → (let named = buf ++ (tag_value tag ∷ []) ++ mem 2 (htons (if inc then length name else 0)) in
        (if inc then named ++ name else named) ++ mem 2 (htons n))
      ≡ buf ++ (tag_value tag ∷ (wire 2 (length (shown inc name)) ++ (shown inc name ++ wire 2 n)))
front_layout tag name true n buf = simp (mem-swap, append_assoc)
front_layout tag name false n buf = simp (mem-swap, append_assoc)

pub add_front_lem :
    (tag : IppTag) (name : Bytes) (inc : Bool) (n : ℕ) (buf : SmartBuffer)
    → add_front tag name inc n buf ≡ (
        if leb (length name) 65535 && leb n 65535
        then ok (
            buf
            ++ (tag_value tag ∷ (wire 2 (length (shown inc name)) ++ (shown inc name ++ wire 2 n))))
        else err check_failed)
unfolding add_front add
add_front_lem tag name inc n buf = elim (Bool-cases (leb (length name) 65535)) [
  | inr long ↦ rw (long, add_front)
  | inl fits ↦ elim (Bool-cases (leb n 65535)) [
    | inr long ↦ rw (fits, long, add_front)
    | inl room ↦ rw (fits, room, add_front) (ap ok (front_layout tag name inc n buf))
  ]
]

length-shown : (inc : Bool) (name : Bytes) → length name ≤ 65535 → length (shown inc name) < 2 ^ 16
length-shown true name h = omega arith
length-shown false name h = omega arith

one_value :
    (tag : IppTag) (name : Bytes) (inc : Bool) (n : ℕ) (v : Bytes) (buf : SmartBuffer)
    → IsValueTag tag
    → length v ≡ n
    → Writes buf (add_front tag name inc n buf >>= λ front. ok (add front v))
unfolding add
one_value tag name inc n v buf h e =
    rw (add_front_lem tag name inc n buf) (elim (Bool-cases (leb (length name) 65535)) [
      | inr long ↦ rw long tt
      | inl fits ↦ elim (Bool-cases (leb n 65535)) [
        | inr long ↦ rw (fits, long) tt
        | inl room ↦
            rw (fits, room)
              (
                record { tag = tag_value tag; name = shown inc name; value = v } ∷ [],
                (
                  record {
                    value_tag = h;
                    short_name = length-shown inc name (leb→le (length name) 65535 fits);
                    short_value = omega (arith, leb→le n 65535 room);
                  },
                  tt,
                ),
                rw e (simp (append_assoc, append-nil)),
              )
      ]
    ])

Writes-add_values :
    {A : Type 0} (write : A → Bool → SmartBuffer → Result SmartBuffer) (first : Bool) (vs : List A)
    (buf : SmartBuffer)
    → ((v : A) (inc : Bool) (b : SmartBuffer) → Writes b (write v inc b))
    → Writes buf (add_values write first vs buf)
unfolding add_values
Writes-add_values write first [] buf h = ([], tt, sym (append-nil buf))
Writes-add_values write first (v ∷ vs) buf h =
    Writes-bind buf (write v first buf) (add_values write false vs) (h v first buf)
      (λ b. Writes-add_values write false vs b h)

by_shape-Writes :
    {A : Type 0} (write : A → Bool → SmartBuffer → Result SmartBuffer)
    (many : IppAttribute → Result (List A)) (one : Value → Result A) (a : IppAttribute)
    (buf : SmartBuffer)
    → ((v : A) (inc : Bool) (b : SmartBuffer) → Writes b (write v inc b))
    → Writes buf (by_shape write many one a buf)
by_shape-Writes write many one a buf h = elim (Bool-cases (is_list a.value)) [
  | inl l ↦ rw l (Writes-read buf (many a) _ (λ vs _. Writes-add_values write true vs buf h))
  | inr l ↦ rw l (Writes-read buf (one a.value) _ (λ v _. h v true buf))
]

-- A type whose tag, if it has one, stands for a value.
abbrev pub IsValueType : Bytes → Type 0
IsValueType type = (tag : IppTag) → get_ipp_tag type ≡ ok tag → IsValueTag tag

-- Every date holds the eleven bytes that its announced length says.
abbrev pub HasDateLength : IppAttribute → Type 0
HasDateLength a = (d : Bytes) → a.type ≡ date_time → get_bytes a ≡ ok d → length d ≡ 11

pub add_boolean-Writes :
    (a : IppAttribute) (buf : SmartBuffer) → IsValueType a.type → Writes buf (add_boolean a buf)
unfolding add_boolean add_boolean_attribute
add_boolean-Writes a buf h = Writes-read buf (get_ipp_tag a.type) _ λ tag e.
    by_shape-Writes (add_boolean_attribute tag a.name) get_bools get_bool a buf
      (λ v inc b. one_value tag a.name inc 1 ((if v then 1 else 0) ∷ []) b (h tag e) refl)

pub add_integer-Writes :
    (a : IppAttribute) (buf : SmartBuffer) → IsValueType a.type → Writes buf (add_integer a buf)
unfolding add_integer add_int_attribute
add_integer-Writes a buf h = Writes-read buf (get_ipp_tag a.type) _ λ tag e.
    by_shape-Writes (add_int_attribute tag a.name) get_ints get_int a buf
      (λ v inc b. one_value tag a.name inc 4 (mem 4 (htonl v)) b (h tag e) (length-mem 4 (htonl v)))

pub add_string-Writes :
    (a : IppAttribute) (buf : SmartBuffer) → IsValueType a.type → Writes buf (add_string a buf)
unfolding add_string add_string_attribute
add_string-Writes a buf h = Writes-read buf (get_ipp_tag a.type) _ λ tag e.
    by_shape-Writes (add_string_attribute tag a.name) get_strings get_string a buf
      (λ v inc b. one_value tag a.name inc (length v) v b (h tag e) refl)

pub add_octet_string-Writes :
    (a : IppAttribute) (buf : SmartBuffer)
    → IsValueType a.type
    → Writes buf (add_octet_string a buf)
unfolding add_octet_string add_string_attribute
add_octet_string-Writes a buf h = Writes-read buf (get_ipp_tag a.type) _ λ tag e.
    Writes-read buf (if is_list a.value then get_bytes a else get_string a.value) _
      (λ v _. one_value tag a.name true (length v) v buf (h tag e) refl)

one_value_by :
    (tag : IppTag) (name : Bytes) (n : ℕ) (v : Bytes) (f : SmartBuffer → SmartBuffer)
    (buf : SmartBuffer)
    → IsValueTag tag
    → length v ≡ n
    → ((b : SmartBuffer) → f b ≡ b ++ v)
    → Writes buf (add_front tag name true n buf >>= λ front. ok (f front))
unfolding add
one_value_by tag name n v f buf h e same =
    subst (λ g. Writes buf (add_front tag name true n buf >>= λ front. ok (g front)))
      (fun_ext (λ b. sym (same b))) (one_value tag name true n v buf h e)

one_value_after :
    (tag : IppTag) (name : Bytes) (n : ℕ) (r : Result Bytes) (buf : SmartBuffer)
    → IsValueTag tag
    → ((d : Bytes) → r ≡ ok d → length d ≡ n)
    → Writes buf (add_front tag name true n buf >>= λ front. r >>= λ d. ok (add front d))
one_value_after tag name n (err f) buf h len =
    Writes-read buf (add_front tag name true n buf) _ (λ _ _. tt)
one_value_after tag name n (ok d) buf h len = one_value tag name true n d buf h (len d refl)

pub add_date-Writes :
    (a : IppAttribute) (buf : SmartBuffer)
    → IsValueType a.type
    → a.type ≡ date_time
    → HasDateLength a
    → Writes buf (add_date a buf)
unfolding add_date
add_date-Writes a buf h t w = Writes-read buf (get_ipp_tag a.type) _ λ tag e.
    Writes-read buf (check (is_list a.value)) _
      λ _ _. one_value_after tag a.name 11 (get_bytes a) buf (h tag e) (λ d. w d t)

pair_of_ints :
    (vs : List ℕ) (tag : IppTag) (name : Bytes) (buf : SmartBuffer)
    → IsValueTag tag
    → length vs ≡ 2
    → Writes buf (add_front tag name true 8 buf >>= λ front. ok (add_ints vs front))
unfolding add
pair_of_ints (x ∷ y ∷ []) tag name buf h e =
    one_value_by tag name 8 (mem 4 (htonl x) ++ mem 4 (htonl y)) (add_ints (x ∷ y ∷ [])) buf h
      (omega (
        arith,
        length-append (mem 4 (htonl x)) (mem 4 (htonl y)),
        length-mem 4 (htonl x),
        length-mem 4 (htonl y),
      ))
      (λ b. append_assoc b _ _)
pair_of_ints [] tag name buf h e = absurd (omega arith)
pair_of_ints (x ∷ []) tag name buf h e = absurd (omega arith)
pair_of_ints (x ∷ y ∷ z ∷ vs) tag name buf h e = absurd (omega arith)

pub add_range-Writes :
    (a : IppAttribute) (buf : SmartBuffer) → IsValueType a.type → Writes buf (add_range a buf)
unfolding add_range
add_range-Writes a buf h = Writes-read buf (get_ipp_tag a.type) _ λ tag e.
    Writes-read buf (check (is_list a.value)) _ λ _ _. Writes-read buf (get_ints a) _ λ vs _.
      Writes-read buf (check (length vs == 2)) _
        λ _ two. pair_of_ints vs tag a.name buf (h tag e) (ground (arith, two))

resolution_items-Writes :
    (vs : List ℕ) (tag : IppTag) (name : Bytes) (buf : SmartBuffer)
    → IsValueTag tag
    → Writes buf (add_resolution_items tag name vs buf)
unfolding add_resolution_items add
resolution_items-Writes (x ∷ y ∷ u ∷ []) tag name buf h =
    Writes-read buf (check (not (ltb u (2 ^ 31)) || leb u 255)) _ λ _ _.
      one_value_by tag name 9 (mem 4 (htonl x) ++ (mem 4 (htonl y) ++ ((u % 256) ∷ [])))
        (λ front. add_ints (x ∷ y ∷ []) front ++ ((u % 256) ∷ [])) buf h
        (omega (
          arith,
          length-append (mem 4 (htonl x)) (mem 4 (htonl y) ++ ((u % 256) ∷ [])),
          length-append (mem 4 (htonl y)) ((u % 256) ∷ []),
          length-mem 4 (htonl x),
          length-mem 4 (htonl y),
        ))
        (λ b. simp append_assoc)
resolution_items-Writes [] tag name buf h = tt
resolution_items-Writes (x ∷ []) tag name buf h = tt
resolution_items-Writes (x ∷ y ∷ []) tag name buf h = tt
resolution_items-Writes (x ∷ y ∷ z ∷ w ∷ vs) tag name buf h = tt

pub add_resolution-Writes :
    (a : IppAttribute) (buf : SmartBuffer) → IsValueType a.type → Writes buf (add_resolution a buf)
unfolding add_resolution
add_resolution-Writes a buf h = Writes-read buf (get_ipp_tag a.type) _ λ tag e.
    Writes-read buf (check (is_list a.value)) _ λ _ _.
      Writes-read buf (get_ints a) _ λ vs _. resolution_items-Writes vs tag a.name buf (h tag e)
