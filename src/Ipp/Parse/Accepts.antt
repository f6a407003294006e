-- ===== src/Ipp/Parse/Accepts.antt =====
-- Every well-formed attributes section is measured exactly, whatever follows it.
use virtual_usb_printer.Common.{
  ℕ, zero, suc, ◌+◌, ◌-◌, ◌^◌, ◌≤◌, ◌<◌, ◌≡◌, refl, ap, subst, ◌∙◌, true, false, some, List, [],
  ◌∷◌, ◌++◌, append_assoc, arith, ◌==◌, length, get_elem?, take, drop, All, length-append,
  drop-length, take-length, get_elem?_append, ok, Bytes,
}
use virtual_usb_printer.SmartBuffer.Edit.{erase_front}
use virtual_usb_printer.ByteOrder.{wire, swap-load-wire, length-wire}
use virtual_usb_printer.Ipp.Parse.{
  read_short, value_end, get_attribute_length, is_attribute_group_tag, ends_group, group_loop,
  get_group_length, attributes_loop, get_attributes_length, remove_ipp_attributes,
}
use virtual_usb_printer.Ipp.Parse.Grammar.{
  WireAttribute, WireGroup, body_wire, attributes_wire, groups_wire, section_wire, IsAttribute,
  IsSection,
}

-- The short that stands behind `front`.
pub read_short_behind :
    (bytes front : Bytes) (x i : ℕ) (rest : Bytes)
    → bytes ≡ front ++ (wire 2 x ++ rest)
    → length front ≡ i
    → x < 2 ^ 16
    → read_short bytes i ≡ some x
unfolding read_short
read_short_behind bytes front x i rest e l h =
    let enough : length (front ++ (wire 2 x ++ rest)) ≡ i + 2 + length rest = omega (
      arith,
      length-append front (wire 2 x ++ rest),
      length-append (wire 2 x) rest,
      length-wire 2 x,
    ) in
    let behind : drop i (front ++ (wire 2 x ++ rest)) ≡ wire 2 x ++ rest =
      subst (λ n. drop n (front ++ (wire 2 x ++ rest)) ≡ wire 2 x ++ rest) l
        (drop-length front (wire 2 x ++ rest)) in
    let read : take 2 (wire 2 x ++ rest) ≡ wire 2 x =
      subst (λ n. take n (wire 2 x ++ rest) ≡ wire 2 x) (length-wire 2 x)
        (take-length (wire 2 x) rest) in
    rw (e, behind, read, swap-load-wire 2 x h) (ground (arith, enough))

pub length-body_wire :
    (a : WireAttribute) → length (body_wire a) ≡ 4 + length a.name + length a.value
length-body_wire a = simp (length-append, length-wire) (omega arith)

get_attribute_length_behind :
    (bytes front : Bytes) (a : WireAttribute) (i : ℕ) (rest : Bytes)
    → IsAttribute a
    → bytes ≡ front ++ (body_wire a ++ rest)
    → length front ≡ i
    → get_attribute_length bytes i ≡ some (length (body_wire a))
unfolding get_attribute_length value_end
get_attribute_length_behind bytes front a i rest v e l =
    (ground (
      arith,
      name_read,
      value_read,
      length-body_wire a,
      ap length e,
      length-append front (body_wire a ++ rest),
      length-append (body_wire a) rest,
    ))
  where
    nl : ℕ
    nl = length a.name

    vl : ℕ
    vl = length a.value

    name_read : read_short bytes i ≡ some (length a.name)
    name_read =
        read_short_behind bytes front nl i (a.name ++ ((wire 2 vl ++ a.value) ++ rest))
          (e ∙ simp append_assoc) l v.short_name

    value_read : read_short bytes (i + 2 + length a.name) ≡ some (length a.value)
    value_read =
        read_short_behind bytes (front ++ (wire 2 nl ++ a.name)) vl (i + 2 + nl) (a.value ++ rest)
          (e ∙ simp append_assoc)
          (omega (
            arith,
            length-append front (wire 2 nl ++ a.name),
            length-append (wire 2 nl) a.name,
            length-wire 2 nl,
          ))
          v.short_value

pub get_elem?_behind :
    (bytes front : Bytes) (b i : ℕ) (rest : Bytes)
    → bytes ≡ front ++ (b ∷ rest)
    → length front ≡ i
    → get_elem? bytes i ≡ some b
get_elem?_behind bytes front b i rest e l = rw (e, ← l) (get_elem?_append front b rest)

-- The loop over a group, from an attribute's tag on.
group_loop_behind :
    (fuel : ℕ) (bytes front : Bytes) (as_ : List WireAttribute) (t start i : ℕ) (rest : Bytes)
    → All IsAttribute as_
    → ends_group t ≡ true
    → bytes ≡ front ++ (attributes_wire as_ ++ (t ∷ rest))
    → length front ≡ i
    → start ≤ i
    → length as_ < fuel
    → group_loop fuel bytes start i ≡ ok (some (i + length (attributes_wire as_) - start))
unfolding group_loop
group_loop_behind zero bytes front as_ t start i rest v ht e l hs hf = absurd (omega arith)
group_loop_behind (suc fuel) bytes front [] t start i rest v ht e l hs hf =
    ground (arith, get_elem?_behind bytes front t i rest e l)
group_loop_behind (suc fuel) bytes front (a ∷ as_) t start i rest v ht e l hs hf =
    let tail = attributes_wire as_ ++ (t ∷ rest) in
    let e' : bytes ≡ front ++ (a.tag ∷ (body_wire a ++ tail)) = e ∙ simp append_assoc in
    let e'' : bytes ≡ (front ++ (a.tag ∷ [])) ++ (body_wire a ++ tail) = e' ∙ simp append_assoc in
    let l'' : length (front ++ (a.tag ∷ [])) ≡ i + 1 =
      omega (arith, length-append front (a.tag ∷ [])) in
    let e3 : bytes ≡ (front ++ (a.tag ∷ body_wire a)) ++ tail = e' ∙ simp append_assoc in
    let l3 : length (front ++ (a.tag ∷ body_wire a)) ≡ i + 1 + length (body_wire a) =
      omega (arith, length-append front (a.tag ∷ body_wire a)) in
    ground (
      arith,
      get_elem?_behind bytes front a.tag i _ e' l,
      v.0.value_tag,
      get_attribute_length_behind bytes (front ++ (a.tag ∷ [])) a (i + 1) tail v.0 e'' l'',
      group_loop_behind fuel bytes (front ++ (a.tag ∷ body_wire a)) as_ t start
          (i + 1 + length (body_wire a)) rest v.1 ht e3 l3 (omega arith) (omega arith),
      length-append (body_wire a) (attributes_wire as_),
    )

length-attributes_wire : (as_ : List WireAttribute) → length as_ ≤ length (attributes_wire as_)
length-attributes_wire [] = omega arith
length-attributes_wire (a ∷ as_) =
    omega (arith, length-append (body_wire a) (attributes_wire as_), length-attributes_wire as_)

get_group_length_behind :
    (bytes front : Bytes) (as_ : List WireAttribute) (t i : ℕ) (rest : Bytes)
    → All IsAttribute as_
    → ends_group t ≡ true
    → bytes ≡ front ++ (attributes_wire as_ ++ (t ∷ rest))
    → length front ≡ i
    → get_group_length bytes i ≡ ok (some (length (attributes_wire as_)))
unfolding get_group_length
get_group_length_behind bytes front as_ t i rest v ht e l =
    let size : length bytes ≡ i + length (attributes_wire as_) + suc (length rest) = omega (
      arith,
      ap length e,
      length-append front (attributes_wire as_ ++ (t ∷ rest)),
      length-append (attributes_wire as_) (t ∷ rest),
    ) in
    ground (
      arith,
      size,
      group_loop_behind (suc (length bytes)) bytes front as_ t i i rest v ht e l (omega arith)
          (omega (arith, size, length-attributes_wire as_)),
    )

-- Behind a group stands another group's tag, or the end tag.
next_tag :
    (gs : List WireGroup) (rest : Bytes)
    → IsSection gs
    → (t : ℕ) × (more : Bytes) × (groups_wire gs ++ (0x03 ∷ rest) ≡ t ∷ more)
      × (ends_group t ≡ true)
next_tag [] rest v = (0x03, rest, refl, refl)
next_tag (g ∷ gs) rest v = (g.tag, _, refl, ground (arith, v.0.group_tag))

group_tag-ne-end : (t : ℕ) → is_attribute_group_tag t ≡ true → (t == 0x03) ≡ false
unfolding is_attribute_group_tag
group_tag-ne-end t h = ground arith

attributes_loop_behind :
    (fuel : ℕ) (bytes front : Bytes) (gs : List WireGroup) (i : ℕ) (rest : Bytes)
    → IsSection gs
    → bytes ≡ front ++ (groups_wire gs ++ (0x03 ∷ rest))
    → length front ≡ i
    → length gs < fuel
    → attributes_loop fuel bytes i ≡ ok (some (i + length (groups_wire gs) + 1))
unfolding attributes_loop
attributes_loop_behind zero bytes front gs i rest v e l hf = absurd (omega arith)
attributes_loop_behind (suc fuel) bytes front [] i rest v e l hf =
    ground (arith, get_elem?_behind bytes front 0x03 i rest e l)
attributes_loop_behind (suc fuel) bytes front (g ∷ gs) i rest v e l hf =
    let attrs = attributes_wire g.attributes in
    let tail = groups_wire gs ++ (0x03 ∷ rest) in
    let (t, more, et, ht) = next_tag gs rest v.1 in
    let e1 : bytes ≡ front ++ (g.tag ∷ (attrs ++ tail)) = e ∙ simp append_assoc in
    let e2 : bytes ≡ (front ++ (g.tag ∷ [])) ++ (attrs ++ (t ∷ more)) =
      e1 ∙ ap (λ (r : Bytes). front ++ (g.tag ∷ (attrs ++ r))) et ∙ simp append_assoc in
    let l2 : length (front ++ (g.tag ∷ [])) ≡ i + 1 =
      omega (arith, length-append front (g.tag ∷ [])) in
    let e3 : bytes ≡ (front ++ (g.tag ∷ attrs)) ++ tail = e1 ∙ simp append_assoc in
    let l3 : length (front ++ (g.tag ∷ attrs)) ≡ i + 1 + length attrs =
      omega (arith, length-append front (g.tag ∷ attrs)) in
    ground (
      arith,
      get_elem?_behind bytes front g.tag i _ e1 l,
      v.0.group_tag,
      group_tag-ne-end g.tag v.0.group_tag,
      get_group_length_behind bytes (front ++ (g.tag ∷ [])) g.attributes t (i + 1) more v.0.members
          ht e2 l2,
      attributes_loop_behind fuel bytes (front ++ (g.tag ∷ attrs)) gs (i + 1 + length attrs) rest
          v.1 e3 l3 (omega arith),
      length-append attrs (groups_wire gs),
    )

length-groups_wire : (gs : List WireGroup) → length gs ≤ length (groups_wire gs)
length-groups_wire [] = omega arith
length-groups_wire (g ∷ gs) =
    omega
      (arith, length-append (attributes_wire g.attributes) (groups_wire gs), length-groups_wire gs)

length-section_wire : (gs : List WireGroup) → length (section_wire gs) ≡ length (groups_wire gs) + 1
length-section_wire gs = length-append (groups_wire gs) (0x03 ∷ [])

-- `GetAttributesLength` measures every well-formed section, with anything behind it.
pub get_attributes_length-section_wire :
    (gs : List WireGroup) (rest : Bytes)
    → IsSection gs
    → get_attributes_length (section_wire gs ++ rest) ≡ ok (some (length (section_wire gs)))
unfolding get_attributes_length
get_attributes_length-section_wire gs rest v =
    let bytes = section_wire gs ++ rest in
    attributes_loop_behind (suc (length bytes)) bytes [] gs 0 rest v (simp append_assoc) refl (
      omega (
        arith,
        length-append (section_wire gs) rest,
        length-section_wire gs,
        length-groups_wire gs,
      ))
    ∙ ap (λ (n : ℕ). ok (some n)) (omega (arith, length-section_wire gs))

-- `RemoveIppAttributes` strips every well-formed section from a buffer, and leaves exactly the
-- document that follows it.
pub remove_ipp_attributes-section_wire :
    (gs : List WireGroup) (rest : Bytes)
    → IsSection gs
    → remove_ipp_attributes (section_wire gs ++ rest) ≡ ok (some rest)
unfolding remove_ipp_attributes
remove_ipp_attributes-section_wire gs rest v = rw (
  get_attributes_length-section_wire gs rest v,
  erase_front (section_wire gs ++ rest) (length (section_wire gs))
      (omega (arith, length-append (section_wire gs) rest)),
  drop-length (section_wire gs) rest,
)
