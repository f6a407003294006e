-- ===== src/Ipp/Parse/Sound.antt =====
-- Whatever `GetAttributesLength` measures is a well-formed attributes section.
use virtual_usb_printer.Common.{
  ℕ, zero, suc, ◌+◌, ◌^◌, ◌≤◌, ◌<◌, ◌≡◌, refl, sym, ap, ◌∙◌, inl, inr, true, false, Option, none,
  some, List, [], ◌∷◌, ◌++◌, append_assoc, arith, ◌==◌, Bool-cases, Option-cases, length, get_elem?,
  take, drop, All, take-append-drop, length-take, length-drop, drop-drop, All-drop, get_elem?-some,
  Result, ok, err, ◌>>=◌, bind-eq-ok, Bytes, IsByte,
}
use virtual_usb_printer.SmartBuffer.{SmartBuffer, erase}
use virtual_usb_printer.SmartBuffer.Edit.{erase_front}
use virtual_usb_printer.ByteOrder.{load, htons, wire, mem, swap}
use virtual_usb_printer.Ipp.Parse.{
  read_short, value_end, get_attribute_length, is_attribute_group_tag, ends_group, group_loop,
  get_group_length, attributes_loop, get_attributes_length, remove_ipp_attributes,
}
use virtual_usb_printer.Ipp.Parse.Grammar.{
  WireAttribute, WireGroup, body_wire, attributes_wire, section_wire, IsAttribute, IsSection,
}

pair_wire :
    (a b : ℕ)
    → a < 256
    → b < 256
    → (wire 2 (swap 2 (load (a ∷ b ∷ []))) ≡ a ∷ b ∷ []) × (swap 2 (load (a ∷ b ∷ [])) < 2 ^ 16)
unfolding wire mem swap load
pair_wire a b ha hb = ground arith

short_split :
    (i : ℕ) (rest tail : Bytes)
    → 2 ≤ length rest
    → All IsByte rest
    → drop 2 rest ≡ tail
    → (rest ≡ wire 2 (htons (load (take 2 rest))) ++ tail) × (htons (load (take 2 rest)) < 2 ^ 16)
short_split i [] tail h v d = absurd (omega arith)
short_split i (a ∷ []) tail h v d = absurd (omega arith)
short_split i (a ∷ b ∷ rest) tail h v d =
    let (w, lt) = pair_wire a b v.0 v.1.0 in (rw w (ap (λ (r : Bytes). a ∷ b ∷ r) d), lt)

read_short-some :
    (bytes : Bytes) (i : ℕ) {x : ℕ}
    → All IsByte bytes
    → read_short bytes i ≡ some x
    → (i + 2 ≤ length bytes) × (drop i bytes ≡ wire 2 x ++ drop (i + 2) bytes) × (x < 2 ^ 16)
unfolding read_short
read_short-some bytes i {x} v e =
    let room : i + 2 ≤ length bytes = ground arith in
    let is_x : htons (load (take 2 (drop i bytes))) ≡ x = ground arith in
    let (split, lt) =
      short_split i (drop i bytes) (drop (i + 2) bytes) (omega (arith, length-drop i bytes))
        (All-drop IsByte i bytes v) (drop-drop 2 i bytes) in
    (room, rw is_x at split, rw is_x at lt)

cut : (bytes : Bytes) (i n j : ℕ) → i + n ≡ j → drop i bytes ≡ take n (drop i bytes) ++ drop j bytes
cut bytes i n j e =
    sym (take-append-drop n (drop i bytes))
    ∙ ap (◌++◌ (take n (drop i bytes))) (drop-drop n i bytes ∙ ap (λ (m : ℕ). drop m bytes) e)

length_cut : (bytes : Bytes) (i n : ℕ) → i + n ≤ length bytes → length (take n (drop i bytes)) ≡ n
length_cut bytes i n h = omega (arith, length-take n (drop i bytes), length-drop i bytes)

-- What stands at `i` is the body of an attribute of `n` bytes.
abbrev BodyAt : Bytes → ℕ → ℕ → ℕ → Type 0
BodyAt bytes i t n =
    (a : WireAttribute) × (a.tag ≡ t)
    × (i + n ≤ length bytes)
    × (drop i bytes ≡ body_wire a ++ drop (i + n) bytes)
    × (length a.name < 2 ^ 16)
    × (length a.value < 2 ^ 16)

body_at :
    (bytes : Bytes) (i t nl vl : ℕ)
    → All IsByte bytes
    → read_short bytes i ≡ some nl
    → read_short bytes (i + 2 + nl) ≡ some vl
    → i + 2 + nl + 2 + vl ≤ length bytes
    → BodyAt bytes i t (4 + nl + vl)
body_at bytes i t nl vl v en ev h =
    let (_, dn, hn) = read_short-some bytes i v en in
    let (_, dv, hv) = read_short-some bytes (i + 2 + nl) v ev in
    let nm = take nl (drop (i + 2) bytes) in
    let vb = take vl (drop (i + 2 + nl + 2) bytes) in
    let ln : length nm ≡ nl = length_cut bytes (i + 2) nl (omega arith) in
    let lv : length vb ≡ vl = length_cut bytes (i + 2 + nl + 2) vl (omega arith) in
    let c1 = cut bytes (i + 2) nl (i + 2 + nl) refl in
    let c2 = cut bytes (i + 2 + nl + 2) vl (i + (4 + nl + vl)) (omega arith) in
    (
      record { tag = t; name = nm; value = vb },
      refl,
      omega arith,
      rw (ln, lv)
          (dn
            ∙ ap (◌++◌ (wire 2 nl)) (c1 ∙ ap (◌++◌ nm) (dv ∙ ap (◌++◌ (wire 2 vl)) c2))
            ∙ simp append_assoc),
      omega arith,
      omega arith,
    )

get_attribute_length-some :
    (bytes : Bytes) (i t : ℕ) {n : ℕ}
    → All IsByte bytes
    → get_attribute_length bytes i ≡ some n
    → BodyAt bytes i t n
unfolding get_attribute_length value_end
get_attribute_length-some bytes i t {n} v e = elim (Option-cases (read_short bytes i)) [
  | inl en ↦ absurd (ground (arith, en))
  | inr (nl, en) ↦ elim (Option-cases (read_short bytes (i + 2 + nl))) [
    | inl ev ↦ absurd (ground (arith, en, ev))
    | inr (vl, ev) ↦
        let size : n ≡ 4 + nl + vl = ground (arith, en, ev) in
        rw size (body_at bytes i t nl vl v en ev (ground (arith, en, ev)))
  ]
]

-- What stands at `i` is some attributes, and then at `j` a tag that ends the group.
abbrev MembersAt : Bytes → ℕ → ℕ → Type 0
MembersAt bytes i j =
    (as_ : List WireAttribute) × All IsAttribute as_
    × (i ≤ j)
    × (j < length bytes)
    × (drop i bytes ≡ attributes_wire as_ ++ drop j bytes)

add_member :
    (bytes : Bytes) (i j t n : ℕ)
    → get_elem? bytes i ≡ some t
    → ends_group t ≡ false
    → BodyAt bytes (i + 1) t n
    → MembersAt bytes (i + 1 + n) j
    → MembersAt bytes i j
add_member bytes i j t n e more (a, at, room, split, hn, hv) (as_, vs, le, lt, rest) =
    let head : drop i bytes ≡ t ∷ drop (i + 1) bytes =
      (get_elem?-some bytes i e).1 ∙ ap (λ (m : ℕ). t ∷ drop m bytes) {x = suc i} (omega arith) in
    (
      a ∷ as_,
      (record { value_tag = rw at more; short_name = hn; short_value = hv }, vs),
      omega arith,
      lt,
      head ∙ ap (◌∷◌ t) (split ∙ ap (◌++◌ (body_wire a)) rest) ∙ rw at (simp append_assoc),
    )

group_loop-some :
    (fuel : ℕ) (bytes : Bytes) (start i k : ℕ)
    → All IsByte bytes
    → start ≤ i
    → group_loop fuel bytes start i ≡ ok (some k)
    → MembersAt bytes i (start + k)
unfolding group_loop
group_loop-some zero bytes start i k v h e =
    absurd (ground (arith, Option-cases (get_elem? bytes i)))
group_loop-some (suc fuel) bytes start i k v h e = elim (Option-cases (get_elem? bytes i)) [
  | inl none_ ↦ absurd (ground (arith, none_))
  | inr (t, at) ↦ elim (Bool-cases (ends_group t)) [
    | inl ends ↦
        let size : i ≡ start + k = ground (arith, at, ends) in
        (
          [],
          tt,
          omega arith,
          omega (arith, (get_elem?-some bytes i at).0),
          ap (λ (m : ℕ). drop m bytes) size,
        )
    | inr more ↦ elim (Option-cases (get_attribute_length bytes (i + 1))) [
      | inl bad ↦ absurd (ground (arith, at, more, bad))
      | inr (n, len) ↦
          add_member bytes i (start + k) t n at more
            (get_attribute_length-some bytes (i + 1) t v len)
            (group_loop-some fuel bytes start (i + 1 + n) k v (omega arith)
              (ground (arith, at, more, len)))
    ]
  ]
]

get_group_length-some :
    (bytes : Bytes) (start k : ℕ)
    → All IsByte bytes
    → get_group_length bytes start ≡ ok (some k)
    → MembersAt bytes start (start + k)
unfolding get_group_length
get_group_length-some bytes start k v e =
    group_loop-some (suc (length bytes)) bytes start start k v (omega arith) (ground arith)

-- What stands at `i` is some groups and the end tag, and `j` is behind them.
abbrev SectionAt : Bytes → ℕ → ℕ → Type 0
SectionAt bytes i j =
    (gs : List WireGroup) × IsSection gs
    × (i ≤ j)
    × (j ≤ length bytes)
    × (drop i bytes ≡ section_wire gs ++ drop j bytes)

drop_head :
    (bytes : Bytes) (i : ℕ) {t : ℕ}
    → get_elem? bytes i ≡ some t
    → drop i bytes ≡ t ∷ drop (i + 1) bytes
drop_head bytes i {t} e =
    (get_elem?-some bytes i e).1 ∙ ap (λ (m : ℕ). t ∷ drop m bytes) {x = suc i} (omega arith)

add_group :
    (bytes : Bytes) (i j t n : ℕ)
    → get_elem? bytes i ≡ some t
    → is_attribute_group_tag t ≡ true
    → MembersAt bytes (i + 1) (i + 1 + n)
    → SectionAt bytes (i + 1 + n) j
    → SectionAt bytes i j
add_group bytes i j t n e group (as_, vs, _, _, split) (gs, ws, le, lt, rest) = (
  record { tag = t; attributes = as_ } ∷ gs,
  (record { group_tag = group; members = vs }, ws),
  omega arith,
  lt,
  drop_head bytes i e
      ∙ ap (◌∷◌ t) (split ∙ ap (◌++◌ (attributes_wire as_)) rest)
      ∙ simp append_assoc,
)

group_section :
    (fuel : ℕ) (bytes : Bytes) (i k t : ℕ) (r : Result (Option ℕ))
    → All IsByte bytes
    → get_elem? bytes i ≡ some t
    → (t == 0x03) ≡ false
    → is_attribute_group_tag t ≡ true
    → get_group_length bytes (i + 1) ≡ r
    → ((n : ℕ)
        → attributes_loop fuel bytes (i + 1 + n) ≡ ok (some k)
        → SectionAt bytes (i + 1 + n) k)
    → attributes_loop (suc fuel) bytes i ≡ ok (some k)
    → SectionAt bytes i k
unfolding attributes_loop
group_section fuel bytes i k t (err f) v at more group g next e =
    absurd (ground (arith, at, more, group, g))
group_section fuel bytes i k t (ok none) v at more group g next e =
    absurd (ground (arith, at, more, group, g))
group_section fuel bytes i k t (ok (some n)) v at more group g next e =
    add_group bytes i k t n at group (get_group_length-some bytes (i + 1) n v g)
      (next n (ground (arith, at, more, group, g)))

attributes_loop-some :
    (fuel : ℕ) (bytes : Bytes) (i k : ℕ)
    → All IsByte bytes
    → attributes_loop fuel bytes i ≡ ok (some k)
    → SectionAt bytes i k
unfolding attributes_loop
attributes_loop-some zero bytes i k v e = absurd (ground (arith, Option-cases (get_elem? bytes i)))
attributes_loop-some (suc fuel) bytes i k v e = elim (Option-cases (get_elem? bytes i)) [
  | inl none_ ↦ absurd (ground (arith, none_))
  | inr (t, at) ↦ elim (Bool-cases (t == 0x03)) [
    | inl ends ↦
        let last : k ≡ i + 1 = ground (arith, at, ends) in
        let end_tag : t ≡ 0x03 = ground (arith, ends) in
        (
          [],
          tt,
          omega arith,
          omega (arith, (get_elem?-some bytes i at).0),
          rw (last, drop_head bytes i at, end_tag),
        )
    | inr more ↦ elim (Bool-cases (is_attribute_group_tag t)) [
      | inr bad ↦ absurd (ground (arith, at, more, bad))
      | inl group ↦
          group_section fuel bytes i k t (get_group_length bytes (i + 1)) v at more group refl
            (λ n. attributes_loop-some fuel bytes (i + 1 + n) k v) e
    ]
  ]
]

-- If `GetAttributesLength` gives a length, the buffer begins with a well-formed section of exactly
-- that length.
pub get_attributes_length-some :
    (bytes : Bytes) (n : ℕ)
    → All IsByte bytes
    → get_attributes_length bytes ≡ ok (some n)
    → (gs : List WireGroup) × IsSection gs
      × (bytes ≡ section_wire gs ++ drop n bytes)
      × (n ≤ length bytes)
unfolding get_attributes_length
get_attributes_length-some bytes n v e =
    let (gs, ws, _, le, split) = attributes_loop-some (suc (length bytes)) bytes 0 n v e in
    (gs, ws, split, le)

-- If `RemoveIppAttributes` answers true, what it stripped is a well-formed attributes section, and
-- what it leaves is all that followed.
pub remove_ipp_attributes-some :
    (buf rest : SmartBuffer)
    → All IsByte buf
    → remove_ipp_attributes buf ≡ ok (some rest)
    → (gs : List WireGroup) × IsSection gs × (buf ≡ section_wire gs ++ rest)
unfolding remove_ipp_attributes
remove_ipp_attributes-some buf rest v e =
    let (len, el, e') = bind-eq-ok (get_attributes_length buf) _ e in stripped len el e'
  where
    stripped :
        (len : Option ℕ)
        → get_attributes_length buf ≡ ok len
        → elim len [ none ↦ ok none | some n ↦ erase buf 0 n >>= λ r. ok (some r) ] ≡ ok (some rest)
        → (gs : List WireGroup) × IsSection gs × (buf ≡ section_wire gs ++ rest)
    stripped none el e' = absurd (cc)
    stripped (some n) el e' =
        let (gs, ws, split, le) = get_attributes_length-some buf n v el in
        let same : drop n buf ≡ rest = ground (arith, erase_front buf n le) in
        (gs, ws, rw same at split)
