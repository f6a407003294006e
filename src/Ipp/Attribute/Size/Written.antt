-- ===== src/Ipp/Attribute/Size/Written.antt =====
-- How many bytes the writers of Add write.
use virtual_usb_printer.Common.{
  ℕ, ◌+◌, ◌*◌, ◌<◌, ◌≡◌, refl, sym, ap, ◌∙◌, inl, inr, Bool, true, false, ◌&&◌, List, [], ◌∷◌, ◌++◌,
  arith, leb, Bool-cases, length, length-append, Result, ok, ◌>>=◌, Bytes, bind-eq-ok,
}
use native.Mathlib.Nat.{mul-suc}
use virtual_usb_printer.Json.{
  Value, null, boolean, integer, double, string, dict, list, to_list, is_list, get_list, get_bool,
  get_int,
}
use virtual_usb_printer.SmartBuffer.{SmartBuffer, add}
use virtual_usb_printer.ByteOrder.{wire, length-wire}
use virtual_usb_printer.Ipp.Tag.{IppTag, tag_value}
use virtual_usb_printer.Ipp.Attribute.{IppAttribute, bools_of, ints_of}
use virtual_usb_printer.Ipp.Attribute.Add.{add_front, add_values, by_shape}
use virtual_usb_printer.Ipp.Attribute.Add.Wire.{shown, add_front_lem}

-- A write that succeeds adds `n` bytes.
abbrev pub Adds : ℕ → SmartBuffer → Result SmartBuffer → Type 0
Adds n buf r = (b : SmartBuffer) → r ≡ ok b → length b ≡ length buf + n

-- Tag, name and length of a value, behind `buf`.
front_of : IppTag → Bytes → ℕ → SmartBuffer → SmartBuffer
front_of tag name n buf = buf ++ (tag_value tag ∷ (wire 2 (length name) ++ (name ++ wire 2 n)))

length-front_of :
    (tag : IppTag) (name : Bytes) (n : ℕ) (buf : SmartBuffer)
    → length (front_of tag name n buf) ≡ length buf + (5 + length name)
unfolding front_of
length-front_of tag name n buf = omega (
  arith,
  length-append buf (tag_value tag ∷ (wire 2 (length name) ++ (name ++ wire 2 n))),
  length-append (wire 2 (length name)) (name ++ wire 2 n),
  length-append name (wire 2 n),
  length-wire 2 (length name),
  length-wire 2 n,
)

pub front-Adds :
    (tag : IppTag) (name : Bytes) (inc : Bool) (n : ℕ) (buf : SmartBuffer)
    → Adds (5 + length (shown inc name)) buf (add_front tag name inc n buf)
unfolding front_of
front-Adds tag name inc n buf b e = elim (Bool-cases (leb (length name) 65535 && leb n 65535)) [
  | inr long ↦ let r = rw long at (add_front_lem tag name inc n buf) in absurd (cc)
  | inl fits ↦
      let r : add_front tag name inc n buf ≡ ok (front_of tag (shown inc name) n buf) =
        rw (add_front_lem tag name inc n buf, fits) refl in
      let same : front_of tag (shown inc name) n buf ≡ b = cc in
      sym (ap length same) ∙ length-front_of tag (shown inc name) n buf
]

-- A value behind its front.
pub value-Adds :
    (tag : IppTag) (name : Bytes) (inc : Bool) (n : ℕ) (v : Bytes) (buf : SmartBuffer)
    → Adds
        (5 + length (shown inc name) + length v)
        buf
        (add_front tag name inc n buf >>= λ front. ok (add front v))
unfolding add
value-Adds tag name inc n v buf b e =
    let (front, got, rest) = bind-eq-ok (add_front tag name inc n buf) _ e in
    let same : front ++ v ≡ b = cc in
    omega (arith, ap length same, length-append front v, front-Adds tag name inc n buf front got)

-- The values of a list, each of `size` bytes. The name stands before the first one only.
rest-Adds :
    {A : Type 0} (write : A → Bool → SmartBuffer → Result SmartBuffer) (size : ℕ)
    → ((v : A) (b : SmartBuffer) → Adds (5 + size) b (write v false b))
    → (vs : List A) (buf : SmartBuffer)
    → Adds (5 * length vs + size * length vs) buf (add_values write false vs buf)
unfolding add_values
rest-Adds write size h [] buf b e = let same : buf ≡ b = cc in omega (arith, ap length same)
rest-Adds write size h (v ∷ vs) buf b e =
    let (mid, got, left) = bind-eq-ok (write v false buf) _ e in
    let one = h v buf mid got in
    let others = rest-Adds write size h vs mid b left in
    omega (arith, one, others, mul-suc size (length vs))

values-Adds :
    {A : Type 0} (write : A → Bool → SmartBuffer → Result SmartBuffer) (name : Bytes) (size : ℕ)
    → ((v : A) (inc : Bool) (b : SmartBuffer)
        → Adds (5 + length (shown inc name) + size) b (write v inc b))
    → (vs : List A) (buf : SmartBuffer) → 0 < length vs
    → Adds (5 * length vs + length name + size * length vs) buf (add_values write true vs buf)
unfolding add_values
values-Adds write name size h [] buf some_ b e = absurd (omega arith)
values-Adds write name size h (v ∷ vs) buf some_ b e =
    let (mid, got, left) = bind-eq-ok (write v true buf) _ e in
    let one = h v true buf mid got in
    let others = rest-Adds write size (λ w c. h w false c) vs mid b left in
    omega (arith, one, others, mul-suc size (length vs))

-- The loops over the items of a list give as many values.
pub length-ints_of : (vs : List Value) (ns : List ℕ) → ints_of vs ≡ ok ns → length ns ≡ length vs
unfolding ints_of
length-ints_of [] ns e = let same : [] ≡ ns = cc in sym (ap length same)
length-ints_of (v ∷ vs) ns e =
    let (n, got, more) = bind-eq-ok (get_int v) _ e in
    let (rest, all, end) = bind-eq-ok (ints_of vs) _ more in
    let same : n ∷ rest ≡ ns = cc in omega (arith, ap length same, length-ints_of vs rest all)

pub length-bools_of :
    (vs : List Value) (bs : List Bool) → bools_of vs ≡ ok bs → length bs ≡ length vs
unfolding bools_of
length-bools_of [] bs e = let same : [] ≡ bs = cc in sym (ap length same)
length-bools_of (v ∷ vs) bs e =
    let (b, got, more) = bind-eq-ok (get_bool v) _ e in
    let (rest, all, end) = bind-eq-ok (bools_of vs) _ more in
    let same : b ∷ rest ≡ bs = cc in omega (arith, ap length same, length-bools_of vs rest all)

-- How many values a writer writes: one for each item of a list.
abbrev pub value_count : Value → ℕ
value_count (list vs) = length (to_list vs)
value_count _ = 1

-- A list has an item.
abbrev pub IsFilled : Value → Type 0
IsFilled v = 0 < value_count v

pub list_shape :
    (v : Value)
    → is_list v ≡ true
    → (vs : List Value) × (get_list v ≡ ok vs) × (value_count v ≡ length vs)
list_shape (list vs) h = (to_list vs, refl, refl)
list_shape (null) h = absurd (cc)
list_shape (boolean x) h = absurd (cc)
list_shape (integer x) h = absurd (cc)
list_shape (double x) h = absurd (cc)
list_shape (string x) h = absurd (cc)
list_shape (dict x) h = absurd (cc)

pub single : (v : Value) → is_list v ≡ false → value_count v ≡ 1
single (list vs) h = absurd (cc)
single (null) h = refl
single (boolean x) h = refl
single (integer x) h = refl
single (double x) h = refl
single (string x) h = refl
single (dict x) h = refl

pub by_shape-Adds :
    {A : Type 0} (write : A → Bool → SmartBuffer → Result SmartBuffer)
    (many : List Value → Result (List A)) (one : Value → Result A) (size : ℕ) (a : IppAttribute)
    (buf : SmartBuffer)
    → ((vs : List Value) (xs : List A) → many vs ≡ ok xs → length xs ≡ length vs)
    → ((v : A) (inc : Bool) (b : SmartBuffer)
        → Adds (5 + length (shown inc a.name) + size) b (write v inc b))
    → IsFilled a.value
    → Adds
        (5 * value_count a.value + length a.name + size * value_count a.value)
        buf
        (by_shape write (λ x. get_list x.value >>= many) one a buf)
by_shape-Adds write many one size a buf same_length h filled b e =
    elim (Bool-cases (is_list a.value)) [
      | inl l ↦
          let (vs, items, count) = list_shape a.value l in
          let (xs, got, written) =
            bind-eq-ok (get_list a.value >>= many) (λ values. add_values write true values buf)
              (rw l at e) in
          let many_ : many vs ≡ ok xs = rw items at got in
          let n : length xs ≡ value_count a.value = same_length vs xs many_ ∙ sym count in
          let filled' : 0 < length xs = omega (arith, n, filled) in
          rw (sym n) (values-Adds write a.name size h xs buf filled' b written)
      | inr l ↦
          let (x, got, written) =
            bind-eq-ok (one a.value) (λ value. write value true buf) (rw l at e) in
          let n = single a.value l in rw n (let w = h x true buf b written in omega (arith, w))
    ]
