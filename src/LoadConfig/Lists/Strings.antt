-- ===== src/LoadConfig/Lists/Strings.antt =====
-- The string descriptors of a loaded configuration, and how requests for them are answered.
use virtual_usb_printer.Common.{
  ℕ, zero, suc, ◌+◌, ◌*◌, ◌%◌, ◌≤◌, ◌≡◌, refl, ap, ◌∙◌, inl, inr, some, List, [], ◌∷◌, ◌++◌,
  append_assoc, arith, leb, leb→le, if◌then◌else◌, Bool-cases, length, set, replicate, get_elem?,
  take_all, check_failed, exited, ok, err, bind-eq-ok, Bytes,
}
use virtual_usb_printer.Json.{Value, string}
use virtual_usb_printer.SmartBuffer.{add}
use virtual_usb_printer.Printer.Control.{string_prefix}
use virtual_usb_printer.LoadConfig.Lists.{
  write_characters, convert_string_to_string_descriptor, strings_of_config,
}

-- UTF-16 of ASCII characters.
abbrev pub wide : Bytes → Bytes
wide [] = []
wide (c ∷ s) = c ∷ 0 ∷ wide s

-- The string descriptor of the USB standard: its size, its type, and the characters.
abbrev pub string_wire : Bytes → Bytes
string_wire s = (2 * length s + 2) ∷ 3 ∷ wide s

abbrev blank : Bytes → Bytes
blank [] = []
blank (c ∷ s) = 0 ∷ 0 ∷ blank s

blank_lem : (s : Bytes) → replicate (length s * 2) 0 ≡ blank s
blank_lem [] = refl
blank_lem (c ∷ s) =
    let e : suc (length s) * 2 ≡ suc (suc (length s * 2)) = omega arith in
    rw e (rw (blank_lem s) refl)

length-wide : (s : Bytes) → length (wide s) ≡ 2 * length s
length-wide [] = refl
length-wide (c ∷ s) = omega (arith, length-wide s)

set_at :
    (front : Bytes) (x v : ℕ) (rest : Bytes)
    → set (front ++ (x ∷ rest)) (length front) v ≡ front ++ (v ∷ rest)
set_at [] x v rest = refl
set_at (f ∷ front) x v rest = ap (◌∷◌ f) (set_at front x v rest)

set_next :
    (front : Bytes) (y x v : ℕ) (rest : Bytes)
    → set (front ++ (y ∷ x ∷ rest)) (length front + 1) v ≡ front ++ (y ∷ v ∷ rest)
set_next [] y x v rest = refl
set_next (f ∷ front) y x v rest =
    let e : suc (length front) + 1 ≡ suc (length front + 1) = omega arith in
    rw e (ap (◌∷◌ f) (set_next front y x v rest))

length_two : (front : Bytes) (c : ℕ) → length (front ++ (c ∷ 0 ∷ [])) ≡ length front + 2
length_two [] c = refl
length_two (f ∷ front) c = omega (arith, length_two front c)

-- The loop fills in the characters behind what is written.
write_characters_lem :
    (s front : Bytes) → write_characters (length front) s (front ++ blank s) ≡ front ++ wide s
unfolding write_characters
write_characters_lem [] front = refl
write_characters_lem (c ∷ s) front =
    let regroup = λ (rest : Bytes). append_assoc front (c ∷ 0 ∷ []) rest in
    rw (set_at front 0 c (0 ∷ blank s)) (
      rw (set_next front c 0 0 (blank s)) (
        rw (← length_two front c) (
          rw (← regroup (blank s))
            (write_characters_lem s (front ++ (c ∷ 0 ∷ [])) ∙ regroup (wide s)))))

-- A string of up to 126 characters becomes its descriptor, a longer one ends the process.
convert_lem :
    (s : Bytes)
    → convert_string_to_string_descriptor s
      ≡ (if leb (length s) 126 then ok (string_wire s) else err check_failed)
unfolding convert_string_to_string_descriptor
convert_lem s = elim (Bool-cases (leb (length s) 126)) [
  | inr long ↦ rw long refl
  | inl fits ↦
      let size : (length s * 2 + 2) % 256 ≡ suc (suc (length s * 2)) =
        omega (arith, leb→le (length s) 126 fits) in
      let same : suc (suc (length s * 2)) ≡ 2 * length s + 2 = omega arith in
      rw fits (
        rw size (
          rw (blank_lem s) (
            ap ok (
              write_characters_lem s (suc (suc (length s * 2)) ∷ 3 ∷ [])
              ∙ ap (λ (n : ℕ). n ∷ 3 ∷ wide s) same))))
]

-- Strings as the list of the configuration has them.
abbrev pub string_values : List Bytes → List Value
string_values [] = []
string_values (s ∷ ss) = string s ∷ string_values ss

-- The descriptor that the loop makes of a string of the list, which fits.
pub strings_of_config_lem :
    (ss : List Bytes) (descriptors : List Bytes) (i : ℕ) (s : Bytes)
    → strings_of_config (string_values ss) ≡ ok descriptors
    → get_elem? ss i ≡ some s
    → get_elem? descriptors i ≡ some (string_wire s)
unfolding strings_of_config
strings_of_config_lem [] descriptors i s e h = absurd (cc)
strings_of_config_lem (t ∷ ss) descriptors zero s e h =
    let (d, made, e1) = bind-eq-ok (convert_string_to_string_descriptor t) _ e in
    let (rest, all, e2) = bind-eq-ok (strings_of_config (string_values ss)) _ e1 in
    let first : d ≡ string_wire t = ground (arith, convert_lem t) in
    let same : t ≡ s = cc in
    let whole : d ∷ rest ≡ descriptors = cc in rw (← whole) (rw (← same) (ap some first))
strings_of_config_lem (t ∷ ss) descriptors (suc i) s e h =
    let (d, made, e1) = bind-eq-ok (convert_string_to_string_descriptor t) _ e in
    let (rest, all, e2) = bind-eq-ok (strings_of_config (string_values ss)) _ e1 in
    let whole : d ∷ rest ≡ descriptors = cc in
    rw (← whole) (strings_of_config_lem ss rest i s all h)

-- A descriptor of up to 62 characters is sent whole. The first byte of a longer one is 128 or more, which
-- is read as a negative size.
pub string_prefix-string_wire :
    (s : Bytes)
    → length s ≤ 126
    → string_prefix (string_wire s) ≡ (if leb (length s) 62 then ok (string_wire s) else err exited)
unfolding string_prefix add
string_prefix-string_wire s h =
    let size = length-wide s in
    let whole = take_all (2 * length s + 2) (string_wire s) (omega (arith, size)) in
    elim (Bool-cases (leb (length s) 62)) [
      | inl short ↦ ground (arith, short, size, whole)
      | inr long ↦ ground (arith, long, size)
    ]

-- No string of the list is longer than 126 characters.
pub short_strings :
    (ss : List Bytes) (descriptors : List Bytes) (i : ℕ) (s : Bytes)
    → strings_of_config (string_values ss) ≡ ok descriptors
    → get_elem? ss i ≡ some s
    → length s ≤ 126
unfolding strings_of_config
short_strings [] descriptors i s e h = absurd (cc)
short_strings (t ∷ ss) descriptors zero s e h =
    let (d, made, e1) = bind-eq-ok (convert_string_to_string_descriptor t) _ e in
    let same : t ≡ s = cc in rw (← same) (ground (arith, convert_lem t))
short_strings (t ∷ ss) descriptors (suc i) s e h =
    let (d, made, e1) = bind-eq-ok (convert_string_to_string_descriptor t) _ e in
    let (rest, all, e2) = bind-eq-ok (strings_of_config (string_values ss)) _ e1 in
    short_strings ss rest i s all h
