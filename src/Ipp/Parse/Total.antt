-- ===== src/Ipp/Parse/Total.antt =====
-- The walk over the attributes section ends on every buffer: no loop runs out of rounds.
use virtual_usb_printer.Common.{
  ℕ, zero, suc, ◌+◌, ◌-◌, ◌<◌, ◌≡◌, inl, inr, true, false, none, some, arith, leb, ◌==◌, Bool-cases,
  Option-cases, length, get_elem?, get_elem?-some, Result, ok, Bytes,
}
use virtual_usb_printer.Ipp.Parse.{
  get_attribute_length, ends_group, is_attribute_group_tag, group_loop, get_group_length,
  attributes_loop, get_attributes_length,
}

-- Some answer is returned.
abbrev pub Answers {ℓ} : {A : Type ℓ} → Result A → Type ℓ
Answers {A = A} r = (a : A) × (r ≡ ok a)

group_loop-Answers :
    (fuel : ℕ) (bytes : Bytes) (start i : ℕ)
    → length bytes < i + fuel
    → Answers (group_loop fuel bytes start i)
unfolding group_loop
group_loop-Answers zero bytes start i h = elim (Option-cases (get_elem? bytes i)) [
  | inl e ↦ (none, ground (arith, e))
  | inr (t, e) ↦ absurd (omega (arith, (get_elem?-some bytes i e).0))
]
group_loop-Answers (suc fuel) bytes start i h = elim (Option-cases (get_elem? bytes i)) [
  | inl e ↦ (none, ground (arith, e))
  | inr (t, e) ↦ elim (Bool-cases (ends_group t)) [
    | inl ends ↦ (some (i - start), ground (arith, e, ends))
    | inr more ↦ elim (Option-cases (get_attribute_length bytes (i + 1))) [
      | inl bad ↦ (none, ground (arith, e, more, bad))
      | inr (n, len) ↦
          let (o, r) = group_loop-Answers fuel bytes start (i + 1 + n) (omega arith) in
          (o, ground (arith, e, more, len, r))
    ]
  ]
]

get_group_length-Answers : (bytes : Bytes) (start : ℕ) → Answers (get_group_length bytes start)
unfolding get_group_length
get_group_length-Answers bytes start = elim (Bool-cases (leb (length bytes) start)) [
  | inl past ↦ (none, ground (arith, past))
  | inr before ↦
      let (o, r) = group_loop-Answers (suc (length bytes)) bytes start start (omega arith) in
      (o, ground (arith, before, r))
]

group_round :
    (fuel : ℕ) (bytes : Bytes) (i t : ℕ)
    → get_elem? bytes i ≡ some t
    → (t == 0x03) ≡ false
    → is_attribute_group_tag t ≡ true
    → ((n : ℕ) → Answers (attributes_loop fuel bytes (i + 1 + n)))
    → Answers (get_group_length bytes (i + 1))
    → Answers (attributes_loop (suc fuel) bytes i)
unfolding attributes_loop
group_round fuel bytes i t e more group next (none, r) = (none, ground (arith, e, more, group, r))
group_round fuel bytes i t e more group next (some n, r) =
    ((next n).0, ground (arith, e, more, group, r, (next n).1))

attributes_loop-Answers :
    (fuel : ℕ) (bytes : Bytes) (i : ℕ)
    → length bytes < i + fuel
    → Answers (attributes_loop fuel bytes i)
unfolding attributes_loop
attributes_loop-Answers zero bytes i h = elim (Option-cases (get_elem? bytes i)) [
  | inl e ↦ (none, ground (arith, e))
  | inr (t, e) ↦ absurd (omega (arith, (get_elem?-some bytes i e).0))
]
attributes_loop-Answers (suc fuel) bytes i h = elim (Option-cases (get_elem? bytes i)) [
  | inl e ↦ (none, ground (arith, e))
  | inr (t, e) ↦ elim (Bool-cases (t == 0x03)) [
    | inl ends ↦ (some (i + 1), ground (arith, e, ends))
    | inr more ↦ elim (Bool-cases (is_attribute_group_tag t)) [
      | inr bad ↦ (none, ground (arith, e, more, bad))
      | inl group ↦
          group_round fuel bytes i t e more group
            (λ n. attributes_loop-Answers fuel bytes (i + 1 + n) (omega arith))
            (get_group_length-Answers bytes (i + 1))
    ]
  ]
]

-- `GetAttributesLength` ends on every buffer.
pub get_attributes_length-Answers : (bytes : Bytes) → Answers (get_attributes_length bytes)
unfolding get_attributes_length
get_attributes_length-Answers bytes =
    attributes_loop-Answers (suc (length bytes)) bytes 0 (omega arith)
