-- ===== src/Http/Chunk/Final.antt =====
-- `ContainsFinalChunk`: which buffers it accepts.
use virtual_usb_printer.Common.{
  ℕ, ◌+◌, ◌≤◌, ◌<◌, ◌≡◌, refl, sym, ap, subst, ◌∙◌, ◌≢◌, ◌↔◌, ◌⊎◌, inl, inr, true, none, some, [],
  ◌∷◌, ◌++◌, append-nil, arith, ltb, Bool-cases, Option-cases, length, take, drop, length-append,
  take-append-drop, length-take, length-drop, drop-length, Bytes, is_prefix, is_prefix-append,
  is_prefix→append,
}
use virtual_usb_printer.SmartBuffer.{SmartBuffer, find_first_occurrence}
use virtual_usb_printer.SmartBuffer.Search.{OccursAt, IsFirst, find_first_occurrence-IsFirst}
use virtual_usb_printer.Http.Chunk.{contains_final_chunk, final_chunk}

-- The buffer ends in the last chunk, and holds no other "0\r\n\r\n" before it.
abbrev pub EndsOnce : SmartBuffer → Type 0
EndsOnce m =
    (front : Bytes) × (m ≡ front ++ final_chunk)
    × ((j : ℕ) → j < length front → ¬ OccursAt final_chunk m j)

final_chunk_some : final_chunk ≢ []
final_chunk_some e = cc

final_chunk-IsFirst :
    (m : SmartBuffer) → IsFirst final_chunk m (find_first_occurrence m final_chunk)
final_chunk-IsFirst m = find_first_occurrence-IsFirst m final_chunk final_chunk_some

at_end :
    (m : SmartBuffer) (i : ℕ)
    → OccursAt final_chunk m i
    → length m ≡ i + 5
    → m ≡ take i m ++ final_chunk
at_end m i o e =
    let (rest, d) = is_prefix→append final_chunk (drop i m) o in
    let none_left : length rest ≡ 0 =
      omega (arith, ap length d, length-append final_chunk rest, length-drop i m) in
    sym (take-append-drop i m)
    ∙ ap (◌++◌ (take i m))
        (d ∙ ap (◌++◌ final_chunk) (no_bytes rest none_left) ∙ append-nil final_chunk)
  where
    no_bytes : (xs : Bytes) → length xs ≡ 0 → xs ≡ []
    no_bytes [] e = refl
    no_bytes (x ∷ xs) e = absurd (omega arith)

contains→EndsOnce : (m : SmartBuffer) → contains_final_chunk m ≡ true → EndsOnce m
unfolding contains_final_chunk IsFirst
contains→EndsOnce m h = elim (Option-cases (find_first_occurrence m final_chunk)) [
  | inl absent ↦ absurd (ground (arith, absent, h))
  | inr (i, found) ↦
      let first : IsFirst final_chunk m (some i) =
        subst (IsFirst final_chunk m) found (final_chunk-IsFirst m) in
      let e : length m ≡ i + 5 = ground (arith, found, h) in
      let size = length-take i m in
      (take i m, at_end m i (first.1) e, λ j less. first.2 j (omega (arith, first.0)))
]

EndsOnce→contains : (m : SmartBuffer) → EndsOnce m → contains_final_chunk m ≡ true
unfolding contains_final_chunk IsFirst
EndsOnce→contains m (front, e, before) =
    let size : length m ≡ length front + 5 =
      omega (arith, ap length e, length-append front final_chunk) in
    let here : OccursAt final_chunk m (length front) =
      subst (λ x. OccursAt final_chunk x (length front)) (sym e)
        (subst (λ x. is_prefix final_chunk x ≡ true) (sym (drop-length front final_chunk))
          (ap (is_prefix final_chunk) (sym (append-nil final_chunk))
            ∙ is_prefix-append final_chunk [])) in
    elim (Option-cases (find_first_occurrence m final_chunk)) [
      | inl absent ↦
          let first : IsFirst final_chunk m none =
            subst (IsFirst final_chunk m) absent (final_chunk-IsFirst m) in
          absurd (first (length front) (omega arith) here)
      | inr (i, found) ↦
          let first : IsFirst final_chunk m (some i) =
            subst (IsFirst final_chunk m) found (final_chunk-IsFirst m) in
          elim (compare_cases i (length front)) [
            | inl less ↦ absurd (before i less (first.1))
            | inr not_less ↦ elim (compare_cases (length front) i) [
              | inl more ↦ absurd (first.2 (length front) more here)
              | inr not_more ↦ ground (arith, found, size)
            ]
          ]
    ]
  where
    compare_cases : (a b : ℕ) → (a < b) ⊎ (b ≤ a)
    compare_cases a b = elim (Bool-cases (ltb a b)) [
      | inl h ↦ inl (ground arith)
      | inr h ↦ inr (ground arith)
    ]

-- `ContainsFinalChunk` accepts exactly the buffers that end in the last chunk and hold no other
-- "0\r\n\r\n" before it: one in the data makes it miss the end.
pub contains_final_chunk_lem : (m : SmartBuffer) → (contains_final_chunk m ≡ true) ↔ EndsOnce m
contains_final_chunk_lem m = (contains→EndsOnce m, EndsOnce→contains m)
