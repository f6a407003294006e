-- ===== src/FlatMap/Laws.antt =====
-- What a look-up finds after a change of the map.
use virtual_usb_printer.Common.{
  ◌≡◌, refl, sym, ap, subst, inl, inr, true, false, none, some, [], ◌∷◌, arith, if◌then◌else◌,
  Bool-cases, Bytes, bytes_eq, bytes_eq→eq,
}
use virtual_usb_printer.FlatMap.{FlatMap, find, assign, erase, bytes_lt}

same_test : (j k i : Bytes) → bytes_eq k i ≡ true → bytes_eq j i ≡ bytes_eq j k
same_test j k i h = ap (bytes_eq j) (sym (bytes_eq→eq k i h))

apart : (j k i : Bytes) → bytes_eq k i ≡ false → bytes_eq j i ≡ true → bytes_eq j k ≡ false
apart j k i n e = elim (Bool-cases (bytes_eq j k)) [
  | inr d ↦ d
  | inl s ↦
      let n' : bytes_eq j i ≡ false =
        subst (λ x. bytes_eq x i ≡ false) (sym (bytes_eq→eq j k s)) n in
      absurd (cc)
]

module _ {ℓ} {V : Type ℓ} where
  pub find-assign :
      (j k : Bytes) (v : V) (m : FlatMap V)
      → find j (assign k v m) ≡ (if bytes_eq j k then some v else find j m)
  unfolding find assign
  find-assign j k v [] = refl
  find-assign j k v ((i, w) ∷ m) = elim (Bool-cases (bytes_eq k i)) [
    | inl same ↦ ground (arith, same, same_test j k i same)
    | inr other ↦ elim (Bool-cases (bytes_lt k i)) [
      | inl before ↦ ground (arith, other, before)
      | inr after ↦ ground (arith, other, after, find-assign j k v m, apart j k i other)
    ]
  ]

  pub find-erase :
      (j k : Bytes) (m : FlatMap V) → find j (erase k m) ≡ (if bytes_eq j k then none else find j m)
  unfolding find erase
  find-erase j k [] = ground arith
  find-erase j k ((i, w) ∷ m) = elim (Bool-cases (bytes_eq k i)) [
    | inl same ↦ ground (arith, same, same_test j k i same, find-erase j k m)
    | inr other ↦ ground (arith, other, find-erase j k m, apart j k i other)
  ]
