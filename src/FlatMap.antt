-- ===== src/FlatMap.antt =====
-- `base::flat_map<std::string, V>` through its documented `std::map` interface: entries with distinct
-- keys, in the order of the keys.
pub mod Laws
use virtual_usb_printer.Common.{
  ℕ, Bool, true, false, ◌&&◌, ◌||◌, Option, none, some, List, [], ◌∷◌, ltb, ◌==◌, if◌then◌else◌,
  Bytes, bytes_eq,
}

-- `std::less<std::string>`: lexicographic on bytes.
unfoldable pub bytes_lt : Bytes → Bytes → Bool
bytes_lt [] [] = false
bytes_lt [] (y ∷ ys) = true
bytes_lt (x ∷ xs) [] = false
bytes_lt (x ∷ xs) (y ∷ ys) = ltb x y || (x == y && bytes_lt xs ys)

abbrev pub FlatMap {ℓ} : Type ℓ → Type ℓ
FlatMap V = List (Bytes × V)

module _ {ℓ} {V : Type ℓ} where
  -- `find(k)`: the value, or `none` for `end()`.
  unfoldable pub find : Bytes → FlatMap V → Option V
  find k [] = none
  find k ((j, v) ∷ m) = if bytes_eq k j then some v else find k m

  -- `m[k] = v`
  unfoldable pub assign : Bytes → V → FlatMap V → FlatMap V
  assign k v [] = (k, v) ∷ []
  assign k v ((j, w) ∷ m) =
      if bytes_eq k j
      then (k, v) ∷ m
      else if bytes_lt k j
      then (k, v) ∷ (j, w) ∷ m
      else (j, w) ∷ assign k v m

  -- `emplace(k, v)`: an entry that is there is kept.
  unfoldable pub emplace : Bytes → V → FlatMap V → FlatMap V
  emplace k v m = elim (find k m) [ none ↦ assign k v m | some w ↦ m ]

  -- `erase(k)`
  unfoldable pub erase : Bytes → FlatMap V → FlatMap V
  erase k [] = []
  erase k ((j, w) ∷ m) = if bytes_eq k j then erase k m else (j, w) ∷ erase k m

  -- `count(k)`, which `erase(k)` returns.
  unfoldable pub count : Bytes → FlatMap V → ℕ
  unfolding find
  count k m = elim (find k m) [ none ↦ 0 | some v ↦ 1 ]
