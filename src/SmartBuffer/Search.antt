-- ===== src/SmartBuffer/Search.antt =====
-- `FindFirstOccurrence` against the definition of a first occurrence.
use virtual_usb_printer.Common.{
  ℕ, zero, suc, ◌+◌, ◌≤◌, ◌<◌, ◌≡◌, refl, ap, ◌≢◌, inl, inr, true, false, [], ◌∷◌, ◌++◌, Option,
  none, some, Bytes, is_prefix, is_prefix-append, is_prefix→append, length-append, length-drop, All,
  arith, length, drop, Bool-cases, Option-cases,
}
use virtual_usb_printer.SmartBuffer.{search_from, find_first_occurrence}

abbrev pub OccursAt : Bytes → Bytes → ℕ → Type 0
OccursAt target bytes i = is_prefix target (drop i bytes) ≡ true

-- `i` is where `target` first stands in `bytes`, or there is no such place.
unfoldable pub IsFirst : Bytes → Bytes → Option ℕ → Type 0
IsFirst target bytes none = (i : ℕ) → i ≤ length bytes → ¬ OccursAt target bytes i
IsFirst target bytes (some i) =
    (i ≤ length bytes) × OccursAt target bytes i × ((j : ℕ) → j < i → ¬ OccursAt target bytes j)

search_from_before :
    (target : Bytes) (b : ℕ) (bs : Bytes) (k j : ℕ)
    → is_prefix target (b ∷ bs) ≡ false
    → ((i : ℕ) → i < k → ¬ OccursAt target bs i)
    → j < suc k
    → ¬ OccursAt target (b ∷ bs) j
search_from_before target b bs k zero miss f h o = cc
search_from_before target b bs k (suc j) miss f h o = f j (omega arith) o

search_from_none :
    (target : Bytes) (b : ℕ) (bs : Bytes) (j : ℕ)
    → is_prefix target (b ∷ bs) ≡ false
    → ((i : ℕ) → i ≤ length bs → ¬ OccursAt target bs i)
    → j ≤ suc (length bs)
    → ¬ OccursAt target (b ∷ bs) j
search_from_none target b bs zero miss f h o = cc
search_from_none target b bs (suc j) miss f h o = f j (omega arith) o

search_from_missed :
    (target : Bytes) (b : ℕ) (bs : Bytes) (o : Option ℕ)
    → is_prefix target (b ∷ bs) ≡ false
    → IsFirst target bs o
    → IsFirst target (b ∷ bs) (elim o [ none ↦ none | some i ↦ some (suc i) ])
unfolding IsFirst
search_from_missed target b bs none miss f = λ j h. search_from_none target b bs j miss f h
search_from_missed target b bs (some k) miss f =
    (omega arith, f.1, λ j h. search_from_before target b bs k j miss f.2 h)

no_match_in_nil :
    (target : Bytes) → is_prefix target [] ≡ false → (i : ℕ) → i ≤ 0 → ¬ OccursAt target [] i
no_match_in_nil target miss zero h o = cc
no_match_in_nil target miss (suc i) h o = absurd (omega arith)

pub search_from-IsFirst : (target bytes : Bytes) → IsFirst target bytes (search_from target bytes)
unfolding search_from
search_from-IsFirst target [] = elim (Bool-cases (is_prefix target [])) [
  | inl hit ↦ rw hit (unfold IsFirst in (omega arith, hit, λ j h o. absurd (omega arith)))
  | inr miss ↦ rw miss (unfold IsFirst in no_match_in_nil target miss)
]
search_from-IsFirst target (b ∷ bs) = elim (Bool-cases (is_prefix target (b ∷ bs))) [
  | inl hit ↦ rw hit (unfold IsFirst in (omega arith, hit, λ j h o. absurd (omega arith)))
  | inr miss ↦ rw miss (search_from_missed target b bs _ miss (search_from-IsFirst target bs))
]

-- An occurrence lies wholly inside the buffer.
pub OccursAt-fits :
    (target bytes : Bytes) (i : ℕ)
    → i ≤ length bytes
    → OccursAt target bytes i
    → i + length target ≤ length bytes
OccursAt-fits target bytes i h o =
    let (rest, e) = is_prefix→append target (drop i bytes) o in
    omega (arith, ap length e, length-append target rest, length-drop i bytes)

pub search_from-fits :
    (target bytes : Bytes) (i : ℕ)
    → search_from target bytes ≡ some i
    → (i ≤ length bytes) × (i + length target ≤ length bytes)
unfolding IsFirst
search_from-fits target bytes i e =
    let first : IsFirst target bytes (some i) = rw e at (search_from-IsFirst target bytes) in
    (first.0, OccursAt-fits target bytes i first.0 first.1)

length_pos : (target : Bytes) → target ≢ [] → 0 < length target
length_pos [] ne = absurd (ne refl)
length_pos (x ∷ xs) ne = omega arith

pub find_first_occurrence-search_from :
    (bytes target : Bytes)
    → target ≢ []
    → find_first_occurrence bytes target ≡ search_from target bytes
unfolding find_first_occurrence
find_first_occurrence-search_from bytes target ne = elim (Option-cases (search_from target bytes)) [
  | inl e ↦ rw (e, find_first_occurrence)
  | inr (i, e) ↦
      rw (e, find_first_occurrence)
        (ground (arith, search_from-fits target bytes i e, length_pos target ne))
]

-- `FindFirstOccurrence` of a target that is not empty gives the first place where it stands, and -1
-- exactly if it stands nowhere.
pub find_first_occurrence-IsFirst :
    (bytes target : Bytes) → target ≢ [] → IsFirst target bytes (find_first_occurrence bytes target)
find_first_occurrence-IsFirst bytes target ne =
    rw (find_first_occurrence-search_from bytes target ne) (search_from-IsFirst target bytes)

-- A target that begins with a byte which the front does not hold is found right behind the front.
pub search_from-append :
    (front : Bytes) (c : ℕ) (target rest : Bytes)
    → All (λ b. b ≢ c) front
    → search_from (c ∷ target) (front ++ (c ∷ (target ++ rest))) ≡ some (length front)
unfolding search_from is_prefix
search_from-append [] c target rest h = ground (arith, is_prefix-append target rest)
search_from-append (b ∷ bs) c target rest h =
    ground (arith, search_from-append bs c target rest h.1)

-- A list without the target's first byte holds no occurrence.
pub search_from_absent :
    (bytes : Bytes) (c : ℕ) (target : Bytes)
    → All (λ b. b ≢ c) bytes
    → search_from (c ∷ target) bytes ≡ none
unfolding search_from is_prefix
search_from_absent [] c target h = refl
search_from_absent (b ∷ bs) c target h = ground (arith, search_from_absent bs c target h.1)
