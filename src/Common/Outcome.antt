-- ===== src/Common/Outcome.antt =====
-- The outcome of code that may end the process. `CHECK` and `exit(1)` end it; an access outside a
-- container is undefined; a loop with a bound on its rounds may run out of them.
use mathlib.Core.Path.{◌≡◌, refl, subst}
use mathlib.Core.Logic.{◌⊎◌, inl, inr}
use mathlib.Core.Bool.{Bool, true, false}
use mathlib.Core.Option.{Option, none, some}

pub data Fault : Type 0 where
  check_failed exited undefined out_of_fuel : Fault

pub data Result {ℓ} (A : Type ℓ) : Type ℓ where
  err : Fault → Result A
  ok : A → Result A

module _ {ℓ} {B : Type ℓ} where
  infixl 5 ◌>>=◌ ◌>>◌
  abbrev pub ◌>>=◌ {κ} : {A : Type κ} → Result A → (A → Result B) → Result B
  err fault >>= next = err fault
  ok value >>= next = next value

  abbrev pub ◌>>◌ : Result (Unit {0}) → Result B → Result B
  first >> second = first >>= λ done. second

abbrev pub require : Bool → Fault → Result (Unit {0})
require condition fault = elim condition [ true ↦ ok tt | false ↦ err fault ]

-- `CHECK(b)`
abbrev pub check : Bool → Result (Unit {0})
check b = require b check_failed

-- `CHECK(pointer)`
abbrev pub or_check {ℓ} : {A : Type ℓ} → Option A → Result A
or_check none = err check_failed
or_check (some a) = ok a

pub bind-eq-ok {ℓ κ} :
    {A : Type ℓ} {B : Type κ} (m : Result A) (next : A → Result B) {out : B}
    → (m >>= next) ≡ ok out
    → (value : A) × (m ≡ ok value) × (next value ≡ ok out)
bind-eq-ok (err fault) next e = cc
bind-eq-ok (ok value) next e = (value, refl, e)

pub check-eq-ok {ℓ} :
    {A : Type ℓ} (b : Bool) (r : Result A) {out : A}
    → (check b >> r) ≡ ok out
    → (b ≡ true) × (r ≡ ok out)
check-eq-ok true r e = (refl, e)
check-eq-ok false r e = cc

pub Result-cases {ℓ} :
    {A : Type ℓ} (r : Result A) → ((a : A) × (r ≡ ok a)) ⊎ ((e : Fault) × (r ≡ err e))
Result-cases (ok a) = inl (a, refl)
Result-cases (err e) = inr (e, refl)

-- What holds of the value of a run that succeeds.
abbrev pub Ensures {ℓ κ} : {A : Type ℓ} → (A → Type κ) → Result A → Type κ
Ensures P (err e) = Unit
Ensures P (ok a) = P a

pub Ensures-bind {ℓ κ ℓ' κ'} :
    {A : Type ℓ} {B : Type ℓ'} (P : A → Type κ) (Q : B → Type κ') (m : Result A) (f : A → Result B)
    → Ensures P m
    → ((a : A) → P a → Ensures Q (f a))
    → Ensures Q (m >>= f)
Ensures-bind P Q (err e) f h k = tt
Ensures-bind P Q (ok a) f h k = k a h

-- Of a value with no more known than where it comes from.
pub Ensures-read {ℓ ℓ' κ'} :
    {A : Type ℓ} {B : Type ℓ'} (Q : B → Type κ') (m : Result A) (f : A → Result B)
    → ((a : A) → m ≡ ok a → Ensures Q (f a))
    → Ensures Q (m >>= f)
Ensures-read Q (err e) f k = tt
Ensures-read Q (ok a) f k = k a refl

pub Ensures-ok {ℓ κ} :
    {A : Type ℓ} (P : A → Type κ) (m : Result A) (a : A) → Ensures P m → m ≡ ok a → P a
Ensures-ok P (err e) a h s = absurd (cc)
Ensures-ok P (ok b) a h s = let same : b ≡ a = cc in subst P same h
