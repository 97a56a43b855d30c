-- ===== src/Base/Results.antt =====
-- Rust's `Result` with `?`, and values that may be a panic.
use mathlib.Core.Path.{◌≡◌, refl, ap}

pub data Result {ℓ κ} (A : Type ℓ) (E : Type κ) : Type (ℓ ⊔ κ) where
  ok : A → Result A E
  err : E → Result A E

-- `?` in a function with the same error type.
infixl 5 ◌>>=◌
abbrev pub ◌>>=◌ {ℓ κ μ} :
    {A : Type ℓ} {B : Type κ} {E : Type μ} → Result A E → (A → Result B E) → Result B E
err failure >>= next = err failure
ok result >>= next = next result

-- A chain returns only if its first step does.
pub >>=-eq-ok {ℓ κ μ} :
    {A : Type ℓ} {B : Type κ} {E : Type μ} (first : Result A E) (next : A → Result B E) {out : B}
    → (first >>= next) ≡ ok out
    → (result : A) × (first ≡ ok result) × (next result ≡ ok out)
>>=-eq-ok (err failure) next returned = cc
>>=-eq-ok (ok result) next returned = (result, refl, returned)

pub ok-injective {ℓ κ} :
    {A : Type ℓ} {E : Type κ} {a b : A} → ◌≡◌ {A = Result A E} (ok a) (ok b) → a ≡ b
ok-injective h = cc

pub err-injective {ℓ κ} :
    {A : Type ℓ} {E : Type κ} {a b : E} → ◌≡◌ {A = Result A E} (err a) (err b) → a ≡ b
err-injective h = cc

abbrev pub map_err {ℓ κ μ} :
    {A : Type ℓ} {E : Type κ} {F : Type μ} → (E → F) → Result A E → Result A F
map_err f (ok a) = ok a
map_err f (err e) = err (f e)

-- A computation that returns, or panics on a slice index out of range.
pub data MayPanic {ℓ} (A : Type ℓ) : Type ℓ where
  value : A → MayPanic A
  panic : MayPanic A

abbrev pub and_then {ℓ κ} : {A : Type ℓ} {B : Type κ} → MayPanic A → (A → MayPanic B) → MayPanic B
and_then (value a) f = f a
and_then panic f = panic

pub map_err-eq-ok {ℓ κ μ} :
    {A : Type ℓ} {E : Type κ} {F : Type μ} (f : E → F) (r : Result A E) {a : A}
    → map_err f r ≡ ok a
    → r ≡ ok a
map_err-eq-ok f (ok x) h = ap ok (ok-injective h)
map_err-eq-ok f (err e) h = cc
