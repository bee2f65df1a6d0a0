-- ===== src/Prelude/Outcome.antt =====
-- How a C call ends: a value, undefined behaviour, or the model's fuel running out.
use mathlib.Core.Path.{◌≡◌, refl}
use mathlib.Core.Bool.{Bool, true, false}
use mathlib.Core.Option.{Option, none, some}
use just_kit.Prelude.Tests.{if◌then◌else◌}

-- `fault` is undefined behaviour: a null dereference, an access out of bounds, a read of an
-- indeterminate value, a signed overflow.
pub data Run {ℓ} (A : Type ℓ) : Type ℓ where
  ok : A → Run A
  fault : Run A
  out_of_fuel : Run A

infixl 5 ◌>>=◌
abbrev pub ◌>>=◌ {μ ν} : {A : Type μ} {B : Type ν} → Run A → (A → Run B) → Run B
ok value >>= next = next value
out_of_fuel >>= next = out_of_fuel
fault >>= next = fault

-- What a pointer points to.
abbrev pub deref {ℓ} : {A : Type ℓ} → Option A → Run A
deref none = fault
deref (some target) = ok target

-- The call ends with a value, and that satisfies `P`: no fault, and fuel enough.
pub data Returns {κ ℓ} {A : Type ℓ} (P : A → Type κ) : Run A → Type (ℓ ⊔ κ) where
  returns : {value : A} → P value → Returns P (ok value)

-- The value of such a call.
pub Returns-inv {ℓ κ} :
    {A : Type ℓ} {P : A → Type κ} {r : Run A} → Returns P r → (a : A) × (r ≡ ok a) × P a
Returns-inv (returns holds) = (_, refl, holds)

-- A call goes on with the value of another one.
pub Returns-bind {ℓ κ μ ν} :
    {A : Type ℓ} {B : Type μ} {P : A → Type κ} {Q : B → Type ν} {first : Run A} {next : A → Run B}
    → Returns P first
    → ((a : A) → P a → Returns Q (next a))
    → Returns Q (first >>= next)
Returns-bind (returns holds) step = step _ holds

-- A weaker predicate.
pub Returns-map {ℓ κ μ} :
    {A : Type ℓ} {P : A → Type κ} {Q : A → Type μ} {r : Run A}
    → Returns P r
    → ((a : A) → P a → Q a)
    → Returns Q r
Returns-map (returns holds) weaken = returns (weaken _ holds)

-- What holds of both branches, each under its condition, holds of a conditional in any context.
branches {ℓ κ} :
    {A : Type ℓ} (C : A → Type κ) {x y : A} (b : Bool)
    → (b ≡ true → C x)
    → (b ≡ false → C y)
    → C (if b then x else y)
branches C true yes_case no_case = yes_case refl
branches C false yes_case no_case = no_case refl

pub Returns-if {ℓ κ} :
    {A : Type ℓ} {P : A → Type κ} {x y : Run A} (b : Bool)
    → (b ≡ true → Returns P x)
    → (b ≡ false → Returns P y)
    → Returns P (if b then x else y)
Returns-if {P} = branches (Returns P)

pub Returns-if_bind {ℓ κ μ} :
    {A : Type ℓ} {B : Type μ} {P : A → Type κ} (f : B → Run A) (x y : Run B) (b : Bool)
    → (b ≡ true → Returns P (x >>= f))
    → (b ≡ false → Returns P (y >>= f))
    → Returns P ((if b then x else y) >>= f)
Returns-if_bind {P} f x y = branches (λ r. Returns P (r >>= f))

-- What holds of the value of a call, if it ends with one.
abbrev pub IfOk {ℓ κ} : {A : Type ℓ} → (A → Type κ) → Run A → Type κ
IfOk P (ok value) = P value
IfOk P fault = Unit
IfOk P out_of_fuel = Unit

pub IfOk-bind {ℓ κ μ ν} :
    {A : Type ℓ} {B : Type μ} (P : A → Type κ) (Q : B → Type ν) (first : Run A) (next : A → Run B)
    → IfOk P first
    → ((a : A) → P a → IfOk Q (next a))
    → IfOk Q (first >>= next)
IfOk-bind P Q (ok a) next h k = k a h
IfOk-bind P Q fault next h k = tt
IfOk-bind P Q out_of_fuel next h k = tt

-- A call that ends with a value ends with one of which both hold.
pub Returns-IfOk {ℓ κ μ} :
    {A : Type ℓ} (P : A → Type κ) (Q : A → Type μ) (r : Run A)
    → Returns P r
    → IfOk Q r
    → Returns (λ a. P a × Q a) r
Returns-IfOk P Q (ok a) (returns h) k = returns (h, k)
Returns-IfOk P Q fault h k = elim h [ ]
Returns-IfOk P Q out_of_fuel h k = elim h [ ]

pub IfOk-if {ℓ κ} :
    {A : Type ℓ} (P : A → Type κ) (b : Bool) (a : A) → P a → IfOk P (if b then ok a else fault)
IfOk-if P true a h = h
IfOk-if P false a h = tt
