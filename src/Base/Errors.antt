-- ===== src/Base/Errors.antt =====
-- What a C++ function may do besides returning: fail an `assert`, read or write outside a block,
-- follow a null pointer, touch a destroyed object, or throw.
use mathlib.Core.Path.{◌≡◌, refl, subst}
use mathlib.Core.Bool.{Bool, true, false}
use mutiplex.Base.Tests.{if◌then◌else◌}

pub data Error : Type 0 where
  assertion out_of_bounds null_pointer dangling exception : Error

-- What a call gives back: an error that ends the program there, or a value.
pub data Result {ℓ} (Value : Type ℓ) : Type ℓ where
  err : Error → Result Value
  ok : Value → Result Value

infixl 5 ◌>>◌ ◌>>=◌
abbrev pub ◌>>=◌ {ℓ κ} :
    {Value : Type ℓ} {Next : Type κ} → Result Value → (Value → Result Next) → Result Next
err failed >>= next = err failed
ok value >>= next = next value

abbrev pub ◌>>◌ {ℓ} : {Next : Type ℓ} → Result (Unit {0}) → Result Next → Result Next
first >> next = first >>= λ done. next

-- `assert(b)` in a build that keeps assertions.
abbrev pub assert : Bool → Result (Unit {0})
assert true = ok tt
assert false = err assertion

pub ok-injective {ℓ} : {A : Type ℓ} {a b : A} → ok a ≡ ok b → a ≡ b
ok-injective {A} {a} {b} h = cc

-- Where the call returns a value, the value has the property.
abbrev pub Always {ℓ κ} : {A : Type ℓ} → (A → Type κ) → Result A → Type κ
Always P (err e) = Unit
Always P (ok a) = P a

pub Always-any {ℓ κ} : {A : Type ℓ} (P : A → Type κ) (r : Result A) → ((a : A) → P a) → Always P r
Always-any P (err e) h = tt
Always-any P (ok a) h = h a

pub Always-map {ℓ κ μ} :
    {A : Type ℓ} (P : A → Type κ) (Q : A → Type μ) (r : Result A)
    → ((a : A) → P a → Q a)
    → Always P r
    → Always Q r
Always-map P Q (err e) f h = tt
Always-map P Q (ok a) f h = f a h

pub Always-bind {ℓ κ μ} :
    {A : Type ℓ} {B : Type κ} (Q : B → Type μ) (r : Result A) (f : A → Result B)
    → Always (λ a. Always Q (f a)) r
    → Always Q (r >>= f)
Always-bind Q (err e) f h = tt
Always-bind Q (ok a) f h = h

-- The property of a value that is known to come back.
pub Always-ok {ℓ κ} :
    {A : Type ℓ} (P : A → Type κ) {r : Result A} {a : A} → r ≡ ok a → Always P r → P a
Always-ok P e h = subst (Always P) e h

pub Always-after {ℓ κ μ} :
    {A : Type ℓ} {B : Type κ} (Q : B → Type μ) (r : Result A) (f : A → Result B)
    → ((a : A) → Always Q (f a))
    → Always Q (r >>= f)
Always-after Q (err e) f h = tt
Always-after Q (ok a) f h = h a

-- As Always-after, for the value that comes back.
pub Always-from {ℓ κ μ} :
    {A : Type ℓ} {B : Type κ} (Q : B → Type μ) (r : Result A) (f : A → Result B)
    → ((a : A) → r ≡ ok a → Always Q (f a))
    → Always Q (r >>= f)
Always-from Q (err e) f h = tt
Always-from Q (ok a) f h = h a refl

pub Always-if {ℓ κ} :
    {A : Type ℓ} (P : A → Type κ) (t : Bool) (r s : Result A)
    → Always P r
    → Always P s
    → Always P (if t then r else s)
Always-if P true r s h k = h
Always-if P false r s h k = k
