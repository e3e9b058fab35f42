-- ===== src/Base/Fallible.antt =====
-- What a call comes to: a value, a panic (a failed `assert!`, `unwrap`, index or `todo!`), or, for
-- a loop that runs on fuel, the end of the fuel. What a fallible call returns is a `Result`.
use mathlib.Core.Path.{◌≡◌, refl}
use mathlib.Core.Logic.{◌≢◌}
use mathlib.Core.Bool.{Bool, true, false}
use mathlib.Core.Option.{Option, none, some}
use bft_kit.Base.Tests.{if◌then◌else◌}

pub data Outcome {ℓ} (A : Type ℓ) : Type ℓ where
  done : A → Outcome A
  panic : Outcome A
  out_of_fuel : Outcome A

-- `anyhow::Result<A>`, and the `Result` of a codec. No error is told from another.
pub data Result {ℓ} (A : Type ℓ) : Type ℓ where
  ok : A → Result A
  err : Result A

infixl 5 ◌>>=◌ ◌>>◌
abbrev pub ◌>>=◌ {ℓ κ} : {A : Type ℓ} {B : Type κ} → Outcome A → (A → Outcome B) → Outcome B
done a >>= f = f a
panic >>= f = panic
out_of_fuel >>= f = out_of_fuel

abbrev pub ◌>>◌ {ℓ} : {B : Type ℓ} → Outcome (Unit {0}) → Outcome B → Outcome B
m >> k = m >>= λ _. k

-- `assert!(b)`.
abbrev pub assert : Bool → Outcome (Unit {0})
assert true = done tt
assert false = panic

-- `o.unwrap()`, and an index into a map or a vector.
abbrev pub unwrap {ℓ} : {A : Type ℓ} → Option A → Outcome A
unwrap none = panic
unwrap (some a) = done a

-- Inversion of a successful bind, for proofs where the parts stay shut.
pub >>=-eq-done {ℓ κ} :
    {A : Type ℓ} {B : Type κ} (m : Outcome A) (f : A → Outcome B) {b : B}
    → (m >>= f) ≡ done b
    → (a : A) × (m ≡ done a) × (f a ≡ done b)
>>=-eq-done (done a) f h = (a, refl, h)
>>=-eq-done panic f h = cc
>>=-eq-done out_of_fuel f h = cc

-- A bind runs out of fuel only where one of its parts does.
pub >>=-ends {ℓ κ} :
    {A : Type ℓ} {B : Type κ} (m : Outcome A) (f : A → Outcome B)
    → m ≢ out_of_fuel
    → ((a : A) → m ≡ done a → f a ≢ out_of_fuel)
    → (m >>= f) ≢ out_of_fuel
>>=-ends (done a) f ends rest = rest a refl
>>=-ends panic f ends rest = λ e. cc
>>=-ends out_of_fuel f ends rest = absurd (ends refl)

pub done-ends {ℓ} : {A : Type ℓ} (a : A) → done a ≢ out_of_fuel
done-ends a = λ e. cc

pub unwrap-ends {ℓ} : {A : Type ℓ} (o : Option A) → unwrap o ≢ out_of_fuel
unwrap-ends none = λ e. cc
unwrap-ends (some a) = λ e. cc

pub assert-ends : (b : Bool) → assert b ≢ out_of_fuel
assert-ends true = λ e. cc
assert-ends false = λ e. cc

-- The same for a test between two results.
pub if-ends {ℓ} :
    {A : Type ℓ} (b : Bool) (x y : Outcome A)
    → x ≢ out_of_fuel
    → y ≢ out_of_fuel
    → (if b then x else y) ≢ out_of_fuel
if-ends true x y hx hy = hx
if-ends false x y hx hy = hy

pub elim-ends {ℓ} :
    {A : Type ℓ} (b : Bool) (x y : Outcome A)
    → x ≢ out_of_fuel
    → (b ≡ false → y ≢ out_of_fuel)
    → (elim b as (λ c. Outcome A) [ true ↦ x | false ↦ y ]) ≢ out_of_fuel
elim-ends true x y hx hy = hx
elim-ends false x y hx hy = hy refl
