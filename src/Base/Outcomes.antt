-- ===== src/Base/Outcomes.antt =====
-- What a run of a C function comes to, with the sequencing that `do` blocks use.
use mathlib.Core.Path.{◌≡◌, refl}
use mathlib.Core.Logic.{◌⊎◌}
use mathlib.Core.Bool.{Bool, true, false}

-- `done` is a normal return. `fault` is an assertion that fails, or an access that the code does
-- not guard. `stuck` is no C result: the fuel of a loop ran out.
pub data Outcome {ℓ} (A : Type ℓ) : Type ℓ where
  done : A → Outcome A
  fault : Outcome A
  stuck : Outcome A

infixl 5 ◌>>=◌ ◌>>◌
abbrev pub ◌>>=◌ {ℓ κ} : {A : Type ℓ} {B : Type κ} → Outcome A → (A → Outcome B) → Outcome B
done a >>= f = f a
fault >>= f = fault
stuck >>= f = stuck

abbrev pub ◌>>◌ {ℓ} : {B : Type ℓ} → Outcome (Unit {0}) → Outcome B → Outcome B
m >> k = m >>= λ _. k

-- `assert(b)`
abbrev pub assert : Bool → Outcome (Unit {0})
assert true = done tt
assert false = fault

-- The run returns, and what it returns satisfies `P`.
abbrev pub Returns {ℓ} : {A : Type ℓ} → (A → Type 0) → Outcome A → Type 0
Returns P (done a) = P a
Returns P fault = ⊥
Returns P stuck = ⊥

-- A run that returns does so with some value.
pub Returns-done {ℓ} :
    {A : Type ℓ} {P : A → Type 0} (m : Outcome A) → Returns P m → (a : A) × (m ≡ done a) × P a
Returns-done (done a) h = (a, refl, h)
Returns-done fault h = absurd h
Returns-done stuck h = absurd h

-- The rule of sequencing.
pub Returns-bind {ℓ κ} :
    {A : Type ℓ} {B : Type κ} {P : A → Type 0} (Q : B → Type 0) (m : Outcome A) (f : A → Outcome B)
    → Returns P m
    → ((a : A) → P a → Returns Q (f a))
    → Returns Q (m >>= f)
Returns-bind Q (done a) f h k = k a h
Returns-bind Q fault f h k = absurd h
Returns-bind Q stuck f h k = absurd h

-- The rule of sequencing, with an exception `M` from the second part.
pub Returns-bind_or {ℓ κ} :
    {A : Type ℓ} {B : Type κ} {P : A → Type 0} (Q : B → Type 0) (M : Type 0) (m : Outcome A)
    (f : A → Outcome B)
    → Returns P m
    → ((a : A) → P a → Returns Q (f a) ⊎ M)
    → Returns Q (m >>= f) ⊎ M
Returns-bind_or Q M (done a) f h k = k a h
Returns-bind_or Q M fault f h k = absurd h
Returns-bind_or Q M stuck f h k = absurd h

-- What is returned satisfies what follows from `P`.
pub Returns-map {ℓ} :
    {A : Type ℓ} {P : A → Type 0} (Q : A → Type 0) (m : Outcome A)
    → ((a : A) → P a → Q a)
    → Returns P m
    → Returns Q m
Returns-map Q (done a) k h = k a h
Returns-map Q fault k h = absurd h
Returns-map Q stuck k h = absurd h

-- Both of what is known of a run.
pub Returns-both {ℓ} :
    {A : Type ℓ} (P Q : A → Type 0) (m : Outcome A)
    → Returns P m
    → Returns Q m
    → Returns (λ a. P a × Q a) m
Returns-both P Q (done a) p q = (p, q)
Returns-both P Q Outcome.fault p q = p
Returns-both P Q Outcome.stuck p q = p

-- What is returned, if the run returns, satisfies `P`.
abbrev pub Ensures {ℓ} : {A : Type ℓ} → (A → Type 0) → Outcome A → Type 0
Ensures P (done a) = P a
Ensures P fault = Unit
Ensures P stuck = Unit

pub Ensures-bind {ℓ κ} :
    {A : Type ℓ} {B : Type κ} (P : A → Type 0) (Q : B → Type 0) (m : Outcome A) (f : A → Outcome B)
    → Ensures P m
    → ((a : A) → P a → Ensures Q (f a))
    → Ensures Q (m >>= f)
Ensures-bind P Q (done a) f h k = k a h
Ensures-bind P Q Outcome.fault f h k = tt
Ensures-bind P Q Outcome.stuck f h k = tt

-- A run that returns does so with what it ensures.
pub Returns-Ensures {ℓ} :
    {A : Type ℓ} (P Q : A → Type 0) (m : Outcome A)
    → Returns P m
    → Ensures Q m
    → Returns (λ a. P a × Q a) m
Returns-Ensures P Q (done a) p q = (p, q)
Returns-Ensures P Q Outcome.fault p q = p
Returns-Ensures P Q Outcome.stuck p q = p

pub Ensures-map {ℓ} :
    {A : Type ℓ} (P Q : A → Type 0) (m : Outcome A)
    → ((a : A) → P a → Q a)
    → Ensures P m
    → Ensures Q m
Ensures-map P Q (done a) k h = k a h
Ensures-map P Q Outcome.fault k h = tt
Ensures-map P Q Outcome.stuck k h = tt

-- A run that returns, with the equation of what it returns
pub Ensures-run : {A : Type 0} (m : Outcome A) → Ensures (λ a. m ≡ done a) m
Ensures-run (done a) = refl
Ensures-run Outcome.fault = tt
Ensures-run Outcome.stuck = tt
