-- ===== src/Base/Outcomes.antt =====
-- What a piece of C code comes to: it goes on with a state, ends the process, or faults.
use Prim.Native.Nat.{ℕ}
use mathlib.Core.Path.{◌≡◌, refl}
use mathlib.Core.Bool.{Bool, true, false}

-- `fault` stands for undefined behaviour: a write through NULL or outside an array.
pub data Outcome {ℓ} (A : Type ℓ) : Type ℓ where
  done : A → Outcome A
  exit : ℕ → Outcome A
  fault : Outcome A

infixl 5 ◌>>=◌ ◌>>◌
abbrev pub ◌>>=◌ {ℓ κ} : {A : Type ℓ} {B : Type κ} → Outcome A → (A → Outcome B) → Outcome B
done a >>= f = f a
exit n >>= f = exit n
fault >>= f = fault

abbrev pub ◌>>◌ {ℓ} : {B : Type ℓ} → Outcome (Unit {0}) → Outcome B → Outcome B
m >> k = m >>= λ _. k

-- `if (bad) exit(code);`
abbrev pub exit_if : Bool → ℕ → Outcome (Unit {0})
exit_if true code = exit code
exit_if false code = done tt

pub >>=-eq-done {ℓ κ} :
    {A : Type ℓ} {B : Type κ} (m : Outcome A) (f : A → Outcome B) {b : B}
    → (m >>= f) ≡ done b
    → (a : A) × (m ≡ done a) × (f a ≡ done b)
>>=-eq-done (done a) f h = (a, refl, h)
>>=-eq-done (exit n) f h = cc
>>=-eq-done fault f h = cc

-- Whether the code goes on.
abbrev pub goes_on {ℓ} : {A : Type ℓ} → Outcome A → Bool
goes_on (done a) = true
goes_on (exit n) = false
goes_on fault = false

pub goes_on-done {ℓ} : {A : Type ℓ} (m : Outcome A) → goes_on m ≡ true → (a : A) × (m ≡ done a)
goes_on-done (done a) h = (a, refl)
goes_on-done (exit n) h = absurd (cc h)
goes_on-done fault h = absurd (cc h)
