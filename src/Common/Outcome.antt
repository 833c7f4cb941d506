-- ===== src/Common/Outcome.antt =====
-- The result of code that may panic: `expect`, `panic!` and a failed `debug_assert!` end the call.
use mathlib.Core.Path.{◌≡◌, refl, ap, ◌∙◌}
use mathlib.Core.Bool.{Bool, true, false}
use mathlib.Core.Option.{Option, none, some}

pub data Outcome {ℓ} (A : Type ℓ) : Type ℓ where
  done : A → Outcome A
  panic : Outcome A

infixl 5 ◌>>=◌ ◌>>◌
abbrev pub ◌>>=◌ {ℓ κ} : {A : Type ℓ} {B : Type κ} → Outcome A → (A → Outcome B) → Outcome B
done a >>= f = f a
panic >>= f = panic

abbrev pub ◌>>◌ {ℓ} : {B : Type ℓ} → Outcome (Unit {0}) → Outcome B → Outcome B
m >> k = m >>= λ _. k

-- `option.expect(..)`
abbrev pub expect {ℓ} : {A : Type ℓ} → Option A → Outcome A
expect none = panic
expect (some a) = done a

-- `debug_assert!(holds)`, where `debug` says whether debug assertions are compiled in.
abbrev pub debug_assert : Bool → Bool → Outcome (Unit {0})
debug_assert true false = panic
debug_assert true true = done tt
debug_assert false holds = done tt

pub bind-eq-done {ℓ κ} :
    {A : Type ℓ} {B : Type κ} (m : Outcome A) (f : A → Outcome B) {b : B}
    → (m >>= f) ≡ done b
    → (a : A) × (m ≡ done a) × (f a ≡ done b)
bind-eq-done (done a) f h = (a, refl, h)
bind-eq-done panic f h = cc

pub bind-done {ℓ κ} :
    {A : Type ℓ} {B : Type κ} {m : Outcome A} (f : A → Outcome B) {a : A} {b : Outcome B}
    → m ≡ done a
    → f a ≡ b
    → (m >>= f) ≡ b
bind-done f e k = ap (λ x. x >>= f) e ∙ k
