-- ===== src/Prelude/Outcomes.antt =====
-- Total correctness of code that may run out of fuel: the run ends, with a value that satisfies `P`.
use mathlib.Core.Option.{Option, none, some}
use mathlib.Core.Path.{◌≡◌, refl}

pub data Ends {ℓ κ} {A : Type ℓ} (P : A → Type κ) : Option A → Type (ℓ ⊔ κ) where
  ends : {a : A} → P a → Ends P (some a)

module _ {ℓ κ} {A : Type ℓ} {P : A → Type κ} where
  pub Ends-weaken {κ'} :
      {Q : A → Type κ'} {r : Option A} → Ends P r → ((a : A) → P a → Q a) → Ends Q r
  Ends-weaken (ends p) k = ends (k _ p)

  pub Ends-result : {r : Option A} → Ends P r → (a : A) × (r ≡ some a) × P a
  Ends-result (ends p) = (_, refl, p)

-- A step on the value, where there is one.
pub Ends-map {ℓ κ ℓ' κ'} :
    {A : Type ℓ} {B : Type ℓ'} {P : A → Type κ} (Q : B → Type κ') (g : A → B) {r : Option A}
    → Ends P r
    → ((a : A) → P a → Q (g a))
    → Ends Q (elim r [ none ↦ none | some a ↦ some (g a) ])
Ends-map Q g (ends p) k = ends (k _ p)

-- A next step, where there is a value.
pub Ends-then {ℓ κ ℓ' κ'} :
    {A : Type ℓ} {B : Type ℓ'} {P : A → Type κ} (Q : B → Type κ') (g : A → Option B) {r : Option A}
    → Ends P r
    → ((a : A) → P a → Ends Q (g a))
    → Ends Q (elim r [ none ↦ none | some a ↦ g a ])
Ends-then Q g (ends p) k = k _ p
