-- ===== src/Prelude/Branches.antt =====
-- Reasoning about a test without splitting on it.
use mathlib.Core.Bool.{Bool, true, false, false≢true}
use mathlib.Core.Option.{Option, none, some, some-injective}
use mathlib.Core.Path.{◌≡◌, refl, sym, subst}

-- A property of both branches of a test holds of the test.
pub by_test {ℓ ℓ'} :
    {R : Type ℓ} (P : R → Type ℓ') (b : Bool) {x y : R}
    → P x
    → P y
    → P (elim b [ true ↦ x | false ↦ y ])
by_test P true p q = p
by_test P false p q = q

-- A property of the branch that is taken.
pub by_true {ℓ ℓ'} :
    {R : Type ℓ} (P : R → Type ℓ') (b : Bool) (x y : R)
    → b ≡ true
    → P x
    → P (elim b [ true ↦ x | false ↦ y ])
by_true P true x y e p = p
by_true P false x y e p = absurd (false≢true e)

pub by_false {ℓ ℓ'} :
    {R : Type ℓ} (P : R → Type ℓ') (b : Bool) (x y : R)
    → b ≡ false
    → P y
    → P (elim b [ true ↦ x | false ↦ y ])
by_false P true x y e p = absurd (false≢true (sym e))
by_false P false x y e p = p

-- The same, with what the test says in each branch.
pub by_cases {ℓ ℓ'} :
    {R : Type ℓ} (P : R → Type ℓ') (b : Bool) {x y : R}
    → (b ≡ true → P x)
    → (b ≡ false → P y)
    → P (elim b [ true ↦ x | false ↦ y ])
by_cases P true p q = p refl
by_cases P false p q = q refl

pub by_option {ℓ ℓ' κ} :
    {R : Type ℓ} {A : Type κ} (P : R → Type ℓ') (o : Option A) {x : R} {f : A → R}
    → (o ≡ none → P x)
    → ((a : A) → o ≡ some a → P (f a))
    → P (elim o [ none ↦ x | some a ↦ f a ])
by_option P none p q = p refl
by_option P (some a) p q = q a refl

pub by_some {ℓ ℓ' κ} :
    {R : Type ℓ} {A : Type κ} (P : R → Type ℓ') (o : Option A) (x : R) (f : A → R) (a : A)
    → o ≡ some a
    → P (f a)
    → P (elim o [ none ↦ x | some a ↦ f a ])
by_some P none x f a e p = absurd (cc)
by_some P (some b) x f a e p = subst (λ t. P (f t)) (sym (some-injective _ _ e)) p

pub by_none {ℓ ℓ' κ} :
    {R : Type ℓ} {A : Type κ} (P : R → Type ℓ') (o : Option A) (x : R) (f : A → R)
    → o ≡ none
    → P x
    → P (elim o [ none ↦ x | some a ↦ f a ])
by_none P none x f e p = p
by_none P (some b) x f e p = absurd (cc)
