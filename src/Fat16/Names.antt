-- ===== src/Fat16/Names.antt =====
-- src/kernel/file_syst/fat16.c: set_fname, which takes one name out of a path. The path and the name are functions
-- from an index to a byte.
use mathlib.Core.Option.{some-injective}
use gensis32os.Prelude.Branches.{by_none, by_true, by_cases, by_option, by_false, by_some}
use gensis32os.Prelude.{
  ltb, ◌==◌, if◌then◌else◌, Bool-cases, sub32, ℕ, zero, suc, ◌+◌, ◌≤◌, ◌<◌, ◌≡◌, refl, inl, inr,
  Bool, true, false, ◌&&◌, not, Option, none, some, arith,
}

abbrev pub is_name_byte : ℕ → Bool
is_name_byte c = not (c == 47) && not (c == 0)

-- The loop that looks for the end of the name from `i` on.
unfoldable name_end : (fuel : ℕ) → (path : ℕ → ℕ) → (i : ℕ) → Option ℕ
name_end zero path i = none
name_end (suc fuel) path i = elim (is_name_byte (path i)) [
  | true ↦ name_end fuel path (i + 1)
  | false ↦ some i
]

-- The loop that copies, and what stands in `i` and `j` behind it. The `int` counters have no bound here.
unfoldable copy_name : (fuel : ℕ) → (path f_name : ℕ → ℕ) → (i j : ℕ) → Option (ℕ × ℕ × (ℕ → ℕ))
copy_name zero path f i j = none
copy_name (suc fuel) path f i j = elim (ltb j i) [
  | true ↦ copy_name fuel path (λ x. if x == j then path i else f x) (i + 1) (j + 1)
  | false ↦ some (i, j, f)
]

unfoldable pub set_fname :
    (fuel : ℕ) → (path f_name : ℕ → ℕ) → (start size : ℕ) → Option (ℕ × (ℕ → ℕ))
unfolding name_end copy_name
set_fname fuel path f start size = elim (name_end fuel path start) [
  | none ↦ none
  | some i ↦ elim (copy_name fuel path (λ x. if ltb x size then 0 else f x) i start) [
    | none ↦ none
    | some (i', j, f') ↦ some (sub32 i' 1, λ x. if x == j then 0 else f' x)
  ]
]

-- `j` never reaches `i`, since both go on by one.
copy_name-endless : (fuel : ℕ) (path f : ℕ → ℕ) (i j : ℕ) → j < i → copy_name fuel path f i j ≡ none
unfolding copy_name
copy_name-endless zero path f i j h = refl
copy_name-endless (suc fuel) path f i j h =
    let P = λ (r : Option (ℕ × ℕ × (ℕ → ℕ))). r ≡ none in
    by_true P (ltb j i) _ _ (ground (arith, h))
      (copy_name-endless fuel path _ (i + 1) (j + 1) (omega (arith, h)))

name_end-from : (fuel : ℕ) (path : ℕ → ℕ) (i e : ℕ) → name_end fuel path i ≡ some e → i ≤ e
unfolding name_end
name_end-from zero path i e h = absurd (cc)
name_end-from (suc fuel) path i e h =
    let P = λ (r : Option ℕ). r ≡ some e → i ≤ e in
    by_cases P (is_name_byte (path i)) (λ q k. omega (arith, name_end-from fuel path (i + 1) e k))
      (λ q k. omega (arith, some-injective _ _ k)) h

name_end-past :
    (fuel : ℕ) (path : ℕ → ℕ) (i e : ℕ)
    → is_name_byte (path i) ≡ true
    → name_end fuel path i ≡ some e
    → i < e
unfolding name_end
name_end-past zero path i e name = λ h. absurd (cc)
name_end-past (suc fuel) path i e name =
    by_true (λ (r : Option ℕ). r ≡ some e → i < e) (is_name_byte (path i)) _ _ name
      (λ h. omega (arith, name_end-from fuel path (i + 1) e h))

copy_name-none :
    (fuel : ℕ) (path f : ℕ → ℕ) (i : ℕ) → copy_name (suc fuel) path f i i ≡ some (i, i, f)
unfolding copy_name
copy_name-none fuel path f i =
    by_false (λ (r : Option (ℕ × ℕ × (ℕ → ℕ))). r ≡ some (i, i, f)) (ltb i i) _ _ (ground arith)
      refl

-- `set_fname` never returns where a name begins, since its second loop moves its bound as fast as its counter; where
-- the path has `/` or its end, it clears the name and returns the index before.
pub set_fname-eq :
    (fuel : ℕ) (path f_name : ℕ → ℕ) (start size : ℕ)
    → set_fname (suc fuel) path f_name start size ≡ (
        if is_name_byte (path start)
        then none
        else some
            (sub32 start 1, λ x. if x == start then 0 else if ltb x size then 0 else f_name x))
unfolding set_fname name_end copy_name
set_fname-eq fuel path f start size =
    let Result = Option (ℕ × (ℕ → ℕ)) in
    let cleared : ℕ → ℕ = λ x. if ltb x size then 0 else f x in
    let name = is_name_byte (path start) in
    let ending = name_end (suc fuel) path start in
    let copied = λ (i : ℕ). copy_name (suc fuel) path cleared i start in
    elim (Bool-cases name) [
      | inl q ↦ rw (q) (
          by_option (λ (r : Result). r ≡ none) ending (λ e. refl)
            (λ i e.
              by_none (λ (r : Result). r ≡ none) (copied i) _ _
                (copy_name-endless (suc fuel) path cleared i start
                  (name_end-past (suc fuel) path start i q e))
                refl))
      | inr q ↦
          let here : ending ≡ some start =
            by_false (λ (r : Option ℕ). r ≡ some start) name _ _ q refl in
          let P =
            λ (r : Result). r ≡ some (sub32 start 1, λ x. if x == start then 0 else cleared x) in
          rw (q) (
            by_some P ending _ _ start here (
              by_some P (copied start) _ _ (start, start, cleared)
                (copy_name-none fuel path cleared start) refl))
    ]
