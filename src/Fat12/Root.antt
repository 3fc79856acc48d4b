-- ===== src/Fat12/Root.antt =====
-- The search of the root directory.
use mathlib.Core.Bool.{false≢true}
use gensis32os.Prelude.Branches.{by_cases}
use gensis32os.Prelude.{
  ◌==◌, eq_or_ne, ℕ, zero, suc, ◌+◌, ◌*◌, ◌≤◌, ◌<◌, ◌≡◌, refl, sym, ap, ◌∙◌, subst, ◌≢◌, inl, inr,
  true, Option, none, some, arith,
}
use gensis32os.Fat12.{Header, entry_byte, same_name, search_from, search_root}

-- Entry `i` has the 11 bytes of the name; entry `i` and all before it are in use.
abbrev pub HasName : (name root : ℕ → ℕ) → (i : ℕ) → Type 0
HasName name root i = (k : ℕ) → k < 11 → name k ≡ root (i * 32 + k)

abbrev pub InUse : (root : ℕ → ℕ) → (from i : ℕ) → Type 0
InUse root from i = (j : ℕ) → from ≤ j → j ≤ i → root (j * 32) ≢ 0

-- What a search from entry `from` to `to` has to answer.
pub data FirstNamed (name root : ℕ → ℕ) (from to : ℕ) : Option ℕ → Type 0 where
  found :
      {i : ℕ}
      → from ≤ i
      → i < to
      → HasName name root i
      → InUse root from i
      → ((j : ℕ) → from ≤ j → j < i → ¬ HasName name root j)
      → FirstNamed name root from to (some i)
  absent :
      ((i : ℕ) → from ≤ i → i < to → InUse root from i → ¬ HasName name root i)
      → FirstNamed name root from to none

same_name-agree :
    (left : ℕ) (name root : ℕ → ℕ) (i k : ℕ)
    → same_name left name root i k ≡ true
    → (j : ℕ) → k ≤ j
    → j < k + left
    → name j ≡ root (i * 32 + j)
unfolding same_name entry_byte
same_name-agree zero name root i k e j lo hi = absurd (omega arith)
same_name-agree (suc left) name root i k e j lo hi = elim (eq_or_ne k j) [
  | inl q ↦ ap name (sym q) ∙ ground (arith, e) ∙ ap (λ t. root (i * 32 + t)) q
  | inr ne ↦
      same_name-agree left name root i (k + 1) (ground (arith, e)) j (omega arith) (omega arith)
]

same_name-true :
    (left : ℕ) (name root : ℕ → ℕ) (i k : ℕ)
    → ((j : ℕ) → k ≤ j → j < k + left → name j ≡ root (i * 32 + j))
    → same_name left name root i k ≡ true
unfolding same_name entry_byte
same_name-true zero name root i k all = refl
same_name-true (suc left) name root i k all =
    let here = all k (omega arith) (omega arith) in
    let rest =
      same_name-true left name root i (k + 1) (λ j lo hi. all j (omega arith) (omega arith)) in
    ground (arith, here, rest)

-- An entry in use with another name may come first.
FirstNamed-later :
    (name root : ℕ → ℕ) (i to : ℕ) {r : Option ℕ}
    → root (i * 32) ≢ 0
    → ¬ HasName name root i
    → FirstNamed name root (i + 1) to r
    → FirstNamed name root i to r
FirstNamed-later name root i to taken differs (found lo hi same used before) =
    found (omega (arith, lo)) hi same
      (λ j lo' hi'. elim (eq_or_ne j i) [
        | inl e ↦ subst (λ t. root (t * 32) ≢ 0) (sym e) taken
        | inr ne ↦ used j (omega (arith, lo', ne)) hi'
      ])
      (λ j lo' hi'. elim (eq_or_ne j i) [
        | inl e ↦ subst (λ t. ¬ HasName name root t) (sym e) differs
        | inr ne ↦ before j (omega (arith, lo', ne)) hi'
      ])
FirstNamed-later name root i to taken differs (absent none_later) = absent (λ j lo hi used same.
    elim (eq_or_ne j i) [
      | inl e ↦ differs (subst (HasName name root) e same)
      | inr ne ↦
          none_later j (omega (arith, lo, ne)) hi (λ k lo' hi'. used k (omega (arith, lo')) hi')
            same
    ])

search_from-FirstNamed :
    (left : ℕ) (name root : ℕ → ℕ) (i : ℕ)
    → FirstNamed name root i (i + left) (search_from left name root i)
unfolding search_from entry_byte
search_from-FirstNamed zero name root i = absent (λ j lo hi. absurd (omega arith))
search_from-FirstNamed (suc left) name root i =
    let P = FirstNamed name root i (i + suc left) in
    let start : root (i * 32 + 0) ≡ root (i * 32) = ap root (omega arith) in
    by_cases P (root (i * 32 + 0) == 0)
      (λ free.
        absent (λ j lo hi used. absurd (used i (omega arith) lo (ground (arith, free, start)))))
      (λ used.
        let taken : root (i * 32) ≢ 0 = ground (arith, used, start) in
        by_cases P (same_name 11 name root i 0)
          (λ same.
            found (omega arith) (omega arith)
              (λ k h. same_name-agree 11 name root i 0 same k (omega arith) (omega (arith, h)))
              (λ j lo hi. subst (λ t. root (t * 32) ≢ 0) (omega arith) taken)
              (λ j lo hi. absurd (omega arith)))
          (λ other.
            let differs : ¬ HasName name root i = λ h.
              false≢true (
                sym other ∙ same_name-true 11 name root i 0 (λ j lo hi. h j (omega (arith, hi)))) in
            FirstNamed-later name root i (i + suc left) taken differs (
              subst (λ t. FirstNamed name root (i + 1) t (search_from left name root (i + 1)))
                (omega arith) (search_from-FirstNamed left name root (i + 1)))))

-- `search_root` reports the first entry with the name among the entries before the first unused one, and none if
-- there is no such entry.
pub search_root-FirstNamed :
    (h : Header) (name root : ℕ → ℕ)
    → FirstNamed name root 0 h.root_entries (search_root h name root)
unfolding search_root
search_root-FirstNamed h name root =
    subst (λ t. FirstNamed name root 0 t (search_from h.root_entries name root 0)) (omega arith)
      (search_from-FirstNamed h.root_entries name root 0)
