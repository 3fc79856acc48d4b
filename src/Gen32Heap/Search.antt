-- ===== src/Gen32Heap/Search.antt =====
-- Which block the loop of malloc chooses.
use mathlib.Core.Bool.{false≢true}
use gensis32os.Prelude.Outcomes.{Ends, ends, Ends-weaken}
use gensis32os.Prelude.Branches.{by_cases, by_true, by_false}
use gensis32os.Prelude.{
  ltb, ◌==◌, not_==→ne, eq→==, ne→not_==, length, u32, ℕ, zero, suc, ◌+◌, ◌^◌, ◌≤◌, ◌<◌, ◌≡◌, refl,
  sym, ◌∙◌, subst, ◌≢◌, ◌⊎◌, inl, inr, true, ◌&&◌, List, [], ◌∷◌, arith,
}
use gensis32os.Gen32Heap.{
  Headers, next_cand, heap_header, heap_min_limit, LoopEnd, fit, no_fit, search_loop,
}

-- The list from `cur` on has the blocks `xs` and behind them `last`, whose header has no next one.
abbrev pub BlocksTo : Headers → (cur : ℕ) → List ℕ → (last : ℕ) → Type 0
BlocksTo h cur [] last = (cur ≡ last) × ((h cur).addr_n ≡ 0)
BlocksTo h cur (x ∷ xs) last =
    (cur ≡ x) × (x ≢ 0) × ((h x).addr_n ≢ 0) × BlocksTo h (h x).addr_n xs last

abbrev pub All : (ℕ → Type 0) → List ℕ → Type 0
All P [] = Unit {0}
All P (x ∷ xs) = P x × All P xs

abbrev pub Some : (ℕ → Type 0) → List ℕ → Type 0
Some P [] = ⊥
Some P (x ∷ xs) = P x ⊎ Some P xs

abbrev pub IsExact : Headers → (size x : ℕ) → Type 0
IsExact h size x = ((h x).free ≡ true) × ((h x).size ≡ size)

-- A free block from which the size, a header and the least block can be cut.
abbrev pub IsLarge : Headers → (size x : ℕ) → Type 0
IsLarge h size x = ((h x).free ≡ true) × (size + (heap_header + heap_min_limit) ≤ (h x).size)

-- `c` is NULL or a large block, and no large block of the list, nor `c0`, is larger.
pub record IsWorst (h : Headers) (size c0 : ℕ) (xs : List ℕ) (c : ℕ) : Type 0 where
  pub origin : (c ≡ c0) ⊎ Some (λ x. (x ≡ c) × IsLarge h size x) xs
  pub largest : All (λ x. IsLarge h size x → (c ≢ 0) × ((h x).size ≤ (h c).size)) xs
  pub before : c0 ≢ 0 → (c ≢ 0) × ((h c0).size ≤ (h c).size)

take_cur :
    (h : Headers) (cur c0 size : ℕ)
    → cur ≢ 0
    → IsLarge h size cur
    → (c0 ≢ 0 → (h c0).size ≤ (h cur).size)
    → IsWorst h size c0 (cur ∷ []) cur
take_cur h cur c0 size here large more = record {
  origin = inr (inl (refl, large));
  largest = (λ l. (here, omega arith), tt);
  before = λ e. (here, more e);
}

keep_cand :
    (h : Headers) (cur c0 size : ℕ)
    → (IsLarge h size cur → (c0 ≢ 0) × ((h cur).size ≤ (h c0).size))
    → IsWorst h size c0 (cur ∷ []) c0
keep_cand h cur c0 size less = record {
  origin = inl refl;
  largest = (less, tt);
  before = λ e. (e, omega arith);
}

-- A round at a free block.
next_cand-IsWorst :
    (h : Headers) (cur c0 size : ℕ)
    → cur ≢ 0
    → (h cur).free ≡ true
    → size + 32 < 2 ^ 32
    → (c0 ≢ 0 → IsLarge h size c0)
    → IsWorst h size c0 (cur ∷ []) (next_cand h cur c0 size)
unfolding next_cand
next_cand-IsWorst h cur c0 size here is_free small old =
    let P = λ (c : ℕ). IsWorst h size c0 (cur ∷ []) c in
    let limit = u32 (size + heap_header + heap_min_limit) in
    let exact : limit ≡ size + 32 = omega (arith, small) in
    by_cases P (ltb limit (h cur).size)
      (λ above.
        let large : IsLarge h size cur = (is_free, ground (arith, above, exact)) in
        by_cases P (c0 == 0)
          (λ e. take_cur h cur c0 size here large (λ ne. absurd (ground (arith, e, ne))))
          (λ ne.
            by_cases P (ltb (h c0).size (h cur).size)
              (λ more. take_cur h cur c0 size here large (λ e. ground (arith, more)))
              (λ less. keep_cand h cur c0 size (λ l. (not_==→ne _ _ ne, ground (arith, less))))))
      (λ below.
        by_cases P (((h cur).size == limit) && (c0 == 0))
          (λ both.
            take_cur h cur c0 size here (is_free, ground (arith, both, exact))
              (λ ne. absurd (ground (arith, both, ne))))
          (λ other. keep_cand h cur c0 size (λ l.
            let at : (h cur).size ≡ size + 32 = ground (arith, below, exact, l.1) in
            let some_cand : c0 ≢ 0 = λ e. absurd (ground (arith, other, at, exact, e)) in
            (some_cand, omega (arith, at, (old some_cand).1)))))

cand-IsLarge :
    (h : Headers) (cur c0 c size : ℕ)
    → (c0 ≢ 0 → IsLarge h size c0)
    → IsWorst h size c0 (cur ∷ []) c
    → c ≢ 0
    → IsLarge h size c
cand-IsLarge h cur c0 c size old worst some_cand = elim worst.origin [
  | inl e ↦ subst (IsLarge h size) (sym e) (old (λ z. some_cand (e ∙ z)))
  | inr (inl (e, l)) ↦ subst (IsLarge h size) e l
  | inr (inr empty) ↦ absurd empty
]

IsWorst-join :
    (h : Headers) (size c0 c1 x : ℕ) (xs : List ℕ) (c : ℕ)
    → IsWorst h size c0 (x ∷ []) c1
    → IsWorst h size c1 xs c
    → IsWorst h size c0 (x ∷ xs) c
IsWorst-join h size c0 c1 x xs c one rest = record {
  origin = elim rest.origin [
    | inr later ↦ inr (inr later)
    | inl e ↦ elim one.origin [
      | inl e' ↦ inl (e ∙ e')
      | inr (inl (e', l)) ↦ inr (inl (e' ∙ sym e, l))
      | inr (inr empty) ↦ absurd empty
    ]
  ];
  largest = (
    (λ l.
        let (some_c1, less) = one.largest.0 l in
        let (some_c, less') = rest.before some_c1 in (some_c, omega (arith, less, less'))),
    rest.largest,
  );
  before = λ e.
      let (some_c1, less) = one.before e in
      let (some_c, less') = rest.before some_c1 in (some_c, omega (arith, less, less'));
}

-- `a` is the first block of the list that is free and has the size.
abbrev pub FirstExact : Headers → (size a : ℕ) → List ℕ → Type 0
FirstExact h size a [] = ⊥
FirstExact h size a (x ∷ xs) =
    ((x ≡ a) × IsExact h size x) ⊎ ((IsExact h size x → ⊥) × FirstExact h size a xs)

abbrev pub SearchOutcome : Headers → (size c0 : ℕ) → List ℕ → (last : ℕ) → LoopEnd → Type 0
SearchOutcome h size c0 xs last (fit a) = FirstExact h size a xs
SearchOutcome h size c0 xs last (no_fit c at) =
    (at ≡ last) × All (λ x. IsExact h size x → ⊥) xs × IsWorst h size c0 xs c

-- A block that is not chosen, and the outcome behind it.
passed :
    (h : Headers) (size c0 c1 x : ℕ) (xs : List ℕ) (last : ℕ) (r : LoopEnd)
    → (IsExact h size x → ⊥)
    → IsWorst h size c0 (x ∷ []) c1
    → SearchOutcome h size c1 xs last r
    → SearchOutcome h size c0 (x ∷ xs) last r
passed h size c0 c1 x xs last (fit a) other one found = inr (other, found)
passed h size c0 c1 x xs last (no_fit c at) other one (end, none_exact, worst) =
    (end, (other, none_exact), IsWorst-join h size c0 c1 x xs c one worst)

-- Over a list of blocks the loop of `malloc` ends, with one round for each block and one for the last, for a size below
-- 2^32 - 32. It stops at the first free block of exactly the size; where none has it, `cand` is the LARGEST of the free
-- blocks that can be split, or what it was where there is none, and the last block is not looked at. A comment of the
-- code speaks of a lower value, and the notes choose the smallest such block: the code keeps a block only for a larger.
pub search_loop-Ends :
    (xs : List ℕ) (fuel : ℕ) (h : Headers) (cur c0 last size : ℕ)
    → length xs < fuel
    → BlocksTo h cur xs last
    → size + 32 < 2 ^ 32
    → (c0 ≢ 0 → IsLarge h size c0)
    → Ends (SearchOutcome h size c0 xs last) (search_loop fuel h cur c0 size)
unfolding search_loop
search_loop-Ends xs zero h cur c0 last size enough blocks small old = absurd (omega arith)
search_loop-Ends [] (suc fuel) h cur c0 last size enough (at, stop) small old =
    by_true (Ends (SearchOutcome h size c0 [] last)) ((h cur).addr_n == 0) _ _ (eq→== _ _ stop)
      (ends (at, tt, record { origin = inl refl; largest = tt; before = λ e. (e, omega arith) }))
search_loop-Ends (x ∷ xs) (suc fuel) h cur c0 last size enough (at, here, more, rest) small old =
    let Q = SearchOutcome h size c0 (x ∷ xs) last in
    let on : (c : ℕ)
        → (c ≢ 0 → IsLarge h size c)
        → Ends (SearchOutcome h size c xs last) (search_loop fuel h (h x).addr_n c size) =
      λ c large.
        search_loop-Ends xs fuel h (h x).addr_n c last size (omega arith) rest small large in
    subst (λ p. Ends Q (search_loop (suc fuel) h p c0 size)) (sym at)
      (by_false (Ends Q) ((h x).addr_n == 0) _ _ (ne→not_== _ _ more) (
        by_cases (Ends Q) (h x).free
          (λ is_free.
            by_cases (Ends Q) ((h x).size == size)
              (λ same. ends (inl (refl, (is_free, ground (arith, same)))))
              (λ other.
                let c1 = next_cand h x c0 size in
                let one = next_cand-IsWorst h x c0 size here is_free small old in
                Ends-weaken (on c1 (cand-IsLarge h x c0 c1 size old one)) (λ r found.
                  passed h size c0 c1 x xs last r (λ e. not_==→ne _ _ other e.1) one found)))
          (λ taken. Ends-weaken (on c0 old) (λ r found.
            passed h size c0 c0 x xs last r (λ e. absurd (false≢true (sym taken ∙ e.0)))
              (keep_cand h x c0 size (λ l. absurd (false≢true (sym taken ∙ l.0)))) found))))
