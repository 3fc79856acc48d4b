-- ===== src/Fat16/Matching.antt =====
-- The comparison of names in a directory, and how many clusters are looked through.
use native.Mathlib.Nat.{mul-le-mul_left}
use native.Mathlib.Nat.{mul_comm}
use native.Mathlib.Omega.{div_any}
use native.Mathlib.Nat.{add-zero}
use mathlib.Core.Option.{some-injective}
use gensis32os.Prelude.{
  ltb, ◌==◌, Bool-cases, eq_or_ne, ℕ, zero, suc, ◌+◌, ◌-◌, ◌*◌, ◌/◌, ◌^◌, ◌≤◌, ◌<◌, ◌≡◌, refl, sym,
  ap, ◌∙◌, subst, ◌≢◌, inl, inr, true, Option, none, some, arith,
}
use gensis32os.Prelude.Branches.{by_cases, by_true, by_false}
use gensis32os.Memory.{Mem}
use gensis32os.Strings.Compare.{strncmp-zero}
use mathlib.Core.Option.{none-ne-some}
use gensis32os.Fat16.Files.{Volume, cluster_size, is_end}
use gensis32os.Fat16.Chain.{nth_cluster, cluster_byte, fat_of}
use gensis32os.Strings.{strncmp}
use gensis32os.Fat16.Directory.{cluster_rounds, match_loop, fat16_dirent_size, file_name_len_max}

pub strncmp-move :
    (n : ℕ) (m m' : Mem) (a a' b : ℕ)
    → ((i : ℕ) → i < n → m' (a' + i) ≡ m (a + i))
    → ((i : ℕ) → i < n → m' (b + i) ≡ m (b + i))
    → strncmp m' a' b n ≡ strncmp m a b n
unfolding strncmp
strncmp-move zero m m' a a' b left right = refl
strncmp-move (suc n) m m' a a' b left right =
    let rest =
      strncmp-move n m m' (a + 1) (a' + 1) (b + 1)
        (λ i h. ground (arith, left (suc i) (omega arith)))
        (λ i h. ground (arith, right (suc i) (omega arith))) in
    let here : m' a' ≡ m a = ground (arith, left 0 (omega arith), add-zero a, add-zero a') in
    let there : m' b ≡ m b = ground (arith, right 0 (omega arith), add-zero b) in
    rw (here, there, rest) refl

pub match_loop-some :
    (left : ℕ) (m : Mem) (target f r : ℕ)
    → match_loop left m target f ≡ some r
    → (i : ℕ) × (i < left)
      × (r ≡ target + i * fat16_dirent_size)
      × (strncmp m r f file_name_len_max ≡ 0)
unfolding match_loop
match_loop-some zero m target f r = λ e. absurd (cc)
match_loop-some (suc left) m target f r =
    let P = λ (o : Option ℕ).
      o ≡ some r
      → (i : ℕ) × (i < suc left)
        × (r ≡ target + i * fat16_dirent_size)
        × (strncmp m r f file_name_len_max ≡ 0) in
    by_cases P (strncmp m target f file_name_len_max == 0)
      (λ q e.
        let at : target ≡ r = some-injective _ _ e in
        let same : strncmp m target f file_name_len_max ≡ 0 = ground (arith, q) in
        (
          0,
          omega arith,
          omega (arith, at),
          subst (λ a. strncmp m a f file_name_len_max ≡ 0) at same,
        ))
      (λ q e.
        let (i, h, at, same) = match_loop-some left m (target + fat16_dirent_size) f r e in
        (suc i, omega arith, omega (arith, at), same))

pub match_loop-none :
    (left : ℕ) (m : Mem) (target f : ℕ)
    → match_loop left m target f ≡ none
    → (i : ℕ) → i < left
    → strncmp m (target + i * fat16_dirent_size) f file_name_len_max ≢ 0
unfolding match_loop
match_loop-none zero m target f = λ e i h. absurd (omega arith)
match_loop-none (suc left) m target f =
    let P = λ (o : Option ℕ).
      o ≡ none
      → (i : ℕ) → i < suc left
      → strncmp m (target + i * fat16_dirent_size) f file_name_len_max ≢ 0 in
    by_cases P (strncmp m target f file_name_len_max == 0) (λ q e. absurd (none-ne-some _ (sym e)))
      (λ q e i h. elim (eq_or_ne i 0) [
        | inl z ↦
            let at : target ≡ target + i * fat16_dirent_size = omega (arith, z) in
            subst (λ a. strncmp m a f file_name_len_max ≢ 0) at (ground (arith, q))
        | inr ne ↦
            let at : target + fat16_dirent_size + (i - 1) * fat16_dirent_size
                ≡ target + i * fat16_dirent_size =
              omega (arith, ne) in
            subst (λ a. strncmp m a f file_name_len_max ≢ 0) at
              (match_loop-none left m (target + fat16_dirent_size) f e (i - 1)
                (omega (arith, h, ne)))
      ])

-- The first bytes of an entry are the name, up to a terminator.
abbrev pub SameName : (entry name : ℕ → ℕ) → Type 0
SameName e f = (i : ℕ) → i < file_name_len_max → ((k : ℕ) → k < i → e k ≢ 0) → e i ≡ f i

pub SameName-strncmp :
    (m : Mem) (a b : ℕ) (e f : ℕ → ℕ)
    → ((i : ℕ) → i < file_name_len_max → m (a + i) ≡ e i)
    → ((i : ℕ) → i < file_name_len_max → m (b + i) ≡ f i)
    → SameName e f
    → strncmp m a b file_name_len_max ≡ 0
SameName-strncmp m a b e f left right same = strncmp-zero m file_name_len_max a b (λ i h full.
    left i h ∙ same i h (λ k q z. full k q (left k (omega (arith, q, h)) ∙ z)) ∙ sym (right i h))

-- A chain that has ended does not go on.
pub nth_cluster-ended :
    (v : Volume) (med : ℕ → ℕ → ℕ) (n k c : ℕ)
    → nth_cluster v med n c ≡ none
    → nth_cluster v med (n + k) c ≡ none
unfolding nth_cluster
nth_cluster-ended v med zero k c = λ e. absurd (none-ne-some _ (sym e))
nth_cluster-ended v med (suc n) k c =
    let P = λ (o : Option ℕ). o ≡ none → nth_cluster v med (suc n + k) c ≡ none in
    let step : suc n + k ≡ suc (n + k) = omega arith in
    by_cases P (is_end (fat_of v med c))
      (λ q e.
        ap (λ x. nth_cluster v med x c) step
        ∙ by_true (λ (o : Option ℕ). o ≡ none) (is_end (fat_of v med c)) _ _ q refl)
      (λ q e.
        ap (λ x. nth_cluster v med x c) step
        ∙ by_false (λ (o : Option ℕ). o ≡ none) (is_end (fat_of v med c)) _ _ q
            (nth_cluster-ended v med n k (fat_of v med c) e))

-- The clusters from number `from` of the chain on, `left` of them, have no entry with the name.
abbrev pub NoEntry : Volume → (ℕ → ℕ → ℕ) → (first from left : ℕ) → (name : ℕ → ℕ) → Type 0
NoEntry v med first from left name =
    (j i at : ℕ)
    → from ≤ j
    → j < from + left
    → i < cluster_size v.bpb / fat16_dirent_size
    → nth_cluster v med j first ≡ some at
    → SameName (λ k. cluster_byte v med at (i * fat16_dirent_size + k)) name
    → ⊥

pub NoEntry-ended :
    (v : Volume) (med : ℕ → ℕ → ℕ) (first from left : ℕ) (name : ℕ → ℕ)
    → nth_cluster v med from first ≡ none
    → NoEntry v med first from left name
NoEntry-ended v med first from left name e j i at p q h here same =
    let back : from + (j - from) ≡ j = omega (arith, p) in
    none-ne-some _ (
      sym (nth_cluster-ended v med from (j - from) first e)
      ∙ ap (λ n. nth_cluster v med n first) back
      ∙ here)

pub NoEntry-step :
    (v : Volume) (med : ℕ → ℕ → ℕ) (first from left : ℕ) (name : ℕ → ℕ)
    → NoEntry v med first from 1 name
    → NoEntry v med first (from + 1) left name
    → NoEntry v med first from (suc left) name
NoEntry-step v med first from left name one rest j i at p q h here same = elim (eq_or_ne j from) [
  | inl e ↦ one j i at p (omega (arith, e)) h here same
  | inr ne ↦ rest j i at (omega (arith, ne, p)) (omega (arith, q)) h here same
]

pub cluster_rounds-fits : (size c : ℕ) → cluster_rounds size c * c ≤ size
cluster_rounds-fits size c = elim (Bool-cases (ltb (size / c) (2 ^ 31))) [
  | inl e ↦ rw (e) (omega (arith, div_any size c, mul_comm c (size / c)))
  | inr e ↦ rw (e) (omega arith)
]

pub cluster_rounds-eq : (size c : ℕ) → size < 2 ^ 32 → 512 ≤ c → cluster_rounds size c ≡ size / c
cluster_rounds-eq size c small large =
    let low : size / c * 512 ≤ size =
      omega (arith, div_any size c, mul_comm c (size / c), mul-le-mul_left (size / c) large) in
    let few : ltb (size / c) (2 ^ 31) ≡ true = ground (arith, low, small) in rw (few) refl
