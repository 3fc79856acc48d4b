-- ===== src/Fat16/FatEntries.antt =====
-- The entries of FATs that `get_free_cluster` has marked.
use native.Mathlib.Nat.{mul-le-mul_right}
use gensis32os.Prelude.Division.{div_parts}
use gensis32os.Prelude.{
  ltb, leb, ◌==◌, if◌then◌else◌, eq_or_ne, ℕ, zero, suc, ◌+◌, ◌*◌, ◌/◌, ◌%◌, ◌^◌, ◌≤◌, ◌<◌, ◌≡◌,
  refl, sym, ap, ◌∙◌, ◌≢◌, ◌⊎◌, inl, inr, Bool, true, false, ◌&&◌, not, arith,
}
use gensis32os.Fat16.FatWords.{word_at, set_word, word_at-set_word, set_word-other}
use gensis32os.Fat16.FatMarks.{marked, marked_fats}

-- Entry `x` of FAT number `n`: each FAT has `per_fat` sectors, the first starts at sector `start`.
abbrev pub fat_entry : (ℕ → ℕ → ℕ) → (start per_fat n x : ℕ) → ℕ
fat_entry g start per_fat n x = word_at g (start + n * per_fat + x / 256) (x % 256)

-- The entry `x` after cluster `w` is taken and linked from `cur`.
abbrev pub linked_entry : (end : Bool) → (cur w x old : ℕ) → ℕ
linked_entry end cur w x old = if not end && x == cur then w else if x == w then 0xffff else old

sector-eq :
    (per_fat n c a i : ℕ) → a < per_fat → i < per_fat → n * per_fat + a ≡ c * per_fat + i → n ≡ c
sector-eq p n c a i h k e = sym (div_parts n a p h).0 ∙ ap (λ t. t / p) e ∙ (div_parts c i p k).0

set_word-entry :
    (start p : ℕ) (g : ℕ → ℕ → ℕ) (c a b v n x : ℕ)
    → a < p
    → b < 256
    → v < 2 ^ 16
    → x < p * 256
    → fat_entry (set_word g (start + c * p + a) b v) start p n x
      ≡ (if n == c && x == a * 256 + b then v else fat_entry g start p n x)
set_word-entry start p g c a b v n x ha hb hv h =
    let word = word_at-set_word g (start + c * p + a) b v (start + n * p + x / 256) (x % 256) hv in
    elim (eq_or_ne n c) [
      | inl e ↦ ground (arith, e, word, ap (λ t. t * p) e)
      | inr ne ↦
          let apart : start + n * p + x / 256 ≢ start + c * p + a =
            λ q. ne (sector-eq p n c (x / 256) a (omega arith) ha (omega (arith, q))) in
          ground (arith, ne, word, apart)
    ]

module _ (start p i j cur : ℕ) (inside : i < p) (offset : j < 256)
    (number : i * 256 + j < 2 ^ 16) where
  marked-other :
      (end : Bool) (g : ℕ → ℕ → ℕ) (c l k : ℕ)
      → (end ≡ false → cur < p * 256)
      → (l < start + c * p) ⊎ (start + c * p + p ≤ l)
      → marked end g (start + c * p) i j cur l k ≡ g l k
  unfolding marked
  marked-other true g c l k linked out =
      set_word-other g (start + c * p + i) j 0xffff l k (λ e. absurd (omega (arith, out)))
  marked-other false g c l k linked out =
      let low = linked refl in
      set_word-other _ (start + c * p + cur / 256) (cur % 256) _ l k
        (λ e. absurd (omega (arith, out, low)))
      ∙ set_word-other g (start + c * p + i) j 0xffff l k (λ e. absurd (omega (arith, out)))

  marked-entry :
      (end : Bool) (g : ℕ → ℕ → ℕ) (c n x : ℕ)
      → (end ≡ false → cur < p * 256)
      → x < p * 256
      → fat_entry (marked end g (start + c * p) i j cur) start p n x ≡ (
          if n == c
          then linked_entry end cur (i * 256 + j) x (fat_entry g start p n x)
          else fat_entry g start p n x)
  unfolding marked
  marked-entry true g c n x linked h =
      ground (arith, set_word-entry start p g c i j 0xffff n x inside offset (omega arith) h)
  marked-entry false g c n x linked h =
      let low = linked refl in
      let g' = set_word g (start + c * p + i) j 0xffff in
      ground (
        arith,
        set_word-entry start p g c i j 0xffff n x inside offset (omega arith) h,
        set_word-entry start p g' c (cur / 256) (cur % 256) (i * 256 + j) n x (omega (arith, low))
            (omega arith) number h,
      )

  pub marked_fats-other :
      (left : ℕ) (end : Bool) (g : ℕ → ℕ → ℕ) (c l k : ℕ)
      → (end ≡ false → cur < p * 256)
      → (l < start + c * p) ⊎ (start + (c + left) * p ≤ l)
      → marked_fats left start p cur end g c i j l k ≡ g l k
  unfolding marked_fats
  marked_fats-other zero end g c l k linked out = refl
  marked_fats-other (suc left) end g c l k linked out =
      let next : (c + 1) * p ≡ c * p + p = grind arith in
      let last : (c + 1 + left) * p ≡ (c + suc left) * p = ap (λ n. n * p) (omega arith) in
      let more : (c + 1) * p ≤ (c + suc left) * p = mul-le-mul_right p (omega arith) in
      marked_fats-other left end _ (c + 1) l k linked (omega (arith, out, next, last))
      ∙ marked-other end g c l k linked (omega (arith, out, next, more))

  pub marked_fats-entry :
      (left : ℕ) (end : Bool) (g : ℕ → ℕ → ℕ) (c n x : ℕ)
      → (end ≡ false → cur < p * 256)
      → x < p * 256
      → fat_entry (marked_fats left start p cur end g c i j) start p n x ≡ (
          if leb c n && ltb n (c + left)
          then linked_entry end cur (i * 256 + j) x (fat_entry g start p n x)
          else fat_entry g start p n x)
  unfolding marked_fats
  marked_fats-entry zero end g c n x linked h = ground arith
  marked_fats-entry (suc left) end g c n x linked h =
      let g' = marked end g (start + c * p) i j cur in
      let rest = marked_fats-entry left end g' (c + 1) n x linked h in
      let here = marked-entry end g c n x linked h in
      elim (eq_or_ne n c) [
        | inl e ↦ ground (arith, e, rest, here)
        | inr ne ↦ ground (arith, ne, rest, here)
      ]
