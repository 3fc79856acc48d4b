-- ===== src/Fat16/FatMarks.antt =====
-- How `get_free_cluster` marks and links a cluster in each FAT.
use native.Mathlib.Nat.{mul-le-mul_right}
use gensis32os.Prelude.Branches.{by_true, by_false, by_cases}
use gensis32os.Prelude.{
  leb, ◌==◌, if◌then◌else◌, ne→not_==, Bool-cases, u16, u32, ℕ, zero, suc, ◌+◌, ◌*◌, ◌/◌, ◌%◌, ◌^◌,
  ◌≤◌, ◌<◌, ◌≡◌, refl, sym, ap, ap₂, ◌∙◌, subst, ◌⊎◌, inl, inr, Bool, true, false, arith,
}
use gensis32os.Memory.{Mem}
use gensis32os.Fat16.{Bpb}
use gensis32os.Fat16.Device.{BlockDevice, IsMedium}
use gensis32os.Fat16.Files.{is_end}
use gensis32os.Fat16.FreeCluster.{Search, link_entry, copy_fats, set_entry}
use gensis32os.Fat16.FatWords.{
  Same, Holds, set_word, set_word-other, write-Same, update-Same, set_write-Same, set_entry-Holds,
  read-Holds,
}

-- What the search leaves in its locals when entry `j` of sector `i` is the first free one.
abbrev pub found : Bool → (i j cur : ℕ) → Search
found end i j cur = record {
  new_cluster_number = i * 256 + j;
  new_cluster_sector = i;
  new_sect_offset = j;
  cur_cluster_sect_no = if end then 0xffff else cur / 256;
}

-- One FAT, from sector `fat` on, with the new cluster marked as the last of its chain and linked from `cur`.
unfoldable pub marked : Bool → (ℕ → ℕ → ℕ) → (fat i j cur : ℕ) → ℕ → ℕ → ℕ
marked true g fat i j cur = set_word g (fat + i) j 0xffff
marked false g fat i j cur =
    set_word (set_word g (fat + i) j 0xffff) (fat + cur / 256) (cur % 256) (i * 256 + j)

-- The FATs of `per_fat` sectors from number `c` on, each marked.
unfoldable pub marked_fats :
    (left start per_fat cur : ℕ) → Bool → (ℕ → ℕ → ℕ) → (c i j : ℕ) → ℕ → ℕ → ℕ
marked_fats zero start p cur end g c i j = g
marked_fats (suc left) start p cur end g c i j =
    marked_fats left start p cur end (marked end g (start + c * p) i j cur) (c + 1) i j

module _ {ℓ} {D : Type ℓ} (dev : BlockDevice D) (content : D → ℕ → ℕ → ℕ) (limit : ℕ)
    (medium : IsMedium dev content limit) (b : Bpb) (start single cur : ℕ)
    (bytes : b.bytes_per_sect ≡ 512) (words : limit < 2 ^ 32) where
  pub link_entry-marked :
      (i j : ℕ) (d : D) (m : Mem) (g : ℕ → ℕ → ℕ)
      → start + i < limit
      → i * 256 + j < 2 ^ 16
      → (is_end cur ≡ true) ⊎ (start + cur / 256 < limit)
      → Same (content d) g
      → Holds m single (set_word g (start + i) j 0xffff) (start + i)
      → let (s, (e, n)) = link_entry dev b start cur single i j d m in
        (s ≡ found (is_end cur) i j cur) × Same (content e) (marked (is_end cur) g start i j cur)
  unfolding link_entry marked
  link_entry-marked i j d m g below number inside now holds =
      let half : b.bytes_per_sect / 2 ≡ 256 = ap (λ n. n / 2) bytes in
      let g' = set_word g (start + i) j 0xffff in
      let P = λ (r : Search × (D × Mem)).
        (r.0 ≡ found (is_end cur) i j cur)
        × Same (content r.1.0) (marked (is_end cur) g start i j cur) in
      let at : u32 (start + i) ≡ start + i = omega (arith, below) in
      let first : Same (content (dev.write_block (u32 (start + i)) 1 single d m).1) g' =
        write-Same dev content limit medium _ (start + i) single d m g g' at below now holds
          (set_word-other g (start + i) j 0xffff) in
      elim (Bool-cases (is_end cur)) [
        | inl e ↦ by_true P (is_end cur) _ _ e (
          ground (arith, half, e),
          subst
              (λ t.
                Same (content (dev.write_block (u32 (start + i)) 1 single d m).1)
                  (marked t g start i j cur))
              (sym e) first,
        )
        | inr e ↦
            let lc : ℕ = start + cur / 256 in
            let inner : start + cur / 256 < limit = elim inside [
              | inl t ↦ absurd (cc)
              | inr h ↦ h
            ] in
            let place : cur % (b.bytes_per_sect / 2) ≡ cur % 256 = ap (λ n. cur % n) half in
            let word : u16 (i * (b.bytes_per_sect / 2) + j) ≡ i * 256 + j =
              ap (λ n. u16 (i * n + j)) half ∙ omega arith in
            let goal : set_word g' lc (cur % (b.bytes_per_sect / 2))
                  (u16 (i * (b.bytes_per_sect / 2) + j))
                ≡ marked (is_end cur) g start i j cur =
              ap₂ (set_word g' lc) place word ∙ ap (λ t. marked t g start i j cur) (sym e) in
            let sect : cur / (b.bytes_per_sect / 2) ≡ cur / 256 = ap (λ n. cur / n) half in
            let lba : u32 (start + cur / (b.bytes_per_sect / 2)) ≡ lc =
              omega (arith, sect, inner) in
            by_false P (is_end cur) _ _ e (
              by_cases P (cur / (b.bytes_per_sect / 2) == i)
                (λ same.
                  let here : start + i ≡ lc = ground (arith, same, sect) in
                  (
                    ground (arith, half, e),
                    subst (Same _) goal (
                        set_write-Same dev content limit medium _ lc single _ _ d m g g' lba inner
                          now (subst (Holds m single g') here holds)
                          (λ l' k ne.
                            set_word-other g (start + i) j 0xffff l' k (λ q. ne (q ∙ here)))),
                  ))
                (λ other. (
                  ground (arith, half, e),
                  subst (Same _) goal
                      (update-Same dev content limit medium _ lc single _ _ _ m g' lba inner first),
                )))
      ]

  copy-inside :
      (left c : ℕ)
      → start + (c + suc left) * b.sectors_per_fat ≤ limit
      → (start + c * b.sectors_per_fat + b.sectors_per_fat ≤ limit)
        × (start + (c + 1 + left) * b.sectors_per_fat ≤ limit)
  copy-inside left c h =
      let p = b.sectors_per_fat in
      let one : (c + 1) * p ≤ (c + suc left) * p = mul-le-mul_right p (omega arith) in
      let next : (c + 1) * p ≡ c * p + p = grind arith in
      let same : (c + 1 + left) * p ≡ (c + suc left) * p = ap (λ n. n * p) (omega arith) in
      (omega (arith, one, next), omega (arith, same))

  pub copy_fats-marked :
      (end : Bool) (left c i j : ℕ) (d : D) (m : Mem) (g : ℕ → ℕ → ℕ)
      → start + (c + left) * b.sectors_per_fat ≤ limit
      → i < b.sectors_per_fat
      → i * 256 + j < 2 ^ 16
      → (end ≡ false → (cur < 0xfff8) × (cur / 256 < b.sectors_per_fat))
      → Same (content d) g
      → Same
          (content (copy_fats dev left b (found end i j cur) start cur single c d m).0)
          (marked_fats left start b.sectors_per_fat cur end g c i j)
  unfolding copy_fats marked_fats marked
  copy_fats-marked end zero c i j d m g fits inside number linked now = now
  copy_fats-marked true (suc left) c i j d m g fits inside number linked now =
      let (here, rest) = copy-inside left c fits in
      let fat = start + c * b.sectors_per_fat in
      let l : ℕ = fat + i in
      let lba : u32 (fat + i) ≡ l = omega (arith, here) in
      let below : l < limit = omega (arith, here) in
      let (got, kept) = read-Holds dev content limit medium _ l single d m lba below in
      let (r, (d1, m1)) = dev.read_block (u32 (fat + i)) 1 single d m in
      let now1 : Same (content d1) g = λ l' k h. ap (λ a. a l' k) kept ∙ now l' k h in
      let m2 = set_entry m1 single j 0xffff in
      let d2 = (dev.write_block (u32 (fat + i)) 1 single d1 m2).1 in
      let P = λ (r : D × Mem).
        Same (content r.0) (marked_fats (suc left) start b.sectors_per_fat cur true g c i j) in
      by_false P (i == 0xffff) _ _ (ne→not_== _ _ (omega arith)) (
        copy_fats-marked true left (c + 1) i j d2 m2 (marked true g fat i j cur) rest inside number
          linked
          (set_write-Same dev content limit medium _ l single j 0xffff d1 m1 g g lba below now1
            (λ k h. got k h ∙ now l k h) (λ l' k ne. refl)))
  copy_fats-marked false (suc left) c i j d m g fits inside number linked now =
      let (here, rest) = copy-inside left c fits in
      let (low, within) = linked refl in
      let fat = start + c * b.sectors_per_fat in
      let l : ℕ = fat + i in
      let lc : ℕ = fat + cur / 256 in
      let lba : u32 (fat + i) ≡ l = omega (arith, here) in
      let lba' : u32 (fat + cur / 256) ≡ lc = omega (arith, here, within) in
      let below : l < limit = omega (arith, here) in
      let below' : lc < limit = omega (arith, here, within) in
      let (got, kept) = read-Holds dev content limit medium _ l single d m lba below in
      let (r, (d1, m1)) = dev.read_block (u32 (fat + i)) 1 single d m in
      let now1 : Same (content d1) g = λ l' k h. ap (λ a. a l' k) kept ∙ now l' k h in
      let m2 = set_entry m1 single j 0xffff in
      let g' = set_word g l j 0xffff in
      let holds : Holds m2 single g' l =
        set_entry-Holds m1 single g l j 0xffff (λ k h. got k h ∙ now l k h) in
      let half : cur % (b.bytes_per_sect / 2) ≡ cur % 256 = ap (λ n. cur % (n / 2)) bytes in
      let goal : set_word g' lc (cur % (b.bytes_per_sect / 2)) (i * 256 + j)
          ≡ marked false g fat i j cur =
        ap (λ n. set_word g' lc n (i * 256 + j)) half in
      let P = λ (r : D × Mem).
        Same (content r.0) (marked_fats (suc left) start b.sectors_per_fat cur false g c i j) in
      let go =
        λ (d' : D) (m' : Mem)
            (s : Same (content d') (set_word g' lc (cur % (b.bytes_per_sect / 2)) (i * 256 + j))).
          copy_fats-marked false left (c + 1) i j d' m' (marked false g fat i j cur) rest inside
            number linked (subst (Same (content d')) goal s) in
      by_cases P (i == cur / 256)
        (λ same.
          let e : l ≡ lc = ground (arith, same) in
          let lba2 : u32 (fat + i) ≡ lc = lba ∙ e in
          go _ _ (
            set_write-Same dev content limit medium (u32 (fat + i)) lc single _ (i * 256 + j) d1 m2
              g g' lba2 below' now1 (subst (Holds m2 single g') e holds)
              (λ l' k ne. set_word-other g l j 0xffff l' k (λ q. ne (q ∙ e)))))
        (λ other. by_false P (leb 0xfff8 (cur / 256)) _ _ (ground (arith, low)) (
          go _ _ (
            update-Same dev content limit medium _ lc single _ _ _ m2 g' lba' below' (
              set_write-Same dev content limit medium _ l single j 0xffff d1 m1 g g lba below now1
                (λ k h. got k h ∙ now l k h) (λ l' k ne. refl)))))
