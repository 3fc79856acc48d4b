-- ===== src/Fat16/FreeFirst.antt =====
-- What `get_free_cluster` finds, and what it leaves in the FATs.
use gensis32os.Fat16.Chain.{is_end-below}
use gensis32os.Fat16.Files.{is_end}
use gensis32os.Memory.{Mem}
use gensis32os.Fat16.FreeCluster.{
  Search, scan_entries, link_entry, search_fat, set_entry, get_free_cluster, copy_fats,
}
use gensis32os.Fat16.{Bpb}
use gensis32os.Fat16.Device.{BlockDevice, IsMedium}
use gensis32os.Prelude.{
  eq_or_ne, u32, ℕ, zero, suc, ◌+◌, ◌-◌, ◌*◌, ◌/◌, ◌%◌, ◌^◌, ◌≤◌, ◌<◌, ◌≡◌, refl, sym, ap, ap₂, ◌∙◌,
  subst, ◌≢◌, ◌⊎◌, inl, inr, true, false, Option, none, some, arith,
}
use gensis32os.Fat16.FatWords.{
  word_at, Same, Holds, load16-Holds, scan_entries-some, scan_entries-none, read-Holds,
  set_entry-Holds, word_at-Same,
}
use gensis32os.Fat16.FatMarks.{marked, marked_fats, found, link_entry-marked, copy_fats-marked}
use gensis32os.Fat16.FatEntries.{fat_entry, linked_entry, marked_fats-other, marked_fats-entry}

module _ {ℓ} {D : Type ℓ} (dev : BlockDevice D) (content : D → ℕ → ℕ → ℕ) (limit : ℕ)
    (medium : IsMedium dev content limit) (b : Bpb) (start single cur : ℕ)
    (bytes : b.bytes_per_sect ≡ 512) (words : limit < 2 ^ 32) (unset : Search) where
  -- The search takes entry `j` of sector `s`, if it is free and no entry before it is.
  search_fat-found :
      (left i s j : ℕ) (d : D) (m : Mem) (g : ℕ → ℕ → ℕ)
      → i ≤ s
      → s < i + left
      → j < 256
      → start + i + left ≤ limit
      → s * 256 + j < 2 ^ 16
      → (is_end cur ≡ true) ⊎ (start + cur / 256 < limit)
      → Same (content d) g
      → word_at g (start + s) j ≡ 0
      → ((a k : ℕ) → i ≤ a → k < 256 → a * 256 + k < s * 256 + j → word_at g (start + a) k ≢ 0)
      → let (r, (e, n)) = search_fat dev left b unset start cur single i d m in
        (r ≡ found (is_end cur) s j cur) × Same (content e) (marked (is_end cur) g start s j cur)
  unfolding search_fat
  search_fat-found zero i s j d m g lo hi offset fits number inside now free full =
      absurd (omega arith)
  search_fat-found (suc left) i s j d m g lo hi offset fits number inside now free full =
      let lba : u32 (start + i) ≡ start + i = omega (arith, fits) in
      let (got, kept) =
        read-Holds dev content limit medium _ (start + i) single d m lba (omega (arith, fits)) in
      let (r, (d1, m1)) = dev.read_block (u32 (start + i)) 1 single d m in
      let now1 : Same (content d1) g = λ l' k h. ap (λ a. a l' k) kept ∙ now l' k h in
      let holds : Holds m1 single g (start + i) = λ k h. got k h ∙ now (start + i) k h in
      let half : b.bytes_per_sect / 2 ≡ 256 = ap (λ n. n / 2) bytes in
      let P = λ (r : Search × (D × Mem)).
        (r.0 ≡ found (is_end cur) s j cur)
        × Same (content r.1.0) (marked (is_end cur) g start s j cur) in
      let Q = λ (t : Option ℕ × Mem). P (elim t.0 [
        | none ↦ search_fat dev left b unset start cur single (i + 1) d1 t.1
        | some k ↦ link_entry dev b start cur single i k d1 t.1
      ]) in
      let scan = λ (n : ℕ). scan_entries n m1 single 0 in
      let entry = λ (k : ℕ) (h : k < 256). load16-Holds m1 single g (start + i) k holds h in
      elim (eq_or_ne i s) [
        | inl e ↦
            let first =
              scan_entries-some 256 m1 single 0 j (omega arith) (omega (arith, offset))
                (λ k p q z.
                  full i k (omega arith) (omega (arith, q)) (omega (arith, q, e))
                    (sym (entry k (omega (arith, q))) ∙ z))
                (entry j offset ∙ ap (λ a. word_at g (start + a) j) e ∙ free) in
            subst Q (sym (ap scan half ∙ first)) (
              subst
                (λ t.
                  let (r, (e', _)) =
                    link_entry dev b start cur single i j d1 (set_entry m1 single j 0xffff) in
                  (r ≡ found (is_end cur) t j cur)
                  × Same (content e') (marked (is_end cur) g start t j cur))
                e
                (link_entry-marked dev content limit medium b start single cur bytes words i j d1 _
                  g (omega (arith, fits)) (omega (arith, e)) inside now1
                  (set_entry-Holds m1 single g (start + i) j 0xffff holds)))
        | inr ne ↦
            let none_here = scan_entries-none 256 m1 single 0 (λ k p q z.
              full i k (omega arith) (omega (arith, q)) (omega (arith, ne))
                (sym (entry k (omega (arith, q))) ∙ z)) in
            subst Q (sym (ap scan half ∙ none_here)) (
              search_fat-found left (i + 1) s j d1 m1 g (omega (arith, ne)) (omega (arith)) offset
                (omega (arith, fits)) number inside now1 free
                (λ a k p. full a k (omega (arith, p))))
      ]

-- On a volume with sectors of 512 bytes, whose FATs have at most 256 sectors each and lie on readable sectors of the
-- disk, with a `cur_cluster` that is an end mark or has an entry in the FAT: if some entry of the first FAT is 0,
-- `get_free_cluster` returns the number of the first such entry. In every FAT that entry becomes 0xffff, and if
-- `cur_cluster` is a cluster its entry becomes the new number; no other entry of a FAT and no other sector of the disk
-- changes.
pub get_free_cluster-takes {ℓ} :
    {D : Type ℓ} (dev : BlockDevice D) (content : D → ℕ → ℕ → ℕ) (limit : ℕ)
    (medium : IsMedium dev content limit) (b : Bpb) (unset : Search) (start cur single w : ℕ)
    (d : D) (m : Mem)
    → b.bytes_per_sect ≡ 512
    → 1 ≤ b.fat_count
    → b.sectors_per_fat ≤ 256
    → start + b.fat_count * b.sectors_per_fat ≤ limit
    → limit < 2 ^ 32
    → (is_end cur ≡ true) ⊎ (cur < b.sectors_per_fat * 256)
    → w < b.sectors_per_fat * 256
    → fat_entry (content d) start b.sectors_per_fat 0 w ≡ 0
    → ((x : ℕ) → x < w → fat_entry (content d) start b.sectors_per_fat 0 x ≢ 0)
    → let (r, (e, _)) = get_free_cluster dev b unset start cur single d m in
      (r ≡ w)
      × ((n x : ℕ)
          → n < b.fat_count
          → x < b.sectors_per_fat * 256
          → fat_entry (content e) start b.sectors_per_fat n x
            ≡ linked_entry (is_end cur) cur w x (fat_entry (content d) start b.sectors_per_fat n x))
      × ((l k : ℕ)
          → k < 512
          → (l < start) ⊎ (start + b.fat_count * b.sectors_per_fat ≤ l)
          → content e l k ≡ content d l k)
unfolding get_free_cluster marked_fats
get_free_cluster-takes dev content limit medium b unset start cur single w d m bytes one small fits
      words link below free full =
    let p = b.sectors_per_fat in
    let g = content d in
    let s = w / 256 in
    let j = w % 256 in
    let end = is_end cur in
    let whole : s * 256 + j ≡ w = omega arith in
    let rest : ℕ = b.fat_count - 1 in
    let all : b.fat_count ≡ suc rest = omega (arith, one) in
    let first : p ≤ b.fat_count * p = grind (arith, one) in
    let linked : end ≡ false → cur < p * 256 = λ e. elim link [ inl t ↦ absurd (cc) | inr h ↦ h ] in
    let real : end ≡ false → (cur < 0xfff8) × (cur / 256 < p) =
      λ e. (is_end-below cur e, omega (arith, linked e)) in
    let inside : (is_end cur ≡ true) ⊎ (start + cur / 256 < limit) = elim link [
      | inl t ↦ inl t
      | inr h ↦ inr (omega (arith, h, first, fits))
    ] in
    let zeroth : (t k : ℕ) → word_at g (start + 0 * p + t) k ≡ word_at g (start + t) k =
      λ t k. ap (λ a. word_at g a k) (omega arith) in
    let (sum, mark0) =
      search_fat-found dev content limit medium b start single cur bytes words unset p 0 s j d m g
        (omega arith) (omega (arith, below)) (omega arith) (omega (arith, first, fits))
        (omega (arith, small, below)) inside (λ l k h. refl) (sym (zeroth s j) ∙ free)
        (λ a k lo h less z. full (a * 256 + k) (omega (arith, less)) (
          ap₂ (λ (t u : ℕ). word_at g (start + 0 * p + t) u) (omega (arith, h)) (omega (arith, h))
          ∙ zeroth a k
          ∙ z)) in
    let (found_now, (d1, m1)) = search_fat dev p b unset start cur single 0 d m in
    let last : (1 + rest) * p ≡ b.fat_count * p = ap (λ t. t * p) (omega (arith, all)) in
    let copies =
      copy_fats-marked dev content limit medium b start single cur bytes words end rest 1 s j d1 m1
        (marked end g start s j cur) (omega (arith, fits, last)) (omega (arith, below))
        (omega (arith, small, below)) real mark0 in
    let after = (copy_fats dev rest b found_now start cur single 1 d1 m1).0 in
    let fats = marked_fats (suc rest) start p cur end g 0 s j in
    let begin : marked end g start s j cur ≡ marked end g (start + 0 * p) s j cur =
      ap (λ t. marked end g t s j cur) (omega arith) in
    let same : Same (content after) fats = λ l k h.
      ap (λ t. content (copy_fats dev rest b t start cur single 1 d1 m1).0 l k) sum
      ∙ copies l k h
      ∙ ap (λ t. marked_fats rest start p cur end t 1 s j l k) begin in
    (
      ap (λ t. t.new_cluster_number) sum ∙ whole,
      λ n x hn hx.
          word_at-Same (content after) fats _ (x % 256) same (omega arith)
          ∙ marked_fats-entry start p s j cur (omega (arith, below)) (omega arith)
              (omega (arith, small, below)) (suc rest) end g 0 n x linked hx
          ∙ ground (arith, whole, all),
      λ l k h out.
          same l k h
          ∙ marked_fats-other start p s j cur (omega (arith, below)) (omega arith)
              (omega (arith, small, below)) (suc rest) end g 0 l k linked
              (omega (arith, out, last)),
    )
