-- ===== src/Fat16/FatWords.antt =====
-- The FATs of a volume as words, and how the sectors that `get_free_cluster` writes change them.
use gensis32os.Prelude.Branches.{by_true, by_false}
use gensis32os.Prelude.{
  ◌==◌, if◌then◌else◌, eq→==, ne→not_==, eq_or_ne, u8, ℕ, zero, suc, ◌+◌, ◌*◌, ◌/◌, ◌^◌, ◌≤◌, ◌<◌,
  ◌≡◌, refl, sym, ap, ap₂, ◌∙◌, subst, ◌≢◌, inl, inr, ◌&&◌, none, some, arith,
}
use gensis32os.Memory.{Mem, load16, store16, store}
use gensis32os.Fat16.Device.{BlockDevice, IsMedium}
use gensis32os.Fat16.FreeCluster.{set_entry, scan_entries}

-- Word `j` of a sector.
unfoldable pub word_at : (ℕ → ℕ → ℕ) → (sector j : ℕ) → ℕ
word_at g l j = g l (2 * j) + g l (2 * j + 1) * 2 ^ 8

-- A medium with one word changed.
unfoldable pub set_word : (ℕ → ℕ → ℕ) → (sector j v : ℕ) → ℕ → ℕ → ℕ
set_word g l j v l' k =
    if l' == l && k == 2 * j
    then u8 v
    else if l' == l && k == 2 * j + 1
    then u8 (v / 2 ^ 8)
    else g l' k

-- Two media with the same sectors.
abbrev pub Same : (ℕ → ℕ → ℕ) → (ℕ → ℕ → ℕ) → Type 0
Same g h = (l k : ℕ) → k < 512 → g l k ≡ h l k

pub word_at-set_word :
    (g : ℕ → ℕ → ℕ) (l j v l' j' : ℕ)
    → v < 2 ^ 16
    → word_at (set_word g l j v) l' j' ≡ (if l' == l && j' == j then v else word_at g l' j')
unfolding word_at set_word
word_at-set_word g l j v l' j' h = ground arith

pub word_at-Same : (g h : ℕ → ℕ → ℕ) (l j : ℕ) → Same g h → j < 256 → word_at g l j ≡ word_at h l j
unfolding word_at
word_at-Same g h l j same p =
    ap₂ (λ (x y : ℕ). x + y * 2 ^ 8) (same l (2 * j) (omega arith))
      (same l (2 * j + 1) (omega arith))

pub set_word-other : (g : ℕ → ℕ → ℕ) (l j v l' k : ℕ) → l' ≢ l → set_word g l j v l' k ≡ g l' k
unfolding set_word
set_word-other g l j v l' k h = ground (arith, ne→not_== l' l h)

-- The block `single` holds a sector.
abbrev pub Holds : Mem → (single : ℕ) → (ℕ → ℕ → ℕ) → (sector : ℕ) → Type 0
Holds m single g l = (k : ℕ) → k < 512 → m (single + k) ≡ g l k

pub load16-Holds :
    (m : Mem) (single : ℕ) (g : ℕ → ℕ → ℕ) (l j : ℕ)
    → Holds m single g l
    → j < 256
    → load16 m (single + 2 * j) ≡ word_at g l j
unfolding load16 word_at
load16-Holds m single g l j holds h =
    ap₂ (λ (x y : ℕ). x + y * 2 ^ 8) (holds (2 * j) (omega arith))
      (ap m (omega arith) ∙ holds (2 * j + 1) (omega arith))

pub set_entry-Holds :
    (m : Mem) (single : ℕ) (g : ℕ → ℕ → ℕ) (l j v : ℕ)
    → Holds m single g l
    → Holds (set_entry m single j v) single (set_word g l j v) l
unfolding set_entry store16 store set_word
set_entry-Holds m single g l j v holds k h = ground (arith, holds k h)

-- The scan of a sector takes its first free entry, or leaves a full sector alone.
pub scan_entries-some :
    (left : ℕ) (m : Mem) (single from j : ℕ)
    → from ≤ j
    → j < from + left
    → ((i : ℕ) → from ≤ i → i < j → load16 m (single + 2 * i) ≢ 0)
    → load16 m (single + 2 * j) ≡ 0
    → scan_entries left m single from ≡ (some j, set_entry m single j 0xffff)
unfolding scan_entries
scan_entries-some zero m single from j lo hi full free = absurd (omega arith)
scan_entries-some (suc left) m single from j lo hi full free = elim (eq_or_ne from j) [
  | inl e ↦
      by_true (λ r. r ≡ (some j, set_entry m single j 0xffff)) _ _ _
        (eq→== _ _ (ap (λ i. load16 m (single + 2 * i)) e ∙ free))
        (ap (λ i. (some i, set_entry m single i 0xffff)) e)
  | inr ne ↦
      by_false (λ r. r ≡ (some j, set_entry m single j 0xffff)) _ _ _
        (ne→not_== _ _ (full from (omega arith) (omega arith)))
        (scan_entries-some left m single (from + 1) j (omega arith) (omega arith)
          (λ i p q. full i (omega arith) q) free)
]

pub scan_entries-none :
    (left : ℕ) (m : Mem) (single from : ℕ)
    → ((i : ℕ) → from ≤ i → i < from + left → load16 m (single + 2 * i) ≢ 0)
    → scan_entries left m single from ≡ (none, m)
unfolding scan_entries
scan_entries-none zero m single from full = refl
scan_entries-none (suc left) m single from full =
    by_false (λ r. r ≡ (none, m)) _ _ _ (ne→not_== _ _ (full from (omega arith) (omega arith)))
      (scan_entries-none left m single (from + 1) (λ i p q. full i (omega arith) (omega arith)))

module _ {ℓ} {D : Type ℓ} (dev : BlockDevice D) (content : D → ℕ → ℕ → ℕ) (limit : ℕ)
    (medium : IsMedium dev content limit) where
  pub read-Holds :
      (lba l single : ℕ) (d : D) (m : Mem)
      → lba ≡ l
      → l < limit
      → let (_, (e, n)) = dev.read_block lba 1 single d m in
        Holds n single (content d) l × (content e ≡ content d)
  read-Holds lba l single d m p h =
      let (got, same, kept) = medium.reads l single d m h in rw (p) (got, kept)

  -- A sector that the block holds is written: the medium is the one that the block's sector belongs to.
  pub write-Same :
      (lba l single : ℕ) (d : D) (m : Mem) (g h : ℕ → ℕ → ℕ)
      → lba ≡ l
      → l < limit
      → Same (content d) g
      → Holds m single h l
      → ((l' k : ℕ) → l' ≢ l → h l' k ≡ g l' k)
      → Same (content (dev.write_block lba 1 single d m).1) h
  write-Same lba l single d m g h p below now holds other l' k lt =
      subst (λ a. content (dev.write_block a 1 single d m).1 l' k ≡ h l' k) (sym p)
        (elim (eq_or_ne l' l) [
          | inl e ↦ ground (arith, e, medium.writes l single d m l' k below lt, holds k lt)
          | inr ne ↦
              ground
                (arith, ne, medium.writes l single d m l' k below lt, now l' k lt, other l' k ne)
        ])

  -- A word is changed in its sector: read, set, and written back.
  pub update-Same :
      (lba l single j v : ℕ) (d : D) (m : Mem) (g : ℕ → ℕ → ℕ)
      → lba ≡ l
      → l < limit
      → Same (content d) g
      → let (_, (d1, m1)) = dev.read_block lba 1 single d m in
        let m2 = set_entry m1 single j v in
        Same (content (dev.write_block lba 1 single d1 m2).1) (set_word g l j v)
  update-Same lba l single j v d m g p below now =
      let (got, kept) = read-Holds lba l single d m p below in
      let (r, (d1, m1)) = dev.read_block lba 1 single d m in
      write-Same lba l single d1 (set_entry m1 single j v) g (set_word g l j v) p below
        (λ l' k h. ap (λ c. c l' k) kept ∙ now l' k h)
        (set_entry-Holds m1 single g l j v (λ k h. got k h ∙ now l k h)) (set_word-other g l j v)

  -- The same with a sector that the block holds.
  pub set_write-Same :
      (lba l single j v : ℕ) (d : D) (m : Mem) (g h : ℕ → ℕ → ℕ)
      → lba ≡ l
      → l < limit
      → Same (content d) g
      → Holds m single h l
      → ((l' k : ℕ) → l' ≢ l → h l' k ≡ g l' k)
      → Same
          (content (dev.write_block lba 1 single d (set_entry m single j v)).1)
          (set_word h l j v)
  set_write-Same lba l single j v d m g h p below now holds other =
      write-Same lba l single d (set_entry m single j v) g (set_word h l j v) p below now
        (set_entry-Holds m single h l j v holds)
        (λ l' k ne. set_word-other h l j v l' k ne ∙ other l' k ne)
