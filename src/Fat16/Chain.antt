-- ===== src/Fat16/Chain.antt =====
-- A file as the FAT describes it, apart from how the driver reads it: the chain of its clusters and their bytes.
use native.Mathlib.Nat.{mul_comm}
use native.Mathlib.Nat.{zero-add}
use gensis32os.Prelude.{
  Bool-cases, ℕ, zero, suc, ◌+◌, ◌-◌, ◌*◌, ◌/◌, ◌%◌, ◌^◌, ◌≤◌, ◌<◌, ◌≡◌, refl, sym, ap, ◌∙◌, subst,
  inl, inr, true, false, Option, none, some, arith,
}
use gensis32os.Prelude.Branches.{by_true, by_false}
use mathlib.Core.Option.{some-injective}
use gensis32os.Fat16.{root_dir_count}
use gensis32os.Fat16.Files.{Volume, is_end, cluster_size}

-- The first data sector of the disk, with no wrap of the sums.
abbrev pub data_sector : Volume → ℕ
data_sector v =
    v.start_sect
    + v.bpb.reserved_sectors
    + v.bpb.sectors_per_fat * v.bpb.fat_count
    + root_dir_count v.bpb.root_entry_count v.bpb.bytes_per_sect

-- The FAT entry of a cluster on a medium with 512 bytes in a sector, and byte `pos` of a cluster.
unfoldable pub fat_of : Volume → (ℕ → ℕ → ℕ) → (cluster : ℕ) → ℕ
fat_of v medium c =
    let sector = v.start_sect + v.bpb.reserved_sectors + c * 2 / 512 in
    medium sector (c * 2 % 512) + medium sector (c * 2 % 512 + 1) * 2 ^ 8

unfoldable pub cluster_byte : Volume → (ℕ → ℕ → ℕ) → (cluster pos : ℕ) → ℕ
cluster_byte v medium c pos =
    medium (data_sector v + (c - 2) * v.bpb.sect_per_clust + pos / 512) (pos % 512)

-- The cluster `n` steps after `c` in its chain.
unfoldable pub nth_cluster : Volume → (ℕ → ℕ → ℕ) → (n c : ℕ) → Option ℕ
nth_cluster v medium zero c = some c
nth_cluster v medium (suc n) c = elim (is_end (fat_of v medium c)) [
  | true ↦ none
  | false ↦ nth_cluster v medium n (fat_of v medium c)
]

-- The file that starts at cluster `c` has byte `b` at `pos`; or it ends before `pos`.
abbrev pub FileByte : Volume → (ℕ → ℕ → ℕ) → (c pos b : ℕ) → Type 0
FileByte v medium c pos b =
    (at : ℕ) × (nth_cluster v medium (pos / cluster_size v.bpb) c ≡ some at)
    × (cluster_byte v medium at (pos % cluster_size v.bpb) ≡ b)

abbrev pub FileEnds : Volume → (ℕ → ℕ → ℕ) → (c pos : ℕ) → Type 0
FileEnds v medium c pos = nth_cluster v medium (pos / cluster_size v.bpb) c ≡ none

-- A volume with 512 bytes in a sector whose clusters are numbered below `top`, and which lies below sector
-- `limit` of its disk with its FAT and its data.
pub record IsFormatted (v : Volume) (top limit : ℕ) : Type 0 where
  pub bytes : v.bpb.bytes_per_sect ≡ 512
  pub per_cluster : 1 ≤ v.bpb.sect_per_clust
  pub byte : v.bpb.sect_per_clust < 256
  pub fats : 1 ≤ v.bpb.fat_count
  pub covers : top * 2 ≤ v.bpb.sectors_per_fat * 512
  pub numbers : top ≤ 0xfff8
  pub inside : data_sector v + (top - 2) * v.bpb.sect_per_clust ≤ limit
  pub words : limit < 2 ^ 32

pub cluster_size-eq :
    {v : Volume} {top limit : ℕ}
    → IsFormatted v top limit
    → cluster_size v.bpb ≡ v.bpb.sect_per_clust * 512
cluster_size-eq {v} f =
    ap (λ n. n * v.bpb.sect_per_clust) f.bytes ∙ mul_comm 512 v.bpb.sect_per_clust

-- The entries of the clusters below `top` end a chain or name a cluster below `top`.
abbrev pub IsClosed : Volume → (ℕ → ℕ → ℕ) → (top : ℕ) → Type 0
IsClosed v medium top =
    (c : ℕ) → c < top → is_end (fat_of v medium c) ≡ false → fat_of v medium c < top

pub nth_cluster-more :
    (v : Volume) (medium : ℕ → ℕ → ℕ) (n c : ℕ)
    → is_end (fat_of v medium c) ≡ false
    → nth_cluster v medium (suc n) c ≡ nth_cluster v medium n (fat_of v medium c)
unfolding nth_cluster
nth_cluster-more v medium n c more =
    by_false (λ r. r ≡ nth_cluster v medium n (fat_of v medium c)) _ _ _ more refl

pub nth_cluster-last :
    (v : Volume) (medium : ℕ → ℕ → ℕ) (n c : ℕ)
    → is_end (fat_of v medium c) ≡ true
    → nth_cluster v medium (suc n) c ≡ none
unfolding nth_cluster
nth_cluster-last v medium n c last = by_true (λ r. r ≡ none) _ _ _ last refl

-- A chain is walked in parts.
pub nth_cluster-add :
    (v : Volume) (medium : ℕ → ℕ → ℕ) (n k c at : ℕ)
    → nth_cluster v medium n c ≡ some at
    → nth_cluster v medium (n + k) c ≡ nth_cluster v medium k at
unfolding nth_cluster
nth_cluster-add v medium zero k c at e =
    ap (λ n. nth_cluster v medium n c) (zero-add k)
    ∙ ap (nth_cluster v medium k) (some-injective _ _ e)
nth_cluster-add v medium (suc n) k c at e =
    let next = fat_of v medium c in
    let count : suc n + k ≡ suc (n + k) = omega arith in
    rw (count) (elim (Bool-cases (is_end next)) [
      | inl last ↦ let gone = nth_cluster-last v medium n c last in absurd (cc)
      | inr more ↦
          nth_cluster-more v medium (n + k) c more
          ∙ nth_cluster-add v medium n k next at (sym (nth_cluster-more v medium n c more) ∙ e)
    ])

-- The numbers below 2 end a chain.
pub is_end-two : (c : ℕ) → is_end c ≡ false → 2 ≤ c
unfolding is_end
is_end-two c h = ground arith

pub is_end-below : (c : ℕ) → is_end c ≡ false → c < 0xfff8
unfolding is_end
is_end-below c h = ground arith

-- A chain in a closed FAT stays below `top`.
pub nth_cluster-below :
    (v : Volume) (medium : ℕ → ℕ → ℕ) (top : ℕ)
    → IsClosed v medium top
    → (n c at : ℕ) → (2 ≤ c) × (c < top)
    → nth_cluster v medium n c ≡ some at
    → (2 ≤ at) × (at < top)
unfolding nth_cluster
nth_cluster-below v medium top closed zero c at h e =
    subst (λ x. (2 ≤ x) × (x < top)) (some-injective _ _ e) h
nth_cluster-below v medium top closed (suc n) c at h e =
    let next = fat_of v medium c in
    elim (Bool-cases (is_end next)) [
      | inl last ↦ let gone = nth_cluster-last v medium n c last in absurd (cc)
      | inr more ↦
          nth_cluster-below v medium top closed n next at (is_end-two next more, closed c h.1 more)
            (sym (nth_cluster-more v medium n c more) ∙ e)
    ]
