-- ===== src/Fat16/Sectors.antt =====
-- Where the driver finds the sectors of a formatted volume, and what a FAT entry and a cluster read from them hold.
use native.Mathlib.Nat.{mul-le-mul_right}
use gensis32os.Memory.{load16, Mem}
use gensis32os.Fat16.Device.{BlockDevice, IsMedium}
use gensis32os.Prelude.{
  ltb, leb, ◌==◌, if◌then◌else◌, Bool-cases, lt_or_le, eq_or_ne, u32, sub32, ℕ, zero, suc, ◌+◌, ◌-◌,
  ◌*◌, ◌/◌, ◌%◌, ◌^◌, ◌≤◌, ◌<◌, ◌≡◌, refl, sym, ap, ap₂, ◌∙◌, subst, ◌⊎◌, inl, inr, ◌&&◌, arith,
}
use gensis32os.Fat16.Files.{
  Volume, cluster_sector, data_start, fat_word, load_cluster, is_end, store_cluster,
}
use gensis32os.Fat16.Chain.{
  IsFormatted, data_sector, fat_of, cluster_byte, nth_cluster, IsClosed, nth_cluster-more,
  nth_cluster-last,
}

pub fat_sector-bounds :
    (v : Volume) (top limit c : ℕ)
    → IsFormatted v top limit
    → c < top
    → (u32 (v.start_sect + (v.bpb.reserved_sectors + c * 2 / v.bpb.bytes_per_sect))
        ≡ v.start_sect + v.bpb.reserved_sectors + c * 2 / 512)
      × (v.start_sect + v.bpb.reserved_sectors + c * 2 / 512 < data_sector v)
      × (data_sector v ≤ limit)
fat_sector-bounds v top limit c f h =
    let b = v.bpb in
    let e : c * 2 / b.bytes_per_sect ≡ c * 2 / 512 = ap (λ n. c * 2 / n) f.bytes in
    let more : b.sectors_per_fat ≤ b.sectors_per_fat * b.fat_count = grind (arith, f.fats) in
    (
      omega (arith, e, more, f.inside, f.words, f.covers),
      omega (arith, more, f.covers),
      omega (arith, f.inside),
    )

pub cluster_sector-bounds :
    (v : Volume) (top limit c q : ℕ)
    → IsFormatted v top limit
    → 2 ≤ c
    → c < top
    → q < v.bpb.sect_per_clust
    → (cluster_sector v c q ≡ data_sector v + (c - 2) * v.bpb.sect_per_clust + q)
      × (data_sector v + (c - 2) * v.bpb.sect_per_clust + q < limit)
unfolding cluster_sector data_start
cluster_sector-bounds v top limit c q f two h p =
    let spc = v.bpb.sect_per_clust in
    let step : (c - 2 + 1) * spc ≤ (top - 2) * spc = mul-le-mul_right spc (omega arith) in
    let last : (c - 2) * spc + spc ≤ (top - 2) * spc =
      let split : (c - 2 + 1) * spc ≡ (c - 2) * spc + spc = grind arith in
      omega (arith, step, split) in
    let back : sub32 c 2 ≡ c - 2 = omega (arith, f.numbers) in
    let e : sub32 c 2 * spc ≡ (c - 2) * spc = ap (λ n. n * spc) back in
    (omega (arith, e, last, f.inside, f.words), omega (arith, last, f.inside))

-- A change of the data alone leaves the chains as they are.
pub nth_cluster-same :
    (v : Volume) (top limit : ℕ) (g g' : ℕ → ℕ → ℕ)
    → IsFormatted v top limit
    → IsClosed v g top
    → ((l k : ℕ) → k < 512 → l < data_sector v → g' l k ≡ g l k)
    → (n c : ℕ) → c < top
    → nth_cluster v g' n c ≡ nth_cluster v g n c
unfolding nth_cluster fat_of
nth_cluster-same v top limit g g' f closed same zero c h = refl
nth_cluster-same v top limit g g' f closed same (suc n) c h =
    let (at, low, high) = fat_sector-bounds v top limit c f h in
    let word : fat_of v g' c ≡ fat_of v g c =
      ap₂ (λ (x y : ℕ). x + y * 2 ^ 8) (same _ _ (omega arith) low) (same _ _ (omega arith) low) in
    elim (Bool-cases (is_end (fat_of v g c))) [
      | inl last ↦
          nth_cluster-last v g' n c (ap is_end word ∙ last) ∙ sym (nth_cluster-last v g n c last)
      | inr more ↦
          nth_cluster-more v g' n c (ap is_end word ∙ more)
          ∙ ap (nth_cluster v g' n) word
          ∙ nth_cluster-same v top limit g g' f closed same n (fat_of v g c) (closed c h more)
          ∙ sym (nth_cluster-more v g n c more)
    ]

pub IsClosed-same :
    (v : Volume) (top limit : ℕ) (g g' : ℕ → ℕ → ℕ)
    → IsFormatted v top limit
    → IsClosed v g top
    → ((l k : ℕ) → k < 512 → l < data_sector v → g' l k ≡ g l k)
    → IsClosed v g' top
unfolding fat_of
IsClosed-same v top limit g g' f closed same c h more =
    let (at, low, high) = fat_sector-bounds v top limit c f h in
    let word : fat_of v g' c ≡ fat_of v g c =
      ap₂ (λ (x y : ℕ). x + y * 2 ^ 8) (same _ _ (omega arith) low) (same _ _ (omega arith) low) in
    subst (λ t. t < top) (sym word) (closed c h (ap is_end (sym word) ∙ more))

module _ {ℓ} {D : Type ℓ} (dev : BlockDevice D) (content : D → ℕ → ℕ → ℕ) (limit : ℕ)
    (medium : IsMedium dev content limit) where
  -- A sector is read where the driver computes its address in another way.
  pub read_block-at :
      (lba total buf lba' buf' : ℕ) (d : D) (m : Mem)
      → lba ≡ lba'
      → total ≡ 1
      → buf ≡ buf'
      → lba' < limit
      → let (_, (e, n)) = dev.read_block lba total buf d m in
        ((k : ℕ) → k < 512 → n (buf' + k) ≡ content d lba' k)
        × ((x : ℕ) → (x < buf') ⊎ (buf' + 512 ≤ x) → n x ≡ m x)
        × (content e ≡ content d)
  read_block-at lba total buf lba' buf' d m p q r h = rw (p, q, r) (medium.reads lba' buf' d m h)

  pub write_block-at :
      (lba total buf lba' buf' : ℕ) (d : D) (m : Mem) (l k : ℕ)
      → lba ≡ lba'
      → total ≡ 1
      → buf ≡ buf'
      → lba' < limit
      → k < 512
      → content (dev.write_block lba total buf d m).1 l k
        ≡ (if l == lba' then m (buf' + k) else content d l k)
  write_block-at lba total buf lba' buf' d m l k p q r h small =
      rw (p, q, r) (medium.writes lba' buf' d m l k h small)

  module _ (v : Volume) (top : ℕ) (f : IsFormatted v top limit) where
    pub fat_word-reads :
        (c single : ℕ) (d : D) (m : Mem)
        → c < top
        → let (next, (e, n)) = fat_word dev v c single d m in
          (next ≡ fat_of v (content d) c)
          × (content e ≡ content d)
          × ((x : ℕ) → (x < single) ⊎ (single + 512 ≤ x) → n x ≡ m x)
    unfolding fat_word load16 fat_of
    fat_word-reads c single d m h =
        let b = v.bpb in
        let (at, low, high) = fat_sector-bounds v top limit c f h in
        let lba : ℕ = v.start_sect + b.reserved_sectors + c * 2 / 512 in
        let (got, same, kept) =
          read_block-at _ (b.bytes_per_sect / 512) single lba single d m at
            (ap (λ n. n / 512) f.bytes) refl (omega (arith, low, high)) in
        let off = c * 2 in
        let m1 =
          (dev.read_block (u32 (v.start_sect + (b.reserved_sectors + off / b.bytes_per_sect)))
            (b.bytes_per_sect / 512) single d m).1.1 in
        let word : off % b.bytes_per_sect ≡ off % 512 = ap (λ n. off % n) f.bytes in
        (
          ap (λ n. load16 m1 (single + n)) word
              ∙ ap₂ (λ (x y : ℕ). x + y * 2 ^ 8) (got (off % 512) (omega arith))
                  (ap m1 (omega arith) ∙ got (off % 512 + 1) (omega arith)),
          kept,
          same,
        )

    pub load_cluster-bytes :
        (left q c cluster : ℕ) (d : D) (m : Mem)
        → q + left ≤ v.bpb.sect_per_clust
        → 2 ≤ c
        → c < top
        → let (e, n) = load_cluster dev left v q c cluster d m in
          (content e ≡ content d)
          × ((pos : ℕ)
              → q * 512 ≤ pos
              → pos < (q + left) * 512
              → n (cluster + pos) ≡ cluster_byte v (content d) c pos)
          × ((x : ℕ) → (x < cluster + q * 512) ⊎ (cluster + (q + left) * 512 ≤ x) → n x ≡ m x)
    unfolding load_cluster cluster_byte
    load_cluster-bytes zero q c cluster d m h two lt =
        (refl, λ pos a b. absurd (omega arith), λ x a. refl)
    load_cluster-bytes (suc left) q c cluster d m h two lt =
        let b = v.bpb in
        let (at, inside) = cluster_sector-bounds v top limit c q f two lt (omega arith) in
        let lba : ℕ = data_sector v + (c - 2) * b.sect_per_clust + q in
        let (got, same, kept) =
          read_block-at _ (b.bytes_per_sect / 512) (cluster + q * b.bytes_per_sect) lba
            (cluster + q * 512) d m at (ap (λ n. n / 512) f.bytes)
            (ap (λ n. cluster + q * n) f.bytes) inside in
        let (r, (d1, m1)) =
          dev.read_block (cluster_sector v c q) (b.bytes_per_sect / 512)
            (cluster + q * b.bytes_per_sect) d m in
        let (kept', got', same') =
          load_cluster-bytes left (q + 1) c cluster d1 m1 (omega arith) two lt in
        (
          kept' ∙ kept,
          λ pos lo hi. elim (lt_or_le pos ((q + 1) * 512)) [
            | inl here ↦
                same' (cluster + pos) (inl (omega arith))
                ∙ ap m1 (omega arith)
                ∙ got (pos - q * 512) (omega arith)
                ∙ ap₂ (λ (x y : ℕ). content d x y) (omega arith) (omega arith)
            | inr later ↦ got' pos later (omega arith) ∙ ap (λ g. cluster_byte v g c pos) kept
          ],
          λ x out. same' x (omega (arith, out)) ∙ same x (omega (arith, out)),
        )

    -- The sectors of a cluster are written from the block at `cluster`, and no other.
    pub store_cluster-at :
        (left q c cluster : ℕ) (d : D) (m : Mem) (l k : ℕ)
        → q + left ≤ v.bpb.sect_per_clust
        → 2 ≤ c
        → c < top
        → k < 512
        → let base = data_sector v + (c - 2) * v.bpb.sect_per_clust in
          content (store_cluster dev left v q c cluster d m) l k ≡ (
            if leb (base + q) l && ltb l (base + q + left)
            then m (cluster + (l - base) * 512 + k)
            else content d l k)
    unfolding store_cluster
    store_cluster-at zero q c cluster d m l k h two lt small = ground arith
    store_cluster-at (suc left) q c cluster d m l k h two lt small =
        let b = v.bpb in
        let (at, inside) = cluster_sector-bounds v top limit c q f two lt (omega arith) in
        let base : ℕ = data_sector v + (c - 2) * b.sect_per_clust in
        let (r, d1) =
          dev.write_block (cluster_sector v c q) (b.bytes_per_sect / 512)
            (cluster + q * b.bytes_per_sect) d m in
        let rest = store_cluster-at left (q + 1) c cluster d1 m l k (omega arith) two lt small in
        let one : content d1 l k
            ≡ (if l == base + q then m (cluster + q * 512 + k) else content d l k) =
          write_block-at _ _ _ (base + q) (cluster + q * 512) d m l k at (ap (λ n. n / 512) f.bytes)
            (ap (λ n. cluster + q * n) f.bytes) inside small in
        elim (eq_or_ne l (base + q)) [
          | inl e ↦
              let addr : m (cluster + q * 512 + k) ≡ m (cluster + (l - base) * 512 + k) =
                ap m (omega (arith, e)) in
              ground (arith, e, rest, one, addr)
          | inr ne ↦ ground (arith, ne, rest, one)
        ]
