-- ===== src/Fat16/ReadRound.antt =====
-- What one round of `read_fat16` brings from a formatted volume.
use gensis32os.Prelude.Division.{div_parts}
use gensis32os.Prelude.Branches.{by_cases}
use gensis32os.Prelude.{
  sub32, ℕ, zero, suc, ◌+◌, ◌-◌, ◌*◌, ◌/◌, ◌%◌, ◌^◌, ◌≤◌, ◌<◌, min, ◌≡◌, refl, sym, ap, ◌∙◌, subst,
  ◌⊎◌, Option, some, arith,
}
use gensis32os.Memory.{Mem}
use gensis32os.Essentials.{memcpy}
use gensis32os.Essentials.Copy.{memcpy-inside, memcpy-outside}
use gensis32os.Fat16.{min_32}
use gensis32os.Fat16.Device.{BlockDevice, IsMedium}
use gensis32os.Fat16.Files.{Volume, cluster_size, is_end, hop, load_cluster, fat_word}
use gensis32os.Fat16.Chain.{
  IsFormatted, IsClosed, fat_of, nth_cluster, cluster_size-eq, nth_cluster-last, nth_cluster-more,
  FileByte, cluster_byte,
}
use gensis32os.Fat16.Sectors.{fat_word-reads, load_cluster-bytes}

-- The number of bytes that one round copies, and the size of a cluster.
pub target_size-min :
    (v : Volume) (top limit size index offset : ℕ)
    → IsFormatted v top limit
    → index < size
    → size < 2 ^ 32
    → offset < cluster_size v.bpb
    → min_32 (sub32 size index) (sub32 (cluster_size v.bpb) offset)
      ≡ min (size - index) (cluster_size v.bpb - offset)
unfolding min_32
target_size-min v top limit size index offset f h s o = ground (arith, cluster_size-eq f, f.byte)

module _ {ℓ} {D : Type ℓ} (dev : BlockDevice D) (content : D → ℕ → ℕ → ℕ) (limit : ℕ)
    (medium : IsMedium dev content limit) (v : Volume) (top : ℕ) (f : IsFormatted v top limit)
    (g : ℕ → ℕ → ℕ) (closed : IsClosed v g top) where
  pub hop-nth :
      (count c single : ℕ) (d : D) (m : Mem)
      → content d ≡ g
      → c < top
      → let (r, (e, n)) = hop dev count v c single d m in
        (r ≡ nth_cluster v g count c)
        × (content e ≡ g)
        × ((x : ℕ) → (x < single) ⊎ (single + 512 ≤ x) → n x ≡ m x)
  unfolding hop nth_cluster
  hop-nth zero c single d m now h = (refl, now, λ x p. refl)
  hop-nth (suc count) c single d m now h =
      let (w, kept, same) = fat_word-reads dev content limit medium v top f c single d m h in
      let (next, (d1, m1)) = fat_word dev v c single d m in
      let word : next ≡ fat_of v g c = w ∙ ap (λ k. fat_of v k c) now in
      by_cases
        (λ (out : Option ℕ × (D × Mem)).
          (out.0 ≡ nth_cluster v g (suc count) c)
          × (content out.1.0 ≡ g)
          × ((x : ℕ) → (x < single) ⊎ (single + 512 ≤ x) → out.1.1 x ≡ m x))
        (is_end next)
        (λ last.
          (sym (nth_cluster-last v g count c (ap is_end (sym word) ∙ last)), kept ∙ now, same))
        (λ more.
          let more' = ap is_end (sym word) ∙ more in
          let (r, kept', same') =
            hop-nth count next single d1 m1 (kept ∙ now)
              (subst (λ k. k < top) (sym word) (closed c h more')) in
          (
            r ∙ ap (nth_cluster v g count) word ∙ sym (nth_cluster-more v g count c more'),
            kept',
            λ x p. same' x p ∙ same x p,
          ))

  module _ (first origin size buffer cluster : ℕ) (small : size < 2 ^ 32)
      (apart : (buffer + size ≤ cluster) ⊎ (cluster + cluster_size v.bpb ≤ buffer)) where
    -- One round copies the bytes of cluster number `i` of the file from `offset` on.
    pub round-copies :
        (i next offset index : ℕ) (d : D) (m : Mem)
        → content d ≡ g
        → nth_cluster v g i first ≡ some next
        → (2 ≤ next) × (next < top)
        → i * cluster_size v.bpb + offset ≡ origin + index
        → offset < cluster_size v.bpb
        → index < size
        → let (e, n) = load_cluster dev v.bpb.sect_per_clust v 0 next cluster d m in
          let t = min_32 (sub32 size index) (sub32 (cluster_size v.bpb) offset) in
          let n' = memcpy n (buffer + index) (cluster + offset) t in
          (content e ≡ g)
          × ((k : ℕ)
              → index ≤ k
              → k < index + t
              → FileByte v g first (origin + k) (n' (buffer + k)))
          × ((x : ℕ)
              → (x < buffer + index) ⊎ (buffer + index + t ≤ x)
              → (x < cluster) ⊎ (cluster + cluster_size v.bpb ≤ x)
              → n' x ≡ m x)
    round-copies i next offset index d m now e (two, lt) place o h =
        let C = cluster_size v.bpb in
        let t = min_32 (sub32 size index) (sub32 C offset) in
        let amount = target_size-min v top limit size index offset f h small o in
        let whole : C ≡ v.bpb.sect_per_clust * 512 = cluster_size-eq f in
        let (kept, got, same) =
          load_cluster-bytes dev content limit medium v top f v.bpb.sect_per_clust 0 next cluster d
            m (omega arith) two lt in
        let (d2, n) = load_cluster dev v.bpb.sect_per_clust v 0 next cluster d m in
        let clear : (buffer + index ≤ cluster + offset) ⊎ (cluster + offset + t ≤ buffer + index) =
          omega (arith, apart, amount) in
        (
          kept ∙ now,
          λ k lo hi.
              let r = offset + (k - index) in
              let (q, p) = div_parts i r C (omega (arith, amount)) in
              let at : i * C + r ≡ origin + k = omega (arith, place) in
              (
                next,
                ap (λ a. nth_cluster v g (a / C) first) (sym at)
                    ∙ ap (λ a. nth_cluster v g a first) q
                    ∙ e,
                ap (λ a. cluster_byte v g next (a % C)) (sym at)
                    ∙ ap (cluster_byte v g next) p
                    ∙ ap (λ h. cluster_byte v h next r) (sym now)
                    ∙ sym (got r (omega arith) (omega (arith, whole, amount)))
                    ∙ ap n (omega arith)
                    ∙ sym (
                        memcpy-inside n (buffer + index) (cluster + offset) t (k - index) clear
                          (omega arith))
                    ∙ ap (memcpy n (buffer + index) (cluster + offset) t) (omega arith),
              ),
          λ x out away.
              memcpy-outside n (buffer + index) (cluster + offset) t x clear out
              ∙ same x (omega (arith, away, whole)),
        )
