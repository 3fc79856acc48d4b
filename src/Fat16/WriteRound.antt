-- ===== src/Fat16/WriteRound.antt =====
-- What one round of `write_fat16` does to a formatted volume where the chain goes on.
use gensis32os.Prelude.Branches.{by_false}
use gensis32os.Fat16.ReadRound.{target_size-min}
use mathlib.Core.Option.{some-injective}
use gensis32os.Prelude.Division.{div_parts}
use gensis32os.Prelude.{
  Bool-cases, lt_or_le, sub32, ℕ, zero, suc, ◌+◌, ◌-◌, ◌*◌, ◌/◌, ◌%◌, ◌^◌, ◌≤◌, ◌<◌, ◌≡◌, refl, sym,
  ap, ap₂, ◌∙◌, subst, ◌≢◌, ◌⊎◌, inl, inr, some, arith,
}
use gensis32os.Memory.{Mem}
use gensis32os.Essentials.{memcpy}
use gensis32os.Essentials.Copy.{memcpy-inside, memcpy-outside}
use gensis32os.Fat16.{min_32}
use gensis32os.Fat16.Device.{BlockDevice, IsMedium}
use gensis32os.Fat16.Files.{
  Volume, VfsNode, is_end, cluster_size, load_cluster, store_cluster, fat_word,
}
use gensis32os.Fat16.FreeCluster.{Search}
use gensis32os.Fat16.WriteFile.{take_cluster, hop_or_take}
use gensis32os.Fat16.Chain.{
  IsFormatted, IsClosed, data_sector, fat_of, nth_cluster, nth_cluster-last, nth_cluster-more,
  cluster_size-eq, cluster_byte,
}
use gensis32os.Fat16.Sectors.{fat_word-reads, load_cluster-bytes, store_cluster-at}

-- The first sector of a cluster.
abbrev pub cluster_base : Volume → (cluster : ℕ) → ℕ
cluster_base v c = data_sector v + (c - 2) * v.bpb.sect_per_clust

module _ {ℓ} {D : Type ℓ} (dev : BlockDevice D) (content : D → ℕ → ℕ → ℕ) (limit : ℕ)
    (medium : IsMedium dev content limit) (v : Volume) (top : ℕ) (f : IsFormatted v top limit)
    (unset : Search) (words : ℕ) where
  -- Where the chain goes on, no cluster is taken.
  pub hop_or_take-nth :
      (count c single at : ℕ) (node : VfsNode) (d : D) (m : Mem)
      → IsClosed v (content d) top
      → c < top
      → nth_cluster v (content d) count c ≡ some at
      → let (r, (n, (e, m'))) = hop_or_take dev unset words count v node c single d m in
        (r ≡ at)
        × (n ≡ node)
        × (content e ≡ content d)
        × ((x : ℕ) → (x < single) ⊎ (single + 512 ≤ x) → m' x ≡ m x)
  unfolding hop_or_take nth_cluster take_cluster
  hop_or_take-nth zero c single at node d m closed h e =
      (some-injective _ _ e, refl, refl, λ x p. refl)
  hop_or_take-nth (suc count) c single at node d m closed h e =
      let (w, kept, same) = fat_word-reads dev content limit medium v top f c single d m h in
      let (next, (d1, m1)) = fat_word dev v c single d m in
      let g = content d in
      let P = λ (out : ℕ × (VfsNode × (D × Mem))).
        (out.0 ≡ at)
        × (out.1.0 ≡ node)
        × (content out.1.1.0 ≡ g)
        × ((x : ℕ) → (x < single) ⊎ (single + 512 ≤ x) → out.1.1.1 x ≡ m x) in
      let Q = λ (t : ℕ × (VfsNode × (D × Mem))).
        P (hop_or_take dev unset words count v t.1.0 t.0 single t.1.1.0 t.1.1.1) in
      elim (Bool-cases (is_end (fat_of v g c))) [
        | inl last ↦ let gone = nth_cluster-last v g count c last in absurd (cc)
        | inr more ↦
            let e' : nth_cluster v g count (fat_of v g c) ≡ some at =
              sym (nth_cluster-more v g count c more) ∙ e in
            let (r, n, kept', same') =
              hop_or_take-nth count next single at node d1 m1
                (subst (λ k. IsClosed v k top) (sym kept) closed)
                (subst (λ k. k < top) (sym w) (closed c h more))
                (subst (λ k. nth_cluster v k count next ≡ some at) (sym kept)
                  (ap (nth_cluster v g count) w ∙ e')) in
            by_false Q (is_end next) _ _ (ap is_end w ∙ more)
              (r, n, kept' ∙ kept, λ x p. same' x p ∙ same x p)
      ]

  -- Byte `pos` of a cluster is on the disk at byte `pos % 512` of this sector; clusters do not share a sector.
  pub cluster-apart :
      (a b x y : ℕ)
      → 2 ≤ a
      → 2 ≤ b
      → a ≢ b
      → x < cluster_size v.bpb
      → y < cluster_size v.bpb
      → cluster_base v a + x / 512 ≢ cluster_base v b + y / 512
  cluster-apart a b x y two two' ne hx hy e =
      let p = v.bpb.sect_per_clust in
      let size = cluster_size-eq f in
      let first = div_parts (a - 2) (x / 512) p (omega (arith, size)) in
      let second = div_parts (b - 2) (y / 512) p (omega (arith, size)) in
      let sum : (a - 2) * p + x / 512 ≡ (b - 2) * p + y / 512 = omega (arith, e) in
      ne (omega (arith, sym first.0 ∙ ap (λ t. t / p) sum ∙ second.0))

  -- One round changes the bytes of the cluster from `offset` on to those of the buffer.
  pub round-stores :
      (next offset index size buffer cluster : ℕ) (d : D) (m : Mem)
      → (2 ≤ next) × (next < top)
      → offset < cluster_size v.bpb
      → index < size
      → size < 2 ^ 32
      → (buffer + size ≤ cluster) ⊎ (cluster + cluster_size v.bpb ≤ buffer)
      → let (d2, m2) = load_cluster dev v.bpb.sect_per_clust v 0 next cluster d m in
        let t = min_32 (sub32 size index) (sub32 (cluster_size v.bpb) offset) in
        let m3 = memcpy m2 (cluster + offset) (buffer + index) t in
        let d3 = store_cluster dev v.bpb.sect_per_clust v 0 next cluster d2 m3 in
        ((k : ℕ)
          → index ≤ k
          → k < index + t
          → content d3
              (cluster_base v next + (offset + (k - index)) / 512)
              ((offset + (k - index)) % 512)
            ≡ m (buffer + k))
        × ((l k : ℕ)
            → k < 512
            → ((i : ℕ)
                → index ≤ i
                → i < index + t
                → l ≡ cluster_base v next + (offset + (i - index)) / 512
                → k ≡ (offset + (i - index)) % 512
                → ⊥)
            → content d3 l k ≡ content d l k)
        × ((x : ℕ) → (x < cluster) ⊎ (cluster + cluster_size v.bpb ≤ x) → m3 x ≡ m x)
  unfolding cluster_byte
  round-stores next offset index size buffer cluster d m (two, lt) o h small apart =
      let C = cluster_size v.bpb in
      let t = min_32 (sub32 size index) (sub32 C offset) in
      let amount = target_size-min v top limit size index offset f h small o in
      let whole = cluster_size-eq f in
      let (kept, got, same) =
        load_cluster-bytes dev content limit medium v top f v.bpb.sect_per_clust 0 next cluster d m
          (omega arith) two lt in
      let (d2, m2) = load_cluster dev v.bpb.sect_per_clust v 0 next cluster d m in
      let m3 = memcpy m2 (cluster + offset) (buffer + index) t in
      let clear : (cluster + offset ≤ buffer + index) ⊎ (buffer + index + t ≤ cluster + offset) =
        omega (arith, apart, amount) in
      let inside =
        λ (i : ℕ) (p : i < t). memcpy-inside m2 (cluster + offset) (buffer + index) t i clear p in
      let outside = λ (x : ℕ) (p : (x < cluster + offset) ⊎ (cluster + offset + t ≤ x)).
        memcpy-outside m2 (cluster + offset) (buffer + index) t x clear p in
      let stored = λ (l k : ℕ) (p : k < 512).
        store_cluster-at dev content limit medium v top f v.bpb.sect_per_clust 0 next cluster d2 m3
          l k (omega arith) two lt p in
      let base = cluster_base v next in
      let d3 = store_cluster dev v.bpb.sect_per_clust v 0 next cluster d2 m3 in
      let put : (pos : ℕ)
          → pos < C
          → content d3 (base + pos / 512) (pos % 512) ≡ m3 (cluster + pos) =
        λ pos p.
          let addr : m3 (cluster + (base + pos / 512 - base) * 512 + pos % 512)
              ≡ m3 (cluster + pos) =
            ap m3 (omega arith) in
          ground (arith, stored (base + pos / 512) (pos % 512) (omega arith), addr, whole) in
      let else_kept : (l k : ℕ)
          → k < 512
          → (l < base) ⊎ (base + v.bpb.sect_per_clust ≤ l)
          → content d3 l k ≡ content d l k =
        λ l k p out. ground (arith, stored l k p, out) ∙ ap (λ g. g l k) kept in
      (
        λ k lo hi.
            let pos = offset + (k - index) in
            put pos (omega (arith, amount))
            ∙ ap m3 (omega arith)
            ∙ inside (k - index) (omega arith)
            ∙ ap m2 (omega arith)
            ∙ same (buffer + k) (omega (arith, apart, whole, amount)),
        λ l k p other. elim (lt_or_le l base) [
          | inl lo ↦ else_kept l k p (inl lo)
          | inr ge ↦ elim (lt_or_le l (base + v.bpb.sect_per_clust)) [
            | inr hi ↦ else_kept l k p (inr hi)
            | inl hi ↦
                let pos : ℕ = (l - base) * 512 + k in
                let row : base + pos / 512 ≡ l = omega (arith, ge) in
                let col : pos % 512 ≡ k = omega arith in
                let fits : pos < C = omega (arith, ge, hi, whole) in
                let at : (offset ≤ pos) → pos < offset + t → ⊥ = λ from to.
                  let i : ℕ = index + (pos - offset) in
                  let back : offset + (i - index) ≡ pos = omega (arith, from) in
                  other i (omega arith) (omega (arith, from, to))
                    (sym row ∙ ap (λ q. base + q / 512) (sym back))
                    (sym col ∙ ap (λ q. q % 512) (sym back)) in
                let away : (pos < offset) ⊎ (offset + t ≤ pos) = elim (lt_or_le pos offset) [
                  | inl h ↦ inl h
                  | inr h ↦ elim (lt_or_le pos (offset + t)) [
                    | inl to ↦ absurd (at h to)
                    | inr r ↦ inr r
                  ]
                ] in
                ap₂ (λ (x y : ℕ). content d3 x y) (sym row) (sym col)
                ∙ put pos fits
                ∙ outside (cluster + pos) (omega (arith, away))
                ∙ got pos (omega arith) (omega (arith, fits, whole))
                ∙ ap₂ (λ (x y : ℕ). content d x y) row col
          ]
        ],
        λ x out. outside x (omega (arith, out, amount)) ∙ same x (omega (arith, out, whole)),
      )
