-- ===== src/Fat16/Stretch.antt =====
-- Stretches of a file on the medium, and the one that a round of `write_fat16` stores.
use mathlib.Core.Option.{some-injective}
use native.Mathlib.Nat.{mod-lt}
use gensis32os.Fat16.ReadRound.{target_size-min}
use gensis32os.Prelude.Division.{div_between, div_parts}
use gensis32os.Prelude.{
  lt_or_le, sub32, ℕ, ◌+◌, ◌-◌, ◌*◌, ◌/◌, ◌%◌, ◌^◌, ◌≤◌, ◌<◌, ◌≡◌, sym, ap, ap₂, ◌∙◌, ◌≢◌, ◌⊎◌, inl,
  inr, some, arith,
}
use gensis32os.Memory.{Mem}
use gensis32os.Essentials.{memcpy}
use gensis32os.Fat16.{min_32, max_32}
use gensis32os.Fat16.Device.{BlockDevice, IsMedium}
use gensis32os.Fat16.Files.{Volume, cluster_size, load_cluster, store_cluster}
use gensis32os.Fat16.FreeCluster.{Search}
use gensis32os.Fat16.Chain.{IsFormatted, IsClosed, nth_cluster, nth_cluster-below}
use gensis32os.Fat16.WriteRound.{cluster_base, cluster-apart, round-stores}

-- Byte `p` of the file that starts at cluster `first` is byte `k` of sector `l`.
abbrev pub IsAt : Volume → (ℕ → ℕ → ℕ) → (first p l k : ℕ) → Type 0
IsAt v g first p l k =
    (at : ℕ) × (nth_cluster v g (p / cluster_size v.bpb) first ≡ some at)
    × (l ≡ cluster_base v at + p % cluster_size v.bpb / 512)
    × (k ≡ p % cluster_size v.bpb % 512)

-- The chain reaches byte `size` of the file, and does not come back to a cluster.
pub record IsChain (v : Volume) (g : ℕ → ℕ → ℕ) (first size : ℕ) : Type 0 where
  pub reaches :
      (i : ℕ) → i * cluster_size v.bpb < size → (at : ℕ) × (nth_cluster v g i first ≡ some at)
  pub distinct :
      (i j at : ℕ) → nth_cluster v g i first ≡ some at → nth_cluster v g j first ≡ some at → i ≡ j

-- The bytes of the file from `from` to `to` are those of memory from `buffer` on; no other byte of the medium changes.
abbrev pub Stored :
    Volume
    → (ℕ → ℕ → ℕ)
    → (first origin from to buffer : ℕ) → Mem
    → (ℕ → ℕ → ℕ)
    → (ℕ → ℕ → ℕ)
    → Type 0
Stored v g first origin from to buffer m old new =
    ((i l k : ℕ) → from ≤ i → i < to → IsAt v g first (origin + i) l k → new l k ≡ m (buffer + i))
    × ((l k : ℕ)
        → k < 512
        → ((i : ℕ) → from ≤ i → i < to → IsAt v g first (origin + i) l k → ⊥)
        → new l k ≡ old l k)

-- Two stretches of a file make one.
pub Stored-join :
    (v : Volume) (g : ℕ → ℕ → ℕ) (first origin from mid to buffer : ℕ) (m m1 m2 : Mem)
    (old between new : ℕ → ℕ → ℕ)
    → from ≤ mid
    → mid ≤ to
    → ((i : ℕ) → i < to → m1 (buffer + i) ≡ m (buffer + i))
    → ((i : ℕ) → i < to → m2 (buffer + i) ≡ m (buffer + i))
    → ((i j l k : ℕ)
        → from ≤ i
        → i < mid
        → mid ≤ j
        → j < to
        → IsAt v g first (origin + i) l k
        → IsAt v g first (origin + j) l k
        → ⊥)
    → Stored v g first origin from mid buffer m1 old between
    → Stored v g first origin mid to buffer m2 between new
    → Stored v g first origin from to buffer m old new
Stored-join v g first origin from mid to buffer m m1 m2 old between new p q one two apart
      (put, kept) (put', kept') =
    (
      λ i l k lo hi at. elim (lt_or_le i mid) [
        | inl early ↦
            let (_, _, _, col) = at in
            kept' l k (omega (arith, col)) (λ j lo' hi' at'. apart i j l k lo early lo' hi' at at')
            ∙ put i l k lo early at
            ∙ one i hi
        | inr late ↦ put' i l k late hi at ∙ two i hi
      ],
      λ l k small other.
          kept' l k small (λ j lo hi at. other j (omega (arith, p, lo)) hi at)
          ∙ kept l k small (λ j lo hi at. other j lo (omega (arith, q, hi)) at),
    )

pub max_32-grow : (a b c : ℕ) → b ≤ c → max_32 (max_32 a b) c ≡ max_32 a c
unfolding max_32
max_32-grow a b c h = ground arith

module _ {ℓ} {D : Type ℓ} (dev : BlockDevice D) (content : D → ℕ → ℕ → ℕ) (limit : ℕ)
    (medium : IsMedium dev content limit) (v : Volume) (top : ℕ) (f : IsFormatted v top limit)
    (unset : Search) (words : ℕ) (g : ℕ → ℕ → ℕ) (closed : IsClosed v g top) (first origin size : ℕ)
    (chain : IsChain v g first (origin + size)) where
  -- A later byte of the file lies in another sector than cluster number `i`.
  pub later-apart :
      (i next x p l k : ℕ)
      → nth_cluster v g i first ≡ some next
      → (2 ≤ next) × (next < top)
      → (2 ≤ first) × (first < top)
      → (i + 1) * cluster_size v.bpb ≤ p
      → x < cluster_size v.bpb
      → l ≡ cluster_base v next + x / 512
      → IsAt v g first p l k
      → ⊥
  later-apart i next x p l k e below start later small here (at, found, there, _) =
      let C = cluster_size v.bpb in
      let positive : 1 ≤ C = omega (arith, small) in
      let (low, high) = div_between p C positive in
      let below' = nth_cluster-below v g top closed (p / C) first at start found in
      let other : at ≢ next = λ q.
        let same : p / C ≡ i = chain.distinct (p / C) i next (found ∙ ap some q) e in
        absurd (omega (arith, high, later, ap (λ t. (t + 1) * C) same)) in
      cluster-apart dev content limit medium v top f unset words at next (p % C) x below'.0 below.0
        other (mod-lt p positive) small (sym there ∙ here)

  -- One round, as a stretch of the file.
  pub round-Stored :
      (i next offset index buffer cluster : ℕ) (d : D) (m : Mem)
      → nth_cluster v g i first ≡ some next
      → (2 ≤ next) × (next < top)
      → i * cluster_size v.bpb + offset ≡ origin + index
      → offset < cluster_size v.bpb
      → index < size
      → size < 2 ^ 32
      → (buffer + size ≤ cluster) ⊎ (cluster + cluster_size v.bpb ≤ buffer)
      → let (d2, m2) = load_cluster dev v.bpb.sect_per_clust v 0 next cluster d m in
        let t = min_32 (sub32 size index) (sub32 (cluster_size v.bpb) offset) in
        let m3 = memcpy m2 (cluster + offset) (buffer + index) t in
        let d3 = store_cluster dev v.bpb.sect_per_clust v 0 next cluster d2 m3 in
        Stored v g first origin index (index + t) buffer m (content d) (content d3)
  round-Stored i next offset index buffer cluster d m e below place o h small apart =
      let C = cluster_size v.bpb in
      let t = min_32 (sub32 size index) (sub32 C offset) in
      let amount = target_size-min v top limit size index offset f h small o in
      let (written, other, _) =
        round-stores dev content limit medium v top f unset words next offset index size buffer
          cluster d m below o h small apart in
      let (d2, m2) = load_cluster dev v.bpb.sect_per_clust v 0 next cluster d m in
      let d3 =
        store_cluster dev v.bpb.sect_per_clust v 0 next cluster d2
          (memcpy m2 (cluster + offset) (buffer + index) t) in
      let place_of : (j : ℕ)
          → index ≤ j
          → j < index + t
          → ((origin + j) / C ≡ i) × ((origin + j) % C ≡ offset + (j - index)) =
        λ j lo hi.
          let x = offset + (j - index) in
          let (q, p) = div_parts i x C (omega (arith, amount)) in
          let sum : i * C + x ≡ origin + j = omega (arith, place) in
          (ap (λ a. a / C) (sym sum) ∙ q, ap (λ a. a % C) (sym sum) ∙ p) in
      (
        λ j l k lo hi (at, found, row, col).
            let (q, p) = place_of j lo hi in
            let same : at ≡ next =
              some-injective _ _ (sym found ∙ ap (λ a. nth_cluster v g a first) q ∙ e) in
            ap₂ (λ (x y : ℕ). content d3 x y)
              (row ∙ ap₂ (λ (a b : ℕ). cluster_base v a + b / 512) same p)
              (col ∙ ap (λ a. a % 512) p)
            ∙ written j lo hi,
        λ l k small' out. other l k small' (λ j lo hi row col.
            let (q, p) = place_of j lo hi in
            out j lo hi (
              next,
              ap (λ a. nth_cluster v g a first) q ∙ e,
              row ∙ ap (λ a. cluster_base v next + a / 512) (sym p),
              col ∙ ap (λ a. a % 512) (sym p),
            )),
      )
