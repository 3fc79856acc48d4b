-- ===== src/Fat16/Write.antt =====
-- What `write_fat16` leaves on a formatted volume where the file's chain is long enough.
use native.Mathlib.Omega.{div_any}
use native.Mathlib.Nat.{mul_comm}
use gensis32os.Prelude.Branches.{by_cases, by_false}
use native.Mathlib.Nat.{mod-lt}
use gensis32os.Fat16.ReadRound.{target_size-min}
use gensis32os.Prelude.Outcomes.{Ends, ends, Ends-weaken}
use gensis32os.Prelude.Division.{div_parts}
use gensis32os.Prelude.{
  leb, ◌==◌, if◌then◌else◌, ne→not_==, u16, u32, sub32, ℕ, zero, suc, ◌+◌, ◌-◌, ◌*◌, ◌/◌, ◌%◌, ◌^◌,
  ◌≤◌, ◌<◌, ◌≡◌, refl, sym, ap, ap₂, ◌∙◌, subst, ◌⊎◌, Bool, false, Option, some, arith,
}
use gensis32os.Memory.{Mem}
use gensis32os.Essentials.{memcpy}
use gensis32os.Fat16.{min_32, max_32}
use gensis32os.Fat16.Device.{BlockDevice, IsMedium}
use gensis32os.Fat16.Files.{
  Volume, File, cluster_size, load_cluster, store_cluster, VfsNode, is_end,
}
use gensis32os.Fat16.FreeCluster.{Search}
use gensis32os.Fat16.WriteFile.{hop_or_take, write_loop, take_cluster, write_fat16, take_cluster}
use gensis32os.Fat16.Chain.{
  IsFormatted, IsClosed, data_sector, nth_cluster, nth_cluster-add, nth_cluster-below,
  cluster_size-eq, is_end-two,
}
use gensis32os.Fat16.Sectors.{nth_cluster-same, IsClosed-same}
use gensis32os.Fat16.WriteRound.{hop_or_take-nth, round-stores}
use gensis32os.Fat16.Stretch.{
  IsAt, IsChain, Stored, Stored-join, max_32-grow, later-apart, round-Stored,
}

module _ {ℓ} {D : Type ℓ} (dev : BlockDevice D) (content : D → ℕ → ℕ → ℕ) (limit : ℕ)
    (medium : IsMedium dev content limit) (v : Volume) (top : ℕ) (f : IsFormatted v top limit)
    (unset : Search) (words : ℕ) (g : ℕ → ℕ → ℕ) (closed : IsClosed v g top) (first origin size : ℕ)
    (chain : IsChain v g first (origin + size)) where
  module _ (buffer single cluster : ℕ) (small : size < 2 ^ 32)
      (away : (buffer + size ≤ single) ⊎ (single + 512 ≤ buffer))
      (apart : (buffer + size ≤ cluster) ⊎ (cluster + cluster_size v.bpb ≤ buffer))
      (start : (2 ≤ first) × (first < top)) where
    abbrev Wrote : File → (index : ℕ) → D → Mem → ℕ × (File × (D × Mem)) → Type 0
    Wrote file index d m (n, (file', (e, m'))) =
        (n ≡ size)
        × Stored v g first origin index size buffer m (content d) (content e)
        × (file'.offset ≡ u32 (file.offset + (size - index)))
        × (file'.node ≡ record file.node { size = max_32 file.node.size size })

    write_loop-Wrote :
        (fuel base count cur offset index : ℕ) (file : File) (d : D) (m : Mem)
        → ((l k : ℕ) → k < 512 → l < data_sector v → content d l k ≡ g l k)
        → nth_cluster v g base first ≡ some cur
        → (2 ≤ cur) × (cur < top)
        → (base + count) * cluster_size v.bpb + offset ≡ origin + index
        → offset < cluster_size v.bpb
        → index < size
        → size ≤ index + fuel
        → Ends (Wrote file index d m) (
            write_loop dev unset words fuel v single cluster buffer size count offset file cur index
              d m)
    unfolding write_loop
    write_loop-Wrote zero base count cur offset index file d m same e range place o h enough =
        absurd (omega arith)
    write_loop-Wrote (suc fuel) base count cur offset index file d m same e range place o h enough =
        let C = cluster_size v.bpb in
        let i = base + count in
        let (at, reached) = chain.reaches i (omega (arith, place)) in
        let within : nth_cluster v g count cur ≡ some at =
          sym (nth_cluster-add v g base count first cur e) ∙ reached in
        let now =
          nth_cluster-same v top limit g (content d) f closed same count cur range.1 ∙ within in
        let (r, node_same, kept, same1) =
          hop_or_take-nth dev content limit medium v top f unset words count cur single at file.node
            d m (IsClosed-same v top limit g (content d) f closed same) range.1 now in
        let (next, (node, (d1, m1))) =
          hop_or_take dev unset words count v file.node cur single d m in
        let ith : nth_cluster v g i first ≡ some next = reached ∙ ap some (sym r) in
        let below = nth_cluster-below v g top closed i first next start ith in
        let (_, _, mem) =
          round-stores dev content limit medium v top f unset words next offset index size buffer
            cluster d1 m1 below o h small apart in
        let (d2, m2) = load_cluster dev v.bpb.sect_per_clust v 0 next cluster d1 m1 in
        let t = min_32 (sub32 size index) (sub32 C offset) in
        let m3 = memcpy m2 (cluster + offset) (buffer + index) t in
        let d3 = store_cluster dev v.bpb.sect_per_clust v 0 next cluster d2 m3 in
        let amount = target_size-min v top limit size index offset f h small o in
        let plain : u32 (index + t) ≡ index + t = omega (arith, amount) in
        let file1 : File = record file {
          offset = u32 (file.offset + t);
          node = record node { size = max_32 node.size (u32 (index + t)) };
        } in
        let round =
          round-Stored dev content limit medium v top f unset words g closed first origin size chain
            i next offset index buffer cluster d1 m1 ith below place o h small apart in
        let in_buffer1 : (j : ℕ) → j < size → m1 (buffer + j) ≡ m (buffer + j) =
          λ j p. same1 (buffer + j) (omega (arith, away)) in
        let in_buffer3 : (j : ℕ) → j < size → m3 (buffer + j) ≡ m (buffer + j) =
          λ j p. mem (buffer + j) (omega (arith, apart)) ∙ in_buffer1 j p in
        let join =
          λ (new : ℕ → ℕ → ℕ)
              (later : (j p l k : ℕ)
                → index ≤ j
                → j < index + t
                → index + t ≤ p
                → p < size
                → IsAt v g first (origin + j) l k
                → IsAt v g first (origin + p) l k
                → ⊥).
            Stored-join v g first origin index (index + t) size buffer m m1 m3 (content d1)
              (content d3) new (omega arith) (omega (arith, amount)) in_buffer1 in_buffer3 later
              round in
        let sizes : max_32 (max_32 node.size (u32 (index + t))) size ≡ max_32 file.node.size size =
          max_32-grow node.size (u32 (index + t)) size (omega (arith, amount, plain))
          ∙ ap (λ (n : VfsNode). max_32 n.size size) node_same in
        let goal =
          λ (new : ℕ → ℕ → ℕ) (st : Stored v g first origin index size buffer m (content d1) new).
            subst (λ z. Stored v g first origin index size buffer m z new) kept st in
        by_cases (Ends (Wrote file index d m)) (leb size (u32 (index + t)))
          (λ full.
            let all : index + t ≡ size = ground (arith, amount, plain) in
            ends (
              plain ∙ all,
              goal (content d3) (
                  join (content d3) (λ j p l k _ _ lo hi _ _. absurd (omega (arith, all)))
                    (λ j l k lo hi _. absurd (omega (arith, all)), λ l k _ _. refl)),
              omega (arith, all, amount),
              ap₂ (λ (n : VfsNode) (s : ℕ). record n { size = s }) node_same
                  (ap₂ (λ (n : VfsNode) (s : ℕ). max_32 n.size s) node_same (plain ∙ all)),
            ))
          (λ more.
            let less : u32 (index + t) < size = ground (arith, more) in
            let next_place : (i + 1) * C ≡ origin + (index + t) =
              let product : (i + 1) * C ≡ i * C + C = grind arith in
              omega (arith, place, amount, plain, product) in
            let later : (j p l k : ℕ)
                → index ≤ j
                → j < index + t
                → index + t ≤ p
                → p < size
                → IsAt v g first (origin + j) l k
                → IsAt v g first (origin + p) l k
                → ⊥ =
              λ j p l k lo hi lo' hi' (at', found, row, _) there.
                let x = offset + (j - index) in
                let sum : i * C + x ≡ origin + j = omega (arith, place) in
                let q : (origin + j) / C ≡ i =
                  ap (λ a. a / C) (sym sum) ∙ (div_parts i x C (omega (arith, amount))).0 in
                let bound : ((origin + j) / C + 1) * C ≤ origin + p =
                  omega (arith, next_place, ap (λ z. (z + 1) * C) q) in
                later-apart dev content limit medium v top f unset words g closed first origin size
                  chain ((origin + j) / C) at' ((origin + j) % C) (origin + p) l k found
                  (nth_cluster-below v g top closed ((origin + j) / C) first at' start found) start
                  bound (mod-lt (origin + j) (omega (arith, o))) row there in
            let data_only : (l k : ℕ) → k < 512 → l < data_sector v → content d3 l k ≡ g l k =
              λ l k p low.
                round.1 l k p (λ j lo hi (_, _, row, _). absurd (omega (arith, row, low)))
                ∙ ap (λ a. a l k) kept
                ∙ same l k p low in
            Ends-weaken
              (write_loop-Wrote fuel i 1 next 0 (u32 (index + t)) file1 d3 m3 data_only ith below
                (omega (arith, next_place, plain)) (omega (arith, o)) less
                (omega (arith, amount, plain)))
              λ (n, (file', (e', m'))) (whole, st, off, nod). (
                whole,
                goal (content e') (
                    join (content e') later (
                      subst
                        (λ z. Stored v g first origin z size buffer m3 (content d3) (content e'))
                        plain st)),
                off ∙ omega (arith, amount, plain),
                nod ∙ ap₂ (λ (n : VfsNode) (s : ℕ). record n { size = s }) node_same sizes,
              ))

-- What a write of `size` bytes comes to.
abbrev pub WriteOutcome {ℓ} :
    {D : Type ℓ}
    → (D → ℕ → ℕ → ℕ)
    → Volume
    → File
    → (buffer size : ℕ) → D
    → Mem
    → ℕ × (File × (D × Mem))
    → Type 0
WriteOutcome content v file buffer size d m (n, (file', (e, m'))) =
    (n ≡ size)
    × Stored v (content d) (u16 file.node.fs_specific) file.offset 0 size buffer m (content d)
        (content e)
    × (file'.offset ≡ u32 (file.offset + size))
    × (file'.node ≡ record file.node { size = max_32 file.node.size size })

-- On a formatted volume with a closed FAT, where the chain of the file reaches the last byte to write and has no
-- cycle, `write_fat16` ends, with fuel for one round for each byte. It returns `size`; the bytes of the file from
-- the offset on become those of the buffer, along the chain of clusters, and no other byte of a sector changes,
-- so no cluster is taken and no FAT changes. The offset of the file moves by `size`. The size of the file becomes
-- at least `size`, wherever in the file the bytes were written.
pub write_fat16-Ends {ℓ} :
    {D : Type ℓ} (dev : BlockDevice D) (content : D → ℕ → ℕ → ℕ) (limit : ℕ)
    (medium : IsMedium dev content limit) (v : Volume) (top : ℕ) (f : IsFormatted v top limit)
    (unset : Search) (words fuel : ℕ) (file : File) (buffer size single cluster : ℕ) (d : D)
    (m : Mem)
    → IsClosed v (content d) top
    → is_end (u16 file.node.fs_specific) ≡ false
    → u16 file.node.fs_specific < top
    → IsChain v (content d) (u16 file.node.fs_specific) (file.offset + size)
    → 1 ≤ size
    → size < 2 ^ 32
    → size ≤ fuel
    → (buffer + size ≤ single) ⊎ (single + 512 ≤ buffer)
    → (buffer + size ≤ cluster) ⊎ (cluster + cluster_size v.bpb ≤ buffer)
    → Ends
        (WriteOutcome content v file buffer size d m)
        (write_fat16 dev unset words fuel v single cluster file buffer size d m)
unfolding write_fat16 take_cluster nth_cluster
write_fat16-Ends {D} dev content limit medium v top f unset words fuel file buffer size single
      cluster d m closed alive below chain one small enough away apart =
    let first = u16 file.node.fs_specific in
    let C = cluster_size v.bpb in
    let start : (2 ≤ first) × (first < top) = (is_end-two first alive, below) in
    let positive : 0 < C = omega (arith, cluster_size-eq f, f.per_cluster) in
    let place : (0 + file.offset / C) * C + file.offset % C ≡ file.offset + 0 =
      omega (arith, mul_comm C (file.offset / C), div_any file.offset C) in
    let P = λ (r : Option (ℕ × (File × (D × Mem)))).
      Ends (WriteOutcome content v file buffer size d m) r in
    let loop : P (
        write_loop dev unset words fuel v single cluster buffer size (file.offset / C)
          (file.offset % C) file first 0 d m) =
      Ends-weaken
        (write_loop-Wrote dev content limit medium v top f unset words (content d) closed first
          file.offset size chain buffer single cluster small away apart start fuel 0
          (file.offset / C) first (file.offset % C) 0 file d m (λ l k p q. refl) refl start place
          (mod-lt file.offset positive) one (omega (arith, enough)))
        λ (n, (file', (e, m'))) (whole, st, off, nod). (whole, st, off ∙ omega arith, nod) in
    let named = λ (b : Bool) (t : ℕ × (VfsNode × (D × Mem))).
      let node1 : VfsNode = if b then record t.1.0 { fs_specific = t.0 } else t.1.0 in
      let file1 : File = record file { node = node1 } in
      P (
        write_loop dev unset words fuel v single cluster buffer size (file.offset / C)
          (file.offset % C) file1 t.0 0 t.1.1.0 t.1.1.1) in
    by_false P (size == 0) _ _ (ne→not_== _ _ (omega (arith, one))) (
      by_false (named (is_end first)) (is_end first) _ _ alive
        (subst (λ b. named b (first, (file.node, (d, m)))) (sym alive) loop))
