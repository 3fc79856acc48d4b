-- ===== src/Fat16/Read.antt =====
-- What `read_fat16` brings from a formatted volume.
use native.Mathlib.Nat.{mod-lt}
use gensis32os.Prelude.Outcomes.{Ends, ends, Ends-weaken, Ends-map}
use gensis32os.Prelude.Division.{div_parts}
use native.Mathlib.Nat.{mul_comm}
use gensis32os.Prelude.Branches.{by_cases, by_option}
use gensis32os.Prelude.{
  leb, ◌==◌, lt_or_le, u16, u32, sub32, ℕ, zero, suc, ◌+◌, ◌*◌, ◌/◌, ◌%◌, ◌^◌, ◌≤◌, ◌<◌, ◌≡◌, refl,
  sym, ap, ◌∙◌, ◌⊎◌, inl, inr, true, false, ◌||◌, some, arith,
}
use native.Mathlib.Omega.{div_any}
use gensis32os.Memory.{Mem}
use gensis32os.Essentials.{memcpy}
use gensis32os.Fat16.{min_32}
use gensis32os.Fat16.Device.{BlockDevice, IsMedium}
use gensis32os.Fat16.Files.{
  Volume, cluster_size, is_end, hop, load_cluster, File, read_fat16, read_loop,
}
use gensis32os.Fat16.Chain.{
  IsFormatted, IsClosed, nth_cluster, is_end-two, cluster_size-eq, FileByte, FileEnds,
  nth_cluster-add, nth_cluster-below, is_end-two,
}
use gensis32os.Fat16.ReadRound.{target_size-min, hop-nth, round-copies}

module _ {ℓ} {D : Type ℓ} (dev : BlockDevice D) (content : D → ℕ → ℕ → ℕ) (limit : ℕ)
    (medium : IsMedium dev content limit) (v : Volume) (top : ℕ) (f : IsFormatted v top limit)
    (g : ℕ → ℕ → ℕ) (closed : IsClosed v g top) where
  module _ (first origin size buffer cluster : ℕ) (small : size < 2 ^ 32)
      (apart : (buffer + size ≤ cluster) ⊎ (cluster + cluster_size v.bpb ≤ buffer)) where
    -- A run of the loop from `index` on: it returns how far it came, has copied the bytes of the file up to
    -- there, and stopped early only at the end of the file.
    abbrev Brings : (single index : ℕ) → Mem → ℕ × (D × Mem) → Type 0
    Brings single index m out =
        (index ≤ out.0)
        × (out.0 ≤ size)
        × (content out.1.0 ≡ g)
        × ((k : ℕ) → index ≤ k → k < out.0 → FileByte v g first (origin + k) (out.1.1 (buffer + k)))
        × (out.0 < size → FileEnds v g first (origin + out.0))
        × ((x : ℕ)
            → (x < buffer + index) ⊎ (buffer + size ≤ x)
            → (x < single) ⊎ (single + 512 ≤ x)
            → (x < cluster) ⊎ (cluster + cluster_size v.bpb ≤ x)
            → out.1.1 x ≡ m x)

    read_loop-Brings :
        (fuel base count cur offset index single : ℕ) (d : D) (m : Mem)
        → content d ≡ g
        → (buffer + size ≤ single) ⊎ (single + 512 ≤ buffer)
        → nth_cluster v g base first ≡ some cur
        → (2 ≤ cur) × (cur < top)
        → (base + count) * cluster_size v.bpb + offset ≡ origin + index
        → offset < cluster_size v.bpb
        → index < size
        → size ≤ index + fuel
        → Ends
            (Brings single index m)
            (read_loop dev fuel v single cluster buffer size count offset cur index d m)
    unfolding read_loop
    read_loop-Brings zero base count cur offset index single d m now away e range place o h enough =
        absurd (omega arith)
    read_loop-Brings (suc fuel) base count cur offset index single d m now away e range place o h
          enough =
        let C = cluster_size v.bpb in
        let i = base + count in
        let (r, now1, same1) =
          hop-nth dev content limit medium v top f g closed count cur single d m now range.1 in
        let (target, (d1, m1)) = hop dev count v cur single d m in
        let ith = nth_cluster-add v g base count first cur e in
        by_option (Ends (Brings single index m)) target
          (λ gone. ends (
            omega arith,
            omega arith,
            now1,
            λ k lo hi. absurd (omega arith),
            λ less.
                ap (λ a. nth_cluster v g (a / C) first) (sym place)
                ∙ ap (λ a. nth_cluster v g a first) (div_parts i offset C o).0
                ∙ ith
                ∙ sym r
                ∙ gone,
            λ x p q w. same1 x q,
          ))
          (λ next found.
            let t = min_32 (sub32 size index) (sub32 C offset) in
            let amount = target_size-min v top limit size index offset f h small o in
            let plain : u32 (index + t) ≡ index + t = omega (arith, amount) in
            let at : nth_cluster v g i first ≡ some next = ith ∙ sym r ∙ found in
            let below = nth_cluster-below v g top closed count cur next range (sym r ∙ found) in
            let (now2, got, same) =
              round-copies dev content limit medium v top f g closed first origin size buffer
                cluster small apart i next offset index d1 m1 now1 at below place o h in
            let (d2, m2) = load_cluster dev v.bpb.sect_per_clust v 0 next cluster d1 m1 in
            let m3 = memcpy m2 (buffer + index) (cluster + offset) t in
            by_cases (Ends (Brings single index m)) (leb size (u32 (index + t)))
              (λ full.
                let all : u32 (index + t) ≡ size = ground (arith, amount, plain) in
                ends (
                  omega (arith, plain),
                  omega (arith, all),
                  now2,
                  λ k lo hi. got k lo (omega (arith, plain)),
                  λ less. absurd (omega (arith, all)),
                  λ x p q w. same x (omega (arith, p, amount)) w ∙ same1 x q,
                ))
              (λ more.
                let less : u32 (index + t) < size = ground (arith, more) in
                let next_place : (i + 1) * C + 0 ≡ origin + u32 (index + t) =
                  let product : (i + 1) * C ≡ i * C + C = grind arith in
                  omega (arith, place, amount, plain, product) in
                Ends-weaken
                  (read_loop-Brings fuel i 1 next 0 (u32 (index + t)) single d2 m3 now2 away at
                    below next_place (omega (arith, o)) less (omega (arith, amount, plain)))
                  λ out (from, to, now4, bytes, stop, same4). (
                    omega (arith, from, plain),
                    to,
                    now4,
                    λ k lo hi. elim (lt_or_le k (u32 (index + t))) [
                      | inl done ↦
                          let (c, p, q) = got k lo (omega (arith, done, plain)) in
                          (
                            c,
                            p,
                            q
                                ∙ sym (
                                    same4 (buffer + k) (inl (omega arith)) (omega (arith, away))
                                      (omega (arith, apart))),
                          )
                      | inr later ↦ bytes k later hi
                    ],
                    stop,
                    λ x p q w.
                        same4 x (omega (arith, p, plain)) q w
                        ∙ same x (omega (arith, p, amount)) w
                        ∙ same1 x q,
                  )))

-- What a read of `size` bytes comes to: how many it brought, and that they are the file's.
abbrev pub ReadOutcome {ℓ} :
    {D : Type ℓ}
    → (D → ℕ → ℕ → ℕ)
    → Volume
    → File
    → (buffer size single cluster : ℕ) → D
    → Mem
    → ℕ × (File × (D × Mem))
    → Type 0
ReadOutcome content v file buffer size single cluster d m (n, (file', (e, m'))) =
    let first = u16 file.node.fs_specific in
    (n ≤ size)
    × ((k : ℕ) → k < n → FileByte v (content d) first (file.offset + k) (m' (buffer + k)))
    × (n < size → (is_end first ≡ true) ⊎ FileEnds v (content d) first (file.offset + n))
    × (file'.offset ≡ u32 (file.offset + n))
    × (file'.node ≡ file.node)
    × (content e ≡ content d)
    × ((x : ℕ)
        → (x < buffer) ⊎ (buffer + size ≤ x)
        → (x < single) ⊎ (single + 512 ≤ x)
        → (x < cluster) ⊎ (cluster + cluster_size v.bpb ≤ x)
        → m' x ≡ m x)

-- On a formatted volume with a closed FAT, `read_fat16` ends, with fuel for one round for each byte wanted. It
-- returns the number of bytes that it copied: they are the file's bytes from the offset on, found along the
-- chain of clusters, and they are fewer than wanted only where the file's chain ends behind the last of them (or
-- the file has no cluster). The offset of the file moves by that number, the medium is as it was, and no byte
-- outside the buffer and the two blocks of the heap is changed.
pub read_fat16-Ends {ℓ} :
    {D : Type ℓ} (dev : BlockDevice D) (content : D → ℕ → ℕ → ℕ) (limit : ℕ)
    (medium : IsMedium dev content limit) (v : Volume) (top : ℕ) (f : IsFormatted v top limit)
    (fuel : ℕ) (file : File) (buffer size single cluster : ℕ) (d : D) (m : Mem)
    → IsClosed v (content d) top
    → (is_end (u16 file.node.fs_specific) ≡ true) ⊎ (u16 file.node.fs_specific < top)
    → file.offset < 2 ^ 32
    → size < 2 ^ 32
    → size ≤ fuel
    → (buffer + size ≤ single) ⊎ (single + 512 ≤ buffer)
    → (buffer + size ≤ cluster) ⊎ (cluster + cluster_size v.bpb ≤ buffer)
    → Ends
        (ReadOutcome content v file buffer size single cluster d m)
        (read_fat16 dev fuel v single cluster file buffer size d m)
unfolding read_fat16 nth_cluster
read_fat16-Ends dev content limit medium v top f fuel file buffer size single cluster d m closed
      start o small enough away apart =
    let first = u16 file.node.fs_specific in
    let C = cluster_size v.bpb in
    let Q = ReadOutcome content v file buffer size single cluster d m in
    by_cases (Ends Q) (size == 0 || is_end first)
      (λ stop. ends (
        omega arith,
        λ k h. absurd (omega arith),
        λ more. inl (ground (arith, stop, more)),
        omega (arith, o),
        refl,
        refl,
        λ x p q w. refl,
      ))
      (λ go.
        let alive : is_end first ≡ false = ground (arith, go) in
        let some : 0 < size = ground (arith, go) in
        let below : first < top = elim start [ inl e ↦ absurd (cc) | inr h ↦ h ] in
        let positive : 0 < C = omega (arith, cluster_size-eq f, f.per_cluster) in
        let place : (0 + file.offset / C) * C + file.offset % C ≡ file.offset + 0 =
          omega (arith, mul_comm C (file.offset / C), div_any file.offset C) in
        Ends-map Q (λ (n, (e, n')). (n, (record file { offset = u32 (file.offset + n) }, (e, n'))))
          (read_loop-Brings dev content limit medium v top f (content d) closed first file.offset
            size buffer cluster small apart fuel 0 (file.offset / C) first (file.offset % C) 0
            single d m refl away refl (is_end-two first alive, below) place
            (mod-lt file.offset positive) some (omega (arith, enough)))
          λ (n, (e, n')) (from, to, kept, bytes, stop, same). (
            to,
            λ k h. bytes k (omega arith) h,
            λ less. inr (stop less),
            refl,
            refl,
            kept,
            λ x p q w. same x (omega (arith, p)) q w,
          ))
