-- ===== src/Fat16/RoundTrip.antt =====
-- Reading back what was written.
use gensis32os.Prelude.Division.{div_between}
use mathlib.Core.Bool.{false≢true}
use gensis32os.Prelude.Outcomes.{Ends, Ends-weaken}
use gensis32os.Prelude.{
  lt_or_le, u16, ℕ, ◌+◌, ◌/◌, ◌^◌, ◌≤◌, ◌<◌, ◌≡◌, refl, sym, ap, ◌∙◌, subst, ◌⊎◌, inl, inr, false,
  arith,
}
use gensis32os.Memory.{Mem}
use gensis32os.Fat16.Device.{BlockDevice, IsMedium}
use gensis32os.Fat16.Files.{Volume, File, is_end, cluster_size, read_fat16}
use gensis32os.Fat16.FreeCluster.{Search}
use gensis32os.Fat16.WriteFile.{write_fat16}
use gensis32os.Fat16.Chain.{
  IsFormatted, IsClosed, data_sector, nth_cluster, cluster_byte, FileByte, FileEnds,
  cluster_size-eq,
}
use gensis32os.Fat16.Sectors.{nth_cluster-same, IsClosed-same}
use gensis32os.Fat16.Stretch.{IsChain, Stored}
use gensis32os.Fat16.Read.{read_fat16-Ends}
use gensis32os.Fat16.Write.{write_fat16-Ends}

-- The stretch lies in the data.
Stored-data :
    (v : Volume) (g new : ℕ → ℕ → ℕ) (first origin to buffer : ℕ) (m : Mem)
    → Stored v g first origin 0 to buffer m g new
    → (l k : ℕ) → k < 512
    → l < data_sector v
    → new l k ≡ g l k
Stored-data v g new first origin to buffer m st l k p low =
    st.1 l k p (λ i lo hi (_, _, row, _). absurd (omega (arith, row, low)))

-- A byte that is read is the one that was stored.
Stored-byte :
    (v : Volume) (g new : ℕ → ℕ → ℕ) (first origin to buffer : ℕ) (m : Mem) (k b : ℕ)
    → Stored v g first origin 0 to buffer m g new
    → k < to
    → nth_cluster v new ((origin + k) / cluster_size v.bpb) first
      ≡ nth_cluster v g ((origin + k) / cluster_size v.bpb) first
    → FileByte v new first (origin + k) b
    → b ≡ m (buffer + k)
unfolding cluster_byte
Stored-byte v g new first origin to buffer m k b st h same (at, found, byte) =
    sym byte ∙ st.0 k _ _ (omega arith) h (at, sym same ∙ found, refl, refl)

-- On a formatted volume with a closed FAT, where the chain of the file reaches the last byte to write and has no cycle:
-- the bytes that `write_fat16` has written to the file are brought back by `read_fat16`, all of them and unchanged, when
-- the file is read from the same offset to any place in memory outside the blocks that both calls use.
pub read_fat16-write_fat16 {ℓ} :
    {D : Type ℓ} (dev : BlockDevice D) (content : D → ℕ → ℕ → ℕ) (limit : ℕ)
    (medium : IsMedium dev content limit) (v : Volume) (top : ℕ) (f : IsFormatted v top limit)
    (unset : Search) (words fuel : ℕ) (file : File) (buffer back size single cluster : ℕ) (d : D)
    (m : Mem)
    → IsClosed v (content d) top
    → is_end (u16 file.node.fs_specific) ≡ false
    → u16 file.node.fs_specific < top
    → IsChain v (content d) (u16 file.node.fs_specific) (file.offset + size)
    → file.offset < 2 ^ 32
    → 1 ≤ size
    → size < 2 ^ 32
    → size ≤ fuel
    → (buffer + size ≤ single) ⊎ (single + 512 ≤ buffer)
    → (buffer + size ≤ cluster) ⊎ (cluster + cluster_size v.bpb ≤ buffer)
    → (back + size ≤ single) ⊎ (single + 512 ≤ back)
    → (back + size ≤ cluster) ⊎ (cluster + cluster_size v.bpb ≤ back)
    → Ends
        (λ (n, (file', (e, m'))).
          Ends
            (λ (n', (_, (_, m''))).
              (n' ≡ size) × ((k : ℕ) → k < size → m'' (back + k) ≡ m (buffer + k)))
            (read_fat16 dev fuel v single cluster
              (record file' { offset = file.offset })
              back
              size
              e
              m'))
        (write_fat16 dev unset words fuel v single cluster file buffer size d m)
read_fat16-write_fat16 dev content limit medium v top f unset words fuel file buffer back size
      single cluster d m closed alive below chain o one small enough away apart away' apart' =
    let first = u16 file.node.fs_specific in
    let C = cluster_size v.bpb in
    let positive : 1 ≤ C = omega (arith, cluster_size-eq f, f.per_cluster) in
    Ends-weaken
      (write_fat16-Ends dev content limit medium v top f unset words fuel file buffer size single
        cluster d m closed alive below chain one small enough away apart)
      λ (n, (file', (e, m'))) (whole, st, off, nod).
        let data_same = Stored-data v (content d) (content e) first file.offset size buffer m st in
        let start : u16 file'.node.fs_specific ≡ first = ap (λ t. u16 t.fs_specific) nod in
        let chains : (i : ℕ)
            → nth_cluster v (content e) i first ≡ nth_cluster v (content d) i first =
          λ i.
            nth_cluster-same v top limit (content d) (content e) f closed data_same i first below in
        Ends-weaken
          (read_fat16-Ends dev content limit medium v top f fuel
            (record file' { offset = file.offset }) back size single cluster e m'
            (IsClosed-same v top limit (content d) (content e) f closed data_same)
            (inr (subst (λ t. t < top) (sym start) below)) o small enough away' apart')
          λ (n', (file'', (e', m''))) (to, bytes, stop, _, _, _, _).
            let short : n' < size → ⊥ = λ less. elim (stop less) [
              | inl gone ↦ false≢true (sym alive ∙ ap is_end (sym start) ∙ gone)
              | inr gone ↦
                  let (low, _) = div_between (file.offset + n') C positive in
                  let (at, found) =
                    chain.reaches ((file.offset + n') / C) (omega (arith, low, less)) in
                  let none_there : FileEnds v (content e) first (file.offset + n') =
                    subst (λ t. FileEnds v (content e) t (file.offset + n')) start gone in
                  let there = chains ((file.offset + n') / C) in absurd (cc)
            ] in
            let full : n' ≡ size = elim (lt_or_le n' size) [
              | inl less ↦ absurd (short less)
              | inr ge ↦ omega (arith, to, ge)
            ] in
            (
              full,
              λ k h.
                  Stored-byte v (content d) (content e) first file.offset size buffer m k _ st h
                    (chains ((file.offset + k) / C))
                    (subst (λ t. FileByte v (content e) t (file.offset + k) (m'' (back + k))) start
                      (bytes k (omega (arith, full, h)))),
            )
