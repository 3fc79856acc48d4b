-- ===== src/Fat16/WriteFile.antt =====
-- src/kernel/file_syst/fat16.c: `write_fat16`. `words` is the block of `get_free_cluster`, `unset` its locals.
use gensis32os.Prelude.{
  leb, ◌==◌, if◌then◌else◌, u16, u32, sub32, ℕ, zero, suc, ◌+◌, ◌/◌, ◌%◌, true, false, Option, none,
  some,
}
use gensis32os.Memory.{Mem}
use gensis32os.Essentials.{memcpy}
use gensis32os.Fat16.{min_32, max_32}
use gensis32os.Fat16.Device.{BlockDevice}
use gensis32os.Fat16.Files.{
  Volume, VfsNode, File, is_end, cluster_size, fat_word, load_cluster, store_cluster,
}
use gensis32os.Fat16.FreeCluster.{Search, get_free_cluster}

module _ {ℓ} {D : Type ℓ} (dev : BlockDevice D) (unset : Search) (words : ℕ) where
  -- A cluster from the FATs where the chain has none, with the file marked as changed. The call hands on the
  -- number that it replaces.
  unfoldable pub take_cluster : Volume → VfsNode → (cur : ℕ) → D → Mem → ℕ × (VfsNode × (D × Mem))
  take_cluster v node cur d m = elim (is_end cur) [
    | true ↦
        let fat = u32 (v.start_sect + v.bpb.reserved_sectors) in
        let (new, (d1, m1)) = get_free_cluster dev v.bpb unset fat cur words d m in
        (new, (record node { dirty_bit = 1 }, (d1, m1)))
    | false ↦ (cur, (node, (d, m)))
  ]

  -- The loop over `cluster_count`.
  unfoldable pub hop_or_take :
      (cluster_count : ℕ)
      → Volume
      → VfsNode
      → (cur single : ℕ) → D
      → Mem
      → ℕ × (VfsNode × (D × Mem))
  hop_or_take zero v node cur single d m = (cur, (node, (d, m)))
  hop_or_take (suc count) v node cur single d m =
      let (next, (d1, m1)) = fat_word dev v cur single d m in
      let (cur1, (node1, (d2, m2))) = take_cluster v node next d1 m1 in
      hop_or_take count v node1 cur1 single d2 m2

  -- `while(1)`, with `none` for fuel that runs out; the result is `buffer_index`.
  unfoldable pub write_loop :
      (fuel : ℕ)
      → Volume
      → (single cluster_temp buffer size cluster_count offset_in_cluster : ℕ) → File
      → (cur buffer_index : ℕ) → D
      → Mem
      → Option (ℕ × (File × (D × Mem)))
  write_loop zero v single cluster buffer size count offset file cur index d m = none
  write_loop (suc fuel) v single cluster buffer size count offset file cur index d m =
      let (next, (node, (d1, m1))) = hop_or_take count v file.node cur single d m in
      let (d2, m2) = load_cluster dev v.bpb.sect_per_clust v 0 next cluster d1 m1 in
      let target_size = min_32 (sub32 size index) (sub32 (cluster_size v.bpb) offset) in
      let m3 = memcpy m2 (cluster + offset) (buffer + index) target_size in
      let d3 = store_cluster dev v.bpb.sect_per_clust v 0 next cluster d2 m3 in
      let index1 = u32 (index + target_size) in
      let file1 : File = record file {
        offset = u32 (file.offset + target_size);
        node = record node { size = max_32 node.size index1 };
      } in
      elim (leb size index1) [
        | true ↦ some (index1, (file1, (d3, m3)))
        | false ↦ write_loop fuel v single cluster buffer size 1 0 file1 next index1 d3 m3
      ]

  unfoldable pub write_fat16 :
      (fuel : ℕ)
      → Volume
      → (single cluster_temp : ℕ) → File
      → (buffer size : ℕ) → D
      → Mem
      → Option (ℕ × (File × (D × Mem)))
  write_fat16 fuel v single cluster file buffer size d m =
      let count = file.offset / cluster_size v.bpb in
      let offset = file.offset % cluster_size v.bpb in
      let first = u16 file.node.fs_specific in
      let (cur, (node, (d1, m1))) = take_cluster v file.node first d m in
      let node1 : VfsNode = if is_end first then record node { fs_specific = cur } else node in
      let file1 : File = record file { node = node1 } in
      elim (size == 0) [
        | true ↦ some (0, (file, (d, m)))
        | false ↦ write_loop fuel v single cluster buffer size count offset file1 cur 0 d1 m1
      ]
