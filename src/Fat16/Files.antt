-- ===== src/Fat16/Files.antt =====
-- src/kernel/file_syst/fat16.c: reading and writing an open file, and the search for a free cluster. `single` and
-- `cluster_temp` are the blocks that heap_cream_malloc gives; a NULL file, for which reading and writing return 0,
-- is left out.
use gensis32os.Prelude.{
  ltb, leb, ◌==◌, u16, u32, sub32, ℕ, zero, suc, ◌+◌, ◌*◌, ◌/◌, ◌%◌, Bool, true, false, ◌||◌,
  Option, none, some,
}
use gensis32os.Memory.{Mem, load16}
use gensis32os.Essentials.{memcpy}
use gensis32os.Fat16.{Bpb, root_dir_count, min_32}
use gensis32os.Fat16.Device.{BlockDevice}

-- The mount table entry of a file: the boot sector's fields and the first sector of the partition.
pub record Volume : Type 0 where
  pub bpb : Bpb
  pub start_sect : ℕ

-- `struct vfs_node` and `struct file`, less the links to other tables; `node` is what `vfs_node_ptr` points to.
pub record VfsNode : Type 0 where
  pub size : ℕ
  pub node_id : ℕ
  pub mode : ℕ
  pub user_id : ℕ
  pub dirty_bit : ℕ
  pub access_time : ℕ
  pub modified_time : ℕ
  pub fs_specific : ℕ

pub record File : Type 0 where
  pub node : VfsNode
  pub flags : ℕ
  pub offset : ℕ

-- `(cur_cluster >=0xfff8 )|| (cur_cluster< 0x0002)`
unfoldable pub is_end : (cur_cluster : ℕ) → Bool
is_end c = leb 0xfff8 c || ltb c 2

-- `temp`: the first data sector, counted from the start of the partition.
unfoldable pub data_start : Bpb → ℕ
data_start b = u32 (
    u32 (b.reserved_sectors + b.sectors_per_fat * b.fat_count)
    + root_dir_count b.root_entry_count b.bytes_per_sect)

-- The bytes of a cluster.
abbrev pub cluster_size : Bpb → ℕ
cluster_size b = b.bytes_per_sect * b.sect_per_clust

-- The address of sector `q` of a cluster on the disk.
unfoldable pub cluster_sector : Volume → (cur_cluster q : ℕ) → ℕ
cluster_sector v cur q =
    u32 (v.start_sect + data_start v.bpb + sub32 cur 2 * v.bpb.sect_per_clust + q)

module _ {ℓ} {D : Type ℓ} (dev : BlockDevice D) where
  -- The FAT entry of a cluster: its sector is read to `single`.
  unfoldable pub fat_word : Volume → (cur_cluster single : ℕ) → D → Mem → ℕ × (D × Mem)
  fat_word v cur single d m =
      let b = v.bpb in
      let actual_byte_offset = cur * 2 in
      let sector_to_load = b.reserved_sectors + actual_byte_offset / b.bytes_per_sect in
      let (_, (d1, m1)) =
        dev.read_block (u32 (v.start_sect + sector_to_load)) (b.bytes_per_sect / 512) single d m in
      (load16 m1 (single + actual_byte_offset % b.bytes_per_sect), (d1, m1))

  -- The loop of `read_fat16` over `cluster_count`; `none` is `goto cleanup_return`.
  unfoldable pub hop :
      (cluster_count : ℕ) → Volume → (cur single : ℕ) → D → Mem → Option ℕ × (D × Mem)
  hop zero v cur single d m = (some cur, (d, m))
  hop (suc count) v cur single d m =
      let (next, (d1, m1)) = fat_word v cur single d m in
      elim (is_end next) [ true ↦ (none, (d1, m1)) | false ↦ hop count v next single d1 m1 ]

  -- The loops over the sectors of a cluster, from `q` on.
  unfoldable pub load_cluster : (left : ℕ) → Volume → (q cur cluster_temp : ℕ) → D → Mem → D × Mem
  load_cluster zero v q cur cluster d m = (d, m)
  load_cluster (suc left) v q cur cluster d m =
      let (_, (d1, m1)) =
        dev.read_block (cluster_sector v cur q) (v.bpb.bytes_per_sect / 512)
          (cluster + q * v.bpb.bytes_per_sect) d m in
      load_cluster left v (q + 1) cur cluster d1 m1

  unfoldable pub store_cluster : (left : ℕ) → Volume → (q cur cluster_temp : ℕ) → D → Mem → D
  store_cluster zero v q cur cluster d m = d
  store_cluster (suc left) v q cur cluster d m =
      let (_, d1) =
        dev.write_block (cluster_sector v cur q) (v.bpb.bytes_per_sect / 512)
          (cluster + q * v.bpb.bytes_per_sect) d m in
      store_cluster left v (q + 1) cur cluster d1 m

  -- `while(1)` of `read_fat16`: the result is `buffer_index`. `none` is fuel that runs out.
  unfoldable pub read_loop :
      (fuel : ℕ)
      → Volume
      → (single cluster_temp buffer size cluster_count offset_in_cluster cur buffer_index : ℕ) → D
      → Mem
      → Option (ℕ × (D × Mem))
  read_loop zero v single cluster buffer size count offset cur index d m = none
  read_loop (suc fuel) v single cluster buffer size count offset cur index d m =
      let (target, (d1, m1)) = hop count v cur single d m in
      elim target [
        | none ↦ some (index, (d1, m1))
        | some next ↦
            let (d2, m2) = load_cluster v.bpb.sect_per_clust v 0 next cluster d1 m1 in
            let target_size = min_32 (sub32 size index) (sub32 (cluster_size v.bpb) offset) in
            let m3 = memcpy m2 (buffer + index) (cluster + offset) target_size in
            let index1 = u32 (index + target_size) in
            elim (leb size index1) [
              | true ↦ some (index1, (d2, m3))
              | false ↦ read_loop fuel v single cluster buffer size 1 0 next index1 d2 m3
            ]
      ]

  unfoldable pub read_fat16 :
      (fuel : ℕ)
      → Volume
      → (single cluster_temp : ℕ) → File
      → (buffer size : ℕ) → D
      → Mem
      → Option (ℕ × (File × (D × Mem)))
  read_fat16 fuel v single cluster file buffer size d m =
      let cur = u16 file.node.fs_specific in
      let count = file.offset / cluster_size v.bpb in
      let offset = file.offset % cluster_size v.bpb in
      elim (size == 0 || is_end cur) [
        | true ↦ some (0, (file, (d, m)))
        | false ↦
            let done = read_loop fuel v single cluster buffer size count offset cur 0 d m in
            elim done [
              | none ↦ none
              | some (index, (d1, m1)) ↦
                  some (index, (record file { offset = u32 (file.offset + index) }, (d1, m1)))
            ]
      ]
