-- ===== src/Fat16/FreeCluster.antt =====
-- src/kernel/file_syst/fat16.c: `get_free_cluster`. `single_sect` is the block that heap_cream_malloc gives, as words;
-- `start_fat` is the sector of the first FAT on the disk.
use gensis32os.Prelude.{
  leb, ◌==◌, u16, u32, ℕ, zero, suc, ◌+◌, ◌-◌, ◌*◌, ◌/◌, ◌%◌, ◌^◌, true, false, Option, none, some,
}
use gensis32os.Memory.{Mem, load16, store16}
use gensis32os.Fat16.{Bpb}
use gensis32os.Fat16.Device.{BlockDevice}
use gensis32os.Fat16.Files.{is_end}

-- The locals that the search leaves for the copies of the FAT.
pub record Search : Type 0 where
  pub new_cluster_number : ℕ
  pub new_cluster_sector : ℕ
  pub new_sect_offset : ℕ
  pub cur_cluster_sect_no : ℕ

-- `single_sect[j]=v`
unfoldable pub set_entry : Mem → (single_sect j v : ℕ) → Mem
set_entry m single j v = store16 m (single + 2 * j) v

-- The inner loop, from entry `j` on: the first free entry is taken; `none` leaves `new_sect_offset` as it is.
unfoldable pub scan_entries : (left : ℕ) → Mem → (single_sect j : ℕ) → Option ℕ × Mem
scan_entries zero m single j = (none, m)
scan_entries (suc left) m single j = elim (load16 m (single + 2 * j) == 0) [
  | true ↦ (some j, set_entry m single j 0xffff)
  | false ↦ scan_entries left m single (j + 1)
]

module _ {ℓ} {D : Type ℓ} (dev : BlockDevice D) where
  -- What follows a find in sector `i`: the sector is written, and the entry of `cur_cluster`, if it has one, is linked.
  unfoldable pub link_entry :
      Bpb → (start_fat cur_cluster single_sect i j : ℕ) → D → Mem → Search × (D × Mem)
  link_entry b start cur single i j d m =
      let half = b.bytes_per_sect / 2 in
      let new = u16 (i * half + j) in
      let sect = cur / half in
      elim (is_end cur) [
        | true ↦
            let (_, d1) = dev.write_block (u32 (start + i)) 1 single d m in
            let found : Search = record {
              new_cluster_number = new;
              new_cluster_sector = i;
              new_sect_offset = j;
              cur_cluster_sect_no = 0xffff;
            } in
            (found, (d1, m))
        | false ↦
            let found : Search = record {
              new_cluster_number = new;
              new_cluster_sector = i;
              new_sect_offset = j;
              cur_cluster_sect_no = sect;
            } in
            elim (sect == i) [
              | true ↦
                  let m1 = set_entry m single (cur % half) new in
                  let (_, d1) = dev.write_block (u32 (start + sect)) 1 single d m1 in
                  (found, (d1, m1))
              | false ↦
                  let (_, d1) = dev.write_block (u32 (start + i)) 1 single d m in
                  let (_, (d2, m2)) = dev.read_block (u32 (start + sect)) 1 single d1 m in
                  let m3 = set_entry m2 single (cur % half) new in
                  let (_, d3) = dev.write_block (u32 (start + sect)) 1 single d2 m3 in
                  (found, (d3, m3))
            ]
      ]

  -- The outer loop, from sector `i` on. `unset` are the values of the locals that a full FAT leaves without one.
  unfoldable pub search_fat :
      (left : ℕ)
      → Bpb
      → Search
      → (start_fat cur_cluster single_sect i : ℕ) → D
      → Mem
      → Search × (D × Mem)
  search_fat zero b unset start cur single i d m =
      let full : Search = record unset {
        new_cluster_number = 0xffff;
        new_sect_offset = 2 ^ 32 - 1;
      } in
      (full, (d, m))
  search_fat (suc left) b unset start cur single i d m =
      let (_, (d1, m1)) = dev.read_block (u32 (start + i)) 1 single d m in
      let (entry, m2) = scan_entries (b.bytes_per_sect / 2) m1 single 0 in
      elim entry [
        | none ↦ search_fat left b unset start cur single (i + 1) d1 m2
        | some j ↦ link_entry b start cur single i j d1 m2
      ]

  -- The loop over the other FATs, from FAT `i` on.
  unfoldable pub copy_fats :
      (left : ℕ) → Bpb → Search → (start_fat cur_cluster single_sect i : ℕ) → D → Mem → D × Mem
  copy_fats zero b s start cur single i d m = (d, m)
  copy_fats (suc left) b s start cur single i d m =
      let half = b.bytes_per_sect / 2 in
      let fat = start + i * b.sectors_per_fat in
      let new = s.new_cluster_number in
      let (_, (d1, m1)) = dev.read_block (u32 (fat + s.new_cluster_sector)) 1 single d m in
      let m2 = set_entry m1 single s.new_sect_offset 0xffff in
      elim (s.new_cluster_sector == s.cur_cluster_sect_no) [
        | true ↦
            let m3 = set_entry m2 single (cur % half) new in
            let (_, d3) = dev.write_block (u32 (fat + s.new_cluster_sector)) 1 single d1 m3 in
            copy_fats left b s start cur single (i + 1) d3 m3
        | false ↦
            let (_, d3) = dev.write_block (u32 (fat + s.new_cluster_sector)) 1 single d1 m2 in
            elim (leb 0xfff8 s.cur_cluster_sect_no) [
              | true ↦ copy_fats left b s start cur single (i + 1) d3 m2
              | false ↦
                  let (_, (d4, m4)) =
                    dev.read_block (u32 (fat + s.cur_cluster_sect_no)) 1 single d3 m2 in
                  let m5 = set_entry m4 single (cur % half) new in
                  let (_, d5) =
                    dev.write_block (u32 (fat + s.cur_cluster_sect_no)) 1 single d4 m5 in
                  copy_fats left b s start cur single (i + 1) d5 m5
            ]
      ]

  unfoldable pub get_free_cluster :
      Bpb → Search → (start_fat cur_cluster single_sect : ℕ) → D → Mem → ℕ × (D × Mem)
  get_free_cluster b unset start cur single d m =
      let (s, (d1, m1)) = search_fat b.sectors_per_fat b unset start cur single 0 d m in
      let (d2, m2) = copy_fats (b.fat_count - 1) b s start cur single 1 d1 m1 in
      (s.new_cluster_number, (d2, m2))
