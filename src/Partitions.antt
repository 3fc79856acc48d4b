-- ===== src/Partitions.antt =====
-- src/kernel/file_syst/partitions.c: the partition tables. The list of `struct partition` is a list here, in the order
-- of the links; the heap that its cells come from and `print` are left out.
mod Tests
pub mod Entries
use gensis32os.Prelude.{
  ltb, leb, ◌==◌, if◌then◌else◌, u32, ◌<<<◌, ℕ, zero, suc, ◌+◌, ◌^◌, bit_or, Bool, true, false,
  ◌&&◌, ◌||◌, not, List, [], ◌∷◌, ◌++◌,
}
use gensis32os.Memory.{Mem}
use gensis32os.Strings.{strncmp}
use gensis32os.Disk.{Disk, Ports, read_disk_block}

-- `enum FILE_SYST_TYPE`
pub data FileSystType : Type 0 where
  fs_unknown : FileSystType
  fat_12 : FileSystType
  fat_16_l32 : FileSystType
  fat_16_g32 : FileSystType
  fat_16_lba : FileSystType
  fat_32_lba : FileSystType
  fat_32_chs : FileSystType
  linux_native : FileSystType

-- `struct partition`, without the pointers to its disk and to the next one.
pub record Partition : Type 0 where
  pub fs_type : FileSystType
  pub start_sect : ℕ
  pub sect_num : ℕ
  pub is_bootable : Bool

pub get32 : Mem → (ptr : ℕ) → ℕ
get32 m ptr =
    bit_or (bit_or (bit_or (m ptr) (m (ptr + 1) <<< 8)) (m (ptr + 2) <<< 16)) (m (ptr + 3) <<< 24)

-- `for(int i=0;i<4;i++)` over the type bytes of the entries that are left.
pub mbr_loop : (left : ℕ) → Mem → (entry : ℕ) → Bool
mbr_loop zero m entry = false
mbr_loop (suc left) m entry =
    let rest = mbr_loop left m (entry + 16) in if not (m (entry + 4) == 0x00) then true else rest

pub check_mbr : Mem → (partition_table : ℕ) → Bool
check_mbr m t = mbr_loop 4 m t

-- The file system that a boot sector names; the two texts are the string literals of the code.
pub vbr_type : Mem → (sect_0_buf fat12 fat16 fat32 : ℕ) → FileSystType
vbr_type m buf fat12 fat16 fat32 =
    let s1 = buf + 0x36 in
    if strncmp m s1 fat12 6 == 0
    then fat_12
    else if strncmp m s1 fat16 6 == 0
    then fat_16_lba
    else if strncmp m (buf + 0x52) fat32 6 == 0
    then fat_32_lba
    else if strncmp m (buf + 0x47) fat32 6 == 0
    then fat_32_lba
    else fs_unknown

-- `fix_vbr` and what `create_linked_list` sets after it: one partition that is the whole disk.
pub fix_vbr : Mem → (sect_0_buf fat12 fat16 fat32 : ℕ) → Disk → Partition
fix_vbr m buf fat12 fat16 fat32 disk = record {
  fs_type = vbr_type m buf fat12 fat16 fat32;
  start_sect = 0;
  sect_num = disk.sect_count;
  is_bootable = false;
}

-- The switch over the type byte.
unfoldable pub type_of : ℕ → FileSystType
type_of b =
    if b == 0x01
    then fat_12
    else if b == 0x04
    then fat_16_l32
    else if b == 0x06
    then fat_16_g32
    else if b == 0x0e
    then fat_16_lba
    else if b == 0x0c
    then fat_32_lba
    else if b == 0x0b
    then fat_32_chs
    else if b == 0x83
    then linux_native
    else fs_unknown

pub entry_at : Mem → (entry : ℕ) → Partition
entry_at m e = record {
  fs_type = type_of (m (e + 4));
  start_sect = get32 m (e + 8);
  sect_num = get32 m (e + 12);
  is_bootable = m e == 0x80;
}

-- Whether the loop keeps an entry: it has sectors, and its end, in 32 bits, is not past the disk's.
pub keeps : Disk → Partition → Bool
keeps disk p =
    not (p.sect_num == 0x00) && not (ltb disk.sect_count (u32 (p.start_sect + p.sect_num)))

-- `for(int i=0;i<4;i++)`: the list so far, to whose end a partition is linked.
pub entry_loop : (left : ℕ) → Mem → Disk → (entry : ℕ) → List Partition → List Partition
entry_loop zero m disk entry l = l
entry_loop (suc left) m disk entry l =
    let cur = entry_at m entry in
    entry_loop left m disk (entry + 16) (if keeps disk cur then l ++ (cur ∷ []) else l)

pub create_linked_list :
    Mem → Disk → (sect_0_buf partition_table fat12 fat16 fat32 : ℕ) → List Partition
create_linked_list m disk buf table fat12 fat16 fat32 =
    if check_mbr m table
    then entry_loop 4 m disk table []
    else fix_vbr m buf fat12 fat16 fat32 disk ∷ []

module _ {ℓ} {D : Type ℓ} (io : Ports D) where
  -- `link_list` after the scan; `read_disk_block(...) < 0` is the sign of the result.
  pub single_disk_scan :
      Disk → (sect_0_buf fat12 fat16 fat32 : ℕ) → D → Mem → List Partition × (D × Mem)
  single_disk_scan disk buf fat12 fat16 fat32 d m =
      let (r, (d1, m1)) = read_disk_block io disk 0 1 buf d m in
      (
        (if leb (2 ^ 31) r || not (m1 (buf + 510) == 0x55) || not (m1 (buf + 511) == 0xaa)
            then []
            else create_linked_list m1 disk buf (buf + 446) fat12 fat16 fat32),
        (d1, m1),
      )

  -- `scan_part_all_disks`: the lists of the disks of `motherlobe`, in its order.
  pub scan_part_all_disks :
      List Disk → (sect_0_buf fat12 fat16 fat32 : ℕ) → D → Mem → List (List Partition) × (D × Mem)
  scan_part_all_disks [] buf fat12 fat16 fat32 d m = ([], (d, m))
  scan_part_all_disks (disk ∷ rest) buf fat12 fat16 fat32 d m =
      let (l, (d1, m1)) = single_disk_scan disk buf fat12 fat16 fat32 d m in
      let (ls, end) = scan_part_all_disks rest buf fat12 fat16 fat32 d1 m1 in (l ∷ ls, end)
