-- ===== src/Fat16.antt =====
-- src/kernel/file_syst/fat16.c and src/kernel/file_syst/fat16.h: the boot sector of a FAT16 volume. The sector is read to
-- `sect_0_buf`, an address that the heap gave.
mod Tests
pub mod Chain
pub mod Device
pub mod Directory
pub mod Files
pub mod FreeCluster
pub mod FatWords
pub mod FatMarks
pub mod FreeFirst
pub mod Layout
pub mod Linking
pub mod LostEntry
pub mod Matching
pub mod Mount
pub mod Mounting
pub mod Lookup
pub mod Names
pub mod OpenClose
pub mod Opening
pub mod OpenFiles
pub mod TableTests
pub mod Tables
pub mod Write
pub mod Stretch
pub mod WriteFile
pub mod WriteRound
pub mod Read
pub mod ReadRound
pub mod FatEntries
pub mod RoundTrip
pub mod Sectors
use gensis32os.Prelude.{
  ltb, leb, ◌==◌, if◌then◌else◌, u16, u32, ◌<<<◌, ℕ, ◌+◌, ◌-◌, ◌*◌, ◌/◌, ◌^◌, bit_or, Bool, ◌||◌,
  not, Option, none, some,
}
use gensis32os.Memory.{Mem}
use gensis32os.Disk.{Disk, Ports, read_disk_block}
use gensis32os.Partitions.{Partition}

-- `struct fat16_bpb`
pub record Bpb : Type 0 where
  pub bytes_per_sect : ℕ
  pub sect_per_clust : ℕ
  pub reserved_sectors : ℕ
  pub fat_count : ℕ
  pub sectors_per_fat : ℕ
  pub root_entry_count : ℕ
  pub fat_lba : ℕ
  pub root_lba : ℕ
  pub data_lba : ℕ

pub get_2_bytes : Mem → (ptr : ℕ) → ℕ
get_2_bytes m p = u16 (bit_or (m (p + 1) <<< 8) (m p))

-- As in the code: the fourth byte is not read, and the lowest two are both the first one.
pub get_4_byte : Mem → (ptr : ℕ) → ℕ
get_4_byte m p = bit_or (bit_or (bit_or (m (p + 2) <<< 24) (m (p + 1) <<< 16)) (m p <<< 8)) (m p)

-- `min` and `max`
unfoldable pub min_32 : (val1 val2 : ℕ) → ℕ
min_32 a b = if ltb a b then a else b

unfoldable pub max_32 : (val1 val2 : ℕ) → ℕ
max_32 a b = if ltb b a then a else b

-- The sizes of a sector that the driver knows.
pub is_sector_size : ℕ → Bool
is_sector_size n = n == 512 || n == 1024 || n == 2048 || n == 4096

-- The directory of the root in sectors, rounded up.
pub root_dir_count : (root_entry_count bytes_per_sect : ℕ) → ℕ
root_dir_count entries bytes = (entries * 32 + (bytes - 1)) / bytes

-- What the fields of a boot sector say; the sums are those of `uint32_t`.
pub bpb_of : Mem → (sect_0_buf start_sect : ℕ) → Bpb
bpb_of m buf start_sect =
    let bytes = get_2_bytes m (buf + 0x0b) in
    let reserved = get_2_bytes m (buf + 0x0e) in
    let fats = m (buf + 0x10) in
    let entries = get_2_bytes m (buf + 0x11) in
    let per_fat = get_2_bytes m (buf + 0x16) in
    let fat = u32 (start_sect + reserved) in
    let root = u32 (fat + fats * per_fat) in
    record {
      bytes_per_sect = bytes;
      sect_per_clust = m (buf + 0x0d);
      reserved_sectors = reserved;
      fat_count = fats;
      sectors_per_fat = per_fat;
      root_entry_count = entries;
      fat_lba = fat;
      root_lba = root;
      data_lba = u32 (root + root_dir_count entries bytes);
    }

-- `parse_partition_fill_bpb_fat16` after the sector is read, with its tests in their order.
pub fill_bpb : Mem → (sect_0_buf start_sect : ℕ) → Option Bpb
fill_bpb m buf start_sect =
    if not (is_sector_size (get_2_bytes m (buf + 0x0b)))
    then none
    else if m (buf + 0x0d) == 0
    then none
    else if m (buf + 0x10) == 0
    then none
    else if get_2_bytes m (buf + 0x16) == 0
    then none
    else some (bpb_of m buf start_sect)

module _ {ℓ} {D : Type ℓ} (io : Ports D) where
  pub parse_partition_fill_bpb_fat16 :
      Disk → Partition → (sect_0_buf : ℕ) → D → Mem → Option Bpb × (D × Mem)
  parse_partition_fill_bpb_fat16 disk part buf d m =
      let (r, (d1, m1)) = read_disk_block io disk part.start_sect 1 buf d m in
      ((if leb (2 ^ 31) r then none else fill_bpb m1 buf part.start_sect), (d1, m1))

-- The first sector of the data region as `get_root_specific_fat16` and `mount_fat16` count it: without the
-- start of the partition and the sectors of the root directory. The product is one of `int`.
pub get_root_specific_fat16 : Bpb → ℕ
get_root_specific_fat16 b = u32 (b.reserved_sectors + b.fat_count * b.sectors_per_fat)
