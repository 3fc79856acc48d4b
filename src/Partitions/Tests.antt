-- ===== src/Partitions/Tests.antt =====
-- Runs on a table of one partition.
use gensis32os.Prelude.{
  ◌==◌, if◌then◌else◌, ℕ, ◌+◌, ◌-◌, ◌*◌, ◌^◌, ◌≤◌, ◌<◌, ◌≡◌, ◌≢◌, ◌↔◌, ◌⊎◌, true, false, [], ◌∷◌,
  arith,
}
use gensis32os.Memory.{Mem}
use gensis32os.Disk.{Disk}
use gensis32os.Partitions.{Partition, create_linked_list, keeps, fat_16_lba}
use gensis32os.Partitions.Entries.{keeps_iff, create_linked_list-cases, filter, entries}

abbrev disk : Disk
disk = record {
  type = 0;
  ata_code = 0x80;
  base_data_port = 0x1f0;
  control_port = 0x3f6;
  command_status_port = 0x1f7;
  head = 0x1f6;
  drive_head = 0xa0;
  is_master = true;
  sect_size = 512;
  sect_count = 1000;
}

-- The partition ends behind the disk, but its end wraps around 2 ^ 32.
abbrev wrapping : Partition
wrapping = record {
  fs_type = fat_16_lba;
  start_sect = 2 ^ 32 - 1;
  sect_num = 10;
  is_bootable = false;
}

-- A type byte and ten sectors from sector 3 on in the first entry.
abbrev table : Mem
table a = if a == 450 then 0x0e else if a == 454 then 3 else if a == 458 then 10 else 0

keeps_iff_example : (keeps disk wrapping ≡ true) ↔ (
    (1 ≤ wrapping.sect_num)
    × ((wrapping.start_sect + wrapping.sect_num ≤ disk.sect_count)
        ⊎ ((2 ^ 32 ≤ wrapping.start_sect + wrapping.sect_num)
            × (wrapping.start_sect + wrapping.sect_num - 2 ^ 32 ≤ disk.sect_count))))
keeps_iff_example = keeps_iff disk wrapping (omega arith) (omega arith)

create_linked_list-cases_example :
    let l = create_linked_list table disk 0 446 0x2000 0x2010 0x2020 in
    (((i : ℕ) × (i < 4) × (table (446 + 16 * i + 4) ≢ 0))
      × (l ≡ filter (keeps disk) (entries 4 table 446)))
    ⊎ (((i : ℕ) → i < 4 → table (446 + 16 * i + 4) ≡ 0)
        × (p : Partition) × (l ≡ p ∷ [])
        × (p.start_sect ≡ 0)
        × (p.sect_num ≡ disk.sect_count))
create_linked_list-cases_example = create_linked_list-cases table disk 0 446 0x2000 0x2010 0x2020
