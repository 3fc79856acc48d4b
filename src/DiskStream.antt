-- ===== src/DiskStream.antt =====
-- src/kernel/disk/disk_stream.c: bytes from any position of a disk. `buf` is the page that `kzalloc` gave for a sector;
-- `read` is `read_disk_block` of one sector of the stream's disk to it.
mod Tests
pub mod Bytes
use gensis32os.Prelude.{
  ltb, ◌==◌, if◌then◌else◌, u32, ℕ, zero, suc, ◌+◌, ◌-◌, ◌/◌, ◌%◌, min, true, false,
}
use gensis32os.Memory.{Mem, store}

-- `struct disk_stream`; the disk is that of `read`.
pub record DiskStream : Type 0 where
  pub pos : ℕ

pub init_disk_stream : DiskStream
init_disk_stream = record { pos = 0 }

pub disk_stream_seek : DiskStream → (position : ℕ) → DiskStream
disk_stream_seek ds position = record { pos = position }

-- SECTOR_SIZE
abbrev pub sector_size : ℕ
sector_size = 512

-- `for(;i<no_bytes && index<SECTOR_SIZE;i++,index++) ram_location[i]=buf[index];` with `left` = SECTOR_SIZE - index.
pub copy_loop : (left : ℕ) → (i index no_bytes buf ram : ℕ) → Mem → Mem
copy_loop zero i index n buf ram m = m
copy_loop (suc left) i index n buf ram m =
    let rest = copy_loop left (i + 1) (index + 1) n buf ram (store m (ram + i) (m (buf + index))) in
    if ltb i n then rest else m

-- The value of `i` after that loop.
abbrev pub copied : (left i no_bytes : ℕ) → ℕ
copied left i n = i + min left (n - i)

module _ {ℓ} {S : Type ℓ} (read : (lba : ℕ) → S → Mem → ℕ × (S × Mem)) where
  -- `for(;count>0;count--,lba++)`
  pub sector_loop : (count : ℕ) → (size lba i index no_bytes buf ram : ℕ) → S → Mem → S × Mem
  sector_loop zero size lba i index n buf ram s m = (s, m)
  sector_loop (suc count) size lba i index n buf ram s m =
      let (r, (s1, m1)) = read lba s m in
      let left = size - index in
      elim (r == 0) [
        | false ↦ (s1, m1)
        | true ↦
            sector_loop count size (lba + 1) (copied left i n) 0 n buf ram s1
              (copy_loop left i index n buf ram m1)
      ]

  -- The sectors that the bytes lie in are `no_bytes + index` by 512, rounded up.
  pub get_bytes_from_disk : DiskStream → (no_bytes ram_location buf : ℕ) → S → Mem → S × Mem
  get_bytes_from_disk ds n ram buf s m =
      let lba = ds.pos / sector_size in
      let index = ds.pos % sector_size in
      let whole = u32 (n + index) / sector_size in
      let count = if u32 (n + index) % sector_size == 0 then whole else whole + 1 in
      if n == 0 then (s, m) else sector_loop count sector_size lba 0 index n buf ram s m
