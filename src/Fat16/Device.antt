-- ===== src/Fat16/Device.antt =====
-- The disk as src/kernel/file_syst/fat16.c sees it: `read_disk_block` and `write_disk_block` of
-- src/kernel/disk/disk.c on the disk of a partition, and what a medium that keeps its sectors promises of them.
use gensis32os.Prelude.{◌==◌, if◌then◌else◌, ℕ, ◌+◌, ◌≤◌, ◌<◌, ◌≡◌, ◌⊎◌}
use gensis32os.Memory.{Mem}
use gensis32os.Disk.{Disk, Ports, read_disk_block, write_disk_block}

-- `D` is the state of the device. The number is the result of the call, which fat16.c ignores.
pub record BlockDevice {ℓ} (D : Type ℓ) : Type ℓ where
  pub read_block : (lba total buf : ℕ) → D → Mem → ℕ × (D × Mem)
  pub write_block : (lba total buf : ℕ) → D → Mem → ℕ × D

-- The driver's own calls on a disk.
pub block_device {ℓ} : {D : Type ℓ} → Ports D → Disk → BlockDevice D
block_device io disk = record {
  read_block = read_disk_block io disk;
  write_block = write_disk_block io disk;
}

-- Below `limit` every sector is readable and writable: `content d lba k` is byte `k` of sector `lba`. A read
-- fills 512 bytes of memory and leaves the medium alone; a write changes one sector.
pub record IsMedium {ℓ} {D : Type ℓ} (dev : BlockDevice D) (content : D → ℕ → ℕ → ℕ) (limit : ℕ)
    : Type ℓ where
  pub reads :
      (lba buf : ℕ) (d : D) (m : Mem)
      → lba < limit
      → let (_, (d', m')) = dev.read_block lba 1 buf d m in
        ((k : ℕ) → k < 512 → m' (buf + k) ≡ content d lba k)
        × ((x : ℕ) → (x < buf) ⊎ (buf + 512 ≤ x) → m' x ≡ m x)
        × (content d' ≡ content d)
  pub writes :
      (lba buf : ℕ) (d : D) (m : Mem) (sector k : ℕ)
      → lba < limit
      → k < 512
      → content (dev.write_block lba 1 buf d m).1 sector k
        ≡ (if sector == lba then m (buf + k) else content d sector k)
