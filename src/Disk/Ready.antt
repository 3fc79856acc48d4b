-- ===== src/Disk/Ready.antt =====
-- What `read_disk_block` brings into memory from a drive that answers in time.
use gensis32os.Prelude.{if◌then◌else◌, ℕ, ◌+◌, ◌*◌, ◌/◌, ◌%◌, ◌<◌, ◌≡◌}
use gensis32os.Memory.{Mem, load16}
use gensis32os.Disk.{Ports, Disk}
use gensis32os.Disk.Drive.{AtaDrive}

module _ {ℓ} {D : Type ℓ} (io : Ports D) (disk : Disk) (limit : ℕ)
    (a : AtaDrive io disk.base_data_port limit)
    (which : a.slave ≡ (if disk.is_master then 0 else 1)) where
  abbrev base : ℕ
  base = disk.base_data_port

  -- The sectors from `lba` on, word by word, and the result 0.
  abbrev pub Brought : (lba count buf : ℕ) → ℕ × (D × Mem) → Type 0
  Brought lba count buf out =
      (out.0 ≡ 0)
      × ((i : ℕ) → i < count → load16 out.1.1 (buf + 2 * i) ≡ a.sector (lba + i / 256) (i % 256))
