-- ===== src/Disk/Probe/Disks.antt =====
-- Which disks the search at boot finds.
use gensis32os.Memory.{Mem}
use gensis32os.Disk.Probe.{set_up, new_disk, identified_size, check_disk}
use gensis32os.Prelude.{ℕ, suc, ◌+◌, bit_and, ◌≡◌, ◌≢◌, ◌⊎◌, true, false, List, [], ◌∷◌}
use gensis32os.Disk.{Disk, Ports}

-- The ports and the drive select byte are those of the code: bit 1 of it chooses the channel, bit 0 the drive.
abbrev pub IsWired : Disk → Type 0
IsWired d =
    (((bit_and d.ata_code 0x02 ≡ 0) × (d.base_data_port ≡ 0x1f0))
      ⊎ ((bit_and d.ata_code 0x02 ≢ 0) × (d.base_data_port ≡ 0x170)))
    × (((bit_and d.ata_code 0x01 ≡ 0) × (d.is_master ≡ true) × (d.drive_head ≡ 0xa0))
        ⊎ ((bit_and d.ata_code 0x01 ≢ 0) × (d.is_master ≡ false) × (d.drive_head ≡ 0xb0)))
    × (d.control_port ≡ d.base_data_port + 0x206)
    × (d.command_status_port ≡ d.base_data_port + 7)
    × (d.head ≡ d.base_data_port + 6)
    × (d.sect_size ≡ 512)

module _ {ℓ} {D : Type ℓ} (io : Ports D) (buf : ℕ) where
  -- A disk of the code, set up from the given drives and memory, with the size that the identification at `buf` has.
  abbrev pub IsSetUp : (code : ℕ) → D → Mem → Disk × (D × Mem) → Type ℓ
  IsSetUp code d m out =
      (out ≡ set_up io (new_disk code) buf d m)
      × IsWired out.0
      × (out.0.ata_code ≡ code)
      × (out.0.sect_count ≡ identified_size out.1.1 buf)

  -- Of the `left` codes from `i` on the disks for which `check_disk` answers that there is one, in the order of the
  -- codes; each code is asked in the state in which the one before has left the drives.
  pub data IsScan : (left i : ℕ) → D → Mem → List Disk → Type ℓ where
    scan_done : (i : ℕ) (d : D) (m : Mem) → IsScan 0 i d m []
    scan_missing :
        (left i : ℕ) (d : D) (m : Mem) {l : List Disk}
        → (check_disk io i d).0 ≡ false
        → IsScan left (i + 1) (check_disk io i d).1 m l
        → IsScan (suc left) i d m l
    scan_disk :
        (left i : ℕ) (d : D) (m : Mem) (disk : Disk) (d' : D) (m' : Mem) {l : List Disk}
        → (check_disk io i d).0 ≡ true
        → IsSetUp i (check_disk io i d).1 m (disk, (d', m'))
        → IsScan left (i + 1) d' m' l
        → IsScan (suc left) i d m (disk ∷ l)
