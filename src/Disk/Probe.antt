-- ===== src/Disk/Probe.antt =====
-- The rest of src/kernel/disk/disk.c: the search for disks at boot. `buf` is the address that the heap gave for
-- the identification; `motherlobe` is the list of the disks in its first entries.
pub mod Disks
use gensis32os.Prelude.{
  ◌==◌, if◌then◌else◌, u32, ◌<<<◌, ℕ, zero, suc, ◌+◌, ◌-◌, bit_or, Bool, true, false, ◌||◌, not,
  Option, none, some, List, [], ◌∷◌,
}
use gensis32os.Memory.{Mem, load16}
use gensis32os.Disk.{
  Disk, Ports, wait_while, is_busy, has, ata_wait, read_words, set_disk_info, with_size,
}

-- A new `struct disk` with only its type and code set.
abbrev pub new_disk : (ata_code : ℕ) → Disk
new_disk c = record {
  type = 0;
  ata_code = c;
  base_data_port = 0;
  control_port = 0;
  command_status_port = 0;
  head = 0;
  drive_head = 0;
  is_master = false;
  sect_size = 0;
  sect_count = 0;
}

-- `(uint32_t)(buf[61]<<16)|(uint32_t)buf[60]`
pub identified_size : Mem → (buf : ℕ) → ℕ
identified_size m buf = bit_or (u32 (load16 m (buf + 122) <<< 16)) (load16 m (buf + 120))

module _ {ℓ} {D : Type ℓ} (io : Ports D) where
  -- `n` reads of a port whose answers are dropped: the delay of the ATA protocol.
  pub delay : (n port : ℕ) → D → D
  delay zero port d = d
  delay (suc n) port d = delay n port (io.inb d port).1

  -- `(inb(port)&0x80) || !(inb(port)&0x08)`: the second read only when the first is not busy.
  pub not_offered : (port : ℕ) → D → Bool × D
  not_offered port d =
      let (s, e) = io.inb d port in
      elim (has s 0x80) [
        | true ↦ (true, e)
        | false ↦ let (s', e') = io.inb e port in (not (has s' 0x08), e')
      ]

  pub wait_offer : (port k : ℕ) → D → Bool × D
  wait_offer port zero d = let (waiting, e) = not_offered port d in (not waiting, e)
  wait_offer port (suc k) d =
      let (waiting, e) = not_offered port d in
      elim waiting [ true ↦ wait_offer port k e | false ↦ (true, e) ]

  -- `while(!(status & 0x08)) { status = inb(port); if(k==0) return NULL; k--; }`
  pub wait_status : (status port k : ℕ) → D → Bool × D
  wait_status s port zero d = elim (has s 0x08) [
    | true ↦ (true, d)
    | false ↦ (false, (io.inb d port).1)
  ]
  wait_status s port (suc k) d =
      let (s', e) = io.inb d port in
      elim (has s 0x08) [ true ↦ (true, d) | false ↦ wait_status s' port k e ]

  -- `if(--k==0) return` gives up one poll earlier than the loops of `wait_while`.
  pub get_disk_info : Disk → (command buf : ℕ) → D → Mem → D × Mem
  get_disk_info disk command buf d m =
      let base = disk.base_data_port in
      let port = disk.command_status_port in
      let d1 = io.outb d disk.control_port 0 in
      let d2 = io.outb d1 disk.head disk.drive_head in
      let d3 = delay 4 (base + 6) d2 in
      let (ready, d4) = wait_while io is_busy port (ata_wait - 1) d3 in
      elim ready [
        | false ↦ (d4, m)
        | true ↦
            let (offered, d5) = wait_offer port (ata_wait - 1) (io.outb d4 port command) in
            elim offered [ false ↦ (d5, m) | true ↦ read_words io 256 base buf d5 m ]
      ]

  -- Whether there is a disk with the code.
  pub check_disk : (ata_val : ℕ) → D → Bool × D
  check_disk ata_val d =
      let port_no = if has ata_val 0x02 then 0x170 else 0x1f0 in
      let drive = if has ata_val 0x01 then 0xb0 else 0xa0 in
      let d1 = io.outb (io.outb d (port_no + 0x206) 0x00) (port_no + 6) drive in
      let (stat, d2) = io.inb (delay 4 (port_no + 6) d1) (port_no + 7) in
      elim (stat == 0xff || stat == 0x00) [
        | true ↦ (false, d2)
        | false ↦
            let (ready, d3) = wait_while io is_busy (port_no + 7) ata_wait d2 in
            elim ready [
              | false ↦ (false, d3)
              | true ↦
                  let d4 = delay 4 (port_no + 6) (io.outb d3 (port_no + 7) 0xec) in
                  let (offered, d5) = wait_offer (port_no + 7) ata_wait d4 in
                  elim offered [
                    | false ↦ (false, d5)
                    | true ↦
                        let (status, d6) = io.inb d5 (port_no + 7) in
                        wait_status status (port_no + 7) ata_wait d6
                  ]
            ]
      ]

  -- What is done with a disk: its ports are set and it is asked for its size.
  pub set_up : Disk → (buf : ℕ) → D → Mem → Disk × (D × Mem)
  set_up disk buf d m =
      let wired = set_disk_info disk in
      let (e, m') = get_disk_info wired 0xec buf d m in
      (with_size wired (identified_size m' buf), (e, m'))

  -- `for(unsigned short i=0x81; i <0x84;i++)`
  pub search_disks : (left i buf : ℕ) → D → Mem → List Disk × (D × Mem)
  search_disks zero i buf d m = ([], (d, m))
  search_disks (suc left) i buf d m =
      let (found, d1) = check_disk i d in
      elim found [
        | false ↦ search_disks left (i + 1) buf d1 m
        | true ↦
            let (disk, (d2, m2)) = set_up (new_disk i) buf d1 m in
            let (rest, end) = search_disks left (i + 1) buf d2 m2 in (disk ∷ rest, end)
      ]

  pub disk_search_and_init : (g_boot_drive buf : ℕ) → D → Mem → List Disk × (D × Mem)
  disk_search_and_init g_boot_drive buf d m =
      let (disk1, (d1, m1)) = set_up (new_disk g_boot_drive) buf d m in
      let (rest, end) = search_disks 3 0x81 buf d1 m1 in (disk1 ∷ rest, end)

-- `motherlobe[index]`; an entry that the search did not fill is NULL.
pub get_disk : List Disk → (index : ℕ) → Option Disk
get_disk [] i = none
get_disk (disk ∷ rest) zero = some disk
get_disk (disk ∷ rest) (suc i) = get_disk rest i
