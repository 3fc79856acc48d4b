-- ===== src/Disk.antt =====
-- src/kernel/disk/disk.c and src/kernel/disk/disk.h: the ATA driver. The drive is a state `D` behind the port
-- instructions of src/kernel/io/io.asm, which the record `Ports` holds; `print` is left out.
mod Tests
pub mod Drive
pub mod Ready
pub mod Results
pub mod Probe
pub mod Sent
use gensis32os.Prelude.{
  ltb, ◌==◌, if◌then◌else◌, u32, ◌>>>◌, neg, ℕ, zero, suc, ◌+◌, ◌*◌, bit_and, bit_or, Bool, true,
  false, not,
}
use gensis32os.Memory.{Mem, load16, store16}

-- `struct disk`, without the list of its partitions.
pub record Disk : Type 0 where
  pub type : ℕ
  pub ata_code : ℕ
  pub base_data_port : ℕ
  pub control_port : ℕ
  pub command_status_port : ℕ
  pub head : ℕ
  pub drive_head : ℕ
  pub is_master : Bool
  pub sect_size : ℕ
  pub sect_count : ℕ

-- `inb`, `in16`, `outb` and `out16`: what a port instruction answers and does to the drive.
pub record Ports {ℓ} (D : Type ℓ) : Type ℓ where
  pub inb : D → (port : ℕ) → ℕ × D
  pub in16 : D → (port : ℕ) → ℕ × D
  pub outb : D → (port byte : ℕ) → D
  pub out16 : D → (port word : ℕ) → D

abbrev pub ata_wait : ℕ
ata_wait = 100000

abbrev pub gen32_invarg : ℕ
gen32_invarg = 2

abbrev pub timeout : ℕ
timeout = 5

abbrev pub disk_write_err : ℕ
disk_write_err = 6

abbrev pub disk_read_err : ℕ
disk_read_err = 9

-- Whether the status byte has the bit of the mask.
abbrev pub has : (status mask : ℕ) → Bool
has s k = not (bit_and s k == 0)

pub set_disk_info : Disk → Disk
set_disk_info d =
    let base = if has d.ata_code 0x02 then 0x170 else 0x1f0 in
    let drive = if has d.ata_code 0x01 then 0xb0 else 0xa0 in
    record {
      type = d.type;
      ata_code = d.ata_code;
      base_data_port = base;
      control_port = base + 0x206;
      command_status_port = base + 0x07;
      head = base + 0x6;
      drive_head = drive;
      is_master = not (has drive 0x10);
      sect_size = d.sect_size;
      sect_count = d.sect_count;
    }

-- `sect_count` set to what the drive reported and `sect_size` to 512.
pub with_size : Disk → (sect_count : ℕ) → Disk
with_size d n = record {
  type = d.type;
  ata_code = d.ata_code;
  base_data_port = d.base_data_port;
  control_port = d.control_port;
  command_status_port = d.command_status_port;
  head = d.head;
  drive_head = d.drive_head;
  is_master = d.is_master;
  sect_size = 512;
  sect_count = n;
}

abbrev pub is_busy : ℕ → Bool
is_busy s = has s 0x80

abbrev pub no_data : ℕ → Bool
no_data s = not (bit_and s 0x88 == 0x08)

-- `lba+total > disk_p->sect_count`, the sum formed in 32 bits.
unfoldable pub out_of_range : Disk → (lba total : ℕ) → Bool
out_of_range disk lba total = ltb disk.sect_count (u32 (lba + total))

module _ {ℓ} {D : Type ℓ} (io : Ports D) where
  -- `while(test(inb(port))) { if(k==0) return -TIMEOUT; k--; }`: whether the loop ended before the timeout.
  pub wait_while : (test : ℕ → Bool) → (port k : ℕ) → D → Bool × D
  wait_while test port zero d = let (s, e) = io.inb d port in (not (test s), e)
  wait_while test port (suc k) d =
      let (s, e) = io.inb d port in
      elim (test s) [ true ↦ wait_while test port k e | false ↦ (true, e) ]

  -- `(inb(base+7)&0x01) || (inb(base+7)&0x20)`: the second read only if the first has no error.
  pub failed : (base : ℕ) → D → Bool × D
  failed base d =
      let (s, e) = io.inb d (base + 7) in
      elim (has s 0x01) [
        | true ↦ (true, e)
        | false ↦ let (s', e') = io.inb e (base + 7) in (has s' 0x20, e')
      ]

  -- `cur_start[j] = in16(base)` for the next `left` words.
  pub read_words : (left : ℕ) → (base cur : ℕ) → D → Mem → D × Mem
  read_words zero base cur d m = (d, m)
  read_words (suc left) base cur d m =
      let (w, e) = io.in16 d base in read_words left base (cur + 2) e (store16 m cur w)

  pub write_words : (left : ℕ) → (base cur : ℕ) → D → Mem → D
  write_words zero base cur d m = d
  write_words (suc left) base cur d m =
      write_words left base (cur + 2) (io.out16 d base (load16 m cur)) m

  -- The loop of `read_disk_block` over the sectors that are left.
  pub read_sectors : (left wait words : ℕ) → (base cur : ℕ) → D → Mem → ℕ × (D × Mem)
  read_sectors zero wait words base cur d m = (0, (d, m))
  read_sectors (suc left) wait words base cur d m =
      let (ready, d1) = wait_while no_data (base + 7) wait d in
      elim ready [
        | false ↦ (neg timeout, (d1, m))
        | true ↦
            let (bad, d2) = failed base d1 in
            elim bad [
              | true ↦ (disk_read_err, (d2, m))
              | false ↦
                  let (d3, m3) = read_words words base cur d2 m in
                  read_sectors left wait words base (cur + words * 2) d3 m3
            ]
      ]

  pub write_sectors : (left wait words : ℕ) → (base cur : ℕ) → D → Mem → ℕ × D
  write_sectors zero wait words base cur d m = (0, d)
  write_sectors (suc left) wait words base cur d m =
      let (ready, d1) = wait_while no_data (base + 7) wait d in
      elim ready [
        | false ↦ (neg timeout, d1)
        | true ↦
            let (bad, d2) = failed base d1 in
            elim bad [
              | true ↦ (disk_write_err, d2)
              | false ↦
                  write_sectors left wait words base (cur + words * 2)
                    (write_words words base cur d2 m) m
            ]
      ]

  -- The head register: `0xe0|((lba>>24)&0x0f)` for a master, `0xf0|...` for a slave.
  pub select : Disk → (lba : ℕ) → D → D
  select disk lba d =
      io.outb d (disk.base_data_port + 6)
        (bit_or (if disk.is_master then 0xe0 else 0xf0) (bit_and (lba >>> 24) 0x0f))

  -- The count and the address.
  pub send_address : (base lba total : ℕ) → D → D
  send_address base lba total d =
      let d1 = io.outb d (base + 2) (bit_and total 0xff) in
      let d2 = io.outb d1 (base + 3) (bit_and lba 0xff) in
      let d3 = io.outb d2 (base + 4) (bit_and (lba >>> 8) 0xff) in
      io.outb d3 (base + 5) (bit_and (lba >>> 16) 0xff)

  -- Both operations up to the command: the drive is selected, told the address and given the command;
  -- whether the two waits before it ended in time.
  pub send_command : (wait : ℕ) → Disk → (lba total command : ℕ) → D → Bool × D
  send_command wait disk lba total command d =
      let base = disk.base_data_port in
      let (r1, d1) = wait_while is_busy (base + 7) wait (select disk lba d) in
      elim r1 [
        | false ↦ (false, d1)
        | true ↦
            let (r2, d2) = wait_while is_busy (base + 7) wait (send_address base lba total d1) in
            elim r2 [ false ↦ (false, d2) | true ↦ (true, io.outb d2 (base + 7) command) ]
      ]

  pub read_with : (wait words : ℕ) → Disk → (lba total buf : ℕ) → D → Mem → ℕ × (D × Mem)
  read_with wait words disk lba total buf d m = elim (out_of_range disk lba total) [
    | true ↦ (neg gen32_invarg, (d, m))
    | false ↦
        let base = disk.base_data_port in
        let (sent, d1) = send_command wait disk lba total 0x20 d in
        elim sent [
          | false ↦ (neg timeout, (d1, m))
          | true ↦
              let (ready, d2) = wait_while is_busy (base + 7) wait d1 in
              elim ready [
                | false ↦ (neg timeout, (d2, m))
                | true ↦ read_sectors total wait words base buf d2 m
              ]
        ]
  ]

  pub read_disk_block : Disk → (lba total buf : ℕ) → D → Mem → ℕ × (D × Mem)
  read_disk_block = read_with ata_wait 256

  pub write_with : (wait words : ℕ) → Disk → (lba total buf : ℕ) → D → Mem → ℕ × D
  write_with wait words disk lba total buf d m = elim (out_of_range disk lba total) [
    | true ↦ (neg gen32_invarg, d)
    | false ↦
        let base = disk.base_data_port in
        let (sent, d1) = send_command wait disk lba total 0x30 d in
        elim sent [
          | false ↦ (neg timeout, d1)
          | true ↦
              let (r, d2) = write_sectors total wait words base buf d1 m in
              elim (r == 0) [
                | false ↦ (r, d2)
                | true ↦
                    let (ready, d3) = wait_while is_busy (base + 7) wait d2 in
                    elim ready [
                      | false ↦ (neg timeout, d3)
                      | true ↦
                          let (bad, d4) = failed base d3 in
                          (elim bad [ true ↦ disk_write_err | false ↦ 0 ], d4)
                    ]
              ]
        ]
  ]

  pub write_disk_block : Disk → (lba total buf : ℕ) → D → Mem → ℕ × D
  write_disk_block = write_with ata_wait 256
