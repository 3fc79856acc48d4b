-- ===== src/Disk/Tests.antt =====
-- Runs of the driver on a small drive that is always ready; the LBA bit and the bit of the drive must be as it wants them.
use gensis32os.Prelude.{
  ◌==◌, if◌then◌else◌, ℕ, ◌+◌, ◌-◌, ◌*◌, ◌/◌, ◌%◌, ◌^◌, ◌≤◌, ◌<◌, bit_and, ◌≡◌, refl, ◌≢◌, Bool,
  true, false, ◌&&◌, List, [], ◌∷◌, ◌++◌, arith,
}
use gensis32os.Memory.{Mem}
use gensis32os.Disk.{
  Disk, Ports, read_disk_block, write_with, write_disk_block, send_command, select, send_address,
  wait_while, write_sectors, failed, write_words, out_of_range,
}
use gensis32os.Disk.Drive.{AtaDrive}
use gensis32os.Disk.Results.{IsReadResult, OnlyWithin, read_disk_block-result}
use gensis32os.Disk.Sent.{Receives, words_at, write_disk_block-Sent}

-- The task file, the words to deliver and how many they are.
record Drive : Type 0 where
  regs : ℕ → ℕ
  left : ℕ
  words : ℕ → ℕ

abbrev medium : (lba word : ℕ) → ℕ
medium lba word = (lba * 256 + word) % 2 ^ 16

-- The device register has the LBA bit and names the master.
abbrev is_addressed : Drive → Bool
is_addressed d = (d.regs 6 / 64 % 2 == 1) && (d.regs 6 / 16 % 2 == 0)

abbrev loaded : Drive → Drive
loaded d = record {
  regs = d.regs;
  left = if is_addressed d then 256 * (if d.regs 2 == 0 then 256 else d.regs 2) else 0;
  words = λ j.
      medium (d.regs 3 + d.regs 4 * 2 ^ 8 + d.regs 5 * 2 ^ 16 + d.regs 6 % 16 * 2 ^ 24 + j / 256)
        (j % 256);
}

-- The identification, with the size 1000 in its word 60.
abbrev identified : Drive → Drive
identified d = record { regs = d.regs; left = 256; words = λ j. if j == 60 then 1000 else 0 }

abbrev set_reg : Drive → (port v : ℕ) → Drive
set_reg d port v = record {
  regs = λ i. if 0x1f0 + i == port then v else d.regs i;
  left = d.left;
  words = d.words;
}

abbrev ports : Ports Drive
ports = record {
  inb = λ d port. ((if d.left == 0 then 0x50 else 0x58), d);
  in16 = λ d port. (
    d.words 0 % 2 ^ 16,
    record { regs = d.regs; left = d.left - 1; words = λ j. d.words (j + 1) },
  );
  outb = λ d port v.
      if port == 0x1f7
      then (if v == 0x20 then loaded d else if v == 0xec then identified d else d)
      else set_reg d port v;
  out16 = λ d port w. d;
}

idle_status : (t : Bool) → bit_and (if t then 0x50 else 0x58) 0x80 ≡ 0
idle_status true = refl
idle_status false = refl

data_status : (n : ℕ) → 1 ≤ n → bit_and (if n == 0 then 0x50 else 0x58) 0x88 ≡ 0x08
data_status n h = ground arith

error_status : (t : Bool) → bit_and (if t then 0x50 else 0x58) 0x01 ≡ 0
error_status true = refl
error_status false = refl

fault_status : (t : Bool) → bit_and (if t then 0x50 else 0x58) 0x20 ≡ 0
fault_status true = refl
fault_status false = refl

set_reg_self : (d : Drive) (r v : ℕ) → r ≤ 6 → (ports.outb d (0x1f0 + r) v).regs r ≡ v
set_reg_self d r v h = ground arith

set_reg-ne :
    (d : Drive) (r v i : ℕ) → r ≤ 6 → i ≢ r → (ports.outb d (0x1f0 + r) v).regs i ≡ d.regs i
set_reg-ne d r v i h ne = ground arith

loaded-left :
    (d : Drive)
    → d.regs 6 / 64 % 2 ≡ 1
    → d.regs 6 / 16 % 2 ≡ 0
    → (loaded d).left ≡ 256 * (if d.regs 2 == 0 then 256 else d.regs 2)
loaded-left d h k = ground (arith, h, k)

abbrev drive : AtaDrive ports 0x1f0 100000
drive = record {
  slave = 0;
  reg = λ d. d.regs;
  sound = λ d. Unit {0};
  readable = λ lba. lba < 1000;
  busy = λ d. 0;
  requested = λ d. d.left;
  pending = λ d j. d.words j % 2 ^ 16;
  sector = medium;
  busy-le = λ d. omega arith;
  pending-lt = λ d j. omega arith;
  inb-busy = λ d. refl;
  inb-reg = λ d r. refl;
  inb-pending = λ d j. refl;
  inb-requested = λ d. refl;
  status_idle = λ d b. idle_status (d.left == 0);
  status_data = λ d s b h. data_status d.left h;
  status_err = λ d s. error_status (d.left == 0);
  status_fault = λ d s. fault_status (d.left == 0);
  inb-sound = λ d s. s;
  in16-sound = λ d s. s;
  outb-sound = λ d r v p q s. s;
  outb-reg_self = λ d r v p q. set_reg_self d r v q;
  outb-reg_ne = λ d r v i p q ne. set_reg-ne d r v i q ne;
  in16-word = λ d h. refl;
  in16-pending = λ d j. refl;
  in16-requested = λ d. refl;
  read-sound = λ d h k s r. s;
  read-requested = λ d h k. loaded-left d h k;
  read-pending = λ d j h k. omega arith;
}

abbrev idle : Drive
idle = record { regs = λ r. 0; left = 0; words = λ j. 0 }

abbrev ram : Mem
ram a = 0

abbrev small_disk : Disk
small_disk = record {
  type = 0;
  ata_code = 0x80;
  base_data_port = 0x1f0;
  control_port = 0x3f6;
  command_status_port = 0x1f7;
  head = 0x1f6;
  drive_head = 0xa0;
  is_master = true;
  sect_size = 512;
  sect_count = 1000;
}

read_disk_block-result_example :
    let (r, (_, m')) = read_disk_block ports small_disk 5 2 0x9000 idle ram in
    IsReadResult r × OnlyWithin ram m' 0x9000 (0x9000 + 2 * 512)
read_disk_block-result_example = read_disk_block-result ports small_disk 5 2 0x9000 idle ram

-- A drive that takes every word and remembers it.
abbrev recorder : Ports (List ℕ)
recorder = record {
  inb = λ d port. (0x58, d);
  in16 = λ d port. (0, d);
  outb = λ d port v. d;
  out16 = λ d port w. d ++ (w ∷ []);
}

abbrev recorded : Receives recorder 0x1f0
recorded = record {
  received = λ d. d;
  inb-kept = λ d port. refl;
  outb-kept = λ d port v. refl;
  out16-added = λ d w. refl;
}

recorder-ok : (write_disk_block recorder small_disk 5 1 0x9000 [] ram).0 ≡ 0
unfolding write_disk_block write_with send_command select send_address wait_while write_sectors
    failed write_words out_of_range
recorder-ok = refl

write_disk_block-Sent_example :
    (write_disk_block recorder small_disk 5 1 0x9000 [] ram).1 ≡ [] ++ words_at (1 * 256) ram 0x9000
write_disk_block-Sent_example =
    write_disk_block-Sent recorder small_disk recorded 5 1 0x9000 [] ram recorder-ok
