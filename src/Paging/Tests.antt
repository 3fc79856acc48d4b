-- ===== src/Paging/Tests.antt =====
-- Runs of the paging code on a directory at 0x1000.
use gensis32os.Prelude.{u32, ℕ, ◌+◌, ◌*◌, ◌<◌, bit_and, ◌≡◌, ◌≢◌, inl, none, some, arith}
use gensis32os.Memory.{Mem, load32}
use gensis32os.Paging.{entry_of, set_dir_entry}
use gensis32os.Paging.Walk.{entry_flags, set_dir_entry-maps, set_dir_entry-shifts}

abbrev blank : Mem
blank a = 0

set_dir_entry-maps_example :
    let (m', offset') = set_dir_entry 0x1000 3 2 0x800000 (some 0x5000, blank) in
    (offset' ≡ u32 (0x800000 + 0x400000))
    × (bit_and (load32 m' (0x1000 + 4 * 2)) 0xfffff000 ≡ 0x5000)
    × (load32 m' (0x1000 + 4 * 2) ≡ 0x5000 + entry_flags 3)
    × (bit_and (entry_flags 3) 3 ≡ 3)
    × ((k : ℕ)
        → k < 1024
        → (load32 m' (0x5000 + 4 * k) ≡ entry_of (u32 (0x800000 + k * 4096)) 3)
          × (load32 m' (0x5000 + 4 * k) ≡ u32 (0x800000 + k * 4096) + entry_flags 3))
set_dir_entry-maps_example =
    set_dir_entry-maps blank 0x1000 3 2 0x800000 0x5000 (omega arith) (omega arith) (omega arith)
      (omega arith) (inl (omega arith))

set_dir_entry-shifts_example :
    let (m1, offset1) = set_dir_entry 0x1000 3 2 (2 * 0x400000) (none, blank) in
    let (m3, offset3) = set_dir_entry 0x1000 3 (2 + 1) offset1 (some 0x5000, blank) in
    (load32 m1 (0x1000 + 4 * 2) ≡ 0)
    × (load32 m3 (0x5000 + 4 * 7) ≡ entry_of (2 * 0x400000 + 7 * 4096) 3)
    × (load32 m3 (0x5000 + 4 * 7) ≢ entry_of ((2 + 1) * 0x400000 + 7 * 4096) 3)
set_dir_entry-shifts_example =
    set_dir_entry-shifts blank blank 0x1000 3 2 0x5000 7 (omega arith) (omega arith)
      (inl (omega arith)) (omega arith) (omega arith)
