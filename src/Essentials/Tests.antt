-- ===== src/Essentials/Tests.antt =====
-- Runs of the memory routines.
use gensis32os.Prelude.{◌%◌, ◌≡◌}
use gensis32os.Memory.{Mem}
use gensis32os.Essentials.{memset, gen_memset}
use gensis32os.Essentials.Fill.{gen_memset-eq-memset}

-- Each byte holds the low byte of its address.
abbrev counting : Mem
counting a = a % 256

gen_memset-eq-memset_example : gen_memset counting 0x1001 0x141 70 ≡ memset counting 0x1001 0x141 70
gen_memset-eq-memset_example = gen_memset-eq-memset counting 0x1001 0x141 70
