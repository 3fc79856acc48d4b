-- ===== src/DiskStream/Tests.antt =====
-- A run of the stream over a readable disk.
use gensis32os.Prelude.{
  ltb, leb, if◌then◌else◌, ℕ, ◌+◌, ◌-◌, ◌*◌, ◌%◌, ◌≤◌, ◌<◌, ◌≡◌, refl, ◌⊎◌, inr, ◌&&◌, arith,
}
use gensis32os.Memory.{Mem}
use gensis32os.DiskStream.{DiskStream, get_bytes_from_disk}
use gensis32os.DiskStream.Bytes.{Reads, get_bytes_from_disk-at}

abbrev medium : ℕ → ℕ
medium k = k % 251

-- Sector `lba` is put to the page at 0x1000; the state counts the reads.
abbrev read : (lba : ℕ) → ℕ → Mem → ℕ × (ℕ × Mem)
read lba s m = (
  0,
  (s + 1, λ a. if leb 0x1000 a && ltb a 0x1200 then medium (lba * 512 + (a - 0x1000)) else m a),
)

read-Reads : Reads read medium 0x1000 (1000 + 600)
read-Reads lba s m h = (refl, λ k p. ground arith, λ x p. ground arith)

abbrev at_1000 : DiskStream
at_1000 = record { pos = 1000 }

abbrev blank : Mem
blank a = 0

get_bytes_from_disk-at_example :
    let (_, m') = get_bytes_from_disk read at_1000 600 0x4000 0x1000 0 blank in
    ((k : ℕ) → k < 600 → m' (0x4000 + k) ≡ medium (1000 + k))
    × ((x : ℕ)
        → (x < 0x4000) ⊎ (0x4000 + 600 ≤ x)
        → (x < 0x1000) ⊎ (0x1000 + 512 ≤ x)
        → m' x ≡ blank x)
get_bytes_from_disk-at_example =
    get_bytes_from_disk-at read medium at_1000 600 0x4000 0x1000 0 blank read-Reads (omega arith)
      (inr (omega arith))
