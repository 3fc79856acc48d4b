-- ===== src/Partitions/Entries.antt =====
-- Which partitions a table yields.
use mathlib.Core.List.{append_assoc}
use mathlib.Core.List.{append-nil}
use gensis32os.Prelude.Bits.{bit_or_comm, bit_or_fields}
use gensis32os.Prelude.{
  if◌then◌else◌, Bool-cases, eq_or_ne, ◌<<<◌, ℕ, zero, suc, ◌+◌, ◌-◌, ◌*◌, ◌^◌, ◌≤◌, ◌<◌, bit_or,
  ◌≡◌, refl, sym, ap, ◌∙◌, ◌≢◌, ◌↔◌, ◌⊎◌, inl, inr, Bool, true, false, List, [], ◌∷◌, ◌++◌, arith,
}
use mathlib.Core.Bool.{false≢true}
use gensis32os.Memory.{Mem, IsBytes, load32}
use gensis32os.Disk.{Disk}
use gensis32os.Partitions.{
  Partition, get32, keeps, mbr_loop, entry_at, entry_loop, check_mbr, create_linked_list, fix_vbr,
}

-- The four bytes are those of a little-endian number.
pub get32-load32 : (m : Mem) (ptr : ℕ) → IsBytes m → get32 m ptr ≡ load32 m ptr
unfolding get32 load32
get32-load32 m p h =
    let b0 = m p in
    let b1 = m (p + 1) in
    let b2 = m (p + 2) in
    let b3 = m (p + 3) in
    let one : bit_or b0 (b1 <<< 8) ≡ b0 + b1 * 2 ^ 8 =
      bit_or_comm b0 (b1 <<< 8) ∙ bit_or_fields 8 b1 b0 (h p) ∙ omega arith in
    let two : bit_or (b0 + b1 * 2 ^ 8) (b2 <<< 16) ≡ b0 + b1 * 2 ^ 8 + b2 * 2 ^ 16 =
      bit_or_comm (b0 + b1 * 2 ^ 8) (b2 <<< 16)
      ∙ bit_or_fields 16 b2 (b0 + b1 * 2 ^ 8) (omega (arith, h p, h (p + 1)))
      ∙ omega arith in
    let three =
      bit_or_comm (b0 + b1 * 2 ^ 8 + b2 * 2 ^ 16) (b3 <<< 24)
      ∙ bit_or_fields 24 b3 (b0 + b1 * 2 ^ 8 + b2 * 2 ^ 16)
          (omega (arith, h p, h (p + 1), h (p + 2))) in
    ap (λ x. bit_or (bit_or x (b2 <<< 16)) (b3 <<< 24)) one
    ∙ ap (λ x. bit_or x (b3 <<< 24)) two
    ∙ three
    ∙ omega arith

-- An entry is kept exactly when it has sectors and either ends inside the disk or its end is past 2^32 and
-- wraps to a sector inside the disk.
pub keeps_iff :
    (disk : Disk) (p : Partition)
    → p.start_sect < 2 ^ 32
    → p.sect_num < 2 ^ 32
    → (keeps disk p ≡ true) ↔ (
        (1 ≤ p.sect_num)
        × ((p.start_sect + p.sect_num ≤ disk.sect_count)
            ⊎ ((2 ^ 32 ≤ p.start_sect + p.sect_num)
                × (p.start_sect + p.sect_num - 2 ^ 32 ≤ disk.sect_count))))
unfolding keeps
keeps_iff disk p h k = (λ e. ground arith, λ e. ground arith)

-- The elements that pass a test, in order.
pub filter {ℓ} : {A : Type ℓ} → (A → Bool) → List A → List A
filter p [] = []
filter p (x ∷ xs) = let rest = filter p xs in if p x then x ∷ rest else rest

-- The entries of a table from one on.
pub entries : (left : ℕ) → Mem → (entry : ℕ) → List Partition
entries zero m e = []
entries (suc left) m e = entry_at m e ∷ entries left m (e + 16)

mbr_loop-false :
    (left : ℕ) (m : Mem) (entry : ℕ)
    → mbr_loop left m entry ≡ false
    → (i : ℕ) → i < left
    → m (entry + 16 * i + 4) ≡ 0
unfolding mbr_loop
mbr_loop-false zero m entry e i h = absurd (omega arith)
mbr_loop-false (suc left) m entry e i h = elim (eq_or_ne i 0) [
  | inl z ↦ ground (arith, z)
  | inr ne ↦
      ap m (omega (arith, ne))
      ∙ mbr_loop-false left m (entry + 16) (ground arith) (i - 1) (omega (arith, ne))
]

entry_loop-filter :
    (left : ℕ) (m : Mem) (disk : Disk) (entry : ℕ) (l : List Partition)
    → entry_loop left m disk entry l ≡ l ++ filter (keeps disk) (entries left m entry)
unfolding entry_loop filter entries
entry_loop-filter zero m disk entry l = sym (append-nil l)
entry_loop-filter (suc left) m disk entry l =
    let cur = entry_at m entry in
    let rest = entry_loop-filter left m disk (entry + 16) in
    elim (Bool-cases (keeps disk cur)) [
      | inl e ↦ rw (e) (
          rest (l ++ (cur ∷ []))
          ∙ append_assoc l (cur ∷ []) (filter (keeps disk) (entries left m (entry + 16))))
      | inr e ↦ rw (e) (rest l)
    ]

mbr_loop-true :
    (left : ℕ) (m : Mem) (entry : ℕ)
    → mbr_loop left m entry ≡ true
    → (i : ℕ) × (i < left) × (m (entry + 16 * i + 4) ≢ 0)
unfolding mbr_loop
mbr_loop-true zero m entry e = absurd (false≢true e)
mbr_loop-true (suc left) m entry e = elim (eq_or_ne (m (entry + 4)) 0) [
  | inl z ↦
      let (i, h, ne) = mbr_loop-true left m (entry + 16) (ground (arith, z)) in
      (i + 1, omega (arith, h), λ q. ne (ap m (omega arith) ∙ q))
  | inr ne ↦ (0, omega arith, λ q. ne (ap m (omega arith) ∙ q))
]

-- A table none of whose entries has a type byte is taken as a boot sector: the list is one partition, the
-- whole disk from sector 0. Any other table gives those of its four entries that `keeps` accepts, in order.
pub create_linked_list-cases :
    (m : Mem) (disk : Disk) (buf table fat12 fat16 fat32 : ℕ)
    → let l = create_linked_list m disk buf table fat12 fat16 fat32 in
      (((i : ℕ) × (i < 4) × (m (table + 16 * i + 4) ≢ 0))
        × (l ≡ filter (keeps disk) (entries 4 m table)))
      ⊎ (((i : ℕ) → i < 4 → m (table + 16 * i + 4) ≡ 0)
          × (p : Partition) × (l ≡ p ∷ [])
          × (p.start_sect ≡ 0)
          × (p.sect_num ≡ disk.sect_count))
unfolding create_linked_list check_mbr fix_vbr
create_linked_list-cases m disk buf table fat12 fat16 fat32 =
    elim (Bool-cases (mbr_loop 4 m table)) [
      | inl e ↦ inl (mbr_loop-true 4 m table e, rw (e) (entry_loop-filter 4 m disk table []))
      | inr e ↦ inr (
        mbr_loop-false 4 m table e,
        fix_vbr m buf fat12 fat16 fat32 disk,
        rw (e) refl,
        refl,
        refl,
      )
    ]
