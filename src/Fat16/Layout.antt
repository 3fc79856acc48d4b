-- ===== src/Fat16/Layout.antt =====
-- The regions of a volume that `fill_bpb` accepts.
use gensis32os.Prelude.Bits.{bit_or_fields}
use gensis32os.Prelude.{
  ne→not_==, Bool-cases, eq_or_ne, u16, u32, ℕ, ◌+◌, ◌-◌, ◌*◌, ◌/◌, ◌^◌, ◌≤◌, ◌<◌, ◌≡◌, refl, sym,
  ap, ◌∙◌, subst, ◌≢◌, ◌⊎◌, inl, inr, true, none, some, arith,
}
use mathlib.Core.Bool.{false≢true}
use gensis32os.Prelude.Division.{div_between}
use gensis32os.Memory.{Mem, IsBytes, load16}
use gensis32os.Fat16.{
  Bpb, get_2_bytes, is_sector_size, root_dir_count, fill_bpb, get_root_specific_fat16, bpb_of,
}

pub get_2_bytes-load16 : (m : Mem) (p : ℕ) → IsBytes m → get_2_bytes m p ≡ load16 m p
unfolding get_2_bytes load16
get_2_bytes-load16 m p h =
    ap u16 (bit_or_fields 8 (m (p + 1)) (m p) (h p)) ∙ omega (arith, h p, h (p + 1))

-- What the fields of a volume must satisfy: a sector of 512, 1024, 2048 or 4096 bytes and no zero count.
abbrev pub IsVolume : Mem → (buf : ℕ) → Type 0
IsVolume m buf =
    let bytes = load16 m (buf + 0x0b) in
    ((bytes ≡ 512) ⊎ (bytes ≡ 1024) ⊎ (bytes ≡ 2048) ⊎ (bytes ≡ 4096))
    × (m (buf + 0x0d) ≢ 0)
    × (m (buf + 0x10) ≢ 0)
    × (load16 m (buf + 0x16) ≢ 0)

is_sector_size-true :
    (n : ℕ) → is_sector_size n ≡ true → (n ≡ 512) ⊎ (n ≡ 1024) ⊎ (n ≡ 2048) ⊎ (n ≡ 4096)
unfolding is_sector_size
is_sector_size-true n e = elim (eq_or_ne n 512) [
  | inl a ↦ inl a
  | inr a ↦ elim (eq_or_ne n 1024) [
    | inl b ↦ inr (inl b)
    | inr b ↦ elim (eq_or_ne n 2048) [
      | inl c ↦ inr (inr (inl c))
      | inr c ↦ inr (inr (inr (ground (arith, e, a, b, c))))
    ]
  ]
]

is_sector_size-of :
    (n : ℕ) → (n ≡ 512) ⊎ (n ≡ 1024) ⊎ (n ≡ 2048) ⊎ (n ≡ 4096) → is_sector_size n ≡ true
unfolding is_sector_size
is_sector_size-of n (inl e) = ap is_sector_size e
is_sector_size-of n (inr (inl e)) = ap is_sector_size e
is_sector_size-of n (inr (inr (inl e))) = ap is_sector_size e
is_sector_size-of n (inr (inr (inr e))) = ap is_sector_size e

-- The fields of a boot sector, from the places where FAT16 has them, and the first sectors of the regions: each sum is
-- one of 32 bits.
pub record HasFields (m : Mem) (buf start_sect : ℕ) (b : Bpb) : Type 0 where
  pub bytes : b.bytes_per_sect ≡ load16 m (buf + 0x0b)
  pub per_cluster : b.sect_per_clust ≡ m (buf + 0x0d)
  pub reserved : b.reserved_sectors ≡ load16 m (buf + 0x0e)
  pub fats : b.fat_count ≡ m (buf + 0x10)
  pub entries : b.root_entry_count ≡ load16 m (buf + 0x11)
  pub per_fat : b.sectors_per_fat ≡ load16 m (buf + 0x16)
  pub fat : b.fat_lba ≡ u32 (start_sect + b.reserved_sectors)
  pub root : b.root_lba ≡ u32 (b.fat_lba + b.fat_count * b.sectors_per_fat)
  pub first_data :
      b.data_lba
      ≡ u32 (b.root_lba + (b.root_entry_count * 32 + (b.bytes_per_sect - 1)) / b.bytes_per_sect)

bpb_of-HasFields :
    (m : Mem) (buf start_sect : ℕ)
    → IsBytes m
    → HasFields m buf start_sect (bpb_of m buf start_sect)
unfolding bpb_of root_dir_count
bpb_of-HasFields m buf start_sect h = record {
  bytes = get_2_bytes-load16 m (buf + 0x0b) h;
  per_cluster = refl;
  reserved = get_2_bytes-load16 m (buf + 0x0e) h;
  fats = refl;
  entries = get_2_bytes-load16 m (buf + 0x11) h;
  per_fat = get_2_bytes-load16 m (buf + 0x16) h;
  fat = refl;
  root = refl;
  first_data = refl;
}

root_dir_count-bounds :
    (entries bytes : ℕ)
    → 1 ≤ bytes
    → (entries * 32 ≤ root_dir_count entries bytes * bytes)
      × (root_dir_count entries bytes * bytes < entries * 32 + bytes)
unfolding root_dir_count
root_dir_count-bounds entries bytes h =
    let n = entries * 32 + (bytes - 1) in
    let (low, high) = div_between n bytes h in
    let next : (n / bytes + 1) * bytes ≡ n / bytes * bytes + bytes = grind arith in
    (omega (arith, low, high, next), omega (arith, low))

-- The boot sector is accepted exactly when it describes a volume: a sector size of 512, 1024, 2048 or 4096 and
-- no zero in the sectors per cluster, the number of FATs and the sectors per FAT. The result then has the fields of the
-- boot sector and the first sectors of the FATs, of the root directory and of the data, in sums of 32 bits.
pub fill_bpb-cases :
    (m : Mem) (buf start_sect : ℕ)
    → IsBytes m
    → ((b : Bpb) × (fill_bpb m buf start_sect ≡ some b)
        × IsVolume m buf
        × HasFields m buf start_sect b)
      ⊎ ((fill_bpb m buf start_sect ≡ none) × (IsVolume m buf → ⊥))
unfolding fill_bpb
fill_bpb-cases m buf start_sect bytes =
    let size = get_2_bytes-load16 m (buf + 0x0b) bytes in
    let fats = get_2_bytes-load16 m (buf + 0x16) bytes in
    let ok = is_sector_size (get_2_bytes m (buf + 0x0b)) in
    elim (Bool-cases ok) [
      | inr e ↦
          inr (
            rw (e) refl,
            λ v. false≢true (sym e ∙ ap is_sector_size size ∙ is_sector_size-of _ v.0),
          )
      | inl e ↦ elim (eq_or_ne (m (buf + 0x0d)) 0) [
        | inl z ↦ inr (rw (e, z) refl, λ v. v.1 z)
        | inr nz ↦ elim (eq_or_ne (m (buf + 0x10)) 0) [
          | inl z ↦ inr (rw (e, ne→not_== _ _ nz, z) refl, λ v. v.2 z)
          | inr nf ↦ elim (eq_or_ne (get_2_bytes m (buf + 0x16)) 0) [
            | inl z ↦
                inr (rw (e, ne→not_== _ _ nz, ne→not_== _ _ nf, z) refl, λ v. v.3 (sym fats ∙ z))
            | inr np ↦ inl (
              bpb_of m buf start_sect,
              rw (e, ne→not_== _ _ nz, ne→not_== _ _ nf, ne→not_== _ _ np) refl,
              (
                is_sector_size-true _ (ap is_sector_size (sym size) ∙ e),
                nz,
                nf,
                λ q. np (fats ∙ q),
              ),
              bpb_of-HasFields m buf start_sect bytes,
            )
          ]
        ]
      ]
    ]

-- The regions of a volume that ends below sector 2^32 follow each other: the FATs after the reserved sectors,
-- the root directory after the FATs, and the data after just as many whole sectors as the entries of the root
-- directory need. `get_root_specific_fat16` is the start of the root directory within the partition.
pub bpb_of-regions :
    (m : Mem) (buf start_sect : ℕ)
    → let b = bpb_of m buf start_sect in
      1 ≤ b.bytes_per_sect
      → start_sect
          + b.reserved_sectors
          + b.fat_count * b.sectors_per_fat
          + root_dir_count b.root_entry_count b.bytes_per_sect
        < 2 ^ 32
      → (b.fat_lba ≡ start_sect + b.reserved_sectors)
        × (b.root_lba ≡ b.fat_lba + b.fat_count * b.sectors_per_fat)
        × (b.root_entry_count * 32 ≤ (b.data_lba - b.root_lba) * b.bytes_per_sect)
        × ((b.data_lba - b.root_lba) * b.bytes_per_sect
            < b.root_entry_count * 32 + b.bytes_per_sect)
        × (start_sect + get_root_specific_fat16 b ≡ b.root_lba)
unfolding bpb_of get_root_specific_fat16
bpb_of-regions m buf start_sect one fits =
    let bytes = get_2_bytes m (buf + 0x0b) in
    let reserved = get_2_bytes m (buf + 0x0e) in
    let region = m (buf + 0x10) * get_2_bytes m (buf + 0x16) in
    let n = root_dir_count (get_2_bytes m (buf + 0x11)) bytes in
    let (low, high) = root_dir_count-bounds (get_2_bytes m (buf + 0x11)) bytes one in
    let dir : u32 (u32 (u32 (start_sect + reserved) + region) + n)
          - u32 (u32 (start_sect + reserved) + region)
        ≡ n =
      omega (arith, fits) in
    (
      omega (arith, fits),
      omega (arith, fits),
      subst (λ k. get_2_bytes m (buf + 0x11) * 32 ≤ k * bytes) (sym dir) low,
      subst (λ k. k * bytes < get_2_bytes m (buf + 0x11) * 32 + bytes) (sym dir) high,
      omega (arith, fits),
    )
