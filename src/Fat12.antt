-- ===== src/Fat12.antt =====
-- src/tools/fat.c: a program for the host that prints a file of a FAT12 disk image. `malloc` says whether a block of
-- that size is given; the blocks that it gives are functions from their indices to bytes.
mod Tests
pub mod Entries
pub mod Root
pub mod Clusters
use gensis32os.Prelude.{
  ltb, leb, ◌==◌, if◌then◌else◌, u16, u32, sub32, ◌<<<◌, ◌>>>◌, ℕ, zero, suc, ◌+◌, ◌-◌, ◌*◌, ◌/◌,
  ◌%◌, ◌^◌, bit_and, bit_or, Bool, true, false, ◌&&◌, ◌||◌, Option, none, some, List, [], ◌∷◌,
}

-- An open file of the host: its length and its bytes.
pub record Image : Type 0 where
  pub len : ℕ
  pub byte : ℕ → ℕ

-- The fields of `bios_header_t` that the program reads.
pub record Header : Type 0 where
  pub bytes_per_sector : ℕ
  pub sector_per_cluster : ℕ
  pub reserved_sector : ℕ
  pub fat_count : ℕ
  pub root_entries : ℕ
  pub sector_per_fat : ℕ

word_of : (ℕ → ℕ) → (at : ℕ) → ℕ
word_of b at = b at + b (at + 1) * 2 ^ 8

-- `sizeof(bios_header_t)`, which is packed, and the places of its fields.
abbrev pub header_size : ℕ
header_size = 62

pub read_boot_header : Image → Option Header
unfolding word_of
read_boot_header f =
    let header : Header = record {
      bytes_per_sector = word_of f.byte 11;
      sector_per_cluster = f.byte 13;
      reserved_sector = word_of f.byte 14;
      fat_count = f.byte 16;
      root_entries = word_of f.byte 17;
      sector_per_fat = word_of f.byte 22;
    } in
    if leb header_size f.len then some header else none

-- `readSector`: `fread` gives `count` items where the file has them all behind the position, and no item of no bytes.
pub read_sector : Header → Image → (lba count : ℕ) → Option (ℕ → ℕ)
read_sector h f lba count =
    let position = u32 (lba * h.bytes_per_sector) in
    if (leb (position + count * h.bytes_per_sector) f.len && ltb 0 h.bytes_per_sector) || count == 0
    then some (λ k. f.byte (position + k))
    else none

-- The bytes of directory entry `i`: the name, the number of the first cluster and the size of the file.
abbrev pub dirent_size : ℕ
dirent_size = 32

pub entry_byte : (ℕ → ℕ) → (i k : ℕ) → ℕ
entry_byte root i k = root (i * dirent_size + k)

pub cluster_no_low : (ℕ → ℕ) → (i : ℕ) → ℕ
unfolding entry_byte
cluster_no_low root i = entry_byte root i 26 + entry_byte root i 27 * 2 ^ 8

pub entry_size : (ℕ → ℕ) → (i : ℕ) → ℕ
unfolding entry_byte
entry_size root i =
    entry_byte root i 28
    + entry_byte root i 29 * 2 ^ 8
    + entry_byte root i 30 * 2 ^ 16
    + entry_byte root i 31 * 2 ^ 24

-- `memcmp(file_name, name, 11)==0`
pub same_name : (left : ℕ) → (name : ℕ → ℕ) → (ℕ → ℕ) → (i k : ℕ) → Bool
unfolding entry_byte
same_name zero name root i k = true
same_name (suc left) name root i k =
    (name k == entry_byte root i k) && same_name left name root i (k + 1)

-- The loop of `search_root` from entry `i` on; `some` is the index that it reports.
pub search_from : (left : ℕ) → (name : ℕ → ℕ) → (ℕ → ℕ) → (i : ℕ) → Option ℕ
unfolding same_name entry_byte
search_from zero name root i = none
search_from (suc left) name root i = elim (entry_byte root i 0 == 0) [
  | true ↦ none
  | false ↦ elim (same_name 11 name root i 0) [
    | true ↦ some i
    | false ↦ search_from left name root (i + 1)
  ]
]

pub search_root : Header → (file_name : ℕ → ℕ) → (ℕ → ℕ) → Option ℕ
unfolding search_from
search_root h name root = search_from h.root_entries name root 0

-- `cur_clust*1.5` is exact, and cut to a whole number.
pub next_cluster : (g_fat : ℕ → ℕ) → (cur_clust : ℕ) → ℕ
next_cluster fat cur =
    let off = u16 (cur * 3 / 2) in
    if cur % 2 == 0
    then bit_or (fat off) (bit_and (fat (off + 1)) 0x0f <<< 8)
    else bit_or (u16 (fat (off + 1) <<< 4)) (bit_and (fat off) 0xf0 >>> 4)

-- The bytes that `fread` puts at `start_loc`.
abbrev pub put_at : (got buf : ℕ → ℕ) → (start_loc n : ℕ) → ℕ → ℕ
put_at got buf start n x = if leb start x && ltb x (start + n) then got (x - start) else buf x

-- `do ... while (curr_cluster< 0xff8)`: `start_loc` is an index of `buf_out`, which has `room` bytes. The outer `none` is
-- fuel that runs out, or a read into less room than it fills, which writes behind the block; the inner one a sector
-- that is not read.
pub cluster_loop :
    (fuel : ℕ)
    → Header
    → Image
    → (g_fat : ℕ → ℕ) → (room addr start_loc curr_cluster : ℕ) → (buf_out : ℕ → ℕ)
    → Option (Option (ℕ → ℕ))
unfolding read_sector next_cluster
cluster_loop zero h f fat room addr start cur buf = none
cluster_loop (suc fuel) h f fat room addr start cur buf =
    let lba = u32 (addr + sub32 cur 2 * h.sector_per_cluster) in
    let cluster_bytes = h.sector_per_cluster * h.bytes_per_sector in
    let next = next_cluster fat cur in
    elim (leb (start + cluster_bytes) room) [
      | false ↦ none
      | true ↦ elim (read_sector h f lba h.sector_per_cluster) [
        | none ↦ some none
        | some got ↦
            let buf1 = put_at got buf start cluster_bytes in
            elim (ltb next 0xff8) [
              | false ↦ some (some buf1)
              | true ↦ cluster_loop fuel h f fat room addr (start + cluster_bytes) next buf1
            ]
      ]
    ]

-- What is printed: a byte and whether it is printed as it is.
pub is_print : ℕ → Bool
is_print b = leb 0x20 b && leb b 0x7e

pub print_loop : (left : ℕ) → (ℕ → ℕ) → (i : ℕ) → List (Bool × ℕ)
unfolding is_print
print_loop zero buf i = []
print_loop (suc left) buf i = (is_print (buf i), buf i) ∷ print_loop left buf (i + 1)

with_size : (dir_size : ℕ) → Option (ℕ → ℕ) → Option ((ℕ → ℕ) × ℕ)
with_size n none = none
with_size n (some root) = some (root, n)

module _ (malloc : (size : ℕ) → Bool) where
  pub read_fat : Header → Image → Option (ℕ → ℕ)
  unfolding read_sector
  read_fat h f =
      let count = h.fat_count * h.sector_per_fat in
      if malloc (u32 (count * h.bytes_per_sector))
      then read_sector h f h.reserved_sector count
      else none

  -- The entries and `dir_size`.
  pub read_root_dir : Header → Image → Option ((ℕ → ℕ) × ℕ)
  unfolding read_sector with_size
  read_root_dir h f =
      let lba = h.reserved_sector + h.fat_count * h.sector_per_fat in
      let dir_size = (dirent_size * h.root_entries + h.bytes_per_sector - 1) / h.bytes_per_sector in
      if malloc (h.root_entries * dirent_size)
      then with_size dir_size (read_sector h f lba dir_size)
      else none

  -- The result is that of the function with what it prints; the outer `none` is that of `cluster_loop`. `unset` is what the
  -- block for the file holds at first.
  pub read_file :
      (fuel : ℕ)
      → Header
      → Image
      → (g_fat root : ℕ → ℕ) → (dir_size : ℕ) → (file_name unset : ℕ → ℕ)
      → Option (Bool × List (Bool × ℕ))
  unfolding search_root cluster_loop print_loop
  read_file fuel h f fat root dir_size name unset = elim (search_root h name root) [
    | none ↦ some (false, [])
    | some index ↦
        let cluster_bytes = h.sector_per_cluster * h.bytes_per_sector in
        let size = entry_size root index in
        let addr = h.reserved_sector + h.fat_count * h.sector_per_fat + dir_size in
        let blocks = u32 (size + cluster_bytes + 2 ^ 32 - 1) / cluster_bytes in
        let room = u32 (cluster_bytes * blocks) in
        let loop = cluster_loop fuel h f fat room addr 0 (cluster_no_low root index) unset in
        elim (malloc room) [
          | false ↦ some (false, [])
          | true ↦ elim loop [
            | none ↦ none
            | some result ↦ elim result [
              | none ↦ some (false, [])
              | some buf ↦ some (true, print_loop size buf 0)
            ]
          ]
        ]
  ]

  -- `main` with its exit codes as they are written, less their sign; `argc` and the file that `fopen` gives.
  pub main :
      (fuel : ℕ) → (argc : ℕ) → Option Image → (target unset : ℕ → ℕ) → Option (ℕ × List (Bool × ℕ))
  unfolding read_boot_header read_fat read_root_dir search_root read_file
  main fuel argc opened name unset = elim (ltb argc 3) [
    | true ↦ some (1, [])
    | false ↦ elim opened [
      | none ↦ some (2, [])
      | some f ↦ elim (read_boot_header f) [
        | none ↦ some (3, [])
        | some h ↦ elim (read_fat h f) [
          | none ↦ some (4, [])
          | some fat ↦ elim (read_root_dir h f) [
            | none ↦ some (5, [])
            | some dir ↦ elim (search_root h name dir.0) [
              | none ↦ some (6, [])
              | some index ↦ elim (read_file fuel h f fat dir.0 dir.1 name unset) [
                | none ↦ none
                | some r ↦ some (if r.0 then (0, r.1) else (7, []))
              ]
            ]
          ]
        ]
      ]
    ]
  ]
