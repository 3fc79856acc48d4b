-- ===== src/Vfs.antt =====
-- src/kernel/file_syst/vfs.c, src/kernel/file_syst/hash.c and the search of the cache table in
-- src/kernel/file_syst/fat16.c. The table is the list of its entries from `cache_table_start` on, each with its
-- hash and a payload `E`.
mod Tests
pub mod Cache
use gensis32os.Prelude.{
  ltb, ◌==◌, if◌then◌else◌, neg, ℕ, zero, suc, ◌+◌, ◌-◌, ◌^◌, Option, none, some, List, [], ◌∷◌,
}

abbrev pub vfs_node_id_max : ℕ
vfs_node_id_max = 10000000

abbrev pub vfs_node_depletion_panic : ℕ
vfs_node_depletion_panic = 34

-- The initial value of `VFS_INODE_ID_COUNT`: -1 in a `uint32_t`.
abbrev pub vfs_inode_id_count : ℕ
vfs_inode_id_count = 2 ^ 32 - 1

-- `generate_vfs_node_id`: the result and the counter.
pub generate_vfs_node_id : (count : ℕ) → ℕ × ℕ
generate_vfs_node_id count =
    if ltb count vfs_node_id_max
    then (count + 1, count + 1)
    else (neg vfs_node_depletion_panic, count)

-- `generate_hash` and `generate_hast_start_end` are the same constant for every path.
abbrev pub generate_hash : (path : List ℕ) → ℕ
generate_hash path = 0

-- The loops of `mount_fat16`, `umount_fat16` and `is_present_in_cache_table`: the last entry with the hash.
pub is_present_in_cache_table {ℓ} : {E : Type ℓ} → List (ℕ × E) → (hash : ℕ) → Option (ℕ × E)
is_present_in_cache_table [] hash = none
is_present_in_cache_table (i ∷ rest) hash =
    let later = is_present_in_cache_table rest hash in
    elim later [ some e ↦ some e | none ↦ if i.0 == hash then some i else none ]

-- `search_cache_table`: `while (temp)` without a step to the next entry. The outer `none` is fuel that runs out.
pub search_cache_table {ℓ} :
    {E : Type ℓ} → (fuel : ℕ) → List (ℕ × E) → (hash_val : ℕ) → Option (Option (ℕ × E))
search_cache_table zero table hash = none
search_cache_table (suc f) [] hash = some none
search_cache_table (suc f) (temp ∷ rest) hash =
    let again = search_cache_table f (temp ∷ rest) hash in
    if temp.0 == hash then some (some temp) else again
