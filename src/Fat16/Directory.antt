-- ===== src/Fat16/Directory.antt =====
-- src/kernel/file_syst/fat16.c: read_cluster_find_match, which looks for a name in a directory.
use gensis32os.Prelude.{
  ltb, ◌==◌, if◌then◌else◌, ℕ, zero, suc, ◌+◌, ◌/◌, ◌^◌, true, false, ◌||◌, Option, none, some,
}
use gensis32os.Memory.{Mem}
use gensis32os.Strings.{strncmp}
use gensis32os.Essentials.{memcpy}
use gensis32os.Fat16.Device.{BlockDevice}
use gensis32os.Fat16.Files.{Volume, VfsNode, File, cluster_size, read_fat16}
use gensis32os.Fat16.Tables.{Tables, cte_mount_pnt, cte_root, cte_dir}

abbrev pub fat16_dirent_size : ℕ
fat16_dirent_size = 32

abbrev pub file_name_len_max : ℕ
file_name_len_max = 8

-- The loop over the entries of a cluster, from `target_name` on.
unfoldable pub match_loop : (left : ℕ) → Mem → (target_name f_name : ℕ) → Option ℕ
match_loop zero m target f = none
match_loop (suc left) m target f = elim (strncmp m target f file_name_len_max == 0) [
  | true ↦ some target
  | false ↦ match_loop left m (target + fat16_dirent_size) f
]

-- The file that `read_cluster_find_match` reads the directory with.
abbrev pub directory : VfsNode → (offset : ℕ) → File
directory node o = record { node = node; flags = 0x1; offset = o }

-- The node that an entry for a directory stands for.
abbrev pub directory_node : Tables → (ct : ℕ) → VfsNode
directory_node t ct =
    let e = t.cache ct in
    let at =
      if e.content_type == cte_mount_pnt || e.content_type == cte_root
      then (t.mounts e.content).fs_root_node
      else e.content in
    (t.nodes at).node

-- How often the loop over the clusters goes round: `node->size/cluster_size` is compared as an `int`.
abbrev pub cluster_rounds : (size cluster_size : ℕ) → ℕ
cluster_rounds size c = if ltb (size / c) (2 ^ 31) then size / c else 0

module _ {ℓ} {D : Type ℓ} (dev : BlockDevice D) where
  -- The loop over the clusters; `fuel`, `single` and `cluster_temp` are those of `read_fat16`.
  unfoldable pub find_loop :
      (left fuel : ℕ)
      → Volume
      → (single cluster_temp : ℕ) → File
      → (buffer f_name fill_val : ℕ) → D
      → Mem
      → Option (ℕ × (D × Mem))
  unfolding match_loop
  find_loop zero fuel v single cluster file buffer f fill d m = some (0, (d, m))
  find_loop (suc left) fuel v single cluster file buffer f fill d m =
      let size = cluster_size v.bpb in
      let done = read_fat16 dev fuel v single cluster file buffer size d m in
      elim done [
        | none ↦ none
        | some (n, (file1, (d1, m1))) ↦ elim (n == 0) [
          | true ↦ some (0, (d1, m1))
          | false ↦ elim (match_loop (size / fat16_dirent_size) m1 buffer f) [
            | some target ↦ some (target, (d1, memcpy m1 fill target fat16_dirent_size))
            | none ↦ find_loop left fuel v single cluster file1 buffer f fill d1 m1
          ]
        ]
      ]

  -- `v` is the volume of the node, `buffer` the block that the heap gives, 0 for NULL; it goes back to the heap behind
  -- the search.
  unfoldable pub read_cluster_find_match :
      (fuel : ℕ)
      → Volume
      → (single cluster_temp : ℕ) → Tables
      → (ct buffer f_name fill_val : ℕ) → D
      → Mem
      → Option (ℕ × (D × Mem))
  unfolding find_loop
  read_cluster_find_match fuel v single cluster t ct buffer f fill d m =
      let kind = (t.cache ct).content_type in
      let node = directory_node t ct in
      let rounds = cluster_rounds node.size (cluster_size v.bpb) in
      elim (kind == cte_mount_pnt || kind == cte_root || kind == cte_dir) [
        | false ↦ some (0, (d, m))
        | true ↦ elim (buffer == 0) [
          | true ↦ some (0, (d, m))
          | false ↦ find_loop rounds fuel v single cluster (directory node 0) buffer f fill d m
        ]
      ]
