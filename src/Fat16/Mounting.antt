-- ===== src/Fat16/Mounting.antt =====
-- src/kernel/file_syst/fat16.c: mount_fat16 and umount_fat16.
use gensis32os.Prelude.{
  ltb, leb, ◌==◌, if◌then◌else◌, u32, sub32, neg, ℕ, zero, suc, ◌+◌, ◌*◌, Bool, true, false, Option,
  none, some, List, ◌∷◌,
}
use gensis32os.Fat16.Files.{VfsNode}
use gensis32os.Fat16.{Bpb, get_root_specific_fat16}
use gensis32os.Memory.{put_block}
use gensis32os.Vfs.{generate_hash, generate_vfs_node_id}
use gensis32os.Fat16.Tables.{
  Tables, MountEntry, CacheEntry, LinkedNode, cte_mount_pnt, max_open_file_count, free_if, set_next,
  set_prev, set_mount_next, set_mount_prev, unlink_cache,
}

-- The loop of `mount_fat16` over the table: whether an entry has the hash. `none` is fuel that runs out.
unfoldable pub find_path : (fuel : ℕ) → (ℕ → CacheEntry) → (i hash_value : ℕ) → Option Bool
find_path zero c i hash = none
find_path (suc fuel) c i hash = elim (i == 0) [
  | true ↦ some false
  | false ↦ elim ((c i).path_hash == hash) [
    | true ↦ some true
    | false ↦ find_path fuel c (c i).next hash
  ]
]

-- The loop of `umount_fat16`: the last entry with the hash, or `found`.
unfoldable pub find_last_path : (fuel : ℕ) → (ℕ → CacheEntry) → (i hash_value found : ℕ) → Option ℕ
find_last_path zero c i hash found = none
find_last_path (suc fuel) c i hash found = elim (i == 0) [
  | true ↦ some found
  | false ↦ find_last_path fuel c (c i).next hash (if (c i).path_hash == hash then i else found)
]

-- `fail:` of `mount_fat16`
unfoldable pub mount_failed : Tables → (mnt_tbl_e bpb r_node : ℕ) → ℕ × Tables
mount_failed t mnt bpb r_node = (neg 35, free_if (free_if (free_if t mnt) bpb) r_node)

-- The mount table with `mnt_tbl_e` behind its last entry.
unfoldable pub append_mount : Tables → (mnt_tbl_e : ℕ) → Tables
unfolding set_mount_next set_mount_prev
append_mount t mnt =
    let t1 : Tables =
      if t.mount_table_start == 0
      then record t {
        mount_table_start = mnt;
        mount_table_last = mnt;
        mounts = set_mount_prev t.mounts mnt 0;
      }
      else record t {
        mounts =
            set_mount_prev (set_mount_next t.mounts t.mount_table_last mnt) mnt t.mount_table_last;
        mount_table_last = mnt;
      } in
    record t1 { mounts = set_mount_next t1.mounts mnt 0 }

-- The same for the cache table.
unfoldable pub append_cache : Tables → (i : ℕ) → Tables
unfolding set_next set_prev
append_cache t i =
    let t1 : Tables =
      if t.cache_table_start == 0
      then record t { cache_table_start = i; cache_table_last = i; cache = set_prev t.cache i 0 }
      else record t {
        cache = set_prev (set_next t.cache t.cache_table_last i) i t.cache_table_last;
        cache_table_last = i;
      } in
    record t1 { cache = set_next t1.cache i 0 }

-- `mount_fat16` behind its tests: the node of the root and the entry of the cache table.
unfoldable pub fill_mount :
    Tables → (part mnt bpb_at : ℕ) → Bpb → (r_node ct hash_value : ℕ) → Tables
unfolding put_block append_cache
fill_mount t part mnt bpb_at b r_node ct hash =
    let (id, count) = generate_vfs_node_id t.vfs_inode_id_count in
    let old = t.nodes r_node in
    let root : VfsNode = record old.node {
      node_id = id;
      size = u32 (b.bytes_per_sect * sub32 b.data_lba b.root_lba);
      fs_specific = get_root_specific_fat16 b;
    } in
    let linked : LinkedNode = record old { node = root; content = mnt } in
    let entry : CacheEntry = record (t.cache ct) {
      refcount = 1;
      content_type = cte_mount_pnt;
      content = mnt;
      path_hash = hash;
    } in
    let mount : MountEntry = record (t.mounts mnt) {
      fs_root_node = r_node;
      mnt_part = part;
      fs_bpb = bpb_at;
      ct_table_entry = ct;
    } in
    append_cache
      (record t {
        vfs_inode_id_count = count;
        nodes = put_block t.nodes r_node linked;
        cache = put_block t.cache ct entry;
        mounts = put_block t.mounts mnt mount;
        cache_table_count = u32 (t.cache_table_count + 1);
      })
      ct

-- `unset_mnt` and `unset_bpb` are what the variables hold where `goto fail` skips their first values; `mnt` and `ct`
-- are the blocks that the heap gives, `parsed` what `parse_partition_fill_bpb_fat16` returns and what stands there.
unfoldable pub mount_fat16 :
    (fuel : ℕ)
    → (unset_mnt unset_bpb part : ℕ) → (path : List ℕ) → (r_node mnt ct : ℕ)
    → (parsed : Option (ℕ × Bpb)) → Tables
    → Option (ℕ × Tables)
unfolding find_path mount_failed append_mount fill_mount
mount_fat16 fuel unset_mnt unset_bpb part path r_node mnt ct parsed t =
    let hash = generate_hash path in
    elim (leb max_open_file_count t.cache_table_count) [
      | true ↦ some (neg 36, t)
      | false ↦ elim (find_path fuel t.cache t.cache_table_start hash) [
        | none ↦ none
        | some exists ↦ elim exists [
          | true ↦ some (mount_failed t unset_mnt unset_bpb r_node)
          | false ↦ elim (mnt == 0) [
            | true ↦ some (mount_failed t 0 unset_bpb r_node)
            | false ↦ elim parsed [
              | none ↦ some (mount_failed (append_mount t mnt) mnt 0 r_node)
              | some bpb ↦ elim (r_node == 0) [
                | true ↦ some (mount_failed (append_mount t mnt) mnt bpb.0 r_node)
                | false ↦
                    some (0, fill_mount (append_mount t mnt) part mnt bpb.0 bpb.1 r_node ct hash)
              ]
            ]
          ]
        ]
      ]
    ]

unfoldable pub unlink_mount : (ℕ → MountEntry) → (entry : ℕ) → ℕ → MountEntry
unfolding set_mount_next set_mount_prev
unlink_mount c i =
    let before = (c i).prev in
    let after = (c i).next in set_mount_prev (set_mount_next c before after) after before

unfoldable pub umount_fat16 : (fuel : ℕ) → (path : List ℕ) → Tables → Option (ℕ × Tables)
unfolding find_last_path unlink_cache unlink_mount
umount_fat16 fuel path t =
    elim (find_last_path fuel t.cache t.cache_table_start (generate_hash path) 0) [
      | none ↦ none
      | some i ↦ elim (i == 0) [
        | true ↦ some (neg 37, t)
        | false ↦ elim ((t.cache i).content == 0) [
          | true ↦ some (neg 38, t)
          | false ↦ elim (ltb (t.cache i).refcount 1) [
            | true ↦ some (neg 39, t)
            | false ↦
                let mnt = (t.cache i).content in
                let m = t.mounts mnt in
                let t1 : Tables = record t {
                  cache = unlink_cache t.cache i;
                  cache_table_count = sub32 t.cache_table_count 1;
                  freed = i ∷ t.freed;
                } in
                let t2 = free_if (free_if t1 m.fs_bpb) m.fs_root_node in
                some (0, record t2 { mounts = unlink_mount t2.mounts mnt; freed = mnt ∷ t2.freed })
          ]
        ]
      ]
    ]
