-- ===== src/Fat16/Opening.antt =====
-- src/kernel/file_syst/fat16.c: opening and closing by the cache table; get_fs_specific_cache_table of
-- src/kernel/file_syst/vfs.c.
use gensis32os.Prelude.{
  ltb, ◌==◌, if◌then◌else◌, neg, ℕ, ◌+◌, bit_and, bit_or, true, false, ◌||◌, List, ◌∷◌,
}
use gensis32os.Fat16.Files.{VfsNode}
use gensis32os.Memory.{Mem, put_block, load16, load32}
use gensis32os.Vfs.{generate_hash, generate_vfs_node_id}
use gensis32os.Fat16.Tables.{
  Tables, CacheEntry, LinkedNode, cte_mount_pnt, cte_file, cte_dir, cte_root, heap_cream_free_block,
  free_if, set_next, set_prev, unlink_cache,
}

-- `get_fs_specific_cache_table` and `get_origing_mnt_tbl_ent`
unfoldable pub get_fs_specific_cache_table : Tables → (ct : ℕ) → ℕ
get_fs_specific_cache_table t ct =
    let e = t.cache ct in
    if e.content_type == cte_mount_pnt
    then (t.nodes (t.mounts e.content).fs_root_node).node.fs_specific
    else if e.content_type == cte_file || e.content_type == cte_dir || e.content_type == cte_root
    then (t.nodes e.content).node.fs_specific
    else 0

unfoldable pub get_origing_mnt_tbl_ent : Tables → (ct : ℕ) → ℕ
get_origing_mnt_tbl_ent t ct =
    let e = t.cache ct in
    if e.content_type == cte_file
    then 0
    else if e.content_type == cte_mount_pnt || e.content_type == cte_root
    then (t.nodes (t.mounts e.content).fs_root_node).origin_mount_point
    else if e.content_type == cte_dir
    then (t.nodes e.content).origin_mount_point
    else 0

abbrev pub file_read : ℕ
file_read = 0x1

abbrev pub file_write : ℕ
file_write = 0x2

-- `ct` and `node` are the blocks that the heap gives, 0 for NULL; the directory entry stands in memory at `dir_ent`. The
-- result is the entry of the cache table.
unfoldable pub fat16_sub_open_file :
    Mem → (dir_ent : ℕ) → (path : List ℕ) → (origin ct node : ℕ) → Tables → ℕ × Tables
unfolding put_block set_next set_prev
fat16_sub_open_file m dir_ent path origin ct node t = elim (ct == 0) [
  | true ↦ (0, t)
  | false ↦
      let kind = if bit_and (m (dir_ent + 11)) 0x10 == 0 then cte_file else cte_dir in
      let named : CacheEntry = record (t.cache ct) {
        path_hash = generate_hash path;
        content_type = kind;
      } in
      elim (node == 0) [
        | true ↦
            let t1 : Tables = record t { cache = put_block t.cache ct named } in
            (0, heap_cream_free_block t1 ct)
        | false ↦
            let flags =
              if bit_and (m (dir_ent + 11)) 0x01 == 0
              then bit_or file_read file_write
              else file_read in
            let entry : CacheEntry = record named {
              content = node;
              refcount = 1;
              flags = flags;
              next = 0;
            } in
            let last = t.cache_table_last in
            let (id, count) = generate_vfs_node_id t.vfs_inode_id_count in
            let old = t.nodes node in
            let opened : VfsNode = record old.node {
              fs_specific = load16 m (dir_ent + 26);
              size = load32 m (dir_ent + 28);
              node_id = id;
              mode = flags;
            } in
            let linked : LinkedNode = record {
              node = opened;
              content = ct;
              origin_mount_point = origin;
            } in
            (
              ct,
              record t {
                cache = set_prev (set_next (put_block t.cache ct entry) last ct) ct last;
                cache_table_last = ct;
                nodes = put_block t.nodes node linked;
                vfs_inode_id_count = count;
              },
            )
      ]
]

unfoldable pub fat16_sub_close_file : (ct : ℕ) → Tables → ℕ × Tables
unfolding unlink_cache
fat16_sub_close_file ct t =
    let e = t.cache ct in
    if ct == 0
    then (neg 46, t)
    else if ltb 1 e.refcount
    then (neg 44, t)
    else if e.content_type == cte_mount_pnt
    then (neg 45, t)
    else let t1 : Tables = record t { cache = unlink_cache t.cache ct; freed = ct ∷ t.freed } in
      (0, free_if t1 e.content)
