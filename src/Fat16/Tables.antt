-- ===== src/Fat16/Tables.antt =====
-- src/kernel/file_syst/fat16.c and src/kernel/file_syst/vfs.h: the table of open files and the table of mounts, two
-- linked lists of blocks of the heap. A block is known by its address and holds values of one type; address 0, which the
-- code does not test everywhere, has a cell too. What heap_cream_malloc gives is an argument, 0 for NULL.
use gensis32os.Prelude.{◌==◌, if◌then◌else◌, ℕ, List, ◌∷◌}
use gensis32os.Memory.{put_block}
use gensis32os.Fat16.Files.{VfsNode}

abbrev pub cte_mount_pnt : ℕ
cte_mount_pnt = 0x0001

abbrev pub cte_file : ℕ
cte_file = 0x0010

abbrev pub cte_dir : ℕ
cte_dir = 0x0100

abbrev pub cte_root : ℕ
cte_root = 0x1000

abbrev pub max_open_file_count : ℕ
max_open_file_count = 100

-- `struct cache_table_entry`; `content` is the address in its union.
pub record CacheEntry : Type 0 where
  pub path_hash : ℕ
  pub content_type : ℕ
  pub content : ℕ
  pub refcount : ℕ
  pub flags : ℕ
  pub next : ℕ
  pub prev : ℕ

-- `struct mount_table_entry`
pub record MountEntry : Type 0 where
  pub mnt_part : ℕ
  pub fs_root_node : ℕ
  pub ct_table_entry : ℕ
  pub fs_bpb : ℕ
  pub next : ℕ
  pub prev : ℕ

-- `struct vfs_node` with its links.
pub record LinkedNode : Type 0 where
  pub node : VfsNode
  pub content : ℕ
  pub origin_mount_point : ℕ

-- The tables, with the blocks that have gone back to the heap.
pub record Tables : Type 0 where
  pub cache : ℕ → CacheEntry
  pub mounts : ℕ → MountEntry
  pub nodes : ℕ → LinkedNode
  pub cache_table_start : ℕ
  pub cache_table_last : ℕ
  pub mount_table_start : ℕ
  pub mount_table_last : ℕ
  pub cache_table_count : ℕ
  pub vfs_inode_id_count : ℕ
  pub freed : List ℕ

abbrev pub heap_cream_free_block : Tables → (ptr : ℕ) → Tables
heap_cream_free_block t p = record t { freed = p ∷ t.freed }

abbrev pub free_if : Tables → (ptr : ℕ) → Tables
free_if t p = if p == 0 then t else heap_cream_free_block t p

-- `p->next=q` and `p->prev=q`
unfoldable pub set_next : (ℕ → CacheEntry) → (p q : ℕ) → ℕ → CacheEntry
unfolding put_block
set_next c p q = put_block c p (record (c p) { next = q })

unfoldable pub set_prev : (ℕ → CacheEntry) → (p q : ℕ) → ℕ → CacheEntry
unfolding put_block
set_prev c p q = put_block c p (record (c p) { prev = q })

unfoldable pub set_mount_next : (ℕ → MountEntry) → (p q : ℕ) → ℕ → MountEntry
unfolding put_block
set_mount_next c p q = put_block c p (record (c p) { next = q })

unfoldable pub set_mount_prev : (ℕ → MountEntry) → (p q : ℕ) → ℕ → MountEntry
unfolding put_block
set_mount_prev c p q = put_block c p (record (c p) { prev = q })

-- `c_previous->next=c_next; c_next->prev=c_previous;`
unfoldable pub unlink_cache : (ℕ → CacheEntry) → (entry : ℕ) → ℕ → CacheEntry
unfolding set_next set_prev
unlink_cache c i =
    let before = (c i).prev in
    let after = (c i).next in set_prev (set_next c before after) after before
