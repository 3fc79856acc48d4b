-- ===== src/Fat16/TableTests.antt =====
-- Runs on a table of three open files, and a mount on empty tables.
use gensis32os.Prelude.{◌==◌, if◌then◌else◌, ℕ, ◌+◌, ◌≡◌, refl, none, some, [], ◌∷◌, arith}
use gensis32os.Memory.{Mem}
use gensis32os.Vfs.{generate_hash}
use gensis32os.Fat16.{Bpb}
use gensis32os.Fat16.Files.{VfsNode}
use gensis32os.Fat16.Tables.{Tables, CacheEntry, MountEntry, LinkedNode, cte_file}
use gensis32os.Fat16.Opening.{fat16_sub_open_file, fat16_sub_close_file}
use gensis32os.Fat16.OpenFiles.{IsTable, Links}
use gensis32os.Fat16.LostEntry.{fat16_sub_close_file-lost}
use gensis32os.Fat16.OpenClose.{fat16_sub_open_file-IsTable, fat16_sub_close_file-IsTable}
use gensis32os.Fat16.Names.{set_fname, set_fname-eq}
use gensis32os.Fat16.Mount.{Attempt, mount_as, AllRefused, IsFirstMount, mount_fat16-once}

-- Entries at 10, 20 and 30; any other cell is blank.
abbrev entries : ℕ → CacheEntry
entries a = record {
  path_hash = 0;
  content_type = cte_file;
  content = a + 1;
  refcount = 1;
  flags = 3;
  next = if a == 10 then 20 else if a == 20 then 30 else 0;
  prev = if a == 20 then 10 else if a == 30 then 20 else 0;
}

abbrev blank_node : VfsNode
blank_node = record {
  size = 0;
  node_id = 0;
  mode = 0;
  user_id = 0;
  dirty_bit = 0;
  access_time = 0;
  modified_time = 0;
  fs_specific = 0;
}

abbrev blank_link : LinkedNode
blank_link = record { node = blank_node; content = 0; origin_mount_point = 0 }

abbrev blank_mount : MountEntry
blank_mount = record {
  mnt_part = 0;
  fs_root_node = 0;
  ct_table_entry = 0;
  fs_bpb = 0;
  next = 0;
  prev = 0;
}

abbrev pub three : Tables
three = record {
  cache = entries;
  mounts = λ a. blank_mount;
  nodes = λ a. blank_link;
  cache_table_start = 10;
  cache_table_last = 30;
  mount_table_start = 0;
  mount_table_last = 0;
  cache_table_count = 3;
  vfs_inode_id_count = 7;
  freed = [];
}

three-IsTable : IsTable three (10 ∷ 20 ∷ 30 ∷ [])
three-IsTable = record {
  start = refl;
  end = refl;
  links = (refl, refl, (refl, refl, (refl, refl, tt)));
  distinct = ((omega arith, (omega arith, tt)), ((omega arith, tt), (tt, tt)));
  no_null = (omega arith, (omega arith, (omega arith, tt)));
}

abbrev sector : Mem
sector a = if a == 26 then 5 else if a == 29 then 2 else 0

fat16_sub_open_file-IsTable_example :
    let (r, t) = fat16_sub_open_file sector 0 (97 ∷ []) 4 40 50 three in
    (r ≡ 40) × IsTable t (10 ∷ 20 ∷ 30 ∷ 40 ∷ [])
fat16_sub_open_file-IsTable_example =
    fat16_sub_open_file-IsTable sector 0 (97 ∷ []) 4 40 50 three 10 (20 ∷ 30 ∷ []) three-IsTable
      (omega arith) (omega arith) (omega arith, (omega arith, (omega arith, tt)))

fat16_sub_close_file-IsTable_example :
    let (r, t) = fat16_sub_close_file 20 three in (r ≡ 0) × IsTable t (10 ∷ 30 ∷ [])
fat16_sub_close_file-IsTable_example =
    fat16_sub_close_file-IsTable three 10 [] 20 30 [] three-IsTable (omega arith) (omega arith)

fat16_sub_close_file-lost_example :
    let (r, t1) = fat16_sub_close_file 30 three in
    let (opened, t2) = fat16_sub_open_file sector 0 (97 ∷ []) 4 40 50 t1 in
    (r ≡ 0)
    × (opened ≡ 40)
    × (t1.cache_table_last ≡ 30)
    × ((t2.cache 40).prev ≡ 30)
    × (t2.cache_table_start ≡ 10)
    × Links t2.cache 0 (10 ∷ 20 ∷ []) 0
fat16_sub_close_file-lost_example =
    fat16_sub_close_file-lost sector 0 (97 ∷ []) 4 40 50 three 10 (20 ∷ []) 30 three-IsTable
      (omega arith) (omega arith) (omega arith) (omega arith)
      (omega arith, (omega arith, (omega arith, tt)))

abbrev no_files : Tables
no_files = record three { cache_table_start = 0; cache_table_last = 0; cache_table_count = 0 }

abbrev parsed_bpb : Bpb
parsed_bpb = record {
  bytes_per_sect = 512;
  sect_per_clust = 1;
  reserved_sectors = 1;
  fat_count = 2;
  sectors_per_fat = 1;
  root_entry_count = 0;
  fat_lba = 1;
  root_lba = 3;
  data_lba = 3;
}

abbrev first_call : Attempt
first_call = record {
  unset_mnt = 11;
  unset_bpb = 12;
  part = 1;
  path = 97 ∷ [];
  r_node = 60;
  mnt = 70;
  ct = 80;
  parsed = some (90, parsed_bpb);
}

abbrev second_call : Attempt
second_call = record first_call { unset_mnt = 0; path = 98 ∷ []; r_node = 61 }

mount_fat16-once_example :
    (t1 : Tables) × (mount_as 1 first_call no_files ≡ some (0, t1))
    × IsFirstMount t1 70 80 (generate_hash (97 ∷ []))
    × AllRefused 1 (second_call ∷ second_call ∷ []) t1
mount_fat16-once_example =
    mount_fat16-once 0 first_call (90, parsed_bpb) (second_call ∷ second_call ∷ []) no_files refl
      (omega arith) refl (omega arith) (omega arith) (omega arith)

-- The path `/ab`.
abbrev short_path : ℕ → ℕ
short_path i = if i == 0 then 47 else if i == 1 then 97 else if i == 2 then 98 else 0

set_fname-eq_example : set_fname 9 short_path (λ x. 1) 1 12 ≡ none
set_fname-eq_example = set_fname-eq 8 short_path (λ x. 1) 1 12
