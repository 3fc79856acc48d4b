-- ===== src/Fat16/Tests.antt =====
-- Runs on the boot sector of a small volume at address 0.
use gensis32os.Fat16.TableTests.{three}
use gensis32os.Fat16.Tables.{Tables, cte_dir}
use gensis32os.Fat16.Directory.{read_cluster_find_match}
use gensis32os.Fat16.Lookup.{LookupOutcome, read_cluster_find_match-Ends}
use gensis32os.Fat16.RoundTrip.{read_fat16-write_fat16}
use gensis32os.Fat16.WriteFile.{write_fat16}
use gensis32os.Fat16.FreeFirst.{get_free_cluster-takes}
use gensis32os.Fat16.FatEntries.{fat_entry, linked_entry}
use gensis32os.Fat16.FreeCluster.{Search, get_free_cluster}
use gensis32os.Fat16.FatWords.{word_at}
use gensis32os.Fat16.Write.{WriteOutcome, write_fat16-Ends}
use gensis32os.Fat16.Stretch.{IsChain}
use gensis32os.Fat16.Read.{ReadOutcome, read_fat16-Ends}
use gensis32os.Prelude.Outcomes.{Ends}
use gensis32os.Fat16.Chain.{fat_of, IsFormatted, nth_cluster, IsClosed}
use gensis32os.Fat16.Device.{BlockDevice, IsMedium}
use gensis32os.Fat16.Files.{File, Volume, VfsNode, is_end, read_fat16}
use gensis32os.Prelude.{
  ltb, leb, ◌==◌, if◌then◌else◌, u16, ℕ, zero, suc, ◌+◌, ◌-◌, ◌*◌, ◌/◌, ◌%◌, ◌^◌, ◌≤◌, ◌<◌, ◌≡◌,
  refl, ap, ◌≢◌, ◌⊎◌, inl, inr, false, ◌&&◌, ◌||◌, none, some, arith,
}
use gensis32os.Memory.{Mem}
use gensis32os.Fat16.{Bpb, bpb_of, fill_bpb, root_dir_count, get_2_bytes}
use gensis32os.Fat16.Layout.{IsVolume, HasFields, fill_bpb-cases}

-- 512 bytes per sector, 4 sectors per cluster, 1 reserved sector, 2 FATs of 20 sectors, 512 root entries.
abbrev boot : Mem
boot a =
    if a == 0x0c
    then 2
    else if a == 0x0d
    then 4
    else if a == 0x0e
    then 1
    else if a == 0x10
    then 2
    else if a == 0x12
    then 2
    else if a == 0x16
    then 20
    else 0

fill_bpb-cases_example :
    ((b : Bpb) × (fill_bpb boot 0 63 ≡ some b) × IsVolume boot 0 × HasFields boot 0 63 b)
    ⊎ ((fill_bpb boot 0 63 ≡ none) × (IsVolume boot 0 → ⊥))
fill_bpb-cases_example = fill_bpb-cases boot 0 63 (λ a. ground arith)

boot-size : 1 ≤ (bpb_of boot 0 63).bytes_per_sect
unfolding bpb_of get_2_bytes
boot-size = omega arith

boot-end :
    63
      + (bpb_of boot 0 63).reserved_sectors
      + (bpb_of boot 0 63).fat_count * (bpb_of boot 0 63).sectors_per_fat
      + root_dir_count (bpb_of boot 0 63).root_entry_count (bpb_of boot 0 63).bytes_per_sect
    < 2 ^ 32
unfolding bpb_of get_2_bytes root_dir_count
boot-end = omega arith

-- A medium as a table of bytes, that reads and writes one sector at a time.
abbrev Medium : Type 0
Medium = ℕ → ℕ → ℕ

abbrev plain_read : (lba total buf : ℕ) → Medium → Mem → ℕ × (Medium × Mem)
plain_read lba total buf d m =
    (0, (d, λ x. if leb buf x && ltb x (buf + 512) then d lba (x - buf) else m x))

abbrev plain_write : (lba total buf : ℕ) → Medium → Mem → ℕ × Medium
plain_write lba total buf d m = (0, λ l k. if l == lba then m (buf + k) else d l k)

abbrev plain : BlockDevice Medium
plain = record { read_block = plain_read; write_block = plain_write }

abbrev as_it_is : Medium → ℕ → ℕ → ℕ
as_it_is d = d

plain-IsMedium : (limit : ℕ) → IsMedium plain as_it_is limit
plain-IsMedium limit = record {
  reads = λ lba buf d m h. (
    λ k p. let back : buf + k - buf ≡ k = omega arith in ground (arith, ap (d lba) back),
    λ x p. ground (arith, p),
    refl,
  );
  writes = λ lba buf d m sector k h p. refl;
}

-- One reserved sector, two FATs of one sector, no root directory, one sector to a cluster; at sector 0 of the disk.
-- Clusters 2, 3 and 4 form a chain; all other entries of the FAT are 0xffff but that of cluster 5.
abbrev small : Volume
small = record {
  bpb = record {
    bytes_per_sect = 512;
    sect_per_clust = 1;
    reserved_sectors = 1;
    fat_count = 2;
    sectors_per_fat = 1;
    root_entry_count = 0;
    fat_lba = 1;
    root_lba = 3;
    data_lba = 3;
  };
  start_sect = 0;
}

abbrev floppy : Medium
floppy l k =
    if ltb l 3
    then if k == 4
      then 3
      else if k == 6
      then 4
      else if k == 5 || k == 7 || k == 10 || k == 11
      then 0
      else 0xff
    else (l * 7 + k) % 256

small-IsFormatted : IsFormatted small 8 100
unfolding root_dir_count
small-IsFormatted = record {
  bytes = refl;
  per_cluster = omega arith;
  byte = omega arith;
  fats = omega arith;
  covers = omega arith;
  numbers = omega arith;
  inside = omega arith;
  words = omega arith;
}

floppy-IsClosed : IsClosed small floppy 8
unfolding fat_of is_end
floppy-IsClosed c h e = ground arith

abbrev text_node : VfsNode
text_node = record {
  size = 1400;
  node_id = 1;
  mode = 0;
  user_id = 0;
  dirty_bit = 0;
  access_time = 0;
  modified_time = 0;
  fs_specific = 2;
}

abbrev text_file : File
text_file = record { node = text_node; flags = 3; offset = 500 }

abbrev ram : Mem
ram x = x % 256

read_fat16-Ends_example :
    Ends
      (ReadOutcome as_it_is small text_file 0x1000 100 0x8000 0x9000 floppy ram)
      (read_fat16 plain 100 small 0x8000 0x9000 text_file 0x1000 100 floppy ram)
read_fat16-Ends_example =
    read_fat16-Ends plain as_it_is 100 (plain-IsMedium 100) small 8 small-IsFormatted 100 text_file
      0x1000 100 0x8000 0x9000 floppy ram floppy-IsClosed (inr (omega arith)) (omega arith)
      (omega arith) (omega arith) (inl (omega arith)) (inl (omega arith))

floppy-reaches : (i : ℕ) → i * 512 < 600 → (at : ℕ) × (nth_cluster small floppy i 2 ≡ some at)
unfolding nth_cluster fat_of is_end
floppy-reaches zero h = (2, refl)
floppy-reaches (suc zero) h = (3, refl)
floppy-reaches (suc (suc i)) h = absurd (omega arith)

floppy-places : (i at : ℕ) → nth_cluster small floppy i 2 ≡ some at → at ≡ i + 2
unfolding nth_cluster fat_of is_end
floppy-places zero at h = ground arith
floppy-places (suc zero) at h = ground arith
floppy-places (suc (suc zero)) at h = ground arith
floppy-places (suc (suc (suc i))) at h = absurd (cc)

floppy-IsChain : IsChain small floppy 2 600
floppy-IsChain = record {
  reaches = λ i h. floppy-reaches i (omega arith);
  distinct = λ i j at p q. omega (arith, floppy-places i at p, floppy-places j at q);
}

abbrev no_search : Search
no_search = record {
  new_cluster_number = 0;
  new_cluster_sector = 0;
  new_sect_offset = 0;
  cur_cluster_sect_no = 0;
}

alive : is_end (u16 text_file.node.fs_specific) ≡ false
unfolding is_end
alive = refl

write_fat16-Ends_example :
    Ends
      (WriteOutcome as_it_is small text_file 0x1000 100 floppy ram)
      (write_fat16 plain no_search 0x7000 100 small 0x8000 0x9000 text_file 0x1000 100 floppy ram)
write_fat16-Ends_example =
    write_fat16-Ends plain as_it_is 100 (plain-IsMedium 100) small 8 small-IsFormatted no_search
      0x7000 100 text_file 0x1000 100 0x8000 0x9000 floppy ram floppy-IsClosed alive (omega arith)
      floppy-IsChain (omega arith) (omega arith) (omega arith) (inl (omega arith))
      (inl (omega arith))

floppy-full : (x : ℕ) → x < 5 → fat_entry floppy 1 1 0 x ≢ 0
unfolding word_at
floppy-full x h = ground arith

five-free : fat_entry floppy 1 1 0 5 ≡ 0
unfolding word_at
five-free = refl

get_free_cluster-takes_example :
    let (r, (e, _)) = get_free_cluster plain small.bpb no_search 1 4 0x7000 floppy ram in
    (r ≡ 5)
    × ((n x : ℕ)
        → n < 2
        → x < 256
        → fat_entry e 1 1 n x ≡ linked_entry (is_end 4) 4 5 x (fat_entry floppy 1 1 n x))
    × ((l k : ℕ) → k < 512 → (l < 1) ⊎ (3 ≤ l) → e l k ≡ floppy l k)
get_free_cluster-takes_example =
    get_free_cluster-takes plain as_it_is 100 (plain-IsMedium 100) small.bpb no_search 1 4 0x7000 5
      floppy ram refl (omega arith) (omega arith) (omega arith) (omega arith) (inr (omega arith))
      (omega arith) five-free floppy-full

read_fat16-write_fat16_example :
    Ends
      (λ (n, (file', (e, m'))).
        Ends
          (λ (n', (_, (_, m''))).
            (n' ≡ 100) × ((k : ℕ) → k < 100 → m'' (0x2000 + k) ≡ ram (0x1000 + k)))
          (read_fat16 plain 100 small 0x8000 0x9000
            (record file' { offset = 500 })
            0x2000
            100
            e
            m'))
      (write_fat16 plain no_search 0x7000 100 small 0x8000 0x9000 text_file 0x1000 100 floppy ram)
read_fat16-write_fat16_example =
    read_fat16-write_fat16 plain as_it_is 100 (plain-IsMedium 100) small 8 small-IsFormatted
      no_search 0x7000 100 text_file 0x1000 0x2000 100 0x8000 0x9000 floppy ram floppy-IsClosed
      alive (omega arith) floppy-IsChain (omega arith) (omega arith) (omega arith) (omega arith)
      (inl (omega arith)) (inl (omega arith)) (inl (omega arith)) (inl (omega arith))

-- The file as a directory: its entry in the cache table is that at 20.
abbrev as_directory : Tables
as_directory = record three {
  cache = λ a. record (three.cache a) { content_type = cte_dir };
  nodes = λ a. record (three.nodes a) { node = text_node };
}

-- The eight bytes at 0xa015 are those of the first entry, the bytes of sector 3.
read_cluster_find_match-Ends_example :
    Ends (LookupOutcome as_it_is small floppy 2 0 (1400 / 512) 0xa015 0xa100 ram) (
      read_cluster_find_match plain 600 small 0x8000 0x9000 as_directory 20 0x1000 0xa015 0xa100
        floppy ram)
read_cluster_find_match-Ends_example =
    read_cluster_find_match-Ends plain as_it_is 100 (plain-IsMedium 100) small 8 small-IsFormatted
      600 as_directory 20 0x1000 0x8000 0x9000 0xa015 0xa100 floppy ram (inr (inr refl))
      (omega arith) floppy-IsClosed alive (omega arith) (omega arith) (omega arith)
      (inl (omega arith)) (inl (omega arith)) (inr (omega arith)) (inr (omega arith))
      (inr (omega arith)) (inl (omega arith)) (inr (omega arith))
