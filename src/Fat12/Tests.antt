-- ===== src/Fat12/Tests.antt =====
-- A small image: sectors of 4 bytes, one to a cluster; one entry in the root directory, for a file of 7 bytes in
-- clusters 2 and 5.
use gensis32os.Prelude.{
  ltb, ◌==◌, if◌then◌else◌, length, get_or, ℕ, ◌+◌, ◌<◌, ◌≡◌, refl, Bool, true, false, some, List,
  [], ◌∷◌, arith,
}
use gensis32os.Fat12.{
  Header, Image, read_file, search_root, search_from, same_name, entry_byte, next_cluster,
  entry_size, cluster_no_low, is_print,
}
use gensis32os.Fat12.Entries.{pack, next_cluster-pack}
use gensis32os.Fat12.Clusters.{Chain, last, more, chain_byte, read_file-prints}

abbrev entries : ℕ → ℕ
entries i = if i == 2 then 5 else 0xfff

next_cluster-pack_example : next_cluster (pack entries) 2 ≡ entries 2
next_cluster-pack_example = next_cluster-pack entries 2 (λ i. ground arith) (omega arith)

abbrev header : Header
header = record {
  bytes_per_sector = 4;
  sector_per_cluster = 1;
  reserved_sector = 1;
  fat_count = 1;
  root_entries = 1;
  sector_per_fat = 2;
}

abbrev disk : Image
disk = record { len = 100; byte = λ k. k }

abbrev name : ℕ → ℕ
name k = k + 65

abbrev root : ℕ → ℕ
root k = if ltb k 11 then k + 65 else if k == 26 then 2 else if k == 28 then 7 else 0

named : search_root header name root ≡ some 0
unfolding search_root search_from same_name entry_byte
named = refl

chain : Chain (pack entries) (cluster_no_low root 0) (2 ∷ 5 ∷ [])
unfolding next_cluster pack cluster_no_low entry_byte
chain = more (omega arith) (last (omega arith))

size_of : entry_size root 0 ≡ 7
unfolding entry_size entry_byte
size_of = refl

read_file-prints_example :
    (out : List (Bool × ℕ)) × (read_file (λ _. true) 2 header disk (pack entries) root 8 name name
      ≡ some (true, out))
    × (length out ≡ entry_size root 0)
    × ((k : ℕ)
        → k < entry_size root 0
        → let b = chain_byte header disk 11 (2 ∷ 5 ∷ []) k in
          get_or out k (false, 0) ≡ (is_print b, b))
read_file-prints_example =
    read_file-prints (λ _. true) 2 header disk (pack entries) root 8 name name 0 (2 ∷ 5 ∷ [])
      (λ n. refl) named (omega arith) (omega arith) (omega arith) chain (omega arith)
      (omega (arith, size_of)) (omega (arith, size_of)) (omega arith)
