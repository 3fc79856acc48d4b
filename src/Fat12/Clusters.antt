-- ===== src/Fat12/Clusters.antt =====
-- The clusters of a file, read one after another.
use native.Mathlib.Nat.{mod-lt}
use native.Mathlib.Omega.{div_any}
use gensis32os.Prelude.Division.{div_parts, div_between}
use gensis32os.Prelude.Branches.{by_false, by_true, by_some}
use native.Mathlib.Nat.{mul_comm}
use gensis32os.Prelude.{
  leb, lt→ltb, le→not_ltb, lt_or_le, length, get_or, u32, sub32, ℕ, zero, suc, ◌+◌, ◌-◌, ◌*◌, ◌/◌,
  ◌%◌, ◌^◌, ◌≤◌, ◌<◌, ◌≡◌, refl, sym, ap, ap₂, ◌∙◌, subst, inl, inr, Bool, true, false, Option,
  some, List, [], ◌∷◌, arith,
}
use gensis32os.Fat12.{
  Header, Image, read_sector, next_cluster, cluster_loop, put_at, cluster_no_low, entry_size,
  search_root, is_print, print_loop, read_file,
}

-- The table leads from cluster `c` through the list to an entry of 0xff8 or more.
pub data Chain (fat : ℕ → ℕ) : ℕ → List ℕ → Type 0 where
  last : {c : ℕ} → 0xff8 ≤ next_cluster fat c → Chain fat c (c ∷ [])
  more :
      {c : ℕ} {cs : List ℕ}
      → next_cluster fat c < 0xff8
      → Chain fat (next_cluster fat c) cs
      → Chain fat c (c ∷ cs)

-- Every cluster of the list lies in the image, whose data starts at sector `addr`.
abbrev pub AllInside : Header → Image → (addr : ℕ) → List ℕ → Type 0
AllInside h f addr [] = Unit {0}
AllInside h f addr (c ∷ cs) =
    (2 ≤ c)
    × (c < 2 ^ 16)
    × (addr + (c - 2) * h.sector_per_cluster < 2 ^ 32)
    × ((addr + (c - 2) * h.sector_per_cluster) * h.bytes_per_sector
          + h.sector_per_cluster * h.bytes_per_sector
        ≤ f.len)
    × AllInside h f addr cs

-- Byte `k` of the clusters of the list, in their order.
abbrev pub chain_byte : Header → Image → (addr : ℕ) → List ℕ → (k : ℕ) → ℕ
chain_byte h f addr cs k =
    let size = h.sector_per_cluster * h.bytes_per_sector in
    f.byte
      ((addr + (get_or cs (k / size) 0 - 2) * h.sector_per_cluster) * h.bytes_per_sector + k % size)

module _ (h : Header) (f : Image) (fat : ℕ → ℕ) (room addr : ℕ) (positive : 1 ≤ h.bytes_per_sector)
    (some_sectors : 1 ≤ h.sector_per_cluster) (small : f.len < 2 ^ 32) where
  cluster-read :
      (c : ℕ)
      → AllInside h f addr (c ∷ [])
      → read_sector h f (u32 (addr + sub32 c 2 * h.sector_per_cluster)) h.sector_per_cluster
        ≡ some (λ k. f.byte ((addr + (c - 2) * h.sector_per_cluster) * h.bytes_per_sector + k))
  unfolding read_sector
  cluster-read c (two, low, fits, inside, _) =
      let back : sub32 c 2 ≡ c - 2 = omega arith in
      let lba : u32 (addr + sub32 c 2 * h.sector_per_cluster)
          ≡ addr + (c - 2) * h.sector_per_cluster =
        ap (λ t. u32 (addr + t * h.sector_per_cluster)) back ∙ omega (arith, fits) in
      let place : u32 ((addr + (c - 2) * h.sector_per_cluster) * h.bytes_per_sector)
          ≡ (addr + (c - 2) * h.sector_per_cluster) * h.bytes_per_sector =
        omega (arith, inside, small) in
      rw (lba, place) (ground (arith, inside, positive))

  loop-last :
      (fuel start c : ℕ) (buf got : ℕ → ℕ)
      → start + h.sector_per_cluster * h.bytes_per_sector ≤ room
      → 0xff8 ≤ next_cluster fat c
      → read_sector h f (u32 (addr + sub32 c 2 * h.sector_per_cluster)) h.sector_per_cluster
        ≡ some got
      → cluster_loop (suc fuel) h f fat room addr start c buf
        ≡ some (some (put_at got buf start (h.sector_per_cluster * h.bytes_per_sector)))
  unfolding cluster_loop
  loop-last fuel start c buf got fits e read =
      let P = λ (r : Option (Option (ℕ → ℕ))).
        r ≡ some (some (put_at got buf start (h.sector_per_cluster * h.bytes_per_sector))) in
      by_true P (leb (start + h.sector_per_cluster * h.bytes_per_sector) room) _ _
        (ground (arith, fits)) (by_some P _ _ _ got read (by_false P _ _ _ (le→not_ltb _ _ e) refl))

  loop-more :
      (fuel start c : ℕ) (buf got : ℕ → ℕ)
      → start + h.sector_per_cluster * h.bytes_per_sector ≤ room
      → next_cluster fat c < 0xff8
      → read_sector h f (u32 (addr + sub32 c 2 * h.sector_per_cluster)) h.sector_per_cluster
        ≡ some got
      → cluster_loop (suc fuel) h f fat room addr start c buf
        ≡ cluster_loop fuel h f fat room addr
            (start + h.sector_per_cluster * h.bytes_per_sector)
            (next_cluster fat c)
            (put_at got buf start (h.sector_per_cluster * h.bytes_per_sector))
  unfolding cluster_loop
  loop-more fuel start c buf got fits e read =
      let size = h.sector_per_cluster * h.bytes_per_sector in
      let P = λ (r : Option (Option (ℕ → ℕ))).
        r
        ≡ cluster_loop fuel h f fat room addr (start + size) (next_cluster fat c)
            (put_at got buf start size) in
      by_true P (leb (start + size) room) _ _ (ground (arith, fits))
        (by_some P _ _ _ got read (by_true P _ _ _ (lt→ltb _ _ e) refl))

  first-byte :
      (c : ℕ) (cs : List ℕ) (k : ℕ)
      → k < h.sector_per_cluster * h.bytes_per_sector
      → f.byte ((addr + (c - 2) * h.sector_per_cluster) * h.bytes_per_sector + k)
        ≡ chain_byte h f addr (c ∷ cs) k
  first-byte c cs k lt =
      let size = h.sector_per_cluster * h.bytes_per_sector in
      let zeroth : 0 * size + k ≡ k = omega arith in
      let (q, r) = div_parts 0 k size lt in
      ap₂
        (λ (x y : ℕ).
          f.byte
            ((addr + (get_or (c ∷ cs) x 0 - 2) * h.sector_per_cluster) * h.bytes_per_sector + y))
        (sym q ∙ ap (λ t. t / size) zeroth) (sym r ∙ ap (λ t. t % size) zeroth)

  later-byte :
      (c : ℕ) (cs : List ℕ) (k : ℕ)
      → chain_byte h f addr cs k
        ≡ chain_byte h f addr (c ∷ cs) (h.sector_per_cluster * h.bytes_per_sector + k)
  later-byte c cs k =
      let size = h.sector_per_cluster * h.bytes_per_sector in
      let one : 1 ≤ size = grind (arith, positive, some_sectors) in
      let whole : k / size * size + k % size ≡ k =
        omega (arith, mul_comm (k / size) size, div_any k size) in
      let next : (k / size + 1) * size + k % size ≡ size + k =
        let product : (k / size + 1) * size ≡ k / size * size + size = grind arith in
        omega (arith, product, whole) in
      let (q, r) = div_parts (k / size + 1) (k % size) size (mod-lt k one) in
      let suc_of : k / size + 1 ≡ suc (k / size) = omega arith in
      ap₂
        (λ (x y : ℕ).
          f.byte
            ((addr + (get_or (c ∷ cs) x 0 - 2) * h.sector_per_cluster) * h.bytes_per_sector + y))
        (sym suc_of ∙ sym q ∙ ap (λ t. t / size) next) (sym r ∙ ap (λ t. t % size) next)

  -- The block holds the bytes of the clusters from `start` on.
  pub cluster_loop-bytes :
      (fuel start c : ℕ) (cs : List ℕ) (buf : ℕ → ℕ)
      → Chain fat c cs
      → AllInside h f addr cs
      → length cs ≤ fuel
      → start + length cs * (h.sector_per_cluster * h.bytes_per_sector) ≤ room
      → (out : ℕ → ℕ) × (cluster_loop fuel h f fat room addr start c buf ≡ some (some out))
        × ((k : ℕ)
            → k < length cs * (h.sector_per_cluster * h.bytes_per_sector)
            → out (start + k) ≡ chain_byte h f addr cs k)
        × ((x : ℕ) → x < start → out x ≡ buf x)
  cluster_loop-bytes zero start c cs buf (last e) inside enough fits = absurd (omega arith)
  cluster_loop-bytes zero start c cs buf (more e chain) inside enough fits = absurd (omega arith)
  cluster_loop-bytes (suc fuel) start c cs buf (last e) inside enough roomy =
      let size = h.sector_per_cluster * h.bytes_per_sector in
      let got =
        λ (k : ℕ). f.byte ((addr + (c - 2) * h.sector_per_cluster) * h.bytes_per_sector + k) in
      (
        put_at got buf start size,
        loop-last fuel start c buf got (omega (arith, roomy)) e (cluster-read c inside),
        λ k lt.
            let back : start + k - start ≡ k = omega arith in
            let first = first-byte c [] k (omega (arith, lt)) in
            ground (arith, lt, ap got back) ∙ first,
        λ x lt. ground (arith, lt),
      )
  cluster_loop-bytes (suc fuel) start c cs0 buf (more {cs} e chain) inside enough roomy =
      let size = h.sector_per_cluster * h.bytes_per_sector in
      let got =
        λ (k : ℕ). f.byte ((addr + (c - 2) * h.sector_per_cluster) * h.bytes_per_sector + k) in
      let (two, low, fits, whole, rest) = inside in
      let whole_list : suc (length cs) * size ≡ length cs * size + size = grind arith in
      let (out, run, bytes, kept) =
        cluster_loop-bytes fuel (start + size) (next_cluster fat c) cs (put_at got buf start size)
          chain rest (omega arith) (omega (arith, roomy, whole_list)) in
      (
        out,
        loop-more fuel start c buf got (omega (arith, roomy, whole_list)) e
              (cluster-read c (two, low, fits, whole, tt))
            ∙ run,
        λ k lt. elim (lt_or_le k size) [
          | inl first ↦
              let back : start + k - start ≡ k = omega arith in
              kept (start + k) (omega (arith, first))
              ∙ ground (arith, first, ap got back)
              ∙ first-byte c cs k first
          | inr later ↦
              let product : suc (length cs) * size ≡ length cs * size + size = grind arith in
              ap out (omega (arith, later))
              ∙ bytes (k - size) (omega (arith, lt, later, product))
              ∙ later-byte c cs (k - size)
              ∙ ap (chain_byte h f addr (c ∷ cs)) (omega (arith, later))
        ],
        λ x lt. kept x (omega (arith, lt)) ∙ ground (arith, lt),
      )

print_loop-length : (left : ℕ) (buf : ℕ → ℕ) (i : ℕ) → length (print_loop left buf i) ≡ left
unfolding print_loop
print_loop-length zero buf i = refl
print_loop-length (suc left) buf i = ap suc (print_loop-length left buf (i + 1))

print_loop-at :
    (left : ℕ) (buf : ℕ → ℕ) (i k : ℕ)
    → k < left
    → get_or (print_loop left buf i) k (false, 0) ≡ (is_print (buf (i + k)), buf (i + k))
unfolding print_loop
print_loop-at zero buf i k h = absurd (omega arith)
print_loop-at (suc left) buf i zero h = ap (λ t. (is_print (buf t), buf t)) (omega arith)
print_loop-at (suc left) buf i (suc k) h =
    print_loop-at left buf (i + 1) k (omega arith)
    ∙ ap (λ t. (is_print (buf t), buf t)) (omega arith)

-- The block for a file has room for just the clusters that its size needs.
block_room :
    (size cluster n : ℕ)
    → 1 ≤ cluster
    → n ≡ (size + cluster - 1) / cluster
    → size + cluster ≤ 2 ^ 32
    → (u32 (cluster * (u32 (size + cluster + 2 ^ 32 - 1) / cluster)) ≡ n * cluster)
      × (size ≤ n * cluster)
block_room size cluster n one just below =
    let (low, high) = div_between (size + cluster - 1) cluster one in
    let next : (n + 1) * cluster ≡ n * cluster + cluster = grind arith in
    let up : u32 (size + cluster + 2 ^ 32 - 1) ≡ size + cluster - 1 = omega (arith, below, one) in
    let blocks : u32 (size + cluster + 2 ^ 32 - 1) / cluster ≡ n =
      ap (λ x. x / cluster) up ∙ sym just in
    let low' : n * cluster ≤ size + cluster - 1 =
      subst (λ k. k * cluster ≤ size + cluster - 1) (sym just) low in
    let high' : size + cluster - 1 < (n + 1) * cluster =
      subst (λ k. size + cluster - 1 < (k + 1) * cluster) (sym just) high in
    (
      ap (λ k. u32 (cluster * k)) blocks
          ∙ ap u32 (mul_comm cluster n)
          ∙ omega (arith, low', below, one),
      omega (arith, high', next, one),
    )

-- If the root directory has an entry with the name whose first cluster starts a chain through clusters inside the
-- image, just as many as the size in the entry needs (so it is not 0), then `read_file` ends, with fuel for each cluster
-- of the chain, writes nothing behind its block, and prints the bytes of the file: as many as the entry says, in the
-- order of the chain. `malloc` gives the block, and the size rounded up to clusters is below 2^32.
pub read_file-prints :
    (malloc : ℕ → Bool) (fuel : ℕ) (h : Header) (f : Image) (fat root : ℕ → ℕ) (dir_size : ℕ)
    (name unset : ℕ → ℕ) (index : ℕ) (cs : List ℕ)
    → ((n : ℕ) → malloc n ≡ true)
    → search_root h name root ≡ some index
    → 1 ≤ h.bytes_per_sector
    → 1 ≤ h.sector_per_cluster
    → f.len < 2 ^ 32
    → Chain fat (cluster_no_low root index) cs
    → AllInside h f (h.reserved_sector + h.fat_count * h.sector_per_fat + dir_size) cs
    → length cs
      ≡ (entry_size root index + h.sector_per_cluster * h.bytes_per_sector - 1)
        / (h.sector_per_cluster * h.bytes_per_sector)
    → entry_size root index + h.sector_per_cluster * h.bytes_per_sector ≤ 2 ^ 32
    → length cs ≤ fuel
    → (out : List (Bool × ℕ)) × (read_file malloc fuel h f fat root dir_size name unset
        ≡ some (true, out))
      × (length out ≡ entry_size root index)
      × ((k : ℕ)
          → k < entry_size root index
          → let b =
              chain_byte h f (h.reserved_sector + h.fat_count * h.sector_per_fat + dir_size) cs k in
            get_or out k (false, 0) ≡ (is_print b, b))
unfolding read_file
read_file-prints malloc fuel h f fat root dir_size name unset index cs given named bps spc small
      chain inside just below enough =
    let addr = h.reserved_sector + h.fat_count * h.sector_per_fat + dir_size in
    let cluster = h.sector_per_cluster * h.bytes_per_sector in
    let one : 1 ≤ cluster = grind (arith, bps, spc) in
    let room = u32 (cluster * (u32 (entry_size root index + cluster + 2 ^ 32 - 1) / cluster)) in
    let (roomy, big) = block_room (entry_size root index) cluster (length cs) one just below in
    let (buf, run, bytes, _) =
      cluster_loop-bytes h f fat room addr bps spc small fuel 0 (cluster_no_low root index) cs unset
        chain inside enough (omega (arith, roomy)) in
    let size = entry_size root index in
    let P = λ (r : Option (Bool × List (Bool × ℕ))).
      r ≡ some (true, print_loop (entry_size root index) buf 0) in
    (
      print_loop (entry_size root index) buf 0,
      by_some P _ _ _ index named (by_true P _ _ _ (given _) (by_some P _ _ _ (some buf) run refl)),
      print_loop-length size buf 0,
      λ k h'.
          print_loop-at size buf 0 k h'
          ∙ ap (λ b. (is_print b, b)) (bytes k (omega (arith, h', big))),
    )
