-- ===== src/Fat16/Lookup.antt =====
-- What read_cluster_find_match finds.
use mathlib.Core.Option.{some-injective}
use gensis32os.Fat16.Matching.{
  NoEntry, NoEntry-ended, NoEntry-step, SameName-strncmp, match_loop-none, cluster_rounds-eq,
  strncmp-move, match_loop-some, cluster_rounds-fits,
}
use mathlib.Core.Bool.{false≢true}
use gensis32os.Prelude.Division.{div_parts}
use gensis32os.Fat16.Read.{read_fat16-Ends}
use gensis32os.Prelude.Outcomes.{Ends, ends, Ends-then, Ends-weaken}
use gensis32os.Essentials.Copy.{memcpy-inside, memcpy-outside}
use gensis32os.Essentials.{memcpy}
use gensis32os.Fat16.Chain.{
  cluster_byte, IsFormatted, FileByte, cluster_size-eq, IsClosed, nth_cluster, FileEnds,
}
use gensis32os.Fat16.Device.{BlockDevice, IsMedium}
use gensis32os.Fat16.Files.{Volume, is_end, cluster_size, File}
use mathlib.Core.Option.{none-ne-some}
use mathlib.Core.Path.{subst₂}
use gensis32os.Prelude.{
  ◌==◌, ne→not_==, lt_or_le, u16, ℕ, zero, suc, ◌+◌, ◌*◌, ◌/◌, ◌^◌, ◌≤◌, ◌<◌, ◌≡◌, refl, sym, ap,
  ap₂, ◌∙◌, subst, ◌≢◌, ◌⊎◌, inl, inr, true, false, ◌||◌, none, some, arith,
}
use gensis32os.Prelude.Branches.{by_cases, by_option, by_true, by_false}
use gensis32os.Memory.{Mem}
use gensis32os.Strings.{strncmp}
use gensis32os.Fat16.Tables.{Tables, cte_mount_pnt, cte_root, cte_dir}
use gensis32os.Fat16.Directory.{
  read_cluster_find_match, directory_node, directory, cluster_rounds, match_loop, fat16_dirent_size,
  file_name_len_max, find_loop,
}

-- Two stretches of memory without a common byte.
abbrev pub Apart : (a n b k : ℕ) → Type 0
Apart a n b k = (a + n ≤ b) ⊎ (b + k ≤ a)

-- What a search of the directory whose chain starts at `first` leaves of the medium `med` and the memory `m`, over
-- `left` clusters from number `from` on: 0 and no entry in them with the name, or the address of a copied entry.
abbrev pub LookupOutcome {ℓ} :
    {D : Type ℓ}
    → (D → ℕ → ℕ → ℕ)
    → Volume
    → (med : ℕ → ℕ → ℕ) → (first from left f_name fill_val : ℕ) → Mem
    → ℕ × (D × Mem)
    → Type 0
LookupOutcome content v med first from left f fill m (r, (e, m')) =
    (content e ≡ med)
    × ((x : ℕ) → x < file_name_len_max → m' (f + x) ≡ m (f + x))
    × (((r ≡ 0) × NoEntry v med first from left (λ x. m (f + x)))
        ⊎ ((r ≢ 0)
            × ((i : ℕ) × ((k : ℕ)
                  → k < fat16_dirent_size
                  → FileByte v med first (i * fat16_dirent_size + k) (m' (fill + k)))
                × (strncmp m' fill f file_name_len_max ≡ 0))))

module _ {ℓ} {D : Type ℓ} (dev : BlockDevice D) (content : D → ℕ → ℕ → ℕ) (limit : ℕ)
    (medium : IsMedium dev content limit) (v : Volume) (top : ℕ) (f : IsFormatted v top limit)
    (med : ℕ → ℕ → ℕ) (closed : IsClosed v med top) (first : ℕ) (alive : is_end first ≡ false)
    (below : first < top) (fuel : ℕ) (enough : cluster_size v.bpb ≤ fuel)
    (buffer single cluster name fill : ℕ) (some_buffer : buffer ≢ 0)
    (away : Apart buffer (cluster_size v.bpb) single 512)
    (apart : Apart buffer (cluster_size v.bpb) cluster (cluster_size v.bpb))
    (name_buffer : Apart name file_name_len_max buffer (cluster_size v.bpb))
    (name_single : Apart name file_name_len_max single 512)
    (name_cluster : Apart name file_name_len_max cluster (cluster_size v.bpb))
    (name_fill : Apart name file_name_len_max fill fat16_dirent_size)
    (fill_buffer : Apart fill fat16_dirent_size buffer (cluster_size v.bpb)) where
  -- An entry of a cluster that was read whole, and its copy.
  copied_entry :
      (m : Mem) (j i : ℕ)
      → i < cluster_size v.bpb / fat16_dirent_size
      → ((k : ℕ)
          → k < cluster_size v.bpb
          → FileByte v med first (j * cluster_size v.bpb + k) (m (buffer + k)))
      → strncmp m (buffer + i * fat16_dirent_size) name file_name_len_max ≡ 0
      → let m' = memcpy m fill (buffer + i * fat16_dirent_size) fat16_dirent_size in
        ((x : ℕ) → x < file_name_len_max → m' (name + x) ≡ m (name + x))
        × ((p : ℕ) × ((k : ℕ)
              → k < fat16_dirent_size
              → FileByte v med first (p * fat16_dirent_size + k) (m' (fill + k)))
            × (strncmp m' fill name file_name_len_max ≡ 0))
  copied_entry m j i h bytes same =
      let C = cluster_size v.bpb in
      let target = buffer + i * fat16_dirent_size in
      let m' = memcpy m fill target fat16_dirent_size in
      let per = v.bpb.sect_per_clust in
      let inside : i * fat16_dirent_size + fat16_dirent_size ≤ C =
        omega (arith, h, cluster_size-eq f) in
      let clear : (fill ≤ target) ⊎ (target + fat16_dirent_size ≤ fill) =
        ground (arith, inside, fill_buffer) in
      let copy : (k : ℕ) → k < fat16_dirent_size → m' (fill + k) ≡ m (target + k) =
        λ k q. memcpy-inside m fill target fat16_dirent_size k clear q in
      let kept : (x : ℕ) → x < file_name_len_max → m' (name + x) ≡ m (name + x) = λ x q.
        memcpy-outside m fill target fat16_dirent_size (name + x) clear
          (ground (arith, q, name_fill)) in
      (
        kept,
        (
          j * (per * 16) + i,
          λ k q.
              let place : j * C + (i * fat16_dirent_size + k)
                  ≡ (j * (per * 16) + i) * fat16_dirent_size + k =
                omega (arith, ap (λ c. j * c) (cluster_size-eq f)) in
              let spot : buffer + (i * fat16_dirent_size + k) ≡ target + k = omega arith in
              subst₂ (FileByte v med first) place (ap m spot ∙ sym (copy k q))
                (bytes (i * fat16_dirent_size + k) (omega (arith, inside))),
          strncmp-move file_name_len_max m m' target fill name (λ x q. copy x (omega arith)) kept
              ∙ same,
        ),
      )

  -- A read from the start of a cluster that brings a byte brings the whole cluster.
  whole_cluster :
      (n o j : ℕ)
      → o ≡ j * cluster_size v.bpb
      → 0 < n
      → n < cluster_size v.bpb
      → (b : ℕ) → FileByte v med first (o + 0) b
      → FileEnds v med first (o + n)
      → ⊥
  whole_cluster n o j at any less b (c, here, _) stop =
      let C = cluster_size v.bpb in
      let same : (o + 0) / C ≡ (o + n) / C =
        ap (λ x. (x + 0) / C) at
        ∙ (div_parts j 0 C (omega (arith, any, less))).0
        ∙ sym (ap (λ x. (x + n) / C) at ∙ (div_parts j n C less).0) in
      none-ne-some _ (sym stop ∙ ap (λ q. nth_cluster v med q first) (sym same) ∙ here)

  -- A read from the start of a cluster that brings nothing: the chain has ended.
  ended_cluster :
      (n o j : ℕ)
      → o ≡ j * cluster_size v.bpb
      → n ≡ 0
      → 0 < cluster_size v.bpb
      → FileEnds v med first (o + n)
      → nth_cluster v med j first ≡ none
  ended_cluster n o j at nothing positive stop =
      let C = cluster_size v.bpb in
      let same : (o + n) / C ≡ j =
        ap (λ x. x / C) (omega (arith, at, nothing)) ∙ (div_parts j 0 C positive).0 in
      ap (λ q. nth_cluster v med q first) (sym same) ∙ stop

  -- No entry of a cluster that was read has the name, if none of its copies in memory is equal to it.
  missed_cluster :
      (m1 : Mem) (j : ℕ) (name_of : ℕ → ℕ)
      → ((x : ℕ) → x < file_name_len_max → m1 (name + x) ≡ name_of x)
      → ((k : ℕ)
          → k < cluster_size v.bpb
          → FileByte v med first (j * cluster_size v.bpb + k) (m1 (buffer + k)))
      → match_loop (cluster_size v.bpb / fat16_dirent_size) m1 buffer name ≡ none
      → NoEntry v med first j 1 name_of
  missed_cluster m1 j name_of names bytes missed j' i at p q h here same =
      let C = cluster_size v.bpb in
      let inside : i * fat16_dirent_size + fat16_dirent_size ≤ C =
        omega (arith, h, cluster_size-eq f) in
      let this : j' ≡ j = omega (arith, p, q) in
      let entry : (x : ℕ)
          → x < file_name_len_max
          → m1 (buffer + i * fat16_dirent_size + x)
            ≡ cluster_byte v med at (i * fat16_dirent_size + x) =
        λ x lt.
          let y = i * fat16_dirent_size + x in
          let short : y < C = omega (arith, inside, lt) in
          let (at', there, byte) = bytes y short in
          let (quot, rem) = div_parts j y C short in
          let one : at' ≡ at =
            some-injective _ _
              (sym there ∙ ap (λ n. nth_cluster v med n first) (quot ∙ sym this) ∙ here) in
          ap m1 (omega arith) ∙ sym byte ∙ ap₂ (λ (a b : ℕ). cluster_byte v med a b) one rem in
      match_loop-none (C / fat16_dirent_size) m1 buffer name missed i h (
        SameName-strncmp m1 (buffer + i * fat16_dirent_size) name
          (λ x. cluster_byte v med at (i * fat16_dirent_size + x)) name_of entry names same)

  find_loop-Ends :
      (left j : ℕ) (file : File) (d : D) (m : Mem)
      → content d ≡ med
      → u16 file.node.fs_specific ≡ first
      → file.offset ≡ j * cluster_size v.bpb
      → (j + left) * cluster_size v.bpb < 2 ^ 32
      → Ends
          (LookupOutcome content v med first j left name fill m)
          (find_loop dev left fuel v single cluster file buffer name fill d m)
  unfolding find_loop
  find_loop-Ends zero j file d m same begins at room =
      ends (same, λ x h. refl, inl (refl, λ j' i a p q. absurd (omega (arith, p, q))))
  find_loop-Ends (suc left) j file d m same begins at room =
      let C = cluster_size v.bpb in
      let Q = LookupOutcome content v med first j (suc left) name fill m in
      let big : j * C < 2 ^ 32 = omega (arith, room) in
      Ends-then Q _
        (read_fat16-Ends dev content limit medium v top f fuel file buffer C single cluster d m
          (subst (λ w. IsClosed v w top) (sym same) closed)
          (inr (subst (λ c. c < top) (sym begins) below)) (omega (arith, at, big))
          (omega (arith, cluster_size-eq f, f.byte)) enough away apart)
        (λ (n, (file1, (d1, m1))) (less, bytes, stop, moved, node, kept, outside).
          let name_kept : (x : ℕ) → x < file_name_len_max → m1 (name + x) ≡ m (name + x) = λ x h.
            outside (name + x) (omega (arith, h, name_buffer)) (omega (arith, h, name_single))
              (omega (arith, h, name_cluster)) in
          let not_dead : is_end (u16 file.node.fs_specific) ≡ true → ⊥ =
            λ dead. false≢true (sym alive ∙ sym (ap is_end begins) ∙ dead) in
          by_cases (Ends Q) (n == 0)
            (λ q.
              let nothing : n ≡ 0 = ground (arith, q) in
              let positive : 0 < C = omega (arith, cluster_size-eq f, f.per_cluster) in
              let over : nth_cluster v med j first ≡ none =
                elim (stop (omega (arith, nothing, positive))) [
                  | inl dead ↦ absurd (not_dead dead)
                  | inr end ↦
                      ended_cluster n file.offset j at nothing positive
                        (subst₂ (λ w c. FileEnds v w c (file.offset + n)) same begins end)
                ] in
              ends
                (kept ∙ same, name_kept, inl (refl, NoEntry-ended v med first j (suc left) _ over)))
            (λ q.
              let positive : 0 < n = ground (arith, q) in
              let read : (k : ℕ)
                  → k < n
                  → FileByte v med first (file.offset + k) (m1 (buffer + k)) =
                λ k h.
                  subst₂ (λ w c. FileByte v w c (file.offset + k) (m1 (buffer + k))) same begins
                    (bytes k h) in
              let whole : n ≡ C = elim (lt_or_le n C) [
                | inl short ↦ absurd (elim (stop short) [
                  | inl dead ↦ not_dead dead
                  | inr end ↦
                      whole_cluster n file.offset j at positive short _ (read 0 positive)
                        (subst₂ (λ w c. FileEnds v w c (file.offset + n)) same begins end)
                ])
                | inr full ↦ omega (arith, less, full)
              ] in
              by_option (Ends Q) (match_loop (C / fat16_dirent_size) m1 buffer name)
                (λ missed.
                  let here =
                    missed_cluster m1 j (λ x. m (name + x)) name_kept
                      (λ k h.
                        subst (λ o. FileByte v med first (o + k) (m1 (buffer + k))) at
                          (read k (omega (arith, whole, h))))
                      missed in
                  Ends-weaken
                    (find_loop-Ends left (j + 1) file1 d1 m1 (kept ∙ same)
                      (ap (λ t. u16 t.fs_specific) node ∙ begins)
                      (omega (arith, moved, at, whole, room)) (omega (arith, room)))
                    (λ (r, (e, m')) (same', names, found). (
                      same',
                      λ x h. names x h ∙ name_kept x h,
                      elim found [
                        | inr hit ↦ inr hit
                        | inl (zero_result, rest) ↦ inl (
                          zero_result,
                          NoEntry-step v med first j left _ here (λ j' i a p q h e eq.
                              rest j' i a p q h e
                                (λ k lt full. eq k lt full ∙ sym (name_kept k lt))),
                        )
                      ],
                    )))
                (λ r hit.
                  let (i, inside, place, equal) =
                    match_loop-some (C / fat16_dirent_size) m1 buffer name r hit in
                  let (names, found) =
                    copied_entry m1 j i inside
                      (λ k h.
                        subst (λ o. FileByte v med first (o + k) (m1 (buffer + k))) at
                          (read k (omega (arith, whole, h))))
                      (subst (λ a. strncmp m1 a name file_name_len_max ≡ 0) place equal) in
                  subst (λ a. Ends Q (some (a, (d1, memcpy m1 fill a fat16_dirent_size))))
                    (sym place)
                    (ends (
                      kept ∙ same,
                      λ x h. names x h ∙ name_kept x h,
                      inr (omega (arith, some_buffer), found),
                    )))))

-- On a formatted volume with a closed FAT, `read_cluster_find_match` ends for every open directory whose chain is alive,
-- if it has its buffer. The medium and the name are as they were. The result is 0 only if no entry of the first
-- size/cluster_size clusters of the directory has the name in its first 8 bytes, up to a terminator; otherwise an entry of
-- the directory with that name, 32 bytes of its chain at a multiple of 32, has been copied to `fill_val`.
pub read_cluster_find_match-Ends {ℓ} :
    {D : Type ℓ} (dev : BlockDevice D) (content : D → ℕ → ℕ → ℕ) (limit : ℕ)
    (medium : IsMedium dev content limit) (v : Volume) (top : ℕ) (f : IsFormatted v top limit)
    (fuel : ℕ) (t : Tables) (ct buffer single cluster f_name fill_val : ℕ) (d : D) (m : Mem)
    → ((t.cache ct).content_type ≡ cte_mount_pnt)
      ⊎ ((t.cache ct).content_type ≡ cte_root)
      ⊎ ((t.cache ct).content_type ≡ cte_dir)
    → buffer ≢ 0
    → IsClosed v (content d) top
    → is_end (u16 (directory_node t ct).fs_specific) ≡ false
    → u16 (directory_node t ct).fs_specific < top
    → (directory_node t ct).size < 2 ^ 32
    → cluster_size v.bpb ≤ fuel
    → Apart buffer (cluster_size v.bpb) single 512
    → Apart buffer (cluster_size v.bpb) cluster (cluster_size v.bpb)
    → Apart f_name file_name_len_max buffer (cluster_size v.bpb)
    → Apart f_name file_name_len_max single 512
    → Apart f_name file_name_len_max cluster (cluster_size v.bpb)
    → Apart f_name file_name_len_max fill_val fat16_dirent_size
    → Apart fill_val fat16_dirent_size buffer (cluster_size v.bpb)
    → Ends
        (LookupOutcome content v
          (content d)
          (u16 (directory_node t ct).fs_specific)
          0
          ((directory_node t ct).size / cluster_size v.bpb)
          f_name
          fill_val
          m)
        (read_cluster_find_match dev fuel v single cluster t ct buffer f_name fill_val d m)
unfolding read_cluster_find_match
read_cluster_find_match-Ends dev content limit medium v top f fuel t ct buffer single cluster name
      fill d m is_directory some_buffer closed alive below small enough away apart name_buffer
      name_single name_cluster name_fill fill_buffer =
    let node = directory_node t ct in
    let C = cluster_size v.bpb in
    let kind = (t.cache ct).content_type in
    let rounds = cluster_rounds node.size C in
    let Q =
      LookupOutcome content v (content d) (u16 node.fs_specific) 0 (node.size / C) name fill m in
    let count : rounds ≡ node.size / C =
      cluster_rounds-eq node.size C small (omega (arith, cluster_size-eq f, f.per_cluster)) in
    let room : (0 + rounds) * C < 2 ^ 32 = omega (arith, small, cluster_rounds-fits node.size C) in
    let found : Ends Q
        (find_loop dev rounds fuel v single cluster (directory node 0) buffer name fill d m) =
      subst
        (λ n.
          Ends (LookupOutcome content v (content d) (u16 node.fs_specific) 0 n name fill m)
            (find_loop dev rounds fuel v single cluster (directory node 0) buffer name fill d m))
        count
        (find_loop-Ends dev content limit medium v top f (content d) closed (u16 node.fs_specific)
          alive below fuel enough buffer single cluster name fill some_buffer away apart name_buffer
          name_single name_cluster name_fill fill_buffer rounds 0 (directory node 0) d m refl refl
          (omega arith) room) in
    by_true (Ends Q) (kind == cte_mount_pnt || kind == cte_root || kind == cte_dir) _ _
      (ground (arith, is_directory))
      (by_false (Ends Q) (buffer == 0) _ _ (ne→not_== _ _ some_buffer) found)
