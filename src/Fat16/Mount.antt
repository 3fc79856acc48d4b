-- ===== src/Fat16/Mount.antt =====
-- Mounting a volume.
use gensis32os.Vfs.{generate_hash}
use gensis32os.Prelude.Branches.{by_false, by_true, by_some}
use gensis32os.Prelude.{
  leb, ◌==◌, if◌then◌else◌, eq→==, ne→not_==, Bool-cases, u32, neg, ℕ, suc, ◌+◌, ◌-◌, ◌^◌, ◌<◌, ◌≡◌,
  refl, sym, ap, ◌∙◌, ◌≢◌, inl, inr, Bool, true, false, Option, some, List, [], ◌∷◌, arith,
}
use gensis32os.Fat16.{Bpb}
use gensis32os.Fat16.Tables.{
  Tables, set_next, set_prev, cte_mount_pnt, max_open_file_count, free_if,
}
use gensis32os.Fat16.Mounting.{
  append_cache, fill_mount, find_path, mount_failed, append_mount, mount_fat16,
}
use gensis32os.Memory.{put_block}

-- What the first mount leaves: one entry in the cache table, with the hash of the path, for the mount.
pub record IsFirstMount (t : Tables) (mnt ct hash : ℕ) : Type 0 where
  pub start : t.cache_table_start ≡ ct
  pub last : t.cache_table_last ≡ ct
  pub hashed : (t.cache ct).path_hash ≡ hash
  pub kind : (t.cache ct).content_type ≡ cte_mount_pnt
  pub points : (t.cache ct).content ≡ mnt
  pub next : (t.cache ct).next ≡ 0

find_path-first :
    (fuel : ℕ) (t : Tables) (mnt ct hash : ℕ)
    → ct ≢ 0
    → IsFirstMount t mnt ct hash
    → find_path (suc fuel) t.cache t.cache_table_start hash ≡ some true
unfolding find_path
find_path-first fuel t mnt ct hash not_null first =
    let P = λ (r : Option Bool). r ≡ some true in
    let here : t.cache_table_start ≢ 0 = λ e. not_null (sym first.start ∙ e) in
    by_false P _ _ _ (ne→not_== _ _ here) (
      by_true P _ _ _ (eq→== _ _ (ap (λ a. (t.cache a).path_hash) first.start ∙ first.hashed)) refl)

fill_mount-IsFirstMount :
    (t : Tables) (part mnt bpb_at : ℕ) (b : Bpb) (r_node ct hash : ℕ)
    → t.cache_table_start ≡ 0
    → let t' = fill_mount t part mnt bpb_at b r_node ct hash in
      IsFirstMount t' mnt ct hash × (t'.cache_table_count ≡ u32 (t.cache_table_count + 1))
unfolding fill_mount append_cache set_next set_prev put_block
fill_mount-IsFirstMount t part mnt bpb_at b r_node ct hash empty =
    let self : (ct == ct) ≡ true = eq→== ct ct refl in
    rw (empty) (
      record {
        start = refl;
        last = refl;
        hashed = rw (self) refl;
        kind = rw (self) refl;
        points = rw (self) refl;
        next = rw (self) refl;
      },
      refl,
    )

append_mount-cache :
    (t : Tables) (mnt : ℕ)
    → ((append_mount t mnt).cache_table_start ≡ t.cache_table_start)
      × ((append_mount t mnt).cache_table_count ≡ t.cache_table_count)
unfolding append_mount
append_mount-cache t mnt = elim (Bool-cases (t.mount_table_start == 0)) [
  | inl e ↦ rw (e) (refl, refl)
  | inr e ↦ rw (e) (refl, refl)
]

-- The arguments of a call of `mount_fat16`, with what its two variables hold before they are set.
pub record Attempt : Type 0 where
  pub unset_mnt : ℕ
  pub unset_bpb : ℕ
  pub part : ℕ
  pub path : List ℕ
  pub r_node : ℕ
  pub mnt : ℕ
  pub ct : ℕ
  pub parsed : Option (ℕ × Bpb)

abbrev pub mount_as : (fuel : ℕ) → Attempt → Tables → Option (ℕ × Tables)
mount_as fuel a t =
    mount_fat16 fuel a.unset_mnt a.unset_bpb a.part a.path a.r_node a.mnt a.ct a.parsed t

-- An address that is freed unless it is NULL, in front of those freed before.
abbrev pub dropped : (ptr : ℕ) → List ℕ → List ℕ
dropped p l = if p == 0 then l else p ∷ l

-- The tables behind a refused call: nothing but the three blocks that were freed.
abbrev pub refused_by : Attempt → Tables → Tables
refused_by a t = record t {
  freed = dropped a.r_node (dropped a.unset_bpb (dropped a.unset_mnt t.freed));
}

-- Every call of the list, made in its order, returns the negative of MOUNT_FAILURE and changes nothing else.
abbrev pub AllRefused : (fuel : ℕ) → List Attempt → Tables → Type 0
AllRefused fuel [] t = Unit {0}
AllRefused fuel (a ∷ later) t =
    (mount_as fuel a t ≡ some (2 ^ 32 - 35, refused_by a t))
    × AllRefused fuel later (refused_by a t)

free_if-dropped : (t : Tables) (p : ℕ) → free_if t p ≡ record t { freed = dropped p t.freed }
free_if-dropped t p = elim (Bool-cases (p == 0)) [ inl e ↦ rw (e) refl | inr e ↦ rw (e) refl ]

mount_failed-refused :
    (t : Tables) (a : Attempt)
    → mount_failed t a.unset_mnt a.unset_bpb a.r_node ≡ (2 ^ 32 - 35, refused_by a t)
unfolding mount_failed
mount_failed-refused t a =
    let t1 = record t { freed = dropped a.unset_mnt t.freed } in
    let t2 = record t { freed = dropped a.unset_bpb (dropped a.unset_mnt t.freed) } in
    let one = free_if-dropped t a.unset_mnt in
    let two = ap (λ x. free_if x a.unset_bpb) one ∙ free_if-dropped t1 a.unset_bpb in
    let three = ap (λ x. free_if x a.r_node) two ∙ free_if-dropped t2 a.r_node in
    ap (λ x. (neg 35, x)) three

-- Whatever is tried while there is only the first mount is refused, since all paths have one hash.
all_refused :
    (fuel : ℕ) (later : List Attempt) (t : Tables) (mnt ct : ℕ) (path : List ℕ)
    → ct ≢ 0
    → t.cache_table_count < max_open_file_count
    → IsFirstMount t mnt ct (generate_hash path)
    → AllRefused (suc fuel) later t
unfolding mount_fat16
all_refused fuel [] t mnt ct path some_ct room first = tt
all_refused fuel (a ∷ later) t mnt ct path some_ct room first =
    let Q = λ (r : Option (ℕ × Tables)). r ≡ some (2 ^ 32 - 35, refused_by a t) in
    let kept : IsFirstMount (refused_by a t) mnt ct (generate_hash path) = record {
      start = first.start;
      last = first.last;
      hashed = first.hashed;
      kind = first.kind;
      points = first.points;
      next = first.next;
    } in
    (
      by_false Q (leb max_open_file_count t.cache_table_count) _ _ (ground (arith, room)) (
          by_some Q _ _ _ true (find_path-first fuel t mnt ct (generate_hash a.path) some_ct first)
            (ap (λ (r : ℕ × Tables). some r) (mount_failed-refused t a))),
      all_refused fuel later (refused_by a t) mnt ct path some_ct room kept,
    )

-- While no file is open, mounting a volume whose boot sector is accepted succeeds, if the heap gives its blocks. The
-- hash of a path is the same for all paths, so every series of calls of `mount_fat16` that follows, with any paths and
-- volumes, is refused with the negative of MOUNT_FAILURE: each call frees the node that it was given and whatever its
-- two variables hold that it has not set, and changes nothing else.
pub mount_fat16-once :
    (fuel : ℕ) (first : Attempt) (bpb : ℕ × Bpb) (later : List Attempt) (t : Tables)
    → t.cache_table_start ≡ 0
    → t.cache_table_count + 1 < max_open_file_count
    → first.parsed ≡ some bpb
    → first.r_node ≢ 0
    → first.mnt ≢ 0
    → first.ct ≢ 0
    → (t1 : Tables) × (mount_as (suc fuel) first t ≡ some (0, t1))
      × IsFirstMount t1 first.mnt first.ct (generate_hash first.path)
      × AllRefused (suc fuel) later t1
unfolding mount_fat16 find_path
mount_fat16-once fuel a bpb later t empty room accepted some_node some_mnt some_ct =
    let hash = generate_hash a.path in
    let t0 = append_mount t a.mnt in
    let (start0, count0) = append_mount-cache t a.mnt in
    let t1 = fill_mount t0 a.part a.mnt bpb.0 bpb.1 a.r_node a.ct hash in
    let (first, count) =
      fill_mount-IsFirstMount t0 a.part a.mnt bpb.0 bpb.1 a.r_node a.ct hash (start0 ∙ empty) in
    let P = λ (r : Option (ℕ × Tables)). r ≡ some (0, t1) in
    let none_yet : find_path (suc fuel) t.cache t.cache_table_start hash ≡ some false =
      by_true (λ (r : Option Bool). r ≡ some false) _ _ _ (eq→== _ _ empty) refl in
    (
      t1,
      by_false P (leb max_open_file_count t.cache_table_count) _ _ (ground (arith, room)) (
          by_some P _ _ _ false none_yet (
            by_false P (a.mnt == 0) _ _ (ne→not_== _ _ some_mnt) (
              by_some P _ _ _ bpb accepted
                (by_false P (a.r_node == 0) _ _ (ne→not_== _ _ some_node) refl)))),
      first,
      all_refused fuel later t1 a.mnt a.ct a.path some_ct (omega (arith, room, count, count0))
          first,
    )
