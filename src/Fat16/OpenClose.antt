-- ===== src/Fat16/OpenClose.antt =====
-- Opening and closing a file or directory of a FAT16 volume.
use gensis32os.Fat16.Linking.{append-Links, unlink-Links}
use gensis32os.Prelude.Branches.{by_false}
use gensis32os.Prelude.{
  ◌==◌, le→not_ltb, ne→not_==, Bool-cases, ℕ, ◌≤◌, ◌≡◌, refl, sym, ◌∙◌, ◌≢◌, inl, inr, List, [],
  ◌∷◌, ◌++◌,
}
use gensis32os.Memory.{Mem}
use gensis32os.Fat16.Tables.{Tables, unlink_cache, cte_mount_pnt, free_if}
use gensis32os.Fat16.Opening.{fat16_sub_open_file, fat16_sub_close_file}
use gensis32os.Fat16.OpenFiles.{
  last_of, Without, IsTable, Without-last, Without-join, Distinct-snoc, last_of-append,
  Without-append, Distinct-drop,
}

-- Behind the last entry of a table that is not empty, `fat16_sub_open_file` puts the new one; the others keep their order.
pub fat16_sub_open_file-IsTable :
    (m : Mem) (dir_ent : ℕ) (path : List ℕ) (origin ct node : ℕ) (t : Tables) (x : ℕ) (xs : List ℕ)
    → IsTable t (x ∷ xs)
    → ct ≢ 0
    → node ≢ 0
    → Without ct (x ∷ xs)
    → let (r, t') = fat16_sub_open_file m dir_ent path origin ct node t in
      (r ≡ ct) × IsTable t' ((x ∷ xs) ++ ct ∷ [])
unfolding fat16_sub_open_file
fat16_sub_open_file-IsTable m dir_ent path origin ct node t x xs table some_ct some_node out =
    let P = λ (r : ℕ × Tables). (r.0 ≡ ct) × IsTable r.1 ((x ∷ xs) ++ ct ∷ []) in
    let last = t.cache_table_last in
    let at : last ≡ last_of x xs = table.end in
    let apart : last ≢ ct = λ e. Without-last ct x xs out (sym at ∙ e) in
    by_false P (ct == 0) _ _ (ne→not_== _ _ some_ct) (
      by_false P (node == 0) _ _ (ne→not_== _ _ some_node) (
        refl,
        record {
          start = table.start;
          end = sym (last_of-append 0 x (x ∷ xs) ct []);
          links =
              append-Links t.cache x xs t.cache_table_last ct _ table.links table.distinct out
                table.end refl;
          distinct = Distinct-snoc (x ∷ xs) ct table.distinct out;
          no_null = Without-join 0 (x ∷ xs) (ct ∷ []) table.no_null (some_ct, tt);
        },
      ))

free_if-IsTable : (t : Tables) (p : ℕ) (xs : List ℕ) → IsTable t xs → IsTable (free_if t p) xs
free_if-IsTable t p xs table =
    let freed : Tables = record t { freed = p ∷ t.freed } in
    let same : IsTable freed xs = record {
      start = table.start;
      end = table.end;
      links = table.links;
      distinct = table.distinct;
      no_null = table.no_null;
    } in
    elim (Bool-cases (p == 0)) [ inl e ↦ rw (e) table | inr e ↦ rw (e) same ]

-- `fat16_sub_close_file` takes an entry out of the table that stands between two others, if it has no second user and
-- is no mount point; the others keep their order.
pub fat16_sub_close_file-IsTable :
    (t : Tables) (x : ℕ) (xs : List ℕ) (y z : ℕ) (zs : List ℕ)
    → IsTable t ((x ∷ xs) ++ y ∷ z ∷ zs)
    → (t.cache y).refcount ≤ 1
    → (t.cache y).content_type ≢ cte_mount_pnt
    → let (r, t') = fat16_sub_close_file y t in (r ≡ 0) × IsTable t' ((x ∷ xs) ++ z ∷ zs)
unfolding fat16_sub_close_file
fat16_sub_close_file-IsTable t x xs y z zs table one file =
    let rest = y ∷ z ∷ zs in
    let closed : Tables = record t { cache = unlink_cache t.cache y; freed = y ∷ t.freed } in
    let (null_before, null_after) = Without-append 0 (x ∷ xs) rest table.no_null in
    rw (ne→not_== y 0 null_after.0, le→not_ltb 1 (t.cache y).refcount one, ne→not_== _ _ file)
      (
        refl,
        free_if-IsTable closed (t.cache y).content ((x ∷ xs) ++ z ∷ zs) (record {
          start = table.start;
          end =
              table.end
              ∙ last_of-append 0 x (x ∷ xs) y (z ∷ zs)
              ∙ sym (last_of-append 0 x (x ∷ xs) z zs);
          links = unlink-Links t.cache x xs y z zs table.links table.distinct;
          distinct = Distinct-drop (x ∷ xs) y (z ∷ zs) table.distinct;
          no_null = Without-join 0 (x ∷ xs) (z ∷ zs) null_before null_after.1;
        }),
      )
