-- ===== src/Fat16/LostEntry.antt =====
-- Closing the last entry of the cache table, and opening another.
use gensis32os.Fat16.Linking.{put_block_ne, set_next_self, set_next_ne, set_prev_self, set_prev_ne}
use gensis32os.Prelude.Branches.{by_false}
use gensis32os.Prelude.{
  ◌==◌, le→not_ltb, ne→not_==, Bool-cases, ℕ, ◌≤◌, ◌≡◌, refl, sym, ap, ap₂, ◌∙◌, subst, ◌≢◌, inl,
  inr, List, [], ◌∷◌, ◌++◌,
}
use gensis32os.Memory.{Mem}
use gensis32os.Fat16.Tables.{Tables, set_next, set_prev, unlink_cache, cte_mount_pnt}
use gensis32os.Fat16.Opening.{fat16_sub_open_file, fat16_sub_close_file}
use gensis32os.Memory.{put_block}
use gensis32os.Fat16.OpenFiles.{
  last_of, Without, IsTable, Without-last, last_of-append, Links, Links-relast, Links-same,
  Links-parts, Distinct-append, Without-append, apart-one,
}

closed-fields :
    (t : Tables) (y : ℕ)
    → y ≢ 0
    → (t.cache y).refcount ≤ 1
    → (t.cache y).content_type ≢ cte_mount_pnt
    → let (r, t1) = fat16_sub_close_file y t in
      (r ≡ 0)
      × (t1.cache ≡ unlink_cache t.cache y)
      × (t1.cache_table_last ≡ t.cache_table_last)
      × (t1.cache_table_start ≡ t.cache_table_start)
unfolding fat16_sub_close_file
closed-fields t y not_null one file =
    rw (ne→not_== y 0 not_null, le→not_ltb 1 (t.cache y).refcount one, ne→not_== _ _ file)
      (elim (Bool-cases ((t.cache y).content == 0)) [
        | inl e ↦ rw (e) (refl, refl, refl, refl)
        | inr e ↦ rw (e) (refl, refl, refl, refl)
      ])

-- An entry that is linked behind a block outside the table is not in the table.
opened-behind :
    (m : Mem) (dir_ent : ℕ) (path : List ℕ) (origin ct node : ℕ) (t : Tables) (x : ℕ) (xs : List ℕ)
    (y : ℕ)
    → Links t.cache 0 (x ∷ xs) 0
    → t.cache_table_last ≡ y
    → y ≢ ct
    → Without y (x ∷ xs)
    → Without ct (x ∷ xs)
    → ct ≢ 0
    → node ≢ 0
    → let (opened, t2) = fat16_sub_open_file m dir_ent path origin ct node t in
      (opened ≡ ct)
      × ((t2.cache ct).prev ≡ y)
      × (t2.cache_table_start ≡ t.cache_table_start)
      × Links t2.cache 0 (x ∷ xs) 0
unfolding fat16_sub_open_file
opened-behind m dir_ent path origin ct node t x xs y links last apart out new some_ct some_node =
    let P = λ (r : ℕ × Tables).
      (r.0 ≡ ct)
      × ((r.1.cache ct).prev ≡ y)
      × (r.1.cache_table_start ≡ t.cache_table_start)
      × Links r.1.cache 0 (x ∷ xs) 0 in
    let was = t.cache_table_last in
    by_false P (ct == 0) _ _ (ne→not_== _ _ some_ct) (
      by_false P (node == 0) _ _ (ne→not_== _ _ some_node) (
        refl,
        ap (λ e. e.prev) (set_prev_self (set_next (put_block t.cache ct _) was ct) ct was) ∙ last,
        refl,
        Links-same t.cache _ 0 (x ∷ xs) 0 y ct links out new (λ a no_y no_new.
            set_prev_ne (set_next (put_block t.cache ct _) was ct) ct was a no_new
            ∙ set_next_ne (put_block t.cache ct _) was ct a (λ e. no_y (e ∙ last))
            ∙ put_block_ne t.cache ct _ a no_new),
      ))

-- The last entry of the table is closed, and another file opened: `cache_table_last` was left at the block that went
-- back to the heap, so the new entry is linked behind that block, and the table from its start on lacks it.
pub fat16_sub_close_file-lost :
    (m : Mem) (dir_ent : ℕ) (path : List ℕ) (origin ct node : ℕ) (t : Tables) (x : ℕ) (xs : List ℕ)
    (y : ℕ)
    → IsTable t ((x ∷ xs) ++ y ∷ [])
    → (t.cache y).refcount ≤ 1
    → (t.cache y).content_type ≢ cte_mount_pnt
    → ct ≢ 0
    → node ≢ 0
    → Without ct ((x ∷ xs) ++ y ∷ [])
    → let (r, t1) = fat16_sub_close_file y t in
      let (opened, t2) = fat16_sub_open_file m dir_ent path origin ct node t1 in
      (r ≡ 0)
      × (opened ≡ ct)
      × (t1.cache_table_last ≡ y)
      × ((t2.cache ct).prev ≡ y)
      × (t2.cache_table_start ≡ x)
      × Links t2.cache 0 (x ∷ xs) 0
unfolding unlink_cache
fat16_sub_close_file-lost m dir_ent path origin ct node t x xs y table one file some_ct some_node
      out =
    let c = t.cache in
    let (null_before, null_after) = Without-append 0 (x ∷ xs) (y ∷ []) table.no_null in
    let (new_before, new_after) = Without-append ct (x ∷ xs) (y ∷ []) out in
    let (before, after) = Links-parts c 0 x xs (y ∷ []) 0 table.links in
    let p = last_of x xs in
    let c1 = set_next c p 0 in
    let c2 = set_prev c1 0 p in
    let whole : c2 ≡ unlink_cache c y =
      ap₂ (λ (a b : ℕ). set_prev (set_next c a b) b a) (sym after.0) (sym after.1) in
    let apart : p ≢ 0 = Without-last 0 x xs null_before in
    let at_last : c2 p ≡ record (c p) { next = 0 } =
      set_prev_ne c1 0 p p apart ∙ set_next_self c p 0 in
    let shorter : Links c2 0 (x ∷ xs) 0 =
      Links-relast c c2 0 x xs y 0 0 before (Distinct-append (x ∷ xs) (y ∷ []) table.distinct).0
        null_before
        (λ a no_last no_null. set_prev_ne c1 0 p a no_null ∙ set_next_ne c p 0 a no_last)
        (ap (λ t. t.prev) at_last) (ap (λ t. t.next) at_last) in
    let last : t.cache_table_last ≡ y = table.end ∙ last_of-append 0 x (x ∷ xs) y [] in
    let (r, cache, same_last, same_start) = closed-fields t y null_after.0 one file in
    let (done, t1) = fat16_sub_close_file y t in
    let (opened, behind, start, left) =
      opened-behind m dir_ent path origin ct node t1 x xs y
        (subst (λ g. Links g 0 (x ∷ xs) 0) (whole ∙ sym cache) shorter) (same_last ∙ last)
        new_after.0 (apart-one (x ∷ xs) y table.distinct) new_before some_ct some_node in
    (r, opened, same_last ∙ last, behind, start ∙ same_start ∙ table.start, left)
