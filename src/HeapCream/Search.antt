-- ===== src/HeapCream/Search.antt =====
-- Where `heap_cream_malloc` finds room.
use gensis32os.Kheap.{kzalloc}
use gensis32os.Heap.{Heap}
use gensis32os.Prelude.{
  eq→==, ne→not_==, Option-cases, lt_or_le, eq_or_ne, pair_eq, ℕ, zero, suc, ◌+◌, ◌-◌, ◌*◌, ◌^◌,
  ◌≤◌, ◌<◌, ◌≡◌, refl, sym, ap, subst, ◌≢◌, ◌⊎◌, inl, inr, Option, none, some, arith,
}
use gensis32os.Memory.{Mem, store32}
use gensis32os.Heap32.{malloc_32, table_guard_set}
use gensis32os.Heap32.Alloc.{Malloc32, allocated, refused, malloc_32-Malloc32}
use gensis32os.HeapCream.{
  slot, search_pages, served, stopped, PageSearch, new_page, page_from, after_search,
  heap_cream_malloc,
}

-- A page of which every block lies behind its table and before its end.
pub record InPage (page p size : ℕ) : Type 0 where
  pub low : page + 128 ≤ p
  pub high : p + size ≤ page + 4096
  pub unit : (u : ℕ) × (p ≡ page + (128 + u * 32))

Malloc32-InPage :
    (m : Mem) (page size p : ℕ) {r : Option ℕ × Mem}
    → Malloc32 m page size r
    → r.0 ≡ some p
    → InPage page p size
Malloc32-InPage m page size p (allocated {m'} k n one fits tight low high run first marks) e =
    let at : page + (128 + (k - page) * 32) ≡ p = cc in
    record { low = omega arith; high = omega arith; unit = (k - page, sym at) }
Malloc32-InPage m page size p (refused why) e = cc

-- What `malloc_32` returns lies wholly inside the data part of its page, at a whole unit.
pub malloc_32-InPage :
    (m : Mem) (page size p : ℕ)
    → size < 2 ^ 32
    → (malloc_32 m page size).0 ≡ some p
    → InPage page p size
malloc_32-InPage m page size p h e =
    Malloc32-InPage m page size p (malloc_32-Malloc32 m page size h) e

-- How the loop over the pages ends, started at slot `i` with `left` slots to go: at the first page that
-- has room, or at the first empty slot, or past the last slot.
pub data PagesTried (m : Mem) (mm size i left : ℕ) : PageSearch → Type 0 where
  by :
      {p : ℕ} {m' : Mem} (j : ℕ)
      → i ≤ j
      → j < i + left
      → slot m mm j ≢ 0
      → malloc_32 m (slot m mm j) size ≡ (some p, m')
      → ((k : ℕ) → i ≤ k → k < j → (slot m mm k ≢ 0) × ((malloc_32 m (slot m mm k) size).0 ≡ none))
      → PagesTried m mm size i left (served p m')
  none_has_room :
      (j : ℕ)
      → i ≤ j
      → (j ≡ i + left) ⊎ ((j < i + left) × (slot m mm j ≡ 0))
      → ((k : ℕ) → i ≤ k → k < j → (slot m mm k ≢ 0) × ((malloc_32 m (slot m mm k) size).0 ≡ none))
      → PagesTried m mm size i left (stopped j)

PagesTried-later :
    (m : Mem) (mm size i left : ℕ) {r : PageSearch}
    → slot m mm i ≢ 0
    → (malloc_32 m (slot m mm i) size).0 ≡ none
    → PagesTried m mm size (i + 1) left r
    → PagesTried m mm size i (suc left) r
PagesTried-later m mm size i left some_page no_room (by j a b c d before) =
    by j (omega arith) (omega arith) c d (λ k p q. elim (eq_or_ne k i) [
      | inl e ↦ rw e (some_page, no_room)
      | inr ne ↦ before k (omega arith) q
    ])
PagesTried-later m mm size i left some_page no_room (none_has_room j a b before) =
    none_has_room j (omega arith)
      (elim b [ inl e ↦ inl (omega arith) | inr e ↦ inr (omega arith, e.1) ])
      (λ k p q. elim (eq_or_ne k i) [
        | inl e ↦ rw e (some_page, no_room)
        | inr ne ↦ before k (omega arith) q
      ])

-- `heap_cream_malloc` looks for room in the pages in the order of their slots.
pub search_pages-PagesTried :
    (left : ℕ) (m : Mem) (mm size i : ℕ)
    → PagesTried m mm size i left (search_pages left m mm size i)
unfolding search_pages
search_pages-PagesTried zero m mm size i =
    none_has_room i (omega arith) (inl (omega arith)) (λ k p q. absurd (omega arith))
search_pages-PagesTried (suc left) m mm size i = elim (eq_or_ne (slot m mm i) 0) [
  | inl e ↦
      rw (eq→== (slot m mm i) 0 e)
        (none_has_room i (omega arith) (inr (omega arith, e)) (λ k p q. absurd (omega arith)))
  | inr ne ↦ elim (Option-cases (malloc_32 m (slot m mm i) size).0) [
    | inl no_room ↦
        rw (ne→not_== (slot m mm i) 0 ne, no_room)
          (PagesTried-later m mm size i left ne no_room
            (search_pages-PagesTried left m mm size (i + 1)))
    | inr (p, room) ↦
        rw (ne→not_== (slot m mm i) 0 ne, room)
          (by i (omega arith) (omega arith) ne (pair_eq (malloc_32 m (slot m mm i) size) room refl)
            (λ k a b. absurd (omega arith)))
  ]
]

-- A new page for slot `j` that does not serve the request: the kernel heap gives none, and the slot is 0; or the page
-- heap finds no room in the page that is put into the slot.
abbrev pub PageFailed : Heap → Mem → (mm size j : ℕ) → Mem → Type 0
PageFailed h m mm size j m' =
    (m1 : Mem) × (((kzalloc h m 1 ≡ some (none, m1)) × (m' ≡ store32 m1 (mm + 4 * j) 0))
      ⊎ ((page : ℕ) × (kzalloc h m 1 ≡ some (some page, m1))
          × (malloc_32 (table_guard_set (store32 m1 (mm + 4 * j) page) page) page size
              ≡ (none, m'))))

-- The three ways in which a `heap_cream_malloc` that does not fault ends.
pub data CreamMalloc (m : Mem) (h : Heap) (mm size : ℕ) : Option ℕ × Mem → Type 0 where
  -- the first page with room serves it
  old :
      {p : ℕ} {m' : Mem} (j : ℕ)
      → j < 124
      → size ≤ 3968
      → InPage (slot m mm j) p size
      → malloc_32 m (slot m mm j) size ≡ (some p, m')
      → ((k : ℕ) → k < j → (slot m mm k ≢ 0) × ((malloc_32 m (slot m mm k) size).0 ≡ none))
      → CreamMalloc m h mm size (some p, m')
  -- no page before the first empty slot `j` has room, and a new page serves it
  -- the kernel heap gives the page, its address is put into slot `j`, and the block is taken from it
  new :
      {p : ℕ} {m' : Mem} (j page : ℕ) (m1 : Mem)
      → j < 124
      → size ≤ 3968
      → slot m mm j ≡ 0
      → kzalloc h m 1 ≡ some (some page, m1)
      → malloc_32 (table_guard_set (store32 m1 (mm + 4 * j) page) page) page size ≡ (some p, m')
      → InPage page p size
      → ((k : ℕ) → k < j → (slot m mm k ≢ 0) × ((malloc_32 m (slot m mm k) size).0 ≡ none))
      → CreamMalloc m h mm size (some p, m')
  -- NULL: too large, or no page of the 124 has room, or the new page failed
  null :
      {m' : Mem}
      → ((3968 < size) × (m' ≡ m))
        ⊎ ((m' ≡ m) × ((k : ℕ) → k < 124 → (malloc_32 m (slot m mm k) size).0 ≡ none))
        ⊎ ((j : ℕ) × (j < 124)
            × (slot m mm j ≡ 0)
            × ((k : ℕ) → k < j → (malloc_32 m (slot m mm k) size).0 ≡ none)
            × PageFailed h m mm size j m')
      → CreamMalloc m h mm size (none, m')

page_from-CreamMalloc :
    (h : Heap) (m : Mem) (mm size j : ℕ) (r : Option ℕ × Mem)
    → size ≤ 3968
    → j < 124
    → slot m mm j ≡ 0
    → ((k : ℕ) → k < j → (slot m mm k ≢ 0) × ((malloc_32 m (slot m mm k) size).0 ≡ none))
    → kzalloc h m 1 ≡ some r
    → CreamMalloc m h mm size (page_from mm size j r)
unfolding page_from
page_from-CreamMalloc h m mm size j (none, m1) fits lt empty before got =
    null (inr (inr (j, lt, empty, (λ k p. (before k p).1), (m1, inl (got, refl)))))
page_from-CreamMalloc h m mm size j (some page, m1) fits lt empty before got =
    let m2 = table_guard_set (store32 m1 (mm + 4 * j) page) page in
    let out = malloc_32 m2 page size in
    elim (Option-cases out.0) [
      | inl none_left ↦
          let made : out ≡ (none, out.1) = pair_eq out none_left refl in
          subst (CreamMalloc m h mm size) (sym made)
            (null (inr (inr (j, lt, empty, (λ k p. (before k p).1), (m1, inr (page, got, made))))))
      | inr (p, some_left) ↦
          let made : out ≡ (some p, out.1) = pair_eq out some_left refl in
          subst (CreamMalloc m h mm size) (sym made) (
            new j page m1 lt fits empty got made
              (malloc_32-InPage m2 page size p (omega arith) some_left) before)
    ]

new_page-CreamMalloc :
    (h : Heap) (m : Mem) (mm size j : ℕ) (q : Option ℕ × Mem)
    → size ≤ 3968
    → j < 124
    → slot m mm j ≡ 0
    → ((k : ℕ) → k < j → (slot m mm k ≢ 0) × ((malloc_32 m (slot m mm k) size).0 ≡ none))
    → new_page h m mm size j ≡ some q
    → CreamMalloc m h mm size q
unfolding new_page
new_page-CreamMalloc h m mm size j q fits lt empty before e = elim (Option-cases (kzalloc h m 1)) [
  | inl fault ↦ absurd (ground (arith, fault))
  | inr (r, got) ↦
      let made : page_from mm size j r ≡ q = ground (arith, got) in
      subst (CreamMalloc m h mm size) made
        (page_from-CreamMalloc h m mm size j r fits lt empty before got)
]

after_search-CreamMalloc :
    (h : Heap) (m : Mem) (mm size : ℕ) (q : Option ℕ × Mem) {s : PageSearch}
    → size ≤ 3968
    → PagesTried m mm size 0 124 s
    → after_search h m mm size s ≡ some q
    → CreamMalloc m h mm size q
unfolding after_search
after_search-CreamMalloc h m mm size q fits (by {p} {m'} j a b c d before) e =
    let made : (some p, m') ≡ q = cc in
    subst (CreamMalloc m h mm size) made (
      old j (omega arith) fits
        (malloc_32-InPage m (slot m mm j) size p (omega arith) (ap (λ x. x.0) d)) d
        (λ k q. before k (omega arith) q))
after_search-CreamMalloc h m mm size q fits (none_has_room j a b before) e = elim (eq_or_ne j 124) [
  | inl end ↦
      let made : (none, m) ≡ q = ground (arith, end) in
      subst (CreamMalloc m h mm size) made
        (null (inr (inl (refl, λ k lt. (before k (omega arith) (omega arith)).1))))
  | inr more ↦ elim b [
    | inl end ↦ absurd (more (omega arith))
    | inr stop ↦
        new_page-CreamMalloc h m mm size j q fits (omega arith) stop.1
          (λ k lt. before k (omega arith) lt) (ground (arith, more))
  ]
]

-- Every `heap_cream_malloc` that does not fault ends in one of these ways: the first page with room
-- serves the request; or none before the first empty slot has room, and a new page of the kernel heap, put into that
-- slot, serves it; or NULL, for more than 3968 bytes, when no page has room, or when the kernel heap gives no page (the
-- slot is 0 then) or the new page has no room. What it returns lies inside the data part of one page.
pub heap_cream_malloc-CreamMalloc :
    (h : Heap) (m : Mem) (mm size : ℕ) (q : Option ℕ × Mem)
    → heap_cream_malloc h m mm size ≡ some q
    → CreamMalloc m h mm size q
unfolding heap_cream_malloc
heap_cream_malloc-CreamMalloc h m mm size q e = elim (lt_or_le 3968 size) [
  | inl big ↦
      let made : (none, m) ≡ q = ground arith in
      subst (CreamMalloc m h mm size) made (null (inl (big, refl)))
  | inr fits ↦
      after_search-CreamMalloc h m mm size q fits (search_pages-PagesTried 124 m mm size 0)
        (ground arith)
]
