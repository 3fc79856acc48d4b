-- ===== src/Heap/Invariant.antt =====
-- The well-formedness of a block table, and that every operation keeps it.
use gensis32os.Essentials.Fill.{memset-at}
use gensis32os.Essentials.{memset}
use gensis32os.Heap.Release.{table_free-idle, table_free-block}
use gensis32os.Prelude.{
  eq_or_ne, sub32, sdiv32, ℕ, ◌+◌, ◌/◌, ◌%◌, ◌^◌, ◌≤◌, ◌<◌, ◌≡◌, refl, ◌∙◌, ◌⊎◌, inl, inr, Option,
  some, arith, dec_lt, dec_le,
}
use gensis32os.Memory.{Mem}
use gensis32os.Blocks.{FreeRun, IsBlock, Cleared}
use gensis32os.Blocks.Layout.{
  Marked-IsBlock, kept-IsBlock, other-IsBlock, IsBlock-disjoint, IsBlock-frame,
}
use gensis32os.Heap.{HeapTable, Heap, heap_create, table_malloc, table_free}
use gensis32os.Heap.Alloc.{Malloc, allocated, refused, table_malloc-Malloc}

-- Table byte `j` belongs to a whole block inside the table.
pub record Covered (m : Mem) (t : HeapTable) (j : ℕ) : Type 0 where
  pub k : ℕ
  pub n : ℕ
  pub low : t.entries ≤ k
  pub high : k + n ≤ t.entries + t.total
  pub after : k ≤ j
  pub before : j < k + n
  pub block : IsBlock m k n

-- Every byte of the table is free or belongs to a whole block: no START lacks its END, no MID or END
-- stands alone.
abbrev pub WellFormed : Mem → HeapTable → Type 0
WellFormed m t = (j : ℕ) → t.entries ≤ j → j < t.entries + t.total → (m j ≡ 0) ⊎ Covered m t j

Covered-move :
    {m m' : Mem} {t : HeapTable} {j : ℕ} (c : Covered m t j) → IsBlock m' c.k c.n → Covered m' t j
Covered-move c b = record {
  k = c.k;
  n = c.n;
  low = c.low;
  high = c.high;
  after = c.after;
  before = c.before;
  block = b;
}

-- Well-formedness depends on the table's bytes alone.
pub WellFormed-frame :
    {m m' : Mem} {t : HeapTable}
    → ((j : ℕ) → t.entries ≤ j → j < t.entries + t.total → m' j ≡ m j)
    → WellFormed m t
    → WellFormed m' t
WellFormed-frame same wf j p q = elim (wf j p q) [
  | inl free ↦ inl (same j p q ∙ free)
  | inr c ↦ inr (
      Covered-move c
        (IsBlock-frame (λ i x y. same i (omega (arith, c.low)) (omega (arith, c.high))) c.block))
]

Malloc-WellFormed :
    {m : Mem} {t : HeapTable} {start size : ℕ} {r : Option ℕ × Mem}
    → Malloc m t start size r
    → WellFormed m t
    → WellFormed r.1 t
Malloc-WellFormed {m} {t} (allocated {m'} k n one lo hi low high run first marks) wf j p q =
    elim (wf j p q) [
      | inr c ↦ inr (Covered-move c (kept-IsBlock m m' k n run marks c.block))
      | inl free ↦ elim (dec_le k j) [
        | no out ↦ inl (ground (arith, marks j))
        | yes after ↦ elim (dec_lt j (k + n)) [
          | no out ↦ inl (ground (arith, marks j))
          | yes before ↦ inr record {
            k = k;
            n = n;
            low = low;
            high = high;
            after = after;
            before = before;
            block = Marked-IsBlock m m' k n one marks;
          }
        ]
      ]
    ]
Malloc-WellFormed (refused why) wf j p q = wf j p q

-- `heap_malloc` keeps the table well formed, whatever it is asked for.
pub table_malloc-WellFormed :
    (m : Mem) (t : HeapTable) (start size : ℕ)
    → size < 2 ^ 32
    → WellFormed m t
    → WellFormed (table_malloc t start m size).1 t
table_malloc-WellFormed m t start size h wf =
    Malloc-WellFormed (table_malloc-Malloc m t start size h) wf

Cleared-WellFormed :
    (m m' : Mem) (t : HeapTable) (k n : ℕ)
    → IsBlock m k n
    → Cleared m m' k n
    → WellFormed m t
    → WellFormed m' t
Cleared-WellFormed m m' t k n b clears wf j p q = elim (wf j p q) [
  | inl free ↦ inl (ground (arith, clears j))
  | inr c ↦ elim (eq_or_ne k c.k) [
    | inl same ↦ inl (elim (IsBlock-disjoint b c.block) [
      | inl both ↦ ground (arith, clears j, both.1, c.after, c.before)
      | inr apart ↦ absurd (omega (arith, b.size, c.block.size))
    ])
    | inr ne ↦ inr (Covered-move c (other-IsBlock m m' k n b clears c.block ne))
  ]
]

-- `heap_free` keeps the table well formed for every pointer into the heap, also for one that no block
-- starts at.
pub table_free-WellFormed :
    (m : Mem) (t : HeapTable) (start abs : ℕ)
    → sub32 abs start / 4096 < t.total
    → WellFormed m t
    → WellFormed (table_free t start m abs) t
table_free-WellFormed m t start abs inside wf =
    let ptr : ℕ = t.entries + sub32 abs start / 4096 in
    elim (wf ptr (omega arith) (omega arith)) [
      | inl free ↦ rw (table_free-idle m t start abs (ground arith) (ground arith)) wf
      | inr c ↦ elim (eq_or_ne ptr c.k) [
        | inl at ↦
            Cleared-WellFormed m (table_free t start m abs) t c.k c.n c.block
              (table_free-block m t start abs c.k c.n c.block c.high at) wf
        | inr ne ↦
            let inner = c.block.codes ptr c.after c.before in
            rw (table_free-idle m t start abs (ground arith) (ground arith)) wf
      ]
    ]

heap_create-eq :
    (m : Mem) (h : Heap) (ptr end : ℕ) (t : HeapTable)
    → (heap_create m h ptr end t).0 ≡ 0
    → (heap_create m h ptr end t ≡ (
      0,
      record { table = some t; start_addr = ptr; end_addr = end },
      memset m t.entries 0 t.total,
    ))
      × (ptr % 4096 ≡ 0)
      × (end % 4096 ≡ 0)
      × (sdiv32 (sub32 end ptr) 4096 ≡ t.total)
unfolding heap_create
heap_create-eq m h ptr end t ok = ground arith

-- A successful `heap_create` leaves a table that is well formed and wholly free, and records the aligned
-- ends, which lie as many blocks apart as the table has entries.
pub heap_create-WellFormed :
    (m : Mem) (h : Heap) (ptr end : ℕ) (t : HeapTable)
    → (heap_create m h ptr end t).0 ≡ 0
    → let (status, h', m') = heap_create m h ptr end t in
      WellFormed m' t
      × FreeRun m' t.entries t.total
      × (h' ≡ record { table = some t; start_addr = ptr; end_addr = end })
      × (ptr % 4096 ≡ 0)
      × (end % 4096 ≡ 0)
      × (sdiv32 (sub32 end ptr) 4096 ≡ t.total)
heap_create-WellFormed m h ptr end t ok =
    let e = heap_create-eq m h ptr end t ok in
    let zeroed : FreeRun (memset m t.entries 0 t.total) t.entries t.total =
      λ j p q. ground (arith, memset-at m t.entries 0 t.total j) in
    rw e.0 ((λ j p q. inl (zeroed j p q)), zeroed, refl, e.1, e.2, e.3)
