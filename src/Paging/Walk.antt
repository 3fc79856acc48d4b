-- ===== src/Paging/Walk.antt =====
-- The addresses that a page table maps.
use gensis32os.Memory.{Mem, load32, store32, store32_ne, load32-store32, load32-frame}
use gensis32os.Prelude.Bits.{
  bit_and_mask, bit_or-lt, bit_or_split, bit_or-zero, bit_or_fields, bit_and_page,
}
use gensis32os.Prelude.{
  eq→==, eq_or_ne, u32, ℕ, zero, suc, ◌+◌, ◌-◌, ◌*◌, ◌/◌, ◌%◌, ◌^◌, ◌≤◌, ◌<◌, bit_and, bit_or, ◌≡◌,
  refl, ap, ◌∙◌, ◌≢◌, ◌⊎◌, inl, inr, none, some, arith,
}
use gensis32os.Paging.{entry_of, fill_page_table, set_dir_entry}

-- The low bits that `create_32_dir_table` sets in every entry.
abbrev pub entry_flags : ℕ → ℕ
entry_flags flags = bit_or (bit_or (flags % 4096) 2) 1

entry_flags-lt : (flags : ℕ) → entry_flags flags < 4096
entry_flags-lt flags =
    bit_or-lt 12 (bit_or (flags % 4096) 2) 1
      (bit_or-lt 12 (flags % 4096) 2 (omega arith) (omega arith)) (omega arith)

low_bits : (r : ℕ) → r < 4 → bit_or (bit_or r 2) 1 ≡ 3
low_bits zero h = refl
low_bits (suc zero) h = refl
low_bits (suc (suc zero)) h = refl
low_bits (suc (suc (suc zero))) h = refl
low_bits (suc (suc (suc (suc r)))) h = absurd (omega arith)

entry_flags-set : (flags : ℕ) → bit_and (entry_flags flags) 3 ≡ 3
entry_flags-set flags =
    let q : ℕ = flags % 4096 / 4 in
    let r : ℕ = flags % 4096 % 4 in
    let parts : flags % 4096 ≡ q * 4 + r = omega arith in
    let inner = bit_or_split 2 q r 0 2 (omega arith) (omega arith) in
    let outer =
      bit_or_split 2 q (bit_or r 2) 0 1 (bit_or-lt 2 r 2 (omega arith) (omega arith))
        (omega arith) in
    let whole : entry_flags flags ≡ q * 4 + 3 =
      ap (λ x. bit_or (bit_or x 2) 1) parts
      ∙ ap (λ x. bit_or x 1) (inner ∙ ap (λ x. x * 4 + bit_or r 2) (bit_or-zero q))
      ∙ outer
      ∙ ap (λ x. x * 4 + bit_or (bit_or r 2) 1) (bit_or-zero q)
      ∙ ap (λ x. q * 4 + x) (low_bits r (omega arith)) in
    bit_and_mask 2 (entry_flags flags) ∙ omega (arith, whole)

-- `|` of numbers below 4096 under a page address.
or_page : (q r s : ℕ) → r < 4096 → s < 4096 → bit_or (q * 4096 + r) s ≡ q * 4096 + bit_or r s
or_page q r s hr hs = ground (arith, bit_or_split 12 q r 0 s hr hs, bit_or-zero q)

-- An entry for a page address is the address with the flags in its low 12 bits: the mask gives the
-- address back, and the present and writable bits are set.
pub entry_of-page :
    (base flags : ℕ)
    → base < 2 ^ 32
    → base % 4096 ≡ 0
    → (entry_of base flags ≡ base + entry_flags flags)
      × (bit_and (entry_of base flags) 0xfffff000 ≡ base)
      × (entry_of base flags < 2 ^ 32)
unfolding entry_of
entry_of-page base flags h aligned =
    let q : ℕ = base / 4096 in
    let back : q * 4096 ≡ base = omega arith in
    let low : bit_or base (bit_and flags 0xfff) ≡ q * 4096 + flags % 4096 =
      ground
        (arith, back, bit_and_mask 12 flags, bit_or_fields 12 q (flags % 4096) (omega arith)) in
    let whole : entry_of base flags ≡ base + entry_flags flags = ground (
      arith,
      low,
      or_page q (flags % 4096) 2 (omega arith) (omega arith),
      or_page q (bit_or (flags % 4096) 2) 1
          (bit_or-lt 12 (flags % 4096) 2 (omega arith) (omega arith)) (omega arith),
    ) in
    let bound : base + entry_flags flags < 2 ^ 32 = omega (arith, entry_flags-lt flags) in
    (
      whole,
      rw whole (omega (arith, bit_and_page (base + entry_flags flags) bound, entry_flags-lt flags)),
      rw whole bound,
    )

pub fill_page_table-frame :
    (left : ℕ) (m : Mem) (page flags j offset a : ℕ)
    → (a < page + 4 * j) ⊎ (page + 4 * (j + left) ≤ a)
    → (fill_page_table left m page flags j offset).0 a ≡ m a
unfolding fill_page_table
fill_page_table-frame zero m page flags j offset a out = refl
fill_page_table-frame (suc left) m page flags j offset a out =
    fill_page_table-frame left (store32 m (page + 4 * j) (entry_of offset flags)) page flags (j + 1)
      (u32 (offset + 0x1000)) a (omega arith)
    ∙ store32_ne m (page + 4 * j) (entry_of offset flags) a (omega arith) (omega arith)
        (omega arith) (omega arith)

-- `fill_page_table` writes entry `k` of the table for the page `k` pages after `offset`, for each of the
-- rounds left, and no byte outside those entries.
pub fill_page_table-at :
    (left : ℕ) (m : Mem) (page flags j offset k : ℕ)
    → offset % 4096 ≡ 0
    → offset < 2 ^ 32
    → j ≤ k
    → k < j + left
    → load32 (fill_page_table left m page flags j offset).0 (page + 4 * k)
      ≡ entry_of (u32 (offset + (k - j) * 4096)) flags
unfolding fill_page_table
fill_page_table-at zero m page flags j offset k aligned small lo hi = absurd (omega arith)
fill_page_table-at (suc left) m page flags j offset k aligned small lo hi = elim (eq_or_ne j k) [
  | inr ne ↦
      let rest =
        fill_page_table-at left (store32 m (page + 4 * j) (entry_of offset flags)) page flags
          (j + 1) (u32 (offset + 0x1000)) k (omega arith) (omega arith) (omega arith)
          (omega arith) in
      let same : u32 (u32 (offset + 0x1000) + (k - (j + 1)) * 4096)
          ≡ u32 (offset + (k - j) * 4096) =
        omega arith in
      rest ∙ ap (λ x. entry_of x flags) same
  | inl e ↦
      let m1 = store32 m (page + 4 * j) (entry_of offset flags) in
      let kept =
        load32-frame m1 (fill_page_table left m1 page flags (j + 1) (u32 (offset + 0x1000))).0
          (page + 4 * k)
          (λ a p q.
            fill_page_table-frame left m1 page flags (j + 1) (u32 (offset + 0x1000)) a
              (omega arith)) in
      let here' : u32 (offset + (j - j) * 4096) ≡ offset = omega arith in
      rw (kept, ← e, here')
        (load32-store32 m (page + 4 * j) (entry_of offset flags)
          (entry_of-page offset flags small aligned).2)
]

sub-zero : (k : ℕ) → k - 0 ≡ k
sub-zero k = omega arith

fill_page_table-offset :
    (left : ℕ) (m : Mem) (page flags j offset : ℕ)
    → offset < 2 ^ 32
    → (fill_page_table left m page flags j offset).1 ≡ u32 (offset + left * 4096)
unfolding fill_page_table
fill_page_table-offset zero m page flags j offset h = omega arith
fill_page_table-offset (suc left) m page flags j offset h = omega (
  arith,
  fill_page_table-offset left (store32 m (page + 4 * j) (entry_of offset flags)) page flags (j + 1)
      (u32 (offset + 0x1000)) (omega arith),
)

set_dir_entry-page :
    (m : Mem) (index flags i offset page : ℕ)
    → page % 4096 ≡ 0
    → set_dir_entry index flags i offset (some page, m)
      ≡ fill_page_table 1024
          (store32 m (index + 4 * i) (entry_of (bit_and page 0xfffff000) flags))
          page
          flags
          0
          offset
unfolding set_dir_entry
set_dir_entry-page m index flags i offset page aligned =
    rw (eq→== (bit_and page 0xfff) 0 (omega (arith, bit_and_mask 12 page)))

-- One round of `create_32_dir_table` with a usable page for directory entry `i`: the entry is the address of that page
-- with the flags, present and writable, in its low 12 bits; entry `k` of the page is the address of the `k`-th page from
-- `offset` on with the same flags; and `offset` moves on by 4 MB. So the mapping is the identity as long as `offset` is
-- `i` times 4 MB.
pub set_dir_entry-maps :
    (m : Mem) (index flags i offset page : ℕ)
    → page % 4096 ≡ 0
    → page < 2 ^ 32
    → offset % 4096 ≡ 0
    → offset < 2 ^ 32
    → (index + 4 * i + 4 ≤ page) ⊎ (page + 4096 ≤ index + 4 * i)
    → let (m', offset') = set_dir_entry index flags i offset (some page, m) in
      (offset' ≡ u32 (offset + 0x400000))
      × (bit_and (load32 m' (index + 4 * i)) 0xfffff000 ≡ page)
      × (load32 m' (index + 4 * i) ≡ page + entry_flags flags)
      × (bit_and (entry_flags flags) 3 ≡ 3)
      × ((k : ℕ)
          → k < 1024
          → (load32 m' (page + 4 * k) ≡ entry_of (u32 (offset + k * 4096)) flags)
            × (load32 m' (page + 4 * k) ≡ u32 (offset + k * 4096) + entry_flags flags))
set_dir_entry-maps m index flags i offset page aligned small off_aligned off_small apart =
    let m1 = store32 m (index + 4 * i) (entry_of (bit_and page 0xfffff000) flags) in
    let filled : set_dir_entry index flags i offset (some page, m)
        ≡ fill_page_table 1024 m1 page flags 0 offset =
      set_dir_entry-page m index flags i offset page aligned in
    let same : bit_and page 0xfffff000 ≡ page = omega (arith, bit_and_page page small) in
    let kept =
      load32-frame m1 (fill_page_table 1024 m1 page flags 0 offset).0 (index + 4 * i)
        (λ a p q. fill_page_table-frame 1024 m1 page flags 0 offset a (omega arith)) in
    let e = entry_of-page page flags small aligned in
    rw filled (
      omega (arith, fill_page_table-offset 1024 m1 page flags 0 offset off_small),
      rw (kept, same, load32-store32 m (index + 4 * i) (entry_of page flags) e.2) e.1,
      rw (kept, same, load32-store32 m (index + 4 * i) (entry_of page flags) e.2) e.0,
      entry_flags-set flags,
      λ k h.
          let here =
            fill_page_table-at 1024 m1 page flags 0 offset k off_aligned off_small (omega arith)
              (omega arith)
            ∙ ap (λ x. entry_of (u32 (offset + x * 4096)) flags) (sub-zero k) in
          (
            here,
            here
                ∙ (entry_of-page (u32 (offset + k * 4096)) flags (omega arith)
                    (omega (arith, off_aligned))).0,
          ),
    )

-- Where `kzalloc` gives no page, the directory entry is 0 and `offset` stays: the next table that is
-- made maps the addresses of the missing one, 4 MB below its own, instead of the identity.
pub set_dir_entry-shifts :
    (m m2 : Mem) (index flags i page k : ℕ)
    → page % 4096 ≡ 0
    → page < 2 ^ 32
    → (index + 4 * (i + 1) + 4 ≤ page) ⊎ (page + 4096 ≤ index + 4 * (i + 1))
    → i < 1023
    → k < 1024
    → let (m1, offset1) = set_dir_entry index flags i (i * 0x400000) (none, m) in
      let (m3, offset3) = set_dir_entry index flags (i + 1) offset1 (some page, m2) in
      (load32 m1 (index + 4 * i) ≡ 0)
      × (load32 m3 (page + 4 * k) ≡ entry_of (i * 0x400000 + k * 4096) flags)
      × (load32 m3 (page + 4 * k) ≢ entry_of ((i + 1) * 0x400000 + k * 4096) flags)
unfolding set_dir_entry
set_dir_entry-shifts m m2 index flags i page k aligned small apart hi hk =
    let r =
      set_dir_entry-maps m2 index flags (i + 1) (i * 0x400000) page aligned small (omega arith)
        (omega arith) apart in
    let low : u32 (i * 0x400000 + k * 4096) ≡ i * 0x400000 + k * 4096 = omega arith in
    let here = (r.4 k hk).0 ∙ ap (λ x. entry_of x flags) low in
    let a = entry_of-page (i * 0x400000 + k * 4096) flags (omega arith) (omega arith) in
    let b = entry_of-page ((i + 1) * 0x400000 + k * 4096) flags (omega arith) (omega arith) in
    (load32-store32 m (index + 4 * i) 0 (omega arith), here, λ e. omega (arith, here, e, a.0, b.0))
