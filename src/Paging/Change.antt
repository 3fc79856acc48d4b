-- ===== src/Paging/Change.antt =====
-- The split of an address, and the change of one entry of a page table.
use gensis32os.Memory.{Mem, load32, store32, store32_ne, load32-store32}
use gensis32os.Prelude.Bits.{bit_and_mask}
use gensis32os.Prelude.{
  eq_or_ne, ℕ, ◌+◌, ◌*◌, ◌/◌, ◌%◌, ◌^◌, ◌≤◌, ◌<◌, bit_and, bit_or, ◌≡◌, ◌≢◌, ◌⊎◌, inl, inr, none,
  some, arith,
}
use gensis32os.Paging.{get_index_from_virt, set_page_table_entry}

-- `get_index_from_virt` splits an address exactly when it is page aligned: both indices are below 1024
-- and give the address back.
pub get_index_from_virt_lem :
    (virt : ℕ)
    → virt < 2 ^ 32
    → ((virt % 4096 ≢ 0) × (get_index_from_virt virt ≡ none))
      ⊎ ((virt % 4096 ≡ 0)
          × ((dir page : ℕ) × (get_index_from_virt virt ≡ some (dir, page))
              × (dir < 1024)
              × (page < 1024)
              × (virt ≡ dir * 0x400000 + page * 4096)))
unfolding get_index_from_virt
get_index_from_virt_lem virt h = elim (eq_or_ne (virt % 4096) 0) [
  | inr off ↦ inl (off, ground (arith, bit_and_mask 12 virt))
  | inl aligned ↦ inr (
    aligned,
    (
      virt / 0x400000,
      virt % 0x400000 / 4096,
      ground (arith, bit_and_mask 12 virt),
      omega arith,
      omega arith,
      omega arith,
    ),
  )
]

-- `set_page_table_entry` fails exactly at an address that is not page aligned; otherwise it writes the
-- word of the page table that the directory names for the address, and no other byte.
pub set_page_table_entry-at :
    (m : Mem) (dir virt set_val flags : ℕ)
    → virt < 2 ^ 32
    → bit_or set_val flags < 2 ^ 32
    → let word =
        bit_and (load32 m (dir + 4 * (virt / 0x400000))) 0xfffff000
        + 4 * (virt % 0x400000 / 4096) in
      ((virt % 4096 ≢ 0) × (set_page_table_entry m dir virt set_val flags ≡ none))
      ⊎ ((virt % 4096 ≡ 0)
          × ((m' : Mem) × (set_page_table_entry m dir virt set_val flags ≡ some m')
              × (load32 m' word ≡ bit_or set_val flags)
              × ((a : ℕ) → (a < word) ⊎ (word + 4 ≤ a) → m' a ≡ m a)))
unfolding set_page_table_entry get_index_from_virt
set_page_table_entry-at m dir virt set_val flags h w = elim (eq_or_ne (virt % 4096) 0) [
  | inr off ↦ inl (off, ground (arith, bit_and_mask 12 virt))
  | inl aligned ↦
      let word : ℕ =
        bit_and (load32 m (dir + 4 * (virt / 0x400000))) 0xfffff000
        + 4 * (virt % 0x400000 / 4096) in
      inr (
        aligned,
        (
          store32 m word (bit_or set_val flags),
          ground (arith, bit_and_mask 12 virt),
          load32-store32 m word (bit_or set_val flags) w,
          λ a out.
              store32_ne m word (bit_or set_val flags) a (omega arith) (omega arith) (omega arith)
                (omega arith),
        ),
      )
]
