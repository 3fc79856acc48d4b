-- ===== src/Fat12/Entries.antt =====
-- The entries of a FAT12 table, two in three bytes.
use gensis32os.Prelude.Bits.{bit_and_split, bit_and-zero, bit_and_mask, bit_or_comm, bit_or_fields}
use gensis32os.Prelude.{
  ◌==◌, if◌then◌else◌, eq→==, ne→not_==, Bool-cases, u16, ℕ, ◌+◌, ◌*◌, ◌/◌, ◌%◌, ◌^◌, ◌<◌, bit_and,
  bit_or, ◌≡◌, sym, ap, ap₂, ◌∙◌, inl, inr, arith,
}
use gensis32os.Fat12.{next_cluster}

-- The format of the table: entry 2n has its low byte first and its high digit in the low half of the second byte;
-- entry 2n + 1 has its low digit in the high half of the second byte, and its high byte last.
unfoldable pub pack : (entry : ℕ → ℕ) → (at : ℕ) → ℕ
pack e i =
    let even = e (i / 3 * 2) in
    let odd = e (i / 3 * 2 + 1) in
    if i % 3 == 0 then even % 256 else if i % 3 == 1 then odd % 16 * 16 + even / 256 else odd / 16

pack-bytes :
    (e : ℕ → ℕ) (j : ℕ)
    → (pack e (j * 3) ≡ e (j * 2) % 256)
      × (pack e (j * 3 + 1) ≡ e (j * 2 + 1) % 16 * 16 + e (j * 2) / 256)
      × (pack e (j * 3 + 2) ≡ e (j * 2 + 1) / 16)
unfolding pack
pack-bytes e j =
    let even : (r : ℕ) → r < 3 → e ((j * 3 + r) / 3 * 2) ≡ e (j * 2) = λ r h. ap e (omega arith) in
    let odd : (r : ℕ) → r < 3 → e ((j * 3 + r) / 3 * 2 + 1) ≡ e (j * 2 + 1) =
      λ r h. ap e (omega arith) in
    let first : e (j * 3 / 3 * 2) ≡ e (j * 2) = ap e (omega arith) in
    (
      ground (arith, first),
      ground (arith, even 1 (omega arith), odd 1 (omega arith)),
      ground (arith, odd 2 (omega arith)),
    )

pack-byte : (e : ℕ → ℕ) → ((i : ℕ) → e i < 4096) → (i : ℕ) → pack e i < 256
unfolding pack
pack-byte e h i = ground (arith, h (i / 3 * 2), h (i / 3 * 2 + 1))

high_digit : (b : ℕ) → b < 256 → bit_and b 0xf0 ≡ b / 16 * 16
high_digit b h =
    let whole : b / 16 * 2 ^ 4 + b % 16 ≡ b = omega arith in
    ap (λ t. bit_and t 0xf0) (sym whole)
    ∙ bit_and_split 4 (b / 16) (b % 16) 15 0 (omega arith) (omega arith)
    ∙ ap₂ (λ (x y : ℕ). x * 2 ^ 4 + y) (bit_and_mask 4 (b / 16)) (bit_and-zero (b % 16))
    ∙ omega arith

-- The entry that three bytes hold.
next_cluster-bytes :
    (fat : ℕ → ℕ) (j : ℕ)
    → ((i : ℕ) → fat i < 256)
    → j < 21845
    → (next_cluster fat (j * 2) ≡ fat (j * 3) + fat (j * 3 + 1) % 16 * 256)
      × (next_cluster fat (j * 2 + 1) ≡ fat (j * 3 + 2) * 16 + fat (j * 3 + 1) / 16)
unfolding next_cluster
next_cluster-bytes fat j bytes small =
    let even : u16 (j * 2 * 3 / 2) ≡ j * 3 = omega arith in
    let odd : u16 ((j * 2 + 1) * 3 / 2) ≡ j * 3 + 1 = omega arith in
    let parity : (j * 2 % 2 ≡ 0) × ((j * 2 + 1) % 2 ≡ 1) = omega arith in
    let next : j * 3 + 1 + 1 ≡ j * 3 + 2 = omega arith in
    (
      rw (eq→== _ _ parity.0, even)
          (bit_or_comm (fat (j * 3)) _
            ∙ bit_or_fields 8 (bit_and (fat (j * 3 + 1)) 15) (fat (j * 3)) (bytes (j * 3))
            ∙ omega (arith, bit_and_mask 4 (fat (j * 3 + 1)))),
      rw (ne→not_== ((j * 2 + 1) % 2) 0 (omega (arith, parity.1)), odd, next)
          (ap₂ bit_or (omega (arith, bytes (j * 3 + 2)))
              (omega (arith, high_digit (fat (j * 3 + 1)) (bytes (j * 3 + 1))))
            ∙ bit_or_fields 4 (fat (j * 3 + 2)) (fat (j * 3 + 1) / 16)
                (omega (arith, bytes (j * 3 + 1)))),
    )

-- `next_cluster` decodes every entry of a packed table of 12-bit entries, as far as the offset fits in a `word`.
pub next_cluster-pack :
    (entry : ℕ → ℕ) (c : ℕ)
    → ((i : ℕ) → entry i < 4096)
    → c < 43690
    → next_cluster (pack entry) c ≡ entry c
next_cluster-pack e c h small = elim (Bool-cases (c % 2 == 0)) [
  | inl e0 ↦
      let j = c / 2 in
      let (first, _) = next_cluster-bytes (pack e) j (pack-byte e h) (omega arith) in
      let (b0, b1, _) = pack-bytes e j in
      let at : j * 2 ≡ c = ground (arith, e0) in
      ap (next_cluster (pack e)) (sym at)
      ∙ first
      ∙ ground (arith, b0, b1, h c, ap e at, h (j * 2 + 1))
  | inr o ↦
      let j = c / 2 in
      let (_, second) = next_cluster-bytes (pack e) j (pack-byte e h) (omega arith) in
      let (_, b1, b2) = pack-bytes e j in
      let at : j * 2 + 1 ≡ c = ground (arith, o) in
      ap (next_cluster (pack e)) (sym at) ∙ second ∙ ground (arith, b1, b2, h c, ap e at, h (j * 2))
]
