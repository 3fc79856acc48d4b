-- ===== src/DiskStream/Bytes.antt =====
-- The bytes that a stream brings.
use gensis32os.Prelude.{
  ltb, leb, ◌==◌, if◌then◌else◌, eq→==, ne→not_==, lt_or_le, eq_or_ne, u32, ℕ, zero, suc, ◌+◌, ◌-◌,
  ◌*◌, ◌/◌, ◌%◌, ◌^◌, ◌≤◌, ◌<◌, ◌≡◌, refl, ap, ◌∙◌, ◌⊎◌, inl, inr, ◌&&◌, arith,
}
use gensis32os.Prelude.Branches.{by_true}
use gensis32os.Memory.{Mem, store}
use gensis32os.DiskStream.{copy_loop, copied, sector_loop, DiskStream, get_bytes_from_disk}

copy_loop-at :
    (left i index n buf ram : ℕ) (m : Mem) (x : ℕ)
    → (ram + n ≤ buf) ⊎ (buf + index + left ≤ ram)
    → copy_loop left i index n buf ram m x ≡ (
        if leb (ram + i) x && ltb x (ram + copied left i n)
        then m (buf + index + (x - (ram + i)))
        else m x)
unfolding copy_loop store
copy_loop-at zero i index n buf ram m x apart = ground arith
copy_loop-at (suc left) i index n buf ram m x apart = elim (lt_or_le i n) [
  | inr ge ↦ ground arith
  | inl lt ↦ elim (eq_or_ne x (ram + i)) [
    | inl e ↦ ground (
      arith,
      e,
      copy_loop-at left (i + 1) (index + 1) n buf ram (store m (ram + i) (m (buf + index))) x
          (ground arith),
    )
    | inr ne ↦ ground (
      arith,
      ne,
      copy_loop-at left (i + 1) (index + 1) n buf ram (store m (ram + i) (m (buf + index))) x
          (ground arith),
    )
  ]
]

-- A read of a sector before `limit` succeeds: it fills the page at `buf` from the bytes of `medium` and changes
-- nothing else.
abbrev pub Reads {ℓ} :
    {S : Type ℓ}
    → (read : (lba : ℕ) → S → Mem → ℕ × (S × Mem)) → (medium : ℕ → ℕ) → (buf limit : ℕ) → Type ℓ
Reads read medium buf limit =
    (lba : ℕ) (s : _) (m : Mem)
    → lba * 512 < limit
    → let (r, (_, m')) = read lba s m in
      (r ≡ 0)
      × ((k : ℕ) → k < 512 → m' (buf + k) ≡ medium (lba * 512 + k))
      × ((x : ℕ) → (x < buf) ⊎ (buf + 512 ≤ x) → m' x ≡ m x)

module _ {ℓ} {S : Type ℓ} (read : (lba : ℕ) → S → Mem → ℕ × (S × Mem)) (medium : ℕ → ℕ)
    (buf limit : ℕ) (reads : Reads read medium buf limit) where
  -- The bytes from `ram + i` to `ram + n` are those of the medium from `from` on.
  abbrev Brings : (from i n ram : ℕ) → Mem → S × Mem → Type 0
  Brings from i n ram m out =
      ((k : ℕ) → i ≤ k → k < n → out.1 (ram + k) ≡ medium (from + (k - i)))
      × ((x : ℕ) → (x < ram + i) ⊎ (ram + n ≤ x) → (x < buf) ⊎ (buf + 512 ≤ x) → out.1 x ≡ m x)

  sector_loop-Brings :
      (count lba i index n ram : ℕ) (s : S) (m : Mem)
      → index < 512
      → i ≤ n
      → n + index ≤ i + count * 512
      → (lba + count) * 512 < limit + 512
      → (ram + n ≤ buf) ⊎ (buf + 512 ≤ ram)
      → Brings (lba * 512 + index) i n ram m (sector_loop read count 512 lba i index n buf ram s m)
  unfolding sector_loop
  sector_loop-Brings zero lba i index n ram s m h a b c apart =
      (λ k p q. absurd (omega arith), λ x p q. refl)
  sector_loop-Brings (suc count) lba i index n ram s m h a b c apart =
      let (ok, page, kept) = reads lba s m (omega arith) in
      let s1 = (read lba s m).1.0 in
      let m1 = (read lba s m).1.1 in
      let left = 512 - index in
      let m2 = copy_loop left i index n buf ram m1 in
      let at = λ (x : ℕ). copy_loop-at left i index n buf ram m1 x (ground arith) in
      let first : (x : ℕ)
          → ram + i ≤ x
          → x < ram + copied left i n
          → m2 x ≡ m1 (buf + index + (x - (ram + i))) =
        λ x p q. ground (arith, at x) in
      let other : (x : ℕ) → (x < ram + i) ⊎ (ram + n ≤ x) → m2 x ≡ m1 x =
        λ x p. ground (arith, at x) in
      let (rest, same) =
        sector_loop-Brings count (lba + 1) (copied left i n) 0 n ram s1 m2 (omega arith)
          (omega arith) (omega arith) (omega arith) apart in
      by_true (Brings (lba * 512 + index) i n ram m) ((read lba s m).0 == 0) _ _ (eq→== _ _ ok) (
        λ k p q. elim (lt_or_le k (copied left i n)) [
          | inl lt ↦
              same (ram + k) (inl (omega (arith, lt))) (ground arith)
              ∙ first (ram + k) (omega (arith, p)) (omega (arith, lt))
              ∙ ap m1 (omega (arith, p))
              ∙ page (index + (k - i)) (omega (arith, lt, p))
              ∙ ap medium (omega (arith, p))
          | inr ge ↦ rest k ge q ∙ ap medium (omega (arith, ge, q))
        ],
        λ x p q. same x (ground arith) q ∙ other x (ground arith) ∙ kept x q,
      )

-- From a disk whose sectors are readable, `get_bytes_from_disk` brings the `no_bytes` bytes from the position of
-- the stream on, wherever in a sector it lies and however many sectors they span, and changes no other byte
-- of memory but those of the page that it reads the sectors to.
pub get_bytes_from_disk-at {ℓ} :
    {S : Type ℓ} (read : (lba : ℕ) → S → Mem → ℕ × (S × Mem)) (medium : ℕ → ℕ) (ds : DiskStream)
    (no_bytes ram buf : ℕ) (s : S) (m : Mem)
    → Reads read medium buf (ds.pos + no_bytes)
    → no_bytes + 512 < 2 ^ 32
    → (ram + no_bytes ≤ buf) ⊎ (buf + 512 ≤ ram)
    → let (_, m') = get_bytes_from_disk read ds no_bytes ram buf s m in
      ((k : ℕ) → k < no_bytes → m' (ram + k) ≡ medium (ds.pos + k))
      × ((x : ℕ) → (x < ram) ⊎ (ram + no_bytes ≤ x) → (x < buf) ⊎ (buf + 512 ≤ x) → m' x ≡ m x)
unfolding get_bytes_from_disk
get_bytes_from_disk-at read medium ds n ram buf s m reads small apart =
    let lba = ds.pos / 512 in
    let index = ds.pos % 512 in
    let whole = u32 (n + index) / 512 in
    let count : ℕ = if u32 (n + index) % 512 == 0 then whole else whole + 1 in
    let enough : n + index ≤ count * 512 = ground arith in
    let last : (1 ≤ n) → (lba + count) * 512 < ds.pos + n + 512 = λ h. ground arith in
    elim (eq_or_ne n 0) [
      | inl z ↦ rw (eq→== _ _ z) (λ k h. absurd (omega (arith, z)), λ x p q. refl)
      | inr ne ↦
          let (got, same) =
            sector_loop-Brings read medium buf (ds.pos + n) reads count lba 0 index n ram s m
              (omega arith) (omega arith) (omega (arith, enough)) (last (omega (arith, ne)))
              apart in
          rw (ne→not_== _ _ ne) (
            λ k h. got k (omega arith) h ∙ ap medium (omega arith),
            λ x p q. same x (ground (arith, p)) q,
          )
    ]
