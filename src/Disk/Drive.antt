-- ===== src/Disk/Drive.antt =====
-- The part of the ATA protocol that the driver relies on, and what polling, addressing and the loops over words and
-- sectors do to a drive that keeps to it.
use gensis32os.Disk.Results.{read_words-OnlyWithin, read_sectors-result}
use native.Mathlib.Nat.{zero-add}
use gensis32os.Prelude.{
  ◌==◌, if◌then◌else◌, lt_or_le, eq_or_ne, ◌>>>◌, ℕ, zero, suc, ◌+◌, ◌-◌, ◌*◌, ◌/◌, ◌%◌, ◌^◌, ◌≤◌,
  ◌<◌, bit_and, ◌≡◌, refl, sym, ap, ◌∙◌, ◌≢◌, inl, inr, Bool, true, false, not, arith,
}
use gensis32os.Prelude.Branches.{by_test, by_true, by_false}
use gensis32os.Memory.{Mem, load16, store16, load16-store16, load16-frame}
use gensis32os.Disk.{
  Ports, wait_while, failed, read_words, has, no_data, read_sectors, is_busy, send_address,
}

-- A drive on the channel at `base` that is never longer busy than `limit` polls. `slave` is the drive bit that it
-- answers to, `reg` the task file, `busy` how many polls it stays busy, `requested` how many words it still has to
-- deliver and `pending` which ones, `sector` the medium: word j of a sector. `sound` says that no command has failed,
-- and a read command fails only if it asks for a sector that is not `readable`. The laws of a read hold where the
-- device register has the LBA bit and the bit of the drive.
pub record AtaDrive {ℓ} {D : Type ℓ} (io : Ports D) (base limit : ℕ) : Type (1 ⊔ ℓ) where
  pub slave : ℕ
  pub reg : D → ℕ → ℕ
  pub sound : D → Type 0
  pub readable : (lba : ℕ) → Type 0
  pub busy : D → ℕ
  pub requested : D → ℕ
  pub pending : D → ℕ → ℕ
  pub sector : (lba word : ℕ) → ℕ
  pub busy-le : (d : D) → busy d ≤ limit
  pub pending-lt : (d : D) (j : ℕ) → pending d j < 2 ^ 16
  pub inb-busy : (d : D) → busy (io.inb d (base + 7)).1 ≡ busy d - 1
  pub inb-reg : (d : D) (r : ℕ) → reg (io.inb d (base + 7)).1 r ≡ reg d r
  pub inb-pending : (d : D) (j : ℕ) → pending (io.inb d (base + 7)).1 j ≡ pending d j
  pub inb-requested : (d : D) → requested (io.inb d (base + 7)).1 ≡ requested d
  pub status_idle : (d : D) → busy d ≡ 0 → bit_and (io.inb d (base + 7)).0 0x80 ≡ 0
  pub status_data :
      (d : D) → sound d → busy d ≡ 0 → 1 ≤ requested d → bit_and (io.inb d (base + 7)).0 0x88 ≡ 0x08
  pub status_err : (d : D) → sound d → bit_and (io.inb d (base + 7)).0 0x01 ≡ 0
  pub status_fault : (d : D) → sound d → bit_and (io.inb d (base + 7)).0 0x20 ≡ 0
  pub inb-sound : (d : D) → sound d → sound (io.inb d (base + 7)).1
  pub in16-sound : (d : D) → sound d → sound (io.in16 d base).1
  pub outb-sound : (d : D) (r v : ℕ) → 2 ≤ r → r ≤ 6 → sound d → sound (io.outb d (base + r) v)
  pub outb-reg_self : (d : D) (r v : ℕ) → 2 ≤ r → r ≤ 6 → reg (io.outb d (base + r) v) r ≡ v
  pub outb-reg_ne :
      (d : D) (r v i : ℕ) → 2 ≤ r → r ≤ 6 → i ≢ r → reg (io.outb d (base + r) v) i ≡ reg d i
  pub in16-word : (d : D) → 1 ≤ requested d → (io.in16 d base).0 ≡ pending d 0
  pub in16-pending : (d : D) (j : ℕ) → pending (io.in16 d base).1 j ≡ pending d (j + 1)
  pub in16-requested : (d : D) → requested (io.in16 d base).1 ≡ requested d - 1
  pub read-sound :
      (d : D)
      → reg d 6 / 64 % 2 ≡ 1
      → reg d 6 / 16 % 2 ≡ slave
      → sound d
      → ((i : ℕ)
          → i < (if reg d 2 == 0 then 256 else reg d 2)
          → readable (reg d 3 + reg d 4 * 2 ^ 8 + reg d 5 * 2 ^ 16 + reg d 6 % 16 * 2 ^ 24 + i))
      → sound (io.outb d (base + 7) 0x20)
  pub read-requested :
      (d : D)
      → reg d 6 / 64 % 2 ≡ 1
      → reg d 6 / 16 % 2 ≡ slave
      → requested (io.outb d (base + 7) 0x20) ≡ 256 * (if reg d 2 == 0 then 256 else reg d 2)
  pub read-pending :
      (d : D) (j : ℕ)
      → reg d 6 / 64 % 2 ≡ 1
      → reg d 6 / 16 % 2 ≡ slave
      → pending (io.outb d (base + 7) 0x20) j
        ≡ sector
            (reg d 3 + reg d 4 * 2 ^ 8 + reg d 5 * 2 ^ 16 + reg d 6 % 16 * 2 ^ 24 + j / 256)
            (j % 256)

sub-zero : (n : ℕ) → n ≡ n - 0
sub-zero n = omega arith

module _ {ℓ} {D : Type ℓ} (io : Ports D) (base limit : ℕ) (a : AtaDrive io base limit) where
  -- What polling leaves alone.
  abbrev pub Same : D → D → Type 0
  Same d e =
      ((r : ℕ) → a.reg e r ≡ a.reg d r)
      × ((j : ℕ) → a.pending e j ≡ a.pending d j)
      × (a.requested e ≡ a.requested d)
      × (a.sound d → a.sound e)

  abbrev pub Ended : D → Bool × D → Type 0
  Ended d out = (out.0 ≡ true) × Same d out.1

  Same-trans : (d e f : D) → Same d e → Same e f → Same d f
  Same-trans d e f (r, p, q, s) (r', p', q', s') =
      (λ i. r' i ∙ r i, λ j. p' j ∙ p j, q' ∙ q, λ h. s' (s h))

  inb-Same : (d : D) → Same d (io.inb d (base + 7)).1
  inb-Same d = (a.inb-reg d, a.inb-pending d, a.inb-requested d, a.inb-sound d)

  pub wait_while-Ended :
      (test : ℕ → Bool) (k : ℕ) (d : D)
      → a.busy d ≤ k
      → ((e : D) → a.busy e ≡ 0 → Same d e → test (io.inb e (base + 7)).0 ≡ false)
      → Ended d (wait_while io test (base + 7) k d)
  unfolding wait_while
  wait_while-Ended test zero d h idle =
      (ap not (idle d (omega arith) (λ r. refl, λ j. refl, refl, λ s. s)), inb-Same d)
  wait_while-Ended test (suc k) d h idle =
      let e = (io.inb d (base + 7)).1 in
      let (ok, same) =
        wait_while-Ended test k e (omega (arith, a.inb-busy d))
          (λ f b same'. idle f b (Same-trans d e f (inb-Same d) same')) in
      by_test (Ended d) (test (io.inb d (base + 7)).0)
        (ok, Same-trans d e (wait_while io test (base + 7) k e).1 (inb-Same d) same)
        (refl, inb-Same d)

  failed-not : (d : D) → a.sound d → ((failed io base d).0 ≡ false) × Same d (failed io base d).1
  unfolding failed
  failed-not d sound =
      let s = (io.inb d (base + 7)).0 in
      let e = (io.inb d (base + 7)).1 in
      let s' = (io.inb e (base + 7)).0 in
      let e' = (io.inb e (base + 7)).1 in
      by_false {R = Bool × D} (λ out. (out.0 ≡ false) × Same d out.1) (has s 0x01) _ _
        (ground (arith, a.status_err d sound))
        (
          ground (arith, a.status_fault e (a.inb-sound d sound)),
          Same-trans d e e' (inb-Same d) (inb-Same e),
        )

  -- The words arrive in the order in which the drive has them.
  read_words-at :
      (left cur : ℕ) (d : D) (m : Mem)
      → left ≤ a.requested d
      → let (e, m') = read_words io left base cur d m in
        ((i : ℕ) → i < left → load16 m' (cur + 2 * i) ≡ a.pending d i)
        × ((j : ℕ) → a.pending e j ≡ a.pending d (left + j))
        × (a.requested e ≡ a.requested d - left)
        × (a.sound d → a.sound e)
  unfolding read_words
  read_words-at zero cur d m h = (
    λ i k. absurd (omega arith),
    λ j. ap (a.pending d) (sym (zero-add j)),
    sub-zero (a.requested d),
    λ s. s,
  )
  read_words-at (suc left) cur d m h =
      let w = (io.in16 d base).0 in
      let e = (io.in16 d base).1 in
      let m1 = store16 m cur w in
      let (at, more, count, safe) =
        read_words-at left (cur + 2) e m1 (omega (arith, a.in16-requested d)) in
      let m' = (read_words io left base (cur + 2) e m1).1 in
      let word = a.in16-word d (omega arith) in
      let outside : (x : ℕ) → x < cur + 2 → m' x ≡ m1 x =
        λ x lt. read_words-OnlyWithin io left base (cur + 2) e m1 x (inl lt) in
      (
        λ i k. elim (eq_or_ne i 0) [
          | inl z ↦
              ap (load16 m') (omega (arith, z))
              ∙ load16-frame m1 m' cur (outside cur (omega arith)) (outside (cur + 1) (omega arith))
              ∙ load16-store16 m cur w (omega (arith, word, a.pending-lt d 0))
              ∙ word
              ∙ ap (a.pending d) (sym z)
          | inr nz ↦
              ap (load16 m') (omega (arith, nz))
              ∙ at (i - 1) (omega (arith, nz))
              ∙ a.in16-pending d (i - 1)
              ∙ ap (a.pending d) (omega (arith, nz))
        ],
        λ j. more j ∙ a.in16-pending d (left + j) ∙ ap (a.pending d) (omega arith),
        omega (arith, count, a.in16-requested d),
        λ s. safe (a.in16-sound d s),
      )

  pub is_busy-not : (e : D) → a.busy e ≡ 0 → is_busy (io.inb e (base + 7)).0 ≡ false
  is_busy-not e b = ground (arith, a.status_idle e b)

  -- The task file when the command is given.
  abbrev pub Told : (lba total command : ℕ) → Bool × D → Type ℓ
  Told lba total command out =
      (out.0 ≡ true)
      × (e : D) × (out.1 ≡ io.outb e (base + 7) command)
      × (a.reg e 2 ≡ bit_and total 0xff)
      × (a.reg e 3 ≡ bit_and lba 0xff)
      × (a.reg e 4 ≡ bit_and (lba >>> 8) 0xff)
      × (a.reg e 5 ≡ bit_and (lba >>> 16) 0xff)
      × (a.reg e 6 % 16 ≡ bit_and (lba >>> 24) 0x0f)
      × (a.reg e 6 / 64 % 2 ≡ 1)
      × (a.reg e 6 / 16 % 2 ≡ a.slave)
      × a.sound e

  pub send_address-reg :
      (lba total : ℕ) (d : D)
      → let e = send_address io base lba total d in
        (a.reg e 2 ≡ bit_and total 0xff)
        × (a.reg e 3 ≡ bit_and lba 0xff)
        × (a.reg e 4 ≡ bit_and (lba >>> 8) 0xff)
        × (a.reg e 5 ≡ bit_and (lba >>> 16) 0xff)
        × (a.reg e 6 ≡ a.reg d 6)
        × (a.sound d → a.sound e)
  unfolding send_address
  send_address-reg lba total d =
      let v2 = bit_and total 0xff in
      let v3 = bit_and lba 0xff in
      let v4 = bit_and (lba >>> 8) 0xff in
      let v5 = bit_and (lba >>> 16) 0xff in
      let d1 = io.outb d (base + 2) v2 in
      let d2 = io.outb d1 (base + 3) v3 in
      let d3 = io.outb d2 (base + 4) v4 in
      let self : (e : D) (r v : ℕ) → 2 ≤ r → r ≤ 6 → a.reg (io.outb e (base + r) v) r ≡ v =
        a.outb-reg_self in
      let skip : (e : D) (r v i : ℕ)
          → 2 ≤ r
          → r ≤ 6
          → i ≢ r
          → a.reg (io.outb e (base + r) v) i ≡ a.reg e i =
        a.outb-reg_ne in
      (
        skip d3 5 v5 2 (omega arith) (omega arith) (omega arith)
            ∙ skip d2 4 v4 2 (omega arith) (omega arith) (omega arith)
            ∙ skip d1 3 v3 2 (omega arith) (omega arith) (omega arith)
            ∙ self d 2 v2 (omega arith) (omega arith),
        skip d3 5 v5 3 (omega arith) (omega arith) (omega arith)
            ∙ skip d2 4 v4 3 (omega arith) (omega arith) (omega arith)
            ∙ self d1 3 v3 (omega arith) (omega arith),
        skip d3 5 v5 4 (omega arith) (omega arith) (omega arith)
            ∙ self d2 4 v4 (omega arith) (omega arith),
        self d3 5 v5 (omega arith) (omega arith),
        skip d3 5 v5 6 (omega arith) (omega arith) (omega arith)
            ∙ skip d2 4 v4 6 (omega arith) (omega arith) (omega arith)
            ∙ skip d1 3 v3 6 (omega arith) (omega arith) (omega arith)
            ∙ skip d 2 v2 6 (omega arith) (omega arith) (omega arith),
        λ s. a.outb-sound d3 5 v5 (omega arith) (omega arith) (
            a.outb-sound d2 4 v4 (omega arith) (omega arith) (
              a.outb-sound d1 3 v3 (omega arith) (omega arith)
                (a.outb-sound d 2 v2 (omega arith) (omega arith) s))),
      )

  -- The words of the sectors that are left, and the result 0.
  abbrev pub Filled : D → (count cur : ℕ) → ℕ × (D × Mem) → Type 0
  Filled d count cur out =
      (out.0 ≡ 0) × ((i : ℕ) → i < count → load16 out.1.1 (cur + 2 * i) ≡ a.pending d i)

  pub read_sectors-Filled :
      (left words cur : ℕ) (d : D) (m : Mem)
      → 1 ≤ words
      → left * words ≤ a.requested d
      → a.sound d
      → Filled d (left * words) cur (read_sectors io left limit words base cur d m)
  unfolding read_sectors
  read_sectors-Filled zero words cur d m w h sound = (refl, λ i k. absurd (omega arith))
  read_sectors-Filled (suc left) words cur d m w h sound =
      let made : suc left * words ≡ words + left * words = grind arith in
      let waited = wait_while io no_data (base + 7) limit d in
      let (ready, same1) = wait_while-Ended no_data limit d (a.busy-le d) (λ e b (_, _, r, safe).
        ground (arith, a.status_data e (safe sound) b (omega (arith, made, r)))) in
      let d1 = waited.1 in
      let (_, _, _, safe1) = same1 in
      let (ok, same2) = failed-not d1 (safe1 sound) in
      let d2 = (failed io base d1).1 in
      let (_, pend, req, safe) = Same-trans d d1 d2 same1 same2 in
      let (at, more, count, kept_sound) = read_words-at words cur d2 m (omega (arith, made, req)) in
      let d3 = (read_words io words base cur d2 m).0 in
      let m3 = (read_words io words base cur d2 m).1 in
      let (done, rest) =
        read_sectors-Filled left words (cur + words * 2) d3 m3 w (omega (arith, made, req, count))
          (kept_sound (safe sound)) in
      let (_, kept) = read_sectors-result io left limit words base (cur + words * 2) d3 m3 in
      let m' = (read_sectors io left limit words base (cur + words * 2) d3 m3).1.1 in
      let P = Filled d (suc left * words) cur in
      by_true P waited.0 _ _ ready (
        by_false P (failed io base d1).0 _ _ ok (
          done,
          λ i k. elim (lt_or_le i words) [
            | inl lt ↦
                load16-frame m3 m' (cur + 2 * i) (kept (cur + 2 * i) (inl (omega arith)))
                  (kept (cur + 2 * i + 1) (inl (omega arith)))
                ∙ at i lt
                ∙ pend i
            | inr ge ↦
                ap (load16 m') (omega (arith, ge))
                ∙ rest (i - words) (omega (arith, ge, made))
                ∙ more (i - words)
                ∙ pend (words + (i - words))
                ∙ ap (a.pending d) (omega (arith, ge))
          ],
        ))
