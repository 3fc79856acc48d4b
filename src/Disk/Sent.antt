-- ===== src/Disk/Sent.antt =====
-- What `write_disk_block` sends to the drive, whatever the drive answers.
use mathlib.Core.List.{append-nil, append_assoc}
use gensis32os.Prelude.{
  ◌==◌, ℕ, zero, suc, ◌+◌, ◌*◌, ◌≡◌, sym, ap, ap₂, ◌∙◌, Bool, List, [], ◌∷◌, ◌++◌, arith,
}
use gensis32os.Prelude.Branches.{by_test, by_cases}
use gensis32os.Memory.{Mem, load16}
use gensis32os.Disk.{
  Disk, Ports, wait_while, is_busy, no_data, failed, write_words, write_sectors, select,
  send_address, send_command, has, ata_wait, out_of_range, write_with, write_disk_block,
}

-- The words that a drive on the channel at `base` was given: only a write to its data port adds to them.
pub record Receives {ℓ} {D : Type ℓ} (io : Ports D) (base : ℕ) : Type ℓ where
  pub received : D → List ℕ
  pub inb-kept : (d : D) (port : ℕ) → received (io.inb d port).1 ≡ received d
  pub outb-kept : (d : D) (port v : ℕ) → received (io.outb d port v) ≡ received d
  pub out16-added : (d : D) (w : ℕ) → received (io.out16 d base w) ≡ received d ++ (w ∷ [])

-- The `n` words of memory from an address on.
pub words_at : (n : ℕ) → Mem → (cur : ℕ) → List ℕ
words_at zero m cur = []
words_at (suc n) m cur = load16 m cur ∷ words_at n m (cur + 2)

words_at-append :
    (a b : ℕ) (m : Mem) (cur : ℕ)
    → words_at a m cur ++ words_at b m (cur + a * 2) ≡ words_at (a + b) m cur
unfolding words_at
words_at-append zero b m cur = ap₂ (λ n c. words_at n m c) (omega arith) (omega arith)
words_at-append (suc a) b m cur =
    let count : suc a + b ≡ suc (a + b) = omega arith in
    let place : cur + suc a * 2 ≡ cur + 2 + a * 2 = omega arith in
    ap (λ c. load16 m cur ∷ (words_at a m (cur + 2) ++ words_at b m c)) place
    ∙ ap (λ l. load16 m cur ∷ l) (words_at-append a b m (cur + 2))
    ∙ ap (λ n. words_at n m cur) (sym count)

module _ {ℓ} {D : Type ℓ} (io : Ports D) (disk : Disk) (a : Receives io disk.base_data_port) where
  abbrev base : ℕ
  base = disk.base_data_port

  wait_while-kept :
      (test : ℕ → Bool) (port k : ℕ) (d : D)
      → a.received (wait_while io test port k d).1 ≡ a.received d
  unfolding wait_while
  wait_while-kept test port zero d = a.inb-kept d port
  wait_while-kept test port (suc k) d =
      let e = (io.inb d port).1 in
      by_test (λ (out : Bool × D). a.received out.1 ≡ a.received d) (test (io.inb d port).0)
        (wait_while-kept test port k e ∙ a.inb-kept d port) (a.inb-kept d port)

  failed-kept : (d : D) → a.received (failed io base d).1 ≡ a.received d
  unfolding failed
  failed-kept d =
      let e = (io.inb d (base + 7)).1 in
      by_test (λ (out : Bool × D). a.received out.1 ≡ a.received d)
        (has (io.inb d (base + 7)).0 0x01) (a.inb-kept d (base + 7))
        (a.inb-kept e (base + 7) ∙ a.inb-kept d (base + 7))

  send_address-kept :
      (lba total : ℕ) (d : D) → a.received (send_address io base lba total d) ≡ a.received d
  unfolding send_address
  send_address-kept lba total d =
      a.outb-kept _ _ _ ∙ a.outb-kept _ _ _ ∙ a.outb-kept _ _ _ ∙ a.outb-kept d _ _

  send_command-kept :
      (wait lba total command : ℕ) (d : D)
      → a.received (send_command io wait disk lba total command d).1 ≡ a.received d
  unfolding send_command select
  send_command-kept wait lba total command d =
      let d0 = select io disk lba d in
      let one = wait_while io is_busy (base + 7) wait d0 in
      let t = send_address io base lba total one.1 in
      let two = wait_while io is_busy (base + 7) wait t in
      let P : Bool × D → Type 0 = λ out. a.received out.1 ≡ a.received d in
      let first = wait_while-kept is_busy (base + 7) wait d0 ∙ a.outb-kept d _ _ in
      let second =
        wait_while-kept is_busy (base + 7) wait t ∙ send_address-kept lba total one.1 ∙ first in
      by_test P one.0 (by_test P two.0 (a.outb-kept two.1 _ _ ∙ second) second) first

  write_words-sent :
      (left cur : ℕ) (d : D) (m : Mem)
      → a.received (write_words io left base cur d m) ≡ a.received d ++ words_at left m cur
  unfolding write_words words_at
  write_words-sent zero cur d m = sym (append-nil (a.received d))
  write_words-sent (suc left) cur d m =
      let w = load16 m cur in
      let rest = words_at left m (cur + 2) in
      write_words-sent left (cur + 2) (io.out16 d base w) m
      ∙ ap (λ l. l ++ rest) (a.out16-added d w)
      ∙ append_assoc (a.received d) (w ∷ []) rest

  -- If the result is 0, the words were added to those that the drive had.
  abbrev Sent : D → Mem → (count cur : ℕ) → ℕ × D → Type 0
  Sent d m count cur out = out.0 ≡ 0 → a.received out.1 ≡ a.received d ++ words_at count m cur

  write_sectors-Sent :
      (left wait words cur : ℕ) (d : D) (m : Mem)
      → Sent d m (left * words) cur (write_sectors io left wait words base cur d m)
  unfolding write_sectors words_at
  write_sectors-Sent zero wait words cur d m =
      let no_words : 0 ≡ 0 * words = omega arith in
      λ ok. sym (append-nil (a.received d)) ∙ ap (λ n. a.received d ++ words_at n m cur) no_words
  write_sectors-Sent (suc left) wait words cur d m =
      let (ready, d1) = wait_while io no_data (base + 7) wait d in
      let (bad, d2) = failed io base d1 in
      let d3 = write_words io words base cur d2 m in
      let P = Sent d m (suc left * words) cur in
      by_test P ready
        (by_test P bad (λ e. absurd (omega (arith, e)))
          (λ e.
            write_sectors-Sent left wait words (cur + words * 2) d3 m e
            ∙ ap (λ l. l ++ words_at (left * words) m (cur + words * 2))
                (write_words-sent words cur d2 m)
            ∙ append_assoc (a.received d2) (words_at words m cur) _
            ∙ ap₂ (λ (x y : List ℕ). x ++ y)
                (failed-kept d1 ∙ wait_while-kept no_data (base + 7) wait d)
                (words_at-append words (left * words) m cur
                  ∙ ap (λ n. words_at n m cur) (grind arith))))
        (λ e. absurd (omega (arith, e)))

  write_with-Sent :
      (wait words lba total buf : ℕ) (d : D) (m : Mem)
      → Sent d m (total * words) buf (write_with io wait words disk lba total buf d m)
  unfolding write_with
  write_with-Sent wait words lba total buf d m =
      let (sent, d1) = send_command io wait disk lba total 0x30 d in
      let (r, d2) = write_sectors io total wait words base buf d1 m in
      let (ready, d3) = wait_while io is_busy (base + 7) wait d2 in
      let P = Sent d m (total * words) buf in
      let before = send_command-kept wait lba total 0x30 d in
      let all : r ≡ 0 → a.received d2 ≡ a.received d ++ words_at (total * words) m buf = λ e.
        write_sectors-Sent total wait words buf d1 m e
        ∙ ap (λ l. l ++ words_at (total * words) m buf) before in
      by_test P (out_of_range disk lba total) (λ e. absurd (omega (arith, e)))
        (by_test P sent
          (by_cases P (r == 0)
            (λ zero_result.
              let done = all (ground (arith, zero_result)) in
              by_test P ready
                (λ e. failed-kept d3 ∙ wait_while-kept is_busy (base + 7) wait d2 ∙ done)
                (λ e. absurd (omega (arith, e))))
            (λ _. all))
          (λ e. absurd (omega (arith, e))))

-- A write that returns 0 has sent exactly the words of the `total` sectors in memory from `buf` on, in their
-- order, whatever the drive answered on the way.
pub write_disk_block-Sent {ℓ} :
    {D : Type ℓ} (io : Ports D) (disk : Disk) (a : Receives io disk.base_data_port)
    (lba total buf : ℕ) (d : D) (m : Mem)
    → let (r, e) = write_disk_block io disk lba total buf d m in
      r ≡ 0 → a.received e ≡ a.received d ++ words_at (total * 256) m buf
unfolding write_disk_block
write_disk_block-Sent io disk a lba total buf d m =
    write_with-Sent io disk a ata_wait 256 lba total buf d m
