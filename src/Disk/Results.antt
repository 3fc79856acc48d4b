-- ===== src/Disk/Results.antt =====
-- What `read_disk_block` and `write_disk_block` return and which memory a read may change, whatever the drive does.
use gensis32os.Prelude.{◌==◌, neg, ℕ, zero, suc, ◌+◌, ◌*◌, ◌≤◌, ◌<◌, ◌≡◌, refl, ◌∙◌, ◌⊎◌, arith}
use gensis32os.Prelude.Branches.{by_test}
use gensis32os.Memory.{Mem, store16, store16_ne}
use gensis32os.Disk.{
  Ports, read_words, gen32_invarg, timeout, disk_read_err, Disk, ata_wait, disk_write_err,
  wait_while, is_busy, no_data, failed, write_words, read_sectors, write_sectors, send_command,
  read_with, read_disk_block, write_with, out_of_range,
}

-- `m'` is `m` but for the bytes from `a` up to `b`.
abbrev pub OnlyWithin : Mem → Mem → (a b : ℕ) → Type 0
OnlyWithin m m' a b = (x : ℕ) → (x < a) ⊎ (b ≤ x) → m' x ≡ m x

pub data IsReadResult : ℕ → Type 0 where
  read_ok : IsReadResult 0
  read_invarg : IsReadResult (neg gen32_invarg)
  read_timeout : IsReadResult (neg timeout)
  read_err : IsReadResult disk_read_err

pub data IsWriteResult : ℕ → Type 0 where
  write_ok : IsWriteResult 0
  write_invarg : IsWriteResult (neg gen32_invarg)
  write_timeout : IsWriteResult (neg timeout)
  write_err : IsWriteResult disk_write_err

-- What a read may leave behind.
abbrev pub Read {ℓ} : {D : Type ℓ} → Mem → (a b : ℕ) → ℕ × (D × Mem) → Type 0
Read m a b out = IsReadResult out.0 × OnlyWithin m out.1.1 a b

module _ {ℓ} {D : Type ℓ} (io : Ports D) where
  pub read_words-OnlyWithin :
      (left base cur : ℕ) (d : D) (m : Mem)
      → OnlyWithin m (read_words io left base cur d m).1 cur (cur + left * 2)
  unfolding read_words
  read_words-OnlyWithin zero base cur d m x h = refl
  read_words-OnlyWithin (suc left) base cur d m x h =
      let (w, e) = io.in16 d base in
      read_words-OnlyWithin left base (cur + 2) e (store16 m cur w) x (ground arith)
      ∙ store16_ne m cur w x (ground arith) (ground arith)

  pub read_sectors-result :
      (left wait words base cur : ℕ) (d : D) (m : Mem)
      → Read m cur (cur + left * (words * 2)) (read_sectors io left wait words base cur d m)
  unfolding read_sectors
  read_sectors-result zero wait words base cur d m = (read_ok, λ x h. refl)
  read_sectors-result (suc left) wait words base cur d m =
      let (ready, d1) = wait_while io no_data (base + 7) wait d in
      let (bad, d2) = failed io base d1 in
      let (d3, m3) = read_words io words base cur d2 m in
      let (res, rest) = read_sectors-result left wait words base (cur + words * 2) d3 m3 in
      let P = Read {D = D} m cur (cur + suc left * (words * 2)) in
      let done : P (read_sectors io left wait words base (cur + words * 2) d3 m3) = (
        res,
        λ x h. rest x (ground arith) ∙ read_words-OnlyWithin words base cur d2 m x (ground arith),
      ) in
      by_test P ready (by_test P bad (read_err, λ x h. refl) done) (read_timeout, λ x h. refl)

  read_with-result :
      (wait words : ℕ) (disk : Disk) (lba total buf : ℕ) (d : D) (m : Mem)
      → Read m buf (buf + total * (words * 2)) (read_with io wait words disk lba total buf d m)
  unfolding read_with
  read_with-result wait words disk lba total buf d m =
      let base = disk.base_data_port in
      let (sent, d1) = send_command io wait disk lba total 0x20 d in
      let (ready, d2) = wait_while io is_busy (base + 7) wait d1 in
      let P = Read {D = D} m buf (buf + total * (words * 2)) in
      by_test P (out_of_range disk lba total) (read_invarg, λ x h. refl)
        (by_test P sent
          (by_test P ready (read_sectors-result total wait words base buf d2 m)
            (read_timeout, λ x h. refl))
          (read_timeout, λ x h. refl))

  -- Whatever the drive answers, a read ends with 0, -GEN32_INVARG, -TIMEOUT or DISK_READ_ERR, and it changes
  -- no byte of memory outside the `total` sectors from `buf`.
  pub read_disk_block-result :
      (disk : Disk) (lba total buf : ℕ) (d : D) (m : Mem)
      → let (r, (_, m')) = read_disk_block io disk lba total buf d m in
        IsReadResult r × OnlyWithin m m' buf (buf + total * 512)
  unfolding read_disk_block
  read_disk_block-result disk lba total buf d m =
      read_with-result ata_wait 256 disk lba total buf d m

  write_sectors-result :
      (left wait words base cur : ℕ) (d : D) (m : Mem)
      → IsWriteResult (write_sectors io left wait words base cur d m).0
  unfolding write_sectors
  write_sectors-result zero wait words base cur d m = write_ok
  write_sectors-result (suc left) wait words base cur d m =
      let (ready, d1) = wait_while io no_data (base + 7) wait d in
      let (bad, d2) = failed io base d1 in
      let P : ℕ × D → Type 0 = λ out. IsWriteResult out.0 in
      by_test P ready
        (by_test P bad write_err (
          write_sectors-result left wait words base (cur + words * 2)
            (write_words io words base cur d2 m) m))
        write_timeout

  -- A write ends with 0, -GEN32_INVARG, -TIMEOUT or DISK_WRITE_ERR, for every size of sector and every timeout.
  pub write_with-result :
      (wait words : ℕ) (disk : Disk) (lba total buf : ℕ) (d : D) (m : Mem)
      → IsWriteResult (write_with io wait words disk lba total buf d m).0
  unfolding write_with
  write_with-result wait words disk lba total buf d m =
      let base = disk.base_data_port in
      let (sent, d1) = send_command io wait disk lba total 0x30 d in
      let (r, d2) = write_sectors io total wait words base buf d1 m in
      let (ready, d3) = wait_while io is_busy (base + 7) wait d2 in
      let (bad, d4) = failed io base d3 in
      let P : ℕ × D → Type 0 = λ out. IsWriteResult out.0 in
      by_test P (out_of_range disk lba total) write_invarg (
        by_test P sent
          (by_test P (r == 0)
            (by_test P ready (by_test IsWriteResult bad write_err write_ok) write_timeout)
            (write_sectors-result total wait words base buf d1 m))
          write_timeout)
