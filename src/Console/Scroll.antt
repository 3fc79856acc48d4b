-- ===== src/Console/Scroll.antt =====
-- What scrolling and filling do to each cell.
use gensis32os.Prelude.{
  ltb, leb, if◌then◌else◌, ℕ, zero, suc, ◌+◌, ◌*◌, ◌/◌, ◌%◌, ◌≤◌, ◌≡◌, ◌&&◌, arith,
}
use gensis32os.Console.{put, scroll_row, scroll_rows, fill, scroll1}

pub fill-at :
    (left i v : ℕ) (c : ℕ → ℕ) (k : ℕ)
    → fill left i v c k ≡ (if leb i k && ltb k (i + left) then v else c k)
unfolding fill put
fill-at zero i v c k = ground arith
fill-at (suc left) i v c k = ground (arith, fill-at left (i + 1) v (put c i v) k)

scroll_row-at :
    (left i j : ℕ) (c : ℕ → ℕ) (k : ℕ)
    → j + left ≤ 80
    → scroll_row left i j c k
      ≡ (if leb (i * 80 + j) k && ltb k (i * 80 + j + left) then c (k + 80) else c k)
unfolding scroll_row put
scroll_row-at zero i j c k h = ground arith
scroll_row-at (suc left) i j c k h =
    ground (arith, scroll_row-at left i (j + 1) (put c (i * 80 + j) (c ((i + 1) * 80 + j))) k)

scroll_rows-at :
    (left columns i : ℕ) (c : ℕ → ℕ) (k : ℕ)
    → columns ≤ 80
    → scroll_rows left columns i c k ≡ (
        if leb i (k / 80) && ltb (k / 80) (i + left) && ltb (k % 80) columns
        then c (k + 80)
        else c k)
unfolding scroll_rows
scroll_rows-at zero columns i c k h = ground arith
scroll_rows-at (suc left) columns i c k h =
    let c' = scroll_row columns i 0 c in
    ground (
      arith,
      scroll_rows-at left columns (i + 1) c' k,
      scroll_row-at columns i 0 c k,
      scroll_row-at columns i 0 c (k + 80),
    )

-- Scrolling moves columns 0 to 78 of the rows 1 to 24 up by one and leaves column 79 in place. The cells that it
-- clears are the 79 from 24*79 = 1896 on, which are the end of row 23 and the start of row 24.
pub scroll1-at :
    (c : ℕ → ℕ) (k : ℕ)
    → scroll1 c k ≡ (
        if leb 1896 k && ltb k 1975
        then 0
        else if ltb (k / 80) 24 && ltb (k % 80) 79
        then c (k + 80)
        else c k)
unfolding scroll1
scroll1-at c k =
    ground (arith, fill-at 79 1896 0 (scroll_rows 24 79 0 c) k, scroll_rows-at 24 79 0 c k)
