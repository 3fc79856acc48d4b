-- ===== src/Fat16/OpenFiles.antt =====
-- The table of open files as the list of its entries, and what opening and closing do to it.
use gensis32os.Prelude.{ℕ, ◌≡◌, refl, sym, ap, ◌∙◌, ◌≢◌, List, [], ◌∷◌, ◌++◌}
use gensis32os.Fat16.Tables.{CacheEntry, Tables}

abbrev pub first_of : List ℕ → (default : ℕ) → ℕ
first_of [] d = d
first_of (x ∷ xs) d = x

abbrev pub last_of : (default : ℕ) → List ℕ → ℕ
last_of d [] = d
last_of d (x ∷ xs) = last_of x xs

-- The entries at the addresses of the list are linked in its order, from the entry before them to that after them.
abbrev pub Links : (ℕ → CacheEntry) → (before : ℕ) → List ℕ → (after : ℕ) → Type 0
Links c before [] after = Unit {0}
Links c before (x ∷ xs) after =
    ((c x).prev ≡ before) × ((c x).next ≡ first_of xs after) × Links c x xs after

abbrev pub Without : (a : ℕ) → List ℕ → Type 0
Without a [] = Unit {0}
Without a (x ∷ xs) = (x ≢ a) × Without a xs

abbrev pub Distinct : List ℕ → Type 0
Distinct [] = Unit {0}
Distinct (x ∷ xs) = Without x xs × Distinct xs

-- The cache table is this list of blocks.
pub record IsTable (t : Tables) (xs : List ℕ) : Type 0 where
  pub start : t.cache_table_start ≡ first_of xs 0
  pub end : t.cache_table_last ≡ last_of 0 xs
  pub links : Links t.cache 0 xs 0
  pub distinct : Distinct xs
  pub no_null : Without 0 xs

pub Without-last : (a x : ℕ) (xs : List ℕ) → Without a (x ∷ xs) → last_of x xs ≢ a
Without-last a x [] w = w.0
Without-last a x (y ∷ ys) w = Without-last a y ys w.1

pub Without-append : (a : ℕ) (xs ys : List ℕ) → Without a (xs ++ ys) → Without a xs × Without a ys
Without-append a [] ys w = (tt, w)
Without-append a (x ∷ xs) ys w =
    let (left, right) = Without-append a xs ys w.1 in ((w.0, left), right)

pub Without-join : (a : ℕ) (xs ys : List ℕ) → Without a xs → Without a ys → Without a (xs ++ ys)
Without-join a [] ys v w = w
Without-join a (x ∷ xs) ys v w = (v.0, Without-join a xs ys v.1 w)

-- The last entry of a stretch is linked to another one; `other` is an address outside that may change too.
pub Links-relast :
    (c c' : ℕ → CacheEntry) (before x : ℕ) (xs : List ℕ) (q q' other : ℕ)
    → Links c before (x ∷ xs) q
    → Distinct (x ∷ xs)
    → Without other (x ∷ xs)
    → ((a : ℕ) → a ≢ last_of x xs → a ≢ other → c' a ≡ c a)
    → (c' (last_of x xs)).prev ≡ (c (last_of x xs)).prev
    → (c' (last_of x xs)).next ≡ q'
    → Links c' before (x ∷ xs) q'
Links-relast c c' before x [] q q' other links distinct out same prev next =
    (prev ∙ links.0, next, tt)
Links-relast c c' before x (y ∷ ys) q q' other links distinct out same prev next =
    let here = same x (λ e. Without-last x y ys distinct.0 (sym e)) out.0 in
    (
      ap (λ e. e.prev) here ∙ links.0,
      ap (λ e. e.next) here ∙ links.1,
      Links-relast c c' x y ys q q' other links.2 distinct.1 out.1 same prev next,
    )

pub Links-same :
    (c c' : ℕ → CacheEntry) (before : ℕ) (xs : List ℕ) (after u w : ℕ)
    → Links c before xs after
    → Without u xs
    → Without w xs
    → ((a : ℕ) → a ≢ u → a ≢ w → c' a ≡ c a)
    → Links c' before xs after
Links-same c c' before [] after u w links wu ww same = tt
Links-same c c' before (x ∷ xs) after u w links wu ww same =
    let here = same x wu.0 ww.0 in
    (
      ap (λ e. e.prev) here ∙ links.0,
      ap (λ e. e.next) here ∙ links.1,
      Links-same c c' x xs after u w links.2 wu.1 ww.1 same,
    )

pub Links-join :
    (c : ℕ → CacheEntry) (before x : ℕ) (xs ys : List ℕ) (after : ℕ)
    → Links c before (x ∷ xs) (first_of ys after)
    → Links c (last_of x xs) ys after
    → Links c before ((x ∷ xs) ++ ys) after
Links-join c before x [] ys after one two = (one.0, one.1, two)
Links-join c before x (z ∷ zs) ys after one two =
    (one.0, one.1, Links-join c x z zs ys after one.2 two)

pub Links-parts :
    (c : ℕ → CacheEntry) (before x : ℕ) (xs ys : List ℕ) (after : ℕ)
    → Links c before ((x ∷ xs) ++ ys) after
    → Links c before (x ∷ xs) (first_of ys after) × Links c (last_of x xs) ys after
Links-parts c before x [] ys after links = ((links.0, links.1, tt), links.2)
Links-parts c before x (z ∷ zs) ys after links =
    let (one, two) = Links-parts c x z zs ys after links.2 in ((links.0, links.1, one), two)

pub Distinct-append : (xs ys : List ℕ) → Distinct (xs ++ ys) → Distinct xs × Distinct ys
Distinct-append [] ys d = (tt, d)
Distinct-append (x ∷ xs) ys d =
    let (left, right) = Distinct-append xs ys d.1 in
    ((((Without-append x xs ys d.0).0), left), right)

pub last_of-append :
    (d x : ℕ) (xs : List ℕ) (y : ℕ) (ys : List ℕ) → last_of d (xs ++ y ∷ ys) ≡ last_of y ys
last_of-append d x [] y ys = refl
last_of-append d x (z ∷ zs) y ys = last_of-append z x zs y ys

pub apart-two :
    (xs : List ℕ) (y z : ℕ) (zs : List ℕ)
    → Distinct (xs ++ y ∷ z ∷ zs)
    → Without y xs × Without z xs
apart-two [] y z zs d = (tt, tt)
apart-two (x ∷ xs) y z zs d =
    let (ys, ws) = apart-two xs y z zs d.1 in
    let (_, out) = Without-append x xs (y ∷ z ∷ zs) d.0 in
    (((λ e. out.0 (sym e)), ys), ((λ e. out.1.0 (sym e)), ws))

pub apart-one : (xs : List ℕ) (y : ℕ) → Distinct (xs ++ y ∷ []) → Without y xs
apart-one [] y d = tt
apart-one (x ∷ xs) y d =
    let (_, out) = Without-append x xs (y ∷ []) d.0 in ((λ e. out.0 (sym e)), apart-one xs y d.1)

pub Distinct-snoc : (xs : List ℕ) (y : ℕ) → Distinct xs → Without y xs → Distinct (xs ++ y ∷ [])
Distinct-snoc [] y d w = (tt, tt)
Distinct-snoc (x ∷ xs) y d w =
    (Without-join x xs (y ∷ []) d.0 ((λ e. w.0 (sym e)), tt), Distinct-snoc xs y d.1 w.1)

pub Distinct-drop :
    (xs : List ℕ) (y : ℕ) (ys : List ℕ) → Distinct (xs ++ y ∷ ys) → Distinct (xs ++ ys)
Distinct-drop [] y ys d = d.1
Distinct-drop (x ∷ xs) y ys d =
    let (left, right) = Without-append x xs (y ∷ ys) d.0 in
    (Without-join x xs ys left right.1, Distinct-drop xs y ys d.1)

pub last-Without : (x : ℕ) (xs ys : List ℕ) → Distinct ((x ∷ xs) ++ ys) → Without (last_of x xs) ys
last-Without x [] ys d = d.0
last-Without x (z ∷ zs) ys d = last-Without z zs ys d.1
