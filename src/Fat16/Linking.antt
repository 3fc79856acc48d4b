-- ===== src/Fat16/Linking.antt =====
-- What the changes of one link do to the list of the cache table.
use gensis32os.Prelude.{
  eq→==, ne→not_==, ℕ, ◌≡◌, refl, sym, ap, ap₂, ◌∙◌, subst, ◌≢◌, List, [], ◌∷◌, ◌++◌,
}
use gensis32os.Fat16.Tables.{set_next, set_prev, CacheEntry, unlink_cache}
use gensis32os.Memory.{put_block}
use gensis32os.Fat16.OpenFiles.{
  last_of, Without, Without-last, Links, Distinct, Links-relast, Links-same, Links-join,
  Links-parts, Distinct-append, apart-two, last-Without,
}

pub put_block_self : (c : ℕ → CacheEntry) (p : ℕ) (e : CacheEntry) → put_block c p e p ≡ e
unfolding put_block
put_block_self c p e = rw (eq→== p p refl) refl

pub put_block_ne :
    (c : ℕ → CacheEntry) (p : ℕ) (e : CacheEntry) (a : ℕ) → a ≢ p → put_block c p e a ≡ c a
unfolding put_block
put_block_ne c p e a h = rw (ne→not_== a p h) refl

pub set_next_self : (c : ℕ → CacheEntry) (p q : ℕ) → set_next c p q p ≡ record (c p) { next = q }
unfolding set_next
set_next_self c p q = put_block_self c p _

pub set_next_ne : (c : ℕ → CacheEntry) (p q a : ℕ) → a ≢ p → set_next c p q a ≡ c a
unfolding set_next
set_next_ne c p q a h = put_block_ne c p _ a h

pub set_prev_self : (c : ℕ → CacheEntry) (p q : ℕ) → set_prev c p q p ≡ record (c p) { prev = q }
unfolding set_prev
set_prev_self c p q = put_block_self c p _

pub set_prev_ne : (c : ℕ → CacheEntry) (p q a : ℕ) → a ≢ p → set_prev c p q a ≡ c a
unfolding set_prev
set_prev_ne c p q a h = put_block_ne c p _ a h

-- A new entry behind the last one.
pub append-Links :
    (c : ℕ → CacheEntry) (x : ℕ) (xs : List ℕ) (last ct : ℕ) (e : CacheEntry)
    → Links c 0 (x ∷ xs) 0
    → Distinct (x ∷ xs)
    → Without ct (x ∷ xs)
    → last ≡ last_of x xs
    → e.next ≡ 0
    → Links (set_prev (set_next (put_block c ct e) last ct) ct last) 0 ((x ∷ xs) ++ ct ∷ []) 0
append-Links c x xs last ct e links distinct out at stop =
    let c1 = put_block c ct e in
    let c2 = set_next c1 last ct in
    let c3 = set_prev c2 ct last in
    let apart : last_of x xs ≢ ct = Without-last ct x xs out in
    let apart' : last ≢ ct = λ q. apart (sym at ∙ q) in
    let at_last : c3 (last_of x xs) ≡ record (c (last_of x xs)) { next = ct } =
      ap c3 (sym at)
      ∙ set_prev_ne c2 ct last last apart'
      ∙ set_next_self c1 last ct
      ∙ ap (λ (t : CacheEntry). record t { next = ct })
          (put_block_ne c ct e last apart' ∙ ap c at) in
    let at_new : c3 ct ≡ record e { prev = last } =
      set_prev_self c2 ct last
      ∙ ap (λ (t : CacheEntry). record t { prev = last })
          (set_next_ne c1 last ct ct (λ q. apart' (sym q)) ∙ put_block_self c ct e) in
    Links-join c3 0 x xs (ct ∷ []) 0
      (Links-relast c c3 0 x xs 0 ct ct links distinct out
        (λ a no_last no_new.
          set_prev_ne c2 ct last a no_new
          ∙ set_next_ne c1 last ct a (λ q. no_last (q ∙ at))
          ∙ put_block_ne c ct e a no_new)
        (ap (λ t. t.prev) at_last) (ap (λ t. t.next) at_last))
      (ap (λ t. t.prev) at_new ∙ at, ap (λ t. t.next) at_new ∙ stop, tt)

-- The neighbours of an entry are linked to each other.
pub unlink-Links :
    (c : ℕ → CacheEntry) (x : ℕ) (xs : List ℕ) (y z : ℕ) (zs : List ℕ)
    → Links c 0 ((x ∷ xs) ++ y ∷ z ∷ zs) 0
    → Distinct ((x ∷ xs) ++ y ∷ z ∷ zs)
    → Links (unlink_cache c y) 0 ((x ∷ xs) ++ z ∷ zs) 0
unfolding unlink_cache
unlink-Links c x xs y z zs links distinct =
    let (before, after) = Links-parts c 0 x xs (y ∷ z ∷ zs) 0 links in
    let (_, outs) = apart-two (x ∷ xs) y z zs distinct in
    let p = last_of x xs in
    let prev_of : (c y).prev ≡ p = after.0 in
    let next_of : (c y).next ≡ z = after.1 in
    let c1 = set_next c p z in
    let c2 = set_prev c1 z p in
    let whole : c2 ≡ set_prev (set_next c (c y).prev (c y).next) (c y).next (c y).prev =
      ap₂ (λ (a b : ℕ). set_prev (set_next c a b) b a) (sym prev_of) (sym next_of) in
    let apart : p ≢ z = Without-last z x xs outs in
    let (_, tail) = Distinct-append (x ∷ xs) (y ∷ z ∷ zs) distinct in
    let at_last : c2 p ≡ record (c p) { next = z } =
      set_prev_ne c1 z p p apart ∙ set_next_self c p z in
    let at_next : c2 z ≡ record (c z) { prev = p } =
      set_prev_self c1 z p
      ∙ ap (λ (t : CacheEntry). record t { prev = p }) (set_next_ne c p z z (λ q. apart (sym q))) in
    subst (λ t. Links t 0 ((x ∷ xs) ++ z ∷ zs) 0) whole
      (Links-join c2 0 x xs (z ∷ zs) 0
        (Links-relast c c2 0 x xs y z z before (Distinct-append (x ∷ xs) (y ∷ z ∷ zs) distinct).0
          outs (λ a no_last no_next. set_prev_ne c1 z p a no_next ∙ set_next_ne c p z a no_last)
          (ap (λ t. t.prev) at_last) (ap (λ t. t.next) at_last))
        (
          ap (λ t. t.prev) at_next,
          ap (λ t. t.next) at_next ∙ after.2.1,
          Links-same c c2 z zs 0 p z after.2.2 (last-Without x xs (y ∷ z ∷ zs) distinct).1.1
              tail.1.0
              (λ a no_last no_next. set_prev_ne c1 z p a no_next ∙ set_next_ne c p z a no_last),
        ))
