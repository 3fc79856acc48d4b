-- ===== src/Vfs/Cache.antt =====
-- Node numbers and the search of the cache table.
use gensis32os.Prelude.{
  lt_or_le, eq_or_ne, get_or, neg, ℕ, zero, suc, ◌+◌, ◌-◌, ◌≤◌, ◌<◌, ◌≡◌, refl, ap, ◌↔◌, ◌⊎◌, inl,
  inr, Option, none, some, List, [], ◌∷◌, arith,
}
use gensis32os.Vfs.{
  vfs_node_id_max, vfs_node_depletion_panic, generate_vfs_node_id, search_cache_table,
}

-- The results of `n` calls in a row, and the counter after them.
pub node_ids : (n count : ℕ) → List ℕ
node_ids zero count = []
node_ids (suc n) count = let (id, next) = generate_vfs_node_id count in id ∷ node_ids n next

-- From a counter that has room for them, calls in a row give consecutive numbers, all different; from one that
-- is at the maximum or past it, as the initial value is, every call fails.
pub node_ids-at :
    (n count k : ℕ)
    → k < n
    → (count + n ≤ vfs_node_id_max → get_or (node_ids n count) k 0 ≡ count + 1 + k)
      × (vfs_node_id_max ≤ count → get_or (node_ids n count) k 0 ≡ neg vfs_node_depletion_panic)
unfolding node_ids generate_vfs_node_id
node_ids-at zero count k h = absurd (omega arith)
node_ids-at (suc n) count k h = elim (eq_or_ne k 0) [
  | inl z ↦ ground (arith, z)
  | inr ne ↦ elim (lt_or_le count vfs_node_id_max) [
    | inl lt ↦ ground (arith, node_ids-at n (count + 1) (k - 1))
    | inr ge ↦ ground (arith, node_ids-at n count (k - 1))
  ]
]

pub first_hash {ℓ} : {E : Type ℓ} → List (ℕ × E) → Option ℕ
first_hash [] = none
first_hash (e ∷ rest) = some e.0

stuck {ℓ} :
    {E : Type ℓ} (fuel : ℕ) (e : ℕ × E) (rest : List (ℕ × E)) (hash : ℕ) (r : Option (ℕ × E))
    → search_cache_table fuel (e ∷ rest) hash ≡ some r
    → e.0 ≡ hash
unfolding search_cache_table
stuck zero e rest hash r q = ground (arith, q)
stuck (suc f) e rest hash r q = elim (eq_or_ne e.0 hash) [
  | inl same ↦ same
  | inr ne ↦ stuck f e rest hash r (ground (arith, q, ne))
]

-- `search_cache_table` ends only if the table is empty or its first entry has the hash. Otherwise it never
-- does, even when a later entry has it.
pub search_cache_table_iff {ℓ} :
    {E : Type ℓ} (table : List (ℕ × E)) (hash : ℕ)
    → ((fuel : ℕ) × (r : Option (ℕ × E)) × (search_cache_table fuel table hash ≡ some r))
      ↔ ((table ≡ []) ⊎ (first_hash table ≡ some hash))
unfolding search_cache_table first_hash
search_cache_table_iff [] hash = (λ e. inl refl, λ e. (1, none, refl))
search_cache_table_iff (e ∷ rest) hash = (
  λ (f, r, q). inr (ap some (stuck f e rest hash r q)),
  λ found. (1, some e, ground (arith, found)),
)
