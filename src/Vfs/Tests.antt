-- ===== src/Vfs/Tests.antt =====
-- Runs of the node numbers and of the cache table.
use gensis32os.Prelude.{ℕ, ◌≡◌, ◌↔◌, ◌⊎◌, Option, some, List, [], ◌∷◌}
use gensis32os.Vfs.{search_cache_table}
use gensis32os.Vfs.Cache.{first_hash, search_cache_table_iff}

abbrev cache : List (ℕ × ℕ)
cache = (7, 1) ∷ (9, 2) ∷ []

search_cache_table_iff_example :
    ((fuel : ℕ) × (r : Option (ℕ × ℕ)) × (search_cache_table fuel cache 9 ≡ some r))
    ↔ ((cache ≡ []) ⊎ (first_hash cache ≡ some 9))
search_cache_table_iff_example = search_cache_table_iff cache 9
