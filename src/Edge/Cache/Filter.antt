-- ===== src/Edge/Cache/Filter.antt =====
-- ComputeBloomFilter (edge/cache/cache.go). The filter is any type with an empty value and an insertion.
use sdcc_project.Base.{
  ℕ, String, List, [], ◌∷◌, none, some, Outcome, ok, panic, deadlock, if◌then◌else◌, get_elem?,
}
use sdcc_project.Edge.Cache.{File, Cache, caching_list}

module _ {Filter : Type 0} (new_filter : Filter) (add : String → Filter → Filter) where
  -- The loop over the list; every reference is to a file of the heap.
  unfoldable pub add_files : List File → List ℕ → Filter → Outcome ⊥ Filter
  add_files heap [] filter = ok filter
  add_files heap (ref ∷ rest) filter = elim (get_elem? heap ref) [
    | none ↦ panic
    | some file ↦ add_files heap rest (add file.file_name filter)
  ]

  unfoldable pub compute_bloom_filter : Cache → Outcome ⊥ Filter
  unfolding add_files
  compute_bloom_filter c =
      if c.cache_mutex then deadlock else add_files c.heap (caching_list c) new_filter
