-- ===== src/Lru/Tests.antt =====
-- Runs of internal/lru/lru.go.
use gomodfs.Base.{
  ℕ, ◌≡◌, ◌≤◌, ◌<◌, refl, arith, List, [], ◌∷◌, Option, none, some, Bool, ◌==◌, length,
}
use gomodfs.Lru.{
  Heap, Cache, update, link_in, unlink, cut_out, new_at_front, move_to_front, over, find, erase,
  delete_element, delete_oldest, evict, store, set, clear, get_ok, peek_ok, delete, pop_oldest,
  walk, for_each, len, size,
}
use gomodfs.Lru.Lookup.{IsEquality}
use gomodfs.Lru.Spec.{total_of}
use gomodfs.Lru.Runs.{
  Op, put, get, peek, remove, remove_oldest, Out, done, value_of, oldest_of, empty_cache, call,
  calls, after_all, outs,
}
use gomodfs.Lru.Refines.{calls-refine}
use gomodfs.Lru.Bounds.{size-bound}

abbrev no_entries : Heap ℕ ℕ
no_entries = record { prev = λ a. 0; next = λ a. 0; key = λ a. 0; value = λ a. 0; fresh = 1 }

eqb : ℕ → ℕ → Bool
eqb m n = m == n

eqb-IsEquality : IsEquality eqb
unfolding eqb
eqb-IsEquality a b = (λ h. ground (arith, h), λ h. ground (arith, h))

-- the size of an entry is its value
abbrev by_value : Option (ℕ → ℕ → ℕ)
by_value = some (λ k v. v)

-- the last `Set` has no room for the entry of 2, which is the oldest one then
abbrev some_calls : List (Op ℕ ℕ)
some_calls =
    put 1 3
    ∷ put 2 4
    ∷ put 3 2
    ∷ get 1
    ∷ peek 2
    ∷ put 3 5
    ∷ get 2
    ∷ put 4 1
    ∷ remove 3
    ∷ put 5 2
    ∷ remove_oldest
    ∷ []

abbrev get_results : Option (List (Out ℕ ℕ) × Cache ℕ ℕ) → List (Out ℕ ℕ) × List (ℕ × ℕ)
get_results none = ([], [])
get_results (some (r, c)) = (r, for_each c)

some_calls_run : get_results (calls eqb some_calls (empty_cache by_value 10 no_entries)) ≡ (
  done
      ∷ done
      ∷ done
      ∷ value_of (some 3)
      ∷ value_of (some 4)
      ∷ done
      ∷ value_of none
      ∷ done
      ∷ done
      ∷ done
      ∷ oldest_of (some (1, 3))
      ∷ [],
  (5, 2) ∷ (4, 1) ∷ [],
)
unfolding eqb calls call empty_cache set store evict over delete_oldest delete_element new_at_front
    move_to_front link_in unlink cut_out update find erase get_ok peek_ok delete pop_oldest clear
    for_each walk
some_calls_run = refl

calls-refine_example :
    (c' : Cache ℕ ℕ) × (calls eqb some_calls (empty_cache by_value 10 no_entries)
      ≡ some (outs eqb by_value 10 some_calls [], c'))
    × (for_each c' ≡ after_all eqb by_value 10 some_calls [])
    × (len c' ≡ length (after_all eqb by_value 10 some_calls []))
    × (size c' ≡ total_of by_value (after_all eqb by_value 10 some_calls []))
calls-refine_example = calls-refine eqb eqb-IsEquality by_value 10 some_calls no_entries

ten : 0 < 10
ten = omega arith

size-bound_example :
    (c' : Cache ℕ ℕ) × (calls eqb some_calls (empty_cache by_value 10 no_entries)
      ≡ some (outs eqb by_value 10 some_calls [], c'))
    × (size c' ≤ 10)
size-bound_example = size-bound eqb eqb-IsEquality by_value 10 ten some_calls no_entries
