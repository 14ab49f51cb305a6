-- ===== src/Lru/Runs.antt =====
-- Sequences of calls of the methods of a cache of internal/lru/lru.go, and what a list promises for
-- them.
use gomodfs.Base.{ℕ, List, [], ◌∷◌, Option, none, some, Bool}
use gomodfs.Lru.{Heap, Cache, set, get_ok, peek_ok, delete, pop_oldest, clear}
use gomodfs.Lru.Spec.{limited, last, init, lookup_of, drop_key, touched}

pub data Op (K V : Type 0) : Type 0 where
  put : K → V → Op K V
  get : K → Op K V
  peek : K → Op K V
  remove : K → Op K V
  remove_oldest : Op K V
  remove_all : Op K V

-- what a call returns
pub data Out (K V : Type 0) : Type 0 where
  done : Out K V
  value_of : Option V → Out K V
  oldest_of : Option (K × V) → Out K V

-- the zero `Cache` with the two public fields set
unfoldable pub empty_cache : {K V : Type 0} → Option (K → V → ℕ) → ℕ → Heap K V → Cache K V
empty_cache f max h = record {
  max_size = max;
  size_of_entry = f;
  cur_size = 0;
  head = none;
  lookup = [];
  heap = h;
}

module _ {K V : Type 0} (same : K → K → Bool) where
  unfoldable pub call : Op K V → Cache K V → Option (Out K V × Cache K V)
  call (put k v) c = elim (set same k v c) [ none ↦ none | some c' ↦ some (done, c') ]
  call (get k) c = elim (get_ok same k c) [ none ↦ none | some r ↦ some (value_of r.0, r.1) ]
  call (peek k) c = some (value_of (peek_ok same k c), c)
  call (remove k) c = some (done, delete same k c)
  call remove_oldest c = let r = pop_oldest same c in some (oldest_of r.0, r.1)
  call remove_all c = some (done, clear same c)

  -- the returned values of the calls in order, and the cache after them
  unfoldable pub calls : List (Op K V) → Cache K V → Option (List (Out K V) × Cache K V)
  unfolding call
  calls [] c = some ([], c)
  calls (o ∷ os) c = elim (call o c) [
    | none ↦ none
    | some r ↦ elim (calls os r.1) [ none ↦ none | some q ↦ some (r.0 ∷ q.0, q.1) ]
  ]

  -- what a call returns on the list
  unfoldable pub answer : Op K V → List (K × V) → Out K V
  unfolding lookup_of last
  answer (put k v) l = done
  answer (get k) l = value_of (lookup_of same k l)
  answer (peek k) l = value_of (lookup_of same k l)
  answer (remove k) l = done
  answer remove_oldest l = oldest_of (last l)
  answer remove_all l = done

  module _ (f : Option (K → V → ℕ)) (max : ℕ) where
    -- the list after a call
    unfoldable pub after : Op K V → List (K × V) → List (K × V)
    unfolding limited drop_key touched init
    after (put k v) l = limited f max ((k, v) ∷ drop_key same k l)
    after (get k) l = touched same k l
    after (peek k) l = l
    after (remove k) l = drop_key same k l
    after remove_oldest l = init l
    after remove_all l = []

    unfoldable pub after_all : List (Op K V) → List (K × V) → List (K × V)
    unfolding after
    after_all [] l = l
    after_all (o ∷ os) l = after_all os (after o l)

    unfoldable pub outs : List (Op K V) → List (K × V) → List (Out K V)
    unfolding after
    outs [] l = []
    outs (o ∷ os) l = answer o l ∷ outs os (after o l)
