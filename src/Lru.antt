-- ===== src/Lru.antt =====
-- internal/lru/lru.go: the cache as a ring of entries on a heap. An entry is an address, and the
-- heap has a map for each field of an entry. Sizes are not negative and do not overflow an int64,
-- and MaxSize is not negative. A nil pointer that is followed is `none`.
pub mod Addresses
pub mod Links
pub mod Ring
pub mod Lookup
pub mod Represents
pub mod Moves
pub mod Adds
pub mod Deletes
pub mod Spec
pub mod Shows
pub mod Evicts
pub mod Stores
pub mod Runs
pub mod Reads
pub mod Refines
pub mod Bounds
pub mod Keys
pub mod Resizes
mod Tests
use gomodfs.Base.{
  ℕ, zero, suc, ◌+◌, ◌-◌, List, [], ◌∷◌, Option, none, some, Bool, true, false, not, ◌&&◌, ◌==◌,
  ltb, if◌then◌else◌, length,
}

-- the field `f` with `v` written at the address `p`
unfoldable pub update : {A : Type 0} → (ℕ → A) → ℕ → A → ℕ → A
update f p v q = if q == p then v else f q

-- the entries; addresses from `fresh` on are not in use
pub record Heap (K V : Type 0) : Type 0 where
  pub prev : ℕ → ℕ
  pub next : ℕ → ℕ
  pub key : ℕ → K
  pub value : ℕ → V
  pub fresh : ℕ

-- `Cache`; `none` for the size of an entry is nil
pub record Cache (K V : Type 0) : Type 0 where
  pub max_size : ℕ
  pub size_of_entry : Option (K → V → ℕ)
  pub cur_size : ℕ
  pub head : Option ℕ
  pub lookup : List (K × ℕ)
  pub heap : Heap K V

module _ {K V : Type 0} where
  abbrev pub set_next : ℕ → ℕ → Heap K V → Heap K V
  set_next p q h = record h { next = update h.next p q }

  abbrev pub set_prev : ℕ → ℕ → Heap K V → Heap K V
  set_prev p q h = record h { prev = update h.prev p q }

  -- a new entry, which points to itself
  abbrev pub alloc : K → V → Heap K V → Heap K V
  alloc k v h = record {
    prev = update h.prev h.fresh h.fresh;
    next = update h.next h.fresh h.fresh;
    key = update h.key h.fresh k;
    value = update h.value h.fresh v;
    fresh = suc h.fresh;
  }

  -- the entry `ent` is put between the last entry and the head: the writes of `newAtFront` and of
  -- `moveToFront` on a ring that has a head
  unfoldable pub link_in : ℕ → ℕ → Heap K V → Heap K V
  unfolding update
  link_in ent head h0 =
      let h1 = set_prev ent (h0.prev head) h0 in
      let h2 = set_next ent head h1 in
      let h3 = set_next (h2.prev head) ent h2 in set_prev head ent h3

  -- the first writes of `moveToFront`, which take an entry out of the ring
  unfoldable pub unlink : ℕ → Heap K V → Heap K V
  unfolding update
  unlink ent h0 =
      let h1 = set_next (h0.prev ent) (h0.next ent) h0 in set_prev (h1.next ent) (h1.prev ent) h1

  -- the writes of `deleteElement`, which come in the other order
  unfoldable pub cut_out : ℕ → Heap K V → Heap K V
  unfolding update
  cut_out ent h0 =
      let h1 = set_prev (h0.next ent) (h0.prev ent) h0 in set_next (h1.prev ent) (h1.next ent) h1

  -- `entrySize`
  abbrev pub size_with : Option (K → V → ℕ) → K → V → ℕ
  size_with none k v = 1
  size_with (some f) k v = f k v

  abbrev pub entry_size : Cache K V → K → V → ℕ
  entry_size c = size_with c.size_of_entry

  -- `newAtFront`: the new entry is the address that was fresh
  unfoldable pub new_at_front : K → V → Cache K V → Cache K V
  new_at_front k v c =
      let h = alloc k v c.heap in
      record c {
        head = some c.heap.fresh;
        heap = elim c.head [ none ↦ h | some hd ↦ link_in c.heap.fresh hd h ];
      }

  -- `moveToFront`
  unfoldable pub move_to_front : ℕ → Cache K V → Option (Cache K V)
  move_to_front ent c = elim c.head [
    | none ↦ none
    | some hd ↦
        if hd == ent
        then some c
        else some (record c { head = some ent; heap = link_in ent hd (unlink ent c.heap) })
  ]

  -- the condition of the loop of `Set`
  unfoldable pub over : Cache K V → Bool
  over c = not (c.max_size == 0) && ltb c.max_size c.cur_size

module _ {K : Type 0} (same : K → K → Bool) where
  -- the map `lookup`
  unfoldable pub find : K → List (K × ℕ) → Option ℕ
  find k [] = none
  find k ((j, a) ∷ m) = if same j k then some a else find k m

  unfoldable pub erase : K → List (K × ℕ) → List (K × ℕ)
  erase k [] = []
  erase k ((j, a) ∷ m) = let rest = erase k m in if same j k then rest else (j, a) ∷ rest

module _ {K V : Type 0} (same : K → K → Bool) where
  -- `deleteElement`
  unfoldable pub delete_element : ℕ → Cache K V → Cache K V
  delete_element ent c =
      let k = c.heap.key ent in
      let alone = c.heap.next ent == ent in
      let moved : Option ℕ = elim c.head [
        | none ↦ none
        | some hd ↦ if hd == ent then some (c.heap.next ent) else some hd
      ] in
      record c {
        head = if alone then none else moved;
        heap = if alone then c.heap else cut_out ent c.heap;
        lookup = erase same k c.lookup;
        cur_size = c.cur_size - entry_size c k (c.heap.value ent);
      }

  -- `deleteOldest`
  unfoldable pub delete_oldest : Cache K V → Option (Cache K V)
  delete_oldest c = elim c.head [ none ↦ none | some hd ↦ some (delete_element (c.heap.prev hd) c) ]

  -- the loop of `Set`, on fuel: every round deletes an entry
  unfoldable pub evict : ℕ → Cache K V → Option (Cache K V)
  evict zero c = none
  evict (suc fuel) c = elim (over c) [
    | false ↦ some c
    | true ↦ elim (delete_oldest c) [ none ↦ none | some c' ↦ evict fuel c' ]
  ]

  -- the value of `key` is replaced, or a new entry is made
  unfoldable pub store : K → V → Cache K V → Option (Cache K V)
  unfolding find
  store k v c = elim (find same k c.lookup) [
    | none ↦
        let c1 = new_at_front k v c in
        some (record c1 {
          lookup = (k, c.heap.fresh) ∷ c.lookup;
          cur_size = c.cur_size + entry_size c k v;
        })
    | some ent ↦ elim (move_to_front ent c) [
      | none ↦ none
      | some c1 ↦ some (record c1 {
        cur_size = c.cur_size - entry_size c k (c1.heap.value ent) + entry_size c k v;
        heap = record c1.heap { value = update c1.heap.value ent v };
      })
    ]
  ]

  -- `Set`
  unfoldable pub set : K → V → Cache K V → Option (Cache K V)
  set k v c = elim (store k v c) [ none ↦ none | some c' ↦ evict (suc (length c'.lookup)) c' ]

  -- `Clear`
  unfoldable pub clear : Cache K V → Cache K V
  clear c = record c { head = none; lookup = []; cur_size = 0 }

  -- `GetOk`
  unfoldable pub get_ok : K → Cache K V → Option (Option V × Cache K V)
  unfolding find
  get_ok k c = elim (find same k c.lookup) [
    | none ↦ some (none, c)
    | some ent ↦ elim (move_to_front ent c) [
      | none ↦ none
      | some c' ↦ some (some (c'.heap.value ent), c')
    ]
  ]

  -- `Get`, with the zero value of `V`, and `Contains`
  unfoldable pub get : V → K → Cache K V → Option (V × Cache K V)
  get zero_value k c = elim (get_ok k c) [
    | none ↦ none
    | some r ↦ some (elim r.0 [ none ↦ zero_value | some v ↦ v ], r.1)
  ]

  unfoldable pub contains : K → Cache K V → Option (Bool × Cache K V)
  contains k c = elim (get_ok k c) [
    | none ↦ none
    | some r ↦ some (elim r.0 [ none ↦ false | some v ↦ true ], r.1)
  ]

  -- `PeekOk`
  unfoldable pub peek_ok : K → Cache K V → Option V
  unfolding find
  peek_ok k c = elim (find same k c.lookup) [ none ↦ none | some ent ↦ some (c.heap.value ent) ]

  -- `Delete`
  unfoldable pub delete : K → Cache K V → Cache K V
  unfolding find
  delete k c = elim (find same k c.lookup) [ none ↦ c | some ent ↦ delete_element ent c ]

  -- `DeleteOldest`: the entry that it deleted, if there was one
  unfoldable pub pop_oldest : Cache K V → Option (K × V) × Cache K V
  pop_oldest c = elim c.head [
    | none ↦ (none, c)
    | some hd ↦
        let ent = c.heap.prev hd in (some (c.heap.key ent, c.heap.value ent), delete_element ent c)
  ]

-- `ForEach`: the entries in the order in which the function is called on them, on fuel
unfoldable pub walk : {K V : Type 0} → Heap K V → ℕ → ℕ → ℕ → List (K × V)
walk h head zero cur = []
walk h head (suc fuel) cur =
    let rest = walk h head fuel (h.next cur) in
    (h.key cur, h.value cur) ∷ (if h.next cur == head then [] else rest)

unfoldable pub for_each : {K V : Type 0} → Cache K V → List (K × V)
unfolding walk
for_each c = elim c.head [ none ↦ [] | some hd ↦ walk c.heap hd (length c.lookup) hd ]

-- `Len` and `Size`
abbrev pub len : {K V : Type 0} → Cache K V → ℕ
len c = length c.lookup

abbrev pub size : {K V : Type 0} → Cache K V → ℕ
size c = c.cur_size
