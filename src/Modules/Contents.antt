-- ===== src/Modules/Contents.antt =====
-- gomodfs.go: getFileContents, the files by module version and path in a cache of
-- internal/lru/lru.go. The store's GetFile is a parameter, which only reads; `none` is a nil
-- pointer.
pub mod Reads
use gomodfs.Base.{
  ℕ, ◌≡◌, ◌≤◌, ◌<◌, ◌↔◌, inl, inr, refl, arith, Bytes, List, [], ◌∷◌, Option, none, some, Bool,
  true, false, ◌&&◌, Bool-cases, Option-cases, Result-cases, none-ne-some, if◌then◌else◌, beq,
  beq_iff, &&-eq-true, length, Error, Result, ok, err, sym, ap, ◌∙◌,
}
use gomodfs.Store.{ModuleVersion, mv_eq, mv_eq_iff}
use gomodfs.Lru.{Cache, Heap, set, get_ok}
use gomodfs.Lru.Lookup.{IsEquality}
use gomodfs.Lru.Spec.{lookup_of, drop_key, touched, limited}
use gomodfs.Lru.Shows.{Shows}
use gomodfs.Lru.Reads.{get_ok-Shows}
use gomodfs.Lru.Refines.{set-Shows, empty_cache-Shows}
use gomodfs.Lru.Runs.{empty_cache}
use gomodfs.Lru.Keys.{lookup_of-touched, lookup_of-front, lookup_of-here}
use gomodfs.Lru.Resizes.{resized, lookup_of-limited}

-- `pathContentsKey`
abbrev pub PathKey : Type 0
PathKey = ModuleVersion × Bytes

unfoldable pub key_eq : PathKey → PathKey → Bool
unfolding mv_eq beq
key_eq a b = mv_eq a.0 b.0 && beq a.1 b.1

pub key_eq-IsEquality : IsEquality key_eq
unfolding key_eq
key_eq-IsEquality a b = (
  λ h.
      let (p, q) = &&-eq-true (mv_eq a.0 b.0) (beq a.1 b.1) h in
      let pair : (x : ModuleVersion) (y : Bytes)
          → x ≡ b.0
          → y ≡ b.1
          → ◌≡◌ {A = PathKey} (x, y) (b.0, b.1) =
        λ x y e f. rw (e, f) refl in
      pair a.0 a.1 ((mv_eq_iff a.0 b.0).0 p) ((beq_iff a.1 b.1).0 q),
  λ e. rw (sym e) (rw ((mv_eq_iff a.0 a.0).1 refl, (beq_iff a.1 a.1).1 refl) refl),
)

abbrev pub by_bytes : Option (PathKey → Bytes → ℕ)
by_bytes = some (λ k v. length v)

-- the cache gets its sizes and its limit when it is first filled
unfoldable pub set_up : ℕ → Cache PathKey Bytes → Cache PathKey Bytes
set_up limit c = elim c.size_of_entry [
  | none ↦ record c { size_of_entry = by_bytes; max_size = limit }
  | some f ↦ c
]

-- `getFileContents` with what the store has for the file, and the limit of `GetFileCacheSize`
unfoldable pub get_file_contents :
    ℕ → PathKey → Result Bytes → Cache PathKey Bytes → Option (Result Bytes × Cache PathKey Bytes)
unfolding key_eq set_up
get_file_contents limit k file c = elim (get_ok key_eq k c) [
  | none ↦ none
  | some (found, c1) ↦ elim found [
    | some v ↦ some (ok v, c1)
    | none ↦ elim file [
      | err e ↦ some (err e, c1)
      | ok v ↦ elim (set key_eq k v (set_up limit c1)) [ none ↦ none | some c2 ↦ some (ok v, c2) ]
    ]
  ]
]
