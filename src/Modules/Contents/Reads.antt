-- ===== src/Modules/Contents/Reads.antt =====
-- Sequences of reads through the cache of getFileContents of gomodfs.go.
use gomodfs.Base.{
  ℕ, ◌≡◌, inl, inr, refl, Bytes, List, [], ◌∷◌, Option, none, some, Bool-cases, Option-cases,
  Result-cases, none-ne-some, length, Error, Result, ok, err, sym, ap, ◌∙◌,
}
use gomodfs.Lru.{Cache, Heap, set, get_ok}
use gomodfs.Lru.Spec.{lookup_of, drop_key, touched, limited}
use gomodfs.Lru.Shows.{Shows}
use gomodfs.Lru.Reads.{get_ok-Shows}
use gomodfs.Lru.Refines.{set-Shows, empty_cache-Shows}
use gomodfs.Lru.Runs.{empty_cache}
use gomodfs.Lru.Keys.{lookup_of-touched, lookup_of-front, lookup_of-here}
use gomodfs.Lru.Resizes.{resized, lookup_of-limited}
use gomodfs.Modules.Contents.{
  PathKey, key_eq, key_eq-IsEquality, by_bytes, set_up, get_file_contents,
}

module _ (limit : ℕ) (file_of : PathKey → Result Bytes) where
  -- the cache has files of the store
  pub record IsRight (c : Cache PathKey Bytes) : Type 0 where
    pub list : List (PathKey × Bytes)
    pub sizes : Option (PathKey → Bytes → ℕ)
    pub max : ℕ
    pub shows : Shows key_eq sizes max c list
    pub right : (k : PathKey) (v : Bytes) → lookup_of key_eq k list ≡ some v → file_of k ≡ ok v
    pub fresh : c.size_of_entry ≡ none → list ≡ []

  set_up-none :
      (c : Cache PathKey Bytes)
      → c.size_of_entry ≡ none
      → set_up limit c ≡ record c { size_of_entry = by_bytes; max_size = limit }
  unfolding set_up
  set_up-none c e =
      ap
        (λ (o : Option (PathKey → Bytes → ℕ)). elim o as (λ _. Cache PathKey Bytes) [
          | none ↦ record c { size_of_entry = by_bytes; max_size = limit }
          | some f ↦ c
        ])
        e

  set_up-some :
      (f : PathKey → Bytes → ℕ) (c : Cache PathKey Bytes)
      → c.size_of_entry ≡ some f
      → set_up limit c ≡ c
  unfolding set_up
  set_up-some f c e =
      ap
        (λ (o : Option (PathKey → Bytes → ℕ)). elim o as (λ _. Cache PathKey Bytes) [
          | none ↦ record c { size_of_entry = by_bytes; max_size = limit }
          | some f ↦ c
        ])
        e

  pub record Ready (c : Cache PathKey Bytes) : Type 0 where
    pub result : Cache PathKey Bytes
    pub returns : set_up limit c ≡ result
    pub holds : IsRight result
    pub sized : (f : PathKey → Bytes → ℕ) × (holds.sizes ≡ some f)

  set_up-Ready : (c : Cache PathKey Bytes) → IsRight c → Ready c
  unfolding lookup_of
  set_up-Ready c r = elim (Option-cases c.size_of_entry) [
    | inr (f, e) ↦ record {
      result = c;
      returns = set_up-some f c e;
      holds = r;
      sized = (f, sym r.shows.sizes ∙ e);
    }
    | inl n ↦ record {
      result = record c { size_of_entry = by_bytes; max_size = limit };
      returns = set_up-none c n;
      holds = record {
        list = [];
        sizes = by_bytes;
        max = limit;
        shows =
            resized key_eq r.sizes by_bytes r.max limit limit c refl (rw (r.fresh n) at r.shows);
        right = λ k v e. absurd (none-ne-some e);
        fresh = λ e. refl;
      };
      sized = (λ k v. length v, refl);
    }
  ]

  fetched-hit :
      (k : PathKey) (v : Bytes) (c c1 : Cache PathKey Bytes)
      → get_ok key_eq k c ≡ some (some v, c1)
      → get_file_contents limit k (file_of k) c ≡ some (ok v, c1)
  unfolding get_file_contents
  fetched-hit k v c c1 e = rw (get_file_contents, e) refl

  fetched-err :
      (k : PathKey) (d : Error) (c c1 : Cache PathKey Bytes)
      → get_ok key_eq k c ≡ some (none, c1)
      → file_of k ≡ err d
      → get_file_contents limit k (file_of k) c ≡ some (err d, c1)
  unfolding get_file_contents
  fetched-err k d c c1 e f = rw (get_file_contents, e, f) refl

  fetched-ok :
      (k : PathKey) (v : Bytes) (c c1 c2 c3 : Cache PathKey Bytes)
      → get_ok key_eq k c ≡ some (none, c1)
      → file_of k ≡ ok v
      → set_up limit c1 ≡ c2
      → set key_eq k v c2 ≡ some c3
      → get_file_contents limit k (file_of k) c ≡ some (ok v, c3)
  unfolding get_file_contents
  fetched-ok k v c c1 c2 c3 e f g h = rw (get_file_contents, e, f, g, h) refl

  right_front :
      (k : PathKey) (v : Bytes) (l : List (PathKey × Bytes))
      → file_of k ≡ ok v
      → ((j : PathKey) (u : Bytes) → lookup_of key_eq j l ≡ some u → file_of j ≡ ok u)
      → (j : PathKey) (u : Bytes) → lookup_of key_eq j ((k, v) ∷ drop_key key_eq k l) ≡ some u
      → file_of j ≡ ok u
  right_front k v l here rest j u e = elim (Bool-cases (key_eq k j)) [
    | inl is ↦
        let at_front = lookup_of-here key_eq key_eq-IsEquality k j v l is in
        let same : v ≡ u = (let g = sym at_front ∙ e in cc) in
        rw (sym same, sym ((key_eq-IsEquality k j).0 is)) here
    | inr differs ↦ rest j u (sym (lookup_of-front key_eq key_eq-IsEquality k j v l differs) ∙ e)
  ]

  touched-IsRight :
      (k : PathKey) (c c1 : Cache PathKey Bytes) (r : IsRight c)
      → Shows key_eq r.sizes r.max c1 (touched key_eq k r.list)
      → IsRight c1
  unfolding touched lookup_of
  touched-IsRight k c c1 r s = record {
    list = touched key_eq k r.list;
    sizes = r.sizes;
    max = r.max;
    shows = s;
    right = λ j u e. r.right j u (sym (lookup_of-touched key_eq key_eq-IsEquality j k r.list) ∙ e);
    fresh = λ e. rw (r.fresh (r.shows.sizes ∙ sym s.sizes ∙ e)) refl;
  }

  -- one read
  pub get_file_contents-IsRight :
      (k : PathKey) (c : Cache PathKey Bytes)
      → IsRight c
      → (c' : Cache PathKey Bytes) × (get_file_contents limit k (file_of k) c
          ≡ some (file_of k, c'))
        × IsRight c'
  get_file_contents-IsRight k c r =
      let (c1, run, s1) = get_ok-Shows key_eq key_eq-IsEquality r.sizes r.max k c r.list r.shows in
      let r1 = touched-IsRight k c c1 r s1 in
      elim (Option-cases (lookup_of key_eq k r.list)) [
        | inr (v, e) ↦
            (c1, fetched-hit k v c c1 (rw e at run) ∙ answered c1 (ok v) (sym (r.right k v e)), r1)
        | inl n ↦ elim (Result-cases (file_of k)) [
          | inl (d, f) ↦
              (c1, fetched-err k d c c1 (rw n at run) f ∙ answered c1 (err d) (sym f), r1)
          | inr (v, f) ↦
              let u = set_up-Ready c1 r1 in
              let w = u.holds in
              let (c3, put, s3) =
                set-Shows key_eq key_eq-IsEquality w.sizes w.max k v u.result w.list w.shows in
              (
                c3,
                fetched-ok k v c c1 u.result c3 (rw n at run) f u.returns put
                    ∙ answered c3 (ok v) (sym f),
                record {
                  list = limited w.sizes w.max ((k, v) ∷ drop_key key_eq k w.list);
                  sizes = w.sizes;
                  max = w.max;
                  shows = s3;
                  right = λ j x e. right_front k v w.list f w.right j x (
                      lookup_of-limited key_eq w.sizes w.max j x ((k, v) ∷ drop_key key_eq k w.list)
                        e);
                  fresh = λ e. absurd (none-ne-some (sym e ∙ s3.sizes ∙ u.sized.1));
                },
              )
        ]
      ]
    where
      answered :
          (c' : Cache PathKey Bytes) (x : Result Bytes)
          → x ≡ file_of k
          → ◌≡◌ {A = Option (Result Bytes × Cache PathKey Bytes)}
              (some (x, c'))
              (some (file_of k, c'))
      answered c' x e = ap (λ (y : Result Bytes). some (y, c')) e

  -- the results of reads one after the other
  unfoldable pub read_paths :
      List PathKey → Cache PathKey Bytes → Option (List (Result Bytes) × Cache PathKey Bytes)
  unfolding get_file_contents
  read_paths [] c = some ([], c)
  read_paths (k ∷ ks) c = elim (get_file_contents limit k (file_of k) c) [
    | none ↦ none
    | some (r, c1) ↦ elim (read_paths ks c1) [ none ↦ none | some (rs, c2) ↦ some (r ∷ rs, c2) ]
  ]

  abbrev pub files_of : List PathKey → List (Result Bytes)
  files_of [] = []
  files_of (k ∷ ks) = file_of k ∷ files_of ks

  read_paths-next :
      (k : PathKey) (ks : List PathKey) (c c1 c2 : Cache PathKey Bytes) (r : Result Bytes)
      (rs : List (Result Bytes))
      → get_file_contents limit k (file_of k) c ≡ some (r, c1)
      → read_paths ks c1 ≡ some (rs, c2)
      → read_paths (k ∷ ks) c ≡ some (r ∷ rs, c2)
  unfolding read_paths
  read_paths-next k ks c c1 c2 r rs e1 e2 = rw (read_paths, e1, e2) refl

  read_paths-IsRight :
      (ks : List PathKey) (c : Cache PathKey Bytes)
      → IsRight c
      → (c' : Cache PathKey Bytes) × (read_paths ks c ≡ some (files_of ks, c')) × IsRight c'
  unfolding read_paths
  read_paths-IsRight [] c r = (c, refl, r)
  read_paths-IsRight (k ∷ ks) c r =
      let (c1, run1, r1) = get_file_contents-IsRight k c r in
      let (c2, run2, r2) = read_paths-IsRight ks c1 r1 in
      (c2, read_paths-next k ks c c1 c2 (file_of k) (files_of ks) run1 run2, r2)

  -- Reads by module version and path through the cache of getFileContents give what the store
  -- gives, errors included, if its files do not change: for any reads in any order from the empty
  -- cache, whatever the limit is, and no nil pointer is followed.
  pub read_paths-files :
      (ks : List PathKey) (h : Heap PathKey Bytes)
      → (c' : Cache PathKey Bytes) × (read_paths ks (empty_cache none 0 h) ≡ some (files_of ks, c'))
  unfolding lookup_of
  read_paths-files ks h =
      let start : IsRight (empty_cache none 0 h) = record {
        list = [];
        sizes = none;
        max = 0;
        shows = empty_cache-Shows key_eq key_eq-IsEquality none 0 h;
        right = λ k v e. absurd (none-ne-some e);
        fresh = λ e. refl;
      } in
      let (c', run, r) = read_paths-IsRight ks (empty_cache none 0 h) start in (c', run)
