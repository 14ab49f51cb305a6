-- ===== src/Modules/Cached.antt =====
-- The cache of module handles of gomodfs.go (`zipRootCache`).
use gomodfs.Base.{
  sym, ℕ, ◌≡◌, refl, List, [], ◌∷◌, none, some, Option, Option-cases, Bool-cases, if◌then◌else◌,
  inl, inr, arith, ap, Result, ok, err, map,
}
use gomodfs.Store.{ModuleVersion, mv_eq, mv_eq_iff, Escaper}
use gomodfs.Modules.{StoreOps, Libraries, Config}
use gomodfs.Modules.Handles.{
  HandleMaps, Fs, ModHandleCacheEntry, ZipRootCache, get_zip_root_cached, note_module_version,
}
use gomodfs.Modules.Fetch.{get_zip_root, cache_root, find_root}

-- the handles of a cache under their keys, less the times
abbrev pub handles_of : {H : Type 0} → ZipRootCache H → List (ModuleVersion × H)
handles_of {H} m = map (λ (e : ModuleVersion × ModHandleCacheEntry H). (e.0, e.1.h)) m

-- the entry of a module version
unfoldable pub entry_of :
    {H : Type 0} → ModuleVersion → ZipRootCache H → Option (ModHandleCacheEntry H)
entry_of mv [] = none
entry_of mv ((k, ent) ∷ m) = if mv_eq k mv then some ent else entry_of mv m

entry-new :
    {H : Type 0} (mv : ModuleVersion) (ent : ModHandleCacheEntry H) (m : ZipRootCache H)
    → entry_of mv ((mv, ent) ∷ m) ≡ some ent
unfolding entry_of
entry-new mv ent m = ground (arith, mv_eq_iff mv mv)

-- the cache has the handle of a module version
abbrev Holds : {H : Type 0} → ModuleVersion → H → ZipRootCache H → Type 0
Holds mv h m = (t : ℕ) × (entry_of mv m ≡ some (record { h = h; last_used = t }))

-- a hit, at the time `now`: the cache `m'` after it has the same handles, and the entry is used now
abbrev pub IsTouched :
    {H : Type 0} → ℕ → ModuleVersion → H → ZipRootCache H → ZipRootCache H → Type 0
IsTouched now mv h m m' =
    (handles_of m' ≡ handles_of m) × (entry_of mv m' ≡ some (record { h = h; last_used = now }))

hit_of-Holds :
    {H : Type 0} (now : ℕ) (mv : ModuleVersion) (h : H) (m : ZipRootCache H)
    → Holds mv h m
    → (m' : ZipRootCache H) × (get_zip_root_cached now mv m ≡ some (h, m'))
      × IsTouched now mv h m m'
unfolding entry_of get_zip_root_cached
hit_of-Holds now mv h [] (t, e) = absurd (cc)
hit_of-Holds {H} now mv h ((k, ent) ∷ m) (t, e) = elim (Bool-cases (mv_eq k mv)) [
  | inl is ↦
      let same : ent.h ≡ h = ground (arith, is) in
      rw (sym same) (
        (k, record ent { last_used = now }) ∷ m,
        rw (is, get_zip_root_cached) refl,
        (refl, rw (is, entry_of) refl),
      )
  | inr differs ↦
      let (m', hit, (handles, entry)) = hit_of-Holds now mv h m (t, rw (differs, entry_of) at e) in
      (
        (k, ent) ∷ m',
        rw (differs, get_zip_root_cached, hit) refl,
        (
          ap (λ (l : List (ModuleVersion × H)). (k, ent.h) ∷ l) handles,
          rw (differs, entry_of) entry,
        ),
      )
]

hit-Holds :
    {H : Type 0} (now : ℕ) (mv : ModuleVersion) (h : H) (m m' : ZipRootCache H)
    → get_zip_root_cached now mv m ≡ some (h, m')
    → Holds mv h m'
unfolding entry_of get_zip_root_cached
hit-Holds now mv h [] m' e = absurd (cc)
hit-Holds {H} now mv h ((k, ent) ∷ m) m' e = elim (Bool-cases (mv_eq k mv)) [
  | inl is ↦ (now, ground (arith, is))
  | inr differs ↦ elim (Option-cases (get_zip_root_cached now mv m)) [
    | inl miss ↦ absurd (ground (arith, differs, miss))
    | inr ((h0, m0), hit) ↦
        let (t, entry) = hit-Holds now mv h0 m m0 hit in (t, ground (arith, differs, hit, entry))
  ]
]

-- a hit on any entry keeps the handles
other_hit-Holds :
    {H : Type 0} (now : ℕ) (mv other : ModuleVersion) (h h' : H) (m m' : ZipRootCache H)
    → get_zip_root_cached now other m ≡ some (h', m')
    → Holds mv h m
    → Holds mv h m'
unfolding entry_of get_zip_root_cached
other_hit-Holds now mv other h h' [] m' e holds = absurd (cc)
other_hit-Holds {H} now mv other h h' ((k, ent) ∷ m) m' e (t, entry) =
    elim (Bool-cases (mv_eq k other)) [
      | inl is ↦ elim (Bool-cases (mv_eq k mv)) [
        | inl same ↦ (now, ground (arith, is, same, entry))
        | inr differs ↦ (t, ground (arith, is, differs, entry))
      ]
      | inr not_it ↦ elim (Option-cases (get_zip_root_cached now other m)) [
        | inl miss ↦ absurd (ground (arith, not_it, miss))
        | inr ((h0, m0), hit) ↦ elim (Bool-cases (mv_eq k mv)) [
          | inl same ↦ (t, ground (arith, not_it, hit, same, entry))
          | inr differs ↦
              let (t0, entry0) =
                other_hit-Holds now mv other h h0 m m0 hit (t, rw (differs, entry_of) at entry) in
              (t0, ground (arith, not_it, hit, differs, entry0))
        ]
      ]
    ]

-- a module version that misses is another one
miss-Holds :
    {H : Type 0} (now : ℕ) (mv other : ModuleVersion) (h : H) (ent : ModHandleCacheEntry H)
    (m : ZipRootCache H)
    → get_zip_root_cached now other m ≡ none
    → Holds mv h m
    → Holds mv h ((other, ent) ∷ m)
unfolding entry_of
miss-Holds now mv other h ent m miss holds = elim (Bool-cases (mv_eq other mv)) [
  | inr differs ↦ (holds.0, rw (differs, entry_of) holds.1)
  | inl same ↦
      let (m', hit, touched) = hit_of-Holds now mv h m holds in
      absurd (ground (arith, mv_eq_iff other mv, miss, hit))
]

module _ {W H : Type 0} (esc : Escaper) (conf : Config) (store : StoreOps W H)
    (libs : Libraries W) where
  -- the states after `s0`, by calls of `getZipRoot` of any module versions, and by whatever changes
  -- the world, time included, and the maps of hashes between them
  pub data Later (s0 : Fs W H) : Fs W H → Type 0 where
    now : Later s0 s0
    passed :
        (s : Fs W H)
        → Later s0 s
        → (maps : Option HandleMaps) (w : W) → Later s0 (record s { maps = maps; world = w })
    asked :
        (s : Fs W H)
        → Later s0 s
        → (mv : ModuleVersion) → Later s0 (get_zip_root esc conf store libs mv s).1

  cached-Holds :
      (mv other : ModuleVersion) (h : H) (s : Fs W H) (r : Result H × W)
      → get_zip_root_cached (libs.now s.world) other s.zip_root_cache ≡ none
      → Holds mv h s.zip_root_cache
      → Holds mv h (cache_root esc conf store libs other s r).1.zip_root_cache
  unfolding cache_root
  cached-Holds mv other h s (err e, w) miss holds = holds
  cached-Holds mv other h s (ok a, w) miss holds =
      elim (Option-cases (note_module_version libs.sha256 esc other s.maps)) [
        | inl out ↦ rw (out, cache_root) holds
        | inr (maps, noted) ↦
            rw (noted, cache_root)
              (miss-Holds (libs.now s.world) mv other h (record { h = a; last_used = libs.now w })
                s.zip_root_cache miss holds)
      ]

  asked-Holds :
      (mv other : ModuleVersion) (h : H) (s : Fs W H)
      → Holds mv h s.zip_root_cache
      → Holds mv h (get_zip_root esc conf store libs other s).1.zip_root_cache
  unfolding get_zip_root
  asked-Holds mv other h s holds =
      elim (Option-cases (get_zip_root_cached (libs.now s.world) other s.zip_root_cache)) [
        | inl miss ↦
            rw (miss, get_zip_root)
              (cached-Holds mv other h s (find_root esc conf store libs other s.world) miss holds)
        | inr ((h', m'), hit) ↦
            rw (hit, get_zip_root)
              (other_hit-Holds (libs.now s.world) mv other h h' s.zip_root_cache m' hit holds)
      ]

  Later-Holds :
      (mv : ModuleVersion) (h : H) (s0 s : Fs W H)
      → Holds mv h s0.zip_root_cache
      → Later s0 s
      → Holds mv h s.zip_root_cache
  Later-Holds mv h s0 s holds now = holds
  Later-Holds mv h s0 s holds (passed s1 l maps w) = Later-Holds mv h s0 s1 holds l
  Later-Holds mv h s0 s holds (asked s1 l other) =
      asked-Holds mv other h s1 (Later-Holds mv h s0 s1 holds l)

  new-Holds :
      (mv : ModuleVersion) (h : H) (s s' : Fs W H) (r : Result H × W)
      → cache_root esc conf store libs mv s r ≡ (ok h, s')
      → Holds mv h s'.zip_root_cache
  unfolding cache_root
  new-Holds mv h s s' (err e, w) eq = absurd (cc)
  new-Holds mv h s s' (ok a, w) eq =
      elim (Option-cases (note_module_version libs.sha256 esc mv s.maps)) [
        | inl out ↦ absurd (ground (arith, out))
        | inr (maps, noted) ↦
            let ent : ModHandleCacheEntry H = record { h = a; last_used = libs.now w } in
            (libs.now w, ground (arith, noted, entry-new mv ent s.zip_root_cache))
      ]

  returned-Holds :
      (mv : ModuleVersion) (h : H) (s s' : Fs W H)
      → get_zip_root esc conf store libs mv s ≡ (ok h, s')
      → Holds mv h s'.zip_root_cache
  unfolding get_zip_root
  returned-Holds mv h s s' eq =
      elim (Option-cases (get_zip_root_cached (libs.now s.world) mv s.zip_root_cache)) [
        | inl new ↦
            new-Holds mv h s s' (find_root esc conf store libs mv s.world)
              (rw (new, get_zip_root) at eq)
        | inr ((h0, m0), known) ↦
            let e : ◌≡◌ {A = Result H × Fs W H} (ok h0, record s { zip_root_cache = m0 })
                (ok h, s') =
              rw (known, get_zip_root) at eq in
            let (t, entry) = hit-Holds (libs.now s.world) mv h0 s.zip_root_cache m0 known in
            (t, ground (arith, entry))
      ]

  -- Once `getZipRoot` has returned the root of a module version, it returns the same root again,
  -- after any further calls of it and whatever changed in between behind the cache. That call
  -- changes neither the maps of hashes nor the world of the store and the network, and in its cache
  -- no handle but only times of last use, of which that of the module version is then the present
  -- time.
  pub get_zip_root-again :
      (mv : ModuleVersion) (h : H) (s0 s1 s : Fs W H)
      → get_zip_root esc conf store libs mv s0 ≡ (ok h, s1)
      → Later s1 s
      → (m : ZipRootCache H) × (get_zip_root esc conf store libs mv s
          ≡ (ok h, record s { zip_root_cache = m }))
        × IsTouched (libs.now s.world) mv h s.zip_root_cache m
  unfolding get_zip_root
  get_zip_root-again mv h s0 s1 s eq later =
      let holds = Later-Holds mv h s1 s (returned-Holds mv h s0 s1 eq) later in
      let (m, hit, touched) = hit_of-Holds (libs.now s.world) mv h s.zip_root_cache holds in
      (m, rw (hit, get_zip_root) refl, touched)
