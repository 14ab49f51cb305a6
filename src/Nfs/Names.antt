-- ===== src/Nfs/Names.antt =====
-- What the handles of nfs.go and gomodfs.go mean, and the states that a server comes to.
use gomodfs.Base.{
  ℕ, zero, suc, Bytes, codes, List, [], ◌∷◌, ◌++◌, Option, none, some, true, false, ◌||◌, ◌≡◌, inl,
  inr, refl, sym, arith, beq, beq→eq, Bool-cases, Option-cases, &&-eq-true, Result, ok, err,
}
use gomodfs.Store.{ModuleVersion, is_valid, Escaper}
use gomodfs.Paths.{
  status_file, wk_tsgo_extracted, TsgoTriple, tsgo_zip_root, is_tsgo_module, parse_path, cd_path,
  mod_ver_zip_prefix, join_segs, empty_path_join,
}
use gomodfs.Paths.Memo.{IsMemo}
use gomodfs.Text.{path_dir, dot}
use gomodfs.Modules.Handles.{
  HandleTarget, HandleMaps, hash_mod_version, add_path_hash_target, add_parent_paths,
  add_module_version_paths, rounds,
}
use gomodfs.Nfs.Handles.{
  Handle, zero_half, well_known_hash, zero_handle, status_handle, handle_eq, target_of, Server,
  target_at, version_at, path_target_at, mod_half, file_half,
}
use gomodfs.Nfs.Search.{add_fixed, add_versions, root_target}

pub handle_eq-eq : (a b : Handle) → handle_eq a b ≡ true → a ≡ b
unfolding handle_eq
handle_eq-eq a b h =
    let (p, q) = &&-eq-true (beq a.0 b.0) (beq a.1 b.1) h in
    let same : (x y : Bytes) → x ≡ b.0 → y ≡ b.1 → ◌≡◌ {A = Handle} (x, y) (b.0, b.1) =
      λ x y e f. rw (e, f) refl in
    same a.0 a.1 (beq→eq a.0 b.0 p) (beq→eq a.1 b.1 q)

module _ (sha256 : Bytes → Bytes) (esc : Escaper) where
  -- the target belongs to the handle; a path is parsed as with no pairs seen before
  pub data Names : Handle → HandleTarget → Type 0 where
    -- `ToHandle` computes the handle for the path
    requested :
        (path : List Bytes)
        → (parse_path esc [] (join_segs path)).0.not_exist ≡ false
        → Names
            (
              mod_half sha256 esc (parse_path esc [] (join_segs path)).0,
              file_half sha256 esc (parse_path esc [] (join_segs path)).0 (join_segs path),
            )
            (record { path = join_segs path; segs = path })
    root : Names zero_handle root_target
    status : Names status_handle (target_at status_file)
    outside : (path : Bytes) → Names (zero_half, sha256 path) (target_at path)
    metadata :
        (mv : ModuleVersion) (ext : Bytes)
        → Names
            (hash_mod_version sha256 esc mv, well_known_hash ext)
            (target_at (cd_path esc mv ext))
    extracted :
        (mv : ModuleVersion) (t : TsgoTriple)
        → is_tsgo_module mv ≡ some t
        → Names
            (hash_mod_version sha256 esc mv, well_known_hash wk_tsgo_extracted)
            (target_at (tsgo_zip_root t ++ codes ".extracted"))
    in_zip :
        (mv : ModuleVersion) (prefix path : Bytes)
        → mod_ver_zip_prefix esc mv ≡ some prefix
        → Names
            (hash_mod_version sha256 esc mv, sha256 path)
            (target_at (empty_path_join prefix path))

  -- the maps of hashes hold what they are keyed by
  abbrev pub VersionsAgree : List (Bytes × ModuleVersion) → Type 0
  VersionsAgree [] = Unit
  VersionsAgree ((h, mv) ∷ m) = (h ≡ hash_mod_version sha256 esc mv) × VersionsAgree m

  abbrev pub PathsAgree : List (Bytes × HandleTarget) → Type 0
  PathsAgree [] = Unit
  PathsAgree ((h, t) ∷ m) = ((p : Bytes) × (h ≡ sha256 p) × (t ≡ target_at p)) × PathsAgree m

  abbrev pub MapsAgree : Option HandleMaps → Type 0
  MapsAgree none = Unit
  MapsAgree (some m) = VersionsAgree m.mod_ver_hash × PathsAgree m.path_hash_target

  abbrev pub AllNamed : List (Handle × HandleTarget) → Type 0
  AllNamed [] = Unit
  AllNamed ((h, t) ∷ m) = Names h t × AllNamed m

  pub record IsSound {W : Type 0} (s : Server W) : Type 0 where
    pub named : AllNamed s.handles
    pub agree : MapsAgree s.maps
    pub memo : IsMemo esc s.seen

  abbrev pub Answers : Handle → Result HandleTarget → Type 0
  Answers h (ok t) = Names h t
  Answers h (err e) = Unit

  -- lookups
  pub target_of-Names :
      (m : List (Handle × HandleTarget)) (h : Handle) (t : HandleTarget)
      → AllNamed m
      → target_of m h ≡ some t
      → Names h t
  unfolding target_of handle_eq
  target_of-Names [] h t a e = absurd (cc)
  target_of-Names ((k, u) ∷ m) h t (n, a) e = elim (Bool-cases (handle_eq k h)) [
    | inr differs ↦ target_of-Names m h t a (rw differs at e)
    | inl is ↦ let same : u ≡ t = ground arith in rw (sym (handle_eq-eq k h is), sym same) n
  ]

  pub version_at-hash :
      (m : List (Bytes × ModuleVersion)) (h : Bytes)
      → VersionsAgree m
      → is_valid (version_at m h) ≡ true
      → h ≡ hash_mod_version sha256 esc (version_at m h)
  unfolding version_at
  version_at-hash [] h a v = absurd (cc)
  version_at-hash ((k, mv) ∷ m) h (is, a) v = elim (Bool-cases (beq k h)) [
    | inl e ↦ rw e (ground (arith, beq→eq k h e))
    | inr e ↦ rw e (version_at-hash m h a (rw e at v))
  ]

  pub path_target_at-Names :
      (m : List (Bytes × HandleTarget)) (h : Bytes) (t : HandleTarget)
      → PathsAgree m
      → path_target_at m h ≡ some t
      → Names (zero_half, h) t
  unfolding path_target_at
  path_target_at-Names [] h t a e = absurd (cc)
  path_target_at-Names ((k, u) ∷ m) h t ((p, hk, ht), a) e = elim (Bool-cases (beq k h)) [
    | inr differs ↦ path_target_at-Names m h t a (rw differs at e)
    | inl is ↦
        let same : u ≡ t = ground arith in rw (sym (beq→eq k h is), hk, sym same, ht) (outside p)
  ]

  -- what fills the maps keeps them so
  add_parent_paths-Agree :
      (fuel : ℕ) (p : Bytes) (m m' : HandleMaps)
      → MapsAgree (some m)
      → add_parent_paths sha256 esc fuel p m ≡ some m'
      → MapsAgree (some m')
  unfolding add_parent_paths
  add_parent_paths-Agree zero p m m' a e = absurd (cc)
  add_parent_paths-Agree (suc fuel) p m m' (v, q) e =
      elim (Bool-cases (
        beq (path_dir p) (dot ∷ [])
        || (beq (path_dir p) (codes "cache") || beq (path_dir p) (codes "cache/download")))) [
          | inl stop ↦ let same : m ≡ m' = ground (arith, e) in rw (sym same) (v, q)
          | inr more ↦
              add_parent_paths-Agree fuel (path_dir p)
                (add_path_hash_target sha256 esc (path_dir p) m) m'
                (v, ((path_dir p, refl, refl), q)) (rw more at e)
        ]

  add_module_version_paths-Agree :
      (mv : ModuleVersion) (m m' : HandleMaps)
      → MapsAgree (some m)
      → add_module_version_paths sha256 esc mv m ≡ some m'
      → MapsAgree (some m')
  unfolding add_module_version_paths
  add_module_version_paths-Agree mv m m' a e =
      let p = cd_path esc mv (codes "foo") in
      elim (Option-cases (add_parent_paths sha256 esc (rounds sha256 esc p) p m)) [
        | inl n ↦ absurd (ground (arith, n))
        | inr (m1, h1) ↦
            let a1 = add_parent_paths-Agree (rounds sha256 esc p) p m m1 a h1 in
            elim (Option-cases (mod_ver_zip_prefix esc mv)) [
              | inl n ↦ (let same : m1 ≡ m' = ground (arith, h1, n) in rw (sym same) a1)
              | inr (q, h2) ↦
                  add_parent_paths-Agree (rounds sha256 esc q) q m1 m' a1
                    (rw (add_module_version_paths, h1, h2) at e)
            ]
      ]

  pub add_versions-Agree :
      (mvs : List ModuleVersion) (m m' : HandleMaps)
      → MapsAgree (some m)
      → add_versions sha256 esc mvs m ≡ some m'
      → MapsAgree (some m')
  unfolding add_versions
  add_versions-Agree [] m m' a e = let same : m ≡ m' = ground (arith, e) in rw (sym same) a
  add_versions-Agree (mv ∷ mvs) m m' (v, q) e =
      let m1 = record m { mod_ver_hash = (hash_mod_version sha256 esc mv, mv) ∷ m.mod_ver_hash } in
      elim (Option-cases (add_module_version_paths sha256 esc mv m1)) [
        | inl n ↦ absurd (ground (arith, n))
        | inr (m2, h) ↦
            let a2 = add_module_version_paths-Agree mv m1 m2 ((refl, v), q) h in
            add_versions-Agree mvs m2 m' a2 (rw (add_versions, h) at e)
      ]

  pub add_fixed-Agree :
      (ps : List Bytes) (m : HandleMaps)
      → MapsAgree (some m)
      → MapsAgree (some (add_fixed sha256 esc ps m))
  add_fixed-Agree [] m a = a
  add_fixed-Agree (p ∷ ps) m (v, q) =
      add_fixed-Agree ps (add_path_hash_target sha256 esc p m) (v, ((p, refl, refl), q))
