-- ===== src/Nfs/Search.antt =====
-- nfs.go and gomodfs.go: `fromHandle`, which finds the path of a handle that the server gave in an
-- earlier run, and `FromHandle`. Fuel bounds the depth and the length of the walk over a module's
-- files.
use gomodfs.Base.{
  ℕ, zero, suc, Bytes, codes, List, [], ◌∷◌, ◌++◌, Option, none, some, not, ◌==◌, if◌then◌else◌,
  beq, length, take, drop, is_empty, Error, Result, ok, err, Cmd, other, stale, out_of_fuel,
  panicked,
}
use gomodfs.Store.{ModuleVersion, is_valid, is_dir, Dirent, Escaper}
use gomodfs.Paths.{
  status_file, wk_tsgo_extracted, tsgo_zip_root, is_tsgo_module, cd_path, mod_ver_zip_prefix,
  empty_path_join,
}
use gomodfs.Modules.Handles.{
  HandleTarget, HandleMaps, hash_mod_version, add_path_hash_target, add_module_version_paths,
}
use gomodfs.Nfs.Handles.{
  Handle, zero_half, well_known_hash, zero_handle, status_handle, handle_eq, target_of, Listings,
  Server, target_at, version_at, path_target_at, Walk, found, going, stopped, spent, sub_path,
}

-- the paths that every server has, and the directories of the Tailscale Go toolchains
abbrev pub fixed_paths : List Bytes
fixed_paths =
    codes "cache"
    ∷ codes "cache/download"
    ∷ status_file
    ∷ codes "tsgo-linux-amd64"
    ∷ codes "tsgo-linux-arm64"
    ∷ codes "tsgo-darwin-amd64"
    ∷ codes "tsgo-darwin-arm64"
    ∷ codes "tsgo-windows-amd64"
    ∷ codes "tsgo-windows-arm64"
    ∷ []

abbrev pub root_target : HandleTarget
root_target = record { path = []; segs = [] }

abbrev pub no_maps : HandleMaps
no_maps = record { mod_ver_hash = []; path_hash_target = [] }

-- the deferred function of `fromHandle`
abbrev pub remembered :
    {W : Type 0} → Handle → Result HandleTarget × Server W → Result HandleTarget × Server W
remembered h (err e, s) = (err e, s)
remembered h (ok t, s) =
    if is_empty t.path then (err panicked, s) else (ok t, record s { handles = (h, t) ∷ s.handles })

abbrev pub not_exist_handle : Bytes
not_exist_handle = 0 ∷ 255 ∷ 0 ∷ codes "Nope"

abbrev pub segs_of : {W : Type 0} → Result HandleTarget × Server W → Result (List Bytes) × Server W
segs_of (ok t, s) = (ok t.segs, s)
segs_of (err e, s) = (err e, s)

module _ (sha256 : Bytes → Bytes) (esc : Escaper) where
  abbrev pub add_fixed : List Bytes → HandleMaps → HandleMaps
  add_fixed [] m = m
  add_fixed (p ∷ ps) m = add_fixed ps (add_path_hash_target sha256 esc p m)

  -- the loop of `initHandleMapsLocked` over the module versions
  unfoldable pub add_versions : List ModuleVersion → HandleMaps → Option HandleMaps
  unfolding add_module_version_paths
  add_versions [] m = some m
  add_versions (mv ∷ mvs) m =
      let m1 = record m { mod_ver_hash = (hash_mod_version sha256 esc mv, mv) ∷ m.mod_ver_hash } in
      elim (add_module_version_paths sha256 esc mv m1) [
        | none ↦ none
        | some m2 ↦ add_versions mvs m2
      ]

  -- the `switch` of `fromHandle` on the hash of the file
  unfoldable pub well_known_target : ModuleVersion → Bytes → Option HandleTarget
  unfolding beq well_known_hash cd_path is_tsgo_module tsgo_zip_root
  well_known_target mv want =
      if beq want (well_known_hash (codes "info"))
      then some (target_at (cd_path esc mv (codes "info")))
      else if beq want (well_known_hash (codes "mod"))
      then some (target_at (cd_path esc mv (codes "mod")))
      else if beq want (well_known_hash (codes "ziphash"))
      then some (target_at (cd_path esc mv (codes "ziphash")))
      else if beq want (well_known_hash wk_tsgo_extracted)
      then elim (is_tsgo_module mv) [
        | none ↦ none
        | some trip ↦ some (target_at (tsgo_zip_root trip ++ codes ".extracted"))
      ]
      else none

module _ {W : Type 0} where
  -- `doDir` goes on with the entries of a directory that can be read, and its loop where the
  -- function that it calls lets it
  abbrev pub listed : (List Dirent → W → Walk × W) → Result (List Dirent) × W → Walk × W
  listed entries (err e, w) = (stopped, w)
  listed entries (ok ents, w) = entries ents w

  abbrev pub going_on : (W → Walk × W) → Walk × W → Walk × W
  going_on rest (going, w) = rest w
  going_on rest (found p, w) = (found p, w)
  going_on rest (stopped, w) = (stopped, w)
  going_on rest (spent, w) = (spent, w)

  -- the maps, or the error, of `initHandleMapsLocked` and what is looked up in them
  unfoldable pub path_answer : Bytes → Result HandleMaps × Server W → Result HandleTarget × Server W
  path_answer ph (err e, s) = (err e, s)
  path_answer ph (ok m, s) = elim (path_target_at m.path_hash_target ph) [
    | none ↦ (err (stale other), s)
    | some t ↦ (ok t, s)
  ]

  unfoldable pub version_answer :
      Bytes → Result HandleMaps × Server W → Result ModuleVersion × Server W
  version_answer h (err e, s) = (err e, s)
  version_answer h (ok m, s) = (ok (version_at m.mod_ver_hash h), s)

  -- what `fromHandle` makes of the walk over the files of a module
  unfoldable pub walk_answer :
      Escaper → ModuleVersion → Server W → Walk × W → Result HandleTarget × Server W
  unfolding mod_ver_zip_prefix empty_path_join
  walk_answer esc mv s (found path, w) = elim (mod_ver_zip_prefix esc mv) [
    | none ↦ (err (stale other), record s { world = w })
    | some prefix ↦ (ok (target_at (empty_path_join prefix path)), record s { world = w })
  ]
  walk_answer esc mv s (going, w) = (err (stale other), record s { world = w })
  walk_answer esc mv s (stopped, w) = (err (stale other), record s { world = w })
  walk_answer esc mv s (spent, w) = (err out_of_fuel, record s { world = w })

module _ {W : Type 0} (sha256 : Bytes → Bytes) (esc : Escaper) where
  -- `initHandleMapsLocked` behind the list of the module versions
  unfoldable pub filled : List ModuleVersion → Server W → Result HandleMaps × Server W
  unfolding add_versions
  filled mvs s = elim (add_versions sha256 esc mvs no_maps) [
    | none ↦ (err out_of_fuel, s)
    | some m ↦ let m' = add_fixed sha256 esc fixed_paths m in (ok m', record s { maps = some m' })
  ]

  abbrev pub with_versions :
      Server W → Result (List ModuleVersion) × W → Result HandleMaps × Server W
  with_versions s (err e, w) = (err (Error.wrap e), record s { world = w })
  with_versions s (ok mvs, w) = filled mvs (record s { world = w })

module _ {W H : Type 0} (sha256 : Bytes → Bytes) (esc : Escaper) (store : Listings W H) where
  -- `initHandleMapsLocked`, which returns the maps as well
  unfoldable pub init_from : Option HandleMaps → Cmd (Server W) HandleMaps
  unfolding filled
  init_from (some m) s = (ok m, s)
  init_from none s = with_versions sha256 esc s (store.cached_modules s.world)

  abbrev pub init_handle_maps : Cmd (Server W) HandleMaps
  init_handle_maps s = init_from s.maps s

  -- `handleTargetWithPathHash`
  unfoldable pub handle_target_with_path_hash : Bytes → Cmd (Server W) HandleTarget
  unfolding init_from path_target_at
  handle_target_with_path_hash ph s = path_answer ph (init_handle_maps s)

  -- `moduleVersionWithHash`
  unfoldable pub module_version_with_hash : Bytes → Cmd (Server W) ModuleVersion
  unfolding init_from version_at
  module_version_with_hash h s = version_answer h (init_handle_maps s)

  -- `walkStoreModulePaths` with the loop of `fromHandle` as the function that it calls: the
  -- directory `path`, and the entries of one
  unfoldable mutual
    unfolding beq

    pub do_dir : ℕ → H → Bytes → Bytes → W → Walk × W
    do_dir zero mh want path w = (spent, w)
    do_dir (suc fuel) mh want path w =
        let rest = listed (do_entries fuel mh want path) (store.readdir mh path w) in
        if beq (sha256 path) want then (found path, w) else rest

    pub do_entries : ℕ → H → Bytes → Bytes → List Dirent → W → Walk × W
    do_entries zero mh want path ents w = (spent, w)
    do_entries (suc fuel) mh want path [] w = (going, w)
    do_entries (suc fuel) mh want path (ent ∷ ents) w =
        let sub = sub_path path ent.name in
        let in_dir = do_dir fuel mh want sub w in
        let at_file = if beq (sha256 sub) want then (found sub, w) else (going, w) in
        going_on (do_entries fuel mh want path ents) (if is_dir ent.mode then in_dir else at_file)

  -- the rest of `fromHandle` behind the `switch`: files of the module's zip
  unfoldable pub in_root :
      ℕ → ModuleVersion → Bytes → Server W → Result H × W → Result HandleTarget × Server W
  unfolding do_dir walk_answer
  in_root fuel mv want s (err e, w) = (err other, record s { world = w })
  in_root fuel mv want s (ok mh, w) = walk_answer esc mv s (do_dir fuel mh want [] w)

  -- `fromHandle` behind the lookup of the module version
  unfoldable pub in_version :
      ℕ → Bytes → Result ModuleVersion × Server W → Result HandleTarget × Server W
  unfolding well_known_target in_root
  in_version fuel want (err e, s) = (err e, s)
  in_version fuel want (ok mv, s) =
      if not (is_valid mv)
      then (err (stale other), s)
      else elim (well_known_target sha256 esc mv want) [
        | some t ↦ (ok t, s)
        | none ↦ in_root fuel mv want s (store.get_zip_root mv s.world)
      ]

  -- `fromHandle` behind the lookup in the map `handle`
  unfoldable pub search : ℕ → Handle → Cmd (Server W) HandleTarget
  unfolding beq handle_target_with_path_hash module_version_with_hash in_version
  search fuel h s =
      if beq h.0 zero_half
      then handle_target_with_path_hash h.1 s
      else in_version fuel h.1 (module_version_with_hash h.0 s)

  -- `fromHandle`
  unfoldable pub from_handle : ℕ → Handle → Cmd (Server W) HandleTarget
  unfolding handle_eq target_of search
  from_handle fuel h s =
      if handle_eq h zero_handle
      then (ok root_target, s)
      else if handle_eq h status_handle
      then (ok (target_at status_file), s)
      else elim (target_of s.handles h) [
        | some t ↦ (ok t, s)
        | none ↦ remembered h (search fuel h s)
      ]

  -- `FromHandle`
  unfoldable pub from_handle_bytes : ℕ → Bytes → Cmd (Server W) (List Bytes)
  unfolding from_handle beq
  from_handle_bytes fuel b s =
      if beq b not_exist_handle
      then (ok (codes ".not-exist-path" ∷ []), s)
      else if not (length b == 64)
      then (err other, s)
      else segs_of (from_handle fuel (take 32 b, drop 32 b) s)
