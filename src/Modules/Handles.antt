-- ===== src/Modules/Handles.antt =====
-- The maps of gomodfs.go from hashes to module versions and paths, and its cache of module handles.
use gomodfs.Base.{
  ℕ, zero, suc, Bytes, codes, List, [], ◌∷◌, ◌++◌, Option, none, some, ◌||◌, if◌then◌else◌, beq,
  length,
}
use gomodfs.Store.{ModuleVersion, mv_eq, Escaper}
use gomodfs.Text.{path_dir, dot}
use gomodfs.Paths.{cd_path, mod_ver_zip_prefix, split_segs}

-- `handleTarget`
pub record HandleTarget : Type 0 where
  pub path : Bytes
  pub segs : List Bytes

-- `modVerHash` and `pathHashTarget`, once they are not nil
pub record HandleMaps : Type 0 where
  pub mod_ver_hash : List (Bytes × ModuleVersion)
  pub path_hash_target : List (Bytes × HandleTarget)

-- `modHandleCacheEntry`; the time is in Unix seconds
pub record ModHandleCacheEntry (H : Type 0) : Type 0 where
  pub h : H
  pub last_used : ℕ

-- `zipRootCache`; the latest entry of a key comes first
abbrev pub ZipRootCache : Type 0 → Type 0
ZipRootCache H = List (ModuleVersion × ModHandleCacheEntry H)

-- `FS`: its maps, `zipRootCache`, and the world behind it
pub record Fs (W H : Type 0) : Type 0 where
  pub maps : Option HandleMaps
  pub zip_root_cache : ZipRootCache H
  pub world : W

-- `getZipRootCached` at the time `now`: the handle, and the cache with its entry used now
unfoldable pub get_zip_root_cached :
    {H : Type 0} → ℕ → ModuleVersion → ZipRootCache H → Option (H × ZipRootCache H)
unfolding mv_eq
get_zip_root_cached now mv [] = none
get_zip_root_cached now mv ((k, ent) ∷ m) =
    let rest = get_zip_root_cached now mv m in
    if mv_eq k mv
    then some (ent.h, (k, record ent { last_used = now }) ∷ m)
    else elim rest [ none ↦ none | some (h, m') ↦ some (h, (k, ent) ∷ m') ]

module _ (sha256 : Bytes → Bytes) (esc : Escaper) where
  -- `hashModVersion`
  abbrev pub hash_mod_version : ModuleVersion → Bytes
  hash_mod_version mv = sha256 (mv.module_path ++ (0 ∷ mv.version))

  -- `addPathHashTargetLocked`; the latest entry of a key comes first
  abbrev pub add_path_hash_target : Bytes → HandleMaps → HandleMaps
  add_path_hash_target path m = record m {
    path_hash_target =
        (sha256 path, record { path = path; segs = split_segs path }) ∷ m.path_hash_target;
  }

  -- `addParentPathsLocked`, on fuel; `none` when the fuel runs out
  unfoldable pub add_parent_paths : ℕ → Bytes → HandleMaps → Option HandleMaps
  unfolding path_dir beq split_segs
  add_parent_paths zero s m = none
  add_parent_paths (suc fuel) s m =
      let d = path_dir s in
      let rest = add_parent_paths fuel d (add_path_hash_target d m) in
      if beq d (dot ∷ []) || (beq d (codes "cache") || beq d (codes "cache/download"))
      then some m
      else rest

  -- enough rounds for a path: each takes an element off it
  abbrev pub rounds : Bytes → ℕ
  rounds s = suc (suc (length s))

  -- `addModuleVersionPathsLocked`
  unfoldable pub add_module_version_paths : ModuleVersion → HandleMaps → Option HandleMaps
  unfolding add_parent_paths cd_path mod_ver_zip_prefix
  add_module_version_paths mv m =
      let p = cd_path esc mv (codes "foo") in
      elim (add_parent_paths (rounds p) p m) [
        | none ↦ none
        | some m' ↦ elim (mod_ver_zip_prefix esc mv) [
          | none ↦ some m'
          | some q ↦ add_parent_paths (rounds q) q m'
        ]
      ]

  -- the maps with a module version added to them, when they are initialized
  unfoldable pub note_module_version :
      ModuleVersion → Option HandleMaps → Option (Option HandleMaps)
  unfolding add_module_version_paths
  note_module_version mv none = some none
  note_module_version mv (some m) =
      let m' = record m { mod_ver_hash = (hash_mod_version mv, mv) ∷ m.mod_ver_hash } in
      elim (add_module_version_paths mv m') [ none ↦ none | some m'' ↦ some (some m'') ]
