-- ===== src/Git/Reads.antt =====
-- The store's methods of store/gitstore/gitstore.go over a repository: what `git cat-file --batch`,
-- hash-object, update-ref and ls-tree answer is a parameter, and so is the hex form of a reference.
use gomodfs.Base.{
  ℕ, Bytes, codes, List, [], ◌∷◌, ◌++◌, Option, none, some, Bool, true, false, if◌then◌else◌, beq,
  Error, Result, ok, err, Cmd, pure, fail, and_then, ◌>>=◌, is_missing, cache_miss, is_dir,
  not_exist, other,
}
use gomodfs.Store.{ModuleVersion, Escaper}
use gomodfs.Text.{path_base}
use gomodfs.Git.{blob, tree, Object, ObjRef}
use gomodfs.Git.Refs.{PathEscaper, ref_name, mod_ref_name, info_ref_name}
use gomodfs.Git.Listing.{ModHandle, GitDirent, Mode, directory, Parsers, new_mod_handle}

-- what git answers, over the state `W` of the repository
pub record Repo (W : Type 0) : Type 0 where
  pub cat_file : Bytes → Cmd W Object
  pub ls_tree : Bytes → Cmd W Bytes
  pub hash_object : Bytes → Cmd W Bytes
  pub update_ref : Bytes → Bytes → Cmd W (Unit {0})
  pub hex : ObjRef → Bytes

-- `dirFileInfo` and `regFileInfo`
pub record GitFileInfo : Type 0 where
  pub base_name : Bytes
  pub mode : Mode
  pub size : ℕ

unfoldable pub lookup : {A : Type 0} → Bytes → List (Bytes × A) → Option A
unfolding beq
lookup k [] = none
lookup k ((j, a) ∷ m) = if beq j k then some a else lookup k m

-- `Stat`
unfoldable pub stat : ModHandle → Bytes → Result GitFileInfo
unfolding lookup path_base
stat mh mod_path = elim (lookup mod_path mh.dir_ents) [
  | some ents ↦ ok (record { base_name = path_base mod_path; mode = (directory, 493); size = 0 })
  | none ↦ elim (lookup mod_path mh.blob_meta) [
    | some meta ↦ ok (record { base_name = path_base mod_path; mode = meta.mode; size = meta.size })
    | none ↦ err not_exist
  ]
]

-- `Readdir`, which gives no entries for a path that it does not know
unfoldable pub readdir : ModHandle → Bytes → List GitDirent
unfolding lookup
readdir mh path = elim (lookup path mh.dir_ents) [ none ↦ [] | some ents ↦ ents ]

abbrev pub is_blob : Object → Bool
is_blob obj = elim obj.typ [ blob ↦ true | tree ↦ false ]

module _ {W : Type 0} (esc : Escaper) (url : PathEscaper) (parsers : Parsers) (repo : Repo W) where
  -- `getObject` with the type "blob", and with the type "tree"
  unfoldable pub get_blob : Bytes → Cmd W Bytes
  get_blob rev = do obj ← repo.cat_file rev; if is_blob obj then pure obj.content else fail other

  unfoldable pub get_tree : Bytes → Cmd W ObjRef
  get_tree rev = do obj ← repo.cat_file rev; if is_blob obj then fail other else pure obj.hash

  abbrev pub lift : Option Bytes → Cmd W Bytes
  lift none w = (err other, w)
  lift (some r) w = (ok r, w)

  -- a missing object is reported as the error `e`
  abbrev pub missing_as : {A : Type 0} → Error → Result A × W → Result A × W
  missing_as e (ok a, w) = (ok a, w)
  missing_as e (err d, w) = (if is_missing d then err e else err d, w)

  -- `fmt.Errorf("… %w", err)` on an error that is not about a missing object, and on any error
  abbrev pub missing_or_wrapped : {A : Type 0} → Error → Result A × W → Result A × W
  missing_or_wrapped e (ok a, w) = (ok a, w)
  missing_or_wrapped e (err d, w) = (if is_missing d then err e else err (Error.wrap d), w)

  abbrev pub wrapped : {A : Type 0} → Result A × W → Result A × W
  wrapped (ok a, w) = (ok a, w)
  wrapped (err d, w) = (err (Error.wrap d), w)

  unfoldable pub or_else : Cmd W Bytes → Result Bytes × W → Result Bytes × W
  or_else m (ok a, w) = (ok a, w)
  or_else m (err e, w) = m w

  -- `GetFile`
  unfoldable pub get_file : ModHandle → Bytes → Cmd W Bytes
  unfolding lookup is_missing
  get_file mh path w = elim (lookup path mh.dir_ents) [
    | some ents ↦ (err is_dir, w)
    | none ↦
        and_then
          (missing_as not_exist (repo.cat_file (repo.hex mh.mod_tree ++ (codes ":zip/" ++ path)) w))
          (λ obj. if is_blob obj then pure obj.content else fail is_dir)
  ]

  unfoldable pub info_file_alone : ModuleVersion → Cmd W Bytes
  unfolding info_ref_name get_blob is_missing
  info_file_alone mv = do
    ref ← lift (info_ref_name esc url mv)
    λ w. missing_as cache_miss (get_blob ref w)

  -- `GetInfoFile`: from the module's tree, or from the ref of the info file alone
  unfoldable pub get_info_file : ModuleVersion → Cmd W Bytes
  unfolding ref_name get_blob or_else info_file_alone
  get_info_file mv = do
    ref ← lift (ref_name esc url mv)
    λ w. or_else (info_file_alone mv) (get_blob (ref ++ codes ":info") w)

  -- `GetModFile`
  unfoldable pub get_mod_file : ModuleVersion → Cmd W Bytes
  unfolding mod_ref_name get_blob is_missing
  get_mod_file mv = do
    ref ← lift (mod_ref_name esc url mv)
    λ w. missing_as cache_miss (get_blob ref w)

  -- `PutModFile` and `PutInfoFile`, which differ in the ref; git prints the hash with a line end
  unfoldable pub put_blob : Option Bytes → (trim_space : Bytes → Bytes) → Bytes → Cmd W (Unit {0})
  put_blob ref_or_err trim_space contents = do
    ref ← lift ref_or_err
    out ← λ w. wrapped (repo.hash_object contents w)
    λ w. wrapped (repo.update_ref ref (trim_space out) w)

  -- `GetZipRoot`
  unfoldable pub get_zip_root : ModuleVersion → Cmd W ModHandle
  unfolding ref_name get_tree new_mod_handle is_missing
  get_zip_root mv = do
    ref ← lift (ref_name esc url mv)
    hash ← λ w. missing_or_wrapped cache_miss (get_tree (ref ++ codes "^{tree}") w)
    out ← λ w. wrapped (repo.ls_tree (repo.hex hash ++ codes ":zip") w)
    λ w. (new_mod_handle parsers hash out, w)

  -- `GetZipHash`
  unfoldable pub get_zip_hash : ModHandle → Cmd W Bytes
  unfolding get_blob
  get_zip_hash mh = get_blob (repo.hex mh.mod_tree ++ codes ":ziphash")
