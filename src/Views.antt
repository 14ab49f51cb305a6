-- ===== src/Views.antt =====
-- The files as the front ends show them: Lstat, ReadDir and getFileContentsUncached of nfs.go, and
-- the file information of webdav.go. Module roots, metadata files, the store and the status page
-- are parameters; spans, times and file ids are left out.
pub mod WebDav
pub mod Sizes
pub mod Same
mod Tests
use gomodfs.Base.{
  ℕ, Bytes, codes, List, [], ◌∷◌, ◌++◌, Option, none, some, Bool, true, false, not, ◌==◌,
  if◌then◌else◌, beq, length, is_empty, map, Error, Result, ok, err, Cmd, pure, fail, ◌>>=◌,
  attempt, is_not_exist, not_exist, eio, other,
}
use gomodfs.Store.{ModuleVersion, FileMode, dir, perm, Dirent, Escaper}
use gomodfs.Text.{path_base}
use gomodfs.Paths.{
  GmPath, Seen, status_file, wk_tsgo_extracted, tsgo_extracted_file_contents, is_tsgo_module,
  parse_path,
}

-- an `os.FileInfo`: of a regular file, with its name, size and permission bits, and of a directory
pub data FileInfo : Type 0 where
  reg_info : Bytes → ℕ → ℕ → FileInfo
  dir_info : Bytes → FileInfo

abbrev pub is_dir_info : FileInfo → Bool
is_dir_info (reg_info name size mode) = false
is_dir_info (dir_info name) = true

-- `regFileInfo`, whose mode is 0444 if it is not set, and the permission bits of `Mode`
unfoldable pub reg_file_info : Bytes → ℕ → ℕ → FileInfo
reg_file_info name size mode = reg_info name size (if mode == 0 then 292 else mode)

abbrev pub mode_of : FileInfo → ℕ
mode_of (reg_info name size mode) = mode
mode_of (dir_info name) = 365

-- what the front ends call: `getZipRoot`, `getMetaFileByExt`, the store, and the status page
pub record Source (W H : Type 0) : Type 0 where
  pub zip_root : ModuleVersion → Cmd W H
  pub meta_file : ModuleVersion → Bytes → Cmd W Bytes
  pub stat : H → Bytes → Cmd W FileInfo
  pub readdir : H → Bytes → Cmd W (List Dirent)
  pub get_file : H → Bytes → Cmd W Bytes
  pub status_json : Cmd W Bytes

-- the table of seen pairs, and the state behind the source
pub record View (W : Type 0) : Type 0 where
  pub seen : Seen
  pub world : W

abbrev pub at_world : {W A : Type 0} → View W → Result A × W → Result A × View W
at_world s (r, w) = (r, record s { world = w })

-- an operation of the source
abbrev pub lifted : {W A : Type 0} → Cmd W A → Cmd (View W) A
lifted m s = at_world s (m s.world)

abbrev pub open_set_file : FileInfo
open_set_file = reg_file_info (codes ".vfs-openset-dir") 0 292

-- the contents of the file next to the root of a toolchain; the zero value for another module
-- version
abbrev pub extracted_contents : ModuleVersion → Bytes
extracted_contents mv = elim (is_tsgo_module mv) [
  | none ↦ tsgo_extracted_file_contents []
  | some trip ↦ tsgo_extracted_file_contents trip.hash
]

abbrev pub entry_info : Dirent → FileInfo
entry_info ent = elim ent.mode [
  | dir ↦ dir_info ent.name
  | perm p ↦ reg_file_info ent.name ent.size p
]

-- the entries of `ReadDir`, which is an empty list when the store has an error
abbrev pub listed_infos : {S : Type 0} → Result (List Dirent) × S → Result (List FileInfo) × S
listed_infos (ok ents, s) = (ok (map entry_info ents), s)
listed_infos (err e, s) = (ok [], s)

module _ {W H : Type 0} (esc : Escaper) (src : Source W H) where
  -- `statusFile`, with the file information and the contents
  abbrev pub status_meta : Cmd (View W) (FileInfo × Bytes)
  status_meta = do
    json ← lifted src.status_json
    pure (reg_file_info status_file (length json) 292, json)

  -- a file in the zip, whose error tells whether it is missing
  abbrev pub missing_or : {A S : Type 0} → Result A × S → Result A × S
  missing_or (ok a, s) = (ok a, s)
  missing_or (err e, s) = (if is_not_exist e then err not_exist else err e, s)

  abbrev pub or_eio : {A S : Type 0} → Result A × S → Result A × S
  or_eio (ok a, s) = (ok a, s)
  or_eio (err e, s) = (err eio, s)

  -- a metadata file, and a path in a zip
  unfoldable pub stat_meta : Bytes → GmPath → Cmd (View W) FileInfo
  unfolding path_base reg_file_info
  stat_meta name mp = do
    v ← λ s. or_eio (lifted (src.meta_file mp.mod_version mp.cache_download_file_ext) s)
    pure (reg_file_info (path_base name) (length v) 0)

  unfoldable pub stat_in : GmPath → Cmd (View W) FileInfo
  unfolding is_not_exist
  stat_in mp = do
    mh ← lifted (src.zip_root mp.mod_version)
    λ s. missing_or (lifted (src.stat mh mp.path) s)

  -- `Lstat` of a path that was parsed
  unfoldable pub lstat_parsed : Bytes → GmPath → Cmd (View W) FileInfo
  unfolding beq path_base is_not_exist reg_file_info
  lstat_parsed name mp s =
      if mp.not_exist
      then (err not_exist, s)
      else if beq mp.well_known status_file
      then (do m ← status_meta; pure m.0) s
      else if beq mp.well_known wk_tsgo_extracted
      then (ok (reg_file_info (path_base name) (length (extracted_contents mp.mod_version)) 292), s)
      else if not (is_empty mp.well_known)
      then (err not_exist, s)
      else if not (is_empty mp.cache_download_file_ext)
      then stat_meta name mp s
      else if not mp.in_zip
      then (ok (dir_info []), s)
      else stat_in mp s

  -- `Lstat`
  unfoldable pub lstat : Bytes → Cmd (View W) FileInfo
  unfolding parse_path lstat_parsed
  lstat name s =
      let (mp, seen) = parse_path esc s.seen name in lstat_parsed name mp (record s { seen = seen })

  -- `ReadDir` of a path that was parsed
  unfoldable pub read_dir_parsed : GmPath → Cmd (View W) (List FileInfo)
  read_dir_parsed mp s =
      if mp.not_exist
      then (err not_exist, s)
      else if not mp.in_zip
      then (ok (open_set_file ∷ []), s)
      else (do
        mh ← lifted (src.zip_root mp.mod_version)
        λ t. listed_infos (lifted (src.readdir mh mp.path) t))
          s

  -- `ReadDir`
  unfoldable pub read_dir : Bytes → Cmd (View W) (List FileInfo)
  unfolding beq parse_path read_dir_parsed
  read_dir path s =
      let (mp, seen) = parse_path esc s.seen path in
      if beq path []
      then (do m ← status_meta; pure (m.0 ∷ dir_info (codes "cache") ∷ open_set_file ∷ [])) s
      else if beq path (codes "cache")
      then (ok (dir_info (codes "download") ∷ open_set_file ∷ []), s)
      else read_dir_parsed mp (record s { seen = seen })

  -- a file of a zip with its mode
  abbrev pub file_at : H → Bytes → FileInfo → Cmd (View W) (Bytes × ℕ)
  file_at mh path (dir_info name) s = (err other, s)
  file_at mh path (reg_info name size mode) s =
      (do contents ← lifted (src.get_file mh path); pure (contents, mode)) s

  unfoldable pub zip_file : H → Bytes → Cmd (View W) (Bytes × ℕ)
  zip_file mh path = do fi ← lifted (src.stat mh path); file_at mh path fi

  unfoldable pub read_meta : GmPath → Cmd (View W) (Bytes × ℕ)
  read_meta mp = do
    v ← lifted (src.meta_file mp.mod_version mp.cache_download_file_ext)
    pure (v, 292)

  unfoldable pub read_in : GmPath → Cmd (View W) (Bytes × ℕ)
  unfolding zip_file
  read_in mp = do mh ← lifted (src.zip_root mp.mod_version); zip_file mh mp.path

  -- `getFileContentsUncached` of a path that was parsed: the contents and the mode
  unfoldable pub contents_parsed : GmPath → Cmd (View W) (Bytes × ℕ)
  unfolding beq zip_file
  contents_parsed mp s =
      if mp.not_exist
      then (err not_exist, s)
      else if beq mp.well_known wk_tsgo_extracted
      then (ok (extracted_contents mp.mod_version, 292), s)
      else if beq mp.well_known status_file
      then (do m ← status_meta; pure (m.1, 292)) s
      else if not (is_empty mp.well_known)
      then (err not_exist, s)
      else if not (is_empty mp.cache_download_file_ext)
      then read_meta mp s
      else if not mp.in_zip
      then (err other, s)
      else read_in mp s

  -- `getFileContentsUncached`
  unfoldable pub get_file_contents_uncached : Bytes → Cmd (View W) (Bytes × ℕ)
  unfolding parse_path contents_parsed
  get_file_contents_uncached name s =
      let (mp, seen) = parse_path esc s.seen name in contents_parsed mp (record s { seen = seen })
