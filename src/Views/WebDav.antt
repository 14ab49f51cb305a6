-- ===== src/Views/WebDav.antt =====
-- webdav.go: Stat and OpenFile of webdavFS, which has the same files as the front end for NFS. A
-- file that is open is its contents or its entries; spans and logs are left out.
use gomodfs.Base.{
  Bytes, List, [], Option, none, some, Bool, true, false, not, if◌then◌else◌, beq, length, is_empty,
  map, Error, Result, ok, err, Cmd, pure, ◌>>=◌, not_exist, permission, wrap, join, stale, no_ent,
  is_dir, ◌||◌,
}
use gomodfs.Store.{Dirent, Escaper}
use gomodfs.Text.{path_base}
use gomodfs.Paths.{GmPath, status_file, wk_tsgo_extracted, parse_path}
use gomodfs.Views.{
  FileInfo, dir_info, reg_file_info, Source, View, lifted, extracted_contents, entry_info, or_eio,
  stat_in,
}

-- `errors.Is(err, store.ErrIsDir)`
unfoldable pub is_is_dir : Error → Bool
is_is_dir is_dir = true
is_is_dir (wrap e) = is_is_dir e
is_is_dir (stale e) = is_is_dir e
is_is_dir (no_ent e) = is_is_dir e
is_is_dir (join d e) = is_is_dir d || is_is_dir e
is_is_dir e = false

-- `wdRegularFile`, `wdDir` and `emptyDir`
pub data DavFile : Type 0 where
  regular : Bytes → Bytes → DavFile
  directory : Bytes → List Dirent → DavFile
  empty_dir : Bytes → DavFile

-- the method `Stat` of an open file
unfoldable pub file_stat : DavFile → FileInfo
unfolding reg_file_info
file_stat (regular path contents) = reg_file_info path (length contents) 0
file_stat (directory base ents) = dir_info base
file_stat (empty_dir base) = dir_info base

-- the method `Readdir` of an open directory; `none` is `os.ErrInvalid`
unfoldable pub file_readdir : DavFile → Option (List FileInfo)
file_readdir (regular path contents) = none
file_readdir (directory base ents) = some (map entry_info ents)
file_readdir (empty_dir base) = some []

-- the directory with the entries that the store lists
abbrev pub dir_of : {S : Type 0} → Bytes → Result (List Dirent) × S → Result DavFile × S
dir_of base (ok ents, s) = (ok (directory base ents), s)
dir_of base (err e, s) = (err e, s)

module _ {W H : Type 0} (esc : Escaper) (src : Source W H) where
  unfoldable pub dav_stat_meta : Bytes → GmPath → Cmd (View W) FileInfo
  unfolding reg_file_info
  dav_stat_meta name dp = do
    v ← λ s. or_eio esc src (lifted (src.meta_file dp.mod_version dp.cache_download_file_ext) s)
    pure (reg_file_info name (length v) 0)

  -- `Stat` of a path that was parsed; the size of the status page is told as 123
  unfoldable pub dav_stat_parsed : Bytes → GmPath → Cmd (View W) FileInfo
  unfolding beq path_base reg_file_info dav_stat_meta stat_in
  dav_stat_parsed name dp s =
      if dp.not_exist
      then (err not_exist, s)
      else if not (is_empty dp.well_known)
      then (if beq dp.well_known wk_tsgo_extracted
          then (ok (reg_file_info name (length (extracted_contents dp.mod_version)) 0), s)
          else (ok (reg_file_info name 123 0), s))
      else if not (is_empty dp.cache_download_file_ext)
      then dav_stat_meta name dp s
      else if not dp.in_zip
      then (ok (dir_info (path_base name)), s)
      else stat_in esc src dp s

  -- `(webdavFS).Stat`
  unfoldable pub dav_stat : Bytes → Cmd (View W) FileInfo
  unfolding parse_path dav_stat_parsed
  dav_stat name s =
      let (dp, seen) = parse_path esc s.seen name in
      dav_stat_parsed name dp (record s { seen = seen })

  unfoldable pub open_meta : Bytes → GmPath → Cmd (View W) DavFile
  open_meta name dp = do
    v ← λ s. or_eio esc src (lifted (src.meta_file dp.mod_version dp.cache_download_file_ext) s)
    pure (regular name v)

  -- a file of a zip, or a directory where the store says that it is one
  unfoldable pub opened : Bytes → H → GmPath → Result Bytes × View W → Result DavFile × View W
  unfolding is_is_dir path_base
  opened name mh dp (ok contents, s) = (ok (regular name contents), s)
  opened name mh dp (err e, s) =
      if is_is_dir e
      then dir_of (path_base name) (lifted (src.readdir mh dp.path) s)
      else (err e, s)

  unfoldable pub open_in : Bytes → GmPath → Cmd (View W) DavFile
  unfolding opened
  open_in name dp = do
    mh ← lifted (src.zip_root dp.mod_version)
    λ s. opened name mh dp (lifted (src.get_file mh dp.path) s)

  -- `OpenFile` of a path that was parsed
  unfoldable pub open_parsed : Bytes → GmPath → Cmd (View W) DavFile
  unfolding beq path_base open_meta open_in
  open_parsed name dp s =
      if dp.not_exist
      then (err not_exist, s)
      else if beq dp.well_known status_file
      then (do json ← lifted src.status_json; pure (regular (path_base name) json)) s
      else if beq dp.well_known wk_tsgo_extracted
      then (ok (regular (path_base name) (extracted_contents dp.mod_version)), s)
      else if not (is_empty dp.well_known)
      then (err not_exist, s)
      else if not (is_empty dp.cache_download_file_ext)
      then open_meta name dp s
      else if not dp.in_zip
      then (ok (empty_dir (path_base name)), s)
      else open_in name dp s

  -- `(webdavFS).OpenFile`, which tells whether a flag asks to write
  unfoldable pub open_file : Bytes → Bool → Cmd (View W) DavFile
  unfolding parse_path open_parsed
  open_file name writes s =
      let (dp, seen) = parse_path esc s.seen name in
      if writes then (err permission, s) else open_parsed name dp (record s { seen = seen })
