-- ===== src/Views/Same.antt =====
-- The files of webdav.go against those of nfs.go.
use gomodfs.Base.{
  ℕ, ◌≡◌, inl, inr, refl, Bytes, List, false, Bool-cases, beq, beq→eq, is_empty, Error, Result, ok,
  err,
}
use gomodfs.Store.{Dirent, Escaper}
use gomodfs.Text.{path_base}
use gomodfs.Paths.{GmPath, status_file, wk_tsgo_extracted, parse_path}
use gomodfs.Views.{
  FileInfo, reg_info, dir_info, View, lifted, zip_file, read_in, read_meta, contents_parsed,
  get_file_contents_uncached,
}
use gomodfs.Views.Sizes.{Answers, steady, differ}
use gomodfs.Views.WebDav.{
  DavFile, regular, directory, empty_dir, dir_of, is_is_dir, opened, open_in, open_meta,
  open_parsed, open_file,
}

-- what no file is
abbrev pub NoFile : Result DavFile → Type 0
NoFile (err e) = Unit
NoFile (ok (regular name c)) = ⊥
NoFile (ok (directory name ents)) = Unit
NoFile (ok (empty_dir name)) = Unit

-- The store gives the contents of what it says is a file, and of nothing else.
abbrev pub Gives : Result FileInfo → Result Bytes → Type 0
Gives (ok (reg_info name size mode)) r = (c : Bytes) × (r ≡ ok c)
Gives (ok (dir_info name)) r = (e : Error) × (r ≡ err e)
Gives (err d) r = (e : Error) × (r ≡ err e)

-- the same contents, or no file
abbrev pub SameFile : Result (Bytes × ℕ) → Result DavFile → Type 0
SameFile (ok (c, mode)) r = (name : Bytes) × (r ≡ ok (regular name c))
SameFile (err e) r = NoFile r

module _ {H : Type 0} (esc : Escaper) (a : Answers H)
    (gives : (mh : H) (p : Bytes) → Gives (a.stat mh p) (a.get_file mh p)) where
  dir_of-NoFile :
      (base : Bytes) (r : Result (List Dirent) × View (Unit {0})) → NoFile (dir_of base r).0
  dir_of-NoFile base (ok ents, s) = tt
  dir_of-NoFile base (err e, s) = tt

  opened-NoFile :
      (name : Bytes) (mh : H) (dp : GmPath) (e : Error) (s : View (Unit {0}))
      → NoFile (opened esc (steady a) name mh dp (err e, s)).0
  unfolding opened
  opened-NoFile name mh dp e s = elim (Bool-cases (is_is_dir e)) [
    | inr file ↦ rw file tt
    | inl is ↦ rw is (dir_of-NoFile (path_base name) (lifted ((steady a).readdir mh dp.path) s))
  ]

  opened_ok :
      (name : Bytes) (mh : H) (dp : GmPath) (c : Bytes) (s : View (Unit {0}))
      → (opened esc (steady a) name mh dp (ok c, s)).0 ≡ ok (regular name c)
  unfolding opened
  opened_ok name mh dp c s = refl

  zip_file-SameFile :
      (name : Bytes) (mh : H) (dp : GmPath) (s t : View (Unit {0})) (r : Result FileInfo)
      → a.stat mh dp.path ≡ r
      → Gives r (a.get_file mh dp.path)
      → SameFile
          (zip_file esc (steady a) mh dp.path s).0
          (opened esc (steady a) name mh dp (a.get_file mh dp.path, t)).0
  unfolding zip_file
  zip_file-SameFile name mh dp s t (err d) is (e, no_file) =
      rw (zip_file, is, no_file) (opened-NoFile name mh dp e t)
  zip_file-SameFile name mh dp s t (ok (dir_info n)) is (e, no_file) =
      rw (zip_file, is, no_file) (opened-NoFile name mh dp e t)
  zip_file-SameFile name mh dp s t (ok (reg_info n size mode)) is (c, file) =
      rw (zip_file, is, file) (name, opened_ok name mh dp c t)

  in_zip-SameFile :
      (name : Bytes) (dp : GmPath) (s : View (Unit {0})) (r : Result H)
      → a.zip_root dp.mod_version ≡ r
      → SameFile (read_in esc (steady a) dp s).0 (open_in esc (steady a) name dp s).0
  unfolding read_in open_in
  in_zip-SameFile name dp s (err e) is = rw (read_in, open_in, is) tt
  in_zip-SameFile name dp s (ok mh) is =
      rw (read_in, open_in, is)
        (zip_file-SameFile name mh dp s s (a.stat mh dp.path) refl (gives mh dp.path))

  meta-SameFile :
      (name : Bytes) (dp : GmPath) (s : View (Unit {0})) (r : Result Bytes)
      → a.meta_file dp.mod_version dp.cache_download_file_ext ≡ r
      → SameFile (read_meta esc (steady a) dp s).0 (open_meta esc (steady a) name dp s).0
  unfolding read_meta open_meta
  meta-SameFile name dp s (err e) is = rw (read_meta, open_meta, is) tt
  meta-SameFile name dp s (ok v) is = rw (read_meta, open_meta, is) (name, refl)

  parsed-SameFile :
      (name : Bytes) (dp : GmPath) (s : View (Unit {0}))
      → SameFile (contents_parsed esc (steady a) dp s).0 (open_parsed esc (steady a) name dp s).0
  unfolding contents_parsed open_parsed read_in open_in read_meta open_meta
  parsed-SameFile name dp s = elim (Bool-cases dp.not_exist) [
    | inl missing ↦ rw missing tt
    | inr exists ↦ elim (Bool-cases (beq dp.well_known status_file)) [
      | inl is ↦
          rw (exists, is, differ (beq→eq dp.well_known status_file is)) (path_base name, refl)
      | inr no_status ↦ elim (Bool-cases (beq dp.well_known wk_tsgo_extracted)) [
        | inl is ↦ rw (exists, no_status, is) (path_base name, refl)
        | inr no_tsgo ↦ elim (Bool-cases (is_empty dp.well_known)) [
          | inr known ↦ rw (exists, no_status, no_tsgo, known) tt
          | inl unknown ↦ elim (Bool-cases (is_empty dp.cache_download_file_ext)) [
            | inr ext ↦
                rw (exists, no_status, no_tsgo, unknown, ext)
                  (meta-SameFile name dp s (a.meta_file dp.mod_version dp.cache_download_file_ext)
                    refl)
            | inl no_ext ↦ elim (Bool-cases dp.in_zip) [
              | inl inside ↦
                  rw (exists, no_status, no_tsgo, unknown, no_ext, inside)
                    (in_zip-SameFile name dp s (a.zip_root dp.mod_version) refl)
              | inr outside ↦ rw (exists, no_status, no_tsgo, unknown, no_ext, outside) tt
            ]
          ]
        ]
      ]
    ]
  ]

  -- The front ends for NFS and WebDAV have the same files, over a source that does not change and
  -- whose store gives the contents of exactly what it says is a file: at any path, OpenFile to read
  -- gives a file with the contents that a read over NFS gives, and where that fails it gives no
  -- file, but an error or a directory.
  pub open_file-SameFile :
      (name : Bytes) (s : View (Unit {0}))
      → SameFile
          (get_file_contents_uncached esc (steady a) name s).0
          (open_file esc (steady a) name false s).0
  unfolding get_file_contents_uncached open_file
  open_file-SameFile name s =
      let (dp, seen) = parse_path esc s.seen name in
      parsed-SameFile name dp (record s { seen = seen })
