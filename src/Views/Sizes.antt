-- ===== src/Views/Sizes.antt =====
-- What Lstat of nfs.go tells of a file, and what a read of it gives.
use gomodfs.Base.{
  ℕ, ◌≡◌, inl, inr, refl, Bytes, List, false, Bool-cases, beq, beq→eq, length, is_empty, Error,
  Result, ok, err, is_not_exist, not_exist, other,
}
use gomodfs.Store.{ModuleVersion, Dirent, Escaper}
use gomodfs.Paths.{GmPath, status_file, wk_tsgo_extracted, parse_path}
use gomodfs.Views.{
  FileInfo, reg_info, dir_info, reg_file_info, Source, View, extracted_contents, missing_or,
  lstat_parsed, lstat, stat_in, read_in, stat_meta, read_meta, zip_file, contents_parsed,
  get_file_contents_uncached,
}

-- the answers of a source that does not change
pub record Answers (H : Type 0) : Type 0 where
  pub zip_root : ModuleVersion → Result H
  pub meta_file : ModuleVersion → Bytes → Result Bytes
  pub stat : H → Bytes → Result FileInfo
  pub readdir : H → Bytes → Result (List Dirent)
  pub get_file : H → Bytes → Result Bytes
  pub status_json : Bytes

abbrev pub steady : {H : Type 0} → Answers H → Source (Unit {0}) H
steady a = record {
  zip_root = λ mv w. (a.zip_root mv, w);
  meta_file = λ mv ext w. (a.meta_file mv ext, w);
  stat = λ mh p w. (a.stat mh p, w);
  readdir = λ mh p w. (a.readdir mh p, w);
  get_file = λ mh p w. (a.get_file mh p, w);
  status_json = λ w. (ok a.status_json, w);
}

-- A file of the store can be read and has the size that the store tells.
abbrev pub HasSizes : {H : Type 0} → Answers H → Type 0
HasSizes {H} a =
    (mh : H) (p name : Bytes) (size mode : ℕ)
    → a.stat mh p ≡ ok (reg_info name size mode)
    → (c : Bytes) × (a.get_file mh p ≡ ok c) × (length c ≡ size)

-- a file is read with the size and the mode that were told, and nothing else is read
abbrev pub Agree : Result FileInfo → Result (Bytes × ℕ) → Type 0
Agree (ok (reg_info name size mode)) r = (c : Bytes) × (r ≡ ok (c, mode)) × (length c ≡ size)
Agree (ok (dir_info name)) r = (e : Error) × (r ≡ err e)
Agree (err d) r = (e : Error) × (r ≡ err e)

pub differ : {w : Bytes} → w ≡ status_file → beq w wk_tsgo_extracted ≡ false
unfolding beq
differ e = rw e refl

module _ {H : Type 0} (esc : Escaper) (a : Answers H) (sizes : HasSizes a) where
  zip_file-Agree :
      (mh : H) (p : Bytes) (s t : View (Unit {0})) (r : Result FileInfo)
      → a.stat mh p ≡ r
      → Agree (missing_or esc (steady a) (r, s)).0 (zip_file esc (steady a) mh p t).0
  unfolding zip_file
  zip_file-Agree mh p s t (err e) is = elim (Bool-cases (is_not_exist e)) [
    | inl missing ↦ rw (missing, zip_file, is) (e, refl)
    | inr found ↦ rw (found, zip_file, is) (e, refl)
  ]
  zip_file-Agree mh p s t (ok (dir_info name)) is = (other, rw (zip_file, is) refl)
  zip_file-Agree mh p s t (ok (reg_info name size mode)) is =
      let (c, file, len) = sizes mh p name size mode is in (c, rw (zip_file, is, file) refl, len)

  in_zip-Agree :
      (mp : GmPath) (s : View (Unit {0})) (r : Result H)
      → a.zip_root mp.mod_version ≡ r
      → Agree (stat_in esc (steady a) mp s).0 (read_in esc (steady a) mp s).0
  unfolding stat_in read_in
  in_zip-Agree mp s (err e) is = rw (stat_in, read_in, is) (e, refl)
  in_zip-Agree mp s (ok mh) is =
      rw (stat_in, read_in, is) (zip_file-Agree mh mp.path s s (a.stat mh mp.path) refl)

  meta-Agree :
      (name : Bytes) (mp : GmPath) (s : View (Unit {0})) (r : Result Bytes)
      → a.meta_file mp.mod_version mp.cache_download_file_ext ≡ r
      → Agree (stat_meta esc (steady a) name mp s).0 (read_meta esc (steady a) mp s).0
  unfolding stat_meta read_meta reg_file_info
  meta-Agree name mp s (err e) is = rw (stat_meta, read_meta, is) (e, refl)
  meta-Agree name mp s (ok v) is = rw (stat_meta, read_meta, is) (v, refl, refl)

  parsed-Agree :
      (name : Bytes) (mp : GmPath) (s : View (Unit {0}))
      → Agree (lstat_parsed esc (steady a) name mp s).0 (contents_parsed esc (steady a) mp s).0
  unfolding lstat_parsed contents_parsed reg_file_info stat_in read_in stat_meta read_meta
  parsed-Agree name mp s = elim (Bool-cases mp.not_exist) [
    | inl missing ↦ rw missing (not_exist, refl)
    | inr exists ↦ elim (Bool-cases (beq mp.well_known status_file)) [
      | inl is ↦
          rw (exists, is, differ (beq→eq mp.well_known status_file is)) (a.status_json, refl, refl)
      | inr no_status ↦ elim (Bool-cases (beq mp.well_known wk_tsgo_extracted)) [
        | inl is ↦ rw (exists, no_status, is) (extracted_contents mp.mod_version, refl, refl)
        | inr no_tsgo ↦ elim (Bool-cases (is_empty mp.well_known)) [
          | inr known ↦ rw (exists, no_status, no_tsgo, known) (not_exist, refl)
          | inl unknown ↦ elim (Bool-cases (is_empty mp.cache_download_file_ext)) [
            | inr ext ↦
                rw (exists, no_status, no_tsgo, unknown, ext)
                  (meta-Agree name mp s (a.meta_file mp.mod_version mp.cache_download_file_ext)
                    refl)
            | inl no_ext ↦ elim (Bool-cases mp.in_zip) [
              | inl inside ↦
                  rw (exists, no_status, no_tsgo, unknown, no_ext, inside)
                    (in_zip-Agree mp s (a.zip_root mp.mod_version) refl)
              | inr outside ↦
                  rw (exists, no_status, no_tsgo, unknown, no_ext, outside) (other, refl)
            ]
          ]
        ]
      ]
    ]
  ]

  -- Lstat and a read of the same path agree, over a source that does not change and whose store
  -- tells the sizes of its files: where Lstat tells of a file, the read succeeds, with as many
  -- bytes as the size and with the same mode; where it tells of a directory or fails, the read
  -- fails.
  pub lstat-Agree :
      (name : Bytes) (s : View (Unit {0}))
      → Agree (lstat esc (steady a) name s).0 (get_file_contents_uncached esc (steady a) name s).0
  unfolding lstat get_file_contents_uncached
  lstat-Agree name s =
      let (mp, seen) = parse_path esc s.seen name in parsed-Agree name mp (record s { seen = seen })
