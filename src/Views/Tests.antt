-- ===== src/Views/Tests.antt =====
-- The front ends over a source with one module, in which one file is.
use gomodfs.Base.{ℕ, ◌≡◌, refl, Bytes, codes, [], ◌∷◌, false, beq, every, Result, ok, err, is_dir}
use gomodfs.Store.{perm}
use gomodfs.Store.Plain.{plain, plain_of, path_byte, plain_byte}
use gomodfs.Text.{cut_prefix, cut_suffix, trim_suffix, cut, cut_or_whole}
use gomodfs.Paths.{parse_path, parse_in_zip, parse_mod_version, unescaped, load, status_file}
use gomodfs.Views.{
  FileInfo, reg_info, dir_info, reg_file_info, View, lstat, read_in, zip_file, contents_parsed,
  get_file_contents_uncached,
}
use gomodfs.Views.WebDav.{open_file, dav_stat, dav_stat_parsed}
use gomodfs.Views.Sizes.{Answers, steady, HasSizes, Agree, lstat-Agree}
use gomodfs.Views.Same.{Gives, SameFile, open_file-SameFile}

abbrev stat_of : ℕ → Bytes → Result FileInfo
stat_of h [] = ok (dir_info (codes "."))
stat_of h (c ∷ p) = ok (reg_info (codes "go.mod") 3 292)

abbrev file_of : ℕ → Bytes → Result Bytes
file_of h [] = err is_dir
file_of h (c ∷ p) = ok (codes "abc")

abbrev one_file : Answers ℕ
one_file = record {
  zip_root = λ mv. ok 1;
  meta_file = λ mv ext. ok (codes "{}");
  stat = stat_of;
  readdir = λ h p. ok (record { name = codes "go.mod"; mode = perm 292; size = 3 } ∷ []);
  get_file = file_of;
  status_json = codes "{}";
}

some-ne-dir :
    {n m : Bytes} {size mode : ℕ} {A : Type 0} → ok (dir_info n) ≡ ok (reg_info m size mode) → A
some-ne-dir e = absurd (cc)

one_file-HasSizes : HasSizes one_file
one_file-HasSizes mh [] name size mode e = some-ne-dir e
one_file-HasSizes mh (c ∷ p) name size mode e = (codes "abc", refl, cc)

one_file-Gives : (mh : ℕ) (p : Bytes) → Gives (one_file.stat mh p) (one_file.get_file mh p)
one_file-Gives mh [] = (is_dir, refl)
one_file-Gives mh (c ∷ p) = (codes "abc", refl)

abbrev start : View (Unit {0})
start = record { seen = []; world = tt }

abbrev a_file : Bytes
a_file = codes "a.b/m@v1/go.mod"

lstat-Agree_example :
    Agree
      (lstat plain (steady one_file) a_file start).0
      (get_file_contents_uncached plain (steady one_file) a_file start).0
lstat-Agree_example = lstat-Agree plain one_file one_file-HasSizes a_file start

open_file-SameFile_example :
    SameFile
      (get_file_contents_uncached plain (steady one_file) a_file start).0
      (open_file plain (steady one_file) a_file false start).0
open_file-SameFile_example = open_file-SameFile plain one_file one_file-Gives a_file start

read_a_file :
    (get_file_contents_uncached plain (steady one_file) a_file start).0 ≡ ok (codes "abc", 292)
unfolding get_file_contents_uncached contents_parsed read_in zip_file parse_path parse_in_zip
    parse_mod_version unescaped load plain_of path_byte plain_byte every beq cut cut_prefix
    cut_suffix trim_suffix cut_or_whole
read_a_file = refl

-- the front end for WebDAV tells another size of the status page than it has
told_status :
    (dav_stat plain (steady one_file) status_file start).0 ≡ ok (reg_info status_file 123 292)
unfolding dav_stat dav_stat_parsed parse_path beq reg_file_info
told_status = refl
