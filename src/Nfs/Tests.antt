-- ===== src/Nfs/Tests.antt =====
-- Reads of a small file, and handles of a server with one module.
use gomodfs.Base.{
  ℕ, suc, ◌≡◌, Bytes, codes, refl, arith, length, false, List, [], ◌∷◌, ◌++◌, none, some, Result,
  ok, beq, every,
}
use gomodfs.Store.{ModuleVersion, mod_ver, perm, dir, Dirent}
use gomodfs.Store.Plain.{plain, plain_of, path_byte, plain_byte}
use gomodfs.Text.{
  cut_prefix, cut_suffix, trim_suffix, cut, cut_or_whole, path_dir, path_clean, split, join_with,
}
use gomodfs.Paths.{
  parse_path, parse_in_zip, parse_mod_version, unescaped, load, is_tsgo_module, tsgo_zip_root,
  cd_path, mod_ver_zip_prefix, empty_path_join, split_segs, join_segs,
}
use gomodfs.Modules.Handles.{HandleTarget, add_parent_paths, add_module_version_paths}
use gomodfs.Nfs.Handles.{
  Handle, Server, Listings, target_at, handle_eq, target_of, zeros, well_known_hash, version_at,
  path_target_at, mod_half, file_half, issue, path_handle, to_handle,
}
use gomodfs.Nfs.Search.{
  add_versions, filled, init_from, handle_target_with_path_hash, module_version_with_hash,
  path_answer, version_answer, walk_answer, do_dir, in_root, in_version, well_known_target, search,
  from_handle,
}
use gomodfs.Nfs.Kept.{Always, to_handle-Always}
use gomodfs.Nfs.{read_at}
use gomodfs.Nfs.Whole.{read_all, read_all-whole}

abbrev hello : Bytes
hello = codes "hello"

second_piece : read_at hello 2 2 ≡ record { data_read = codes "ll"; eof = false }
unfolding read_at
second_piece = refl

behind_the_end : read_at hello 9 2 ≡ record { data_read = codes ""; eof = false }
unfolding read_at
behind_the_end = refl

read_all-whole_example : read_all (suc (length hello)) hello 2 0 ≡ some hello
read_all-whole_example = read_all-whole hello 2 (omega arith) (omega arith)

-- a hash whose values have 7 in front, so that none is all zeros or well known
abbrev plain_hash : Bytes → Bytes
plain_hash s = 7 ∷ s

abbrev one_version : ModuleVersion
one_version = mod_ver (codes "a.b/m") (codes "v1")

abbrev listing : ℕ → Bytes → Result (List Dirent)
listing h [] = ok (
    record { name = codes "x"; mode = dir; size = 0 }
    ∷ record { name = codes "go.mod"; mode = perm 292; size = 3 }
    ∷ [])
listing h (c ∷ p) = ok (record { name = codes "y.go"; mode = perm 292; size = 3 } ∷ [])

abbrev one_module : Listings (Unit {0}) ℕ
one_module = record {
  cached_modules = λ w. (ok (one_version ∷ []), w);
  get_zip_root = λ mv w. (ok 1, w);
  readdir = λ h p w. (listing h p, w);
}

abbrev fresh_server : Server (Unit {0})
fresh_server = record { handles = []; maps = none; seen = []; world = tt }

abbrev file_path : List Bytes
file_path = codes "a.b" ∷ codes "m@v1" ∷ codes "x" ∷ codes "y.go" ∷ []

abbrev file_handle : Handle
file_handle = (plain_hash (codes "a.b/m" ++ (0 ∷ codes "v1")), plain_hash (codes "x/y.go"))

asked_handle : (to_handle plain_hash plain file_path fresh_server).0 ≡ some file_handle
unfolding to_handle path_handle issue parse_path parse_in_zip parse_mod_version unescaped load
    plain_of path_byte plain_byte every mod_half file_half join_segs join_with beq cut cut_prefix
    cut_suffix trim_suffix cut_or_whole target_of
asked_handle = refl

to_handle-Always_example :
    (t : HandleTarget) × Always plain_hash plain one_module
      (to_handle plain_hash plain file_path fresh_server).1
      file_handle
      t
to_handle-Always_example =
    to_handle-Always plain_hash plain one_module file_path fresh_server file_handle asked_handle

-- a server that was started again finds the file in the store
abbrev result_of : Result HandleTarget × Server (Unit {0}) → Result HandleTarget
result_of (r, s) = r

found_again :
    result_of (from_handle plain_hash plain one_module 9 file_handle fresh_server)
    ≡ ok (target_at (codes "a.b/m@v1/x/y.go"))
unfolding from_handle handle_eq target_of search handle_target_with_path_hash
    module_version_with_hash in_version in_root do_dir walk_answer well_known_target version_answer
    path_answer init_from filled add_versions add_module_version_paths add_parent_paths path_dir
    path_clean version_at path_target_at cd_path mod_ver_zip_prefix is_tsgo_module tsgo_zip_root
    empty_path_join split_segs split plain_of path_byte plain_byte every beq zeros well_known_hash
    cut cut_prefix
found_again = refl
