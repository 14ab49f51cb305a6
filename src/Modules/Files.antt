-- ===== src/Modules/Files.antt =====
-- `addToolchainGoMods` of gomodfs.go, the files of a module zip and of a toolchain's tar file.
use gomodfs.Base.{
  ℕ, ltb, panicked, Bytes, codes, List, [], ◌∷◌, ◌++◌, Option, none, some, Bool, false, ◌||◌,
  if◌then◌else◌, beq, is_empty, is_some, Result, ok, err, length, drop, map, ◌+◌, Error,
}
use gomodfs.Store.{ModuleVersion, is_dir}
use gomodfs.Text.{cut_suffix, trim_prefix, slash}
use gomodfs.Modules.{PutFile, ArchiveFile}

abbrev pub paths_of : List PutFile → List Bytes
paths_of files = map (λ (f : PutFile). f.path) files

unfoldable pub contains : Bytes → List Bytes → Bool
contains p [] = false
contains p (q ∷ qs) = beq q p || contains p qs

-- the directory, "" or with its final slash, in which a file is "_go.mod"
unfoldable pub go_mod_dir : Bytes → Option Bytes
unfolding cut_suffix
go_mod_dir path = elim (cut_suffix path (codes "_go.mod")) [
  | none ↦ none
  | some dir ↦ if is_empty dir || is_some (cut_suffix dir (slash ∷ [])) then some dir else none
]

-- `renamedPutFile`
abbrev pub renamed : PutFile → Bytes → PutFile
renamed f path = record f { path = path }

unfoldable pub go_mod : Bytes
go_mod = codes "go.mod"

-- the loop of `addToolchainGoMods`: the files that it appends
unfoldable pub go_mod_copies : List Bytes → List PutFile → List PutFile
unfolding go_mod_dir contains go_mod
go_mod_copies have [] = []
go_mod_copies have (f ∷ files) = elim (go_mod_dir f.path) [
  | none ↦ go_mod_copies have files
  | some dir ↦
      if contains (dir ++ go_mod) have
      then go_mod_copies have files
      else renamed f (dir ++ go_mod) ∷ go_mod_copies have files
]

-- `addToolchainGoMods`
unfoldable pub add_toolchain_go_mods : List PutFile → List PutFile
unfolding go_mod_copies
add_toolchain_go_mods files = files ++ go_mod_copies (paths_of files) files

-- the length of a module, "@", a version and "/"
abbrev pub prefix_length : ModuleVersion → ℕ
prefix_length mv = length mv.module_path + 1 + length mv.version + 1

-- `putFile`, of the part of the name behind the module and its version
abbrev pub put_file : Bytes → ArchiveFile → PutFile
put_file path zf = record { path = path; size = zf.size; mode = zf.mode; content = zf.content }

-- the loop of `downloadZip` over the files of a zip: the slice of a name that is shorter than the
-- module and its version panics
unfoldable pub put_files : ModuleVersion → List ArchiveFile → Result (List PutFile)
put_files mv [] = ok []
put_files mv (f ∷ zr) =
    let rest = put_files mv zr in
    let path = drop (prefix_length mv) f.name in
    if ltb (length f.name) (prefix_length mv)
    then err panicked
    else elim rest [ err e ↦ err e | ok files ↦ ok (put_file path f ∷ files) ]

-- `tsgoFile`
abbrev pub tsgo_file : ArchiveFile → Bytes → PutFile
tsgo_file h all = record {
  path = trim_prefix h.name (codes "go/");
  size = length all;
  mode = h.mode;
  content = ok all;
}

-- the loop of `getTailscaleGoRoot` over a tar file
unfoldable pub tar_files : List (Result ArchiveFile) → Result (List PutFile)
unfolding trim_prefix
tar_files [] = ok []
tar_files (err e ∷ hs) = err (Error.wrap e)
tar_files (ok h ∷ hs) =
    let rest = tar_files hs in
    if is_dir h.mode then rest else elim h.content [
      | err e ↦ err (Error.wrap e)
      | ok all ↦ elim rest [ err e ↦ err e | ok files ↦ ok (tsgo_file h all ∷ files) ]
    ]
