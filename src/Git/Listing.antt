-- ===== src/Git/Listing.antt =====
-- `newModHandle` of store/gitstore/gitstore.go: a module handle from what git ls-tree prints.
-- `hex.Decode`, `mem.ParseInt` and `strconv.Unquote` are parameters.
use gomodfs.Base.{
  ℕ, zero, suc, Bytes, codes, List, [], ◌∷◌, ◌++◌, Option, none, some, Bool, true, false,
  if◌then◌else◌, beq, length, Result, ok, err, other, out_of_fuel,
}
use gomodfs.Text.{has_prefix, cut_prefix, cut, path_base, path_dir, dot}
use gomodfs.Git.{ObjRef}

-- a file mode as `fileModeFromGitOctalBytes` gives it: a kind and permission bits
pub data ModeKind : Type 0 where
  regular directory symlink irregular : ModeKind

abbrev pub Mode : Type 0
Mode = ModeKind × ℕ

-- 0755 and 0644
abbrev rwxr_xr_x : ℕ
rwxr_xr_x = 493

abbrev rw_r__r__ : ℕ
rw_r__r__ = 420

-- `fileModeFromGitOctalBytes`
unfoldable pub file_mode_from_git_octal_bytes : Bytes → Mode
unfolding beq
file_mode_from_git_octal_bytes octal =
    if beq octal (codes "040000")
    then (directory, rwxr_xr_x)
    else if beq octal (codes "100644")
    then (regular, rw_r__r__)
    else if beq octal (codes "100755")
    then (regular, rwxr_xr_x)
    else if beq octal (codes "120000")
    then (symlink, rwxr_xr_x)
    else if beq octal (codes "160000")
    then (irregular, rwxr_xr_x)
    else (regular, 0)

abbrev pub is_directory : Mode → Bool
is_directory (directory, p) = true
is_directory (regular, p) = false
is_directory (symlink, p) = false
is_directory (irregular, p) = false

-- `blobMeta`, an entry of a directory, and `modHandle`
pub record BlobMeta : Type 0 where
  pub blob : ObjRef
  pub size : ℕ
  pub mode : Mode

pub record GitDirent : Type 0 where
  pub name : Bytes
  pub mode : Mode
  pub size : ℕ

pub record ModHandle : Type 0 where
  pub mod_tree : ObjRef
  pub blob_meta : List (Bytes × BlobMeta)
  pub dir_ents : List (Bytes × List GitDirent)

pub record Parsers : Type 0 where
  pub hex_decode : Bytes → Option ObjRef
  pub parse_int : Bytes → Option ℕ
  pub unquote : Bytes → Option Bytes

-- the columns of one line
pub record Line : Type 0 where
  pub ref : ObjRef
  pub mode : Mode
  pub size : ℕ
  pub path : Bytes

unfoldable pub push_ent :
    Bytes → GitDirent → List (Bytes × List GitDirent) → List (Bytes × List GitDirent)
push_ent k e [] = (k, e ∷ []) ∷ []
push_ent k e ((j, es) ∷ m) = if beq j k then (j, es ++ (e ∷ [])) ∷ m else (j, es) ∷ push_ent k e m

infixl 5 ◌>>=◌
abbrev ◌>>=◌ : {A B : Type 0} → Option A → (A → Option B) → Option B
none >>= k = none
some a >>= k = k a

module _ (parsers : Parsers) where
  -- the size of a file; a directory must have "-"
  unfoldable pub parse_size : Mode → Bytes → Option ℕ
  unfolding beq
  parse_size mode size_str =
      if is_directory mode
      then if beq size_str (codes "-") then some 0 else none
      else parsers.parse_int size_str

  unfoldable pub parse_name : Bytes → Option Bytes
  unfolding cut_prefix
  parse_name rest = if has_prefix rest (b'"' ∷ []) then parsers.unquote rest else some rest

  abbrev space : Bytes
  space = b' ' ∷ []

  -- the body of the loop: one line, without its end
  unfoldable pub parse_line : Bytes → Option Line
  unfolding cut file_mode_from_git_octal_bytes parse_size parse_name
  parse_line line = do
    (hex_ref, rest1) ← cut line space
    ref ← parsers.hex_decode hex_ref
    (mode_oct, rest2) ← cut rest1 space
    (size_str, rest3) ← cut rest2 space
    size ← parse_size (file_mode_from_git_octal_bytes mode_oct) size_str
    path ← parse_name rest3
    some (record {
      ref = ref;
      mode = file_mode_from_git_octal_bytes mode_oct;
      size = size;
      path = path;
    })

  abbrev pub dirent_of : Line → GitDirent
  dirent_of l = record { name = path_base l.path; mode = l.mode; size = l.size }

  abbrev pub parent_of : Bytes → Bytes
  parent_of p = if beq (path_dir p) (dot ∷ []) then [] else path_dir p

  -- the line is added to the handle; the latest entry of `blobMeta` comes first
  unfoldable pub add_line : Line → ModHandle → ModHandle
  unfolding push_ent path_base path_dir beq
  add_line l mh = record mh {
    blob_meta =
        if is_directory l.mode
        then mh.blob_meta
        else (l.path, record { blob = l.ref; size = l.size; mode = l.mode }) ∷ mh.blob_meta;
    dir_ents = push_ent (parent_of l.path) (dirent_of l) mh.dir_ents;
  }

  -- the loop of `newModHandle`, on fuel
  unfoldable pub parse_lines : ℕ → Bytes → ModHandle → Result ModHandle
  unfolding cut parse_line add_line
  parse_lines zero remain mh = err out_of_fuel
  parse_lines (suc fuel) [] mh = ok mh
  parse_lines (suc fuel) (c ∷ remain) mh = elim (cut (c ∷ remain) (b'\n' ∷ [])) [
    | none ↦ err other
    | some (line, rest) ↦ elim (parse_line line) [
      | none ↦ err other
      | some l ↦ parse_lines fuel rest (add_line l mh)
    ]
  ]

  -- `newModHandle`, of the output of git; each round takes a line end off it
  unfoldable pub new_mod_handle : ObjRef → Bytes → Result ModHandle
  unfolding parse_lines
  new_mod_handle mod_tree out =
      parse_lines (suc (length out)) out
        (record { mod_tree = mod_tree; blob_meta = []; dir_ents = [] })
