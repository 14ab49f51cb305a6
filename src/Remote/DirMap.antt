-- ===== src/Remote/DirMap.antt =====
-- `buildDirMap` of store/remotestore/remotestore.go: the directories that a map of files implies.
-- Go ranges over the map in any order; the model takes the files as a list in that order.
use gomodfs.Base.{
  ℕ, zero, suc, Bytes, List, [], ◌∷◌, ◌++◌, Option, none, some, Bool, false, ◌||◌, if◌then◌else◌,
  beq, is_empty,
}
use gomodfs.Store.{Dirent, dir}
use gomodfs.Text.{path_dir, path_base, dot}
use gomodfs.Remote.Protocol.{FileMeta, ModVersionMap}

-- `dirs`: directory path to entries, in the order in which they were added
abbrev pub Dirs : Type 0
Dirs = List (Bytes × List Dirent)

-- `dirSet`: directory path to the child names already added
abbrev pub DirSet : Type 0
DirSet = List (Bytes × List Bytes)

abbrev pub none_as_nil : {A : Type 0} → Option (List A) → List A
none_as_nil none = []
none_as_nil (some l) = l

-- a lookup in a map keyed by paths, and an append to the list under a key
unfoldable pub find : {A : Type 0} → Bytes → List (Bytes × A) → Option A
find k [] = none
find k ((j, a) ∷ m) = if beq j k then some a else find k m

unfoldable pub push : {A : Type 0} → Bytes → A → List (Bytes × List A) → List (Bytes × List A)
push k a [] = (k, a ∷ []) ∷ []
push k a ((j, l) ∷ m) = if beq j k then (j, l ++ (a ∷ [])) ∷ m else (j, l) ∷ push k a m

unfoldable pub member : Bytes → List Bytes → Bool
member n [] = false
member n (m ∷ ms) = beq m n || member n ms

pub record Built : Type 0 where
  pub dirs : Dirs
  pub dir_set : DirSet

-- add `ent` to the directory `parent`, unless a child of that name is there
unfoldable pub add_child : Bytes → Dirent → Built → Built
unfolding find push member
add_child parent ent b =
    if member ent.name (none_as_nil (find parent b.dir_set))
    then b
    else record b { dirs = push parent ent b.dirs; dir_set = push parent ent.name b.dir_set }

-- `path.Dir`, with "." as the root
unfoldable pub parent_of : Bytes → Bytes
unfolding path_dir beq
parent_of p = let d = path_dir p in if beq d (dot ∷ []) then [] else d

abbrev pub dir_entry : Bytes → Dirent
dir_entry name = record { name = name; mode = dir; size = 0 }

abbrev pub file_entry : Bytes → FileMeta → Dirent
file_entry name m = record { name = name; mode = m.mode; size = m.size }

-- the loop that walks up from `child`, on fuel; `none` when the fuel runs out
unfoldable pub add_parents : ℕ → Bytes → Built → Option Built
unfolding add_child parent_of
add_parents zero child b = none
add_parents (suc fuel) child b =
    let up =
      add_parents fuel (parent_of child)
        (add_child (parent_of child) (dir_entry (path_base child)) b) in
    if is_empty child then some b else up

-- the body of the loop over the files
unfoldable pub add_file : ℕ → Bytes → FileMeta → Built → Option Built
unfolding add_parents
add_file fuel file_path m b =
    add_parents fuel (parent_of file_path)
      (add_child (parent_of file_path) (file_entry (path_base file_path) m) b)

unfoldable pub add_files : ℕ → ModVersionMap → Built → Option Built
unfolding add_file
add_files fuel [] b = some b
add_files fuel ((p, m) ∷ files) b = elim (add_file fuel p m b) [
  | none ↦ none
  | some b' ↦ add_files fuel files b'
]

abbrev pub no_dirs : Built
no_dirs = record { dirs = []; dir_set = [] }

-- `buildDirMap`; `none` if a walk up needs more rounds than the fuel
unfoldable pub build_dir_map : ℕ → ModVersionMap → Option Dirs
unfolding add_files
build_dir_map fuel files = elim (add_files fuel files no_dirs) [
  | none ↦ none
  | some b ↦ some b.dirs
]
