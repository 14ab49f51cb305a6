-- ===== src/Git/Tree.antt =====
-- The tree builder of store/gitstore/gitstore.go: `mkObjRef`, `addHash`, `dirEnts` and `buildTree`.
-- The files are a list with one entry for each name; Go ranges over them in any order.
use gomodfs.Base.{
  ℕ, zero, suc, Bytes, codes, List, [], ◌∷◌, ◌++◌, Option, none, some, Bool, true, false, ◌||◌,
  ◌==◌, ltb, if◌then◌else◌, beq, length, ◌+◌, ◌/◌, ◌%◌, Result, ok, err, Error, other, out_of_fuel,
}
use gomodfs.Text.{cut_prefix, cut, slash}
use gomodfs.Git.{ObjType, blob, tree, Object, ObjRef}

-- `fileInfo`; `mode` is the permission bits
pub record FileInfo : Type 0 where
  pub contents : Bytes
  pub mode : ℕ
  pub git_hash : ObjRef

-- `treeBuilder`: its files, and its objects in the order of `hashes`
pub record TreeBuilder : Type 0 where
  pub f : List (Bytes × FileInfo)
  pub objects : List Object

-- `dirEnt`
pub record DirEnt : Type 0 where
  pub base : Bytes
  pub sort_key : Bytes
  pub is_dir : Bool
  pub fi : FileInfo

-- the decimal digits of a number, on fuel
unfoldable pub digits : ℕ → ℕ → Bytes → Bytes
digits zero n acc = acc
digits (suc fuel) n acc =
    let rest = digits fuel (n / 10) ((b'0' + n % 10) ∷ acc) in
    if ltb n 10 then (b'0' + n) ∷ acc else rest

abbrev pub decimal : ℕ → Bytes
decimal n = digits (suc n) n []

abbrev pub type_name : ObjType → Bytes
type_name blob = codes "blob"
type_name tree = codes "tree"

-- `mkObjRef`
unfoldable pub mk_obj_ref : (sha1 : Bytes → Bytes) → ObjType → Bytes → ObjRef
unfolding digits
mk_obj_ref sha1 typ contents =
    sha1 (type_name typ ++ (b' ' ∷ (decimal (length contents) ++ (0 ∷ contents))))

unfoldable pub has_hash : ObjRef → List Object → Bool
has_hash h [] = false
has_hash h (obj ∷ objs) = beq obj.hash h || has_hash h objs

-- `addHash`, which panics on the zero hash: no SHA-1 of a text is taken to be that
unfoldable pub add_hash : ObjRef → ObjType → Bytes → List Object → List Object
unfolding has_hash
add_hash hash typ contents objs =
    if has_hash hash objs
    then objs
    else objs ++ (record { typ = typ; content = contents; hash = hash } ∷ [])

unfoldable pub put_file : Bytes → FileInfo → List (Bytes × FileInfo) → List (Bytes × FileInfo)
put_file name fi [] = (name, fi) ∷ []
put_file name fi ((n, fi') ∷ f) =
    if beq n name then (name, fi) ∷ f else (n, fi') ∷ put_file name fi f

-- `addFile`, of the result of opening and reading the file
unfoldable pub add_file :
    (sha1 : Bytes → Bytes) → Bytes → Result Bytes → ℕ → TreeBuilder → Result TreeBuilder
unfolding mk_obj_ref add_hash put_file
add_file sha1 name (err e) mode tb = err (Error.wrap e)
add_file sha1 name (ok all) mode tb =
    let ref = mk_obj_ref sha1 blob all in
    ok (record {
      f = put_file name (record { contents = all; mode = mode; git_hash = ref }) tb.f;
      objects = add_hash ref blob all tb.objects;
    })

-- the order of strings
unfoldable pub less : Bytes → Bytes → Bool
less [] [] = false
less [] (y ∷ ys) = true
less (x ∷ xs) [] = false
less (x ∷ xs) (y ∷ ys) =
    let rest = less xs ys in if ltb x y then true else if ltb y x then false else rest

unfoldable pub find_ent : Bytes → List DirEnt → Option DirEnt
find_ent base [] = none
find_ent base (e ∷ es) = if beq e.base base then some e else find_ent base es

-- an entry is put where `slices.SortFunc` has it: behind the entries with a smaller key
unfoldable pub insert_ent : DirEnt → List DirEnt → List DirEnt
unfolding less
insert_ent e [] = e ∷ []
insert_ent e (e' ∷ es) = if less e'.sort_key e.sort_key then e' ∷ insert_ent e es else e ∷ e' ∷ es

abbrev same_kind : Bool → Bool → Bool
same_kind true b = b
same_kind false true = false
same_kind false false = true

abbrev new_ent : Bytes → FileInfo → DirEnt
new_ent suf fi = elim (cut suf (slash ∷ [])) [
  | none ↦ record { base = suf; sort_key = suf; is_dir = false; fi = fi }
  | some (base, rest) ↦ record {
    base = base;
    sort_key = base ++ (slash ∷ []);
    is_dir = true;
    fi = fi;
  }
]

-- `dirEnts`, sorted as it collects; `none` is the panic on a name that is a file and a directory
unfoldable pub dir_ents : Bytes → List (Bytes × FileInfo) → List DirEnt → Option (List DirEnt)
unfolding cut_prefix cut find_ent insert_ent
dir_ents prefix [] names = some names
dir_ents prefix ((filename, fi) ∷ f) names = elim (cut_prefix filename prefix) [
  | none ↦ dir_ents prefix f names
  | some suf ↦ elim (find_ent (new_ent suf fi).base names) [
    | none ↦ dir_ents prefix f (insert_ent (new_ent suf fi) names)
    | some was ↦
        let rest = dir_ents prefix f names in
        if same_kind was.is_dir (new_ent suf fi).is_dir then rest else none
  ]
]

unfoldable pub contains_nul_or_slash : Bytes → Bool
contains_nul_or_slash [] = false
contains_nul_or_slash (c ∷ s) = (c == 0 || c == slash) || contains_nul_or_slash s

-- `mode & 0111 != 0`
abbrev pub has_exec_bits : ℕ → Bool
has_exec_bits mode = mode % 2 == 1 || (mode / 8 % 2 == 1 || mode / 64 % 2 == 1)

abbrev pub file_mode : DirEnt → Bytes
file_mode e =
    if e.is_dir
    then codes "40000"
    else if has_exec_bits e.fi.mode
    then codes "100755"
    else codes "100644"

-- one entry of a tree
unfoldable pub tree_entry : DirEnt → ObjRef → Bytes
tree_entry e hash = file_mode e ++ (b' ' ∷ (e.base ++ (0 ∷ hash)))

abbrev Built : Type 0
Built = Result (ObjRef × List Object)

-- The loop of `buildTree` over the entries of `dir`: `build` builds a tree below, `buf` is what is
-- written. The tree goes to the objects behind those of its subtrees.
unfoldable pub build_entries :
    (sha1 : Bytes → Bytes)
    → (Bytes → List Object → Built)
    → Bytes
    → List DirEnt
    → Bytes
    → List Object
    → Built
unfolding contains_nul_or_slash tree_entry mk_obj_ref add_hash
build_entries sha1 build dir [] buf objs =
    let ref = mk_obj_ref sha1 tree buf in ok (ref, add_hash ref tree buf objs)
build_entries sha1 build dir (e ∷ es) buf objs =
    let as_file = build_entries sha1 build dir es (buf ++ tree_entry e e.fi.git_hash) objs in
    let as_dir : Built = elim (build (dir ++ (e.base ++ (slash ∷ []))) objs) [
      | err d ↦ err (Error.wrap d)
      | ok (hash, objs') ↦ build_entries sha1 build dir es (buf ++ tree_entry e hash) objs'
    ] in
    if contains_nul_or_slash e.base then err other else if e.is_dir then as_dir else as_file

-- `buildTree`, on fuel for the depth of the tree; `other` also stands for the panic of `dirEnts`
unfoldable pub build_tree :
    (sha1 : Bytes → Bytes) → List (Bytes × FileInfo) → ℕ → Bytes → List Object → Built
unfolding dir_ents build_entries
build_tree sha1 f zero dir objs = err out_of_fuel
build_tree sha1 f (suc fuel) dir objs = elim (dir_ents dir f []) [
  | none ↦ err other
  | some ents ↦ build_entries sha1 (build_tree sha1 f fuel) dir ents [] objs
]
