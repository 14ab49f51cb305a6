-- ===== src/Nfs/Handles.antt =====
-- nfs.go and gomodfs.go: the handles of files. A handle is the pair of its two halves of 32 bytes.
-- SHA-256 and the store are parameters.
use gomodfs.Base.{
  ℕ, zero, suc, Bytes, codes, List, [], ◌∷◌, ◌++◌, Option, none, some, Bool, not, ◌&&◌,
  if◌then◌else◌, beq, take, is_empty, Cmd,
}
use gomodfs.Store.{ModuleVersion, no_mod_ver, Dirent, Escaper}
use gomodfs.Text.{slash}
use gomodfs.Paths.{GmPath, Seen, status_file, wk_tsgo_extracted, parse_path, split_segs, join_segs}
use gomodfs.Modules.Handles.{HandleTarget, HandleMaps, hash_mod_version}

-- `handle`, of which `[:sha256.Size]` and `[sha256.Size:]` are the parts
abbrev pub Handle : Type 0
Handle = Bytes × Bytes

unfoldable pub zeros : ℕ → Bytes
zeros zero = []
zeros (suc n) = 0 ∷ zeros n

abbrev pub zero_half : Bytes
zero_half = zeros 32

-- `mkWellKnownPathHash`: the text in an array of 32 bytes
unfoldable pub well_known_hash : Bytes → Bytes
unfolding zeros
well_known_hash s = take 32 (s ++ zeros 32)

-- `zeroHandle` and `statusHandle`
abbrev pub zero_handle : Handle
zero_handle = (zero_half, zero_half)

abbrev pub status_handle : Handle
status_handle = (well_known_hash (codes "STATUS"), zero_half)

unfoldable pub handle_eq : Handle → Handle → Bool
handle_eq a b = beq a.0 b.0 && beq a.1 b.1

-- the map `handle`
unfoldable pub target_of : List (Handle × HandleTarget) → Handle → Option HandleTarget
unfolding handle_eq
target_of [] h = none
target_of ((h', t) ∷ m) h = if handle_eq h' h then some t else target_of m h

-- the methods of the store that handles need
pub record Listings (W H : Type 0) : Type 0 where
  pub cached_modules : Cmd W (List ModuleVersion)
  pub get_zip_root : ModuleVersion → Cmd W H
  pub readdir : H → Bytes → Cmd W (List Dirent)

-- what the handles read and change of the server: the map `handle`, the maps of hashes, the table
-- of seen pairs, and the store
pub record Server (W : Type 0) : Type 0 where
  pub handles : List (Handle × HandleTarget)
  pub maps : Option HandleMaps
  pub seen : Seen
  pub world : W

-- `mkTargetFromPath`
abbrev pub target_at : Bytes → HandleTarget
target_at path = record { path = path; segs = split_segs path }

-- a lookup in `modVerHash`, with the zero value for a missing key, and one in `pathHashTarget`
unfoldable pub version_at : List (Bytes × ModuleVersion) → Bytes → ModuleVersion
version_at [] h = no_mod_ver
version_at ((h', mv) ∷ m) h = if beq h' h then mv else version_at m h

unfoldable pub path_target_at : List (Bytes × HandleTarget) → Bytes → Option HandleTarget
path_target_at [] h = none
path_target_at ((h', t) ∷ m) h = if beq h' h then some t else path_target_at m h

-- what became of a walk over the files of a module: the function it calls found a path, the walk
-- goes on, it stopped at an error, or the fuel ran out
pub data Walk : Type 0 where
  found : Bytes → Walk
  going : Walk
  stopped : Walk
  spent : Walk

abbrev pub sub_path : Bytes → Bytes → Bytes
sub_path path name = if is_empty path then name else path ++ (slash ∷ name)

-- the target is kept for a handle that has none, as the lookup in the map tells
abbrev pub noted : {W : Type 0} → Handle → HandleTarget → Option HandleTarget → Server W → Server W
noted h t (some u) s = s
noted h t none s = record s { handles = (h, t) ∷ s.handles }

module _ (sha256 : Bytes → Bytes) (esc : Escaper) where
  -- the first half of a handle: the hash of the module version, if there is one
  unfoldable pub mod_half : GmPath → Bytes
  unfolding zeros
  mod_half gm =
      if is_empty gm.mod_version.module_path
      then zero_half
      else hash_mod_version sha256 esc gm.mod_version

  -- the second half: the file in the module, or the path
  unfoldable pub file_half : GmPath → Bytes → Bytes
  unfolding well_known_hash beq
  file_half gm path_str =
      if beq gm.well_known wk_tsgo_extracted
      then well_known_hash gm.well_known
      else if not (is_empty gm.cache_download_file_ext)
      then well_known_hash gm.cache_download_file_ext
      else sha256 (if gm.in_zip then gm.path else path_str)

  -- the handle of a path that was parsed
  abbrev pub handle_for : GmPath → Bytes → Handle
  handle_for pp path_str = (mod_half pp, file_half pp path_str)

  -- `ToHandle` behind the parse
  unfoldable pub issue :
      {W : Type 0} → List Bytes → Bytes → GmPath → Server W → Option Handle × Server W
  unfolding target_of mod_half file_half
  issue path path_str pp s =
      let h = handle_for pp path_str in
      let t : HandleTarget = record { path = path_str; segs = path } in
      if pp.not_exist then (none, s) else (some h, noted h t (target_of s.handles h) s)

  -- `ToHandle` below the root; `none` is `notExistHandle`
  unfoldable pub path_handle : {W : Type 0} → List Bytes → Server W → Option Handle × Server W
  unfolding parse_path join_segs issue
  path_handle path s =
      let path_str = join_segs path in
      let (pp, seen) = parse_path esc s.seen path_str in
      issue path path_str pp (record s { seen = seen })

  -- `ToHandle`
  unfoldable pub to_handle : {W : Type 0} → List Bytes → Server W → Option Handle × Server W
  unfolding path_handle beq
  to_handle [] s = (some zero_handle, s)
  to_handle (p ∷ []) s =
      if beq p status_file then (some status_handle, s) else path_handle (p ∷ []) s
  to_handle (p ∷ q ∷ path) s = path_handle (p ∷ q ∷ path) s
