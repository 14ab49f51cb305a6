-- ===== src/Remote/Handler.antt =====
-- store/remotestore/handler.go: the HTTP handler over a backend. Its cache of compressed maps is an
-- LRU cache of another repository, JSON and LZ4 are libraries: they are parameters.
use gomodfs.Base.{
  ℕ, zero, suc, Bytes, codes, List, [], ◌∷◌, ◌++◌, Option, none, some, Bool, true, false, ◌||◌,
  ◌&&◌, ◌==◌, leb, if◌then◌else◌, beq, is_empty, Error, Result, ok, err, Cmd, pure, fail, ◌>>=◌,
  is_cache_miss, is_not_exist, out_of_fuel, map, ◌+◌,
}
use mathlib.Core.List.{reverse}
use gomodfs.Store.{ModuleVersion, Dirent, is_dir, Escaper}
use gomodfs.Text.{split, cut_or_whole, slash}
use gomodfs.Remote.Protocol.{
  FileMeta, ModVersionMap, modmap_prefix, file_prefix, meta_prefix, parse_mv_from_path,
}

-- `FSBackend`, with the methods of its store that the handler calls; `W` is the state behind it and
-- `H` its module handles.
pub record Backend (W H : Type 0) : Type 0 where
  pub get_zip_root_or_download : ModuleVersion → Cmd W H
  pub get_meta_file_by_ext : ModuleVersion → Bytes → Cmd W Bytes
  pub readdir : H → Bytes → Cmd W (List Dirent)
  pub get_file : H → Bytes → Cmd W Bytes

-- the cache, `json.Marshal` and the LZ4 writer
pub record Codec (C : Type 0) : Type 0 where
  pub lookup : ModuleVersion → C → Option Bytes × C
  pub insert : ModuleVersion → Bytes → C → C
  pub marshal : ModVersionMap → Result Bytes
  pub compress : Bytes → Result Bytes

-- what is written to the client: an error with its status, or a body and whether it is compressed
pub data Response : Type 0 where
  error : ℕ → Response
  success : (lz4 : Bool) → Bytes → Response

abbrev pub bad_request : ℕ
bad_request = 400

abbrev pub not_found : ℕ
not_found = 404

abbrev pub not_acceptable : ℕ
not_acceptable = 406

abbrev pub internal_server_error : ℕ
internal_server_error = 500

-- the status of an error that may be a cache miss
unfoldable pub miss_status : Error → Response
unfolding is_cache_miss
miss_status e = if is_cache_miss e then error not_found else error internal_server_error

-- a write to the map under a name: the entry of that name is replaced
unfoldable pub put_meta : Bytes → FileMeta → ModVersionMap → ModVersionMap
put_meta name m [] = (name, m) ∷ []
put_meta name m ((n, m') ∷ fmap) =
    if beq n name then (name, m) ∷ fmap else (n, m') ∷ put_meta name m fmap

unfoldable pub child_name : Bytes → Bytes → Bytes
child_name dir name = if is_empty dir then name else dir ++ (slash ∷ name)

module _ {W H : Type 0} (b : Backend W H) where
  -- the loop of `walkFiles` over the entries of a directory; `walk` is the recursive call
  unfoldable pub walk_entries :
      (Bytes → ModVersionMap → Cmd W ModVersionMap)
      → Bytes
      → List Dirent
      → ModVersionMap
      → Cmd W ModVersionMap
  unfolding put_meta child_name
  walk_entries walk dir [] fmap = pure fmap
  walk_entries walk dir (ent ∷ ents) fmap =
      let name = child_name dir ent.name in
      let go_down = walk name fmap >>= λ fmap'. walk_entries walk dir ents fmap' in
      let add_file =
        walk_entries walk dir ents
          (put_meta name (record { size = ent.size; mode = ent.mode }) fmap) in
      if is_dir ent.mode then go_down else add_file

  -- `walkFiles`, on fuel for the depth of the tree
  unfoldable pub walk_files : ℕ → H → Bytes → ModVersionMap → Cmd W ModVersionMap
  unfolding walk_entries
  walk_files zero mh dir fmap = fail out_of_fuel
  walk_files (suc fuel) mh dir fmap =
      b.readdir mh dir >>= λ ents. walk_entries (walk_files fuel mh) dir ents fmap

-- `strings.TrimSpace` of an ASCII text
abbrev pub is_space : ℕ → Bool
is_space c = c == 32 || (leb 9 c && leb c 13)

unfoldable pub skip_space : Bytes → Bytes
skip_space [] = []
skip_space (c ∷ s) = let rest = skip_space s in if is_space c then rest else c ∷ s

unfoldable pub trim_space : Bytes → Bytes
unfolding skip_space
trim_space s = reverse (skip_space (reverse (skip_space s)))

abbrev pub to_lower : ℕ → ℕ
to_lower c = if leb b'A' c && leb c b'Z' then c + 32 else c

-- one element of the Accept-Encoding header: `strings.EqualFold(…, "lz4")` on its encoding
unfoldable pub is_lz4 : Bytes → Bool
unfolding trim_space beq cut_or_whole
is_lz4 v = beq (map to_lower (trim_space (cut_or_whole (trim_space v) (b';' ∷ [])).0)) (codes "lz4")

unfoldable pub any_lz4 : List Bytes → Bool
unfolding is_lz4
any_lz4 [] = false
any_lz4 (v ∷ vs) = is_lz4 v || any_lz4 vs

-- `acceptsLZ4`, of the value of the Accept-Encoding header
unfoldable pub accepts_lz4 : Bytes → Bool
unfolding any_lz4 split
accepts_lz4 header = any_lz4 (split header b',')

module _ {W H C : Type 0} (esc : Escaper) (b : Backend W H) (codec : Codec C) (fuel : ℕ) where
  abbrev pub served : Result Bytes × W → C → Response × (W × C)
  served (ok body, w) c = (success false body, (w, c))
  served (err e, w) c = (miss_status e, (w, c))

  -- `handleMeta`
  unfoldable pub handle_meta : Bytes → W × C → Response × (W × C)
  handle_meta url_path (w, c) = elim (parse_mv_from_path esc url_path meta_prefix) [
    | none ↦ (error bad_request, (w, c))
    | some (mv, ext) ↦ served (b.get_meta_file_by_ext mv ext w) c
  ]

  abbrev pub file_served : Result Bytes × W → C → Response × (W × C)
  file_served (ok body, w) c = (success false body, (w, c))
  file_served (err e, w) c =
      (if is_not_exist e then error not_found else error internal_server_error, (w, c))

  abbrev pub file_of_root : Result H × W → Bytes → C → Response × (W × C)
  file_of_root (err e, w) file_path c = (miss_status e, (w, c))
  file_of_root (ok mh, w) file_path c = file_served (b.get_file mh file_path w) c

  -- `handleFile`, of the URL path and the query parameter "path"
  unfoldable pub handle_file : Bytes → Bytes → W × C → Response × (W × C)
  handle_file url_path file_path (w, c) = elim (parse_mv_from_path esc url_path file_prefix) [
    | none ↦ (error bad_request, (w, c))
    | some (mv, ext) ↦
        if is_empty file_path
        then (error bad_request, (w, c))
        else file_of_root (b.get_zip_root_or_download mv w) file_path c
  ]

  -- the map is encoded, compressed, cached and sent
  abbrev pub send_modmap : ModuleVersion → Result ModVersionMap × W → C → Response × (W × C)
  send_modmap mv (err e, w) c = (error internal_server_error, (w, c))
  send_modmap mv (ok fmap, w) c = elim (codec.marshal fmap) [
    | err e ↦ (error internal_server_error, (w, c))
    | ok json ↦ elim (codec.compress json) [
      | err e ↦ (error internal_server_error, (w, c))
      | ok compressed ↦ (success true compressed, (w, codec.insert mv compressed c))
    ]
  ]

  abbrev pub modmap_of_root : ModuleVersion → Result H × W → C → Response × (W × C)
  modmap_of_root mv (err e, w) c = (miss_status e, (w, c))
  modmap_of_root mv (ok mh, w) c = send_modmap mv (walk_files b fuel mh [] [] w) c

  abbrev pub cached_modmap : ModuleVersion → Option Bytes × C → W → Response × (W × C)
  cached_modmap mv (some body, c) w = (success true body, (w, c))
  cached_modmap mv (none, c) w = modmap_of_root mv (b.get_zip_root_or_download mv w) c

  -- `handleModMap`, of the URL path and the value of the Accept-Encoding header
  unfoldable pub handle_mod_map : Bytes → Bytes → W × C → Response × (W × C)
  handle_mod_map url_path accept_encoding (w, c) =
      elim (parse_mv_from_path esc url_path modmap_prefix) [
        | none ↦ (error bad_request, (w, c))
        | some (mv, ext) ↦
            if accepts_lz4 accept_encoding
            then cached_modmap mv (codec.lookup mv c) w
            else (error not_acceptable, (w, c))
      ]
