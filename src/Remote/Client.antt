-- ===== src/Remote/Client.antt =====
-- store/remotestore/remotestore.go: the store that asks a server. HTTP, LZ4 and JSON are
-- parameters. Calls run one after the other, so that `singleflight` runs its function.
pub mod Cache
use gomodfs.Base.{
  ℕ, Bytes, codes, List, [], ◌∷◌, ◌++◌, Option, none, some, Bool, true, false, ◌&&◌, ◌==◌,
  if◌then◌else◌, beq, is_empty, Error, Result, ok, err, Cmd, pure, fail, and_then, ◌>>=◌,
  cache_miss, is_dir, not_exist, read_only, other, wrap, map,
}
use gomodfs.Store.{ModuleVersion, mv_eq, Dirent, FileMode, dir, Escaper}
use gomodfs.Text.{path_base, dot}
use gomodfs.Remote.Protocol.{
  FileMeta, ModVersionMap, modmap_prefix, file_prefix, meta_prefix, mv_to_escaped_path,
}
use gomodfs.Remote.DirMap.{Dirs, find, build_dir_map}

-- `remoteModHandle`
pub record RemoteModHandle : Type 0 where
  pub mv : ModuleVersion
  pub files : ModVersionMap
  pub dirs : Dirs

-- an answer of the server: the status, whether Content-Encoding is lz4, and the body as it is read
pub record HttpResponse : Type 0 where
  pub status : ℕ
  pub lz4 : Bool
  pub body : Result Bytes

-- What the client is given: `Client.Do` on a URL, with or without the header for LZ4, over a state
-- of the network; the LZ4 reader, `json.Unmarshal`, and `url.QueryEscape`.
pub record Web (N : Type 0) : Type 0 where
  pub get : (accept_lz4 : Bool) → Bytes → N → Result HttpResponse × N
  pub decompress : Bytes → Result Bytes
  pub unmarshal : Bytes → Result ModVersionMap
  pub query_escape : Bytes → Bytes

-- `Store`: its caches, and the network
pub record Client (N : Type 0) : Type 0 where
  pub modmaps : List (ModuleVersion × RemoteModHandle)
  pub meta : List ((ModuleVersion × Bytes) × Bytes)
  pub net : N

unfoldable pub find_mv :
    ModuleVersion → List (ModuleVersion × RemoteModHandle) → Option RemoteModHandle
unfolding mv_eq
find_mv mv [] = none
find_mv mv ((k, h) ∷ m) = if mv_eq k mv then some h else find_mv mv m

unfoldable pub find_meta :
    ModuleVersion → Bytes → List ((ModuleVersion × Bytes) × Bytes) → Option Bytes
unfolding mv_eq
find_meta mv ext [] = none
find_meta mv ext (((k, x), v) ∷ m) = if mv_eq k mv && beq x ext then some v else find_meta mv ext m

-- `fmt.Errorf("… %w", err)`
abbrev pub wrapped : {A : Type 0} → Result A → Result A
wrapped (ok a) = ok a
wrapped (err e) = err (Error.wrap e)

abbrev pub keys_of : List (ModuleVersion × RemoteModHandle) → List ModuleVersion
keys_of [] = []
keys_of ((k, h) ∷ m) = k ∷ keys_of m

module _ {N : Type 0} (esc : Escaper) (web : Web N) (base_url : Bytes) (fuel : ℕ) where
  -- `CachedModules`
  unfoldable pub cached_modules : Cmd (Client N) (List ModuleVersion)
  cached_modules s = (ok (keys_of s.modmaps), s)

  abbrev pub with_net : {A : Type 0} → Client N → Result A × N → Result A × Client N
  with_net s (r, n) = (r, record s { net = n })

  unfoldable pub http_get : (accept_lz4 : Bool) → Bytes → Cmd (Client N) HttpResponse
  http_get accept_lz4 url s = with_net s (web.get accept_lz4 url s.net)

  abbrev pub lift : {A : Type 0} → Result A → Cmd (Client N) A
  lift r s = (r, s)

  unfoldable pub escaped : ModuleVersion → Cmd (Client N) Bytes
  escaped mv s = elim (mv_to_escaped_path esc mv) [ none ↦ (err other, s) | some p ↦ (ok p, s) ]

  -- a body is used only with status 200; 404 is the error `gone`
  unfoldable pub checked : Error → HttpResponse → Cmd (Client N) Bytes
  checked gone resp =
      if resp.status == 404
      then fail gone
      else if resp.status == 200
      then lift resp.body
      else fail other

  unfoldable pub decompressed : HttpResponse → Bytes → Cmd (Client N) Bytes
  decompressed resp body = if resp.lz4 then lift (wrapped (web.decompress body)) else pure body

  -- the handle is built and cached
  unfoldable pub cache_handle : ModuleVersion → ModVersionMap → Cmd (Client N) RemoteModHandle
  cache_handle mv files s = elim (build_dir_map fuel files) [
    | none ↦ (err Error.out_of_fuel, s)
    | some dirs ↦
        let h : RemoteModHandle = record { mv = mv; files = files; dirs = dirs } in
        (ok h, record s { modmaps = (mv, h) ∷ s.modmaps })
  ]

  unfoldable pub request_mod_map : ModuleVersion → Cmd (Client N) RemoteModHandle
  unfolding escaped http_get checked decompressed cache_handle
  request_mod_map mv = do
    path ← escaped mv
    resp ← http_get true (base_url ++ (modmap_prefix ++ path))
    body ← checked cache_miss resp
    json ← decompressed resp body
    files ← lift (wrapped (web.unmarshal json))
    cache_handle mv files

  -- `fetchModMap`, and `GetZipRoot`, which looks into the cache in the same way first
  unfoldable pub fetch_mod_map : ModuleVersion → Cmd (Client N) RemoteModHandle
  unfolding request_mod_map
  fetch_mod_map mv s = elim (find_mv mv s.modmaps) [
    | some h ↦ (ok h, s)
    | none ↦ request_mod_map mv s
  ]

  unfoldable pub get_zip_root : ModuleVersion → Cmd (Client N) RemoteModHandle
  unfolding fetch_mod_map find_mv
  get_zip_root mv s = elim (find_mv mv s.modmaps) [ some h ↦ (ok h, s) | none ↦ fetch_mod_map mv s ]

  -- `fetchMetaFile`
  unfoldable pub fetch_meta_file : ModuleVersion → Bytes → Cmd (Client N) Bytes
  unfolding escaped http_get checked
  fetch_meta_file mv ext = do
    path ← escaped mv
    resp ← http_get false (base_url ++ (meta_prefix ++ (path ++ (dot ∷ ext))))
    checked cache_miss resp

  abbrev pub cache_meta : ModuleVersion → Bytes → Bytes → Cmd (Client N) Bytes
  cache_meta mv ext v s = (ok v, record s { meta = ((mv, ext), v) ∷ s.meta })

  -- `getMetaFile`
  unfoldable pub get_meta_file : ModuleVersion → Bytes → Cmd (Client N) Bytes
  get_meta_file mv ext s = elim (find_meta mv ext s.meta) [
    | some v ↦ (ok v, s)
    | none ↦ (fetch_meta_file mv ext >>= cache_meta mv ext) s
  ]

  -- `GetInfoFile`, `GetModFile`, `GetZipHash`
  unfoldable pub get_info_file : ModuleVersion → Cmd (Client N) Bytes
  unfolding get_meta_file
  get_info_file mv = get_meta_file mv (codes "info")

  unfoldable pub get_mod_file : ModuleVersion → Cmd (Client N) Bytes
  unfolding get_meta_file
  get_mod_file mv = get_meta_file mv (codes "mod")

  unfoldable pub get_zip_hash : RemoteModHandle → Cmd (Client N) Bytes
  unfolding get_meta_file
  get_zip_hash h = get_meta_file h.mv (codes "ziphash")

  unfoldable pub request_file : RemoteModHandle → Bytes → Cmd (Client N) Bytes
  unfolding escaped http_get checked
  request_file h file_path = do
    path ← escaped h.mv
    resp ←
        http_get false
          (base_url ++ (file_prefix ++ (path ++ (codes "?path=" ++ web.query_escape file_path))))
    checked not_exist resp

  -- `GetFile`
  unfoldable pub get_file : RemoteModHandle → Bytes → Cmd (Client N) Bytes
  unfolding find
  get_file h file_path s = elim (find file_path h.files) [
    | some m ↦ request_file h file_path s
    | none ↦ elim (find file_path h.dirs) [
      | some ents ↦ (err is_dir, s)
      | none ↦ (err not_exist, s)
    ]
  ]

-- `remoteFileInfo`
pub record RemoteFileInfo : Type 0 where
  pub name : Bytes
  pub size : ℕ
  pub mode : FileMode

-- `Stat`; a directory's `Mode()` is `dir`
unfoldable pub stat : RemoteModHandle → Bytes → Result RemoteFileInfo
unfolding find
stat h [] = ok (record { name = dot ∷ []; size = 0; mode = dir })
stat h (c ∷ p) = elim (find (c ∷ p) h.files) [
  | some m ↦ ok (record { name = path_base (c ∷ p); size = m.size; mode = m.mode })
  | none ↦ elim (find (c ∷ p) h.dirs) [
    | some ents ↦ ok (record { name = path_base (c ∷ p); size = 0; mode = dir })
    | none ↦ err not_exist
  ]
]

-- `Readdir`
unfoldable pub readdir : RemoteModHandle → Bytes → Result (List Dirent)
unfolding find
readdir h dir_path = elim (find dir_path h.dirs) [
  | some ents ↦ ok ents
  | none ↦ if is_empty dir_path then ok [] else err not_exist
]

-- `PutModule`, `PutModFile` and `PutInfoFile` refuse
abbrev pub put_refused : {A : Type 0} → Result A
put_refused = err read_only
