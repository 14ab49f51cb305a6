-- ===== src/Modules.antt =====
-- gomodfs.go and tsgo.go: how a file system gets its modules, from the store, or from the module
-- proxies into the store. The store, HTTP, zip, tar, SHA-256 and the clock are parameters; calls
-- run one after the other, so that `singleflight` runs its function; spans and logs are left out.
pub mod Files
pub mod Handles
pub mod Fetch
pub mod Proxies
pub mod ReadOnly
pub mod Cached
pub mod Copies
pub mod Contents
mod Tests
use gomodfs.Base.{
  ℕ, Bytes, codes, List, [], ◌∷◌, ◌++◌, Option, none, some, Bool, true, false, ◌==◌, if◌then◌else◌,
  is_empty, Error, Result, ok, err, Cmd, other, map,
}
use gomodfs.Store.{ModuleVersion, FileMode, Escaper}
use gomodfs.Text.{trim_suffix, slash}

-- `store.PutFile`: a path, a size, a mode, and what opening and reading it gives
pub record PutFile : Type 0 where
  pub path : Bytes
  pub size : ℕ
  pub mode : FileMode
  pub content : Result Bytes

-- `store.PutModuleData`; `none` is nil
pub record PutModuleData : Type 0 where
  pub info_file : Option Bytes
  pub mod_file : Option Bytes
  pub zip_hash : Option Bytes
  pub files : List PutFile

-- the methods of `store.Store` that these functions call; `W` is the state behind them and `H` the
-- type of module handles. `Stat` only tells whether there is an error.
pub record StoreOps (W H : Type 0) : Type 0 where
  pub get_zip_root : ModuleVersion → Cmd W H
  pub get_mod_file : ModuleVersion → Cmd W Bytes
  pub get_info_file : ModuleVersion → Cmd W Bytes
  pub get_zip_hash : H → Cmd W Bytes
  pub stat : H → Bytes → Cmd W (Unit {0})
  pub put_module : ModuleVersion → PutModuleData → Cmd W H
  pub put_mod_file : ModuleVersion → Bytes → Cmd W (Unit {0})
  pub put_info_file : ModuleVersion → Bytes → Cmd W (Unit {0})

-- a file of a zip, and an entry of a tar file: its name, mode and what reading it gives
pub record ArchiveFile : Type 0 where
  pub name : Bytes
  pub size : ℕ
  pub mode : FileMode
  pub content : Result Bytes

-- HTTP, whose answer is a status and a body as it is read; `zip.NewReader`, `dirhash.Hash1` of the
-- files of a zip, gzip and tar up to the first error, SHA-256, and `time.Now().Unix()`
pub record Libraries (W : Type 0) : Type 0 where
  pub http_get : Bytes → Cmd W (ℕ × Result Bytes)
  pub open_zip : Bytes → Result (List ArchiveFile)
  pub hash1 : List ArchiveFile → Result Bytes
  pub gunzip : Bytes → Result Bytes
  pub untar : Bytes → List (Result ArchiveFile)
  pub sha256 : Bytes → Bytes
  pub now : W → ℕ

-- the configuration: fields of `FS`
pub record Config : Type 0 where
  pub module_proxy_url : Bytes
  pub module_proxy_urls : List Bytes
  pub read_only : Bool

abbrev trim_slash : Bytes → Bytes
trim_slash u = trim_suffix u (slash ∷ [])

-- `moduleProxyURLs`
unfoldable pub module_proxy_urls : Config → List Bytes
unfolding trim_suffix
module_proxy_urls conf =
    let one =
      if is_empty conf.module_proxy_url
      then codes "https://proxy.golang.org" ∷ []
      else trim_slash conf.module_proxy_url ∷ [] in
    if is_empty conf.module_proxy_urls then one else map trim_slash conf.module_proxy_urls

-- `modURLBases`
unfoldable pub mod_url_bases : Escaper → Config → ModuleVersion → Result (List Bytes)
unfolding module_proxy_urls
mod_url_bases esc conf mv = elim (esc.escape_path mv.module_path) [
  | none ↦ err other
  | some esc_mod ↦ elim (esc.escape_version mv.version) [
    | none ↦ err other
    | some esc_ver ↦
        ok (
          map (λ p. p ++ (slash ∷ (esc_mod ++ (codes "/@v/" ++ esc_ver)))) (module_proxy_urls conf))
  ]
]

-- `netSlurp`
unfoldable pub net_slurp : {W : Type 0} → Libraries W → Bytes → Cmd W Bytes
net_slurp libs url w =
    let (r, w') = libs.http_get url w in
    elim r [
      | err e ↦ (err (Error.wrap e), w')
      | ok (status, body) ↦ if status == 200 then (body, w') else (err other, w')
    ]
