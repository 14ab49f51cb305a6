-- ===== src/Modules/Fetch.antt =====
-- gomodfs.go and tsgo.go: downloads, module handles and metadata files.
use gomodfs.Base.{
  Bytes, codes, List, [], ◌∷◌, ◌++◌, Option, none, some, Bool, ◌&&◌, not, if◌then◌else◌, beq, Error,
  Result, ok, err, Cmd, pure, ◌>>=◌, is_cache_miss, is_not_exist, join_errors, cache_miss, eio,
  other, out_of_fuel,
}
use gomodfs.Store.{ModuleVersion, mod_ver, Escaper}
use gomodfs.Text.{cut_prefix, has_prefix, cut, dot}
use gomodfs.Modules.{PutModuleData, StoreOps, Libraries, Config, mod_url_bases, net_slurp}
use gomodfs.Modules.Files.{add_toolchain_go_mods, put_files, tar_files}
use gomodfs.Modules.Handles.{Fs, get_zip_root_cached, note_module_version}

-- `errors.Join` of the errors of all proxies, as the error that is returned with no result. The
-- proxies are never none, so that there is an error to return.
abbrev pub all_failed : List Error → Error
all_failed errs = elim (join_errors errs) [ none ↦ other | some e ↦ e ]

-- the three files of a module version
pub record Download : Type 0 where
  pub zip : Bytes
  pub info : Bytes
  pub mod_file : Bytes

abbrev pub toolchain_module : Bytes
toolchain_module = codes "golang.org/toolchain"

abbrev pub tailscale_go : Bytes
tailscale_go = codes "github.com/tailscale/go"

-- `strings.SplitN(version, "-", 4)`, when it has four parts: the last three
unfoldable pub split_tsgo : Bytes → Option (Bytes × Bytes × Bytes)
unfolding cut
split_tsgo version = elim (cut version (b'-' ∷ [])) [
  | none ↦ none
  | some (tsgo, rest) ↦ elim (cut rest (b'-' ∷ [])) [
    | none ↦ none
    | some (goos, rest') ↦ elim (cut rest' (b'-' ∷ [])) [
      | none ↦ none
      | some (goarch, hash) ↦ some (goos, goarch, hash)
    ]
  ]
]

module _ {W H : Type 0} (esc : Escaper) (conf : Config) (store : StoreOps W H)
    (libs : Libraries W) where
  abbrev pub stored : Bytes → Result (Unit {0}) × W → Result Bytes × W
  stored bytes (ok u, w) = (ok bytes, w)
  stored bytes (err e, w) = (err (Error.wrap e), w)

  -- the loop of `downloadMetaFile` over the proxies; `errs` are the errors so far
  unfoldable pub try_proxies :
      Bytes → (Bytes → Cmd W (Unit {0})) → List Error → List Bytes → Cmd W Bytes
  unfolding net_slurp join_errors
  try_proxies ext put errs [] w = (err (all_failed errs), w)
  try_proxies ext put errs (url ∷ urls) w =
      let (r, w') = net_slurp libs (url ++ (dot ∷ ext)) w in
      elim r [
        | err e ↦ try_proxies ext put (errs ++ (Error.wrap e ∷ [])) urls w'
        | ok bytes ↦ stored bytes (put bytes w')
      ]

  -- `downloadMetaFile`
  unfoldable pub download_meta_file :
      ModuleVersion → Bytes → (ModuleVersion → Bytes → Cmd W (Unit {0})) → Cmd W Bytes
  unfolding mod_url_bases try_proxies
  download_meta_file mv ext put w = elim (mod_url_bases esc conf mv) [
    | err e ↦ (err e, w)
    | ok urls ↦ try_proxies ext (put mv) [] urls w
  ]

  -- `downloadZipSet`
  unfoldable pub download_zip_set : Bytes → Cmd W Download
  unfolding net_slurp
  download_zip_set url = do
    zip ← net_slurp libs (url ++ codes ".zip")
    info ← net_slurp libs (url ++ codes ".info")
    mod_file ← net_slurp libs (url ++ codes ".mod")
    pure (record { zip = zip; info = info; mod_file = mod_file })

  -- the loop of `downloadZip` over the proxies
  unfoldable pub first_zip_set : List Error → List Bytes → Cmd W Download
  unfolding download_zip_set join_errors
  first_zip_set errs [] w = (err (all_failed errs), w)
  first_zip_set errs (url ∷ urls) w =
      let (r, w') = download_zip_set url w in
      elim r [
        | err e ↦ first_zip_set (errs ++ (Error.wrap e ∷ [])) urls w'
        | ok download ↦ (ok download, w')
      ]

  -- what `downloadZip` puts into the store
  unfoldable pub module_data : ModuleVersion → Download → Result PutModuleData
  unfolding add_toolchain_go_mods put_files
  module_data mv download = elim (libs.open_zip download.zip) [
    | err e ↦ err (Error.wrap e)
    | ok zr ↦ elim (libs.hash1 zr) [
      | err e ↦ err (Error.wrap e)
      | ok hash ↦ elim (put_files mv zr) [
        | err e ↦ err e
        | ok files ↦ ok (record {
          info_file = some download.info;
          mod_file = some download.mod_file;
          zip_hash = some hash;
          files =
              if beq mv.module_path toolchain_module then add_toolchain_go_mods files else files;
        })
      ]
    ]
  ]

  abbrev pub lift : {A : Type 0} → Result A → Cmd W A
  lift r w = (r, w)

  -- `downloadZip`
  unfoldable pub download_zip : ModuleVersion → Cmd W H
  unfolding mod_url_bases first_zip_set module_data
  download_zip mv = do
    urls ← lift (mod_url_bases esc conf mv)
    download ← first_zip_set [] urls
    put ← lift (module_data mv download)
    store.put_module mv put

  -- `fmt.Errorf("… %w", err)`
  abbrev pub wrapped : {A : Type 0} → Result A × W → Result A × W
  wrapped (ok a, w) = (ok a, w)
  wrapped (err e, w) = (err (Error.wrap e), w)

  -- the download of `getTailscaleGoRoot`
  unfoldable pub fill_tsgo : ModuleVersion → Bytes → Cmd W H
  unfolding net_slurp tar_files
  fill_tsgo mv url = do
    tgz ← λ w. wrapped (net_slurp libs url w)
    tar ← λ w. wrapped (libs.gunzip tgz, w)
    files ← lift (tar_files (libs.untar tar))
    store.put_module mv
        (record { info_file = none; mod_file = none; zip_hash = none; files = files })

  -- `getTailscaleGoRoot`
  unfoldable pub get_tailscale_go_root : Bytes → Bytes → Bytes → Cmd W H
  unfolding is_cache_miss fill_tsgo
  get_tailscale_go_root goos goarch hash w =
      let mv =
        mod_ver tailscale_go (codes "tsgo-" ++ (goos ++ (b'-' ∷ (goarch ++ (b'-' ∷ hash))))) in
      let url =
        codes "https://github.com/tailscale/go/releases/download/build-"
        ++ (hash ++ (b'/' ∷ (goos ++ (b'-' ∷ (goarch ++ codes ".tar.gz"))))) in
      let (r, w') = store.get_zip_root mv w in
      elim r [
        | ok h ↦ (ok h, w')
        | err e ↦ if is_cache_miss e then fill_tsgo mv url w' else (err e, w')
      ]

  -- a toolchain whose copy of go.mod is not there counts as a cache miss
  unfoldable pub checked_toolchain : ModuleVersion → Result H × W → Result H × W
  unfolding beq is_not_exist
  checked_toolchain mv (err e, w) = (err e, w)
  checked_toolchain mv (ok root, w) =
      let stat = store.stat root (codes "src/go.mod") w in
      if beq mv.module_path toolchain_module && not conf.read_only
      then (let (r, w') = stat in
          elim r [
            | ok u ↦ (ok root, w')
            | err e ↦ (if is_not_exist e then err cache_miss else ok root, w')
          ])
      else (ok root, w)

  -- a module root that the cache of handles does not have
  unfoldable pub find_zip_root : ModuleVersion → Cmd W H
  unfolding checked_toolchain is_cache_miss download_zip
  find_zip_root mv w =
      let (r, w') = checked_toolchain mv (store.get_zip_root mv w) in
      elim r [
        | ok root ↦ (ok root, w')
        | err e ↦
            if is_cache_miss e
            then if conf.read_only then (err cache_miss, w') else download_zip mv w'
            else (err (Error.wrap e), w')
      ]

  abbrev pub is_tsgo_version : ModuleVersion → Bool
  is_tsgo_version mv = beq mv.module_path tailscale_go && has_prefix mv.version (codes "tsgo-")

  unfoldable pub find_root : ModuleVersion → Cmd W H
  unfolding find_zip_root split_tsgo get_tailscale_go_root cut_prefix
  find_root mv w =
      let tsgo : Result H × W = elim (split_tsgo mv.version) [
        | none ↦ (err other, w)
        | some (goos, goarch, hash) ↦ wrapped (get_tailscale_go_root goos goarch hash w)
      ] in
      if is_tsgo_version mv then tsgo else find_zip_root mv w

  -- `setZipRootCache`, on a root that was found
  unfoldable pub cache_root : ModuleVersion → Fs W H → Result H × W → Result H × Fs W H
  unfolding note_module_version
  cache_root mv s (err e, w) = (err e, record s { world = w })
  cache_root mv s (ok h, w) = elim (note_module_version libs.sha256 esc mv s.maps) [
    | none ↦ (err out_of_fuel, record s { world = w })
    | some maps ↦ (
      ok h,
      record {
        maps = maps;
        zip_root_cache = (mv, record { h = h; last_used = libs.now w }) ∷ s.zip_root_cache;
        world = w;
      },
    )
  ]

  -- `getZipRoot`
  unfoldable pub get_zip_root : ModuleVersion → Cmd (Fs W H) H
  unfolding get_zip_root_cached find_root cache_root
  get_zip_root mv s = elim (get_zip_root_cached (libs.now s.world) mv s.zip_root_cache) [
    | some (h, cache) ↦ (ok h, record s { zip_root_cache = cache })
    | none ↦ cache_root mv s (find_root mv s.world)
  ]

  abbrev pub as_eio : Result Bytes × W → Result Bytes × W
  as_eio (ok v, w) = (ok v, w)
  as_eio (err e, w) = (err eio, w)

  -- `getMetaFile`
  unfoldable pub get_meta_file : Cmd W Bytes → Cmd W Bytes → Cmd W Bytes
  unfolding is_cache_miss
  get_meta_file get_from_store download_and_fill w =
      let (r, w') = get_from_store w in
      elim r [
        | ok v ↦ (ok v, w')
        | err e ↦
            if is_cache_miss e
            then if conf.read_only then (err cache_miss, w') else as_eio (download_and_fill w')
            else (err (Error.wrap e), w')
      ]

  abbrev pub on_world : {A : Type 0} → Fs W H → Result A × W → Result A × Fs W H
  on_world s (r, w) = (r, record s { world = w })

  -- `getModFile` and `getInfoFile`
  unfoldable pub get_mod_file : ModuleVersion → Cmd W Bytes
  unfolding get_meta_file download_meta_file
  get_mod_file mv =
      get_meta_file (store.get_mod_file mv) (download_meta_file mv (codes "mod") store.put_mod_file)

  unfoldable pub get_info_file : ModuleVersion → Cmd W Bytes
  unfolding get_meta_file download_meta_file
  get_info_file mv =
      get_meta_file (store.get_info_file mv)
        (download_meta_file mv (codes "info") store.put_info_file)

  -- `getZiphash`
  unfoldable pub get_ziphash : ModuleVersion → Cmd (Fs W H) Bytes
  unfolding get_zip_root
  get_ziphash mv = get_zip_root mv >>= λ zr s. on_world s (store.get_zip_hash zr s.world)

  -- `getMetaFileByExt`
  unfoldable pub get_meta_file_by_ext : ModuleVersion → Bytes → Cmd (Fs W H) Bytes
  unfolding beq get_mod_file get_info_file get_ziphash
  get_meta_file_by_ext mv ext s =
      if beq ext (codes "mod")
      then on_world s (get_mod_file mv s.world)
      else if beq ext (codes "ziphash")
      then get_ziphash mv s
      else if beq ext (codes "info")
      then on_world s (get_info_file mv s.world)
      else (err other, s)
