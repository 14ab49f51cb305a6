-- ===== src/Modules/Tests.antt =====
-- The theorems on modules at a small world: a number that counts the requests to the network.
use gomodfs.Base.{
  panicked, ◌+◌, ℕ, zero, suc, ◌≡◌, Bytes, codes, List, [], ◌∷◌, none, some, true, false, refl, beq,
  every, Result, ok, err, cache_miss, other, is_cache_miss, not_exist,
}
use gomodfs.Store.{mod_ver, ModuleVersion, mv_eq, perm}
use gomodfs.Store.Plain.{plain, plain_of, path_byte, plain_byte}
use gomodfs.Text.{trim_suffix, cut_suffix, cut_prefix, cut}
use gomodfs.Modules.{
  PutFile, StoreOps, Libraries, Config, net_slurp, mod_url_bases, module_proxy_urls,
}
use gomodfs.Modules.Files.{go_mod_dir, contains, go_mod, put_files, tar_files}
use gomodfs.Modules.Handles.{Fs, ZipRootCache, get_zip_root_cached, note_module_version}
use gomodfs.Modules.Fetch.{
  download_meta_file, get_meta_file_by_ext, get_zip_root, find_root, cache_root, find_zip_root,
  checked_toolchain, is_tsgo_version, split_tsgo, get_tailscale_go_root, fill_tsgo, try_proxies,
}
use gomodfs.Modules.Proxies.{FirstServed, download_meta_file-FirstServed}
use gomodfs.Modules.ReadOnly.{ReadsKeep, get_meta_file_by_ext-read_only}
use gomodfs.Lru.{Cache, Heap}
use gomodfs.Lru.Runs.{empty_cache}
use gomodfs.Modules.Contents.{PathKey}
use gomodfs.Modules.Contents.Reads.{read_paths, files_of, read_paths-files}
use gomodfs.Modules.Cached.{IsTouched, now, passed, get_zip_root-again}

-- a store that misses everything, and takes what is put
abbrev missing_store : StoreOps ℕ (Unit {0})
missing_store = record {
  get_zip_root = λ mv w. (err cache_miss, w);
  get_mod_file = λ mv w. (err cache_miss, w);
  get_info_file = λ mv w. (err cache_miss, w);
  get_zip_hash = λ h w. (ok (codes "h1:x"), w);
  stat = λ h p w. (err not_exist, w);
  put_module = λ mv d w. (ok tt, w);
  put_mod_file = λ mv d w. (ok tt, w);
  put_info_file = λ mv d w. (ok tt, w);
}

-- a store that has every module
abbrev full_store : StoreOps ℕ (Unit {0})
full_store = record missing_store { get_zip_root = λ mv w. (ok tt, w) }

-- a network whose first request is answered with 404, and the others with 200
abbrev answer : ℕ → Result (ℕ × Result Bytes)
answer zero = ok (404, ok [])
answer (suc n) = ok (200, ok (codes "module x"))

abbrev flaky : Libraries ℕ
flaky = record {
  http_get = λ url w. (answer w, suc w);
  open_zip = λ b. err other;
  hash1 = λ fs. err other;
  gunzip = λ b. ok b;
  untar = λ b. [];
  sha256 = λ b. b;
  now = λ w. 100 + w;
}

abbrev two_proxies : Config
two_proxies = record {
  module_proxy_url = [];
  module_proxy_urls = codes "http://a/" ∷ codes "http://b" ∷ [];
  read_only = false;
}

abbrev reading : Config
reading = record two_proxies { read_only = true }

abbrev mem : ModuleVersion
mem = mod_ver (codes "go4.org/mem") (codes "v0.0.0")

abbrev mem_urls : List Bytes
mem_urls = codes "http://a/go4.org/mem/@v/v0.0.0" ∷ codes "http://b/go4.org/mem/@v/v0.0.0" ∷ []

program : Unit {0}
unfolding trim_suffix cut_suffix cut_prefix cut beq mv_eq plain_of path_byte plain_byte every
    net_slurp mod_url_bases module_proxy_urls go_mod_dir go_mod contains try_proxies
    download_meta_file is_cache_miss get_zip_root_cached note_module_version get_zip_root find_root
    put_files cache_root find_zip_root checked_toolchain split_tsgo get_tailscale_go_root fill_tsgo
    tar_files
program = tt

mem_bases : mod_url_bases plain two_proxies mem ≡ ok mem_urls
unfolding program
mem_bases = refl

downloaded :
    download_meta_file plain two_proxies missing_store flaky mem
      (codes "mod")
      (λ mv d w. (ok tt, w))
      0
    ≡ (ok (codes "module x"), 2)
unfolding program
downloaded = refl

download_meta_file-FirstServed_example :
    (w' : ℕ) × FirstServed flaky (codes "mod") mem_urls 0 (codes "module x") w'
    × ◌≡◌ {A = Result (Unit {0}) × ℕ} (ok tt, w') (ok tt, 2)
download_meta_file-FirstServed_example =
    download_meta_file-FirstServed plain two_proxies missing_store flaky mem (codes "mod")
      (λ mv d w. (ok tt, w)) mem_urls 0 2 (codes "module x") mem_bases downloaded

abbrev new_fs : Fs ℕ (Unit {0})
new_fs = record { maps = none; zip_root_cache = []; world = 0 }

-- at the time 100, and five seconds later
abbrev fs_with_mem : Fs ℕ (Unit {0})
fs_with_mem = record new_fs { zip_root_cache = (mem, record { h = tt; last_used = 100 }) ∷ [] }

abbrev fs_later : Fs ℕ (Unit {0})
fs_later = record fs_with_mem { world = 5 }

mem_root : get_zip_root plain two_proxies full_store flaky mem new_fs ≡ (ok tt, fs_with_mem)
unfolding program
mem_root = refl

get_zip_root-again_example :
    (m : ZipRootCache (Unit {0})) × (get_zip_root plain two_proxies full_store flaky mem fs_later
      ≡ (ok tt, record fs_later { zip_root_cache = m }))
    × IsTouched 105 mem tt fs_later.zip_root_cache m
get_zip_root-again_example =
    get_zip_root-again plain two_proxies full_store flaky mem tt new_fs fs_with_mem fs_later
      mem_root (passed fs_with_mem now none 5)

quiet : ReadsKeep missing_store (λ w. w ≡ 0)
quiet = record {
  get_zip_root = λ mv w i. i;
  get_mod_file = λ mv w i. i;
  get_info_file = λ mv w i. i;
  get_zip_hash = λ h w i. i;
}

mem_not_tsgo : is_tsgo_version plain reading missing_store flaky mem ≡ false
unfolding program
mem_not_tsgo = refl

get_meta_file_by_ext-read_only_example :
    (get_meta_file_by_ext plain reading missing_store flaky mem (codes "mod") new_fs).1.world ≡ 0
get_meta_file_by_ext-read_only_example =
    get_meta_file_by_ext-read_only plain reading missing_store flaky (λ w. w ≡ 0) refl quiet mem
      (codes "mod") new_fs mem_not_tsgo refl

-- a Tailscale Go toolchain is asked for over the network with `ReadOnly`, too
tsgo_requests :
    (find_root plain reading missing_store flaky
      (mod_ver (codes "github.com/tailscale/go") (codes "tsgo-linux-amd64-00"))
      0).1
    ≡ 1
unfolding program
tsgo_requests = refl

abbrev go_mod_file : PutFile
go_mod_file = record { path = codes "src/_go.mod"; size = 0; mode = perm 420; content = ok [] }

-- the name of a file in a zip that is shorter than the module and its version
short_name_panics :
    put_files mem
      (record { name = codes "go4.org/mem@"; size = 0; mode = perm 420; content = ok [] } ∷ [])
    ≡ err panicked
unfolding program
short_name_panics = refl

mem_file :
    put_files mem (
      record {
        name = codes "go4.org/mem@v0.0.0/_go.mod";
        size = 0;
        mode = perm 420;
        content = ok [];
      }
      ∷ [])
    ≡ ok (record go_mod_file { path = codes "_go.mod" } ∷ [])
unfolding program
mem_file = refl

-- a store whose files have their paths as contents, but for the empty path
abbrev path_files : PathKey → Result Bytes
path_files (mv, []) = err not_exist
path_files (mv, c ∷ p) = ok (c ∷ p)

abbrev no_paths : Heap PathKey Bytes
no_paths = record {
  prev = λ a. 0;
  next = λ a. 0;
  key = λ a. (mod_ver [] [], []);
  value = λ a. [];
  fresh = 1;
}

abbrev some_reads : List PathKey
some_reads =
    (mod_ver (codes "m") (codes "v1"), codes "a")
    ∷ (mod_ver (codes "m") (codes "v1"), [])
    ∷ (mod_ver (codes "m") (codes "v2"), codes "bc")
    ∷ (mod_ver (codes "m") (codes "v1"), codes "a")
    ∷ []

read_paths-files_example :
    (c' : Cache PathKey Bytes) × (read_paths 2 path_files some_reads (empty_cache none 0 no_paths)
      ≡ some (files_of 2 path_files some_reads, c'))
read_paths-files_example = read_paths-files 2 path_files some_reads no_paths
