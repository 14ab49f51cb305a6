-- ===== src/Remote/Tests.antt =====
-- The theorems on the remote store at one module.
use gomodfs.Base.{
  ◌≡◌, Bytes, codes, [], ◌∷◌, none, some, true, refl, beq, every, ok, err, is_cache_miss, not_exist,
}
use gomodfs.Store.{mod_ver, ModuleVersion, mv_eq}
use gomodfs.Store.Plain.{plain, plain-IsEscaper, plain_of, path_byte, plain_byte}
use gomodfs.Text.{cut, cut_prefix, trim_prefix, split, cut_or_whole}
use gomodfs.Paths.{info, ext_name}
use gomodfs.Remote.Protocol.{
  parse_mv_from_path, mv_to_escaped_path, modmap_prefix, file_prefix, meta_prefix, cut_last_dot,
  last_dot, split_ext, unescape_mv,
}
use gomodfs.Remote.Protocol.RoundTrip.{parse_mv_from_path-escaped, parse_mv_from_path-meta}
use gomodfs.Remote.Handler.{
  Backend, Codec, handle_meta, miss_status, accepts_lz4, any_lz4, is_lz4, trim_space, skip_space,
}
use gomodfs.Remote.Client.{
  Web, Client, fetch_meta_file, get_meta_file, find_meta, escaped, checked, http_get, with_net,
}
use gomodfs.Remote.Client.Cache.{get_meta_file-again}
use gomodfs.Remote.EndToEnd.{as_http, over_http, backend_meta, fetch_meta_file-backend}

program : Unit {0}
unfolding beq every mv_eq plain_of path_byte plain_byte cut cut_prefix trim_prefix split
    cut_or_whole parse_mv_from_path mv_to_escaped_path cut_last_dot last_dot split_ext unescape_mv
    handle_meta miss_status accepts_lz4 any_lz4 is_lz4 trim_space skip_space fetch_meta_file
    get_meta_file find_meta escaped checked http_get is_cache_miss
program = tt

abbrev mem : ModuleVersion
mem = mod_ver (codes "go4.org/mem") (codes "v0.0.0")

abbrev mem_path : Bytes
mem_path = codes "go4.org/mem"

abbrev mem_version : Bytes
mem_version = codes "v0.0.0"

mem_path_plain : plain_of path_byte mem_path ≡ some mem_path
unfolding program
mem_path_plain = refl

mem_version_plain : plain_of plain_byte mem_version ≡ some mem_version
unfolding program
mem_version_plain = refl

parse_mv_from_path-escaped_example :
    (mv_to_escaped_path plain mem ≡ some (codes "go4.org/mem/@v/v0.0.0"))
    × (parse_mv_from_path plain (codes "/api/v1/modmap/go4.org/mem/@v/v0.0.0") modmap_prefix
        ≡ some (mem, []))
    × (parse_mv_from_path plain (codes "/api/v1/file/go4.org/mem/@v/v0.0.0") file_prefix
        ≡ some (mem, []))
parse_mv_from_path-escaped_example =
    parse_mv_from_path-escaped plain plain-IsEscaper mem mem_path mem_version mem_path_plain
      mem_version_plain

parse_mv_from_path-meta_example :
    parse_mv_from_path plain (codes "/api/v1/meta/go4.org/mem/@v/v0.0.0.info") meta_prefix
    ≡ some (mem, codes "info")
unfolding ext_name
parse_mv_from_path-meta_example =
    parse_mv_from_path-meta plain plain-IsEscaper mem mem_path mem_version info mem_path_plain
      mem_version_plain

accepted : accepts_lz4 (codes "gzip, LZ4;q=1") ≡ true
unfolding program
accepted = refl

-- a backend that has one file, and counts nothing
abbrev backend : Backend (Unit {0}) (Unit {0})
backend = record {
  get_zip_root_or_download = λ mv w. (ok tt, w);
  get_meta_file_by_ext = λ mv ext w. (ok ext, w);
  readdir = λ h p w. (ok [], w);
  get_file = λ h p w. (err not_exist, w);
}

abbrev codec : Codec (Unit {0})
codec = record {
  lookup = λ mv c. (none, c);
  insert = λ mv b c. c;
  marshal = λ m. ok [];
  compress = λ b. ok b;
}

abbrev web : Web (Unit {0} × Unit {0})
web = record {
  get = λ accept url n. as_http (handle_meta plain backend codec 9 url n);
  decompress = λ b. ok b;
  unmarshal = λ b. ok [];
  query_escape = λ b. b;
}

abbrev new_client : Client (Unit {0} × Unit {0})
new_client = record { modmaps = []; meta = []; net = (tt, tt) }

abbrev client_with_info : Client (Unit {0} × Unit {0})
client_with_info = record new_client { meta = ((mem, codes "info"), codes "info") ∷ [] }

got_info :
    get_meta_file plain web [] 9 mem (codes "info") new_client
    ≡ (ok (codes "info"), client_with_info)
unfolding program
got_info = refl

get_meta_file-again_example :
    get_meta_file plain web [] 9 mem (codes "info") client_with_info
    ≡ (ok (codes "info"), client_with_info)
get_meta_file-again_example =
    get_meta_file-again plain web [] 9 mem (codes "info") (codes "info") new_client client_with_info
      got_info

fetch_meta_file-backend_example :
    fetch_meta_file plain web [] 9 mem (ext_name info) new_client
    ≡ with_net plain web [] 9 new_client
        (over_http (backend_meta plain plain-IsEscaper backend codec 9 web [] mem info (tt, tt)))
fetch_meta_file-backend_example =
    fetch_meta_file-backend plain plain-IsEscaper backend codec 9 web [] mem mem_path mem_version
      info new_client (λ path n. refl) mem_path_plain mem_version_plain
