-- ===== src/Paths.antt =====
-- path.go and the path functions of tsgo.go, gomodfs.go and nfs.go: what a path of the file system
-- names, and the paths of module versions. The table of seen pairs (`seenPairs`) is passed along.
pub mod Memo
pub mod Coherent
pub mod Spelled
pub mod Tsgo
pub mod RoundTrip
mod Tests
use gomodfs.Base.{
  ℕ, Bytes, codes, List, [], ◌∷◌, ◌++◌, Option, none, some, Bool, true, false, not, ◌&&◌, ◌||◌,
  ◌==◌, leb, if◌then◌else◌, beq, length, every, is_empty, is_some,
}
use gomodfs.Store.{ModuleVersion, mod_ver, no_mod_ver, Escaper}
use gomodfs.Text.{
  cut_prefix, has_prefix, cut_suffix, trim_suffix, cut, cut_or_whole, path_base, path_ext, split,
  join_with, slash, dot,
}

-- `gmPath`
pub record GmPath : Type 0 where
  pub well_known : Bytes
  pub not_exist : Bool
  pub cache_download_file_ext : Bytes
  pub in_zip : Bool
  pub path : Bytes
  pub mod_version : ModuleVersion

abbrev pub no_path : GmPath
no_path = record {
  well_known = [];
  not_exist = false;
  cache_download_file_ext = [];
  in_zip = false;
  path = [];
  mod_version = no_mod_ver;
}

abbrev pub missing_path : GmPath
missing_path = record no_path { not_exist = true }

abbrev pub status_file : Bytes
status_file = codes ".gomodfs-status"

abbrev pub wk_tsgo_extracted : Bytes
wk_tsgo_extracted = codes "tsgo.extracted"

abbrev pub tsgo_module : Bytes
tsgo_module = codes "github.com/tailscale/go"

-- the metadata files of the download cache, and their extensions
pub data MetaExt : Type 0 where
  mod_file ziphash info : MetaExt

unfoldable pub ext_name : MetaExt → Bytes
ext_name mod_file = codes "mod"
ext_name ziphash = codes "ziphash"
ext_name info = codes "info"

-- `isHexChar`, on bytes: a rune beyond ASCII is no hex digit, and neither are its bytes
unfoldable pub is_hex_char : ℕ → Bool
is_hex_char r =
    (leb b'0' r && leb r b'9') || ((leb b'a' r && leb r b'f') || (leb b'A' r && leb r b'F'))

unfoldable pub valid_tsgo_osarch : Bytes → Bytes → Bool
unfolding beq
valid_tsgo_osarch goos goarch =
    (beq goos (codes "linux") || (beq goos (codes "darwin") || beq goos (codes "windows")))
    && (beq goarch (codes "amd64") || beq goarch (codes "arm64"))

-- `tsgoTriple`
pub record TsgoTriple : Type 0 where
  pub os : Bytes
  pub arch : Bytes
  pub hash : Bytes

-- `tsGoVersion`: tsgo-OS-ARCH-HASH
unfoldable pub tsgo_version : TsgoTriple → Bytes
tsgo_version t = codes "tsgo-" ++ (t.os ++ (b'-' ∷ (t.arch ++ (b'-' ∷ t.hash))))

-- `tsGoZipRoot`: tsgo-OS-ARCH/HASH
unfoldable pub tsgo_zip_root : TsgoTriple → Bytes
tsgo_zip_root t = codes "tsgo-" ++ (t.os ++ (b'-' ∷ (t.arch ++ (slash ∷ t.hash))))

-- `isTSGoModule`
unfoldable pub is_tsgo_module : ModuleVersion → Option TsgoTriple
is_tsgo_module mv = elim (beq mv.module_path tsgo_module) [
  | false ↦ none
  | true ↦ elim (cut_prefix mv.version (codes "tsgo-")) [
    | none ↦ none
    | some rest ↦ elim (cut rest (b'-' ∷ [])) [
      | none ↦ none
      | some (goos, rest') ↦ elim (cut rest' (b'-' ∷ [])) [
        | none ↦ none
        | some (goarch, hash) ↦ some (record { os = goos; arch = goarch; hash = hash })
      ]
    ]
  ]
]

-- `tsgoExtractedFileContents`
abbrev pub tsgo_extracted_file_contents : Bytes → Bytes
tsgo_extracted_file_contents hash = hash ++ (10 ∷ [])

abbrev pub or_whole : Option Bytes → Bytes → Bytes
or_whole none s = s
or_whole (some r) s = r

-- `parseTSGoPath` from the first element behind the OS and architecture on: the hash is that
-- element, less a suffix ".extracted". A hash of another length marks the path, and the parse goes
-- on.
unfoldable pub parse_tsgo_segs : Bytes → Bytes → Bytes × Bytes → GmPath
parse_tsgo_segs goos goarch (first_seg, inside) =
    let suffix = cut_suffix first_seg (codes ".extracted") in
    let hash = or_whole suffix first_seg in
    let triple : TsgoTriple = record { os = goos; arch = goarch; hash = hash } in
    let ret = record no_path { not_exist = not (length hash == 40) } in
    let found = record ret { mod_version = mod_ver tsgo_module (tsgo_version triple) } in
    if not (every is_hex_char hash)
    then record ret { not_exist = true }
    else if is_some suffix
    then record found { well_known = wk_tsgo_extracted }
    else record found { path = trim_suffix inside (slash ∷ []); in_zip = true }

unfoldable pub parse_tsgo_hash : Bytes → Bytes → Bytes → GmPath
parse_tsgo_hash goos goarch rest = parse_tsgo_segs goos goarch (cut_or_whole rest (slash ∷ []))

-- `parseTSGoPath`
unfoldable pub parse_tsgo_path : Bytes → GmPath
parse_tsgo_path name = elim (cut_prefix name (codes "tsgo-")) [
  | none ↦ no_path
  | some name' ↦ elim (cut name' (slash ∷ [])) [
    | none ↦ no_path
    | some (os_hyphen_arch, rest) ↦ elim (cut os_hyphen_arch (b'-' ∷ [])) [
      | none ↦ no_path
      | some (goos, goarch) ↦
          if not (valid_tsgo_osarch goos goarch)
          then missing_path
          else parse_tsgo_hash goos goarch rest
    ]
  ]
]

-- `seenPairs`: escaped pairs, and the module versions that they were found to be
abbrev pub Seen : Type 0
Seen = List ((Bytes × Bytes) × ModuleVersion)

unfoldable pub load : Seen → Bytes → Bytes → Option ModuleVersion
load [] m v = none
load (((m', v'), mv) ∷ seen) m v = if beq m' m && beq v' v then some mv else load seen m v

abbrev pub known_ext : Bytes → Bool
known_ext ext = beq ext (codes ".mod") || (beq ext (codes ".ziphash") || beq ext (codes ".info"))

abbrev pub behind_dot : Bytes → Bytes
behind_dot [] = []
behind_dot (c ∷ s) = s

abbrev pub is_dot_file : Bytes → Bool
is_dot_file name = not (is_empty name) && has_prefix (path_base name) (dot ∷ [])

abbrev pub or_empty : Option Bytes → Bytes
or_empty none = []
or_empty (some s) = s

module _ (esc : Escaper) where
  -- what `parseModVersion` computes on a miss: the version and whether there is one; on an error
  -- the fields that were found stay set
  unfoldable pub unescaped : Bytes → Bytes → ModuleVersion × Bool
  unescaped esc_mod esc_ver = elim (esc.unescape_path esc_mod) [
    | none ↦ (no_mod_ver, false)
    | some m ↦ elim (esc.unescape_version esc_ver) [
      | none ↦ (mod_ver m [], false)
      | some v ↦ (mod_ver m v, true)
    ]
  ]

  -- `parseModVersion`
  unfoldable pub parse_mod_version : Seen → Bytes → Bytes → (ModuleVersion × Bool) × Seen
  parse_mod_version seen esc_mod esc_ver = elim (load seen esc_mod esc_ver) [
    | some mv ↦ ((mv, true), seen)
    | none ↦
        let r = unescaped esc_mod esc_ver in
        (r, if r.1 then ((esc_mod, esc_ver), r.0) ∷ seen else seen)
  ]

  -- `parsePath` behind "cache/download/"
  unfoldable pub parse_download : Seen → Bytes → GmPath × Seen
  parse_download seen dl_suffix = elim (cut dl_suffix (codes "/@v/")) [
    | none ↦ (no_path, seen)
    | some (esc_mod, esc_ver) ↦
        let ext = path_ext esc_ver in
        let parsed = parse_mod_version seen esc_mod (trim_suffix esc_ver ext) in
        if is_empty ext
        then (no_path, seen)
        else if known_ext ext
        then (
          record no_path {
            cache_download_file_ext = behind_dot ext;
            mod_version = parsed.0.0;
            not_exist = not parsed.0.1;
          },
          parsed.1,
        )
        else (missing_path, seen)
  ]

  -- `parsePath` behind the first "@" of a name
  unfoldable pub parse_in_zip : Seen → Bytes → Bytes → GmPath × Seen
  parse_in_zip seen esc_mod ver_and_path =
      let (esc_ver, inside) = cut_or_whole ver_and_path (slash ∷ []) in
      let parsed = parse_mod_version seen esc_mod esc_ver in
      let ret = record no_path { mod_version = parsed.0.0 } in
      if parsed.0.1
      then (record ret { path = trim_suffix inside (slash ∷ []); in_zip = true }, parsed.1)
      else (record ret { not_exist = true }, parsed.1)

  -- `parsePath`
  unfoldable pub parse_path : Seen → Bytes → GmPath × Seen
  parse_path seen name =
      if beq name status_file
      then (record no_path { well_known = status_file }, seen)
      else if has_prefix name (codes "tsgo-")
      then (if is_dot_file name then missing_path else parse_tsgo_path name, seen)
      else elim (cut_prefix name (codes "cache/download/")) [
        | some dl_suffix ↦
            if is_dot_file name then (missing_path, seen) else parse_download seen dl_suffix
        | none ↦ elim (cut name (b'@' ∷ [])) [
          | none ↦ (if is_dot_file name then missing_path else no_path, seen)
          | some (esc_mod, ver_and_path) ↦ parse_in_zip seen esc_mod ver_and_path
        ]
      ]

  -- `cdPath`; a failed escape gives the empty text
  unfoldable pub cd_path : ModuleVersion → Bytes → Bytes
  cd_path mv ext =
      codes "cache/download/"
      ++ (or_empty (esc.escape_path mv.module_path)
          ++ (codes "/@v/" ++ (or_empty (esc.escape_version mv.version) ++ (dot ∷ ext))))

  -- `modVerZipPrefix`
  unfoldable pub mod_ver_zip_prefix : ModuleVersion → Option Bytes
  mod_ver_zip_prefix mv = elim (is_tsgo_module mv) [
    | some trip ↦ some (tsgo_zip_root trip)
    | none ↦ elim (esc.escape_path mv.module_path) [
      | none ↦ none
      | some mod_esc ↦ elim (esc.escape_version mv.version) [
        | none ↦ none
        | some ver_esc ↦ some (mod_esc ++ (b'@' ∷ ver_esc))
      ]
    ]
  ]

-- `splitSegs` and `joinSegs`
unfoldable pub split_segs : Bytes → List Bytes
split_segs s = if is_empty s then [] else split s slash

unfoldable pub join_segs : List Bytes → Bytes
join_segs segs = join_with segs slash

-- `emptyPathJoin`
unfoldable pub empty_path_join : Bytes → Bytes → Bytes
empty_path_join a b = if is_empty b then a else if is_empty a then b else a ++ (slash ∷ b)
