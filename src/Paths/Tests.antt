-- ===== src/Paths/Tests.antt =====
-- Runs of the path parser on the cases of path_test.go, and its theorems at concrete paths.
use gomodfs.Base.{
  eq→beq, Bytes, codes, [], ◌∷◌, ◌++◌, none, some, true, false, ◌≡◌, inr, refl, arith, every, beq,
}
use gomodfs.Store.{ModuleVersion, mod_ver}
use gomodfs.Store.Plain.{plain_byte, path_byte, plain_of, plain, plain-IsEscaper}
use gomodfs.Text.{
  cut, cut_prefix, cut_suffix, trim_suffix, cut_or_whole, path_base, path_ext, slash, dot, split,
  has_prefix,
}
use gomodfs.Paths.{
  GmPath, Seen, no_path, missing_path, status_file, is_hex_char, valid_tsgo_osarch, TsgoTriple,
  tsgo_version, tsgo_zip_root, is_tsgo_module, parse_tsgo_segs, parse_tsgo_hash, parse_tsgo_path,
  load, unescaped, parse_mod_version, parse_download, parse_in_zip, parse_path, cd_path,
  mod_ver_zip_prefix, empty_path_join, info, ext_name, tsgo_module, wk_tsgo_extracted,
}
use gomodfs.Paths.Memo.{IsMemo, parse_mod_version-unescaped, parse_path-IsMemo}
use gomodfs.Paths.Spelled.{Spells, parse_path-Spells}
use gomodfs.Paths.Coherent.{parse_path-dot_file}
use gomodfs.Paths.RoundTrip.{parse_path-cd_path, parse_path-zip_prefix}
use gomodfs.Paths.Tsgo.{
  is_tsgo_module-tsgo_version, IsTriple, parse_path-tsgo_zip_root, parse_path-tsgo_extracted,
}

program : Unit {0}
unfolding plain_of path_byte every beq cut_prefix cut cut_suffix trim_suffix cut_or_whole path_base
    path_ext split is_hex_char valid_tsgo_osarch tsgo_version tsgo_zip_root is_tsgo_module
    parse_tsgo_segs parse_tsgo_hash parse_tsgo_path load unescaped parse_mod_version parse_download
    parse_in_zip parse_path cd_path mod_ver_zip_prefix empty_path_join ext_name
program = tt

parsed : Bytes → GmPath
unfolding program
parsed name = (parse_path plain [] name).0

abbrev mem : ModuleVersion
mem = mod_ver (codes "go4.org/mem") (codes "v0.0.0")

plain_paths :
    (parsed [] ≡ no_path)
    × (parsed (codes "cache/download/") ≡ no_path)
    × (parsed (codes ".Spotlight-V100") ≡ missing_path)
    × (parsed (codes "foo/bar") ≡ no_path)
    × (parsed (codes "cache/download/go4.org/mem/@v/v0.0.0.bogusext") ≡ missing_path)
unfolding parsed
plain_paths = (refl, refl, refl, refl, refl)

mem_info :
    parsed (codes "cache/download/go4.org/mem/@v/v0.0.0.info")
    ≡ record no_path { cache_download_file_ext = codes "info"; mod_version = mem }
unfolding parsed
mem_info = refl

mem_go :
    parsed (codes "go4.org/mem@v0.0.0/build/")
    ≡ record no_path { in_zip = true; path = codes "build"; mod_version = mem }
unfolding parsed
mem_go = refl

-- a hash of the wrong length marks the path, and still names a version
short_hash : parsed (codes "tsgo-linux-amd64/abc/x") ≡ record no_path {
  not_exist = true;
  in_zip = true;
  path = codes "x";
  mod_version = mod_ver tsgo_module (codes "tsgo-linux-amd64-abc");
}
unfolding parsed
short_hash = refl

abbrev one_seen : Seen
one_seen = ((codes "go4.org/mem", codes "v0.0.0"), mem) ∷ []

one_seen-IsMemo : IsMemo plain one_seen
unfolding program
one_seen-IsMemo = (refl, tt)

parse_mod_version-unescaped_example :
    ((parse_mod_version plain one_seen (codes "go4.org/mem") (codes "v0.0.0")).0
      ≡ unescaped plain (codes "go4.org/mem") (codes "v0.0.0"))
    × IsMemo plain (parse_mod_version plain one_seen (codes "go4.org/mem") (codes "v0.0.0")).1
parse_mod_version-unescaped_example =
    parse_mod_version-unescaped plain one_seen (codes "go4.org/mem") (codes "v0.0.0")
      one_seen-IsMemo

parse_path-IsMemo_example :
    ((parse_path plain one_seen (codes "a.b@v1/c")).0 ≡ (parse_path plain [] (codes "a.b@v1/c")).0)
    × IsMemo plain (parse_path plain one_seen (codes "a.b@v1/c")).1
parse_path-IsMemo_example = parse_path-IsMemo plain one_seen (codes "a.b@v1/c") one_seen-IsMemo

build_facts :
    (has_prefix (codes "go4.org/mem@v0.0.0/build/") (codes "tsgo-") ≡ false)
    × ((parse_path plain one_seen (codes "go4.org/mem@v0.0.0/build/")).0.in_zip ≡ true)
unfolding program
build_facts = (refl, refl)

parse_path-Spells_example :
    Spells plain
      (codes "go4.org/mem@v0.0.0/build/")
      (parse_path plain one_seen (codes "go4.org/mem@v0.0.0/build/")).0
parse_path-Spells_example =
    parse_path-Spells plain one_seen (codes "go4.org/mem@v0.0.0/build/") one_seen-IsMemo
      build_facts.0 build_facts.1

ds_store_plain : cut (codes "foo/.DS_Store/") (b'@' ∷ []) ≡ none
unfolding program
ds_store_plain = refl

ds_not_status : beq (codes "foo/.DS_Store/") status_file ≡ false
unfolding program
ds_not_status = refl

parse_path-dot_file_example : parse_path plain [] (codes "foo/.DS_Store/") ≡ (missing_path, [])
parse_path-dot_file_example =
    parse_path-dot_file plain [] (codes "foo/") (codes "DS_Store") 1 (inr (codes "foo", refl))
      (omega arith) (λ e. cc (ds_not_status, eq→beq (codes "foo/.DS_Store/") status_file e))
      (inr (inr ds_store_plain))

mem_path : plain_of path_byte (codes "go4.org/mem") ≡ some (codes "go4.org/mem")
unfolding program
mem_path = refl

mem_version : plain_of plain_byte (codes "v0.0.0") ≡ some (codes "v0.0.0")
unfolding program
mem_version = refl

no_dot : has_prefix (codes "v0.0.0") (dot ∷ []) ≡ false
unfolding program
no_dot = refl

parse_path-cd_path_example :
    (parse_path plain one_seen (cd_path plain mem (ext_name info))).0
    ≡ record no_path { cache_download_file_ext = ext_name info; mod_version = mem }
parse_path-cd_path_example =
    parse_path-cd_path plain plain-IsEscaper one_seen mem (codes "go4.org/mem") (codes "v0.0.0")
      info one_seen-IsMemo mem_path mem_version no_dot

mem_zip_facts :
    (is_tsgo_module mem ≡ none)
    × (trim_suffix (codes "a/b") (slash ∷ []) ≡ codes "a/b")
    × (cut_prefix (codes "go4.org/mem@v0.0.0/a/b") (codes "tsgo-") ≡ none)
    × (cut_prefix (codes "go4.org/mem@v0.0.0/a/b") (codes "cache/download/") ≡ none)
unfolding program
mem_zip_facts = (refl, refl, refl, refl)

joined : empty_path_join (codes "v0.0.0") (codes "a/b") ≡ codes "v0.0.0/a/b"
unfolding program
joined = refl

parse_path-zip_prefix_example :
    (mod_ver_zip_prefix plain mem ≡ some (codes "go4.org/mem@v0.0.0"))
    × ((parse_path plain one_seen (empty_path_join (codes "go4.org/mem@v0.0.0") (codes "a/b"))).0
        ≡ record no_path { in_zip = true; path = codes "a/b"; mod_version = mem })
unfolding program
parse_path-zip_prefix_example =
    parse_path-zip_prefix plain plain-IsEscaper one_seen mem (codes "go4.org/mem") (codes "v0.0.0")
      (codes "a/b") one_seen-IsMemo mem_zip_facts.0 mem_path mem_version mem_zip_facts.1
      mem_zip_facts.2 mem_zip_facts.3

abbrev linux : TsgoTriple
linux = record {
  os = codes "linux";
  arch = codes "amd64";
  hash = codes "1cd3bf1a6eaf559aa8c00e749289559c884cef09";
}

linux-IsTriple : IsTriple linux
unfolding program
linux-IsTriple = record { valid = refl; size = refl; hex = refl }

is_tsgo_module-tsgo_version_example :
    is_tsgo_module (mod_ver tsgo_module (tsgo_version linux)) ≡ some linux
is_tsgo_module-tsgo_version_example = is_tsgo_module-tsgo_version linux (omega arith) (omega arith)

parse_path-tsgo_zip_root_example :
    parse_path plain [] (empty_path_join (tsgo_zip_root linux) (codes "bin/go")) ≡ (
      record no_path {
        in_zip = true;
        path = codes "bin/go";
        mod_version = mod_ver tsgo_module (tsgo_version linux);
      },
      [],
    )
unfolding program
parse_path-tsgo_zip_root_example =
    parse_path-tsgo_zip_root plain [] linux (codes "bin/go") linux-IsTriple refl refl

parse_path-tsgo_extracted_example :
    parse_path plain [] (tsgo_zip_root linux ++ codes ".extracted") ≡ (
      record no_path {
        well_known = wk_tsgo_extracted;
        mod_version = mod_ver tsgo_module (tsgo_version linux);
      },
      [],
    )
unfolding program
parse_path-tsgo_extracted_example = parse_path-tsgo_extracted plain [] linux linux-IsTriple
