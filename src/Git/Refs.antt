-- ===== src/Git/Refs.antt =====
-- The refs of store/gitstore/gitstore.go: `refName` and its variants, and `CachedModules`, which
-- reads the list of refs. `url.PathEscape` and `url.PathUnescape` are parameters.
pub mod RoundTrip
pub mod Distinct
use gomodfs.Base.{
  Bytes, codes, List, [], ◌∷◌, ◌++◌, Option, none, some, Bool, true, false, ◌||◌, if◌then◌else◌,
}
use gomodfs.Store.{ModuleVersion, mod_ver, mv_eq, Escaper}
use gomodfs.Text.{cut_prefix, cut, cut_or_whole, split}

-- `url.PathEscape` and `url.PathUnescape`, whose `none` is an error
pub record PathEscaper : Type 0 where
  pub path_escape : Bytes → Bytes
  pub path_unescape : Bytes → Option Bytes

unfoldable pub seen_mv : ModuleVersion → List ModuleVersion → Bool
unfolding mv_eq
seen_mv mv [] = false
seen_mv mv (m ∷ ms) = mv_eq m mv || seen_mv mv ms

module _ (esc : Escaper) (url : PathEscaper) where
  -- what `refName` writes behind "refs/"
  unfoldable pub short_ref : ModuleVersion → Option Bytes
  short_ref mv = elim (esc.escape_path mv.module_path) [
    | none ↦ none
    | some m ↦ elim (esc.escape_version mv.version) [
      | none ↦ none
      | some v ↦ some (codes "gomod/" ++ (url.path_escape m ++ (b'@' ∷ url.path_escape v)))
    ]
  ]

  abbrev pub behind : Bytes → Option Bytes → Option Bytes
  behind s none = none
  behind s (some r) = some (r ++ s)

  -- `refName`, `modRefName` and `infoRefName`
  unfoldable pub ref_name : ModuleVersion → Option Bytes
  unfolding short_ref
  ref_name mv = elim (short_ref mv) [ none ↦ none | some r ↦ some (codes "refs/" ++ r) ]

  unfoldable pub mod_ref_name : ModuleVersion → Option Bytes
  unfolding ref_name
  mod_ref_name mv = behind (codes "(mod)") (ref_name mv)

  unfoldable pub info_ref_name : ModuleVersion → Option Bytes
  unfolding ref_name
  info_ref_name mv = behind (codes "(info)") (ref_name mv)

  abbrev pub unescaped : Bytes → Bytes → Option ModuleVersion
  unescaped m v = elim (esc.unescape_path m) [
    | none ↦ none
    | some mod_path ↦ elim (esc.unescape_version v) [
      | none ↦ none
      | some version ↦ some (mod_ver mod_path version)
    ]
  ]

  -- one line of the list of refs: the module version that it names, if any
  unfoldable pub parse_ref_line : Bytes → Option ModuleVersion
  unfolding cut_or_whole cut_prefix cut
  parse_ref_line line = elim (cut_prefix (cut_or_whole line (b'(' ∷ [])).0 (codes "gomod/")) [
    | none ↦ none
    | some rest ↦ elim (cut rest (b'@' ∷ [])) [
      | none ↦ none
      | some (mod_esc2, ver_esc2) ↦ elim (url.path_unescape mod_esc2) [
        | none ↦ none
        | some mod_esc ↦ elim (url.path_unescape ver_esc2) [
          | none ↦ none
          | some ver_esc ↦ unescaped mod_esc ver_esc
        ]
      ]
    ]
  ]

  -- the loop of `CachedModules` over the lines; `seen` are the modules so far
  unfoldable pub parse_refs : List Bytes → List ModuleVersion → List ModuleVersion
  unfolding parse_ref_line seen_mv
  parse_refs [] seen = []
  parse_refs (line ∷ lines) seen = elim (parse_ref_line line) [
    | none ↦ parse_refs lines seen
    | some mv ↦
        let rest = parse_refs lines (mv ∷ seen) in
        if seen_mv mv seen then parse_refs lines seen else mv ∷ rest
  ]

  -- `CachedModules`, of what git for-each-ref prints
  unfoldable pub cached_modules : Bytes → List ModuleVersion
  unfolding parse_refs split
  cached_modules out = parse_refs (split out b'\n') []
