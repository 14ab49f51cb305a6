-- ===== src/Remote/Protocol.antt =====
-- store/remotestore/protocol.go: module versions in URL paths.
pub mod RoundTrip
use gomodfs.Base.{
  ℕ, Bytes, codes, List, [], ◌∷◌, ◌++◌, Option, none, some, Bool, true, false, ◌||◌, ◌==◌,
  if◌then◌else◌, beq, is_empty,
}
use mathlib.Core.List.{reverse}
use gomodfs.Store.{ModuleVersion, mod_ver, FileMode, Escaper}
use gomodfs.Text.{cut, cut_prefix, trim_prefix, dot}

-- `FileMeta`
pub record FileMeta : Type 0 where
  pub size : ℕ
  pub mode : FileMode

-- `ModVersionMap`
abbrev pub ModVersionMap : Type 0
ModVersionMap = List (Bytes × FileMeta)

abbrev pub modmap_prefix : Bytes
modmap_prefix = codes "/api/v1/modmap/"

abbrev pub file_prefix : Bytes
file_prefix = codes "/api/v1/file/"

abbrev pub meta_prefix : Bytes
meta_prefix = codes "/api/v1/meta/"

-- the text cut at its last dot: the loop of `strings.LastIndex`, on the text reversed
unfoldable pub last_dot : Bytes → Bytes → Option (Bytes × Bytes)
last_dot [] acc = none
last_dot (c ∷ r) acc =
    let rest = last_dot r (c ∷ acc) in if c == dot then some (reverse r, acc) else rest

unfoldable pub cut_last_dot : Bytes → Option (Bytes × Bytes)
unfolding last_dot
cut_last_dot s = last_dot (reverse s) []

abbrev pub is_meta_ext : Bytes → Bool
is_meta_ext ext = beq ext (codes "info") || (beq ext (codes "mod") || beq ext (codes "ziphash"))

-- the escaped version and, for metadata paths, the extension
unfoldable pub split_ext : Bytes → Bytes → Option (Bytes × Bytes)
split_ext prefix after_at_v = elim (beq prefix meta_prefix) [
  | false ↦ some (after_at_v, [])
  | true ↦ elim (cut_last_dot after_at_v) [
    | none ↦ none
    | some (escaped_ver, ext) ↦ if is_meta_ext ext then some (escaped_ver, ext) else none
  ]
]

module _ (esc : Escaper) where
  unfoldable pub unescape_mv : Bytes → Bytes → Bytes → Option (ModuleVersion × Bytes)
  unescape_mv escaped_mod escaped_ver ext = elim (esc.unescape_path escaped_mod) [
    | none ↦ none
    | some mod_path ↦ elim (esc.unescape_version escaped_ver) [
      | none ↦ none
      | some ver ↦ some (mod_ver mod_path ver, ext)
    ]
  ]

  -- `parseMVFromPath`; `none` is one of its errors
  unfoldable pub parse_mv_from_path : Bytes → Bytes → Option (ModuleVersion × Bytes)
  parse_mv_from_path url_path prefix =
      let rest = trim_prefix url_path prefix in
      if beq rest url_path then none else elim (cut rest (codes "/@v/")) [
        | none ↦ none
        | some (escaped_mod, after_at_v) ↦
            if is_empty escaped_mod || is_empty after_at_v
            then none
            else elim (split_ext prefix after_at_v) [
              | none ↦ none
              | some (escaped_ver, ext) ↦ unescape_mv escaped_mod escaped_ver ext
            ]
      ]

  -- `mvToEscapedPath`
  unfoldable pub mv_to_escaped_path : ModuleVersion → Option Bytes
  mv_to_escaped_path mv = elim (esc.escape_path mv.module_path) [
    | none ↦ none
    | some esc_mod ↦ elim (esc.escape_version mv.version) [
      | none ↦ none
      | some esc_ver ↦ some (esc_mod ++ (codes "/@v/" ++ esc_ver))
    ]
  ]
