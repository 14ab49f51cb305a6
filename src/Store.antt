-- ===== src/Store.antt =====
-- store/store.go: module versions and directory entries; and the functions of
-- golang.org/x/mod/module that escape them, which are a parameter of everything that calls them.
pub mod Plain
use gomodfs.Base.{
  ℕ, Bytes, [], ◌∷◌, Option, none, some, Bool, true, false, ◌&&◌, not, ◌≡◌, ◌≢◌, ◌↔◌, beq, beq_iff,
  is_empty, Lacks, refl, arith,
}

-- `store.ModuleVersion`
pub record ModuleVersion : Type 0 where
  pub module_path : Bytes
  pub version : Bytes

abbrev pub mod_ver : Bytes → Bytes → ModuleVersion
mod_ver m v = record { module_path = m; version = v }

abbrev pub no_mod_ver : ModuleVersion
no_mod_ver = mod_ver [] []

-- `(ModuleVersion).IsValid`
abbrev pub is_valid : ModuleVersion → Bool
is_valid mv = not (is_empty mv.module_path) && not (is_empty mv.version)

-- `==` on module versions
unfoldable pub mv_eq : ModuleVersion → ModuleVersion → Bool
mv_eq a b = beq a.module_path b.module_path && beq a.version b.version

pub mv_eq_iff : (a b : ModuleVersion) → (mv_eq a b ≡ true) ↔ (a ≡ b)
unfolding mv_eq
mv_eq_iff a b = ground (arith, beq_iff a.module_path b.module_path, beq_iff a.version b.version)

-- the file modes that a store gives: a directory, or permission bits
pub data FileMode : Type 0 where
  dir : FileMode
  perm : ℕ → FileMode

abbrev pub is_dir : FileMode → Bool
is_dir dir = true
is_dir (perm p) = false

-- `store.Dirent`
pub record Dirent : Type 0 where
  pub name : Bytes
  pub mode : FileMode
  pub size : ℕ

-- `module.EscapePath`, `UnescapePath`, `EscapeVersion` and `UnescapeVersion`; `none` is an error.
pub record Escaper : Type 0 where
  pub escape_path : Bytes → Option Bytes
  pub unescape_path : Bytes → Option Bytes
  pub escape_version : Bytes → Option Bytes
  pub unescape_version : Bytes → Option Bytes

-- What that package documents: unescaping inverts escaping; an escaped module path is not empty and
-- has no `@`, and an escaped version is one path element.
pub record IsEscaper (esc : Escaper) : Type 0 where
  pub unescape-escape_path :
      (p e : Bytes) → esc.escape_path p ≡ some e → esc.unescape_path e ≡ some p
  pub unescape-escape_version :
      (v e : Bytes) → esc.escape_version v ≡ some e → esc.unescape_version e ≡ some v
  pub escaped_path : (p e : Bytes) → esc.escape_path p ≡ some e → Lacks b'@' e × (e ≢ [])
  pub escaped_version : (v e : Bytes) → esc.escape_version v ≡ some e → Lacks b'/' e × (e ≢ [])
