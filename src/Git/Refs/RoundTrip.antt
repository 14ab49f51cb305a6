-- ===== src/Git/Refs/RoundTrip.antt =====
-- The refs of store/gitstore/gitstore.go: `refName` and its variants against `CachedModules`.
use gomodfs.Base.{
  ◌≡◌, Bytes, codes, [], ◌∷◌, ◌++◌, some, Option-cases, inl, inr, refl, arith, Lacks, All-append,
  ◌≢◌, append-nil,
}
use gomodfs.Store.{ModuleVersion, Escaper, IsEscaper}
use gomodfs.Text.{cut_or_whole}
use gomodfs.Text.Cut.{cut-append, cut_absent}
use gomodfs.Git.Refs.{PathEscaper, short_ref, unescaped, parse_ref_line}

-- what net/url documents: unescaping inverts escaping, "(" is escaped, and no "@" is made
pub record IsPathEscaper (url : PathEscaper) : Type 0 where
  pub unescape-escape : (s : Bytes) → url.path_unescape (url.path_escape s) ≡ some s
  pub no_paren : (s : Bytes) → Lacks b'(' (url.path_escape s)
  pub no_at : (s : Bytes) → Lacks b'@' s → Lacks b'@' (url.path_escape s)

-- the end of a ref: "", "(mod)" or "(info)"
pub data Suffix : Type 0 where
  module_ref mod_ref info_ref : Suffix

abbrev pub suffix : Suffix → Bytes
suffix module_ref = []
suffix mod_ref = codes "(mod)"
suffix info_ref = codes "(info)"

cut-suffix :
    (s : Bytes) (x : Suffix) → Lacks b'(' s → (cut_or_whole (s ++ suffix x) (b'(' ∷ [])).0 ≡ s
unfolding cut_or_whole
cut-suffix s module_ref h = rw (append-nil s, cut_absent b'(' [] s h, cut_or_whole) (append-nil s)
cut-suffix s mod_ref h = rw (cut-append b'(' [] s (codes "mod)") h, cut_or_whole) refl
cut-suffix s info_ref h = rw (cut-append b'(' [] s (codes "info)") h, cut_or_whole) refl

module _ (esc : Escaper) (url : PathEscaper) where
  short_ref-inv :
      (mv : ModuleVersion) (r : Bytes)
      → short_ref esc url mv ≡ some r
      → (m v : Bytes) × (esc.escape_path mv.module_path ≡ some m)
        × (esc.escape_version mv.version ≡ some v)
        × (r ≡ codes "gomod/" ++ (url.path_escape m ++ (b'@' ∷ url.path_escape v)))
  unfolding short_ref
  short_ref-inv mv r h = elim (Option-cases (esc.escape_path mv.module_path)) [
    | inl bad ↦ absurd (ground arith)
    | inr (m, em) ↦ elim (Option-cases (esc.escape_version mv.version)) [
      | inl bad ↦ absurd (ground arith)
      | inr (v, ev) ↦ (m, v, em, ev, ground arith)
    ]
  ]

  -- The line that git prints for the ref of a module version, of its go.mod file alone, or of its
  -- info file alone, is read back as that module version.
  pub parse_ref_line-short_ref :
      IsEscaper esc
      → IsPathEscaper url
      → (mv : ModuleVersion) (r : Bytes) (x : Suffix) → short_ref esc url mv ≡ some r
      → parse_ref_line esc url (r ++ suffix x) ≡ some mv
  unfolding parse_ref_line
  parse_ref_line-short_ref is_esc is_url mv r x h =
      let (m, v, em, ev, er) = short_ref-inv mv r h in
      let no_at = is_url.no_at m (is_esc.escaped_path mv.module_path m em).0 in
      let lacks : Lacks b'(' r = rw er (
        All-append (λ c. c ≢ b'(') (codes "gomod/") _ (ground arith)
          (All-append (λ c. c ≢ b'(') (url.path_escape m) (b'@' ∷ url.path_escape v)
            (is_url.no_paren m) (ground arith, is_url.no_paren v))) in
      rw
        (
          parse_ref_line,
          cut-suffix r x lacks,
          er,
          cut-append b'@' [] (url.path_escape m) (url.path_escape v) no_at,
          is_url.unescape-escape m,
          is_url.unescape-escape v,
          unescaped,
          is_esc.unescape-escape_path mv.module_path m em,
          is_esc.unescape-escape_version mv.version v ev,
        )
        refl
