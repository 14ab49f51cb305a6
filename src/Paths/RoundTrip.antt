-- ===== src/Paths/RoundTrip.antt =====
-- The paths that gomodfs.go writes for module versions, and `parsePath`.
use gomodfs.Base.{
  ℕ, Bytes, codes, [], ◌∷◌, ◌++◌, append_assoc, none, some, true, false, ◌≡◌, ◌≢◌, inl, inr, refl,
  sym, ap, ◌∙◌, arith, beq, beq→eq, Bool-cases, is_empty, Lacks, ◌==◌, All-append,
}
use gomodfs.Store.{Escaper, IsEscaper, ModuleVersion}
use gomodfs.Text.{cut, cut_prefix, trim_suffix, cut_or_whole, slash, dot, has_prefix, path_base}
use gomodfs.Text.Elems.{path_base-append, path_ext-append}
use gomodfs.Text.Cut.{trim_suffix-append, cut-append, cut_absent}
use gomodfs.Paths.{
  Seen, MetaExt, mod_file, ziphash, info, ext_name, unescaped, parse_download, parse_in_zip,
  parse_path, known_ext, status_file, no_path, cd_path, mod_ver_zip_prefix, is_tsgo_module,
  empty_path_join,
}
use gomodfs.Paths.Memo.{IsMemo, parse_mod_version-unescaped}

-- in a text with no `@` before it, the first "/@v/" is the one written
pub cut_at_v :
    (s t : Bytes) → Lacks b'@' s → cut (s ++ (codes "/@v/" ++ t)) (codes "/@v/") ≡ some (s, t)
unfolding cut cut_prefix
cut_at_v [] t h = refl
cut_at_v (c ∷ []) t h = ground (arith, cut_at_v [] t h.1)
cut_at_v (c ∷ d ∷ s) t h = ground (arith, cut_at_v (d ∷ s) t h.1)

append-empty : (s : Bytes) (c : ℕ) (t : Bytes) → is_empty (s ++ c ∷ t) ≡ false
append-empty [] c t = refl
append-empty (d ∷ s) c t = refl

append-ne-nil : (s : Bytes) (c : ℕ) (t : Bytes) → s ++ c ∷ t ≢ []
append-ne-nil [] c t = λ e. cc
append-ne-nil (d ∷ s) c t = λ e. cc

not_dotted :
    (v t : Bytes)
    → v ≢ []
    → has_prefix v (dot ∷ []) ≡ false
    → has_prefix (v ++ t) (dot ∷ []) ≡ false
unfolding cut_prefix
not_dotted [] t n h = absurd (n refl)
not_dotted (c ∷ v) t n h = elim (Bool-cases (c == dot)) [
  | inl is_dot ↦ absurd (ground arith)
  | inr other ↦ rw other
]

ext_laws :
    (x : MetaExt)
    → Lacks dot (ext_name x) × Lacks slash (ext_name x) × (known_ext (dot ∷ ext_name x) ≡ true)
unfolding ext_name beq
ext_laws mod_file = (omega arith, omega arith, refl)
ext_laws ziphash = (omega arith, omega arith, refl)
ext_laws info = (omega arith, omega arith, refl)

cd_base :
    (em t : Bytes)
    → Lacks slash t
    → t ≢ []
    → path_base (codes "cache/download/" ++ (em ++ (codes "/@v/" ++ t))) ≡ t
cd_base em t h n =
    let a = codes "cache/download/" in
    let b = codes "/@v" in
    let e : (a ++ (em ++ b)) ++ slash ∷ t ≡ a ++ (em ++ (b ++ slash ∷ t)) =
      append_assoc a (em ++ b) (slash ∷ t)
      ∙ ap (λ (s : Bytes). a ++ s) (append_assoc em b (slash ∷ t)) in
    ap path_base (sym e) ∙ path_base-append (a ++ (em ++ b)) t h n

-- the pair that an escaped module version is unescaped to
unescaped-escaped :
    (esc : Escaper) (mv : ModuleVersion) (em ev : Bytes)
    → IsEscaper esc
    → esc.escape_path mv.module_path ≡ some em
    → esc.escape_version mv.version ≡ some ev
    → unescaped esc em ev ≡ (mv, true)
unfolding unescaped
unescaped-escaped esc mv em ev laws hm hv = rw (
  laws.unescape-escape_path mv.module_path em hm,
  unescaped,
  laws.unescape-escape_version mv.version ev hv,
)

module _ (esc : Escaper) (laws : IsEscaper esc) where
  parse_download-escaped :
      (seen : Seen) (mv : ModuleVersion) (em ev : Bytes) (x : MetaExt)
      → IsMemo esc seen
      → esc.escape_path mv.module_path ≡ some em
      → esc.escape_version mv.version ≡ some ev
      → (parse_download esc seen (em ++ (codes "/@v/" ++ (ev ++ (dot ∷ ext_name x))))).0
        ≡ record no_path { cache_download_file_ext = ext_name x; mod_version = mv }
  unfolding parse_download
  parse_download-escaped seen mv em ev x memo hm hv =
      let (no_dot, no_slash, known) = ext_laws x in
      rw (
        cut_at_v em (ev ++ (dot ∷ ext_name x)) (laws.escaped_path _ em hm).0,
        parse_download,
        path_ext-append ev (ext_name x) no_dot no_slash,
        known,
        trim_suffix-append ev (dot ∷ ext_name x),
        (parse_mod_version-unescaped esc seen em ev memo).0,
        unescaped-escaped esc mv em ev laws hm hv,
      )

  -- The path of a metadata file in the download cache parses to that file of that module version,
  -- whatever was parsed before, if the module path and the version can be escaped and the escaped
  -- version does not begin with a dot.
  pub parse_path-cd_path :
      (seen : Seen) (mv : ModuleVersion) (em ev : Bytes) (x : MetaExt)
      → IsMemo esc seen
      → esc.escape_path mv.module_path ≡ some em
      → esc.escape_version mv.version ≡ some ev
      → has_prefix ev (dot ∷ []) ≡ false
      → (parse_path esc seen (cd_path esc mv (ext_name x))).0
        ≡ record no_path { cache_download_file_ext = ext_name x; mod_version = mv }
  unfolding parse_path cd_path beq cut_prefix
  parse_path-cd_path seen mv em ev x memo hm hv nd =
      let t = ev ++ (dot ∷ ext_name x) in
      let no_slash =
        All-append _ ev (dot ∷ ext_name x) (laws.escaped_version _ ev hv).0
          (omega arith, (ext_laws x).1) in
      rw
        (
          hm,
          hv,
          cd_base em t no_slash (append-ne-nil ev dot (ext_name x)),
          not_dotted ev (dot ∷ ext_name x) (laws.escaped_version _ ev hv).1 nd,
        )
        (parse_download-escaped seen mv em ev x memo hm hv)

  cut_version :
      (seen : Seen) (mv : ModuleVersion) (em ev inside : Bytes)
      → IsMemo esc seen
      → esc.escape_path mv.module_path ≡ some em
      → esc.escape_version mv.version ≡ some ev
      → trim_suffix inside (slash ∷ []) ≡ inside
      → (parse_in_zip esc seen em (empty_path_join ev inside)).0
        ≡ record no_path { in_zip = true; path = inside; mod_version = mv }
  unfolding parse_in_zip cut_or_whole empty_path_join
  cut_version seen mv em ev [] memo hm hv trimmed = rw (
    cut_absent slash [] ev (laws.escaped_version _ ev hv).0,
    cut_or_whole,
    (parse_mod_version-unescaped esc seen em ev memo).0,
    unescaped-escaped esc mv em ev laws hm hv,
    trimmed,
  )
  cut_version seen mv em [] (c ∷ s) memo hm hv trimmed =
      absurd ((laws.escaped_version _ [] hv).1 refl)
  cut_version seen mv em (d ∷ ev) (c ∷ s) memo hm hv trimmed = rw (
    cut-append slash [] (d ∷ ev) (c ∷ s) (laws.escaped_version _ (d ∷ ev) hv).0,
    cut_or_whole,
    (parse_mod_version-unescaped esc seen em (d ∷ ev) memo).0,
    unescaped-escaped esc mv em (d ∷ ev) laws hm hv,
    trimmed,
  )

  join_at :
      (em ev inside : Bytes)
      → ev ≢ []
      → empty_path_join (em ++ (b'@' ∷ ev)) inside ≡ em ++ b'@' ∷ empty_path_join ev inside
  unfolding empty_path_join
  join_at em ev [] n = refl
  join_at em [] (c ∷ s) n = absurd (n refl)
  join_at em (d ∷ ev) (c ∷ s) n =
      rw (append-empty em b'@' (d ∷ ev)) (append_assoc em (b'@' ∷ d ∷ ev) (slash ∷ c ∷ s))

  not_status : (s t : Bytes) → Lacks b'@' status_file → s ++ b'@' ∷ t ≢ status_file
  not_status s t h e = clash s t status_file h e
    where
      clash : (s t u : Bytes) → Lacks b'@' u → s ++ b'@' ∷ t ≡ u → ⊥
      clash [] t [] h e = cc
      clash [] t (c ∷ u) h e = ground arith
      clash (d ∷ s) t [] h e = cc
      clash (d ∷ s) t (c ∷ u) h e = clash s t u h.1 (ground arith)

  parse_path-zip_name :
      (seen : Seen) (name m vp : Bytes)
      → beq name status_file ≡ false
      → cut_prefix name (codes "tsgo-") ≡ none
      → cut_prefix name (codes "cache/download/") ≡ none
      → cut name (b'@' ∷ []) ≡ some (m, vp)
      → parse_path esc seen name ≡ parse_in_zip esc seen m vp
  unfolding parse_path
  parse_path-zip_name seen name m vp other a b e = rw (other, a, b, e)

  -- A path below the zip root of a module version parses to that path in that version's zip,
  -- whatever was parsed before, if the module is not the Tailscale Go toolchain, the module path
  -- and the version can be escaped, the whole path begins with neither "tsgo-" nor
  -- "cache/download/", and the path inside has no trailing slash.
  pub parse_path-zip_prefix :
      (seen : Seen) (mv : ModuleVersion) (em ev inside : Bytes)
      → IsMemo esc seen
      → is_tsgo_module mv ≡ none
      → esc.escape_path mv.module_path ≡ some em
      → esc.escape_version mv.version ≡ some ev
      → trim_suffix inside (slash ∷ []) ≡ inside
      → cut_prefix (em ++ b'@' ∷ empty_path_join ev inside) (codes "tsgo-") ≡ none
      → cut_prefix (em ++ b'@' ∷ empty_path_join ev inside) (codes "cache/download/") ≡ none
      → (mod_ver_zip_prefix esc mv ≡ some (em ++ (b'@' ∷ ev)))
        × ((parse_path esc seen (empty_path_join (em ++ (b'@' ∷ ev)) inside)).0
            ≡ record no_path { in_zip = true; path = inside; mod_version = mv })
  unfolding mod_ver_zip_prefix
  parse_path-zip_prefix seen mv em ev inside memo no_tsgo hm hv trimmed a b =
      let (no_at, _) = laws.escaped_path mv.module_path em hm in
      let other : beq (em ++ b'@' ∷ empty_path_join ev inside) status_file ≡ false =
        elim (Bool-cases (beq (em ++ b'@' ∷ empty_path_join ev inside) status_file)) [
          | inl h ↦ absurd (not_status em (empty_path_join ev inside) (omega arith) (beq→eq _ _ h))
          | inr h ↦ h
        ] in
      (
        rw (no_tsgo, mod_ver_zip_prefix, hm, hv),
        rw
            (
              join_at em ev inside (laws.escaped_version _ ev hv).1,
              parse_path-zip_name seen (em ++ b'@' ∷ empty_path_join ev inside) em
                  (empty_path_join ev inside) other a b
                  (cut-append b'@' [] em (empty_path_join ev inside) no_at),
            )
            (cut_version seen mv em ev inside memo hm hv trimmed),
      )
