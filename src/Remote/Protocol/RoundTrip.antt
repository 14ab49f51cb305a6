-- ===== src/Remote/Protocol/RoundTrip.antt =====
-- The URL paths of store/remotestore/protocol.go, written by the client and read by the handler.
use gomodfs.Base.{
  ℕ, Bytes, codes, [], ◌∷◌, ◌++◌, append_assoc, some, true, false, ◌≡◌, ◌≢◌, refl, ap, arith, beq,
  beq_refl, beq→eq, is_empty, Lacks, Bool-cases, inl, inr, length, length-append,
}
use mathlib.Core.List.{reverse, reverse_aux, reverse-append, reverse-reverse}
use gomodfs.Store.{ModuleVersion, Escaper, IsEscaper}
use gomodfs.Text.{dot}
use gomodfs.Text.Cut.{trim_prefix-append}
use gomodfs.Text.Elems.{All-reverse}
use gomodfs.Paths.{MetaExt, mod_file, ziphash, info, ext_name}
use gomodfs.Paths.RoundTrip.{cut_at_v}
use gomodfs.Remote.Protocol.{
  modmap_prefix, file_prefix, meta_prefix, last_dot, cut_last_dot, is_meta_ext, split_ext,
  unescape_mv, parse_mv_from_path, mv_to_escaped_path,
}

last_dot-append :
    (r t acc : Bytes)
    → Lacks dot r
    → last_dot (r ++ dot ∷ t) acc ≡ some (reverse t, reverse_aux r acc)
unfolding last_dot
last_dot-append [] t acc h = refl
last_dot-append (c ∷ r) t acc h = ground (arith, last_dot-append r t (c ∷ acc) h.1)

pub cut_last_dot-append : (s e : Bytes) → Lacks dot e → cut_last_dot (s ++ (dot ∷ e)) ≡ some (s, e)
unfolding cut_last_dot
cut_last_dot-append s e h = rw (
  reverse-append s (dot ∷ e),
  reverse-append (dot ∷ []) e,
  append_assoc (reverse e) (dot ∷ []) (reverse s),
  last_dot-append (reverse e) (reverse s) [] (All-reverse _ e h),
  reverse-reverse s,
  reverse-reverse e,
)

-- a text is not what is left of it behind a prefix
longer : (p s : Bytes) (c : ℕ) → beq s ((c ∷ p) ++ s) ≡ false
longer p s c = elim (Bool-cases (beq s ((c ∷ p) ++ s))) [
  | inl same ↦
      let e : length s ≡ length ((c ∷ p) ++ s) =
        ap (λ (t : Bytes). length t) (beq→eq s ((c ∷ p) ++ s) same) in
      absurd (omega (arith, length-append p s))
  | inr other ↦ other
]

append-nonempty : (s t : Bytes) → s ≢ [] → is_empty (s ++ t) ≡ false
append-nonempty [] t n = absurd (n refl)
append-nonempty (c ∷ s) t n = refl

nonempty : (s : Bytes) → s ≢ [] → is_empty s ≡ false
nonempty [] n = absurd (n refl)
nonempty (c ∷ s) n = refl

ext_facts : (x : MetaExt) → Lacks dot (ext_name x) × (is_meta_ext (ext_name x) ≡ true)
unfolding ext_name beq
ext_facts mod_file = (omega arith, refl)
ext_facts ziphash = (omega arith, refl)
ext_facts info = (omega arith, refl)

split_ext-meta :
    (ev : Bytes) (x : MetaExt)
    → split_ext meta_prefix (ev ++ (dot ∷ ext_name x)) ≡ some (ev, ext_name x)
unfolding split_ext
split_ext-meta ev x = rw (
  beq_refl meta_prefix,
  split_ext,
  cut_last_dot-append ev (ext_name x) (ext_facts x).0,
  (ext_facts x).1,
)

module _ (esc : Escaper) (laws : IsEscaper esc) where
  unescape_mv-escaped :
      (mv : ModuleVersion) (em ev ext : Bytes)
      → esc.escape_path mv.module_path ≡ some em
      → esc.escape_version mv.version ≡ some ev
      → unescape_mv esc em ev ext ≡ some (mv, ext)
  unfolding unescape_mv
  unescape_mv-escaped mv em ev ext hm hv = rw (
    laws.unescape-escape_path mv.module_path em hm,
    unescape_mv,
    laws.unescape-escape_version mv.version ev hv,
  )

  parse_behind_prefix :
      (mv : ModuleVersion) (c : ℕ) (prefix em ev after ext : Bytes)
      → esc.escape_path mv.module_path ≡ some em
      → esc.escape_version mv.version ≡ some ev
      → is_empty after ≡ false
      → split_ext (c ∷ prefix) after ≡ some (ev, ext)
      → parse_mv_from_path esc ((c ∷ prefix) ++ (em ++ (codes "/@v/" ++ after))) (c ∷ prefix)
        ≡ some (mv, ext)
  unfolding parse_mv_from_path
  parse_behind_prefix mv c prefix em ev after ext hm hv hn hs = rw (
    trim_prefix-append (c ∷ prefix) (em ++ (codes "/@v/" ++ after)),
    longer prefix (em ++ (codes "/@v/" ++ after)) c,
    cut_at_v em after (laws.escaped_path mv.module_path em hm).0,
    parse_mv_from_path,
    nonempty em (laws.escaped_path mv.module_path em hm).1,
    hn,
    hs,
    unescape_mv-escaped mv em ev ext hm hv,
  )

  -- The path of a module version below the routes for module maps and for files is read back as
  -- that module version, if its module path and version can be escaped.
  pub parse_mv_from_path-escaped :
      (mv : ModuleVersion) (em ev : Bytes)
      → esc.escape_path mv.module_path ≡ some em
      → esc.escape_version mv.version ≡ some ev
      → (mv_to_escaped_path esc mv ≡ some (em ++ (codes "/@v/" ++ ev)))
        × (parse_mv_from_path esc (modmap_prefix ++ (em ++ (codes "/@v/" ++ ev))) modmap_prefix
            ≡ some (mv, []))
        × (parse_mv_from_path esc (file_prefix ++ (em ++ (codes "/@v/" ++ ev))) file_prefix
            ≡ some (mv, []))
  unfolding mv_to_escaped_path split_ext beq
  parse_mv_from_path-escaped mv em ev hm hv =
      let n = nonempty ev (laws.escaped_version mv.version ev hv).1 in
      (
        rw (hm, mv_to_escaped_path, hv),
        parse_behind_prefix mv b'/' (codes "api/v1/modmap/") em ev ev [] hm hv n refl,
        parse_behind_prefix mv b'/' (codes "api/v1/file/") em ev ev [] hm hv n refl,
      )

  -- The path of a metadata file below its route is read back as the module version and the
  -- extension, if the module path and the version can be escaped.
  pub parse_mv_from_path-meta :
      (mv : ModuleVersion) (em ev : Bytes) (x : MetaExt)
      → esc.escape_path mv.module_path ≡ some em
      → esc.escape_version mv.version ≡ some ev
      → parse_mv_from_path esc
          (meta_prefix ++ (em ++ (codes "/@v/" ++ (ev ++ (dot ∷ ext_name x)))))
          meta_prefix
        ≡ some (mv, ext_name x)
  parse_mv_from_path-meta mv em ev x hm hv =
      parse_behind_prefix mv b'/' (codes "api/v1/meta/") em ev (ev ++ (dot ∷ ext_name x))
        (ext_name x) hm hv
        (append-nonempty ev (dot ∷ ext_name x) (laws.escaped_version mv.version ev hv).1)
        (split_ext-meta ev x)
