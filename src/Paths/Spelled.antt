-- ===== src/Paths/Spelled.antt =====
-- The names that `parsePath` of path.go takes for files of a module version.
use gomodfs.Base.{
  ℕ, Bytes, codes, [], ◌∷◌, ◌++◌, none, some, true, false, ◌≡◌, ◌⊎◌, inl, inr, refl, sym, ap,
  append-nil, Bool, is_empty, ◌∙◌, ◌==◌, arith, beq, Bool-cases, Option-cases, Lacks, if◌then◌else◌,
}
use gomodfs.Store.{Escaper}
use gomodfs.Text.{
  reversed, path_ext, cut, cut_prefix, cut_suffix, trim_suffix, cut_or_whole, slash, has_prefix,
}
use gomodfs.Text.Cut.{cut_suffix-append_inv, cut_prefix-append}
use gomodfs.Paths.{
  GmPath, Seen, unescaped, parse_download, parse_in_zip, parse_path, status_file, no_path,
  missing_path, is_dot_file, known_ext,
}
use gomodfs.Paths.Memo.{IsMemo, parse_mod_version-unescaped}

cut_inv : (b : ℕ) (s m t : Bytes) → cut s (b ∷ []) ≡ some (m, t) → Lacks b m × (s ≡ m ++ b ∷ t)
unfolding cut cut_prefix
cut_inv b [] m t e = absurd (cc)
cut_inv b (c ∷ s) m t e = elim (Bool-cases (c == b)) [
  | inl is ↦
      let whole = cut_prefix-append [] s in
      let first : m ≡ [] = ground arith in
      let behind : t ≡ s = ground arith in
      let same : c ≡ b = ground arith in rw (first, behind, same) (tt, refl)
  | inr differs ↦ elim (Option-cases (cut s (b ∷ []))) [
    | inl n ↦ absurd (ground (arith, n))
    | inr ((m0, t0), f) ↦
        let (lacks, spelled) = cut_inv b s m0 t0 f in
        let first : m ≡ c ∷ m0 = ground (arith, f) in
        let behind : t ≡ t0 = ground (arith, f) in
        rw (first, behind) ((ground arith, lacks), ap (◌∷◌ c) spelled)
  ]
]

no_sep : (b : ℕ) (s : Bytes) → cut s (b ∷ []) ≡ none → Lacks b s
unfolding cut cut_prefix
no_sep b [] e = tt
no_sep b (c ∷ s) e = elim (Option-cases (cut s (b ∷ []))) [
  | inl n ↦ (ground arith, no_sep b s n)
  | inr ((m, t), f) ↦ absurd (ground (arith, f))
]

trim_cases : (s t : Bytes) → (s ≡ trim_suffix s t) ⊎ (s ≡ trim_suffix s t ++ t)
unfolding trim_suffix
trim_cases s t = elim (Option-cases (cut_suffix s t)) [
  | inl n ↦ inl (rw (n, trim_suffix) refl)
  | inr (r, e) ↦ inr (rw (e, trim_suffix) (cut_suffix-append_inv s t r e))
]

trim_nil : trim_suffix [] (slash ∷ []) ≡ []
unfolding trim_suffix cut_suffix cut_prefix reversed
trim_nil = refl

module _ (esc : Escaper) where
  -- the name is an escaped module path, "@", an escaped version, and the path in the zip, with or
  -- without a slash behind it; a name that ends with the version is the root
  pub record Spells (name : Bytes) (p : GmPath) : Type 0 where
    pub em : Bytes
    pub ev : Bytes
    pub tail : Bytes
    pub spelled : name ≡ em ++ b'@' ∷ (ev ++ tail)
    pub first_at : Lacks b'@' em
    pub one_element : Lacks slash ev
    pub is_path :
        ((tail ≡ []) × (p.path ≡ []))
        ⊎ (tail ≡ slash ∷ p.path)
        ⊎ (tail ≡ slash ∷ (p.path ++ slash ∷ []))
    pub is_module : esc.unescape_path em ≡ some p.mod_version.module_path
    pub is_version : esc.unescape_version ev ≡ some p.mod_version.version
    pub exists : p.not_exist ≡ false

  unescaped_inv :
      (em ev : Bytes)
      → (unescaped esc em ev).1 ≡ true
      → (esc.unescape_path em ≡ some (unescaped esc em ev).0.module_path)
        × (esc.unescape_version ev ≡ some (unescaped esc em ev).0.version)
  unfolding unescaped
  unescaped_inv em ev h = elim (Option-cases (esc.unescape_path em)) [
    | inl n ↦ absurd (ground (arith, n))
    | inr (m, f) ↦ elim (Option-cases (esc.unescape_version ev)) [
      | inl n ↦ absurd (ground (arith, f, n))
      | inr (v, g) ↦ rw (f, unescaped, g) (refl, refl)
    ]
  ]

  tail_cases :
      (inside : Bytes)
      → (slash ∷ inside ≡ slash ∷ trim_suffix inside (slash ∷ []))
        ⊎ (slash ∷ inside ≡ slash ∷ (trim_suffix inside (slash ∷ []) ++ slash ∷ []))
  tail_cases inside = elim (trim_cases inside (slash ∷ [])) [
    | inl e ↦ inl (ap (◌∷◌ slash) e)
    | inr e ↦ inr (ap (◌∷◌ slash) e)
  ]

  parse_in_zip-found :
      (seen : Seen) (em vp ev inside : Bytes)
      → IsMemo esc seen
      → cut_or_whole vp (slash ∷ []) ≡ (ev, inside)
      → (parse_in_zip esc seen em vp).0.in_zip ≡ true
      → ((unescaped esc em ev).1 ≡ true)
        × ((parse_in_zip esc seen em vp).0 ≡ record no_path {
          mod_version = (unescaped esc em ev).0;
          path = trim_suffix inside (slash ∷ []);
          in_zip = true;
        })
  unfolding parse_in_zip
  parse_in_zip-found seen em vp ev inside memo e h =
      let (same, _) = parse_mod_version-unescaped esc seen em ev memo in
      elim (Bool-cases (unescaped esc em ev).1) [
        | inl found ↦ rw (e, same, found) (refl, refl)
        | inr lost ↦ absurd (not_in_zip (rw (e, same, lost) at h))
      ]
    where
      not_in_zip : false ≡ true → ⊥
      not_in_zip h = cc

  found-Spells :
      (name em ev tail inside : Bytes)
      → name ≡ em ++ b'@' ∷ (ev ++ tail)
      → Lacks b'@' em
      → Lacks slash ev
      → ((tail ≡ []) × (trim_suffix inside (slash ∷ []) ≡ [])) ⊎ (tail ≡ slash ∷ inside)
      → (unescaped esc em ev).1 ≡ true
      → Spells name (record no_path {
        mod_version = (unescaped esc em ev).0;
        path = trim_suffix inside (slash ∷ []);
        in_zip = true;
      })
  found-Spells name em ev tail inside spelled first one behind found =
      let (is_module, is_version) = unescaped_inv em ev found in
      record {
        em = em;
        ev = ev;
        tail = tail;
        spelled = spelled;
        first_at = first;
        one_element = one;
        is_path = path_of behind;
        is_module = is_module;
        is_version = is_version;
        exists = refl;
      }
    where
      path_of :
          ((tail ≡ []) × (trim_suffix inside (slash ∷ []) ≡ [])) ⊎ (tail ≡ slash ∷ inside)
          → ((tail ≡ []) × (trim_suffix inside (slash ∷ []) ≡ []))
            ⊎ (tail ≡ slash ∷ trim_suffix inside (slash ∷ []))
            ⊎ (tail ≡ slash ∷ (trim_suffix inside (slash ∷ []) ++ slash ∷ []))
      path_of (inl root) = inl root
      path_of (inr e) = elim (tail_cases inside) [
        | inl f ↦ inr (inl (e ∙ f))
        | inr f ↦ inr (inr (e ∙ f))
      ]

  parse_in_zip-Spells :
      (seen : Seen) (name em vp : Bytes)
      → IsMemo esc seen
      → name ≡ em ++ b'@' ∷ vp
      → Lacks b'@' em
      → (parse_in_zip esc seen em vp).0.in_zip ≡ true
      → Spells name (parse_in_zip esc seen em vp).0
  unfolding cut_or_whole
  parse_in_zip-Spells seen name em vp memo e first h = elim (Option-cases (cut vp (slash ∷ []))) [
    | inl whole ↦
        let (found, is) =
          parse_in_zip-found seen em vp vp [] memo (rw (whole, cut_or_whole) refl) h in
        rw is (
          found-Spells name em vp [] []
            (e ∙ ap (λ (t : Bytes). em ++ b'@' ∷ t) (sym (append-nil vp))) first
            (no_sep slash vp whole) (inl (refl, trim_nil)) found)
    | inr ((ev, inside), parts) ↦
        let (one, behind) = cut_inv slash vp ev inside parts in
        let (found, is) =
          parse_in_zip-found seen em vp ev inside memo (rw (parts, cut_or_whole) refl) h in
        rw is (
          found-Spells name em ev (slash ∷ inside) inside
            (e ∙ ap (λ (t : Bytes). em ++ b'@' ∷ t) behind) first one (inr refl) found)
  ]

  parse_download-in_zip : (seen : Seen) (s : Bytes) → (parse_download esc seen s).0.in_zip ≡ false
  unfolding parse_download
  parse_download-in_zip seen s = elim (Option-cases (cut s (codes "/@v/"))) [
    | inl absent ↦ rw (absent, parse_download) refl
    | inr ((m, ev), present) ↦
        rw (present, parse_download)
          (elim (Bool-cases (is_empty (path_ext ev))) [
            | inl no_ext ↦ rw no_ext refl
            | inr some_ext ↦ elim (Bool-cases (known_ext (path_ext ev))) [
              | inl known ↦ rw (some_ext, known) refl
              | inr unknown ↦ rw (some_ext, unknown) refl
            ]
          ])
  ]

  -- What `parsePath` takes for a file in the zip of a module version exists, and its name is the
  -- escaped module path, "@", the escaped version and the path in the zip, with or without one
  -- slash behind it: the escaped path, which has no "@", and the escaped version, which has no
  -- slash, unescape to that version. Names below "tsgo-" are left out; the table of seen pairs has
  -- to be right.
  pub parse_path-Spells :
      (seen : Seen) (name : Bytes)
      → IsMemo esc seen
      → has_prefix name (codes "tsgo-") ≡ false
      → (parse_path esc seen name).0.in_zip ≡ true
      → Spells name (parse_path esc seen name).0
  unfolding parse_path
  parse_path-Spells seen name memo not_tsgo h = elim (Bool-cases (beq name status_file)) [
    | inl status ↦ absurd (apart (rw status at h))
    | inr other ↦ elim (Option-cases (cut_prefix name (codes "cache/download/"))) [
      | inr (dl, cached) ↦
          absurd
            (cached_apart dl (is_dot_file name) (rw (other, not_tsgo, cached, parse_path) at h))
      | inl zip ↦ elim (Option-cases (cut name (b'@' ∷ []))) [
        | inl no_at ↦
            absurd (plain_apart (is_dot_file name) (rw (other, not_tsgo, zip, no_at) at h))
        | inr ((m, vp), at) ↦
            let (first, spelled) = cut_inv b'@' name m vp at in
            rw (other, not_tsgo, zip, at)
              (parse_in_zip-Spells seen name m vp memo spelled first
                (rw (other, not_tsgo, zip, at) at h))
      ]
    ]
  ]
    where
      apart : false ≡ true → ⊥
      apart e = cc

      cached_apart :
          (dl : Bytes) (b : Bool)
          → (if b then (missing_path, seen) else parse_download esc seen dl).0.in_zip ≡ true
          → ⊥
      cached_apart dl true e = apart e
      cached_apart dl false e = apart (sym (parse_download-in_zip seen dl) ∙ e)

      plain_apart : (b : Bool) → (if b then missing_path else no_path).in_zip ≡ true → ⊥
      plain_apart true e = apart e
      plain_apart false e = apart e
