-- ===== src/Paths/Memo.antt =====
-- The table of seen pairs of path.go (`seenPairs`).
use gomodfs.Base.{
  Bytes, [], ◌∷◌, some, true, ◌≡◌, refl, sym, arith, beq, beq_iff, All, Bool-cases, Option-cases,
  inl, inr, is_empty, if◌then◌else◌,
}
use gomodfs.Store.{ModuleVersion, Escaper}
use gomodfs.Text.{cut, cut_prefix, path_ext, trim_suffix, cut_or_whole, slash, has_prefix}
use gomodfs.Base.{codes}
use gomodfs.Paths.{
  GmPath, Seen, load, unescaped, parse_mod_version, parse_download, parse_in_zip, parse_path,
  known_ext, is_dot_file, status_file,
}

module _ (esc : Escaper) where
  -- every pair in the table stands for what unescaping it gives
  abbrev pub IsMemo : Seen → Type 0
  IsMemo = All (λ e. unescaped esc e.0.0 e.0.1 ≡ (e.1, true))

  load_sound :
      (seen : Seen) (m v : Bytes) (mv : ModuleVersion)
      → IsMemo seen
      → load seen m v ≡ some mv
      → unescaped esc m v ≡ (mv, true)
  unfolding load
  load_sound [] m v mv h e = cc
  load_sound (((m', v'), mv') ∷ seen) m v mv h e =
      ground (arith, beq_iff m' m, beq_iff v' v, h.0, load_sound seen m v mv h.1)

  -- `parseModVersion` gives what unescaping the pair gives, seen before or not, and the table stays
  -- right.
  pub parse_mod_version-unescaped :
      (seen : Seen) (m v : Bytes)
      → IsMemo seen
      → ((parse_mod_version esc seen m v).0 ≡ unescaped esc m v)
        × IsMemo (parse_mod_version esc seen m v).1
  unfolding parse_mod_version
  parse_mod_version-unescaped seen m v h = elim (Option-cases (load seen m v)) [
    | inr (mv, hit) ↦ rw (hit, parse_mod_version) (sym (load_sound seen m v mv h hit), h)
    | inl miss ↦ rw (miss, parse_mod_version) (refl, kept)
  ]
    where
      kept : IsMemo (if (unescaped esc m v).1 then ((m, v), (unescaped esc m v).0) ∷ seen else seen)
      kept = elim (Bool-cases (unescaped esc m v).1) [
        | inl found ↦ rw found ((λ i. ((unescaped esc m v).0, found i)), h)
        | inr lost ↦ rw lost h
      ]

  -- the result of a parse with the table `seen`, beside the result with an empty one
  abbrev Agrees : (Seen → GmPath × Seen) → Seen → Type 0
  Agrees parse seen = ((parse seen).0 ≡ (parse []).0) × IsMemo (parse seen).1

  parse_in_zip-Agrees :
      (seen : Seen) (m vp : Bytes) → IsMemo seen → Agrees (λ t. parse_in_zip esc t m vp) seen
  unfolding parse_in_zip
  parse_in_zip-Agrees seen m vp h =
      let v = (cut_or_whole vp (slash ∷ [])).0 in
      let (e, kept) = parse_mod_version-unescaped seen m v h in
      let (e', _) = parse_mod_version-unescaped [] m v tt in
      elim (Bool-cases (unescaped esc m v).1) [
        | inl found ↦ rw (e, e', found) (refl, kept)
        | inr lost ↦ rw (e, e', lost) (refl, kept)
      ]

  parse_download-Agrees :
      (seen : Seen) (s : Bytes) → IsMemo seen → Agrees (λ t. parse_download esc t s) seen
  unfolding parse_download
  parse_download-Agrees seen s h = elim (Option-cases (cut s (codes "/@v/"))) [
    | inl absent ↦ rw (absent, parse_download) (refl, h)
    | inr ((m, ev), present) ↦
        let v = trim_suffix ev (path_ext ev) in
        let (e, kept) = parse_mod_version-unescaped seen m v h in
        let (e', _) = parse_mod_version-unescaped [] m v tt in
        elim (Bool-cases (is_empty (path_ext ev))) [
          | inl no_ext ↦ rw (present, parse_download, no_ext) (refl, h)
          | inr some_ext ↦ elim (Bool-cases (known_ext (path_ext ev))) [
            | inl known ↦ rw (present, parse_download, some_ext, known, e, e') (refl, kept)
            | inr unknown ↦ rw (present, parse_download, some_ext, unknown) (refl, h)
          ]
        ]
  ]

  -- Whatever was parsed before, a path parses as it does with an empty table, and the table stays
  -- right.
  pub parse_path-IsMemo :
      (seen : Seen) (name : Bytes)
      → IsMemo seen
      → ((parse_path esc seen name).0 ≡ (parse_path esc [] name).0)
        × IsMemo (parse_path esc seen name).1
  unfolding parse_path
  parse_path-IsMemo seen name h = elim (Bool-cases (beq name status_file)) [
    | inl status ↦ rw status (refl, h)
    | inr other ↦ elim (Bool-cases (has_prefix name (codes "tsgo-"))) [
      | inl tsgo ↦ rw (other, tsgo) (refl, h)
      | inr not_tsgo ↦ elim (Option-cases (cut_prefix name (codes "cache/download/"))) [
        | inr (dl, cached) ↦ elim (Bool-cases (is_dot_file name)) [
          | inl dots ↦ rw (other, not_tsgo, cached, parse_path, dots) (refl, h)
          | inr plain ↦
              rw (other, not_tsgo, cached, parse_path, plain) (parse_download-Agrees seen dl h)
        ]
        | inl zip ↦ elim (Option-cases (cut name (b'@' ∷ []))) [
          | inl no_at ↦ rw (other, not_tsgo, zip, no_at) (refl, h)
          | inr ((m, vp), at) ↦ rw (other, not_tsgo, zip, at) (parse_in_zip-Agrees seen m vp h)
        ]
      ]
    ]
  ]
