-- ===== src/Git/Refs/Distinct.antt =====
-- The list of `CachedModules` of store/gitstore/gitstore.go, when several refs name a module
-- version.
use gomodfs.Base.{Bytes, List, [], ◌∷◌, false, ◌≡◌, Option-cases, Bool-cases, inl, inr}
use gomodfs.Store.{ModuleVersion, Escaper}
use gomodfs.Text.{split}
use gomodfs.Git.Refs.{PathEscaper, parse_ref_line, parse_refs, seen_mv, cached_modules}

-- every element is neither in `seen` nor among the elements before it
abbrev pub AllFresh : List ModuleVersion → List ModuleVersion → Type 0
AllFresh seen [] = Unit
AllFresh seen (mv ∷ mvs) = (seen_mv mv seen ≡ false) × AllFresh (mv ∷ seen) mvs

module _ (esc : Escaper) (url : PathEscaper) where
  parse_refs-AllFresh :
      (lines : List Bytes) (seen : List ModuleVersion)
      → AllFresh seen (parse_refs esc url lines seen)
  unfolding parse_refs
  parse_refs-AllFresh [] seen = tt
  parse_refs-AllFresh (line ∷ lines) seen = elim (Option-cases (parse_ref_line esc url line)) [
    | inl e ↦ rw (e, parse_refs) (parse_refs-AllFresh lines seen)
    | inr (mv, e) ↦ elim (Bool-cases (seen_mv mv seen)) [
      | inl old ↦ rw (e, old, parse_refs) (parse_refs-AllFresh lines seen)
      | inr new ↦ rw (e, new, parse_refs) (new, parse_refs-AllFresh lines (mv ∷ seen))
    ]
  ]

  -- Whatever git prints as the list of refs, every module version that is listed from it differs
  -- from those listed before it.
  pub cached_modules-AllFresh : (out : Bytes) → AllFresh [] (cached_modules esc url out)
  unfolding cached_modules
  cached_modules-AllFresh out = parse_refs-AllFresh (split out b'\n') []
