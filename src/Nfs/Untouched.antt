-- ===== src/Nfs/Untouched.antt =====
-- The search of `fromHandle` in nfs.go leaves the map `handle` alone.
use gomodfs.Base.{
  ℕ, Bytes, List, [], Option, none, some, ◌≡◌, inl, inr, refl, ◌∙◌, beq, Bool-cases, Option-cases,
  Result, ok, err,
}
use gomodfs.Store.{ModuleVersion, is_valid, Escaper}
use gomodfs.Paths.{mod_ver_zip_prefix}
use gomodfs.Modules.Handles.{HandleMaps}
use gomodfs.Nfs.Handles.{
  Handle, zero_half, Listings, Server, path_target_at, Walk, found, going, stopped, spent,
}
use gomodfs.Nfs.Search.{
  add_versions, no_maps, filled, with_versions, init_from, handle_target_with_path_hash,
  module_version_with_hash, do_dir, well_known_target, path_answer, version_answer, walk_answer,
  in_root, in_version, search,
}

module _ {W : Type 0} where
  path_answer-handles :
      (h : Bytes) (r : Result HandleMaps × Server W) → (path_answer h r).1.handles ≡ r.1.handles
  unfolding path_answer
  path_answer-handles h (err e, s) = refl
  path_answer-handles h (ok m, s) = elim (Option-cases (path_target_at m.path_hash_target h)) [
    | inl n ↦ rw (path_answer, n) refl
    | inr (t, e) ↦ rw (path_answer, e) refl
  ]

  version_answer-handles :
      (h : Bytes) (r : Result HandleMaps × Server W) → (version_answer h r).1.handles ≡ r.1.handles
  unfolding version_answer
  version_answer-handles h (err e, s) = refl
  version_answer-handles h (ok m, s) = refl

  walk_answer-handles :
      (esc : Escaper) (mv : ModuleVersion) (s : Server W) (r : Walk × W)
      → (walk_answer esc mv s r).1.handles ≡ s.handles
  unfolding walk_answer
  walk_answer-handles esc mv s (found p, w) = elim (Option-cases (mod_ver_zip_prefix esc mv)) [
    | inl n ↦ rw (walk_answer, n) refl
    | inr (q, e) ↦ rw (walk_answer, e) refl
  ]
  walk_answer-handles esc mv s (going, w) = refl
  walk_answer-handles esc mv s (stopped, w) = refl
  walk_answer-handles esc mv s (spent, w) = refl

module _ {W H : Type 0} (sha256 : Bytes → Bytes) (esc : Escaper) (store : Listings W H) where
  filled-handles :
      (mvs : List ModuleVersion) (s : Server W) → (filled sha256 esc mvs s).1.handles ≡ s.handles
  unfolding filled
  filled-handles mvs s = elim (Option-cases (add_versions sha256 esc mvs no_maps)) [
    | inl n ↦ rw (filled, n) refl
    | inr (m, e) ↦ rw (filled, e) refl
  ]

  with_versions-handles :
      (s : Server W) (r : Result (List ModuleVersion) × W)
      → (with_versions sha256 esc s r).1.handles ≡ s.handles
  with_versions-handles s (err e, w) = refl
  with_versions-handles s (ok mvs, w) = filled-handles mvs (record s { world = w })

  init_from-handles :
      (o : Option HandleMaps) (s : Server W)
      → (init_from sha256 esc store o s).1.handles ≡ s.handles
  unfolding init_from
  init_from-handles (some m) s = refl
  init_from-handles none s = with_versions-handles s (store.cached_modules s.world)

  in_root-handles :
      (fuel : ℕ) (mv : ModuleVersion) (h : Bytes) (s : Server W) (r : Result H × W)
      → (in_root sha256 esc store fuel mv h s r).1.handles ≡ s.handles
  unfolding in_root
  in_root-handles fuel mv h s (err e, w) = refl
  in_root-handles fuel mv h s (ok mh, w) =
      walk_answer-handles esc mv s (do_dir sha256 esc store fuel mh h [] w)

  in_version-handles :
      (fuel : ℕ) (h : Bytes) (r : Result ModuleVersion × Server W)
      → (in_version sha256 esc store fuel h r).1.handles ≡ r.1.handles
  unfolding in_version
  in_version-handles fuel h (err e, s) = refl
  in_version-handles fuel h (ok mv, s) = elim (Bool-cases (is_valid mv)) [
    | inr invalid ↦ rw (in_version, invalid) refl
    | inl valid ↦ elim (Option-cases (well_known_target sha256 esc mv h)) [
      | inr (t, e) ↦ rw (in_version, valid, e) refl
      | inl n ↦
          rw (in_version, valid, n) (in_root-handles fuel mv h s (store.get_zip_root mv s.world))
    ]
  ]

  pub search-handles :
      (fuel : ℕ) (h : Handle) (s : Server W)
      → (search sha256 esc store fuel h s).1.handles ≡ s.handles
  unfolding search handle_target_with_path_hash module_version_with_hash
  search-handles fuel h s =
      let r = init_from sha256 esc store s.maps s in
      elim (Bool-cases (beq h.0 zero_half)) [
        | inl is ↦ rw is (path_answer-handles h.1 r ∙ init_from-handles s.maps s)
        | inr differs ↦ rw differs (
            in_version-handles fuel h.1 (version_answer h.0 r)
            ∙ version_answer-handles h.0 r
            ∙ init_from-handles s.maps s)
      ]
