-- ===== src/Nfs/Found.antt =====
-- What `fromHandle` of nfs.go finds, against the meaning of handles.
use gomodfs.Base.{
  ℕ, Bytes, codes, List, [], ◌++◌, Option, none, some, true, ◌≡◌, inl, inr, refl, sym, beq, beq→eq,
  Bool-cases, Option-cases, none-ne-some, is_empty, Result, ok, err,
}
use gomodfs.Store.{ModuleVersion, is_valid, Escaper}
use gomodfs.Paths.{
  wk_tsgo_extracted, TsgoTriple, tsgo_zip_root, is_tsgo_module, cd_path, mod_ver_zip_prefix,
}
use gomodfs.Modules.Handles.{HandleTarget, HandleMaps, hash_mod_version}
use gomodfs.Nfs.Handles.{
  Handle, zero_half, well_known_hash, zero_handle, status_handle, handle_eq, target_of, Listings,
  Server, target_at, path_target_at, Walk, found, going, stopped, spent,
}
use gomodfs.Nfs.Search.{
  fixed_paths, add_versions, no_maps, filled, with_versions, init_from,
  handle_target_with_path_hash, module_version_with_hash, do_dir, well_known_target, path_answer,
  version_answer, walk_answer, in_root, in_version, search, remembered, from_handle,
}
use gomodfs.Nfs.Names.{
  Names, root, status, metadata, extracted, in_zip, MapsAgree, IsSound, Answers, target_of-Names,
  version_at-hash, path_target_at-Names, add_versions-Agree, add_fixed-Agree, handle_eq-eq,
}
use gomodfs.Nfs.Walks.{IsHit, do_dir-IsHit}

module _ {W H : Type 0} (sha256 : Bytes → Bytes) (esc : Escaper) (store : Listings W H) where
  -- `fromHandle` ends with a target of the handle, or an error, in a sound state
  abbrev Ends : Handle → Result HandleTarget × Server W → Type 0
  Ends h (r, s) = Answers sha256 esc h r × IsSound sha256 esc s

  abbrev MapsEnd : Result HandleMaps × Server W → Type 0
  MapsEnd (err e, s) = IsSound sha256 esc s
  MapsEnd (ok m, s) = MapsAgree sha256 esc (some m) × IsSound sha256 esc s

  abbrev VersionEnds : Bytes → Result ModuleVersion × Server W → Type 0
  VersionEnds h (err e, s) = IsSound sha256 esc s
  VersionEnds h (ok mv, s) =
      (is_valid mv ≡ true → h ≡ hash_mod_version sha256 esc mv) × IsSound sha256 esc s

  filled-Ends :
      (s : Server W) (mvs : List ModuleVersion)
      → IsSound sha256 esc s
      → MapsEnd (filled sha256 esc mvs s)
  unfolding filled
  filled-Ends s mvs sound = elim (Option-cases (add_versions sha256 esc mvs no_maps)) [
    | inl n ↦ rw (filled, n) sound
    | inr (m, h) ↦
        let a =
          add_fixed-Agree sha256 esc fixed_paths m
            (add_versions-Agree sha256 esc mvs no_maps m (tt, tt) h) in
        rw (filled, h) (a, record { named = sound.named; agree = a; memo = sound.memo })
  ]

  with_versions-Ends :
      (s : Server W) (r : Result (List ModuleVersion) × W)
      → IsSound sha256 esc s
      → MapsEnd (with_versions sha256 esc s r)
  with_versions-Ends s (err e, w) sound = record {
    named = sound.named;
    agree = sound.agree;
    memo = sound.memo;
  }
  with_versions-Ends s (ok mvs, w) sound =
      filled-Ends (record s { world = w }) mvs
        (record { named = sound.named; agree = sound.agree; memo = sound.memo })

  init_from-Ends :
      (o : Option HandleMaps) (s : Server W)
      → MapsAgree sha256 esc o
      → IsSound sha256 esc s
      → MapsEnd (init_from sha256 esc store o s)
  unfolding init_from
  init_from-Ends (some m) s a sound = (a, sound)
  init_from-Ends none s a sound = with_versions-Ends s (store.cached_modules s.world) sound

  path_answer-Ends :
      (h : Bytes) (r : Result HandleMaps × Server W)
      → MapsEnd r
      → Ends (zero_half, h) (path_answer h r)
  unfolding path_answer
  path_answer-Ends h (err e, s) sound = (tt, sound)
  path_answer-Ends h (ok m, s) ((v, p), sound) =
      elim (Option-cases (path_target_at m.path_hash_target h)) [
        | inl n ↦ rw (path_answer, n) (tt, sound)
        | inr (t, e) ↦
            rw (path_answer, e) (path_target_at-Names sha256 esc m.path_hash_target h t p e, sound)
      ]

  version_answer-Ends :
      (h : Bytes) (r : Result HandleMaps × Server W)
      → MapsEnd r
      → VersionEnds h (version_answer h r)
  unfolding version_answer
  version_answer-Ends h (err e, s) sound = sound
  version_answer-Ends h (ok m, s) ((v, p), sound) =
      (λ valid. version_at-hash sha256 esc m.mod_ver_hash h v valid, sound)

  metadata_at :
      (mv : ModuleVersion) (ext h : Bytes) (t : HandleTarget)
      → beq h (well_known_hash ext) ≡ true
      → some (target_at (cd_path esc mv ext)) ≡ some t
      → Names sha256 esc (hash_mod_version sha256 esc mv, h) t
  metadata_at mv ext h t is e =
      let same : target_at (cd_path esc mv ext) ≡ t = cc in
      rw (beq→eq h (well_known_hash ext) is, sym same) (metadata mv ext)

  extracted_at :
      (mv : ModuleVersion) (h : Bytes) (t : HandleTarget)
      → beq h (well_known_hash wk_tsgo_extracted) ≡ true
      → (o : Option TsgoTriple) → is_tsgo_module mv ≡ o
      → (elim o as (λ _. Option HandleTarget) [
        | none ↦ none
        | some trip ↦ some (target_at (tsgo_zip_root trip ++ codes ".extracted"))
      ])
        ≡ some t
      → Names sha256 esc (hash_mod_version sha256 esc mv, h) t
  extracted_at mv h t is none o e = absurd (cc)
  extracted_at mv h t is (some trip) o e =
      let same : target_at (tsgo_zip_root trip ++ codes ".extracted") ≡ t = cc in
      rw (beq→eq h (well_known_hash wk_tsgo_extracted) is, sym same) (extracted mv trip o)

  well_known_target-Names :
      (mv : ModuleVersion) (h : Bytes) (t : HandleTarget)
      → well_known_target sha256 esc mv h ≡ some t
      → Names sha256 esc (hash_mod_version sha256 esc mv, h) t
  unfolding well_known_target
  well_known_target-Names mv h t e = elim (Bool-cases (beq h (well_known_hash (codes "info")))) [
    | inl is ↦ metadata_at mv (codes "info") h t is (rw is at e)
    | inr n1 ↦ elim (Bool-cases (beq h (well_known_hash (codes "mod")))) [
      | inl is ↦ metadata_at mv (codes "mod") h t is (rw (n1, is) at e)
      | inr n2 ↦ elim (Bool-cases (beq h (well_known_hash (codes "ziphash")))) [
        | inl is ↦ metadata_at mv (codes "ziphash") h t is (rw (n1, n2, is) at e)
        | inr n3 ↦ elim (Bool-cases (beq h (well_known_hash wk_tsgo_extracted))) [
          | inr n4 ↦ absurd (none-ne-some (rw (n1, n2, n3, n4) at e))
          | inl is ↦ extracted_at mv h t is (is_tsgo_module mv) refl (rw (n1, n2, n3, is) at e)
        ]
      ]
    ]
  ]

  walk_answer-Ends :
      (mv : ModuleVersion) (s : Server W) (h : Bytes) (r : Walk × W)
      → IsSound sha256 esc s
      → IsHit sha256 esc store h r
      → Ends (hash_mod_version sha256 esc mv, h) (walk_answer esc mv s r)
  unfolding walk_answer
  walk_answer-Ends mv s h (found p, w) sound hit = elim (Option-cases (mod_ver_zip_prefix esc mv)) [
    | inl n ↦
        rw (walk_answer, n)
          (tt, record { named = sound.named; agree = sound.agree; memo = sound.memo })
    | inr (q, e) ↦
        rw (walk_answer, e)
          (
            rw (sym hit) (in_zip mv q p e),
            record { named = sound.named; agree = sound.agree; memo = sound.memo },
          )
  ]
  walk_answer-Ends mv s h (going, w) sound hit =
      (tt, record { named = sound.named; agree = sound.agree; memo = sound.memo })
  walk_answer-Ends mv s h (stopped, w) sound hit =
      (tt, record { named = sound.named; agree = sound.agree; memo = sound.memo })
  walk_answer-Ends mv s h (spent, w) sound hit =
      (tt, record { named = sound.named; agree = sound.agree; memo = sound.memo })

  in_root-Ends :
      (fuel : ℕ) (mv : ModuleVersion) (h : Bytes) (s : Server W) (r : Result H × W)
      → IsSound sha256 esc s
      → Ends (hash_mod_version sha256 esc mv, h) (in_root sha256 esc store fuel mv h s r)
  unfolding in_root
  in_root-Ends fuel mv h s (err e, w) sound =
      (tt, record { named = sound.named; agree = sound.agree; memo = sound.memo })
  in_root-Ends fuel mv h s (ok mh, w) sound =
      walk_answer-Ends mv s h (do_dir sha256 esc store fuel mh h [] w) sound
        (do_dir-IsHit sha256 esc store fuel mh h [] w)

  in_version-Ends :
      (fuel : ℕ) (k h : Bytes) (r : Result ModuleVersion × Server W)
      → VersionEnds k r
      → Ends (k, h) (in_version sha256 esc store fuel h r)
  unfolding in_version
  in_version-Ends fuel k h (err e, s) sound = (tt, sound)
  in_version-Ends fuel k h (ok mv, s) (is, sound) = elim (Bool-cases (is_valid mv)) [
    | inr invalid ↦ rw (in_version, invalid) (tt, sound)
    | inl valid ↦ elim (Option-cases (well_known_target sha256 esc mv h)) [
      | inr (t, e) ↦
          rw (in_version, valid, e) (rw (is valid) (well_known_target-Names mv h t e), sound)
      | inl n ↦
          rw (in_version, valid, n, is valid)
            (in_root-Ends fuel mv h s (store.get_zip_root mv s.world) sound)
    ]
  ]

  search-Ends :
      (fuel : ℕ) (h : Handle) (s : Server W)
      → IsSound sha256 esc s
      → Ends h (search sha256 esc store fuel h s)
  unfolding search handle_target_with_path_hash module_version_with_hash
  search-Ends fuel (a, b) s sound =
      let maps = init_from-Ends s.maps s sound.agree sound in
      let r = init_from sha256 esc store s.maps s in
      elim (Bool-cases (beq a zero_half)) [
        | inl is ↦ rw is (rw (beq→eq a zero_half is) (path_answer-Ends b r maps))
        | inr differs ↦
            rw differs
              (in_version-Ends fuel a b (version_answer a r) (version_answer-Ends a r maps))
      ]

  remembered-Ends :
      (h : Handle) (r : Result HandleTarget × Server W) → Ends h r → Ends h (remembered h r)
  remembered-Ends h (err e, s) ends = ends
  remembered-Ends h (ok t, s) (n, sound) = elim (Bool-cases (is_empty t.path)) [
    | inl none_at ↦ rw none_at (tt, sound)
    | inr some_at ↦
        rw some_at (n, record { named = (n, sound.named); agree = sound.agree; memo = sound.memo })
  ]

  -- `fromHandle` in a sound state
  pub from_handle-Ends :
      (fuel : ℕ) (h : Handle) (s : Server W)
      → IsSound sha256 esc s
      → Ends h (from_handle sha256 esc store fuel h s)
  unfolding from_handle
  from_handle-Ends fuel h s sound = elim (Bool-cases (handle_eq h zero_handle)) [
    | inl is ↦ rw is (rw (handle_eq-eq h zero_handle is) root, sound)
    | inr no_root ↦ elim (Bool-cases (handle_eq h status_handle)) [
      | inl is ↦ rw (no_root, is) (rw (handle_eq-eq h status_handle is) status, sound)
      | inr no_status ↦ elim (Option-cases (target_of s.handles h)) [
        | inr (t, e) ↦
            rw (from_handle, no_root, no_status, e)
              (target_of-Names sha256 esc s.handles h t sound.named e, sound)
        | inl n ↦
            rw (from_handle, no_root, no_status, n)
              (remembered-Ends h (search sha256 esc store fuel h s) (search-Ends fuel h s sound))
      ]
    ]
  ]
