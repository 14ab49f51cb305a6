-- ===== src/Remote/Client/Cache.antt =====
-- The caches of the client of store/remotestore/remotestore.go.
use gomodfs.Base.{
  ℕ, Bytes, ◌≡◌, refl, List, ◌∷◌, some, Option-cases, inl, inr, arith, Result, ok, err, and_then,
  beq_refl,
}
use gomodfs.Store.{ModuleVersion, mv_eq_iff, Escaper}
use gomodfs.Remote.Client.{Web, Client, find_meta, get_meta_file, fetch_meta_file, cache_meta}

module _ {N : Type 0} (esc : Escaper) (web : Web N) (base_url : Bytes) (fuel : ℕ) where
  find_meta-new :
      (mv : ModuleVersion) (ext v : Bytes) (m : List ((ModuleVersion × Bytes) × Bytes))
      → find_meta mv ext (((mv, ext), v) ∷ m) ≡ some v
  unfolding find_meta
  find_meta-new mv ext v m = ground (arith, mv_eq_iff mv mv, beq_refl ext)

  get_meta_file-cached :
      (mv : ModuleVersion) (ext v : Bytes) (s : Client N)
      → find_meta mv ext s.meta ≡ some v
      → get_meta_file esc web base_url fuel mv ext s ≡ (ok v, s)
  unfolding get_meta_file
  get_meta_file-cached mv ext v s h = rw (h, get_meta_file) refl

  kept :
      (mv : ModuleVersion) (ext v : Bytes) (s' : Client N) (r : Result Bytes × Client N)
      → and_then r (cache_meta esc web base_url fuel mv ext) ≡ (ok v, s')
      → find_meta mv ext s'.meta ≡ some v
  kept mv ext v s' (ok a, s1) h = ground (arith, find_meta-new mv ext a s1.meta)
  kept mv ext v s' (err e, s1) h = cc

  cached_after :
      (mv : ModuleVersion) (ext v : Bytes) (s s' : Client N)
      → get_meta_file esc web base_url fuel mv ext s ≡ (ok v, s')
      → find_meta mv ext s'.meta ≡ some v
  unfolding get_meta_file
  cached_after mv ext v s s' h = elim (Option-cases (find_meta mv ext s.meta)) [
    | inl new ↦
        kept mv ext v s' (fetch_meta_file esc web base_url fuel mv ext s)
          (rw (new, get_meta_file) at h)
    | inr (v0, known) ↦
        let e : ◌≡◌ {A = Result Bytes × Client N} (ok v0, s) (ok v, s') =
          rw (known, get_meta_file) at h in
        ground (arith, known)
  ]

  -- Once the client has returned a metadata file, it returns the same contents again, and neither
  -- asks the server nor changes its state.
  pub get_meta_file-again :
      (mv : ModuleVersion) (ext v : Bytes) (s s' : Client N)
      → get_meta_file esc web base_url fuel mv ext s ≡ (ok v, s')
      → get_meta_file esc web base_url fuel mv ext s' ≡ (ok v, s')
  get_meta_file-again mv ext v s s' h =
      get_meta_file-cached mv ext v s' (cached_after mv ext v s s' h)
