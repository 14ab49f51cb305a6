-- ===== src/Nfs/Walks.antt =====
-- What the walk over the files of a module finds, for `fromHandle` of nfs.go.
use gomodfs.Base.{
  ℕ, zero, suc, Bytes, List, [], ◌∷◌, ◌≡◌, inl, inr, if◌then◌else◌, beq, beq→eq, Bool-cases, Result,
  ok, err,
}
use gomodfs.Store.{is_dir, Dirent, Escaper}
use gomodfs.Nfs.Handles.{Listings, Walk, found, going, stopped, spent, sub_path}
use gomodfs.Nfs.Search.{do_dir, do_entries, listed, going_on}

module _ {W H : Type 0} (sha256 : Bytes → Bytes) (esc : Escaper) (store : Listings W H) where
  -- a path that the walk finds has the hash that is looked for
  abbrev pub IsHit : Bytes → Walk × W → Type 0
  IsHit want (found p, w) = sha256 p ≡ want
  IsHit want (going, w) = Unit
  IsHit want (stopped, w) = Unit
  IsHit want (spent, w) = Unit

  file-IsHit :
      (want sub : Bytes) (w : W)
      → IsHit want (if beq (sha256 sub) want then (found sub, w) else (going, w))
  file-IsHit want sub w = elim (Bool-cases (beq (sha256 sub) want)) [
    | inl is ↦ rw is (beq→eq (sha256 sub) want is)
    | inr differs ↦ rw differs tt
  ]

  listed-IsHit :
      (want : Bytes) (entries : List Dirent → W → Walk × W)
      → ((ents : List Dirent) (w : W) → IsHit want (entries ents w))
      → (r : Result (List Dirent) × W) → IsHit want (listed entries r)
  listed-IsHit want entries h (err e, w) = tt
  listed-IsHit want entries h (ok ents, w) = h ents w

  going_on-IsHit :
      (want : Bytes) (rest : W → Walk × W)
      → ((w : W) → IsHit want (rest w))
      → (r : Walk × W) → IsHit want r
      → IsHit want (going_on rest r)
  going_on-IsHit want rest h (going, w) hit = h w
  going_on-IsHit want rest h (found p, w) hit = hit
  going_on-IsHit want rest h (stopped, w) hit = tt
  going_on-IsHit want rest h (spent, w) hit = tt

  mutual
    unfolding do_dir beq

    pub do_dir-IsHit :
        (fuel : ℕ) (mh : H) (want path : Bytes) (w : W)
        → IsHit want (do_dir sha256 esc store fuel mh want path w)
    do_dir-IsHit zero mh want path w = tt
    do_dir-IsHit (suc fuel) mh want path w =
        let rest =
          listed-IsHit want (do_entries sha256 esc store fuel mh want path)
            (λ ents v. do_entries-IsHit fuel mh want path ents v) (store.readdir mh path w) in
        elim (Bool-cases (beq (sha256 path) want)) [
          | inl is ↦ rw is (beq→eq (sha256 path) want is)
          | inr differs ↦ rw differs rest
        ]

    do_entries-IsHit :
        (fuel : ℕ) (mh : H) (want path : Bytes) (ents : List Dirent) (w : W)
        → IsHit want (do_entries sha256 esc store fuel mh want path ents w)
    do_entries-IsHit zero mh want path ents w = tt
    do_entries-IsHit (suc fuel) mh want path [] w = tt
    do_entries-IsHit (suc fuel) mh want path (ent ∷ ents) w =
        let sub = sub_path path ent.name in
        let inside = do_dir-IsHit fuel mh want sub w in
        let here = file-IsHit want sub w in
        going_on-IsHit want (do_entries sha256 esc store fuel mh want path ents)
          (λ v. do_entries-IsHit fuel mh want path ents v)
          (if is_dir ent.mode
            then do_dir sha256 esc store fuel mh want sub w
            else (if beq (sha256 sub) want then (found sub, w) else (going, w)))
          (elim (Bool-cases (is_dir ent.mode)) [ inl d ↦ rw d inside | inr d ↦ rw d here ])
