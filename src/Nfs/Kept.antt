-- ===== src/Nfs/Kept.antt =====
-- The map `handle` of nfs.go: a handle keeps its target.
use gomodfs.Base.{
  ℕ, Bytes, List, [], ◌∷◌, Option, none, some, true, false, ◌≡◌, inl, inr, refl, sym, ap, ◌∙◌, beq,
  beq_iff, Bool-cases, Option-cases, none-ne-some, is_empty, Result, ok, err,
}
use gomodfs.Store.{Escaper}
use gomodfs.Paths.{GmPath, status_file, parse_path, join_segs}
use gomodfs.Modules.Handles.{HandleTarget}
use gomodfs.Nfs.Handles.{
  Handle, zeros, well_known_hash, zero_handle, status_handle, handle_eq, target_of, Listings,
  Server, target_at, handle_for, noted, issue, path_handle, to_handle,
}
use gomodfs.Nfs.Search.{search, remembered, root_target, from_handle}
use gomodfs.Nfs.Names.{handle_eq-eq}
use gomodfs.Nfs.Issued.{Reaches, start, asked, used}
use gomodfs.Nfs.Untouched.{search-handles}

beq_self : (a : Bytes) → beq a a ≡ true
beq_self a = (beq_iff a a).1 refl

handle_eq_self : (h : Handle) → handle_eq h h ≡ true
unfolding handle_eq
handle_eq_self h = rw (beq_self h.0, beq_self h.1) refl

module _ {W : Type 0} where
  -- every handle that has a target in `s` has the same one in `s'`
  abbrev Keeps : Server W → Server W → Type 0
  Keeps s s' =
      (h : Handle) (t : HandleTarget)
      → target_of s.handles h ≡ some t
      → target_of s'.handles h ≡ some t

  noted-Keeps :
      (h : Handle) (t : HandleTarget) (o : Option HandleTarget) (s : Server W)
      → target_of s.handles h ≡ o
      → Keeps s (noted h t o s)
  unfolding target_of
  noted-Keeps h t (some u) s e k v f = f
  noted-Keeps h t none s e k v f = elim (Bool-cases (handle_eq h k)) [
    | inl is ↦
        let same = handle_eq-eq h k is in
        absurd (none-ne-some (sym e ∙ ap (target_of s.handles) same ∙ f))
    | inr differs ↦ rw differs f
  ]

  -- the handle that was noted has a target
  noted-target :
      (h : Handle) (t : HandleTarget) (o : Option HandleTarget) (s : Server W)
      → target_of s.handles h ≡ o
      → (u : HandleTarget) × (target_of (noted h t o s).handles h ≡ some u)
  unfolding target_of
  noted-target h t (some u) s e = (u, e)
  noted-target h t none s e = (t, rw (handle_eq_self h) refl)

module _ {W H : Type 0} (sha256 : Bytes → Bytes) (esc : Escaper) (store : Listings W H) where
  remembered-Keeps :
      (h : Handle) (s0 : Server W) (r : Result HandleTarget × Server W)
      → r.1.handles ≡ s0.handles
      → target_of s0.handles h ≡ none
      → Keeps s0 (remembered h r).1
  unfolding target_of
  remembered-Keeps h s0 (err e, s) is n k v f =
      ap (λ (m : List (Handle × HandleTarget)). target_of m k) is ∙ f
  remembered-Keeps h s0 (ok t, s) is n k v f =
      let old = ap (λ (m : List (Handle × HandleTarget)). target_of m k) is ∙ f in
      let new =
        noted-Keeps h t none s (ap (λ (m : List (Handle × HandleTarget)). target_of m h) is ∙ n) k v
          old in
      elim (Bool-cases (is_empty t.path)) [
        | inl none_at ↦ rw none_at old
        | inr some_at ↦ rw some_at new
      ]

  from_handle-known :
      (fuel : ℕ) (h : Handle) (s : Server W) (t : HandleTarget)
      → handle_eq h zero_handle ≡ false
      → handle_eq h status_handle ≡ false
      → target_of s.handles h ≡ some t
      → from_handle sha256 esc store fuel h s ≡ (ok t, s)
  unfolding from_handle
  from_handle-known fuel h s t n1 n2 e = rw (from_handle, n1, n2, e) refl

  from_handle-Keeps :
      (fuel : ℕ) (h : Handle) (s : Server W) → Keeps s (from_handle sha256 esc store fuel h s).1
  unfolding from_handle
  from_handle-Keeps fuel h s k v f = elim (Bool-cases (handle_eq h zero_handle)) [
    | inl is ↦ rw is f
    | inr no_root ↦ elim (Bool-cases (handle_eq h status_handle)) [
      | inl is ↦ rw (no_root, is) f
      | inr no_status ↦ elim (Option-cases (target_of s.handles h)) [
        | inr (t, e) ↦ rw (from_handle-known fuel h s t no_root no_status e) f
        | inl n ↦
            rw (from_handle, no_root, no_status, n)
              (remembered-Keeps h s (search sha256 esc store fuel h s)
                (search-handles sha256 esc store fuel h s) n k v f)
      ]
    ]
  ]

  path_handle-Keeps : (path : List Bytes) (s : Server W) → Keeps s (path_handle sha256 esc path s).1
  unfolding path_handle issue
  path_handle-Keeps path s k v f =
      let pp = (parse_path esc s.seen (join_segs path)).0 in
      let s1 = record s { seen = (parse_path esc s.seen (join_segs path)).1 } in
      let h = handle_for sha256 esc pp (join_segs path) in
      let t : HandleTarget = record { path = join_segs path; segs = path } in
      elim (Bool-cases pp.not_exist) [
        | inl missing ↦ rw missing f
        | inr there ↦ rw there (noted-Keeps h t (target_of s1.handles h) s1 refl k v f)
      ]

  to_handle-Keeps : (path : List Bytes) (s : Server W) → Keeps s (to_handle sha256 esc path s).1
  unfolding to_handle
  to_handle-Keeps [] s k v f = f
  to_handle-Keeps (p ∷ q ∷ path) s k v f = path_handle-Keeps (p ∷ q ∷ path) s k v f
  to_handle-Keeps (p ∷ []) s k v f = elim (Bool-cases (beq p status_file)) [
    | inl is ↦ rw is f
    | inr differs ↦ rw differs (path_handle-Keeps (p ∷ []) s k v f)
  ]

  Reaches-Keeps : (s0 s : Server W) → Reaches sha256 esc store s0 s → Keeps s0 s
  Reaches-Keeps s0 s start k v f = f
  Reaches-Keeps s0 s (asked s1 r path) k v f =
      to_handle-Keeps path s1 k v (Reaches-Keeps s0 s1 r k v f)
  Reaches-Keeps s0 s (used s1 r fuel h) k v f =
      from_handle-Keeps fuel h s1 k v (Reaches-Keeps s0 s1 r k v f)

  -- what `fromHandle` answers from `s` on
  abbrev pub Always : Server W → Handle → HandleTarget → Type 0
  Always s h t =
      (s' : Server W)
      → Reaches sha256 esc store s s'
      → (fuel : ℕ) → from_handle sha256 esc store fuel h s' ≡ (ok t, s')

  kept-Always :
      (s : Server W) (h : Handle) (t : HandleTarget)
      → target_of s.handles h ≡ some t
      → (u : HandleTarget) × Always s h u
  unfolding from_handle
  kept-Always s h t e = elim (Bool-cases (handle_eq h zero_handle)) [
    | inl is ↦ (root_target, λ s' r fuel. rw is refl)
    | inr no_root ↦ elim (Bool-cases (handle_eq h status_handle)) [
      | inl is ↦ (target_at status_file, λ s' r fuel. rw (no_root, is) refl)
      | inr no_status ↦ (
        t,
        λ s' r fuel. from_handle-known fuel h s' t no_root no_status (Reaches-Keeps s s' r h t e),
      )
    ]
  ]

  issue-target :
      (path : List Bytes) (path_str : Bytes) (pp : GmPath) (s : Server W) (h : Handle)
      → (issue sha256 esc path path_str pp s).0 ≡ some h
      → (t : HandleTarget) × (target_of (issue sha256 esc path path_str pp s).1.handles h ≡ some t)
  unfolding issue
  issue-target path path_str pp s h e =
      let g = handle_for sha256 esc pp path_str in
      let t0 : HandleTarget = record { path = path_str; segs = path } in
      elim (Bool-cases pp.not_exist) [
        | inl missing ↦ absurd (none-ne-some (rw missing at e))
        | inr there ↦
            let given : ◌≡◌ {A = Option Handle} (some g) (some h) = rw there at e in
            let same : g ≡ h = cc in
            let (t, f) = noted-target g t0 (target_of s.handles g) s refl in
            (t, rw there (rw (sym same) f))
      ]

  path_handle-target :
      (path : List Bytes) (s : Server W) (h : Handle)
      → (path_handle sha256 esc path s).0 ≡ some h
      → (t : HandleTarget) × (target_of (path_handle sha256 esc path s).1.handles h ≡ some t)
  unfolding path_handle
  path_handle-target path s h e =
      let (pp, seen) = parse_path esc s.seen (join_segs path) in
      issue-target path (join_segs path) pp (record s { seen = seen }) h e

  path_handle-Always :
      (path : List Bytes) (s : Server W) (h : Handle)
      → (path_handle sha256 esc path s).0 ≡ some h
      → (t : HandleTarget) × Always (path_handle sha256 esc path s).1 h t
  path_handle-Always path s h e =
      let (t, f) = path_handle-target path s h e in
      kept-Always (path_handle sha256 esc path s).1 h t f

  root-Always : (s : Server W) → Always s zero_handle root_target
  unfolding from_handle handle_eq beq zeros
  root-Always s s' r fuel = refl

  status-Always : (s : Server W) → Always s status_handle (target_at status_file)
  unfolding from_handle handle_eq beq well_known_hash
  status-Always s s' r fuel = refl

  -- Once `ToHandle` gave a handle for a path, `fromHandle` answers the handle at every later time,
  -- whatever is asked in between, always with the same target, and without the store or a change of
  -- the state. A client whose server runs on is never told that its handle is stale.
  pub to_handle-Always :
      (path : List Bytes) (s : Server W) (h : Handle)
      → (to_handle sha256 esc path s).0 ≡ some h
      → (t : HandleTarget) × Always (to_handle sha256 esc path s).1 h t
  unfolding to_handle
  to_handle-Always [] s h e =
      let same : zero_handle ≡ h = cc in rw (sym same) (root_target, root-Always s)
  to_handle-Always (p ∷ q ∷ path) s h e = path_handle-Always (p ∷ q ∷ path) s h e
  to_handle-Always (p ∷ []) s h e = elim (Bool-cases (beq p status_file)) [
    | inl is ↦
        let given : ◌≡◌ {A = Option Handle} (some status_handle) (some h) = rw is at e in
        let same : status_handle ≡ h = cc in
        rw is (rw (sym same) (target_at status_file, status-Always s))
    | inr differs ↦ rw differs (path_handle-Always (p ∷ []) s h (rw differs at e))
  ]
