-- ===== src/Lru/Ring.antt =====
-- The ring of entries under the writes of internal/lru/lru.go.
use gomodfs.Base.{ℕ, ◌≡◌, ◌≢◌, arith, List, [], ◌∷◌, ◌++◌, false, ◌==◌, if◌then◌else◌, append-nil}
use gomodfs.Lru.{Heap, update, link_in, unlink, cut_out, alloc}
use gomodfs.Lru.Addresses.{mem, Distinct, Apart-append}
use gomodfs.Lru.Links.{Ptrs, Chain, last_mem, join, part, frame, redirect}

module _ {K V : Type 0} where
  pub link_in-Chain :
      (r a : ℕ) (xs : List ℕ) (h : Heap K V)
      → Chain h.next h.prev a xs a
      → Distinct (a ∷ xs)
      → mem r (a ∷ xs) ≡ false
      → Chain (link_in r a h).next (link_in r a h).prev r (a ∷ xs) r
  unfolding link_in update mem
  link_in-Chain r a xs h c (out, d) new =
      let last = last_mem h.next h.prev a xs a c in
      (
        (ground (arith, last), ground arith),
        redirect h.next h.prev (link_in r a h).next (link_in r a h).prev a xs a r c (out, d)
            (λ x i ne. ground arith) (λ x i. ground arith) (ground arith) (ground arith),
      )

  pub alloc-Chain :
      (k : K) (v : V) (a : ℕ) (xs : List ℕ) (h : Heap K V)
      → Chain h.next h.prev a xs a
      → mem h.fresh (a ∷ xs) ≡ false
      → Chain (alloc k v h).next (alloc k v h).prev a xs a
  unfolding update mem
  alloc-Chain k v a xs h c new =
      frame h.next h.prev (alloc k v h).next (alloc k v h).prev a xs a c (λ x i. ground arith)
        (λ x i. ground arith) (ground arith)

-- what taking out `e` does to the pointers
abbrev pub Without : ℕ → Ptrs → Ptrs → Ptrs → Ptrs → Type 0
Without e n p n' p' =
    ((x : ℕ) → n' x ≡ (if x == p e then n e else n x))
    × ((x : ℕ) → p' x ≡ (if x == n e then p e else p x))

module _ {K V : Type 0} where
  pub unlink-Without :
      (e : ℕ) (h : Heap K V)
      → h.prev e ≢ e
      → Without e h.next h.prev (unlink e h).next (unlink e h).prev
  unfolding unlink update
  unlink-Without e h ne = (λ x. ground arith, λ x. ground arith)

  pub cut_out-Without :
      (e : ℕ) (h : Heap K V)
      → h.next e ≢ e
      → Without e h.next h.prev (cut_out e h).next (cut_out e h).prev
  unfolding cut_out update
  cut_out-Without e h ne = (λ x. ground arith, λ x. ground arith)

module _ (n p n' p' : Ptrs) where
  pub Without-head :
      (e b : ℕ) (xs : List ℕ)
      → Without e n p n' p'
      → Chain n p e (b ∷ xs) e
      → Distinct (e ∷ b ∷ xs)
      → Chain n' p' b xs b
  unfolding mem
  Without-head e b xs (wn, wp) ((to, back), c) (out, (out', d)) =
      let last = last_mem n p b xs e c in
      redirect n p n' p' b xs e b c (out', d) (λ x i ne. ground (arith, wn x))
        (λ x i. ground (arith, wp x)) (ground (arith, wn (p e))) (ground (arith, wp b))

  pub Without-inner :
      (e a : ℕ) (before after : List ℕ)
      → Without e n p n' p'
      → Chain n p a (before ++ (e ∷ after)) a
      → Distinct (a ∷ (before ++ (e ∷ after)))
      → Chain n' p' a (before ++ after) a
  unfolding mem
  Without-inner e a before [] (wn, wp) c (out, d) =
      let (c1, (to, back)) = part n p a before e [] a c in
      let both = Apart-append (a ∷ before) (e ∷ []) (out, d) in
      rw (append-nil before) (
        redirect n p n' p' a before e a c1 both.left (λ x i ne. ground (arith, wn x))
          (λ x i. ground (arith, wp x, both.left.0)) (ground (arith, wn (p e)))
          (ground (arith, wp a)))
  Without-inner e a before (b ∷ after) (wn, wp) c (out, d) =
      let (c1, ((to, back), c2)) = part n p a before e (b ∷ after) a c in
      let both = Apart-append (a ∷ before) (e ∷ b ∷ after) (out, d) in
      let last = both.apart (p e) (last_mem n p a before e c1) in
      join n' p' a before b after a
        (redirect n p n' p' a before e b c1 both.left (λ x i ne. ground (arith, wn x))
          (λ x i. ground (arith, wp x, both.apart x)) (ground (arith, wn (p e)))
          (ground (arith, wp b)))
        (frame n p n' p' b after a c2 (λ x i. ground (arith, wn x, last))
          (λ x i. ground (arith, wp x, both.right.1.0)) (ground (arith, wp a, both.apart a)))
