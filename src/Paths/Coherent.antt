-- ===== src/Paths/Coherent.antt =====
-- The dot files in `parsePath` of path.go, which an operating system looks for.
use gomodfs.Base.{
  ℕ, Bytes, codes, [], ◌∷◌, ◌++◌, append_assoc, none, true, false, ◌≡◌, ◌≢◌, ap, ◌∙◌, ◌⊎◌, inl, inr,
  refl, arith, beq, beq→eq, Bool-cases, Option-cases, is_empty, Lacks,
}
use gomodfs.Store.{Escaper}
use gomodfs.Text.{path_base, cut, cut_prefix, slash, dot, has_prefix}
use gomodfs.Text.Elems.{path_base-append, path_base-whole, slashes, path_base-slashes}
use gomodfs.Paths.{Seen, parse_path, is_dot_file, status_file, missing_path}

dot_first : (rest : Bytes) → has_prefix (dot ∷ rest) (dot ∷ []) ≡ true
unfolding cut_prefix
dot_first [] = refl
dot_first (c ∷ rest) = refl

-- what stands before the last element of a name: nothing, or directories and a slash
abbrev pub IsParents : Bytes → Type 0
IsParents parents = (parents ≡ []) ⊎ ((dirs : Bytes) × (parents ≡ dirs ++ slash ∷ []))

dot_rest : (rest : Bytes) → Lacks slash rest → Lacks slash (dot ∷ rest)
dot_rest rest h = (cc, h)

dot_rest_ne_nil : (rest : Bytes) → dot ∷ rest ≢ []
dot_rest_ne_nil rest = cc

base_below :
    (dirs rest : Bytes)
    → Lacks slash rest
    → path_base ((dirs ++ slash ∷ []) ++ dot ∷ rest) ≡ dot ∷ rest
base_below dirs rest h =
    ap path_base (append_assoc dirs (slash ∷ []) (dot ∷ rest))
    ∙ path_base-append dirs (dot ∷ rest) (dot_rest rest h) (dot_rest_ne_nil rest)

base_of_dots :
    (parents rest : Bytes)
    → IsParents parents
    → Lacks slash rest
    → path_base (parents ++ dot ∷ rest) ≡ dot ∷ rest
base_of_dots parents rest (inl e) h =
    ap (λ (s : Bytes). path_base (s ++ dot ∷ rest)) e
    ∙ path_base-whole (dot ∷ rest) (dot_rest rest h) (dot_rest_ne_nil rest)
base_of_dots parents rest (inr (dirs, e)) h =
    ap (λ (s : Bytes). path_base (s ++ dot ∷ rest)) e ∙ base_below dirs rest h

nonempty : (s : Bytes) (c : ℕ) (t u : Bytes) → is_empty ((s ++ c ∷ t) ++ u) ≡ false
nonempty [] c t u = refl
nonempty (d ∷ s) c t u = refl

dots :
    (parents rest : Bytes) (n : ℕ)
    → IsParents parents
    → Lacks slash rest
    → is_dot_file ((parents ++ dot ∷ rest) ++ slashes n) ≡ true
dots parents rest n above h =
    rw
      (
        nonempty parents dot rest (slashes n),
        path_base-slashes parents dot rest n,
        base_of_dots parents rest above h,
      )
      (dot_first rest)

module _ (esc : Escaper) where
  -- where a dot file can only be a file that an operating system looks for
  abbrev pub IsOutsideZip : Bytes → Type 0
  IsOutsideZip name =
      (has_prefix name (codes "tsgo-") ≡ true)
      ⊎ (has_prefix name (codes "cache/download/") ≡ true)
      ⊎ (cut name (b'@' ∷ []) ≡ none)

  parse_path_of_dots :
      (seen : Seen) (name : Bytes)
      → is_dot_file name ≡ true
      → name ≢ status_file
      → IsOutsideZip name
      → parse_path esc seen name ≡ (missing_path, seen)
  unfolding parse_path
  parse_path_of_dots seen name dots n out = elim (Bool-cases (beq name status_file)) [
    | inl status ↦ absurd (n (beq→eq name status_file status))
    | inr other ↦ elim (Bool-cases (has_prefix name (codes "tsgo-"))) [
      | inl tsgo ↦ rw (other, tsgo, dots)
      | inr not_tsgo ↦ elim (Option-cases (cut_prefix name (codes "cache/download/"))) [
        | inr (dl, cached) ↦ rw (other, not_tsgo, cached, parse_path, dots)
        | inl zip ↦ elim (Option-cases (cut name (b'@' ∷ []))) [
          | inl no_at ↦ rw (other, not_tsgo, zip, no_at, dots)
          | inr ((m, vp), at) ↦ absurd (ground arith)
        ]
      ]
    ]
  ]

  -- A name whose last element begins with a dot, whatever stands before that element and with any
  -- number of slashes behind it, is a path that does not exist, if it is below "tsgo-…" or
  -- "cache/download/" or has no "@", and is not the name of the status file; and nothing is
  -- remembered of it.
  pub parse_path-dot_file :
      (seen : Seen) (parents rest : Bytes) (n : ℕ)
      → IsParents parents
      → Lacks slash rest
      → (parents ++ dot ∷ rest) ++ slashes n ≢ status_file
      → IsOutsideZip ((parents ++ dot ∷ rest) ++ slashes n)
      → parse_path esc seen ((parents ++ dot ∷ rest) ++ slashes n) ≡ (missing_path, seen)
  parse_path-dot_file seen parents rest n above h other out =
      parse_path_of_dots seen _ (dots parents rest n above h) other out
