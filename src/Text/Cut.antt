-- ===== src/Text/Cut.antt =====
-- Laws of cutting prefixes, suffixes and separators.
use mathlib.Core.List.{reverse, reverse-append, reverse-reverse}
use gomodfs.Base.{
  ℕ, Bytes, [], ◌∷◌, ◌++◌, none, some, ◌≡◌, refl, arith, Lacks, sym, ap, ◌∙◌, Option-cases, inl,
  inr,
}
use gomodfs.Text.{cut_prefix, trim_prefix, cut_suffix, trim_suffix, reversed, cut}

pub cut_prefix-append : (p s : Bytes) → cut_prefix (p ++ s) p ≡ some s
unfolding cut_prefix
cut_prefix-append [] [] = refl
cut_prefix-append [] (c ∷ s) = refl
cut_prefix-append (c ∷ p) s = ground (arith, cut_prefix-append p s)

pub append_of_cut_prefix : (s p : Bytes) {r : Bytes} → cut_prefix s p ≡ some r → s ≡ p ++ r
unfolding cut_prefix
append_of_cut_prefix [] [] h = cc
append_of_cut_prefix (c ∷ s) [] h = cc
append_of_cut_prefix [] (d ∷ p) h = cc
append_of_cut_prefix (c ∷ s) (d ∷ p) {r} h = ground (arith, append_of_cut_prefix s p {r = r})

pub trim_prefix-append : (p s : Bytes) → trim_prefix (p ++ s) p ≡ s
unfolding trim_prefix
trim_prefix-append p s = rw (cut_prefix-append p s, trim_prefix)

pub cut_suffix-append : (s t : Bytes) → cut_suffix (s ++ t) t ≡ some s
unfolding cut_suffix reversed
cut_suffix-append s t =
    rw (reverse-append s t, cut_prefix-append (reverse t) (reverse s), reverse-reverse s)

pub trim_suffix-append : (s t : Bytes) → trim_suffix (s ++ t) t ≡ s
unfolding trim_suffix
trim_suffix-append s t = rw (cut_suffix-append s t, trim_suffix)

-- the first separator is found: no byte before it starts one
pub cut-append :
    (b : ℕ) (sep s t : Bytes) → Lacks b s → cut (s ++ (b ∷ (sep ++ t))) (b ∷ sep) ≡ some (s, t)
unfolding cut cut_prefix
cut-append b sep [] t h =
    let e : cut_prefix (sep ++ t) sep ≡ some t = cut_prefix-append sep t in ground arith
cut-append b sep (c ∷ s) t h = ground (arith, cut-append b sep s t h.1)

pub cut_absent : (b : ℕ) (sep s : Bytes) → Lacks b s → cut s (b ∷ sep) ≡ none
unfolding cut cut_prefix
cut_absent b sep [] h = refl
cut_absent b sep (c ∷ s) h = ground (arith, cut_absent b sep s h.1)

-- what was cut off the end stood there
pub cut_suffix-append_inv : (s t r : Bytes) → cut_suffix s t ≡ some r → s ≡ r ++ t
unfolding cut_suffix reversed
cut_suffix-append_inv s t r e = elim (Option-cases (cut_prefix (reverse s) (reverse t))) [
  | inl absent ↦ absurd (ground arith)
  | inr (q, found) ↦
      let back : reverse s ≡ reverse t ++ q = append_of_cut_prefix (reverse s) (reverse t) found in
      let last : r ≡ reverse q = ground arith in
      sym (reverse-reverse s)
      ∙ ap reverse back
      ∙ rw (reverse-append (reverse t) q, reverse-reverse t, last)
]
