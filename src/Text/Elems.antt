-- ===== src/Text/Elems.antt =====
-- Laws of path elements and extensions.
use mathlib.Core.List.{reverse, reverse_aux, reverse-append, reverse-reverse}
use gomodfs.Base.{
  ℕ, zero, suc, Bytes, List, [], ◌∷◌, ◌++◌, ◌≡◌, ◌≢◌, refl, ap, sym, ◌∙◌, arith, Lacks, All,
  All-append, append_assoc,
}
use gomodfs.Text.{slash, dot, skip_slashes, last_elem, or_slash, path_base, ext_loop, path_ext}

pub All-reverse {ℓ κ} : {A : Type ℓ} (P : A → Type κ) (xs : List A) → All P xs → All P (reverse xs)
All-reverse P [] h = tt
All-reverse P (x ∷ xs) h =
    rw (reverse-append (x ∷ []) xs)
      (All-append P (reverse xs) (x ∷ []) (All-reverse P xs h.1) (h.0, tt))

reverse-ne-nil : (s : Bytes) → s ≢ [] → reverse s ≢ []
reverse-ne-nil s h e = h (sym (reverse-reverse s) ∙ ap reverse e)

last_elem-append :
    (r t acc : Bytes) → Lacks slash r → last_elem (r ++ slash ∷ t) acc ≡ reverse_aux r acc
unfolding last_elem
last_elem-append [] t acc h = refl
last_elem-append (c ∷ r) t acc h = ground (arith, last_elem-append r t (c ∷ acc) h.1)

last_elem-whole : (r acc : Bytes) → Lacks slash r → last_elem r acc ≡ reverse_aux r acc
unfolding last_elem
last_elem-whole [] acc h = refl
last_elem-whole (c ∷ r) acc h = ground (arith, last_elem-whole r (c ∷ acc) h.1)

base_reversed :
    (r t : Bytes)
    → Lacks slash r
    → r ≢ []
    → last_elem (skip_slashes (r ++ slash ∷ t)) [] ≡ reverse r
unfolding skip_slashes
base_reversed [] t h n = absurd (n refl)
base_reversed (c ∷ r) t h n = ground (arith, last_elem-append (c ∷ r) t [] h)

base_reversed_whole :
    (r : Bytes) → Lacks slash r → r ≢ [] → last_elem (skip_slashes r) [] ≡ reverse r
unfolding skip_slashes
base_reversed_whole [] h n = absurd (n refl)
base_reversed_whole (c ∷ r) h n = ground (arith, last_elem-whole (c ∷ r) [] h)

path_base_lem :
    (s : Bytes) → s ≢ [] → path_base s ≡ or_slash (last_elem (skip_slashes (reverse s)) [])
unfolding path_base
path_base_lem [] h = absurd (h refl)
path_base_lem (c ∷ s) h = refl

or_slash_lem : (s : Bytes) → s ≢ [] → or_slash s ≡ s
or_slash_lem [] h = absurd (h refl)
or_slash_lem (c ∷ s) h = refl

append-ne-nil : (s : Bytes) (c : ℕ) (t : Bytes) → s ++ c ∷ t ≢ []
append-ne-nil [] c t h = cc
append-ne-nil (d ∷ s) c t h = cc

-- the last element is what stands behind the last slash
pub path_base-append : (s t : Bytes) → Lacks slash t → t ≢ [] → path_base (s ++ slash ∷ t) ≡ t
path_base-append s t h n =
    rw
      (
        path_base_lem _ (append-ne-nil s slash t),
        reverse-append s (slash ∷ t),
        reverse-append (slash ∷ []) t,
        append_assoc (reverse t) (slash ∷ []) (reverse s),
        base_reversed (reverse t) (reverse s) (All-reverse _ t h) (reverse-ne-nil t n),
        reverse-reverse t,
      )
      (or_slash_lem t n)

-- a name with no slash is its own last element
pub path_base-whole : (t : Bytes) → Lacks slash t → t ≢ [] → path_base t ≡ t
path_base-whole t h n =
    rw
      (
        path_base_lem t n,
        base_reversed_whole (reverse t) (All-reverse _ t h) (reverse-ne-nil t n),
        reverse-reverse t,
      )
      (or_slash_lem t n)

-- slashes at the end count for nothing
abbrev pub slashes : ℕ → Bytes
slashes zero = []
slashes (suc n) = slash ∷ slashes n

slashes_last : (n : ℕ) → slashes n ++ slash ∷ [] ≡ slash ∷ slashes n
slashes_last zero = refl
slashes_last (suc n) = ap (◌∷◌ slash) (slashes_last n)

reverse-slashes : (n : ℕ) → reverse (slashes n) ≡ slashes n
reverse-slashes zero = refl
reverse-slashes (suc n) =
    reverse-append (slash ∷ []) (slashes n)
    ∙ ap (λ (s : Bytes). s ++ slash ∷ []) (reverse-slashes n)
    ∙ slashes_last n

skip_slashes_lem : (n : ℕ) (r : Bytes) → skip_slashes (slashes n ++ r) ≡ skip_slashes r
unfolding skip_slashes
skip_slashes_lem zero r = refl
skip_slashes_lem (suc n) r = ground (arith, skip_slashes_lem n r)

pub path_base-slashes :
    (s : Bytes) (c : ℕ) (t : Bytes) (n : ℕ)
    → path_base ((s ++ c ∷ t) ++ slashes n) ≡ path_base (s ++ c ∷ t)
path_base-slashes s c t n = rw (
  append_assoc s (c ∷ t) (slashes n),
  path_base_lem _ (append-ne-nil s c (t ++ slashes n)),
  path_base_lem _ (append-ne-nil s c t),
  ← append_assoc s (c ∷ t) (slashes n),
  reverse-append (s ++ c ∷ t) (slashes n),
  reverse-slashes n,
  skip_slashes_lem n (reverse (s ++ c ∷ t)),
)

ext_loop-append :
    (r t acc : Bytes)
    → Lacks dot r
    → Lacks slash r
    → ext_loop (r ++ dot ∷ t) acc ≡ dot ∷ reverse_aux r acc
unfolding ext_loop
ext_loop-append [] t acc hd hs = refl
ext_loop-append (c ∷ r) t acc hd hs = ground (arith, ext_loop-append r t (c ∷ acc) hd.1 hs.1)

-- the extension of a name that ends in a dot and a text with no dot and no slash
pub path_ext-append :
    (s e : Bytes) → Lacks dot e → Lacks slash e → path_ext (s ++ dot ∷ e) ≡ dot ∷ e
unfolding path_ext
path_ext-append s e hd hs = rw (
  reverse-append s (dot ∷ e),
  reverse-append (dot ∷ []) e,
  append_assoc (reverse e) (dot ∷ []) (reverse s),
  ext_loop-append (reverse e) (reverse s) [] (All-reverse _ e hd) (All-reverse _ e hs),
  reverse-reverse e,
)
