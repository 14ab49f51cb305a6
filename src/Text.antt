-- ===== src/Text.antt =====
-- What the program uses of Go's packages strings and path, over bytes.
pub mod Cut
pub mod Elems
use mathlib.Core.List.{reverse}
use gomodfs.Base.{
  ℕ, Bytes, codes, List, [], ◌∷◌, ◌++◌, Option, none, some, Bool, true, false, ◌==◌, if◌then◌else◌,
  is_some, beq,
}

-- `strings.CutPrefix(s, prefix)`; `none` is the result with `ok == false`
unfoldable pub cut_prefix : Bytes → Bytes → Option Bytes
cut_prefix s [] = some s
cut_prefix [] (p ∷ ps) = none
cut_prefix (c ∷ s) (p ∷ ps) = if c == p then cut_prefix s ps else none

-- `strings.HasPrefix(s, prefix)`
abbrev pub has_prefix : Bytes → Bytes → Bool
has_prefix s p = is_some (cut_prefix s p)

-- `strings.TrimPrefix(s, prefix)`
unfoldable pub trim_prefix : Bytes → Bytes → Bytes
trim_prefix s p = elim (cut_prefix s p) [ some r ↦ r | none ↦ s ]

unfoldable pub reversed : Option Bytes → Option Bytes
reversed none = none
reversed (some s) = some (reverse s)

-- `strings.CutSuffix(s, suffix)`
unfoldable pub cut_suffix : Bytes → Bytes → Option Bytes
unfolding cut_prefix reversed
cut_suffix s t = reversed (cut_prefix (reverse s) (reverse t))

-- `strings.TrimSuffix(s, suffix)`
unfoldable pub trim_suffix : Bytes → Bytes → Bytes
unfolding cut_suffix
trim_suffix s t = elim (cut_suffix s t) [ some r ↦ r | none ↦ s ]

abbrev pub onto : ℕ → Option (Bytes × Bytes) → Option (Bytes × Bytes)
onto c none = none
onto c (some (before, after)) = some (c ∷ before, after)

-- `strings.Cut(s, sep)`; on `none` Go returns `s, "", false`
unfoldable pub cut : Bytes → Bytes → Option (Bytes × Bytes)
unfolding cut_prefix
cut [] sep = elim (cut_prefix [] sep) [ some r ↦ some ([], r) | none ↦ none ]
cut (c ∷ s) sep = elim (cut_prefix (c ∷ s) sep) [
  | some r ↦ some ([], r)
  | none ↦ onto c (cut s sep)
]

-- The parts before and after the first `sep`, as Go's three results give them.
unfoldable pub cut_or_whole : Bytes → Bytes → Bytes × Bytes
unfolding cut
cut_or_whole s sep = elim (cut s sep) [ some r ↦ r | none ↦ (s, []) ]

abbrev pub cons_head : ℕ → List Bytes → List Bytes
cons_head c [] = (c ∷ []) ∷ []
cons_head c (w ∷ ws) = (c ∷ w) ∷ ws

-- `strings.Split(s, sep)` at a separator of one byte
unfoldable pub split : Bytes → ℕ → List Bytes
split [] b = [] ∷ []
split (c ∷ s) b = let ws = split s b in if c == b then [] ∷ ws else cons_head c ws

-- `strings.Join(ws, sep)` at a separator of one byte
unfoldable pub join_with : List Bytes → ℕ → Bytes
join_with [] b = []
join_with (w ∷ []) b = w
join_with (w ∷ v ∷ ws) b = w ++ (b ∷ join_with (v ∷ ws) b)

abbrev pub slash : ℕ
slash = b'/'

abbrev pub dot : ℕ
dot = b'.'

-- the loops of package path run from the end: these take the text reversed
unfoldable pub skip_slashes : Bytes → Bytes
skip_slashes [] = []
skip_slashes (c ∷ r) = let rest = skip_slashes r in if c == slash then rest else c ∷ r

unfoldable pub last_elem : Bytes → Bytes → Bytes
last_elem [] acc = acc
last_elem (c ∷ r) acc = let rest = last_elem r (c ∷ acc) in if c == slash then acc else rest

abbrev pub or_slash : Bytes → Bytes
or_slash [] = slash ∷ []
or_slash (c ∷ s) = c ∷ s

-- `path.Base(s)`
unfoldable pub path_base : Bytes → Bytes
unfolding skip_slashes last_elem
path_base [] = dot ∷ []
path_base (c ∷ s) = or_slash (last_elem (skip_slashes (reverse (c ∷ s))) [])

unfoldable pub ext_loop : Bytes → Bytes → Bytes
ext_loop [] acc = []
ext_loop (c ∷ r) acc =
    let rest = ext_loop r (c ∷ acc) in if c == slash then [] else if c == dot then c ∷ acc else rest

-- `path.Ext(s)`: from the last dot of the last element, or empty
unfoldable pub path_ext : Bytes → Bytes
unfolding ext_loop
path_ext s = ext_loop (reverse s) []

-- `..` drops the element before it, if there is one and it is not `..` itself
unfoldable pub parent : Bool → List Bytes → List Bytes
unfolding beq
parent true [] = []
parent false [] = (dot ∷ dot ∷ []) ∷ []
parent rooted (k ∷ ks) = if beq k (dot ∷ dot ∷ []) then (dot ∷ dot ∷ []) ∷ k ∷ ks else ks

unfoldable pub keep_elem : Bool → Bytes → List Bytes → List Bytes
unfolding parent
keep_elem rooted w kept =
    if beq w []
    then kept
    else if beq w (dot ∷ [])
    then kept
    else if beq w (dot ∷ dot ∷ [])
    then parent rooted kept
    else w ∷ kept

-- `path.Clean` walks the elements and keeps a stack of them, the last one first.
unfoldable pub clean_elems : Bool → List Bytes → List Bytes → List Bytes
unfolding keep_elem
clean_elems rooted [] kept = kept
clean_elems rooted (w ∷ ws) kept = clean_elems rooted ws (keep_elem rooted w kept)

abbrev pub or_dot : Bytes → Bytes
or_dot [] = dot ∷ []
or_dot (c ∷ s) = c ∷ s

-- `path.Clean(s)`
unfoldable pub path_clean : Bytes → Bytes
unfolding clean_elems split join_with
path_clean s = elim (has_prefix s (slash ∷ [])) [
  | true ↦ slash ∷ join_with (reverse (clean_elems true (split s slash) [])) slash
  | false ↦ or_dot (join_with (reverse (clean_elems false (split s slash) [])) slash)
]

-- what `path.Split` puts before the last element, the last slash included (reversed)
unfoldable pub drop_elem : Bytes → Bytes
drop_elem [] = []
drop_elem (c ∷ r) = let rest = drop_elem r in if c == slash then c ∷ r else rest

-- `path.Dir(s)`
unfoldable pub path_dir : Bytes → Bytes
unfolding path_clean drop_elem cut_prefix
path_dir s = path_clean (reverse (drop_elem (reverse s)))
