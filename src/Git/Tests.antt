-- ===== src/Git/Tests.antt =====
-- Runs of the tree builder, the listing and the pack header, and the round trips at concrete
-- inputs.
use gomodfs.Base.{
  ℕ, ◌+◌, ◌-◌, ◌≡◌, Bytes, codes, [], ◌∷◌, ◌++◌, some, refl, ap, arith, Lacks, map, beq, every, ◌∙◌,
  ◌<◌,
}
use gomodfs.Store.{mv_eq, mod_ver, ModuleVersion}
use gomodfs.Store.Plain.{plain, plain-IsEscaper, plain_of, path_byte, plain_byte}
use gomodfs.Git.{blob}
use gomodfs.Git.Pack.{object_header, size_bytes}
use gomodfs.Git.Refs.{PathEscaper, cached_modules, parse_refs, seen_mv, short_ref, parse_ref_line}
use gomodfs.Git.Refs.RoundTrip.{IsPathEscaper, mod_ref, suffix, parse_ref_line-short_ref}
use gomodfs.Git.Refs.Distinct.{AllFresh, cached_modules-AllFresh}
use gomodfs.Text.{split, cut, cut_prefix, cut_or_whole}
use gomodfs.Git.Listing.{file_mode_from_git_octal_bytes, regular, directory}

long_header : object_header blob 300 ≡ 188 ∷ 18 ∷ []
unfolding object_header size_bytes
long_header = refl

modes :
    (file_mode_from_git_octal_bytes (codes "100755") ≡ (regular, 493))
    × (file_mode_from_git_octal_bytes (codes "040000") ≡ (directory, 493))
unfolding file_mode_from_git_octal_bytes beq
modes = (refl, refl)

-- an escaper that moves every byte out of the way of "(" and "@"
abbrev moved : PathEscaper
moved = record {
  path_escape = λ s. map (λ c. c + 100) s;
  path_unescape = λ s. some (map (λ c. c - 100) s);
}

move_back : (s : Bytes) → map (λ c. c - 100) (map (λ c. c + 100) s) ≡ s
move_back [] = refl
move_back (c ∷ s) =
    ap (λ (d : ℕ). d ∷ map (λ c. c - 100) (map (λ c. c + 100) s)) {x = c + 100 - 100} {y = c}
      (omega arith)
    ∙ ap (◌∷◌ c) (move_back s)

moved-Lacks : (b : ℕ) → b < 100 → (s : Bytes) → Lacks b (map (λ c. c + 100) s)
moved-Lacks b h [] = tt
moved-Lacks b h (c ∷ s) = ((λ e. omega arith), moved-Lacks b h s)

moved-IsPathEscaper : IsPathEscaper moved
moved-IsPathEscaper = record {
  unescape-escape = λ s. ap some (move_back s);
  no_paren = λ s. moved-Lacks b'(' (omega arith) s;
  no_at = λ s _. moved-Lacks b'@' (omega arith) s;
}

abbrev mem : ModuleVersion
mem = mod_ver (codes "go4.org/mem") (codes "v0.0.0")

abbrev mem_ref : Bytes
mem_ref =
    codes "gomod/"
    ++ (moved.path_escape (codes "go4.org/mem") ++ (b'@' ∷ moved.path_escape (codes "v0.0.0")))

mem_refs : short_ref plain moved mem ≡ some mem_ref
unfolding short_ref plain_of path_byte plain_byte every
mem_refs = refl

parse_ref_line-short_ref_example : parse_ref_line plain moved (mem_ref ++ suffix mod_ref) ≡ some mem
parse_ref_line-short_ref_example =
    parse_ref_line-short_ref plain moved plain-IsEscaper moved-IsPathEscaper mem mem_ref mod_ref
      mem_refs

abbrev two_refs : Bytes
two_refs = mem_ref ++ (b'\n' ∷ mem_ref ++ codes "(mod)")

one_module : cached_modules plain moved two_refs ≡ mem ∷ []
unfolding cached_modules parse_refs parse_ref_line seen_mv split cut cut_prefix cut_or_whole
    plain_of path_byte plain_byte every mv_eq beq
one_module = refl

cached_modules-AllFresh_example : AllFresh [] (cached_modules plain moved two_refs)
cached_modules-AllFresh_example = cached_modules-AllFresh plain moved two_refs
