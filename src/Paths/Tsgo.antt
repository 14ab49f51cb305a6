-- ===== src/Paths/Tsgo.antt =====
-- The Tailscale Go toolchain of path.go and tsgo.go: its versions and its paths.
use gomodfs.Base.{
  ℕ, Bytes, codes, [], ◌∷◌, ◌++◌, append_assoc, append-nil, none, some, Bool, true, false, ◌≡◌, ◌≢◌,
  ◌⊎◌, inl, inr, refl, sym, arith, beq, beq_refl, beq→eq, Option-cases, Lacks, All-append, length,
  every,
}
use gomodfs.Store.{Escaper, ModuleVersion, mod_ver}
use gomodfs.Text.{cut_prefix, trim_suffix, cut_suffix, cut_or_whole, slash, dot, has_prefix}
use gomodfs.Text.Cut.{
  cut_prefix-append, cut-append, cut_absent, cut_suffix-append, cut_suffix-append_inv,
}
use gomodfs.Text.Elems.{path_base-append}
use gomodfs.Paths.{
  Seen, TsgoTriple, parse_path, parse_tsgo_path, parse_tsgo_hash, parse_tsgo_segs, is_dot_file,
  status_file, no_path, is_tsgo_module, tsgo_version, tsgo_zip_root, tsgo_module, is_hex_char,
  valid_tsgo_osarch, empty_path_join, wk_tsgo_extracted,
}

-- The version made from a triple is read back as the triple, if neither the OS nor the architecture
-- has a hyphen.
pub is_tsgo_module-tsgo_version :
    (t : TsgoTriple)
    → Lacks b'-' t.os
    → Lacks b'-' t.arch
    → is_tsgo_module (mod_ver tsgo_module (tsgo_version t)) ≡ some t
unfolding is_tsgo_module tsgo_version
is_tsgo_module-tsgo_version t ho ha = rw (
  beq_refl tsgo_module,
  cut_prefix-append (codes "tsgo-") (t.os ++ (b'-' ∷ (t.arch ++ (b'-' ∷ t.hash)))),
  is_tsgo_module,
  cut-append b'-' [] t.os (t.arch ++ (b'-' ∷ t.hash)) ho,
  cut-append b'-' [] t.arch t.hash ha,
)

-- an OS and an architecture that Tailscale Go is built for, and the hash of a commit
pub record IsTriple (t : TsgoTriple) : Type 0 where
  pub valid : valid_tsgo_osarch t.os t.arch ≡ true
  pub size : length t.hash ≡ 40
  pub hex : every is_hex_char t.hash ≡ true

valid_os :
    (os arch : Bytes)
    → valid_tsgo_osarch os arch ≡ true
    → (os ≡ codes "linux") ⊎ (os ≡ codes "darwin") ⊎ (os ≡ codes "windows")
unfolding valid_tsgo_osarch
valid_os os arch h =
    ground
      (arith, beq→eq os (codes "linux"), beq→eq os (codes "darwin"), beq→eq os (codes "windows"))

valid_arch :
    (os arch : Bytes)
    → valid_tsgo_osarch os arch ≡ true
    → (arch ≡ codes "amd64") ⊎ (arch ≡ codes "arm64")
unfolding valid_tsgo_osarch
valid_arch os arch h = ground (arith, beq→eq arch (codes "amd64"), beq→eq arch (codes "arm64"))

os-Lacks : (os arch : Bytes) → valid_tsgo_osarch os arch ≡ true → Lacks b'-' os × Lacks slash os
os-Lacks os arch h = elim (valid_os os arch h) [
  | inl e ↦ rw e (omega arith)
  | inr (inl e) ↦ rw e (omega arith)
  | inr (inr e) ↦ rw e (omega arith)
]

arch-Lacks :
    (os arch : Bytes) → valid_tsgo_osarch os arch ≡ true → Lacks b'-' arch × Lacks slash arch
arch-Lacks os arch h = elim (valid_arch os arch h) [
  | inl e ↦ rw e (omega arith)
  | inr e ↦ rw e (omega arith)
]

every-append :
    (p : ℕ → Bool) (s : Bytes) (c : ℕ) (t : Bytes) → every p (s ++ c ∷ t) ≡ true → p c ≡ true
unfolding every
every-append p [] c t h = ground arith
every-append p (d ∷ s) c t h = every-append p s c t (ground arith)

hex-Lacks : (s : Bytes) → every is_hex_char s ≡ true → Lacks slash s
unfolding every is_hex_char
hex-Lacks [] h = tt
hex-Lacks (c ∷ s) h = (ground arith, hex-Lacks s (ground arith))

no_dot : (r : Bytes) → every is_hex_char (r ++ codes ".extracted") ≡ true → ⊥
unfolding is_hex_char
no_dot r h = cc (every-append is_hex_char r dot (codes "extracted") h)

hex_suffix : (s : Bytes) → every is_hex_char s ≡ true → cut_suffix s (codes ".extracted") ≡ none
hex_suffix s h = elim (Option-cases (cut_suffix s (codes ".extracted"))) [
  | inl absent ↦ absent
  | inr (r, found) ↦
      absurd (no_dot r (rw (← cut_suffix-append_inv s (codes ".extracted") r found) h))
]

-- the parse behind the OS and the architecture
parse_tsgo_path-tsgo_zip_root :
    (t : TsgoTriple) (tail : Bytes)
    → IsTriple t
    → parse_tsgo_path (tsgo_zip_root t ++ tail) ≡ parse_tsgo_hash t.os t.arch (t.hash ++ tail)
unfolding parse_tsgo_path tsgo_zip_root
parse_tsgo_path-tsgo_zip_root t tail it =
    let (os_hyphen, os_slash) = os-Lacks t.os t.arch it.valid in
    let (arch_hyphen, arch_slash) = arch-Lacks t.os t.arch it.valid in
    let spelled : (t.os ++ (b'-' ∷ (t.arch ++ (slash ∷ t.hash)))) ++ tail
        ≡ (t.os ++ (b'-' ∷ t.arch)) ++ (slash ∷ (t.hash ++ tail)) =
      simp append_assoc in
    rw (
      spelled,
      cut_prefix-append (codes "tsgo-") ((t.os ++ (b'-' ∷ t.arch)) ++ (slash ∷ (t.hash ++ tail))),
      parse_tsgo_path,
      cut-append slash [] (t.os ++ (b'-' ∷ t.arch)) (t.hash ++ tail)
          (All-append _ t.os (b'-' ∷ t.arch) os_slash (omega arith, arch_slash)),
      cut-append b'-' [] t.os t.arch os_hyphen,
      it.valid,
    )

-- what `empty_path_join` puts behind a text that is not empty
abbrev tail_of : Bytes → Bytes
tail_of [] = []
tail_of (c ∷ s) = slash ∷ c ∷ s

abbrev version_of : TsgoTriple → ModuleVersion
version_of t = mod_ver tsgo_module (tsgo_version t)

parse_tsgo_segs-hash :
    (t : TsgoTriple) (inside : Bytes)
    → IsTriple t
    → trim_suffix inside (slash ∷ []) ≡ inside
    → parse_tsgo_segs t.os t.arch (t.hash, inside)
      ≡ record no_path { in_zip = true; path = inside; mod_version = version_of t }
unfolding parse_tsgo_segs
parse_tsgo_segs-hash t inside it trimmed = rw (hex_suffix t.hash it.hex, it.hex, it.size, trimmed)

cut_hash :
    (t : TsgoTriple) (inside : Bytes)
    → IsTriple t
    → cut_or_whole (t.hash ++ tail_of inside) (slash ∷ []) ≡ (t.hash, inside)
unfolding cut_or_whole
cut_hash t [] it =
    rw (append-nil t.hash, cut_absent slash [] t.hash (hex-Lacks t.hash it.hex), cut_or_whole)
      (λ i. (append-nil t.hash i, []))
cut_hash t (c ∷ s) it =
    rw (cut-append slash [] t.hash (c ∷ s) (hex-Lacks t.hash it.hex), cut_or_whole)

parse_tsgo_hash-inside :
    (t : TsgoTriple) (inside : Bytes)
    → IsTriple t
    → trim_suffix inside (slash ∷ []) ≡ inside
    → parse_tsgo_hash t.os t.arch (t.hash ++ tail_of inside)
      ≡ record no_path { in_zip = true; path = inside; mod_version = version_of t }
unfolding parse_tsgo_hash
parse_tsgo_hash-inside t inside it trimmed =
    rw (cut_hash t inside it) (parse_tsgo_segs-hash t inside it trimmed)

cut_extracted :
    (t : TsgoTriple)
    → IsTriple t
    → cut_or_whole (t.hash ++ codes ".extracted") (slash ∷ []) ≡ (t.hash ++ codes ".extracted", [])
unfolding cut_or_whole
cut_extracted t it = rw (
  cut_absent slash [] (t.hash ++ codes ".extracted")
      (All-append _ t.hash (codes ".extracted") (hex-Lacks t.hash it.hex) (omega arith)),
  cut_or_whole,
)

parse_tsgo_hash-extracted :
    (t : TsgoTriple)
    → IsTriple t
    → parse_tsgo_hash t.os t.arch (t.hash ++ codes ".extracted")
      ≡ record no_path { well_known = wk_tsgo_extracted; mod_version = version_of t }
unfolding parse_tsgo_hash parse_tsgo_segs
parse_tsgo_hash-extracted t it =
    rw (cut_extracted t it, cut_suffix-append t.hash (codes ".extracted"), it.hex, it.size)

zip_root_status :
    (t : TsgoTriple) (tail : Bytes) → beq (tsgo_zip_root t ++ tail) status_file ≡ false
unfolding beq tsgo_zip_root
zip_root_status t tail = refl

zip_root_tsgo :
    (t : TsgoTriple) (tail : Bytes) → has_prefix (tsgo_zip_root t ++ tail) (codes "tsgo-") ≡ true
unfolding tsgo_zip_root
zip_root_tsgo t tail =
    rw (cut_prefix-append (codes "tsgo-") ((t.os ++ (b'-' ∷ (t.arch ++ (slash ∷ t.hash)))) ++ tail))

join_tail :
    (t : TsgoTriple) (inside : Bytes)
    → empty_path_join (tsgo_zip_root t) inside ≡ tsgo_zip_root t ++ tail_of inside
unfolding empty_path_join tsgo_zip_root
join_tail t [] = sym (append-nil _)
join_tail t (c ∷ s) = refl

hash_ne_nil : (s : Bytes) → s ++ codes ".extracted" ≢ []
hash_ne_nil [] = cc
hash_ne_nil (c ∷ s) = cc

hex_first :
    (s : Bytes)
    → every is_hex_char s ≡ true
    → length s ≡ 40
    → has_prefix (s ++ codes ".extracted") (dot ∷ []) ≡ false
unfolding every is_hex_char cut_prefix
hex_first [] h size = absurd (omega arith)
hex_first (c ∷ s) h size = ground arith

module _ (esc : Escaper) (seen : Seen) where
  parse_path-tsgo :
      (t : TsgoTriple) (tail : Bytes)
      → IsTriple t
      → is_dot_file (tsgo_zip_root t ++ tail) ≡ false
      → parse_path esc seen (tsgo_zip_root t ++ tail)
        ≡ (parse_tsgo_hash t.os t.arch (t.hash ++ tail), seen)
  unfolding parse_path
  parse_path-tsgo t tail it plain =
      rw (
        zip_root_status t tail,
        zip_root_tsgo t tail,
        plain,
        parse_tsgo_path-tsgo_zip_root t tail it,
      )

  -- A path below the root of a Tailscale Go toolchain parses to that path in the zip of the
  -- toolchain's version, for a valid OS, architecture and hash, if its last element does not begin
  -- with a dot and the path inside has no trailing slash.
  pub parse_path-tsgo_zip_root :
      (t : TsgoTriple) (inside : Bytes)
      → IsTriple t
      → trim_suffix inside (slash ∷ []) ≡ inside
      → is_dot_file (empty_path_join (tsgo_zip_root t) inside) ≡ false
      → parse_path esc seen (empty_path_join (tsgo_zip_root t) inside) ≡ (
        record no_path {
          in_zip = true;
          path = inside;
          mod_version = mod_ver tsgo_module (tsgo_version t);
        },
        seen,
      )
  parse_path-tsgo_zip_root t inside it trimmed plain = rw (
    join_tail t inside,
    parse_path-tsgo t (tail_of inside) it (rw (join_tail t inside) at plain),
    parse_tsgo_hash-inside t inside it trimmed,
  )

  extracted_plain :
      (t : TsgoTriple) → IsTriple t → is_dot_file (tsgo_zip_root t ++ codes ".extracted") ≡ false
  unfolding tsgo_zip_root
  extracted_plain t it =
      let parents : Bytes = codes "tsgo-" ++ (t.os ++ (b'-' ∷ t.arch)) in
      let spelled : tsgo_zip_root t ++ codes ".extracted"
          ≡ parents ++ slash ∷ (t.hash ++ codes ".extracted") =
        simp append_assoc in
      rw
        (
          spelled,
          path_base-append parents (t.hash ++ codes ".extracted")
              (All-append _ t.hash (codes ".extracted") (hex-Lacks t.hash it.hex) (omega arith))
              (hash_ne_nil t.hash),
        )
        (hex_first t.hash it.hex it.size)

  -- The path of the ".extracted" file beside the root of a Tailscale Go toolchain parses to that
  -- well-known file of the toolchain's version, for a valid OS, architecture and hash.
  pub parse_path-tsgo_extracted :
      (t : TsgoTriple)
      → IsTriple t
      → parse_path esc seen (tsgo_zip_root t ++ codes ".extracted") ≡ (
        record no_path {
          well_known = wk_tsgo_extracted;
          mod_version = mod_ver tsgo_module (tsgo_version t);
        },
        seen,
      )
  parse_path-tsgo_extracted t it = rw (
    parse_path-tsgo t (codes ".extracted") it (extracted_plain t it),
    parse_tsgo_hash-extracted t it,
  )
