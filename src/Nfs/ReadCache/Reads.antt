-- ===== src/Nfs/ReadCache/Reads.antt =====
-- Reads through the read cache of nfs.go.
use gomodfs.Base.{
  ℕ, ◌≡◌, inl, inr, refl, arith, Bytes, [], Option, none, some, false, Option-cases, Result-cases,
  none-ne-some, beq, sym, ap, ◌∙◌, Error, Result, ok, err, stale, other,
}
use gomodfs.Lru.Spec.{lookup_of}
use gomodfs.Lru.Shows.{Shows, size-Shows}
use gomodfs.Nfs.ReadCache.{Files, set_read_cache, cached_file, get_file_contents}
use gomodfs.Nfs.ReadCache.Uses.{uses}
use gomodfs.Nfs.ReadCache.Holds.{file_of, Holds}
use gomodfs.Nfs.ReadCache.Fills.{set_read_cache-Holds}
use gomodfs.Nfs.ReadCache.Hits.{Looked, cached_file-Looked}

module _ {A : Type 0} (path_of : Bytes → Result Bytes) (uncached : Bytes → Result (Bytes × A))
    (sha256 : Bytes → Bytes) (max : ℕ) where
  get_file_contents-hit :
      (h : Bytes) (file : Bytes × A) (s s1 : Files A)
      → cached_file h s ≡ some (some file, s1)
      → get_file_contents sha256 max path_of uncached h s ≡ some (ok file, s1)
  unfolding get_file_contents
  get_file_contents-hit h file s s1 e = rw (get_file_contents, e) refl

  get_file_contents-no_path :
      (h : Bytes) (e : Error) (s s1 : Files A)
      → cached_file h s ≡ some (none, s1)
      → path_of h ≡ err e
      → get_file_contents sha256 max path_of uncached h s ≡ some (err (stale other), s1)
  unfolding get_file_contents
  get_file_contents-no_path h e s s1 e1 e2 = rw (get_file_contents, e1, e2) refl

  get_file_contents-no_file :
      (h path : Bytes) (e : Error) (s s1 : Files A)
      → cached_file h s ≡ some (none, s1)
      → path_of h ≡ ok path
      → uncached path ≡ err e
      → get_file_contents sha256 max path_of uncached h s ≡ some (err e, s1)
  unfolding get_file_contents
  get_file_contents-no_file h path e s s1 e1 e2 e3 = rw (get_file_contents, e1, e2, e3) refl

  get_file_contents-filled :
      (h path : Bytes) (file : Bytes × A) (s s1 s2 : Files A)
      → cached_file h s ≡ some (none, s1)
      → path_of h ≡ ok path
      → uncached path ≡ ok file
      → set_read_cache sha256 max h file.1 file.0 s1 ≡ some s2
      → get_file_contents sha256 max path_of uncached h s ≡ some (ok file, s2)
  unfolding get_file_contents
  get_file_contents-filled h path file s s1 s2 e1 e2 e3 e4 =
      rw (get_file_contents, e1, e2, e3, e4) refl

  -- what a read gives
  pub record Got (h : Bytes) (s : Files A) : Type 0 where
    pub result : Files A
    pub returns :
        get_file_contents sha256 max path_of uncached h s
        ≡ some (file_of path_of uncached (path_of h), result)
    pub holds : Holds path_of uncached sha256 max result

  -- one read
  pub get_file_contents-Holds :
      ((a b : Bytes) → sha256 a ≡ sha256 b → a ≡ b)
      → (h : Bytes) (s : Files A) → Holds path_of uncached sha256 max s
      → Got h s
  get_file_contents-Holds unique h s v =
      answer (cached_file-Looked path_of uncached sha256 max unique h s v)
    where
      missed :
          (s1 : Files A)
          → cached_file h s ≡ some (none, s1)
          → Holds path_of uncached sha256 max s1
          → Got h s
      missed s1 e v1 = elim (Result-cases (path_of h)) [
        | inl (d, no_path) ↦ record {
          result = s1;
          returns = rw no_path (get_file_contents-no_path h d s s1 e no_path);
          holds = v1;
        }
        | inr (path, at) ↦ elim (Result-cases (uncached path)) [
          | inl (d, no_file) ↦ record {
            result = s1;
            returns =
                get_file_contents-no_file h path d s s1 e at no_file
                ∙ sym (
                    ap (λ (r : Result (Bytes × A)). some (r, s1))
                      (ap (file_of path_of uncached) at ∙ no_file));
            holds = v1;
          }
          | inr ((c, attr), file) ↦
              let known = ap (file_of path_of uncached) at ∙ file in
              let (s2, run, v2) =
                set_read_cache-Holds path_of uncached sha256 max h attr c s1 v1 known in
              record {
                result = s2;
                returns =
                    rw known (get_file_contents-filled h path (c, attr) s s1 s2 e at file run);
                holds = v2;
              }
        ]
      ]

      answer : Looked path_of uncached sha256 max h s → Got h s
      answer l = elim (Option-cases l.found) [
        | inl n ↦ missed l.result (rw n at l.returns) l.holds
        | inr (file, f) ↦ record {
          result = l.result;
          returns =
              rw (l.is_file file f) (get_file_contents-hit h file s l.result (rw f at l.returns));
          holds = l.holds;
        }
      ]

  -- the empty caches
  pub no_files-Holds :
      (s : Files A)
      → Shows beq none 0 s.ent_cache []
      → (f : Option (Bytes → Bytes → ℕ)) → Shows beq f 0 s.blob_cache []
      → ((b : Bytes) → s.blob_count b ≡ 0)
      → s.counted ≡ false
      → Holds path_of uncached sha256 max s
  unfolding uses lookup_of
  no_files-Holds s ents f blobs zeros fresh = record {
    le = [];
    lb = [];
    sizes = f;
    ents = ents;
    blobs = blobs;
    balanced = record {
      keys = tt;
      counts = zeros;
      held = λ b. refl;
      hashes = λ b c e. absurd (none-ne-some e);
    };
    right = λ h e g. absurd (none-ne-some g);
    within = omega (arith, size-Shows beq f 0 s.blob_cache [] blobs);
    by_bytes = λ e. absurd (ground (arith, e, fresh));
    unused = λ e. refl;
  }
