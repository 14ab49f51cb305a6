-- ===== src/Modules/ReadOnly.antt =====
-- The field `ReadOnly` of gomodfs.go and the metadata files.
use gomodfs.Base.{
  Bytes, ◌≡◌, refl, Option-cases, inl, inr, arith, Result, ok, err, true, false, and_then,
  Bool-cases, beq, codes,
}
use gomodfs.Store.{ModuleVersion, Escaper}
use gomodfs.Modules.{StoreOps, Libraries, Config}
use gomodfs.Modules.Handles.{Fs, get_zip_root_cached, note_module_version}
use gomodfs.Modules.Fetch.{
  get_zip_root, cache_root, find_root, find_zip_root, checked_toolchain, is_tsgo_version,
  get_meta_file, get_mod_file, get_info_file, get_ziphash, get_meta_file_by_ext, on_world,
  download_meta_file,
}

-- the methods of the store that read keep a property of the world; nothing is said of those that
-- put and of the network
pub record ReadsKeep {W H : Type 0} (store : StoreOps W H) (Inv : W → Type 0) : Type 0 where
  pub get_zip_root : (mv : ModuleVersion) (w : W) → Inv w → Inv (store.get_zip_root mv w).1
  pub get_mod_file : (mv : ModuleVersion) (w : W) → Inv w → Inv (store.get_mod_file mv w).1
  pub get_info_file : (mv : ModuleVersion) (w : W) → Inv w → Inv (store.get_info_file mv w).1
  pub get_zip_hash : (h : H) (w : W) → Inv w → Inv (store.get_zip_hash h w).1

module _ {W H : Type 0} (esc : Escaper) (conf : Config) (store : StoreOps W H) (libs : Libraries W)
    (Inv : W → Type 0) where
  find_zip_root-keeps :
      conf.read_only ≡ true
      → ReadsKeep store Inv
      → (mv : ModuleVersion) (w : W) → Inv w
      → Inv (find_zip_root esc conf store libs mv w).1
  unfolding find_zip_root checked_toolchain
  find_zip_root-keeps ro keeps mv w i = ground (arith, keeps.get_zip_root mv w i)

  meta-keeps :
      conf.read_only ≡ true
      → (get fill : W → Result Bytes × W) (w : W) → Inv (get w).1
      → Inv (get_meta_file esc conf store libs get fill w).1
  unfolding get_meta_file
  meta-keeps ro get fill w i = ground (arith)

  abbrev downloaded :
      ModuleVersion
      → Bytes
      → (ModuleVersion → Bytes → W → Result (Unit {0}) × W)
      → W
      → Result Bytes × W
  downloaded = download_meta_file esc conf store libs

  find_root-keeps :
      conf.read_only ≡ true
      → ReadsKeep store Inv
      → (mv : ModuleVersion) (w : W) → is_tsgo_version esc conf store libs mv ≡ false
      → Inv w
      → Inv (find_root esc conf store libs mv w).1
  unfolding find_root
  find_root-keeps ro keeps mv w not_tsgo i =
      rw (not_tsgo, find_root) (find_zip_root-keeps ro keeps mv w i)

  cache_root-world :
      (mv : ModuleVersion) (s : Fs W H) (r : Result H × W)
      → (cache_root esc conf store libs mv s r).1.world ≡ r.1
  unfolding cache_root
  cache_root-world mv s (err e, w) = refl
  cache_root-world mv s (ok h, w) =
      elim (Option-cases (note_module_version libs.sha256 esc mv s.maps)) [
        | inl out ↦ rw (out, cache_root) refl
        | inr (maps, noted) ↦ rw (noted, cache_root) refl
      ]

  root-keeps :
      conf.read_only ≡ true
      → ReadsKeep store Inv
      → (mv : ModuleVersion) (s : Fs W H) → is_tsgo_version esc conf store libs mv ≡ false
      → Inv s.world
      → Inv (get_zip_root esc conf store libs mv s).1.world
  unfolding get_zip_root
  root-keeps ro keeps mv s not_tsgo i =
      elim (Option-cases (get_zip_root_cached (libs.now s.world) mv s.zip_root_cache)) [
        | inl new ↦
            rw (new, get_zip_root, cache_root-world mv s (find_root esc conf store libs mv s.world))
              (find_root-keeps ro keeps mv s.world not_tsgo i)
        | inr ((h, cache), known) ↦ rw (known, get_zip_root) i
      ]

  hash-keeps :
      ReadsKeep store Inv
      → (p : Result H × Fs W H) → Inv p.1.world
      → Inv
          (and_then p
            (λ zr s. on_world esc conf store libs s (store.get_zip_hash zr s.world))).1.world
  hash-keeps keeps (err e, s) i = i
  hash-keeps keeps (ok h, s) i = keeps.get_zip_hash h s.world i

  -- With `ReadOnly`, for a module version that is not a Tailscale Go toolchain, getting a metadata
  -- file keeps every property of the world that the reading methods of the store keep, whatever the
  -- network and the methods that put do to it.
  pub get_meta_file_by_ext-read_only :
      conf.read_only ≡ true
      → ReadsKeep store Inv
      → (mv : ModuleVersion) (ext : Bytes) (s : Fs W H)
      → is_tsgo_version esc conf store libs mv ≡ false
      → Inv s.world
      → Inv (get_meta_file_by_ext esc conf store libs mv ext s).1.world
  unfolding get_meta_file_by_ext get_mod_file get_info_file get_ziphash
  get_meta_file_by_ext-read_only ro keeps mv ext s not_tsgo i =
      elim (Bool-cases (beq ext (codes "mod"))) [
        | inl e ↦
            rw (e, get_meta_file_by_ext)
              (meta-keeps ro (store.get_mod_file mv)
                (downloaded mv (codes "mod") store.put_mod_file) s.world
                (keeps.get_mod_file mv s.world i))
        | inr e ↦ elim (Bool-cases (beq ext (codes "ziphash"))) [
          | inl f ↦
              rw (e, f, get_meta_file_by_ext)
                (hash-keeps keeps (get_zip_root esc conf store libs mv s)
                  (root-keeps ro keeps mv s not_tsgo i))
          | inr f ↦ elim (Bool-cases (beq ext (codes "info"))) [
            | inl g ↦
                rw (e, f, g, get_meta_file_by_ext)
                  (meta-keeps ro (store.get_info_file mv)
                    (downloaded mv (codes "info") store.put_info_file) s.world
                    (keeps.get_info_file mv s.world i))
            | inr g ↦ rw (e, f, g, get_meta_file_by_ext) i
          ]
        ]
      ]
