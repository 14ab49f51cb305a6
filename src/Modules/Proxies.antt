-- ===== src/Modules/Proxies.antt =====
-- Downloads of metadata files in gomodfs.go (`downloadMetaFile`), and the proxies that are tried.
use gomodfs.Base.{Bytes, ◌≡◌, refl, List, [], ◌∷◌, ◌++◌, Result, ok, err, Error, Cmd, ap, sym, ◌∙◌}
use gomodfs.Store.{ModuleVersion, Escaper}
use gomodfs.Text.{dot}
use gomodfs.Modules.{StoreOps, Libraries, Config, net_slurp, mod_url_bases}
use gomodfs.Modules.Fetch.{try_proxies, download_meta_file, stored}

-- The first of the URLs that serves the file gives `contents`; the ones before it fail. The world
-- is `w` before and `w'` after these requests.
pub data FirstServed {W : Type 0} (libs : Libraries W) (ext : Bytes)
    : List Bytes → W → Bytes → W → Type 0 where
  here :
      {url contents : Bytes} {urls : List Bytes} {w w' : W}
      → net_slurp libs (url ++ (dot ∷ ext)) w ≡ (ok contents, w')
      → FirstServed libs ext (url ∷ urls) w contents w'
  there :
      {url contents : Bytes} {urls : List Bytes} {w w1 w' : W} {e : Error}
      → net_slurp libs (url ++ (dot ∷ ext)) w ≡ (err e, w1)
      → FirstServed libs ext urls w1 contents w'
      → FirstServed libs ext (url ∷ urls) w contents w'

module _ {W H : Type 0} (esc : Escaper) (conf : Config) (store : StoreOps W H)
    (libs : Libraries W) where
  abbrev try : Bytes → (Bytes → Cmd W (Unit {0})) → List Error → List Bytes → Cmd W Bytes
  try = try_proxies esc conf store libs

  stored-inv :
      (contents contents' : Bytes) (w'' : W) (p : Result (Unit {0}) × W)
      → stored esc conf store libs contents' p ≡ (ok contents, w'')
      → (contents' ≡ contents) × (p ≡ (ok tt, w''))
  stored-inv contents contents' w'' (ok u, w) h = (cc, cc)
  stored-inv contents contents' w'' (err e, w) h = absurd cc

  abbrev Served : Bytes → (Bytes → Cmd W (Unit {0})) → List Bytes → W → W → Bytes → Type 0
  Served ext put urls w w'' contents =
      (w' : W) × FirstServed libs ext urls w contents w' × (put contents w' ≡ (ok tt, w''))

  of_answer :
      (ext : Bytes) (put : Bytes → Cmd W (Unit {0})) (errs : List Error) (url : Bytes)
      (urls : List Bytes) (w w'' : W) (contents : Bytes) (p : Result Bytes × W)
      → ((d : Error) (w1 : W)
          → try ext put (errs ++ (Error.wrap d ∷ [])) urls w1 ≡ (ok contents, w'')
          → Served ext put urls w1 w'' contents)
      → net_slurp libs (url ++ (dot ∷ ext)) w ≡ p
      → try ext put errs (url ∷ urls) w ≡ (ok contents, w'')
      → Served ext put (url ∷ urls) w w'' contents
  unfolding try_proxies
  of_answer ext put errs url urls w w'' contents (ok a, w1) rest e h =
      let h' : stored esc conf store libs a (put a w1) ≡ (ok contents, w'') =
        sym (ap (λ (x : W). stored esc conf store libs a (put a x)) (ap (λ p. p.1) e))
        ∙ (rw (e, try_proxies) at h) in
      let (same, is_put) = stored-inv contents a w'' (put a w1) h' in
      (w1, here (rw same at e), rw same at is_put)
  of_answer ext put errs url urls w w'' contents (err d, w1) rest e h =
      let h' : try ext put (errs ++ (Error.wrap d ∷ [])) urls w1 ≡ (ok contents, w'') =
        sym (ap (λ (x : W). try ext put (errs ++ (Error.wrap d ∷ [])) urls x) (ap (λ p. p.1) e))
        ∙ (rw (e, try_proxies) at h) in
      let (w', served, is_put) = rest d w1 h' in (w', there e served, is_put)

  try-inv :
      (ext : Bytes) (put : Bytes → Cmd W (Unit {0})) (errs : List Error) (urls : List Bytes)
      (w w'' : W) (contents : Bytes)
      → try ext put errs urls w ≡ (ok contents, w'')
      → Served ext put urls w w'' contents
  unfolding try_proxies
  try-inv ext put errs [] w w'' contents h = absurd cc
  try-inv ext put errs (url ∷ urls) w w'' contents h =
      of_answer ext put errs url urls w w'' contents (net_slurp libs (url ++ (dot ∷ ext)) w)
        (λ d w1 e. try-inv ext put (errs ++ (Error.wrap d ∷ [])) urls w1 w'' contents e) refl h

  -- For the URLs of a module version, whatever `downloadMetaFile` returns was downloaded: it is
  -- what the first proxy that serves the file gave, and it was put into the store.
  pub download_meta_file-FirstServed :
      (mv : ModuleVersion) (ext : Bytes) (put : ModuleVersion → Bytes → Cmd W (Unit {0}))
      (urls : List Bytes) (w w'' : W) (contents : Bytes)
      → mod_url_bases esc conf mv ≡ ok urls
      → download_meta_file esc conf store libs mv ext put w ≡ (ok contents, w'')
      → (w' : W) × FirstServed libs ext urls w contents w' × (put mv contents w' ≡ (ok tt, w''))
  unfolding download_meta_file
  download_meta_file-FirstServed mv ext put urls w w'' contents bases h =
      try-inv ext (put mv) [] urls w w'' contents (rw (bases, download_meta_file) at h)
