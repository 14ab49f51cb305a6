-- ===== src/Remote/EndToEnd.antt =====
-- The client against the handler: what a client gets that asks this handler for a metadata file.
use gomodfs.Base.{
  ℕ, Bytes, codes, ◌∷◌, ◌++◌, some, false, if◌then◌else◌, ◌≡◌, refl, ap, append_assoc, Result, ok,
  err, is_cache_miss, other, cache_miss, Bool-cases, inl, inr, ◌∙◌, and_then,
}
use gomodfs.Store.{ModuleVersion, Escaper, IsEscaper}
use gomodfs.Text.{dot}
use gomodfs.Paths.{MetaExt, ext_name}
use gomodfs.Remote.Protocol.{meta_prefix, mv_to_escaped_path}
use gomodfs.Remote.Protocol.RoundTrip.{parse_mv_from_path-meta, parse_mv_from_path-escaped}
use gomodfs.Remote.Handler.{
  Backend, Codec, Response, error, success, handle_meta, miss_status, served,
}
use gomodfs.Remote.Client.{
  HttpResponse, Web, Client, fetch_meta_file, escaped, checked, http_get, with_net,
}

-- a response of the handler as the client's HTTP library gives it
abbrev pub as_http : {S : Type 0} → Response × S → Result HttpResponse × S
as_http (error status, s) = (ok (record { status = status; lz4 = false; body = err other }), s)
as_http (success lz4 body, s) = (ok (record { status = 200; lz4 = lz4; body = ok body }), s)

-- The error that reaches the client: a cache miss is still one, and nothing else is known of
-- others.
abbrev pub over_http : {S : Type 0} → Result Bytes × S → Result Bytes × S
over_http (ok body, s) = (ok body, s)
over_http (err e, s) = (if is_cache_miss e then err cache_miss else err other, s)

module _ {W H C : Type 0} (esc : Escaper) (laws : IsEscaper esc) (b : Backend W H) (codec : Codec C)
    (fuel : ℕ) (web : Web (W × C)) (base_url : Bytes) where
  abbrev pub backend_meta : ModuleVersion → MetaExt → W × C → Result Bytes × (W × C)
  backend_meta mv x (w, c) = (
    (b.get_meta_file_by_ext mv (ext_name x) w).0,
    ((b.get_meta_file_by_ext mv (ext_name x) w).1, c),
  )

  answer-meta :
      (r : Result Bytes × W) (c : C) (s : Client (W × C))
      → and_then
          (with_net esc web base_url fuel s (as_http (served esc b codec fuel r c)))
          (checked esc web base_url fuel cache_miss)
        ≡ with_net esc web base_url fuel s (over_http (r.0, (r.1, c)))
  unfolding checked miss_status
  answer-meta (ok body, w) c s = refl
  answer-meta (err e, w) c s = elim (Bool-cases (is_cache_miss e)) [
    | inl miss ↦ rw (miss, miss_status) refl
    | inr hit ↦ rw (hit, miss_status) refl
  ]

  handled :
      (mv : ModuleVersion) (em ev : Bytes) (x : MetaExt) (n : W × C)
      → esc.escape_path mv.module_path ≡ some em
      → esc.escape_version mv.version ≡ some ev
      → handle_meta esc b codec fuel
          (meta_prefix ++ ((em ++ (codes "/@v/" ++ ev)) ++ (dot ∷ ext_name x)))
          n
        ≡ served esc b codec fuel (b.get_meta_file_by_ext mv (ext_name x) n.0) n.1
  unfolding handle_meta
  handled mv em ev x n hm hv =
      rw
        (
          append_assoc em (codes "/@v/" ++ ev) (dot ∷ ext_name x),
          handle_meta,
          parse_mv_from_path-meta esc laws mv em ev x hm hv,
        )
        refl

  escaped-ok :
      (mv : ModuleVersion) (p : Bytes) (s : Client (W × C))
      → mv_to_escaped_path esc mv ≡ some p
      → escaped esc web base_url fuel mv s ≡ (ok p, s)
  unfolding escaped
  escaped-ok mv p s h = rw (h, escaped) refl

  fetch-request :
      (mv : ModuleVersion) (p ext : Bytes) (s : Client (W × C))
      → mv_to_escaped_path esc mv ≡ some p
      → fetch_meta_file esc web base_url fuel mv ext s
        ≡ and_then
            (with_net esc web base_url fuel s
              (web.get false (base_url ++ (meta_prefix ++ (p ++ (dot ∷ ext)))) s.net))
            (checked esc web base_url fuel cache_miss)
  unfolding fetch_meta_file http_get
  fetch-request mv p ext s h = rw (escaped-ok mv p s h, fetch_meta_file) refl

  -- A client whose HTTP library hands its requests to this handler gets, for a module version that
  -- can be escaped, the metadata file that the backend gives; if the backend fails, the client
  -- fails, with a cache miss just if the backend's error is one. The backend is called once, and
  -- nothing else happens behind the handler.
  pub fetch_meta_file-backend :
      (mv : ModuleVersion) (em ev : Bytes) (x : MetaExt) (s : Client (W × C))
      → ((path : Bytes) (n : W × C)
          → web.get false (base_url ++ path) n ≡ as_http (handle_meta esc b codec fuel path n))
      → esc.escape_path mv.module_path ≡ some em
      → esc.escape_version mv.version ≡ some ev
      → fetch_meta_file esc web base_url fuel mv (ext_name x) s
        ≡ with_net esc web base_url fuel s (over_http (backend_meta mv x s.net))
  fetch_meta_file-backend mv em ev x s server hm hv =
      let p = em ++ (codes "/@v/" ++ ev) in
      fetch-request mv p (ext_name x) s (parse_mv_from_path-escaped esc laws mv em ev hm hv).0
      ∙ ap
          (λ r.
            and_then (with_net esc web base_url fuel s r)
              (checked esc web base_url fuel cache_miss))
          (server (meta_prefix ++ (p ++ (dot ∷ ext_name x))) s.net
            ∙ ap as_http (handled mv em ev x s.net hm hv))
      ∙ answer-meta (b.get_meta_file_by_ext mv (ext_name x) s.net.0) s.net.1 s
