-- ===== src/Nfs/Issued.antt =====
-- A server of nfs.go between `ToHandle` and `FromHandle`.
use gomodfs.Base.{ℕ, Bytes, List}
use gomodfs.Store.{Escaper}
use gomodfs.Nfs.Handles.{Handle, Listings, Server, to_handle}
use gomodfs.Nfs.Search.{from_handle}
use gomodfs.Nfs.Names.{Names}

module _ {W H : Type 0} (sha256 : Bytes → Bytes) (esc : Escaper) (store : Listings W H) where
  -- the states after calls of `ToHandle` and `fromHandle`, of any paths and handles
  pub data Reaches (s0 : Server W) : Server W → Type 0 where
    start : Reaches s0 s0
    asked :
        (s : Server W)
        → Reaches s0 s
        → (path : List Bytes) → Reaches s0 (to_handle sha256 esc path s).1
    used :
        (s : Server W)
        → Reaches s0 s
        → (fuel : ℕ) (h : Handle) → Reaches s0 (from_handle sha256 esc store fuel h s).1
