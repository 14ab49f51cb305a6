-- ===== src/Git.antt =====
-- store/gitstore/gitstore.go: modules in a git repository. The parts are the trees that are built,
-- the pack file that is sent, the refs, and what is read back. git, SHA-1 and zlib are parameters.
pub mod Pack
pub mod Tree
pub mod Refs
pub mod Listing
pub mod Reads
mod Tests
use gomodfs.Base.{Bytes}

-- `object`, whose type is "blob" or "tree"
pub data ObjType : Type 0 where
  blob tree : ObjType

pub record Object : Type 0 where
  pub typ : ObjType
  pub content : Bytes
  pub hash : Bytes

-- `modHandle`'s and the tree builder's references: `objRef`, a SHA-1 digest
abbrev pub ObjRef : Type 0
ObjRef = Bytes
