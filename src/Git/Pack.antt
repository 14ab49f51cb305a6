-- ===== src/Git/Pack.antt =====
-- The pack file of store/gitstore/gitstore.go: `newPackWriter`, `writePackObject` and `Close`.
pub mod RoundTrip
use gomodfs.Base.{
  ℕ, zero, suc, ◌+◌, ◌*◌, ◌/◌, ◌%◌, ◌^◌, Bytes, codes, List, [], ◌∷◌, ◌++◌, Bool, true, false, ◌==◌,
  if◌then◌else◌, length,
}
use gomodfs.Portmap.{be32}
use gomodfs.Git.{ObjType, blob, tree, Object}

abbrev pub type_code : ObjType → ℕ
type_code tree = 2
type_code blob = 3

-- the bit `continueBit`, if more bytes follow
abbrev pub continued : ℕ → ℕ
continued size = if size == 0 then 0 else 128

-- the loop over the rest of the size, seven bits at a time, on fuel
unfoldable pub size_bytes : ℕ → ℕ → Bytes
size_bytes zero size = []
size_bytes (suc fuel) size =
    let rest = size_bytes fuel (size / 2 ^ 7) in
    if size == 0 then [] else (size % 2 ^ 7 + continued (size / 2 ^ 7)) ∷ rest

-- `hdrBuf` of `writePackObject`: as many rounds as the size are enough
unfoldable pub object_header : ObjType → ℕ → Bytes
unfolding size_bytes
object_header typ size =
    (type_code typ * 2 ^ 4 + size % 2 ^ 4 + continued (size / 2 ^ 4))
    ∷ size_bytes size (size / 2 ^ 4)

-- `writePackObject`, of what is written before it
unfoldable pub write_pack_object : (zlib : Bytes → Bytes) → Object → Bytes → Bytes
unfolding object_header
write_pack_object zlib obj buf =
    buf ++ (object_header obj.typ (length obj.content) ++ zlib obj.content)

-- `newPackWriter`
unfoldable pub new_pack_writer : ℕ → Bytes
unfolding be32
new_pack_writer num_objs = codes "PACK" ++ (be32 2 ++ be32 num_objs)

unfoldable pub write_pack_objects : (zlib : Bytes → Bytes) → List Object → Bytes → Bytes
unfolding write_pack_object
write_pack_objects zlib [] buf = buf
write_pack_objects zlib (obj ∷ objs) buf =
    write_pack_objects zlib objs (write_pack_object zlib obj buf)

-- the pack of `sendToGit`, which `Close` ends with its SHA-1
unfoldable pub pack_file : (zlib sha1 : Bytes → Bytes) → List Object → Bytes
unfolding new_pack_writer write_pack_objects
pack_file zlib sha1 objs =
    let buf = write_pack_objects zlib objs (new_pack_writer (length objs)) in buf ++ sha1 buf
