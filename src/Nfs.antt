-- ===== src/Nfs.antt =====
-- nfs.go: reads of a file by offset and count. The contents of the handle and its attributes are
-- what `getFileContents` answers, a parameter; a handle is 64 bytes.
pub mod Whole
pub mod Handles
pub mod Search
pub mod Names
pub mod Walks
pub mod Found
pub mod Issued
pub mod Untouched
pub mod Kept
pub mod ReadCache
mod Tests
use gomodfs.Base.{
  ℕ, ◌+◌, ◌^◌, ◌*◌, Bytes, Bool, true, false, ◌==◌, ltb, if◌then◌else◌, length, take, drop, Error,
  Result, ok, err, Cmd, is_not_exist, stale, no_ent, other, not, List,
}

-- `nfs.NFSReadResult`, without the attributes
pub record ReadResult : Type 0 where
  pub data_read : Bytes
  pub eof : Bool

-- the smaller of two numbers, and the limit of 16 MiB for one read
abbrev pub min_of : ℕ → ℕ → ℕ
min_of a b = if ltb b a then b else a

abbrev pub max_read : ℕ
max_read = 16777216

-- what `OnNFSRead` reads of the contents. `int(offset)` is negative from 2 ^ 63 on, and then no sum
-- with a length is the length of the contents.
unfoldable pub read_at : Bytes → ℕ → ℕ → ReadResult
read_at contents offset count =
    let behind = drop (min_of (length contents) offset) contents in
    let limit = min_of count max_read in
    let piece = if ltb limit (length behind) then take limit behind else behind in
    record {
      data_read = piece;
      eof = if ltb offset (2 ^ 63) then offset + length piece == length contents else false;
    }

abbrev pub read_of : {W : Type 0} → ℕ → ℕ → Result Bytes × W → Result ReadResult × W
read_of offset count (ok contents, w) = (ok (read_at contents offset count), w)
read_of offset count (err e, w) = (if is_not_exist e then err (no_ent e) else err e, w)

-- `OnNFSRead`
unfoldable pub on_nfs_read :
    {W : Type 0} → (get_file_contents : Bytes → Cmd W Bytes) → Bytes → ℕ → ℕ → Cmd W ReadResult
unfolding read_at is_not_exist
on_nfs_read get_file_contents handle offset count w =
    if length handle == 64
    then read_of offset count (get_file_contents handle w)
    else (err (stale other), w)
