-- ===== src/Portmap.antt =====
-- portmap/portmap.go: the static portmapper. A connection is the bytes that it still gives; the
-- log lines are left out, since no result depends on them.
pub mod Words
pub mod Reply
pub mod Records
pub mod Calls
mod Tests
use gomodfs.Base.{
  ℕ, zero, suc, ◌+◌, ◌*◌, ◌/◌, ◌%◌, ◌^◌, ◌<◌, Bytes, List, [], ◌∷◌, ◌++◌, Option, none, some, Bool,
  true, false, ◌&&◌, ◌||◌, ◌==◌, ltb, leb, if◌then◌else◌, length, take, drop, is_empty,
}

abbrev pub rpc_call : ℕ
rpc_call = 0

abbrev pub rpc_reply : ℕ
rpc_reply = 1

abbrev pub rpc_version : ℕ
rpc_version = 2

abbrev pub reply_msg_accepted : ℕ
reply_msg_accepted = 0

abbrev pub accept_success : ℕ
accept_success = 0

abbrev pub portmap_prog : ℕ
portmap_prog = 100000

abbrev pub portmap_vers : ℕ
portmap_vers = 2

abbrev pub pmap_proc_null : ℕ
pmap_proc_null = 0

abbrev pub pmap_proc_getport : ℕ
pmap_proc_getport = 3

abbrev pub ipproto_tcp : ℕ
ipproto_tcp = 6

abbrev pub nfs_prog : ℕ
nfs_prog = 100003

abbrev pub mount_prog : ℕ
mount_prog = 100005

abbrev pub nlm_prog : ℕ
nlm_prog = 100021

-- 64 << 10
abbrev pub max_record : ℕ
max_record = 65536

-- `binary.BigEndian.AppendUint32(nil, uint32(n))`
unfoldable pub be32 : ℕ → Bytes
be32 n = n / 2 ^ 24 % 256 ∷ n / 2 ^ 16 % 256 ∷ n / 2 ^ 8 % 256 ∷ n % 256 ∷ []

-- `binary.BigEndian.Uint32` of the first four bytes, with the bytes behind them
unfoldable pub word : Bytes → Option (ℕ × Bytes)
word (a ∷ b ∷ c ∷ d ∷ rest) = some (a * 2 ^ 24 + b * 2 ^ 16 + c * 2 ^ 8 + d, rest)
word (a ∷ b ∷ c ∷ []) = none
word (a ∷ b ∷ []) = none
word (a ∷ []) = none
word [] = none

pub record XdrReader : Type 0 where
  pub b : Bytes
  pub bad : Bool

unfoldable pub u32 : XdrReader → ℕ × XdrReader
unfolding word
u32 r = elim (word r.b) [
  | some (v, rest) ↦ (v, record r { b = rest })
  | none ↦ (0, record r { bad = true })
]

-- `n + 3 &^ 3` is the length rounded up to whole words, in 64 bits.
unfoldable pub skip_opaque_auth : XdrReader → XdrReader
skip_opaque_auth r =
    let (flavor, r1) = u32 r in
    let (body, r2) = u32 r1 in
    let n = (body + 3) / 4 * 4 in
    if ltb (length r2.b) n then record r2 { bad = true } else record r2 { b = drop n r2.b }

abbrev pub is_served : ℕ → ℕ → Bool
is_served prog prot =
    (prot == ipproto_tcp) && ((prog == nfs_prog) || ((prog == mount_prog) || (prog == nlm_prog)))

-- the fixed part of an accepted reply
unfoldable pub reply_header : ℕ → Bytes
reply_header xid =
    be32 xid ++ be32 rpc_reply ++ be32 reply_msg_accepted ++ be32 0 ++ be32 0 ++ be32 accept_success

-- `reply`, from the procedure number on; `r` stands behind the verifier
unfoldable pub answer : ℕ → ℕ → ℕ → XdrReader → Option Bytes
answer server_port xid proc r =
    let (prog, r1) = u32 r in
    let (vers, r2) = u32 r1 in
    let (prot, r3) = u32 r2 in
    let port = if is_served prog prot then server_port % 2 ^ 32 else 0 in
    if proc == pmap_proc_null
    then if r.bad then none else some (reply_header xid)
    else if proc == pmap_proc_getport
    then if r3.bad then none else some (reply_header xid ++ be32 port)
    else none

-- `(*Server).reply`, for a server whose field Port is `server_port`
unfoldable pub reply : ℕ → Bytes → Option Bytes
reply server_port msg =
    let (xid, r1) = u32 (record { b = msg; bad = false }) in
    let (kind, r2) = u32 r1 in
    let (version, r3) = u32 r2 in
    let (prog, r4) = u32 r3 in
    let (vers, r5) = u32 r4 in
    let (proc, r6) = u32 r5 in
    if kind == rpc_call
      && (version == rpc_version && (prog == portmap_prog && vers == portmap_vers))
    then answer server_port xid proc (skip_opaque_auth (skip_opaque_auth r6))
    else none

pub data ReadError : Type 0 where
  eof unexpected_eof too_large out_of_fuel : ReadError

pub data Read (A : Type 0) : Type 0 where
  got : A → Read A
  failed : ReadError → Read A

-- `io.ReadFull` of `n` bytes: what was read and the rest of the connection
unfoldable pub read_full : ℕ → Bytes → Read (Bytes × Bytes)
read_full n input =
    if leb n (length input)
    then got (take n input, drop n input)
    else if is_empty input
    then failed eof
    else failed unexpected_eof

-- `hdr` of one fragment: its length and its last-fragment bit
unfoldable pub fragment_header : Bytes → Read (ℕ × Bool × Bytes)
unfolding word
fragment_header input = elim (word input) [
  | some (h, rest) ↦ got (h % 2 ^ 31, leb (2 ^ 31) h, rest)
  | none ↦ if is_empty input then failed eof else failed unexpected_eof
]

-- The loop of `readRecord`, on fuel: `rec` is what the fragments before gave.
unfoldable pub read_fragments : ℕ → Bytes → Bytes → Read (Bytes × Bytes)
unfolding fragment_header read_full
read_fragments zero rec input = failed out_of_fuel
read_fragments (suc fuel) rec input = elim (fragment_header input) [
  | failed e ↦ failed e
  | got (n, last, rest) ↦ elim (ltb max_record (length rec + n)) [
    | true ↦ failed too_large
    | false ↦ elim (read_full n rest) [
      | failed e ↦ failed e
      | got (body, rest') ↦ elim (last) [
        | true ↦ got (rec ++ body, rest')
        | false ↦ read_fragments fuel (rec ++ body) rest'
      ]
    ]
  ]
]

-- `readRecord`. A round takes at least the four bytes of a header, so the fuel is enough.
unfoldable pub read_record : Bytes → Read (Bytes × Bytes)
unfolding read_fragments
read_record input = read_fragments (suc (length input)) [] input

-- a reply as one last fragment
unfoldable pub frame : Bytes → Bytes
unfolding be32
frame resp = be32 (length resp % 2 ^ 31 + 2 ^ 31) ++ resp

-- `(*Server).serveConn`, on fuel: the frames written to the connection, in order. `accepts sent
-- out` says whether the write of `out` succeeds after those of `sent`.
unfoldable pub serve_conn : ℕ → (List Bytes → Bytes → Bool) → ℕ → List Bytes → Bytes → List Bytes
serve_conn server_port accepts zero sent input = sent
serve_conn server_port accepts (suc fuel) sent input = elim (read_record input) [
  | failed e ↦ sent
  | got (rec, rest) ↦ elim (reply server_port rec) [
    | none ↦ sent
    | some resp ↦ elim (accepts sent (frame resp)) [
      | false ↦ sent
      | true ↦ serve_conn server_port accepts fuel (sent ++ frame resp ∷ []) rest
    ]
  ]
]
