-- ===== src/Portmap/Tests.antt =====
-- Runs of the portmapper, and its theorems at concrete calls.
use gomodfs.Base.{
  ℕ, Bytes, [], ◌∷◌, ◌++◌, some, ◌≡◌, ◌≢◌, ◌⊎◌, refl, arith, length, ◌+◌, ◌≤◌, ◌%◌, ◌^◌,
}
use gomodfs.Portmap.{
  be32, word, u32, skip_opaque_auth, reply_header, answer, reply, read_full, fragment_header,
  read_fragments, read_record, frame, serve_conn, got, failed, out_of_fuel, max_record,
  pmap_proc_getport, pmap_proc_null, rpc_call, rpc_version, portmap_prog, portmap_vers,
}
use gomodfs.Portmap.Reply.{Auth, call, IsOffered, port_reply, reply-getport, reply_sound}
use gomodfs.Portmap.Records.{
  fragments, read_record-fragments, read_record_bounded, read_record_total,
}
use gomodfs.Portmap.Calls.{Exchange}

program : Unit {0}
unfolding be32 word u32 skip_opaque_auth reply_header answer reply read_full fragment_header
    read_fragments read_record frame serve_conn
program = tt

abbrev no_auth : Auth
no_auth = record {
  flavor = 0;
  size = 0;
  field = [];
  flavor_fits = omega arith;
  size_fits = omega arith;
  is_padded = refl;
}

-- a GETPORT call for NFS, version 3, over TCP
abbrev getport : Bytes
getport = call 7 pmap_proc_getport no_auth no_auth (be32 100003 ++ (be32 3 ++ be32 6))

-- the same in bytes
abbrev getport_bytes : Bytes
getport_bytes =
    0 ∷ 0 ∷ 0 ∷ 7 ∷ 0 ∷ 0 ∷ 0 ∷ 0 ∷ 0 ∷ 0 ∷ 0 ∷ 2 ∷ 0 ∷ 1 ∷ 134 ∷ 160 ∷ 0 ∷ 0 ∷ 0 ∷ 2 ∷ 0 ∷ 0 ∷ 0
    ∷ 0 ∷ 0 ∷ 0 ∷ 0 ∷ 0 ∷ 0 ∷ 0 ∷ 0 ∷ 0 ∷ 0 ∷ 0 ∷ 0 ∷ 0 ∷ 0 ∷ 0 ∷ 0 ∷ 0 ∷ []

abbrev null_reply : Bytes
null_reply =
    0 ∷ 0 ∷ 0 ∷ 7 ∷ 0 ∷ 0 ∷ 0 ∷ 1 ∷ 0 ∷ 0 ∷ 0 ∷ 0 ∷ 0 ∷ 0 ∷ 0 ∷ 0 ∷ 0 ∷ 0 ∷ 0 ∷ 0 ∷ 0 ∷ 0 ∷ 0 ∷ 0
    ∷ []

null_answer : reply 2049 getport_bytes ≡ some null_reply
unfolding program
null_answer = refl

reply-getport_example :
    (IsOffered 100003 6 × (reply 2049 getport ≡ some (port_reply 7 (2049 % 2 ^ 32))))
    ⊎ ((¬ IsOffered 100003 6) × (reply 2049 getport ≡ some (port_reply 7 0)))
reply-getport_example =
    reply-getport 2049 7 100003 3 6 no_auth no_auth (omega arith) (omega arith) (omega arith)
      (omega arith)

reply_sound_example :
    (xid proc : ℕ) × (rest : Bytes) × (getport_bytes
      ≡ be32 xid
        ++ (be32 rpc_call
            ++ (be32 rpc_version
                ++ (be32 portmap_prog ++ (be32 portmap_vers ++ (be32 proc ++ rest))))))
    × (16 ≤ length rest)
    × (((proc ≡ pmap_proc_null) × (null_reply ≡ reply_header xid))
        ⊎ ((proc ≡ pmap_proc_getport)
            × ((null_reply ≡ reply_header xid ++ be32 0)
                ⊎ (null_reply ≡ reply_header xid ++ be32 (2049 % 2 ^ 32)))))
reply_sound_example = reply_sound 2049 getport_bytes null_reply (omega arith) null_answer

read_record-fragments_example :
    read_record (fragments (1 ∷ 2 ∷ []) ((3 ∷ []) ∷ []) ++ 9 ∷ []) ≡ got (1 ∷ 2 ∷ 3 ∷ [], 9 ∷ [])
read_record-fragments_example =
    read_record-fragments (1 ∷ 2 ∷ []) ((3 ∷ []) ∷ []) (9 ∷ []) (omega arith)

abbrev one_record : Bytes
one_record = 128 ∷ 0 ∷ 0 ∷ 1 ∷ 5 ∷ []

one_record_read : read_record one_record ≡ got (5 ∷ [], [])
unfolding program
one_record_read = refl

read_record_total_example : read_record one_record ≢ failed out_of_fuel
read_record_total_example = read_record_total one_record

read_record_bounded_example :
    (length {A = ℕ} (5 ∷ []) ≤ max_record) × (length {A = ℕ} [] + 4 ≤ length one_record)
read_record_bounded_example = read_record_bounded one_record (5 ∷ []) [] one_record_read

abbrev null_call : Exchange 2049
null_call = record {
  first = getport_bytes;
  more = [];
  resp = null_reply;
  fits = omega arith;
  answered = null_answer;
}
