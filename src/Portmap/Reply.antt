-- ===== src/Portmap/Reply.antt =====
-- The calls and answers of `reply` of portmap/portmap.go.
use gomodfs.Base.{
  ℕ, ◌+◌, ◌*◌, ◌/◌, ◌%◌, ◌^◌, ◌<◌, ◌≤◌, Bytes, [], ◌++◌, append_assoc, append-nil, none, some, true,
  false, ◌≡◌, ◌⊎◌, inl, inr, refl, ap, ◌∙◌, zero, suc, arith, All, length, length-append,
  drop-append_length, if◌then◌else◌, Option-cases, Bool-cases, length-drop,
}
use gomodfs.Portmap.{
  XdrReader, be32, word, u32, skip_opaque_auth, is_served, reply_header, answer, reply, rpc_call,
  rpc_version, portmap_prog, portmap_vers, pmap_proc_getport, pmap_proc_null,
}
use gomodfs.Portmap.Words.{IsByte, u32-be32, word_inv, length-word}

abbrev pub reader : Bytes → XdrReader
reader s = record { b = s; bad = false }

abbrev pub padded : ℕ → ℕ
padded n = (n + 3) / 4 * 4

-- an opaque_auth: a flavor, the length of the body, and the body, `field`, padded to whole words
pub record Auth : Type 0 where
  pub flavor : ℕ
  pub size : ℕ
  pub field : Bytes
  pub flavor_fits : flavor < 2 ^ 32
  pub size_fits : size < 2 ^ 32
  pub is_padded : length field ≡ padded size

abbrev pub auth : Auth → Bytes
auth a = be32 a.flavor ++ (be32 a.size ++ a.field)

skip-auth : (a : Auth) (rest : Bytes) → skip_opaque_auth (reader (auth a ++ rest)) ≡ reader rest
unfolding skip_opaque_auth
skip-auth a rest =
    rw
      (
        append_assoc (be32 a.flavor) (be32 a.size ++ a.field) rest,
        append_assoc (be32 a.size) a.field rest,
        u32-be32 a.flavor (be32 a.size ++ (a.field ++ rest)) false a.flavor_fits,
        u32-be32 a.size (a.field ++ rest) false a.size_fits,
      )
      (ground (arith, a.is_padded, length-append a.field rest, drop-append_length a.field rest))

-- a call of procedure `proc` of the portmapper, version 2
abbrev pub call : ℕ → ℕ → Auth → Auth → Bytes → Bytes
call xid proc cred verf args =
    be32 xid
    ++ (be32 rpc_call
        ++ (be32 rpc_version
            ++ (be32 portmap_prog
                ++ (be32 portmap_vers ++ (be32 proc ++ (auth cred ++ (auth verf ++ args)))))))

reply-call :
    (port xid proc : ℕ) (cred verf : Auth) (args : Bytes)
    → xid < 2 ^ 32
    → proc < 2 ^ 32
    → reply port (call xid proc cred verf args) ≡ answer port xid proc (reader args)
unfolding reply
reply-call port xid proc cred verf args hx hp =
    let r6 : Bytes = auth cred ++ (auth verf ++ args) in
    let r5 : Bytes = be32 proc ++ r6 in
    let r4 : Bytes = be32 portmap_vers ++ r5 in
    let r3 : Bytes = be32 portmap_prog ++ r4 in
    let r2 : Bytes = be32 rpc_version ++ r3 in
    let r1 : Bytes = be32 rpc_call ++ r2 in
    rw (
      u32-be32 xid r1 false hx,
      u32-be32 rpc_call r2 false (omega arith),
      u32-be32 rpc_version r3 false (omega arith),
      u32-be32 portmap_prog r4 false (omega arith),
      u32-be32 portmap_vers r5 false (omega arith),
      u32-be32 proc r6 false hp,
      skip-auth cred (auth verf ++ args),
      skip-auth verf args,
    )

u32-last : (n : ℕ) → n < 2 ^ 32 → u32 (reader (be32 n)) ≡ (n, reader [])
u32-last n h = rw (← append-nil (be32 n)) (u32-be32 n [] false h)

-- TCP, which is 6, and NFS, MOUNT or NLM (RFC 1813, RFC 5531)
abbrev pub IsOffered : ℕ → ℕ → Type 0
IsOffered prog prot = (prot ≡ 6) × ((prog ≡ 100003) ⊎ (prog ≡ 100005) ⊎ (prog ≡ 100021))

is_served-IsOffered :
    (prog prot : ℕ)
    → ((is_served prog prot ≡ true) × IsOffered prog prot)
      ⊎ ((is_served prog prot ≡ false) × (¬ IsOffered prog prot))
is_served-IsOffered prog prot = elim (Bool-cases (is_served prog prot)) [
  | inl e ↦ inl (e, ground arith)
  | inr e ↦ inr (e, λ offered. ground arith)
]

-- the reply to a GETPORT call that tells a port
abbrev pub port_reply : ℕ → ℕ → Bytes
port_reply xid port = reply_header xid ++ be32 port

reply-served :
    (port xid prog vers prot : ℕ) (cred verf : Auth)
    → xid < 2 ^ 32
    → prog < 2 ^ 32
    → vers < 2 ^ 32
    → prot < 2 ^ 32
    → reply port (call xid pmap_proc_getport cred verf (be32 prog ++ (be32 vers ++ be32 prot)))
      ≡ some (port_reply xid (if is_served prog prot then port % 2 ^ 32 else 0))
unfolding answer
reply-served port xid prog vers prot cred verf hx hg hv ht = rw (
  reply-call port xid pmap_proc_getport cred verf (be32 prog ++ (be32 vers ++ be32 prot)) hx
      (omega arith),
  answer,
  u32-be32 prog (be32 vers ++ be32 prot) false hg,
  u32-be32 vers (be32 prot) false hv,
  u32-last prot ht,
)

-- A GETPORT call for a program, version and protocol, with any credentials and verifier, and with
-- numbers of 32 bits, is answered with the low 32 bits of the server's port if the protocol is 6
-- (TCP) and the program 100003 (NFS), 100005 (MOUNT) or 100021 (NLM), and with port 0 otherwise.
pub reply-getport :
    (port xid prog vers prot : ℕ) (cred verf : Auth)
    → xid < 2 ^ 32
    → prog < 2 ^ 32
    → vers < 2 ^ 32
    → prot < 2 ^ 32
    → (IsOffered prog prot
        × (reply port (call xid 3 cred verf (be32 prog ++ (be32 vers ++ be32 prot)))
            ≡ some (port_reply xid (port % 2 ^ 32))))
      ⊎ ((¬ IsOffered prog prot)
          × (reply port (call xid 3 cred verf (be32 prog ++ (be32 vers ++ be32 prot)))
              ≡ some (port_reply xid 0)))
reply-getport port xid prog vers prot cred verf hx hg hv ht =
    let told = reply-served port xid prog vers prot cred verf hx hg hv ht in
    elim (is_served-IsOffered prog prot) [
      | inl (served, offered) ↦ inl (offered, rw served at told)
      | inr (served, not_offered) ↦ inr (not_offered, rw served at told)
    ]

-- once a read was short, no answer is given
u32-bad : (r : XdrReader) → r.bad ≡ true → (u32 r).1.bad ≡ true
unfolding u32
u32-bad r h = ground arith

skip-bad : (r : XdrReader) → r.bad ≡ true → (skip_opaque_auth r).bad ≡ true
unfolding skip_opaque_auth
skip-bad r h = ground (arith, u32-bad r h, u32-bad (u32 r).1)

answer-bad : (port xid proc : ℕ) (r : XdrReader) → r.bad ≡ true → answer port xid proc r ≡ none
unfolding answer
answer-bad port xid proc r h =
    ground (arith, u32-bad r h, u32-bad (u32 r).1, u32-bad (u32 (u32 r).1).1)

-- a read that was not short
u32-good :
    (r : XdrReader)
    → All IsByte r.b
    → (u32 r).1.bad ≡ false
    → (r.bad ≡ false) × (r.b ≡ be32 (u32 r).0 ++ (u32 r).1.b) × All IsByte (u32 r).1.b
unfolding u32
u32-good r h good = elim (Option-cases (word r.b)) [
  | inl short ↦ absurd (ground arith)
  | inr ((v, rest), long) ↦
      let (e, lt, all) = word_inv r.b v rest h long in
      (ground arith, rw (long, u32) e, rw (long, u32) all)
]

length-u32 : (r : XdrReader) → (u32 r).1.bad ≡ false → length r.b ≡ length (u32 r).1.b + 4
unfolding u32
length-u32 r good = elim (Option-cases (word r.b)) [
  | inl short ↦ absurd (ground arith)
  | inr ((v, rest), long) ↦ ground (arith, length-word r.b v rest long)
]

length-skip :
    (r : XdrReader)
    → (skip_opaque_auth r).bad ≡ false
    → length (skip_opaque_auth r).b + 8 ≤ length r.b
unfolding skip_opaque_auth
length-skip r good = ground (
  arith,
  u32-bad (u32 r).1,
  length-u32 r,
  length-u32 (u32 r).1,
  length-drop (((u32 (u32 r).1).0 + 3) / 4 * 4) (u32 (u32 r).1).1.b,
)

-- the reader behind `n` words, and the bytes before it as those words
abbrev behind : ℕ → XdrReader → XdrReader
behind zero r = r
behind (suc n) r = behind n (u32 r).1

abbrev words : ℕ → XdrReader → Bytes
words zero r = r.b
words (suc n) r = be32 (u32 r).0 ++ words n (u32 r).1

-- the reader of `reply` behind the procedure number, as `reply` writes it
abbrev behind6 : Bytes → XdrReader
behind6 msg = behind 6 (reader msg)

words-behind :
    (n : ℕ) (r : XdrReader)
    → All IsByte r.b
    → (behind n r).bad ≡ false
    → (r.bad ≡ false) × (r.b ≡ words n r)
words-behind zero r h good = (good, refl)
words-behind (suc n) r h good = elim (Bool-cases (u32 r).1.bad) [
  | inl bad ↦ absurd (false_of_bad n (u32 r).1 bad good)
  | inr fine ↦
      let (ok, e, all) = u32-good r h fine in
      let (_, e') = words-behind n (u32 r).1 all good in
      (ok, e ∙ ap (λ (t : Bytes). be32 (u32 r).0 ++ t) e')
]
  where
    false_of_bad : (n : ℕ) (r : XdrReader) → r.bad ≡ true → (behind n r).bad ≡ false → ⊥
    false_of_bad zero r bad good = cc
    false_of_bad (suc n) r bad good = false_of_bad n (u32 r).1 (u32-bad r bad) good

-- what `reply` checked before it answered
reply-accepted :
    (port : ℕ) (msg out : Bytes)
    → reply port msg ≡ some out
    → ((u32 (behind 1 (reader msg))).0 ≡ rpc_call)
      × ((u32 (behind 2 (reader msg))).0 ≡ rpc_version)
      × ((u32 (behind 3 (reader msg))).0 ≡ portmap_prog)
      × ((u32 (behind 4 (reader msg))).0 ≡ portmap_vers)
      × (answer port
            (u32 (reader msg)).0
            (u32 (behind 5 (reader msg))).0
            (skip_opaque_auth (skip_opaque_auth (behind6 msg)))
          ≡ some out)
unfolding reply
reply-accepted port msg out e = ground arith

answer-some :
    (port xid proc : ℕ) (r : XdrReader) (out : Bytes)
    → answer port xid proc r ≡ some out
    → (r.bad ≡ false)
      × (((proc ≡ pmap_proc_null) × (out ≡ reply_header xid))
          ⊎ ((proc ≡ pmap_proc_getport)
              × ((out ≡ reply_header xid ++ be32 0)
                  ⊎ (out ≡ reply_header xid ++ be32 (port % 2 ^ 32)))))
unfolding answer
answer-some port xid proc r out e = elim (Bool-cases r.bad) [
  | inl bad ↦ absurd (ground (arith, answer-bad port xid proc r bad))
  | inr fine ↦ (fine, ground (arith, u32-bad r))
]

-- Only a call of the portmapper, version 2, is answered: the message is the words of such a call
-- and at least the sixteen bytes of two opaque_auths. The answer is for procedure NULL the header
-- of an accepted reply with the call's xid, and for GETPORT that header and a port, which is 0 or
-- the server's.
pub reply_sound :
    (port : ℕ) (msg out : Bytes)
    → All IsByte msg
    → reply port msg ≡ some out
    → (xid proc : ℕ) × (rest : Bytes) × (msg
        ≡ be32 xid
          ++ (be32 rpc_call
              ++ (be32 rpc_version
                  ++ (be32 portmap_prog ++ (be32 portmap_vers ++ (be32 proc ++ rest))))))
      × (16 ≤ length rest)
      × (((proc ≡ pmap_proc_null) × (out ≡ reply_header xid))
          ⊎ ((proc ≡ pmap_proc_getport)
              × ((out ≡ reply_header xid ++ be32 0)
                  ⊎ (out ≡ reply_header xid ++ be32 (port % 2 ^ 32)))))
reply_sound port msg out all e =
    let (kind, version, prog, vers, answered) = reply-accepted port msg out e in
    let (fine, cases) = answer-some port _ _ _ out answered in
    let r6 = behind6 msg in
    let fine1 = skip-good (skip_opaque_auth r6) fine in
    let fine6 = skip-good r6 fine1 in
    let (_, spelled) = words-behind 6 (reader msg) all fine6 in
    (
      (u32 (reader msg)).0,
      (u32 (behind 5 (reader msg))).0,
      r6.b,
      cc (spelled, kind, version, prog, vers),
      omega (arith, length-skip r6 fine1, length-skip (skip_opaque_auth r6) fine),
      cases,
    )
  where
    skip-good : (r : XdrReader) → (skip_opaque_auth r).bad ≡ false → r.bad ≡ false
    skip-good r h = ground (arith, skip-bad r)
