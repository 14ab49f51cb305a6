-- ===== src/Portmap/Records.antt =====
-- Record marking in portmap/portmap.go: `readRecord`.
use gomodfs.Base.{
  ℕ, zero, suc, ◌+◌, ◌^◌, ◌<◌, ◌≤◌, Bytes, List, [], ◌∷◌, ◌++◌, append_assoc, ◌≡◌, ◌≢◌, ◌⊎◌, inl,
  inr, Option-cases, refl, arith, length, length-append, take-append_length, drop-append_length,
  length-drop, length-take, Bool, true, false, if◌then◌else◌,
}
use gomodfs.Portmap.{
  be32, word, max_record, Read, ReadError, got, failed, out_of_fuel, read_full, fragment_header,
  read_fragments, read_record,
}
use gomodfs.Portmap.Words.{word-be32, length-be32, length-word}

-- one fragment on the wire
abbrev pub fragment : Bool → Bytes → Bytes
fragment last body = be32 (length body + (if last then 2 ^ 31 else 0)) ++ body

-- a record sent as the fragments `first`, …, the last one marked
abbrev pub fragments : Bytes → List Bytes → Bytes
fragments body [] = fragment true body
fragments body (next ∷ more) = fragment false body ++ fragments next more

abbrev pub payload : Bytes → List Bytes → Bytes
payload body [] = body
payload body (next ∷ more) = body ++ payload next more

read_full-append : (s rest : Bytes) → read_full (length s) (s ++ rest) ≡ got (s, rest)
unfolding read_full
read_full-append s rest =
    ground (arith, length-append s rest, take-append_length s rest, drop-append_length s rest)

header-fragment :
    (last : Bool) (n : ℕ) (rest : Bytes)
    → n < 2 ^ 31
    → fragment_header (be32 (n + (if last then 2 ^ 31 else 0)) ++ rest) ≡ got (n, last, rest)
unfolding fragment_header
header-fragment true n rest h =
    rw (word-be32 (n + 2 ^ 31) rest (omega arith), fragment_header) (ground arith)
header-fragment false n rest h =
    rw (word-be32 (n + 0) rest (omega arith), fragment_header) (ground arith)

read_fragments-last :
    (fuel : ℕ) (rec body rest : Bytes)
    → length rec + length body ≤ max_record
    → read_fragments (suc fuel) rec (fragment true body ++ rest) ≡ got (rec ++ body, rest)
unfolding read_fragments
read_fragments-last fuel rec body rest h = ground (
  arith,
  append_assoc (be32 (length body + 2 ^ 31)) body rest,
  header-fragment true (length body) (body ++ rest),
  read_full-append body rest,
)

read_fragments-next :
    (fuel : ℕ) (rec body rest : Bytes)
    → length rec + length body ≤ max_record
    → read_fragments (suc fuel) rec (fragment false body ++ rest)
      ≡ read_fragments fuel (rec ++ body) rest
unfolding read_fragments
read_fragments-next fuel rec body rest h = ground (
  arith,
  append_assoc (be32 (length body + 0)) body rest,
  header-fragment false (length body) (body ++ rest),
  read_full-append body rest,
)

read_fragments-fragments :
    (more : List Bytes) (fuel : ℕ) (rec body rest : Bytes)
    → length more ≤ fuel
    → length rec + length (payload body more) ≤ max_record
    → read_fragments (suc fuel) rec (fragments body more ++ rest)
      ≡ got (rec ++ payload body more, rest)
read_fragments-fragments [] fuel rec body rest hf h = read_fragments-last fuel rec body rest h
read_fragments-fragments (next ∷ more) zero rec body rest hf h = absurd (omega arith)
read_fragments-fragments (next ∷ more) (suc fuel) rec body rest hf h =
    let total : length (body ++ payload next more) ≡ length body + length (payload next more) =
      length-append body (payload next more) in
    let joined : length (rec ++ body) ≡ length rec + length body = length-append rec body in
    rw (
      append_assoc (fragment false body) (fragments next more) rest,
      read_fragments-next (suc fuel) rec body (fragments next more ++ rest) (omega arith),
      read_fragments-fragments more fuel (rec ++ body) next rest (omega arith) (omega arith),
      append_assoc rec body (payload next more),
    )

le-length-fragments :
    (more : List Bytes) (body : Bytes) → length more + 4 ≤ length (fragments body more)
le-length-fragments [] body =
    omega
      (arith, length-append (be32 (length body + 2 ^ 31)) body, length-be32 (length body + 2 ^ 31))
le-length-fragments (next ∷ more) body = omega (
  arith,
  length-append (fragment false body) (fragments next more),
  length-append (be32 (length body + 0)) body,
  length-be32 (length body + 0),
  le-length-fragments more next,
)

-- A record cut into any number of fragments is read back whole, if it fits the limit, and what
-- follows it is left on the connection.
pub read_record-fragments :
    (body : Bytes) (more : List Bytes) (rest : Bytes)
    → length (payload body more) ≤ max_record
    → read_record (fragments body more ++ rest) ≡ got (payload body more, rest)
unfolding read_record
read_record-fragments body more rest h =
    read_fragments-fragments more _ [] body rest
      (omega (arith, length-append (fragments body more) rest, le-length-fragments more body))
      (omega arith)

Read-cases :
    {A : Type 0} (r : Read A) → ((a : A) × (r ≡ got a)) ⊎ ((e : ReadError) × (r ≡ failed e))
Read-cases (got a) = inl (a, refl)
Read-cases (failed e) = inr (e, refl)

header-got :
    (input : Bytes) (n : ℕ) (last : Bool) (rest : Bytes)
    → fragment_header input ≡ got (n, last, rest)
    → length rest + 4 ≡ length input
unfolding fragment_header
header-got input n last rest e = elim (Option-cases (word input)) [
  | inl short ↦ ground arith
  | inr ((v, r), long) ↦ ground (arith, length-word input v r long)
]

read_full-got :
    (n : ℕ) (input body rest : Bytes)
    → read_full n input ≡ got (body, rest)
    → (length body ≡ n) × (length rest + n ≡ length input)
unfolding read_full
read_full-got n input body rest e = ground (arith, length-take n input, length-drop n input)

header-total : (input : Bytes) → fragment_header input ≢ failed out_of_fuel
unfolding fragment_header
header-total input = ground arith

read_full-total : (n : ℕ) (input : Bytes) → read_full n input ≢ failed out_of_fuel
unfolding read_full
read_full-total n input = ground arith

-- what is read stays within the limit, and each round uses up a header at least
read_fragments_sound :
    (fuel : ℕ) (rec input out rest : Bytes)
    → length rec ≤ max_record
    → read_fragments fuel rec input ≡ got (out, rest)
    → (length out ≤ max_record) × (length rest + 4 ≤ length input)
unfolding read_fragments
read_fragments_sound zero rec input out rest h e = cc
read_fragments_sound (suc fuel) rec input out rest h e = elim (Read-cases (fragment_header input)) [
  | inr (x, f) ↦ absurd (ground arith)
  | inl ((n, last, r), f) ↦ elim (Read-cases (read_full n r)) [
    | inr (x, g) ↦ absurd (ground arith)
    | inl ((body, r'), g) ↦ ground (
      arith,
      header-got input n last r f,
      read_full-got n r body r' g,
      length-append rec body,
      read_fragments_sound fuel (rec ++ body) r' out rest,
    )
  ]
]

read_fragments_total :
    (fuel : ℕ) (rec input : Bytes)
    → length input < fuel
    → read_fragments fuel rec input ≢ failed out_of_fuel
unfolding read_fragments
read_fragments_total zero rec input h = absurd (omega arith)
read_fragments_total (suc fuel) rec input h = elim (Read-cases (fragment_header input)) [
  | inr (x, f) ↦ ground (arith, header-total input)
  | inl ((n, last, r), f) ↦ elim (Read-cases (read_full n r)) [
    | inr (x, g) ↦ ground (arith, read_full-total n r)
    | inl ((body, r'), g) ↦ ground (
      arith,
      header-got input n last r f,
      read_full-got n r body r' g,
      read_fragments_total fuel (rec ++ body) r',
    )
  ]
]

-- `readRecord` always ends: its rounds never run out of fuel.
pub read_record_total : (input : Bytes) → read_record input ≢ failed out_of_fuel
unfolding read_record
read_record_total input = read_fragments_total (suc (length input)) [] input (omega arith)

-- A record that `readRecord` returns has at most 65536 bytes, and used up at least a header of the
-- connection.
pub read_record_bounded :
    (input out rest : Bytes)
    → read_record input ≡ got (out, rest)
    → (length out ≤ max_record) × (length rest + 4 ≤ length input)
unfolding read_record
read_record_bounded input out rest e =
    read_fragments_sound (suc (length input)) [] input out rest (omega arith) e
