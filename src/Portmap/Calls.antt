-- ===== src/Portmap/Calls.antt =====
-- The loop over a connection of portmap/portmap.go: `serveConn`.
use gomodfs.Base.{ℕ, ◌≤◌, Bytes, List, [], ◌∷◌, ◌++◌, none, some, ◌≡◌, refl, length}
use gomodfs.Portmap.{ReadError, max_record, reply, frame, read_record, failed, eof}
use gomodfs.Portmap.Records.{fragments, payload}

read_closed : read_record [] ≡ failed eof
unfolding read_record
read_closed = refl

-- a call as it is sent: the fragments of its record, and the reply that `reply` computes for it
pub record Exchange (port : ℕ) : Type 0 where
  pub first : Bytes
  pub more : List Bytes
  pub resp : Bytes
  pub fits : length (payload first more) ≤ max_record
  pub answered : reply port (payload first more) ≡ some resp

module _ (port : ℕ) where
  abbrev pub sent_calls : List (Exchange port) → Bytes
  sent_calls [] = []
  sent_calls (x ∷ xs) = fragments x.first x.more ++ sent_calls xs

  abbrev pub replies : List (Exchange port) → List Bytes
  replies [] = []
  replies (x ∷ xs) = frame x.resp ∷ replies xs

  -- what a connection ends with: nothing, a record that is cut off or too long, or a call that
  -- `reply` does not answer and anything behind it
  pub data Last : Bytes → Type 0 where
    unreadable : (input : Bytes) (e : ReadError) → read_record input ≡ failed e → Last input
    unanswered :
        (first : Bytes) (more : List Bytes) (behind : Bytes)
        → length (payload first more) ≤ max_record
        → reply port (payload first more) ≡ none
        → Last (fragments first more ++ behind)

  pub closed : Last []
  closed = unreadable [] eof read_closed
