-- ===== src/Base/Errors.antt =====
-- Go's `error` results. `fmt.Errorf("… %w", err)` keeps what `errors.Is` finds, and is `wrap`.
use mathlib.Core.Bool.{Bool, true, false, ◌||◌}
use mathlib.Core.List.{List, [], ◌∷◌}
use mathlib.Core.Logic.{◌⊎◌, inl, inr}
use mathlib.Core.Path.{◌≡◌, refl}
use mathlib.Core.Option.{Option, none, some}

pub data Error : Type 0 where
  -- `store.ErrCacheMiss`, `store.ErrIsDir`, `os.ErrNotExist`, `syscall.EIO`
  cache_miss is_dir not_exist eio : Error
  -- `os.ErrPermission` and the `errReadOnly` values of the read-only parts
  permission read_only : Error
  -- `gitstore.errMissing`
  missing : Error
  -- `context.Canceled` and `context.DeadlineExceeded`
  canceled deadline_exceeded : Error
  -- `nfs.NFSStatusError` with the statuses Stale and NoEnt
  stale no_ent : Error → Error
  -- any other error
  other : Error
  -- a loop of the model ran out of fuel; the program has no such error
  out_of_fuel : Error
  -- a panic, which no caller gets as an error
  panicked : Error
  wrap : Error → Error
  join : Error → Error → Error

-- `errors.Is(err, store.ErrCacheMiss)`
unfoldable pub is_cache_miss : Error → Bool
is_cache_miss cache_miss = true
is_cache_miss (wrap e) = is_cache_miss e
is_cache_miss (stale e) = is_cache_miss e
is_cache_miss (no_ent e) = is_cache_miss e
is_cache_miss (join d e) = is_cache_miss d || is_cache_miss e
is_cache_miss e = false

-- `errors.Is(err, os.ErrNotExist)`
unfoldable pub is_not_exist : Error → Bool
is_not_exist not_exist = true
is_not_exist (wrap e) = is_not_exist e
is_not_exist (stale e) = is_not_exist e
is_not_exist (no_ent e) = is_not_exist e
is_not_exist (join d e) = is_not_exist d || is_not_exist e
is_not_exist e = false

-- `errors.Is(err, errMissing)`
unfoldable pub is_missing : Error → Bool
is_missing missing = true
is_missing (wrap e) = is_missing e
is_missing (stale e) = is_missing e
is_missing (no_ent e) = is_missing e
is_missing (join d e) = is_missing d || is_missing e
is_missing e = false

-- `errors.Is(err, context.Canceled) || errors.Is(err, context.DeadlineExceeded)`
unfoldable pub is_context_done : Error → Bool
is_context_done canceled = true
is_context_done deadline_exceeded = true
is_context_done (wrap e) = is_context_done e
is_context_done (stale e) = is_context_done e
is_context_done (no_ent e) = is_context_done e
is_context_done (join d e) = is_context_done d || is_context_done e
is_context_done e = false

pub data Result {ℓ} (A : Type ℓ) : Type ℓ where
  ok : A → Result A
  err : Error → Result A

pub Result-cases {ℓ} :
    {A : Type ℓ} (r : Result A) → ((e : Error) × (r ≡ err e)) ⊎ ((a : A) × (r ≡ ok a))
Result-cases (err e) = inl (e, refl)
Result-cases (ok a) = inr (a, refl)

-- A command reads and changes a state of type `S`, and returns a value or an error; the state
-- after an error is kept.
abbrev pub Cmd : Type 0 → Type 0 → Type 0
Cmd S A = S → Result A × S

module _ {S : Type 0} where
  abbrev pub pure : {A : Type 0} → A → Cmd S A
  pure a s = (ok a, s)

  abbrev pub fail : {A : Type 0} → Error → Cmd S A
  fail e s = (err e, s)

  abbrev pub and_then : {A B : Type 0} → Result A × S → (A → Cmd S B) → Result B × S
  and_then (ok a, s) k = k a s
  and_then (err e, s) k = (err e, s)

  infixl 5 ◌>>=◌ ◌>>◌
  abbrev pub ◌>>=◌ : {A B : Type 0} → Cmd S A → (A → Cmd S B) → Cmd S B
  ◌>>=◌ m k s = and_then (m s) k

  abbrev pub ◌>>◌ : {B : Type 0} → Cmd S (Unit {0}) → Cmd S B → Cmd S B
  m >> k = m >>= λ _. k

  abbrev pub caught : {A : Type 0} → Result A × S → Result (Result A) × S
  caught (r, s) = (ok r, s)

  -- `v, err := f()`, with the error as a value
  abbrev pub attempt : {A : Type 0} → Cmd S A → Cmd S (Result A)
  attempt m s = caught (m s)

-- `errors.Join(errs...)`, which is nil for no errors
unfoldable pub join_errors : List Error → Option Error
join_errors [] = none
join_errors (e ∷ es) = elim (join_errors es) [ none ↦ some e | some d ↦ some (join e d) ]
