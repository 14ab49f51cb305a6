-- ===== src/Stats.antt =====
-- stats/stats.go: counts of operations. Entries of the map are never removed, so the pointer that a
-- span keeps is the entry of its operation. Prometheus counters and the log are left out.
pub mod Counts
mod Tests
use gomodfs.Base.{
  ℕ, zero, suc, ◌+◌, ◌-◌, Bytes, List, [], ◌∷◌, Option, none, some, Bool, true, false, beq,
  if◌then◌else◌, Error, is_context_done, is_some,
}

-- `OpStat`
pub record OpStat : Type 0 where
  pub started : ℕ
  pub ended : ℕ
  pub errs : ℕ
  pub ctx_errs : ℕ
  pub total_dur : ℕ

abbrev pub no_ops : OpStat
no_ops = record { started = 0; ended = 0; errs = 0; ctx_errs = 0; total_dur = 0 }

-- `(*OpStat).NumSuccess`
abbrev pub num_success : OpStat → ℕ
num_success os = os.ended - os.errs

-- `Stats.ops`, and the clock
pub record Stats : Type 0 where
  pub ops : List (Bytes × OpStat)
  pub now : ℕ

-- `ActiveSpan`, whose `st` is not nil; a span of a nil Stats counts nothing
pub record ActiveSpan : Type 0 where
  pub op : Bytes
  pub start : ℕ
  pub done : Bool

unfoldable pub stat_of : Bytes → List (Bytes × OpStat) → Option OpStat
stat_of op [] = none
stat_of op ((k, os) ∷ m) = if beq k op then some os else stat_of op m

unfoldable pub put_stat : Bytes → OpStat → List (Bytes × OpStat) → List (Bytes × OpStat)
put_stat op os [] = (op, os) ∷ []
put_stat op os ((k, os') ∷ m) = if beq k op then (k, os) ∷ m else (k, os') ∷ put_stat op os m

abbrev pub or_new : Option OpStat → OpStat
or_new none = no_ops
or_new (some os) = os

-- `StartSpan`
unfoldable pub start_span : Bytes → Stats → ActiveSpan × Stats
start_span op st =
    let os = or_new (stat_of op st.ops) in
    (
      record { op = op; start = st.now; done = false },
      record st { ops = put_stat op (record os { started = os.started + 1 }) st.ops },
    )

-- `End` of one entry: `e` is the error, if any
unfoldable pub end_op : Option Error → ℕ → OpStat → OpStat
unfolding is_context_done
end_op none duration os = record os { ended = os.ended + 1; total_dur = os.total_dur + duration }
end_op (some e) duration os = record os {
  ended = os.ended + 1;
  errs = os.errs + 1;
  ctx_errs = if is_context_done e then os.ctx_errs + 1 else os.ctx_errs;
  total_dur = os.total_dur + duration;
}

-- `End`; `none` is its panic on a span that has ended
unfoldable pub end_span : Option Error → ActiveSpan → Stats → Option (ActiveSpan × Stats)
end_span e sp st = elim sp.done [
  | true ↦ none
  | false ↦ some (
    record sp { done = true },
    record st {
      ops = put_stat sp.op (end_op e (st.now - sp.start) (or_new (stat_of sp.op st.ops))) st.ops;
    },
  )
]
