-- ===== src/Stats/Tests.antt =====
-- A span that starts and ends with an error of its context.
use gomodfs.Base.{
  ◌≤◌, ◌≡◌, ◌+◌, Bytes, codes, [], ◌∷◌, some, none, true, false, beq, refl, canceled,
  is_context_done,
}
use gomodfs.Stats.{Stats, ActiveSpan, stat_of, put_stat, start_span, end_op, end_span}
use gomodfs.Stats.Counts.{Run, started, ended, fresh, counts, times, counts-Run}

program : Unit {0}
unfolding stat_of put_stat start_span end_op end_span beq is_context_done
program = tt

abbrev get : Bytes
get = codes "get"

abbrev no_stats : Stats
no_stats = record { ops = []; now = 7 }

abbrev one_error : Stats
one_error = record {
  ops = (get, record { started = 1; ended = 1; errs = 1; ctx_errs = 1; total_dur = 0 }) ∷ [];
  now = 7;
}

abbrev span : ActiveSpan
span = record { op = get; start = 7; done = false }

one-Run : Run one_error []
unfolding program
one-Run =
    ended [] [] (some canceled) span (record span { done = true }) (started get (fresh 7)) refl

counts-Run_example :
    ((counts get one_error).ctx_errs ≤ (counts get one_error).errs)
    × ((counts get one_error).errs ≤ (counts get one_error).ended)
    × ((counts get one_error).started ≡ (counts get one_error).ended + times get [])
counts-Run_example = counts-Run one_error [] get one-Run

-- a span ends once
end_twice : end_span none (record span { done = true }) one_error ≡ none
unfolding program
end_twice = refl
