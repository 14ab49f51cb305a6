-- ===== src/Stats/Counts.antt =====
-- The counts of every operation over any run of spans that start and end.
use gomodfs.Base.{
  ℕ, suc, ◌+◌, ◌-◌, ◌≤◌, ◌≡◌, Bytes, List, [], ◌∷◌, ◌++◌, Option, none, some, false, Bool-cases,
  inl, inr, beq, beq→eq, beq_refl, if◌then◌else◌, Error, refl, arith,
}
use gomodfs.Stats.{
  OpStat, Stats, ActiveSpan, stat_of, put_stat, or_new, start_span, end_op, end_span,
}

-- the counts of an operation; those of one that never started are 0
abbrev pub counts : Bytes → Stats → OpStat
counts op st = or_new (stat_of op st.ops)

-- how often an operation is among the running spans
abbrev pub times : Bytes → List Bytes → ℕ
times op [] = 0
times op (o ∷ os) = if beq o op then suc (times op os) else times op os

-- A run of the program: the statistics after it, and the operations of the spans that are open.
pub data Run : Stats → List Bytes → Type 0 where
  fresh : (n : ℕ) → Run (record { ops = []; now = n }) []
  ticked :
      {st : Stats} {running : List Bytes} (n : ℕ)
      → Run st running
      → Run (record st { now = n }) running
  started :
      {st : Stats} {running : List Bytes} (op : Bytes)
      → Run st running
      → Run (start_span op st).1 (op ∷ running)
  ended :
      {st st' : Stats} (before after : List Bytes) (e : Option Error) (sp sp' : ActiveSpan)
      → Run st (before ++ (sp.op ∷ after))
      → end_span e sp st ≡ some (sp', st')
      → Run st' (before ++ after)

stat_of-put_same :
    (op : Bytes) (os : OpStat) (m : List (Bytes × OpStat)) → stat_of op (put_stat op os m) ≡ some os
unfolding stat_of put_stat
stat_of-put_same op os [] = ground (arith, beq_refl op)
stat_of-put_same op os ((k, os') ∷ m) = ground (arith, stat_of-put_same op os m)

stat_of-put_other :
    (op op' : Bytes) (os : OpStat) (m : List (Bytes × OpStat))
    → beq op op' ≡ false
    → stat_of op' (put_stat op os m) ≡ stat_of op' m
unfolding stat_of put_stat
stat_of-put_other op op' os [] h = ground arith
stat_of-put_other op op' os ((k, os') ∷ m) h =
    ground (arith, stat_of-put_other op op' os m h, beq→eq k op)

times-append :
    (op : Bytes) (xs : List Bytes) (o : Bytes) (ys : List Bytes)
    → times op (xs ++ (o ∷ ys))
      ≡ (if beq o op then suc (times op (xs ++ ys)) else times op (xs ++ ys))
times-append op [] o ys = refl
times-append op (x ∷ xs) o ys = ground (arith, times-append op xs o ys)

abbrev Counted : OpStat → ℕ → Type 0
Counted os running =
    (os.ctx_errs ≤ os.errs) × (os.errs ≤ os.ended) × (os.started ≡ os.ended + running)

end_op-Counted :
    (e : Option Error) (d : ℕ) (os : OpStat) (n : ℕ)
    → Counted os (suc n)
    → Counted (end_op e d os) n
unfolding end_op
end_op-Counted none d os n h = (omega arith, omega arith, omega arith)
end_op-Counted (some e) d os n h = (ground arith, omega arith, omega arith)

put-Counted :
    (o op : Bytes) (os : OpStat) (m : List (Bytes × OpStat)) (n : ℕ)
    → (beq o op ≡ false → Counted (or_new (stat_of op m)) n)
    → (o ≡ op → Counted os n)
    → Counted (or_new (stat_of op (put_stat o os m))) n
put-Counted o op os m n other same = elim (Bool-cases (beq o op)) [
  | inl e ↦ rw (beq→eq o op e, stat_of-put_same op os m) (same (beq→eq o op e))
  | inr e ↦ rw (stat_of-put_other o op os m e) (other e)
]

end_span-ops :
    (e : Option Error) (sp sp' : ActiveSpan) (st st' : Stats)
    → end_span e sp st ≡ some (sp', st')
    → st'.ops ≡ put_stat sp.op (end_op e (st.now - sp.start) (or_new (stat_of sp.op st.ops))) st.ops
unfolding end_span
end_span-ops e sp sp' st st' h = elim (Bool-cases sp.done) [
  | inl d ↦ absurd (ground arith)
  | inr d ↦ ground arith
]

started-Counted :
    (o op : Bytes) (st : Stats) (running : List Bytes)
    → Counted (counts op st) (times op running)
    → Counted (counts op (start_span o st).1) (times op (o ∷ running))
unfolding start_span
started-Counted o op st running h =
    put-Counted o op (record (counts o st) { started = (counts o st).started + 1 }) st.ops
      (times op (o ∷ running)) (λ e. rw e h)
      (λ p. rw (p, beq_refl op) (h.0, h.1, omega (arith, h.2)))

ended-Counted :
    (op o : Bytes) (e : Option Error) (d : ℕ) (st : Stats) (before after : List Bytes)
    → Counted (counts op st) (times op (before ++ (o ∷ after)))
    → Counted
        (or_new (stat_of op (put_stat o (end_op e d (counts o st)) st.ops)))
        (times op (before ++ after))
ended-Counted op o e d st before after h =
    let h' = rw (times-append op before o after) at h in
    put-Counted o op (end_op e d (counts o st)) st.ops (times op (before ++ after))
      (λ b. rw b at h')
      (λ p. rw p (
        end_op-Counted e d (counts op st) (times op (before ++ after)) (rw (p, beq_refl op) at h')))

-- After any run, for every operation: the errors of a context that is done are among the errors,
-- the errors among the spans that ended, and the spans started are those that ended and those still
-- open.
pub counts-Run :
    (st : Stats) (running : List Bytes) (op : Bytes)
    → Run st running
    → ((counts op st).ctx_errs ≤ (counts op st).errs)
      × ((counts op st).errs ≤ (counts op st).ended)
      × ((counts op st).started ≡ (counts op st).ended + times op running)
unfolding stat_of
counts-Run _ _ op (fresh n) = (omega arith, omega arith, omega arith)
counts-Run _ _ op (ticked n r) = counts-Run _ _ op r
counts-Run _ _ op (started {st} {running} o r) =
    started-Counted o op st running (counts-Run _ _ op r)
counts-Run _ _ op (ended {st} {st'} before after e sp sp' r h) =
    rw (end_span-ops e sp sp' st st' h)
      (ended-Counted op sp.op e (st.now - sp.start) st before after (counts-Run _ _ op r))
