-- ===== src/LogWriter/Conservation.antt =====
-- What becomes of the rows where commits may fail and flushes may be cancelled, also of those that a
-- loop commits when the writer is stopped.
use mozilla_ai.Common.{
  ℕ, ◌+◌, ◌≡◌, ◌≤◌, ◌⊎◌, refl, sym, ap, ◌∙◌, List, [], ◌∷◌, arith, length, length-append, inl, inr,
}
use mozilla_ai.LogWriter.{
  Loop, waiting, flushing, ended, BatchLogWriter, Store, Event, puts, starts, collects, flushes,
  Commit, commits, database_error, other_error, cancelled, run, put, start, collect, end_flush,
  stop, collect_batch, flush, flush_some, write, collect_in, flush_in, cancel_task,
  new_batch_writer,
}
use mozilla_ai.LogWriter.Loops.{
  collect_batch-split, logs_put, starts_of, batch_of, batch_of-begin_flush, batch_of-after_flush,
  total, total-update_at, length-loops,
}

module _ {L : Type 0} where
  -- the rows that are in the table, or lost
  abbrev settled : Store L → ℕ
  settled s = length s.rows + length s.lost

  abbrev load : Loop L → ℕ
  load l = length (batch_of l)

  -- the rows that the loops are committing
  abbrev pub in_flight : List (Loop L) → ℕ
  in_flight loops = total load loops

  abbrev accounted : BatchLogWriter L → ℕ
  accounted w = settled w.store + (in_flight w.loops + length w.queue)

  settled-write :
      (taken : List L) (c : Commit) (s : Store L)
      → settled (write taken c s) ≡ settled s + length taken
  settled-write taken commits s = omega (arith, length-append s.rows taken)
  settled-write taken database_error s = omega (arith, length-append s.lost taken)
  settled-write taken other_error s = omega (arith, length-append s.lost taken)
  settled-write taken cancelled s = omega (arith, length-append s.lost taken)

  settled-flush_some :
      (taken : List L) (c : Commit) (s : Store L)
      → settled (flush_some taken c s) ≡ settled s + length taken
  unfolding flush
  settled-flush_some [] c s = omega arith
  settled-flush_some (x ∷ taken) c s = settled-write (x ∷ taken) c s

  collect_in-keeps :
      (n : ℕ) (l : Loop L) (queue : List L)
      → load (collect_in n l queue).0 + length (collect_in n l queue).1 ≡ load l + length queue
  collect_in-keeps n waiting queue =
      let taken = (collect_batch n queue).0 in
      omega (
        arith,
        ap length (batch_of-begin_flush taken),
        sym (length-append taken (collect_batch n queue).1)
            ∙ ap length (collect_batch-split n queue),
      )
  collect_in-keeps n (flushing taken) queue = refl
  collect_in-keeps n ended queue = refl

  flush_in-keeps :
      (c : Commit) (l : Loop L) (s : Store L)
      → load (flush_in c l s).0 + settled (flush_in c l s).1 ≡ load l + settled s
  unfolding flush
  flush_in-keeps c waiting s = refl
  flush_in-keeps c (flushing taken) s =
      omega (arith, settled-write taken c s, ap length (batch_of-after_flush {L = L} c))
  flush_in-keeps c ended s = refl

  cancel_task-keeps :
      (loops : List (Loop L)) (s : Store L)
      → in_flight (cancel_task loops s).0 + settled (cancel_task loops s).1
        ≡ in_flight loops + settled s
  cancel_task-keeps [] s = refl
  cancel_task-keeps (waiting ∷ loops) s = refl
  cancel_task-keeps (flushing taken ∷ loops) s =
      omega (arith, flush_in-keeps cancelled (flushing taken) s)
  cancel_task-keeps (ended ∷ loops) s = refl

  accounted-collect : (n i : ℕ) (w : BatchLogWriter L) → accounted (collect n i w) ≡ accounted w
  unfolding collect
  accounted-collect n i w =
      ap (λ k. settled w.store + k)
        (total-update_at load length (collect_in n) (collect_in-keeps n) i w.loops w.queue)

  accounted-end_flush :
      (i : ℕ) (c : Commit) (w : BatchLogWriter L) → accounted (end_flush i c w) ≡ accounted w
  unfolding end_flush
  accounted-end_flush i c w =
      omega (arith, total-update_at load settled (flush_in c) (flush_in-keeps c) i w.loops w.store)

  accounted-run :
      (n : ℕ) (es : List (Event L)) (w : BatchLogWriter L)
      → accounted (run n es w) ≡ accounted w + length (logs_put es)
  unfolding run put start
  accounted-run n [] w = omega arith
  accounted-run n (puts log ∷ es) w =
      omega (arith, accounted-run n es (put log w), length-append w.queue (log ∷ []))
  accounted-run n (starts ∷ es) w = omega (arith, accounted-run n es (start w))
  accounted-run n (collects i ∷ es) w =
      accounted-run n es (collect n i w)
      ∙ ap (λ k. k + length (logs_put es)) (accounted-collect n i w)
  accounted-run n (flushes i c ∷ es) w =
      accounted-run n es (end_flush i c w)
      ∙ ap (λ k. k + length (logs_put es)) (accounted-end_flush i c w)

  -- after a stop only the loops that `_task` has lost sight of commit
  stopped-in_flight :
      (loops : List (Loop L)) (s : Store L)
      → (in_flight (cancel_task loops s).0 ≡ 0) ⊎ (2 ≤ length loops)
  stopped-in_flight [] s = inl refl
  stopped-in_flight (waiting ∷ []) s = inl refl
  stopped-in_flight (flushing taken ∷ []) s = inl refl
  stopped-in_flight (ended ∷ []) s = inl refl
  stopped-in_flight (l ∷ l' ∷ loops) s = inr (omega arith)

  -- Whatever the commits do, also that of the stop, a batch writer that is stopped has as many rows
  -- in the table, lost and still being committed by a loop that was not cancelled, taken together, as
  -- were put; and rows are still being committed only where the writer was started more than once.
  pub stop-accounts :
      (max_batch : ℕ) (es : List (Event L)) (last : Commit)
      → let w = stop last (run max_batch es new_batch_writer) in
        (length w.store.rows + length w.store.lost + in_flight w.loops ≡ length (logs_put es))
        × ((in_flight w.loops ≡ 0) ⊎ (2 ≤ starts_of es))
  unfolding stop
  stop-accounts n es last =
      let w = run n es new_batch_writer in
      let store = (cancel_task w.loops w.store).1 in
      let started = length-loops n es new_batch_writer in
      (
        omega (
          arith,
          accounted-run n es new_batch_writer,
          settled-flush_some w.queue last store,
          cancel_task-keeps w.loops w.store,
        ),
        elim (stopped-in_flight w.loops w.store) [
          | inl e ↦ inl e
          | inr e ↦ inr (omega (arith, e, started))
        ],
      )
