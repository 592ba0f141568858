-- ===== src/LogWriter/Delivery.antt =====
-- What becomes of the rows that are put in a batch writer with one loop.
use mozilla_ai.Common.{
  ℕ, zero, suc, ◌+◌, ◌≡◌, ◌≤◌, refl, sym, ap, ◌∙◌, List, [], ◌∷◌, ◌++◌, length, arith,
}
use mozilla_ai.LogWriter.{
  Loop, waiting, flushing, ended, BatchLogWriter, Store, Event, puts, starts, collects, flushes,
  commits, run, put, start, collect, end_flush, stop, collect_batch, flush, flush_some, collect_in,
  flush_in, update_at, cancel_task, new_batch_writer, put_single, no_rows,
}
use mozilla_ai.LogWriter.Loops.{
  collect_batch-split, logs_put, starts_of, batch_of, batch_of-begin_flush, length-update_at,
}
use mathlib.Core.List.{append_assoc, append-nil}

module _ {L : Type 0} where
  -- the batch that the only loop commits
  abbrev task_batch : List (Loop L) → List L
  task_batch [] = []
  task_batch (l ∷ loops) = batch_of l

  -- every row of the writer, in order: those written, those of the loop, and those that wait
  abbrev in_order : BatchLogWriter L → List L
  in_order w = w.store.rows ++ (task_batch w.loops ++ w.queue)

  abbrev pub AllCommit : List (Event L) → Type 0
  AllCommit [] = Unit
  AllCommit (puts log ∷ es) = AllCommit es
  AllCommit (starts ∷ es) = AllCommit es
  AllCommit (collects i ∷ es) = AllCommit es
  AllCommit (flushes i c ∷ es) = (c ≡ commits) × AllCommit es

  -- no loop commits a batch
  abbrev pub IsIdle : List (Loop L) → Type 0
  IsIdle [] = Unit
  IsIdle (waiting ∷ loops) = IsIdle loops
  IsIdle (flushing taken ∷ loops) = ⊥
  IsIdle (ended ∷ loops) = IsIdle loops

  collect_in-order :
      (n : ℕ) (l : Loop L) (queue : List L)
      → batch_of (collect_in n l queue).0 ++ (collect_in n l queue).1 ≡ batch_of l ++ queue
  collect_in-order n waiting queue =
      ap (λ taken. taken ++ (collect_batch n queue).1)
        (batch_of-begin_flush (collect_batch n queue).0)
      ∙ collect_batch-split n queue
  collect_in-order n (flushing taken) queue = refl
  collect_in-order n ended queue = refl

  collect-order :
      (n i : ℕ) (loops : List (Loop L)) (queue : List L)
      → length loops ≤ 1
      → let (loops', queue') = update_at (collect_in n) i loops queue in
        task_batch loops' ++ queue' ≡ task_batch loops ++ queue
  unfolding update_at
  collect-order n i [] queue one = refl
  collect-order n zero (l ∷ loops) queue one = collect_in-order n l queue
  collect-order n (suc i) (l ∷ []) queue one = refl
  collect-order n (suc i) (l ∷ l' ∷ loops) queue one = absurd (omega (arith, one))

  flush_in-order :
      (l : Loop L) (s : Store L)
      → ((flush_in commits l s).1.rows ++ batch_of (flush_in commits l s).0 ≡ s.rows ++ batch_of l)
        × ((flush_in commits l s).1.lost ≡ s.lost)
  unfolding flush
  flush_in-order waiting s = (refl, refl)
  flush_in-order (flushing taken) s = (append-nil (s.rows ++ taken), refl)
  flush_in-order ended s = (refl, refl)

  flush-order :
      (i : ℕ) (loops : List (Loop L)) (s : Store L)
      → length loops ≤ 1
      → let (loops', s') = update_at (flush_in commits) i loops s in
        (s'.rows ++ task_batch loops' ≡ s.rows ++ task_batch loops) × (s'.lost ≡ s.lost)
  unfolding update_at
  flush-order i [] s one = (refl, refl)
  flush-order zero (l ∷ loops) s one = flush_in-order l s
  flush-order (suc i) (l ∷ []) s one = (refl, refl)
  flush-order (suc i) (l ∷ l' ∷ loops) s one = absurd (omega (arith, one))

  in_order-end_flush :
      (i : ℕ) (w : BatchLogWriter L)
      → length w.loops ≤ 1
      → (in_order (end_flush i commits w) ≡ in_order w)
        × ((end_flush i commits w).store.lost ≡ w.store.lost)
  unfolding end_flush
  in_order-end_flush i w one =
      let (loops, s) = update_at (flush_in commits) i w.loops w.store in
      let kept = flush-order i w.loops w.store one in
      (
        sym (append_assoc s.rows (task_batch loops) w.queue)
            ∙ (ap (λ xs. xs ++ w.queue) kept.0
                ∙ append_assoc w.store.rows (task_batch w.loops) w.queue),
        kept.1,
      )

  in_order-put : (log : L) (w : BatchLogWriter L) → in_order (put log w) ≡ in_order w ++ log ∷ []
  unfolding put
  in_order-put log w =
      let tail = task_batch w.loops in
      ap (λ xs. w.store.rows ++ xs) (sym (append_assoc tail w.queue (log ∷ [])))
      ∙ sym (append_assoc w.store.rows (tail ++ w.queue) (log ∷ []))

  in_order-start : (w : BatchLogWriter L) → length w.loops ≡ 0 → in_order (start w) ≡ in_order w
  unfolding start
  in_order-start w none = ap (λ xs. w.store.rows ++ (xs ++ w.queue)) (sym (no_loops w.loops none))
    where
      no_loops : (loops : List (Loop L)) → length loops ≡ 0 → task_batch loops ≡ []
      no_loops [] e = refl
      no_loops (l ∷ loops) e = absurd (omega (arith, e))

  in_order-run :
      (n : ℕ) (es : List (Event L)) (w : BatchLogWriter L)
      → AllCommit es
      → length w.loops + starts_of es ≤ 1
      → (in_order (run n es w) ≡ in_order w ++ logs_put es)
        × ((run n es w).store.lost ≡ w.store.lost)
  unfolding run put start collect end_flush
  in_order-run n [] w a one = (sym (append-nil (in_order w)), refl)
  in_order-run n (puts log ∷ es) w a one =
      let rest = in_order-run n es (put log w) a one in
      (
        rest.0
            ∙ (ap (λ xs. xs ++ logs_put es) (in_order-put log w)
                ∙ append_assoc (in_order w) (log ∷ []) (logs_put es)),
        rest.1,
      )
  in_order-run n (starts ∷ es) w a one =
      let rest = in_order-run n es (start w) a (omega (arith, one)) in
      (rest.0 ∙ ap (λ xs. xs ++ logs_put es) (in_order-start w (omega (arith, one))), rest.1)
  in_order-run n (collects i ∷ es) w a one =
      let few = length-update_at (collect_in n) i w.loops w.queue in
      let rest = in_order-run n es (collect n i w) a (omega (arith, one, few)) in
      (
        rest.0
            ∙ ap (λ xs. (w.store.rows ++ xs) ++ logs_put es)
                (collect-order n i w.loops w.queue (omega (arith, one))),
        rest.1,
      )
  in_order-run n (flushes i c ∷ es) w a one =
      let few = length-update_at (flush_in commits) i w.loops w.store in
      let rest = in_order-run n es (end_flush i commits w) a.1 (omega (arith, one, few)) in
      let kept = in_order-end_flush i w (omega (arith, one)) in
      rw a.0 (rest.0 ∙ ap (λ xs. xs ++ logs_put es) kept.0, rest.1 ∙ kept.1)

  abbrev pub write_all : List L → Store L → Store L
  write_all [] s = s
  write_all (log ∷ logs) s = write_all logs (put_single log commits s)

  abbrev store_of : List L → List L → Store L
  store_of rows lost = record { rows = rows; lost = lost }

  write_all-store_of :
      (logs : List L) (s : Store L) → write_all logs s ≡ store_of (s.rows ++ logs) s.lost
  unfolding put_single
  write_all-store_of [] s = ap (λ r. store_of r s.lost) (sym (append-nil s.rows))
  write_all-store_of (log ∷ logs) s =
      write_all-store_of logs (put_single log commits s)
      ∙ ap (λ r. store_of r s.lost) (append_assoc s.rows (log ∷ []) logs)

  flush_some-store_of :
      (taken : List L) (s : Store L)
      → flush_some taken commits s ≡ store_of (s.rows ++ taken) s.lost
  unfolding flush
  flush_some-store_of [] s = ap (λ r. store_of r s.lost) (sym (append-nil s.rows))
  flush_some-store_of (x ∷ taken) s = refl

  idle-cancel :
      (loops : List (Loop L)) (s : Store L)
      → IsIdle loops
      → ((cancel_task loops s).1 ≡ s) × (task_batch loops ≡ [])
  idle-cancel [] s idle = (refl, refl)
  idle-cancel (waiting ∷ loops) s idle = (refl, refl)
  idle-cancel (flushing taken ∷ loops) s idle = elim idle [ ]
  idle-cancel (ended ∷ loops) s idle = (refl, refl)

  -- Where a batch writer is started at most once, every commit goes through, and it is stopped while
  -- no batch is being committed, it has written the rows that were put, each once and in their order,
  -- as the single writer does, whatever the size of a batch and the steps of its loop; and nothing
  -- waits.
  pub batch_equals_single :
      (max_batch : ℕ) (es : List (Event L))
      → starts_of es ≤ 1
      → AllCommit es
      → IsIdle (run max_batch es new_batch_writer).loops
      → ((stop commits (run max_batch es new_batch_writer)).store ≡ write_all (logs_put es) no_rows)
        × ((stop commits (run max_batch es new_batch_writer)).queue ≡ [])
  unfolding stop
  batch_equals_single n es once a idle =
      let w = run n es new_batch_writer in
      let kept = in_order-run n es new_batch_writer a (omega (arith, once)) in
      let quiet = idle-cancel w.loops w.store idle in
      let ordered = ap (λ xs. w.store.rows ++ (xs ++ w.queue)) (sym quiet.1) ∙ kept.0 in
      (
        ap (λ s. flush_some w.queue commits s) quiet.0
            ∙ (flush_some-store_of w.queue w.store
                ∙ (ap (λ r. store_of r w.store.lost) ordered
                    ∙ (ap (λ l. store_of (logs_put es) l) kept.1
                        ∙ sym (write_all-store_of (logs_put es) no_rows)))),
        refl,
      )
