-- ===== src/LogWriter.antt =====
-- The writers of usage logs of otari/src/gateway/services/log_writer.py. A row is a type of the
-- caller's, the table what has been committed; how a commit ends is an argument of each write.
pub mod Loops
pub mod Delivery
pub mod Conservation
mod Tests
use mozilla_ai.Common.{
  ℕ, zero, suc, String, Bool, true, false, List, [], ◌∷◌, ◌++◌, if◌then◌else◌, str_eq, ◌-◌,
}

-- how a flush ends: written; an SQLAlchemyError, which is logged; another exception, which the loop
-- logs; or a cancellation, which ends the loop
pub data Commit : Type 0 where
  commits : Commit
  database_error : Commit
  other_error : Commit
  cancelled : Commit

pub data Strategy : Type 0 where
  single : Strategy
  batch : Strategy
  noop : Strategy

unfoldable pub create_log_writer : String → Strategy
create_log_writer strategy = if str_eq strategy "batch" then batch else single

-- the table, with the rows that were taken and not written beside it
pub record Store (L : Type 0) : Type 0 where
  pub rows : List L
  pub lost : List L

-- a task of `_run`: it waits for a row, commits a batch, or has ended
pub data Loop (L : Type 0) : Type 0 where
  waiting : Loop L
  flushing : List L → Loop L
  ended : Loop L

-- `loops` are the tasks that `start` has created, the last one first, which is the one that `_task`
-- holds
pub record BatchLogWriter (L : Type 0) : Type 0 where
  pub queue : List L
  pub loops : List (Loop L)
  pub store : Store L

abbrev pub write : {L : Type 0} → List L → Commit → Store L → Store L
write taken commits s = record s { rows = s.rows ++ taken }
write taken database_error s = record s { lost = s.lost ++ taken }
write taken other_error s = record s { lost = s.lost ++ taken }
write taken cancelled s = record s { lost = s.lost ++ taken }

-- `SingleLogWriter.put`
unfoldable pub put_single : {L : Type 0} → L → Commit → Store L → Store L
put_single log c s = write (log ∷ []) c s

-- `NoopLogWriter.put`
abbrev pub put_noop : {L : Type 0} → L → Store L → Store L
put_noop log s = s

abbrev pub no_rows : {L : Type 0} → Store L
no_rows = record { rows = []; lost = [] }

-- `BatchLogWriter.__init__`
abbrev pub new_batch_writer : {L : Type 0} → BatchLogWriter L
new_batch_writer = record { queue = []; loops = []; store = no_rows }

-- `_flush`
unfoldable pub flush : {L : Type 0} → List L → Commit → Store L → Store L
flush taken c s = write taken c s

-- up to `n` items without a wait, and what is left
abbrev pub get_nowait : {L : Type 0} → ℕ → List L → List L × List L
get_nowait zero queue = ([], queue)
get_nowait (suc n) [] = ([], [])
get_nowait (suc n) (x ∷ queue) = let (taken, left) = get_nowait n queue in (x ∷ taken, left)

-- `_collect_batch`: nothing where the wait for an item times out, else that item and those that
-- are there, up to `max_batch`
unfoldable pub collect_batch : {L : Type 0} → ℕ → List L → List L × List L
collect_batch max_batch [] = ([], [])
collect_batch max_batch (x ∷ queue) =
    let (taken, left) = get_nowait (max_batch - 1) queue in (x ∷ taken, left)

-- `put`
unfoldable pub put : {L : Type 0} → L → BatchLogWriter L → BatchLogWriter L
put log w = record w { queue = w.queue ++ log ∷ [] }

-- `start`: another task, beside those that are there
unfoldable pub start : {L : Type 0} → BatchLogWriter L → BatchLogWriter L
start w = record w { loops = waiting ∷ w.loops }

-- `if batch: await self._flush(batch)` of `_run`
abbrev pub begin_flush : {L : Type 0} → List L → Loop L
begin_flush [] = waiting
begin_flush (x ∷ taken) = flushing (x ∷ taken)

-- a loop that waits takes a batch, in one step
abbrev pub collect_in : {L : Type 0} → ℕ → Loop L → List L → Loop L × List L
collect_in max_batch waiting queue =
    let (taken, left) = collect_batch max_batch queue in (begin_flush taken, left)
collect_in max_batch (flushing taken) queue = (flushing taken, queue)
collect_in max_batch ended queue = (ended, queue)

-- a cancellation breaks the loop, and nothing else does
abbrev pub after_flush : {L : Type 0} → Commit → Loop L
after_flush commits = waiting
after_flush database_error = waiting
after_flush other_error = waiting
after_flush cancelled = ended

-- the commit of a batch ends
abbrev pub flush_in : {L : Type 0} → Commit → Loop L → Store L → Loop L × Store L
flush_in c waiting s = (waiting, s)
flush_in c (flushing taken) s = (after_flush c, flush taken c s)
flush_in c ended s = (ended, s)

-- a step of the loop of the number `i`
unfoldable pub update_at : {A B : Type 0} → (A → B → A × B) → ℕ → List A → B → List A × B
update_at f i [] b = ([], b)
update_at f zero (x ∷ xs) b = let (x', b') = f x b in (x' ∷ xs, b')
update_at f (suc i) (x ∷ xs) b = let (xs', b') = update_at f i xs b in (x ∷ xs', b')

unfoldable pub collect : {L : Type 0} → ℕ → ℕ → BatchLogWriter L → BatchLogWriter L
collect max_batch i w =
    let (loops, queue) = update_at (collect_in max_batch) i w.loops w.queue in
    record w { loops = loops; queue = queue }

unfoldable pub end_flush : {L : Type 0} → ℕ → Commit → BatchLogWriter L → BatchLogWriter L
end_flush i c w =
    let (loops, store) = update_at (flush_in c) i w.loops w.store in
    record w { loops = loops; store = store }

-- `self._task.cancel()` and the wait for its end
abbrev pub cancel : {L : Type 0} → Loop L → Store L → Loop L × Store L
cancel waiting s = (ended, s)
cancel (flushing taken) s = flush_in cancelled (flushing taken) s
cancel ended s = (ended, s)

-- only the task that `_task` holds
abbrev pub cancel_task : {L : Type 0} → List (Loop L) → Store L → List (Loop L) × Store L
cancel_task [] s = ([], s)
cancel_task (loop ∷ loops) s = let (loop', s') = cancel loop s in (loop' ∷ loops, s')

abbrev pub flush_some : {L : Type 0} → List L → Commit → Store L → Store L
flush_some [] c s = s
flush_some (x ∷ taken) c s = flush (x ∷ taken) c s

-- `stop`, in one step; `_flush_all` takes the whole queue
unfoldable pub stop : {L : Type 0} → Commit → BatchLogWriter L → BatchLogWriter L
stop c w =
    let (loops, store) = cancel_task w.loops w.store in
    record { queue = []; loops = loops; store = flush_some w.queue c store }

pub data Event (L : Type 0) : Type 0 where
  puts : L → Event L
  starts : Event L
  collects : ℕ → Event L
  flushes : ℕ → Commit → Event L

unfoldable pub run : {L : Type 0} → ℕ → List (Event L) → BatchLogWriter L → BatchLogWriter L
run max_batch [] w = w
run max_batch (puts log ∷ es) w = run max_batch es (put log w)
run max_batch (starts ∷ es) w = run max_batch es (start w)
run max_batch (collects i ∷ es) w = run max_batch es (collect max_batch i w)
run max_batch (flushes i c ∷ es) w = run max_batch es (end_flush i c w)
