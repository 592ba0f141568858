-- ===== src/LogWriter/Tests.antt =====
-- Runs of the batch writer on numbered rows.
use mozilla_ai.Common.{ℕ, ◌≡◌, ◌≤◌, ◌⊎◌, refl, List, [], ◌∷◌, length, ◌+◌, arith, ◌++◌}
use mozilla_ai.LogWriter.{
  Event, puts, starts, collects, flushes, commits, database_error, run, stop, new_batch_writer,
  no_rows, collect, end_flush, put, start, flush, collect_batch, update_at,
}
use mozilla_ai.LogWriter.Loops.{logs_put, starts_of}
use mozilla_ai.LogWriter.Conservation.{stop-accounts, in_flight}
use mozilla_ai.LogWriter.Delivery.{batch_equals_single, write_all}

abbrev events : List (Event ℕ)
events =
    starts
    ∷ puts 1
    ∷ puts 2
    ∷ puts 3
    ∷ collects 0
    ∷ puts 4
    ∷ flushes 0 commits
    ∷ collects 0
    ∷ flushes 0 commits
    ∷ puts 5
    ∷ []

-- The rows of a flush that `stop` cancels are not written by its last flush.
cancelled_rows :
    (stop {L = ℕ} commits
      (run 2 (starts ∷ puts 1 ∷ puts 2 ∷ puts 3 ∷ collects 0 ∷ []) new_batch_writer)).store.rows
    ≡ 3 ∷ []
unfolding stop run put start collect update_at flush collect_batch
cancelled_rows = refl

abbrev twice : List (Event ℕ)
twice = starts ∷ starts ∷ puts 1 ∷ collects 1 ∷ puts 2 ∷ collects 0 ∷ flushes 0 commits ∷ []

-- After a second start the rows of the first loop come later than those that were put after them.
overtaken : (run 1 (twice ++ flushes 1 commits ∷ []) new_batch_writer).store.rows ≡ 2 ∷ 1 ∷ []
unfolding run put start collect end_flush update_at flush collect_batch
overtaken = refl

-- The first loop is not stopped, and its row is still being committed.
not_stopped : in_flight (stop commits (run 1 twice new_batch_writer)).loops ≡ 1
unfolding stop run put start collect end_flush update_at flush collect_batch
not_stopped = refl

batch_equals_single_example :
    ((stop commits (run 2 events new_batch_writer)).store ≡ write_all (logs_put events) no_rows)
    × ((stop commits (run 2 events new_batch_writer)).queue ≡ [])
unfolding run put start collect end_flush update_at flush collect_batch
batch_equals_single_example = batch_equals_single 2 events (omega arith) (refl, (refl, tt)) tt

-- a flush whose commit fails, and one that is under way when the writer is stopped
abbrev failing : List (Event ℕ)
failing =
    starts ∷ puts 1 ∷ collects 0 ∷ flushes 0 database_error ∷ puts 2 ∷ collects 0 ∷ puts 3 ∷ []

stop-accounts_example :
    let w = stop commits (run 2 failing new_batch_writer) in
    (length w.store.rows + length w.store.lost + in_flight w.loops ≡ length (logs_put failing))
    × ((in_flight w.loops ≡ 0) ⊎ (2 ≤ starts_of failing))
stop-accounts_example = stop-accounts 2 failing commits
