-- ===== src/LogWriter/Loops.antt =====
-- What the steps of the loops of a batch writer keep.
use mozilla_ai.Common.{
  ℕ, zero, suc, ◌+◌, ◌-◌, ◌≡◌, refl, ap, ◌∙◌, List, [], ◌∷◌, ◌++◌, arith, length,
}
use mozilla_ai.LogWriter.{
  Loop, waiting, flushing, ended, BatchLogWriter, Event, puts, starts, collects, flushes, Commit,
  commits, database_error, other_error, cancelled, run, put, start, collect, end_flush,
  collect_batch, get_nowait, update_at, collect_in, flush_in, begin_flush, after_flush,
}

module _ {L : Type 0} where
  get_nowait-split :
      (n : ℕ) (queue : List L) → (get_nowait n queue).0 ++ (get_nowait n queue).1 ≡ queue
  get_nowait-split zero queue = refl
  get_nowait-split (suc n) [] = refl
  get_nowait-split (suc n) (x ∷ queue) = ap (λ r. x ∷ r) (get_nowait-split n queue)

  -- A batch is the head of the queue.
  pub collect_batch-split :
      (n : ℕ) (queue : List L) → (collect_batch n queue).0 ++ (collect_batch n queue).1 ≡ queue
  unfolding collect_batch
  collect_batch-split n [] = refl
  collect_batch-split n (x ∷ queue) = ap (λ r. x ∷ r) (get_nowait-split (n - 1) queue)

  abbrev pub logs_put : List (Event L) → List L
  logs_put [] = []
  logs_put (puts log ∷ es) = log ∷ logs_put es
  logs_put (starts ∷ es) = logs_put es
  logs_put (collects i ∷ es) = logs_put es
  logs_put (flushes i c ∷ es) = logs_put es

  -- how often the writer is started
  abbrev pub starts_of : List (Event L) → ℕ
  starts_of [] = 0
  starts_of (puts log ∷ es) = starts_of es
  starts_of (starts ∷ es) = suc (starts_of es)
  starts_of (collects i ∷ es) = starts_of es
  starts_of (flushes i c ∷ es) = starts_of es

  -- the batch that a loop commits
  abbrev pub batch_of : Loop L → List L
  batch_of waiting = []
  batch_of (flushing taken) = taken
  batch_of ended = []

  pub batch_of-begin_flush : (taken : List L) → batch_of (begin_flush taken) ≡ taken
  batch_of-begin_flush [] = refl
  batch_of-begin_flush (x ∷ taken) = refl

  pub batch_of-after_flush : (c : Commit) → batch_of (after_flush c) ≡ []
  batch_of-after_flush commits = refl
  batch_of-after_flush database_error = refl
  batch_of-after_flush other_error = refl
  batch_of-after_flush cancelled = refl

pub length-update_at :
    {A B : Type 0} (f : A → B → A × B) (i : ℕ) (xs : List A) (b : B)
    → length (update_at f i xs b).0 ≡ length xs
unfolding update_at
length-update_at f i [] b = refl
length-update_at f zero (x ∷ xs) b = refl
length-update_at f (suc i) (x ∷ xs) b = ap suc (length-update_at f i xs b)

module _ {A : Type 0} (size : A → ℕ) where
  abbrev pub total : List A → ℕ
  total [] = 0
  total (x ∷ xs) = size x + total xs

module _ {A B : Type 0} (size : A → ℕ) (rest : B → ℕ) where
  -- A step that moves a size between a member and the rest keeps their sum.
  pub total-update_at :
      (f : A → B → A × B)
      → ((x : A) (b : B) → size (f x b).0 + rest (f x b).1 ≡ size x + rest b)
      → (i : ℕ) (xs : List A) (b : B)
      → total size (update_at f i xs b).0 + rest (update_at f i xs b).1 ≡ total size xs + rest b
  unfolding update_at
  total-update_at f keeps i [] b = refl
  total-update_at f keeps zero (x ∷ xs) b = omega (arith, keeps x b)
  total-update_at f keeps (suc i) (x ∷ xs) b = omega (arith, total-update_at f keeps i xs b)

module _ {L : Type 0} where
  pub length-loops :
      (n : ℕ) (es : List (Event L)) (w : BatchLogWriter L)
      → length (run n es w).loops ≡ length w.loops + starts_of es
  unfolding run put start collect end_flush
  length-loops n [] w = omega arith
  length-loops n (puts log ∷ es) w = length-loops n es (put log w)
  length-loops n (starts ∷ es) w = omega (arith, length-loops n es (start w))
  length-loops n (collects i ∷ es) w =
      length-loops n es (collect n i w)
      ∙ ap (λ k. k + starts_of es) (length-update_at (collect_in n) i w.loops w.queue)
  length-loops n (flushes i c ∷ es) w =
      length-loops n es (end_flush i c w)
      ∙ ap (λ k. k + starts_of es) (length-update_at (flush_in c) i w.loops w.store)
