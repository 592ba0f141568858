-- ===== src/Streaming/Fallback.antt =====
-- Which attempts `iterate_streaming_attempts` makes and reports, against a log beside the world.
use mozilla_ai.Common.{
  ℕ, suc, ◌+◌, ◌≡◌, refl, ap, ◌⊎◌, inl, inr, Bool, true, false, Option, none, some, List, [], ◌∷◌,
  ◌++◌, arith, length, string_eq,
}
use mozilla_ai.Streaming.Attempts.{
  Upstream, FirstChunk, Result, got, no_chunk, timed_out, raises, stitched, empty_stream, raise,
  no_attempts, after_wait, after_build, attempts_from, iterate_streaming_attempts, retry,
}

-- the attempts built and those reported as failed, newest first, and the streams opened and closed
pub record Log (A W : Type 0) : Type 0 where
  pub built : List A
  pub failed : List A
  pub opened : ℕ
  pub closings : ℕ
  pub world : W

abbrev pub fresh_log : {A W : Type 0} → W → Log A W
fresh_log w = record { built = []; failed = []; opened = 0; closings = 0; world = w }

abbrev opens : {S X : Type 0} → S ⊎ X → ℕ
opens (inl s) = 1
opens (inr exc) = 0

-- the same upstream, on a world with its log
abbrev pub logged : {A S C X W : Type 0} → Upstream A S C X W → Upstream A S C X (Log A W)
logged up = record {
  build_stream = λ a l.
      let (answer, w) = up.build_stream a l.world in
      (answer, record l { built = a ∷ l.built; opened = l.opened + opens answer; world = w });
  first_chunk =
      λ s l. let (answer, w) = up.first_chunk s l.world in (answer, record l { world = w });
  close_stream_quietly =
      λ s l. record l { closings = suc l.closings; world = up.close_stream_quietly s l.world };
  classify_error = up.classify_error;
  on_attempt_failed =
      λ a c exc l. record l { failed = a ∷ l.failed; world = up.on_attempt_failed a c exc l.world };
}

-- a newest-first list before the rest
abbrev pub onto : {A : Type 0} → List A → List A → List A
onto [] ys = ys
onto (x ∷ xs) ys = onto xs (x ∷ ys)

module _ {A S C X W : Type 0} (up : Upstream A S C X W) where
  abbrev pub committed : Result A S C X → List A
  committed (stitched a c s) = a ∷ []
  committed (empty_stream a) = a ∷ []
  committed (raise exc) = []
  committed no_attempts = []

  -- an exception is raised where no attempt is left, or it is one that is not retried
  abbrev pub Stops : Result A S C X → List A → Type 0
  Stops (stitched a c s) left = Unit
  Stops (empty_stream a) left = Unit
  Stops (raise exc) left = (left ≡ []) ⊎ ((up.classify_error exc).0 ≡ false)
  Stops no_attempts left = left ≡ []

  -- The attempts built are a prefix of `attempts`, `left` the rest; all but the one returned are
  -- reported, once each and in order; every stream opened is closed but the one returned.
  pub record Ends (attempts : List A) (r : Result A S C X) (l : Log A W) : Type 0 where
    left : List A
    in_order : onto l.built left ≡ attempts
    reported : l.built ≡ committed r ++ l.failed
    closed_all : l.opened ≡ l.closings + length (committed r)
    stops : Stops r left

  module _ (all : List A) where
    -- before the next attempt
    record Ready (attempts : List A) (l : Log A W) : Type 0 where
      before : onto l.built attempts ≡ all
      reported : l.built ≡ l.failed
      closed_all : l.opened ≡ l.closings

    abbrev Goal : Result A S C X × Log A W → Type 0
    Goal (r, l) = Ends all r l

    abbrev Goes : List A → (Option X → Log A W → Result A S C X × Log A W) → Type 0
    Goes attempts rest = (last : Option X) (l : Log A W) → Ready attempts l → Goal (rest last l)

    Goal-retry :
        (attempts : List A) (b : Bool) (exc : X) (rest : Result A S C X × Log A W) (l : Log A W)
        → (up.classify_error exc).0 ≡ b
        → Ready attempts l
        → Goal rest
        → Goal (retry (logged up) b exc rest l)
    Goal-retry attempts true exc rest l e ready goal = goal
    Goal-retry attempts false exc rest l e ready goal = record {
      left = attempts;
      in_order = ready.before;
      reported = ready.reported;
      closed_all = omega (arith, ready.closed_all);
      stops = inr e;
    }

    -- with a stream open for the attempt `a`
    record Waiting (a : A) (attempts : List A) (l : Log A W) : Type 0 where
      before : onto l.built attempts ≡ all
      reported : l.built ≡ a ∷ l.failed
      one_open : l.opened ≡ suc l.closings

    after_wait-Goal :
        (attempts : List A) (rest : Option X → Log A W → Result A S C X × Log A W)
        → Goes attempts rest
        → (a : A) (s : S) (c : FirstChunk C X) (l : Log A W) → Waiting a attempts l
        → Goal (after_wait (logged up) rest a s (c, l))
    after_wait-Goal attempts rest go a s (got c) l h = record {
      left = attempts;
      in_order = h.before;
      reported = h.reported;
      closed_all = omega (arith, h.one_open);
      stops = tt;
    }
    after_wait-Goal attempts rest go a s no_chunk l h = record {
      left = attempts;
      in_order = h.before;
      reported = h.reported;
      closed_all = omega (arith, h.one_open);
      stops = tt;
    }
    after_wait-Goal attempts rest go a s (timed_out exc) l h =
        go (some exc) _
          (record { before = h.before; reported = h.reported; closed_all = h.one_open })
    after_wait-Goal attempts rest go a s (raises exc) l h =
        let ready : Ready attempts _ = record {
          before = h.before;
          reported = h.reported;
          closed_all = h.one_open;
        } in
        Goal-retry attempts _ exc _ _ refl ready (go (some exc) _ ready)

    after_build-Goal :
        (attempts : List A) (rest : Option X → Log A W → Result A S C X × Log A W)
        → Goes attempts rest
        → (a : A) (answer : S ⊎ X) (w : W) (l : Log A W) → Ready (a ∷ attempts) l
        → Goal (
            after_build (logged up) rest a (
              answer,
              record l { built = a ∷ l.built; opened = l.opened + opens answer; world = w },
            ))
    after_build-Goal attempts rest go a (inl s) w l h =
        after_wait-Goal attempts rest go a s _ _ (record {
          before = h.before;
          reported = ap (λ xs. a ∷ xs) h.reported;
          one_open = omega (arith, h.closed_all);
        })
    after_build-Goal attempts rest go a (inr exc) w l h =
        let ready : Ready attempts _ = record {
          before = h.before;
          reported = ap (λ xs. a ∷ xs) h.reported;
          closed_all = omega (arith, h.closed_all);
        } in
        Goal-retry attempts _ exc _ _ refl ready (go (some exc) _ ready)

    attempts_from-Goal : (attempts : List A) → Goes attempts (attempts_from (logged up) attempts)
    unfolding attempts_from
    attempts_from-Goal [] none l h = record {
      left = [];
      in_order = h.before;
      reported = h.reported;
      closed_all = omega (arith, h.closed_all);
      stops = refl;
    }
    attempts_from-Goal [] (some exc) l h = record {
      left = [];
      in_order = h.before;
      reported = h.reported;
      closed_all = omega (arith, h.closed_all);
      stops = inl refl;
    }
    attempts_from-Goal (a ∷ attempts) last l h =
        after_build-Goal attempts (attempts_from (logged up) attempts) (attempts_from-Goal attempts)
          a _ _ l h

  -- For every upstream the attempts are built in order, all but the one that is returned are
  -- reported as failed, once each and in order, every stream that was opened is closed but the one
  -- returned, and an exception is raised only where no attempt is left or it is not retryable.
  pub iterate_streaming_attempts-Ends :
      (attempts : List A) (w : W)
      → Ends attempts
          (iterate_streaming_attempts (logged up) attempts (fresh_log w)).0
          (iterate_streaming_attempts (logged up) attempts (fresh_log w)).1
  unfolding iterate_streaming_attempts
  iterate_streaming_attempts-Ends attempts w =
      attempts_from-Goal attempts attempts none (fresh_log w)
        (record { before = refl; reported = refl; closed_all = refl })
