-- ===== src/Pipeline/Metered.antt =====
-- Meters of the backends that a streamed request opens and closes, and of its flushes.
use mozilla_ai.Common.{ℕ, suc, ◌+◌, ◌⊎◌, inl, inr, Option, none, some, List, [], ◌∷◌, ◌++◌}
use mozilla_ai.Pipeline.Hybrid.{Failure, Surrounding}

-- how often a backend was opened and closed, and what was flushed, beside the world
pub record Ledger (T W : Type 0) : Type 0 where
  pub opened : ℕ
  pub closed : ℕ
  pub flushes : List (List T)
  pub world : W

abbrev pub opening : {P X : Type 0} → P ⊎ X → ℕ
opening (inl pool) = 1
opening (inr exc) = 0

abbrev pub kept : {P : Type 0} → Option P → ℕ
kept none = 0
kept (some pool) = 1

abbrev pub blank : {T W : Type 0} → W → Ledger T W
blank w = record { opened = 0; closed = 0; flushes = []; world = w }

-- `f`, on the world of a ledger
abbrev pub beside : {T B W : Type 0} → (W → B × W) → Ledger T W → B × Ledger T W
beside f l = let (b, w) = f l.world in (b, record l { world = w })

abbrev pub metered :
    {A S C X P W : Type 0} → Surrounding A S C X P W → Surrounding A S C X P (Ledger (Failure A) W)
metered env = record {
  enter = λ backend l.
      let (r, w) = env.enter backend l.world in
      (r, record l { opened = l.opened + opening r; world = w });
  aclose = λ pool l. record l { closed = suc l.closed; world = env.aclose pool l.world };
  open_provider_stream = λ a. beside (env.open_provider_stream a);
  open_tool_loop_stream = λ pool a. beside (env.open_tool_loop_stream pool a);
  first_chunk = λ s. beside (env.first_chunk s);
  close_stream_quietly = λ s l. record l { world = env.close_stream_quietly s l.world };
  classify_error = env.classify_error;
  gather = λ reports l.
      let (other, w) = env.gather reports l.world in
      (other, record l { flushes = l.flushes ++ reports ∷ []; world = w });
  is_cancelled = env.is_cancelled;
  is_provider = env.is_provider;
  value_error = env.value_error;
  runtime_error = env.runtime_error;
  assertion_error = env.assertion_error;
}
