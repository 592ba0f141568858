-- ===== src/Streaming/Attempts.antt =====
-- `iterate_streaming_attempts` of otari/src/gateway/streaming.py. Exceptions and streams are types of
-- the caller's; building a stream and the wait for its first chunk are arguments that act on a world.
use mozilla_ai.Common.{String, Bool, true, false, Option, none, some, List, [], ◌∷◌, ◌⊎◌, inl, inr}

-- what the wait for the first chunk ends with
pub data FirstChunk (C X : Type 0) : Type 0 where
  got : C → FirstChunk C X
  no_chunk : FirstChunk C X
  timed_out : X → FirstChunk C X
  raises : X → FirstChunk C X

-- what is returned or raised: an attempt with the chunk that goes before its stream, or with an
-- empty stream; an exception; or the RuntimeError for no attempts
pub data Result (A S C X : Type 0) : Type 0 where
  stitched : A → C → S → Result A S C X
  empty_stream : A → Result A S C X
  raise : X → Result A S C X
  no_attempts : Result A S C X

pub record Upstream (A S C X W : Type 0) : Type 0 where
  pub build_stream : A → W → (S ⊎ X) × W
  pub first_chunk : S → W → FirstChunk C X × W
  pub close_stream_quietly : S → W → W
  pub classify_error : X → Bool × String
  pub on_attempt_failed : A → String → X → W → W

-- the end of the list: the last exception, where there is one
abbrev pub exhausted_with : {A S C X : Type 0} → Option X → Result A S C X
exhausted_with none = no_attempts
exhausted_with (some exc) = raise exc

module _ {A S C X W : Type 0} (up : Upstream A S C X W) where
  -- after a failure that was classified: on to the rest, or the exception
  abbrev pub retry : Bool → X → Result A S C X × W → W → Result A S C X × W
  retry true exc rest w = rest
  retry false exc rest w = (raise exc, w)

  abbrev report : A → X → W → W
  report a exc w = up.on_attempt_failed a (up.classify_error exc).1 exc w

  -- `rest` is the loop over the attempts that are left, given the last exception
  abbrev pub after_wait :
      (Option X → W → Result A S C X × W) → A → S → FirstChunk C X × W → Result A S C X × W
  after_wait rest a s (got c, w) = (stitched a c s, w)
  after_wait rest a s (no_chunk, w) = (empty_stream a, w)
  after_wait rest a s (timed_out exc, w) =
      rest (some exc) (up.close_stream_quietly s (up.on_attempt_failed a "timeout" exc w))
  after_wait rest a s (raises exc, w) =
      let w1 = up.close_stream_quietly s (report a exc w) in
      retry (up.classify_error exc).0 exc (rest (some exc) w1) w1

  abbrev pub after_build :
      (Option X → W → Result A S C X × W) → A → (S ⊎ X) × W → Result A S C X × W
  after_build rest a (inl s, w) = after_wait rest a s (up.first_chunk s w)
  after_build rest a (inr exc, w) =
      let w1 = report a exc w in retry (up.classify_error exc).0 exc (rest (some exc) w1) w1

  unfoldable pub attempts_from : List A → Option X → W → Result A S C X × W
  attempts_from [] last w = (exhausted_with last, w)
  attempts_from (a ∷ attempts) last w = after_build (attempts_from attempts) a (up.build_stream a w)

  unfoldable pub iterate_streaming_attempts : List A → W → Result A S C X × W
  iterate_streaming_attempts attempts w = attempts_from attempts none w
