-- ===== src/Streaming/Kept.antt =====
-- What every step of `iterate_streaming_attempts` keeps, it keeps.
use mozilla_ai.Common.{
  ◌⊎◌, inl, inr, Bool, true, false, Option, some, none, List, [], ◌∷◌, string_eq, String,
}
use mozilla_ai.Streaming.Attempts.{
  Upstream, FirstChunk, Result, got, no_chunk, timed_out, raises, after_wait, after_build,
  attempts_from, iterate_streaming_attempts, retry,
}

module _ {A S C X W : Type 0} (up : Upstream A S C X W) (Inv : W → Type 0)
    (built : (a : A) (w : W) → Inv w → Inv (up.build_stream a w).1)
    (waited : (s : S) (w : W) → Inv w → Inv (up.first_chunk s w).1)
    (closed : (s : S) (w : W) → Inv w → Inv (up.close_stream_quietly s w))
    (failed : (a : A) (c : String) (exc : X) (w : W)
      → Inv w
      → Inv (up.on_attempt_failed a c exc w)) where
  abbrev Keeps : (Option X → W → Result A S C X × W) → Type 0
  Keeps rest = (last : Option X) (w : W) → Inv w → Inv (rest last w).1

  retry-keeps :
      (b : Bool) (exc : X) (rest : Result A S C X × W) (w : W)
      → Inv rest.1
      → Inv w
      → Inv (retry up b exc rest w).1
  retry-keeps true exc rest w i j = i
  retry-keeps false exc rest w i j = j

  after_wait-keeps :
      (rest : Option X → W → Result A S C X × W)
      → Keeps rest
      → (a : A) (s : S) (c : FirstChunk C X) (w : W) → Inv w
      → Inv (after_wait up rest a s (c, w)).1
  after_wait-keeps rest keep a s (got c) w i = i
  after_wait-keeps rest keep a s no_chunk w i = i
  after_wait-keeps rest keep a s (timed_out exc) w i =
      keep (some exc) _ (closed s _ (failed a "timeout" exc w i))
  after_wait-keeps rest keep a s (raises exc) w i =
      let j = closed s _ (failed a (up.classify_error exc).1 exc w i) in
      retry-keeps (up.classify_error exc).0 exc (rest (some exc) _) _ (keep (some exc) _ j) j

  after_build-keeps :
      (rest : Option X → W → Result A S C X × W)
      → Keeps rest
      → (a : A) (r : S ⊎ X) (w : W) → Inv w
      → Inv (after_build up rest a (r, w)).1
  after_build-keeps rest keep a (inl s) w i =
      after_wait-keeps rest keep a s (up.first_chunk s w).0 (up.first_chunk s w).1 (waited s w i)
  after_build-keeps rest keep a (inr exc) w i =
      let j = failed a (up.classify_error exc).1 exc w i in
      retry-keeps (up.classify_error exc).0 exc (rest (some exc) _) _ (keep (some exc) _ j) j

  attempts_from-Keeps : (attempts : List A) → Keeps (attempts_from up attempts)
  unfolding attempts_from
  attempts_from-Keeps [] last w i = i
  attempts_from-Keeps (a ∷ attempts) last w i =
      after_build-keeps (attempts_from up attempts) (attempts_from-Keeps attempts) a
        (up.build_stream a w).0 (up.build_stream a w).1 (built a w i)

  pub iterate_streaming_attempts-keeps :
      (attempts : List A) (w : W) → Inv w → Inv (iterate_streaming_attempts up attempts w).1
  unfolding iterate_streaming_attempts
  iterate_streaming_attempts-keeps attempts w i = attempts_from-Keeps attempts none w i
