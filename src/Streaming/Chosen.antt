-- ===== src/Streaming/Chosen.antt =====
-- What holds of an attempt whose stream `iterate_streaming_attempts` has built.
use mozilla_ai.Common.{
  ◌⊎◌, inl, inr, Bool, true, false, Option, some, none, List, [], ◌∷◌, string_eq,
}
use mozilla_ai.Streaming.Attempts.{
  Upstream, FirstChunk, Result, stitched, empty_stream, raise, no_attempts, got, no_chunk,
  timed_out, raises, after_wait, after_build, attempts_from, iterate_streaming_attempts, retry,
}

module _ {A S X : Type 0} (P : A → Type 0) where
  -- `P` holds of an attempt where its stream was built
  abbrev pub WhereBuilt : A → S ⊎ X → Type 0
  WhereBuilt a (inl s) = P a
  WhereBuilt a (inr exc) = Unit

module _ {A S C X : Type 0} (P : A → Type 0) where
  -- `P` holds of the attempt that is returned
  abbrev pub OfChosen : Result A S C X → Type 0
  OfChosen (stitched a c s) = P a
  OfChosen (empty_stream a) = P a
  OfChosen (raise exc) = Unit
  OfChosen no_attempts = Unit

module _ {A S C X W : Type 0} (up : Upstream A S C X W) (P : A → Type 0)
    (built : (a : A) (w : W) → WhereBuilt P a (up.build_stream a w).0) where
  abbrev Chooses : (Option X → W → Result A S C X × W) → Type 0
  Chooses rest = (last : Option X) (w : W) → OfChosen P (rest last w).0

  retry-Chooses :
      (b : Bool) (exc : X) (rest : Result A S C X × W) (w : W)
      → OfChosen P rest.0
      → OfChosen P (retry up b exc rest w).0
  retry-Chooses true exc rest w h = h
  retry-Chooses false exc rest w h = tt

  after_wait-Chooses :
      (rest : Option X → W → Result A S C X × W)
      → Chooses rest
      → (a : A) (s : S) (c : FirstChunk C X) (w : W) → P a
      → OfChosen P (after_wait up rest a s (c, w)).0
  after_wait-Chooses rest go a s (got c) w p = p
  after_wait-Chooses rest go a s no_chunk w p = p
  after_wait-Chooses rest go a s (timed_out exc) w p = go (some exc) _
  after_wait-Chooses rest go a s (raises exc) w p =
      retry-Chooses (up.classify_error exc).0 exc (rest (some exc) _) _ (go (some exc) _)

  after_build-Chooses :
      (rest : Option X → W → Result A S C X × W)
      → Chooses rest
      → (a : A) (r : S ⊎ X) (w : W) → WhereBuilt P a r
      → OfChosen P (after_build up rest a (r, w)).0
  after_build-Chooses rest go a (inl s) w p =
      after_wait-Chooses rest go a s (up.first_chunk s w).0 (up.first_chunk s w).1 p
  after_build-Chooses rest go a (inr exc) w p =
      retry-Chooses (up.classify_error exc).0 exc (rest (some exc) _) _ (go (some exc) _)

  attempts_from-Chooses : (attempts : List A) → Chooses (attempts_from up attempts)
  unfolding attempts_from
  attempts_from-Chooses [] none w = tt
  attempts_from-Chooses [] (some exc) w = tt
  attempts_from-Chooses (a ∷ attempts) last w =
      after_build-Chooses (attempts_from up attempts) (attempts_from-Chooses attempts) a
        (up.build_stream a w).0 (up.build_stream a w).1 (built a w)

  pub iterate_streaming_attempts-Chooses :
      (attempts : List A) (w : W) → OfChosen P (iterate_streaming_attempts up attempts w).0
  unfolding iterate_streaming_attempts
  iterate_streaming_attempts-Chooses attempts w = attempts_from-Chooses attempts none w
