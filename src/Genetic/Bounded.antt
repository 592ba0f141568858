-- ===== src/Genetic/Bounded.antt =====
-- The properties of a tick.
use mozilla_ai.Common.{
  ◌+◌, ◌≤◌, ◌≡◌, sym, true, some, List, [], ◌∷◌, ◌++◌, All, length, length-append, ltb, if_cases,
  arith, subst,
}
use mozilla_ai.Genetic.{
  Floats, Random, TrafficDna, Decision, Engine, population_size, budget_min, budget_max,
}
use mozilla_ai.Genetic.Ticks.{tick, logged, tail}
use mozilla_ai.Genetic.Sorted.{IsOrdered}
use mozilla_ai.Genetic.Bred.{IsInRange, HasRange, IsNoFitter}
use mozilla_ai.Genetic.Elitism.{tick-Decides}

module _ {F : Type 0} (f : Floats F) where
  length-tail : (ds : List (Decision F)) → length ds ≤ 21 → length (tail f ds) ≤ 20
  length-tail [] h = omega arith
  length-tail (d ∷ ds) h = omega arith

  logged_short :
      (log : List (Decision F)) (d : Decision F) → length log ≤ 20 → length (logged f log d) ≤ 20
  logged_short log d h =
      let longer = log ++ d ∷ [] in
      let size : length longer ≤ 21 = omega (arith, length-append log (d ∷ [])) in
      if_cases (λ ds. length ds ≤ 20) (ltb 20 (length longer)) (tail f longer) longer
        (λ e. length-tail longer size) (λ e. ground arith)

  -- twelve genomes and a ceiling between the floor and the cap, and at most twenty decisions logged
  pub record IsSound (e : Engine F) : Type 0 where
    pub size : length e.population ≡ population_size
    pub population_in_range : All (HasRange f) e.population
    pub ceiling_in_range : IsInRange f e.current_ceiling
    pub log_short : length e.evolution_log ≤ 20

  module _ (laws : IsOrdered f) (range : f.le (budget_min f) (budget_max f) ≡ true) {W : Type 0}
      (r : Random F W) (dna : TrafficDna F) where
    -- For floats without NaN, rounded within the range, and any draws, a tick of a sound engine
    -- decides, leaves the engine sound, and its ceiling is between the floor and the cap.
    pub tick-IsSound :
        (rounds : (x : F) → IsInRange f x → IsInRange f (f.round x 4))
        → (e : Engine F) (w : W) → IsSound e
        → (d : Decision F) × (e' : Engine F) × (w' : W) × (tick f r dna e w ≡ some ((d, e'), w'))
          × IsSound e'
          × IsInRange f d.ceiling
    tick-IsSound rounds e w sound =
        let (d, e', w', is, h) = tick-Decides f laws range r dna e w sound.size in
        let in_range = h.bred.in_range sound.population_in_range in
        let best_in_range = subst (All (HasRange f)) h.bred.led in_range in
        let decided = subst (IsInRange f) (sym h.ceiling_is) (rounds h.bred.best best_in_range.0) in
        (
          d,
          e',
          w',
          is,
          record {
            size = h.bred.size;
            population_in_range = in_range;
            ceiling_in_range = subst (IsInRange f) (sym h.kept) decided;
            log_short = rw h.log_is (logged_short e.evolution_log d sound.log_short);
          },
          decided,
        )

    -- For floats without NaN and any draws, a tick of an engine of twelve genomes decides after six
    -- generations, and the ceiling that it rounds is no less fit for the traffic than that of any
    -- genome it started from; the best fitness that it reports is 0, rounded, whatever the population.
    pub tick-is_fittest :
        (e : Engine F) (w : W)
        → length e.population ≡ population_size
        → (d : Decision F) × (e' : Engine F) × (w' : W) × (tick f r dna e w ≡ some ((d, e'), w'))
          × ((best : F) × (d.ceiling ≡ f.round best 4) × All (IsNoFitter f dna best) e.population)
          × (d.generation ≡ e.generation_count + 6)
          × (d.fitness_best ≡ f.round (f.decimal 0 1) 2)
    tick-is_fittest e w size =
        let (d, e', w', is, h) = tick-Decides f laws range r dna e w size in
        (
          d,
          e',
          w',
          is,
          (h.bred.best, h.ceiling_is, h.bred.no_fitter),
          h.generation_is,
          h.scored_none,
        )
