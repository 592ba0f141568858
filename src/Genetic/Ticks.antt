-- ===== src/Genetic/Ticks.antt =====
-- `build_traffic_dna` and `GeneticBudgetEngine` of genetic_budget_engine.py.
use mozilla_ai.Common.{
  ℕ, zero, suc, ◌+◌, ◌-◌, ◌/◌, max, String, Bool, ◌&&◌, ◌||◌, Option, none, some, List, [], ◌∷◌,
  ◌++◌, map, ltb, length, if◌then◌else◌,
}
use mozilla_ai.Genetic.{
  Floats, Random, TrafficDna, BudgetGenome, Decision, Engine, population_size, generations,
  float_max, mutation_rate, crossover_rate, budget_min, budget_baseline, clamped, genome, evaluated,
  sort_genomes, sum_fitness, budget_max,
}

module _ {F : Type 0} (f : Floats F) where
  -- `log.pop(0)`
  abbrev pub tail : List (Decision F) → List (Decision F)
  tail [] = []
  tail (d ∷ ds) = ds

  -- the oldest entry goes when there are more than twenty
  abbrev pub logged : List (Decision F) → Decision F → List (Decision F)
  logged log result =
      let longer = log ++ result ∷ [] in if ltb 20 (length longer) then tail longer else longer

  abbrev pub mode_of : TrafficDna F → String
  mode_of dna =
      if dna.is_ddos_pattern
      then "AI_STARVATION"
      else if dna.is_critical_load
      then "SURVIVAL_EXPANSION"
      else if f.lt (f.decimal 4 1) dna.threat_ratio
      then "THREAT_CONTRACTION"
      else "STABLE_BASELINE"

  unfoldable pub build_traffic_dna : ℕ → ℕ → F → Bool → TrafficDna F
  build_traffic_dna threat_count total_count cpu_percent recent_injection_burst =
      let one = f.decimal 10 1 in
      let zero_int = f.decimal 0 0 in
      let threat_ratio = f.div (f.decimal threat_count 0) (f.decimal (max total_count 1) 0) in
      let cpu_usage = f.div cpu_percent (f.decimal 1000 1) in
      record {
        threat_ratio = threat_ratio;
        cpu_usage = cpu_usage;
        request_rate = float_max f (f.decimal 0 1) (
            f.mul (f.sub one threat_ratio)
              (f.sub one (float_max f zero_int (f.sub cpu_usage (f.decimal 85 2)))));
        system_health = float_max f (f.decimal 0 1) (
            f.sub one (
              f.add (f.mul threat_ratio (f.decimal 6 1))
                (f.mul (float_max f zero_int (f.sub cpu_usage (f.decimal 7 1))) (f.decimal 4 1))));
        is_ddos_pattern =
            recent_injection_burst || (f.lt (f.decimal 6 1) threat_ratio && ltb 5 total_count);
        is_critical_load = f.lt (f.decimal 85 2) cpu_usage && f.lt threat_ratio (f.decimal 2 1);
      }

  -- the ceiling of the first genome, which the last generation returned
  abbrev pub decision_of :
      TrafficDna F → F → Engine F → BudgetGenome F → List (BudgetGenome F) → Decision F
  decision_of dna prev_ceiling e best rest =
      let ceiling = f.round best.ceiling 4 in
      record {
        ceiling = ceiling;
        prev_ceiling = f.round prev_ceiling 4;
        delta = f.round (f.sub ceiling prev_ceiling) 4;
        mode = mode_of dna;
        generation = e.generation_count;
        fitness_best = f.round best.fitness 2;
        fitness_avg =
            f.round
              (f.div (sum_fitness f (f.decimal 0 0) (best ∷ rest))
                (f.decimal (length (best ∷ rest)) 0))
              2;
      }

  abbrev pub decided :
      TrafficDna F → F → Engine F → List (BudgetGenome F) → Option (Decision F × Engine F)
  decided dna prev_ceiling e [] = none
  decided dna prev_ceiling e (best ∷ rest) =
      let result = decision_of dna prev_ceiling e best rest in
      some (
        result,
        record e {
          current_ceiling = result.ceiling;
          evolution_log = logged e.evolution_log result;
        },
      )

  module _ {W : Type 0} (r : Random F W) where
    -- `genome.mutate()`
    unfoldable pub mutate : BudgetGenome F → W → BudgetGenome F × W
    mutate g w =
        let (drawn, w1) = r.random w in
        let (delta, w2) = r.gauss (f.decimal 0 0) (f.decimal 15 2) w1 in
        if f.lt drawn (mutation_rate f)
        then (record g { ceiling = clamped f (f.add g.ceiling delta) }, w2)
        else (g, w1)

    unfoldable pub crossover : BudgetGenome F → BudgetGenome F → W → BudgetGenome F × W
    crossover parent_a parent_b w =
        let (drawn, w1) = r.random w in
        let (alpha, w2) = r.random w1 in
        if f.lt drawn (crossover_rate f)
        then (
          genome f (
              clamped f (
                f.add (f.mul alpha parent_a.ceiling)
                  (f.mul (f.sub (f.decimal 1 0) alpha) parent_b.ceiling))),
          w2,
        )
        else (
          genome f (
              clamped f (
                if f.le parent_b.fitness parent_a.fitness
                then parent_a.ceiling
                else parent_b.ceiling)),
          w1,
        )

    abbrev pub tournament : List (BudgetGenome F) → W → BudgetGenome F × W
    tournament population w =
        let ((a, b), w1) = r.sample population w in (if f.le b.fitness a.fitness then a else b, w1)

    -- one round of the loop that breeds
    abbrev pub child_of : List (BudgetGenome F) → W → BudgetGenome F × W
    child_of population w =
        let (parent_a, w1) = tournament population w in
        let (parent_b, w2) = tournament population w1 in
        let (child, w3) = crossover parent_a parent_b w2 in mutate child w3

    -- the children that are still to be bred
    unfoldable pub breed : ℕ → List (BudgetGenome F) → W → List (BudgetGenome F) × W
    breed zero population w = ([], w)
    breed (suc n) population w =
        let (child, w1) = child_of population w in
        let (children, w2) = breed n population w1 in (child ∷ children, w2)

    -- the best two, and children up to `POPULATION_SIZE`
    abbrev pub next_population : List (BudgetGenome F) → W → Option (List (BudgetGenome F) × W)
    next_population (a ∷ b ∷ rest) w =
        let (children, w1) = breed (population_size - 2) (a ∷ b ∷ rest) w in
        some (genome f a.ceiling ∷ genome f b.ceiling ∷ children, w1)
    next_population _ w = none

    abbrev pub installed : Engine F → Option (List (BudgetGenome F) × W) → Option (Engine F × W)
    installed e none = none
    installed e (some (population, w)) =
        some (record e { population = population; generation_count = e.generation_count + 1 }, w)

    unfoldable pub evolve : TrafficDna F → Engine F → W → Option (Engine F × W)
    evolve dna e w =
        installed e (next_population (sort_genomes f (map (evaluated f dna) e.population)) w)

    -- the generations of a tick
    abbrev pub then_evolve :
        (Engine F → W → Option (Engine F × W)) → Option (Engine F × W) → Option (Engine F × W)
    then_evolve rest none = none
    then_evolve rest (some (e, w)) = rest e w

    unfoldable pub evolve_for : ℕ → TrafficDna F → Engine F → W → Option (Engine F × W)
    evolve_for zero dna e w = some (e, w)
    evolve_for (suc n) dna e w = then_evolve (evolve_for n dna) (evolve dna e w)

    abbrev pub beside : {A : Type 0} → W → Option A → Option (A × W)
    beside w none = none
    beside w (some a) = some (a, w)

    abbrev pub ticked :
        TrafficDna F → F → Option (Engine F × W) → Option ((Decision F × Engine F) × W)
    ticked dna prev_ceiling none = none
    ticked dna prev_ceiling (some (e, w)) = beside w (decided dna prev_ceiling e e.population)

    unfoldable pub tick : TrafficDna F → Engine F → W → Option ((Decision F × Engine F) × W)
    tick dna e w =
        ticked dna e.current_ceiling
          (evolve_for generations dna (record e { last_dna = some dna }) w)

    -- `count` genomes near the baseline, or anywhere in the range
    abbrev pub drawn_genomes : ℕ → (W → F × W) → W → List (BudgetGenome F) × W
    drawn_genomes zero draw w = ([], w)
    drawn_genomes (suc n) draw w =
        let (c, w1) = draw w in let (gs, w2) = drawn_genomes n draw w1 in (genome f c ∷ gs, w2)

    abbrev pub near_baseline : W → F × W
    near_baseline w =
        let (d, w1) = r.gauss (f.decimal 0 0) (f.decimal 1 1) w in (f.add (budget_baseline f) d, w1)

    unfoldable pub seed_population : W → List (BudgetGenome F) × W
    seed_population w =
        let (near, w1) = drawn_genomes (population_size / 3) near_baseline w in
        let (wide, w2) =
          drawn_genomes (population_size - length near) (r.uniform (budget_min f) (budget_max f))
            w1 in
        (near ++ wide, w2)

    -- `GeneticBudgetEngine()`
    unfoldable pub new_engine : W → Engine F × W
    unfolding seed_population
    new_engine w =
        let (population, w1) = seed_population w in
        (
          record {
            current_ceiling = budget_baseline f;
            generation_count = 0;
            last_dna = none;
            evolution_log = [];
            population = population;
          },
          w1,
        )
