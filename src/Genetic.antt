-- ===== src/Genetic.antt =====
-- genetic_budget_engine.py: the budget ceiling that is bred from the health of the traffic. A
-- float is a value of a type of the caller's with the operations that the code uses; the random
-- numbers are drawn from a world. `none` stands for the IndexError of a population of less than two.
pub mod Ticks
pub mod Sorted
pub mod Bred
pub mod Bounded
pub mod Elitism
mod Tests
use mozilla_ai.Common.{
  ℕ, zero, suc, ◌+◌, ◌-◌, max, String, Bool, ◌&&◌, ◌||◌, Option, none, some, List, [], ◌∷◌, ◌++◌,
  map, ltb, length, if◌then◌else◌, ◌/◌,
}

-- the float operations; `decimal n k` is the literal n * 10^-k
pub record Floats (F : Type 0) : Type 0 where
  pub lt : F → F → Bool
  pub le : F → F → Bool
  pub decimal : ℕ → ℕ → F
  pub add : F → F → F
  pub sub : F → F → F
  pub mul : F → F → F
  pub div : F → F → F
  pub neg : F → F
  pub abs : F → F
  pub pow : F → ℕ → F
  pub exp : F → F
  pub round : F → ℕ → F

-- the functions of `random`, on a world
pub record TrafficDna (F : Type 0) : Type 0 where
  pub threat_ratio : F
  pub cpu_usage : F
  pub request_rate : F
  pub system_health : F
  pub is_ddos_pattern : Bool
  pub is_critical_load : Bool

pub record BudgetGenome (F : Type 0) : Type 0 where
  pub ceiling : F
  pub fitness : F

-- the functions of `random`, on a world; `sample` draws two members of a population of two or more
pub record Random (F W : Type 0) : Type 0 where
  pub random : W → F × W
  pub gauss : F → F → W → F × W
  pub uniform : F → F → W → F × W
  pub sample : List (BudgetGenome F) → W → (BudgetGenome F × BudgetGenome F) × W

-- what a tick gives to the dashboard, but for the colour and the reason, the DNA and the time
pub record Decision (F : Type 0) : Type 0 where
  pub ceiling : F
  pub prev_ceiling : F
  pub delta : F
  pub mode : String
  pub generation : ℕ
  pub fitness_best : F
  pub fitness_avg : F

pub record Engine (F : Type 0) : Type 0 where
  pub current_ceiling : F
  pub generation_count : ℕ
  pub last_dna : Option (TrafficDna F)
  pub evolution_log : List (Decision F)
  pub population : List (BudgetGenome F)

abbrev pub population_size : ℕ
population_size = 12

abbrev pub generations : ℕ
generations = 6

module _ {F : Type 0} (f : Floats F) where
  -- `max(a, b)` and `min(a, b)`
  abbrev pub float_max : F → F → F
  float_max a b = if f.lt a b then b else a

  abbrev pub float_min : F → F → F
  float_min a b = if f.lt b a then b else a

  abbrev pub mutation_rate : F
  mutation_rate = f.decimal 25 2

  abbrev pub crossover_rate : F
  crossover_rate = f.decimal 70 2

  abbrev pub budget_min : F
  budget_min = f.decimal 5 2

  abbrev pub budget_max : F
  budget_max = f.decimal 300 2

  abbrev pub budget_baseline : F
  budget_baseline = f.decimal 200 2

  abbrev pub clamped : F → F
  clamped x = float_max budget_min (float_min budget_max x)

  -- `BudgetGenome(ceiling=c)`
  abbrev pub genome : F → BudgetGenome F
  genome c = record { ceiling = c; fitness = f.decimal 0 1 }

  unfoldable pub score : F → TrafficDna F → F
  score c dna =
      if dna.is_ddos_pattern
      then (let s =
            f.mul (f.decimal 1000 1)
              (f.exp (f.mul (f.neg (f.decimal 50 1)) (f.sub c budget_min))) in
          if f.lt (f.decimal 50 2) c then f.mul s (f.decimal 1 1) else s)
      else if dna.is_critical_load
      then (let s =
            f.mul (f.decimal 1000 1)
              (f.exp (f.mul (f.neg (f.decimal 30 1)) (f.abs (f.sub c (f.decimal 250 2))))) in
          if f.lt c budget_baseline then f.mul s (f.decimal 4 1) else s)
      else f.add
          (f.sub
            (f.mul (f.decimal 1000 1)
              (f.exp (f.mul (f.neg (f.decimal 40 1)) (f.pow (f.sub c budget_baseline) 2))))
            (f.mul dna.threat_ratio (f.decimal 400 1)))
          (f.mul dna.system_health (f.decimal 150 1))

  pub evaluate_fitness : BudgetGenome F → TrafficDna F → F
  evaluate_fitness g dna = float_max (f.decimal 0 1) (score g.ceiling dna)

  -- `genome.fitness = evaluate_fitness(genome, dna)`
  abbrev pub evaluated : TrafficDna F → BudgetGenome F → BudgetGenome F
  evaluated dna g = record g { fitness = evaluate_fitness g dna }

  -- `sort(key=lambda g: g.fitness, reverse=True)`, which is stable
  abbrev pub insert_genome : BudgetGenome F → List (BudgetGenome F) → List (BudgetGenome F)
  insert_genome g [] = g ∷ []
  insert_genome g (h ∷ hs) =
      let rest = insert_genome g hs in if f.lt g.fitness h.fitness then h ∷ rest else g ∷ h ∷ hs

  pub sort_genomes : List (BudgetGenome F) → List (BudgetGenome F)
  sort_genomes [] = []
  sort_genomes (g ∷ gs) = insert_genome g (sort_genomes gs)

  -- `sum(g.fitness for g in population)`, from 0
  abbrev pub sum_fitness : F → List (BudgetGenome F) → F
  sum_fitness acc [] = acc
  sum_fitness acc (g ∷ gs) = sum_fitness (f.add acc g.fitness) gs
