-- ===== src/Genetic/Tests.antt =====
-- Ticks on cents, with draws from a counter.
use mozilla_ai.Common.{
  ℕ, ◌+◌, ◌-◌, ◌*◌, ◌/◌, ◌%◌, ◌^◌, ◌≡◌, refl, true, some, none, List, [], ◌∷◌, All, ltb, leb, arith,
  string_eq, map,
}
use mozilla_ai.Genetic.{
  Floats, Random, TrafficDna, BudgetGenome, Decision, Engine, genome, sort_genomes,
  evaluate_fitness, score,
}
use mozilla_ai.Genetic.Ticks.{
  tick, new_engine, build_traffic_dna, evolve_for, evolve, breed, mutate, crossover,
}
use mozilla_ai.Genetic.Sorted.{IsOrdered}
use mozilla_ai.Genetic.Bred.{IsInRange, IsNoFitter}
use mozilla_ai.Genetic.Bounded.{IsSound, tick-IsSound, tick-is_fittest}

-- whole cents; the exponential falls with the distance that it is given
abbrev cents : Floats ℕ
cents = record {
  lt = ltb;
  le = leb;
  decimal = λ n k. n * 100 / 10 ^ k;
  add = λ a b. a + b;
  sub = λ a b. a - b;
  mul = λ a b. a * b / 100;
  div = λ a b. a * 100 / b;
  neg = λ a. a;
  abs = λ a. a;
  pow = λ a n. a ^ n;
  exp = λ a. 100000 - a;
  round = λ a n. a;
}

cents-IsOrdered : IsOrdered cents
cents-IsOrdered = record {
  le_refl = λ x. ground arith;
  le_trans = λ x y z h k. ground arith;
  le_of_lt = λ x y h. ground arith;
  le_of_not_lt = λ x y h. ground arith;
}

abbrev counter : Random ℕ ℕ
counter = record {
  random = λ w. (w * 37 % 100, w + 1);
  gauss = λ mean deviation w. (mean + w % 10, w + 1);
  uniform = λ low high w. (low + w * 61 % (high - low), w + 1);
  sample = λ gs w. elim gs [
    | [] ↦ ((genome cents 5, genome cents 5), w)
    | a ∷ rest ↦ elim rest [ [] ↦ ((a, a), w) | b ∷ _ ↦ ((a, b), w) ]
  ];
}

abbrev attack : TrafficDna ℕ
attack = build_traffic_dna cents 9 10 4500 true

abbrev engine : Engine ℕ
engine = (new_engine cents counter 0).0

abbrev ceilings : List ℕ
ceilings = map (λ (g : BudgetGenome ℕ). g.ceiling) engine.population

-- The population that is seeded.
seeded : ceilings ≡ 200 ∷ 201 ∷ 202 ∷ 203 ∷ 249 ∷ 15 ∷ 76 ∷ 137 ∷ 198 ∷ 259 ∷ 25 ∷ 86 ∷ []
unfolding new_engine
seeded = refl

abbrev decided_ceiling : List ℕ
decided_ceiling = elim (tick cents counter attack engine 7) [
  | none ↦ []
  | some ((d, e'), w') ↦ d.ceiling ∷ []
]

-- Under an attack the tick decides a ceiling below those of all genomes it started from.
attack_starves : decided_ceiling ≡ 10 ∷ []
unfolding tick new_engine evolve_for evolve breed mutate crossover sort_genomes evaluate_fitness
    score build_traffic_dna
attack_starves = refl

tick-IsSound_example :
    (d : Decision ℕ) × (e' : Engine ℕ) × (w' : ℕ) × (tick cents counter attack engine 7
      ≡ some ((d, e'), w'))
    × IsSound cents e'
    × IsInRange cents d.ceiling
unfolding new_engine
tick-IsSound_example =
    tick-IsSound cents cents-IsOrdered refl counter attack (λ x h. h) engine 7
      (record {
        size = refl;
        population_in_range = ground arith;
        ceiling_in_range = (refl, refl);
        log_short = omega arith;
      })

tick-is_fittest_example :
    (d : Decision ℕ) × (e' : Engine ℕ) × (w' : ℕ) × (tick cents counter attack engine 7
      ≡ some ((d, e'), w'))
    × ((best : ℕ) × (d.ceiling ≡ best) × All (IsNoFitter cents attack best) engine.population)
    × (d.generation ≡ 6)
    × (d.fitness_best ≡ 0)
unfolding new_engine
tick-is_fittest_example = tick-is_fittest cents cents-IsOrdered refl counter attack engine 7 refl
