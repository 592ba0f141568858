-- ===== src/Genetic/Bred.antt =====
-- What one generation makes of a population, and any number of generations.
use mozilla_ai.Common.{
  ℕ, zero, suc, ◌≡◌, refl, ap, true, List, [], ◌∷◌, map, All, length, if_holds, if_cases, some,
  arith, ◌+◌, ◌∙◌, subst,
}
use mozilla_ai.Genetic.{
  Floats, Random, TrafficDna, BudgetGenome, population_size, genome, evaluated, evaluate_fitness,
  clamped, budget_min, budget_max, float_min, mutation_rate, crossover_rate, Engine, sort_genomes,
}
use mozilla_ai.Genetic.Ticks.{mutate, crossover, breed, evolve, next_population}
use mozilla_ai.Genetic.Sorted.{
  IsOrdered, IsAtMost, IsLed, length-sort_genomes, All-sort_genomes, sort_genomes-IsLed,
  sort_genomes-All,
}

module _ {F : Type 0} (f : Floats F) where
  abbrev pub IsInRange : F → Type 0
  IsInRange x = (f.le (budget_min f) x ≡ true) × (f.le x (budget_max f) ≡ true)

  -- the fitness that a ceiling has for the traffic
  abbrev pub fit : TrafficDna F → F → F
  fit dna c = evaluate_fitness f (genome f c) dna

  abbrev pub IsNoFitter : TrafficDna F → F → BudgetGenome F → Type 0
  IsNoFitter dna c g = f.le (fit dna g.ceiling) (fit dna c) ≡ true

  abbrev pub HasRange : BudgetGenome F → Type 0
  HasRange g = IsInRange g.ceiling

  abbrev pub IsUnscored : BudgetGenome F → Type 0
  IsUnscored g = g.fitness ≡ f.decimal 0 1

  -- a population of twelve whose first is no worse than any before it
  pub record Bred (dna : TrafficDna F) (before after : List (BudgetGenome F)) : Type 0 where
    pub best : F
    pub others : List (BudgetGenome F)
    pub led : after ≡ genome f best ∷ others
    pub size : length after ≡ population_size
    pub no_fitter : All (IsNoFitter dna best) before
    pub unscored : All IsUnscored after
    pub in_range : All HasRange before → All HasRange after

  module _ (laws : IsOrdered f) (range : f.le (budget_min f) (budget_max f) ≡ true) where
    open laws use {le_refl, le_trans, le_of_lt, le_of_not_lt}

    clamped-IsInRange : (x : F) → IsInRange (clamped f x)
    clamped-IsInRange x =
        let y = float_min f (budget_max f) x in
        let below : f.le y (budget_max f) ≡ true =
          if_cases (λ z. f.le z (budget_max f) ≡ true) (f.lt x (budget_max f)) x (budget_max f)
            (le_of_lt x (budget_max f)) (λ e. le_refl (budget_max f)) in
        if_cases IsInRange (f.lt (budget_min f) y) y (budget_min f)
          (λ above. (le_of_lt (budget_min f) y above, below)) (λ e. (le_refl (budget_min f), range))

    abbrev IsChild : BudgetGenome F → Type 0
    IsChild g = HasRange g × IsUnscored g

    module _ {W : Type 0} (r : Random F W) where
      mutate-IsChild : (g : BudgetGenome F) (w : W) → IsChild g → IsChild (mutate f r g w).0
      unfolding mutate
      mutate-IsChild g w (p, q) =
          if_holds (λ (x : BudgetGenome F × W). IsChild x.0) (f.lt (r.random w).0 (mutation_rate f))
            _ _ (clamped-IsInRange _, q) (p, q)

      crossover-IsChild : (a b : BudgetGenome F) (w : W) → IsChild (crossover f r a b w).0
      unfolding crossover
      crossover-IsChild a b w =
          if_holds (λ (x : BudgetGenome F × W). IsChild x.0)
            (f.lt (r.random w).0 (crossover_rate f)) _ _ (clamped-IsInRange _, refl)
            (clamped-IsInRange _, refl)

      breed-IsChild :
          (n : ℕ) (population : List (BudgetGenome F)) (w : W)
          → All IsChild (breed f r n population w).0
      unfolding breed
      breed-IsChild zero population w = tt
      breed-IsChild (suc n) population w =
          (mutate-IsChild _ _ (crossover-IsChild _ _ _), breed-IsChild n population _)

      length-breed :
          (n : ℕ) (population : List (BudgetGenome F)) (w : W)
          → length (breed f r n population w).0 ≡ n
      unfolding breed
      length-breed zero population w = refl
      length-breed (suc n) population w = ap suc (length-breed n population _)

      children-IsUnscored : (gs : List (BudgetGenome F)) → All IsChild gs → All IsUnscored gs
      children-IsUnscored [] ps = tt
      children-IsUnscored (g ∷ gs) ((p, q), ps) = (q, children-IsUnscored gs ps)

      children-HasRange : (gs : List (BudgetGenome F)) → All IsChild gs → All HasRange gs
      children-HasRange [] ps = tt
      children-HasRange (g ∷ gs) ((p, q), ps) = (p, children-HasRange gs ps)

      -- what holds of a genome whatever its fitness is kept by the evaluation
      All-evaluated :
          (dna : TrafficDna F) (gs : List (BudgetGenome F))
          → All HasRange gs
          → All HasRange (map (evaluated f dna) gs)
      All-evaluated dna [] ps = tt
      All-evaluated dna (g ∷ gs) (p, ps) = (p, All-evaluated dna gs ps)

      length-evaluated :
          (dna : TrafficDna F) (gs : List (BudgetGenome F))
          → length (map (evaluated f dna) gs) ≡ length gs
      length-evaluated dna [] = refl
      length-evaluated dna (g ∷ gs) = ap suc (length-evaluated dna gs)

      abbrev IsScored : TrafficDna F → BudgetGenome F → Type 0
      IsScored dna g = g.fitness ≡ fit dna g.ceiling

      evaluated-IsScored :
          (dna : TrafficDna F) (gs : List (BudgetGenome F))
          → All (IsScored dna) (map (evaluated f dna) gs)
      unfolding evaluate_fitness
      evaluated-IsScored dna [] = tt
      evaluated-IsScored dna (g ∷ gs) = (refl, evaluated-IsScored dna gs)

      population-IsNoFitter :
          (dna : TrafficDna F) (c : F) (gs : List (BudgetGenome F))
          → All (IsAtMost f laws (fit dna c)) (map (evaluated f dna) gs)
          → All (IsNoFitter dna c) gs
      unfolding evaluate_fitness
      population-IsNoFitter dna c [] ps = tt
      population-IsNoFitter dna c (g ∷ gs) (p, ps) = (p, population-IsNoFitter dna c gs ps)

      -- `sorted` stands for the population evaluated and sorted
      next_population-Bred :
          (dna : TrafficDna F) (before sorted : List (BudgetGenome F)) (w : W)
          → length sorted ≡ population_size
          → (All HasRange before → All HasRange sorted)
          → All (IsScored dna) sorted
          → IsLed f laws sorted
          → ((x : F)
              → All (IsAtMost f laws x) sorted
              → All (IsAtMost f laws x) (map (evaluated f dna) before))
          → (p : List (BudgetGenome F)) × (w' : W) × (next_population f r sorted w ≡ some (p, w'))
            × Bred dna before p
      next_population-Bred dna before [] w size ranged scored led back = absurd (omega arith)
      next_population-Bred dna before (a ∷ []) w size ranged scored led back = absurd (omega arith)
      next_population-Bred dna before (a ∷ b ∷ rest) w size ranged (e, scored) led back =
          let children = breed f r 10 (a ∷ b ∷ rest) w in
          let born = breed-IsChild 10 (a ∷ b ∷ rest) w in
          (
            genome f a.ceiling ∷ genome f b.ceiling ∷ children.0,
            children.1,
            refl,
            record {
              best = a.ceiling;
              others = genome f b.ceiling ∷ children.0;
              led = refl;
              size = ap (λ n. suc (suc n)) (length-breed 10 (a ∷ b ∷ rest) w);
              no_fitter = population-IsNoFitter dna a.ceiling before (
                  back (fit dna a.ceiling)
                    (subst (λ x. All (IsAtMost f laws x) (a ∷ b ∷ rest)) e led));
              unscored = (refl, (refl, children-IsUnscored children.0 born));
              in_range =
                  λ ps. let (p, (q, _)) = ranged ps in (p, (q, children-HasRange children.0 born));
            },
          )

      abbrev pub Evolves : TrafficDna F → Engine F → W → Type 0
      Evolves dna e w =
          (e' : Engine F) × (w' : W) × (evolve f r dna e w ≡ some (e', w'))
          × Bred dna e.population e'.population
          × (e'.generation_count ≡ e.generation_count + 1)
          × (e'.evolution_log ≡ e.evolution_log)

      pub evolve-Bred :
          (dna : TrafficDna F) (e : Engine F) (w : W)
          → length e.population ≡ population_size
          → Evolves dna e w
      unfolding evolve
      evolve-Bred dna e w size =
          let gs = map (evaluated f dna) e.population in
          let (p, w', is, bred) =
            next_population-Bred dna e.population (sort_genomes f gs) w
              (length-sort_genomes f gs ∙ length-evaluated dna e.population ∙ size)
              (λ ps. All-sort_genomes f HasRange gs (All-evaluated dna e.population ps))
              (All-sort_genomes f (IsScored dna) gs (evaluated-IsScored dna e.population))
              (sort_genomes-IsLed f laws gs) (λ x. sort_genomes-All f (IsAtMost f laws x) gs) in
          (
            record e { population = p; generation_count = e.generation_count + 1 },
            w',
            rw is refl,
            bred,
            refl,
            refl,
          )
