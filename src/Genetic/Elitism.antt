-- ===== src/Genetic/Elitism.antt =====
-- The generations of a tick, and the ceiling that the tick decides.
use mozilla_ai.Common.{
  ℕ, zero, suc, ◌+◌, ◌∙◌, ◌≡◌, refl, ap, true, some, List, [], ◌∷◌, All, length, arith, subst,
}
use mozilla_ai.Genetic.{
  Floats, Random, TrafficDna, BudgetGenome, Decision, Engine, population_size, genome, budget_min,
  budget_max,
}
use mozilla_ai.Genetic.Ticks.{evolve_for, tick, ticked, decided, logged, decision_of, beside}
use mozilla_ai.Genetic.Sorted.{IsOrdered}
use mozilla_ai.Genetic.Bred.{IsNoFitter, fit, Bred, evolve-Bred}

module _ {F : Type 0} (f : Floats F) (laws : IsOrdered f)
    (range : f.le (budget_min f) (budget_max f) ≡ true) where
  All-IsNoFitter :
      (dna : TrafficDna F) (c d : F) (gs : List (BudgetGenome F))
      → f.le (fit f dna c) (fit f dna d) ≡ true
      → All (IsNoFitter f dna c) gs
      → All (IsNoFitter f dna d) gs
  All-IsNoFitter dna c d [] le ps = tt
  All-IsNoFitter dna c d (g ∷ gs) le (p, ps) = (
    laws.le_trans (fit f dna g.ceiling) (fit f dna c) (fit f dna d) p le,
    All-IsNoFitter dna c d gs le ps,
  )

  Bred-trans :
      {dna : TrafficDna F} {before between after : List (BudgetGenome F)}
      → Bred f dna before between
      → Bred f dna between after
      → Bred f dna before after
  Bred-trans {dna} {before} first second =
      let led_over = subst (All (IsNoFitter f dna second.best)) first.led second.no_fitter in
      record {
        best = second.best;
        others = second.others;
        led = second.led;
        size = second.size;
        no_fitter = All-IsNoFitter dna first.best second.best before led_over.0 first.no_fitter;
        unscored = second.unscored;
        in_range = λ ps. second.in_range (first.in_range ps);
      }

  module _ {W : Type 0} (r : Random F W) (dna : TrafficDna F) where
    abbrev EvolvesFor : ℕ → Engine F → W → Type 0
    EvolvesFor n e w =
        (e' : Engine F) × (w' : W) × (evolve_for f r n dna e w ≡ some (e', w'))
        × Bred f dna e.population e'.population
        × (e'.generation_count ≡ e.generation_count + n)
        × (e'.evolution_log ≡ e.evolution_log)

    -- any number of generations, one or more
    evolve_for-Bred :
        (n : ℕ) (e : Engine F) (w : W)
        → length e.population ≡ population_size
        → EvolvesFor (suc n) e w
    unfolding evolve_for
    evolve_for-Bred zero e w size =
        let (e1, w1, is, bred, count, log) = evolve-Bred f laws range r dna e w size in
        (e1, w1, rw is refl, bred, count, log)
    evolve_for-Bred (suc n) e w size =
        let (e1, w1, is, bred, count, log) = evolve-Bred f laws range r dna e w size in
        let (e2, w2, is2, bred2, count2, log2) = evolve_for-Bred n e1 w1 bred.size in
        (e2, w2, rw is is2, Bred-trans bred bred2, omega (arith, count, count2), log2 ∙ log)

    -- what a tick decides, and what it leaves
    pub record Decides (e : Engine F) (d : Decision F) (e' : Engine F) : Type 0 where
      pub bred : Bred f dna e.population e'.population
      pub ceiling_is : d.ceiling ≡ f.round bred.best 4
      pub kept : e'.current_ceiling ≡ d.ceiling
      pub scored_none : d.fitness_best ≡ f.round (f.decimal 0 1) 2
      pub generation_is : d.generation ≡ e.generation_count + 6
      pub log_is : e'.evolution_log ≡ logged f e.evolution_log d

    decided-led :
        (prev : F) (e : Engine F) (ps others : List (BudgetGenome F)) (best : F)
        → ps ≡ genome f best ∷ others
        → let d = decision_of f dna prev e (genome f best) others in
          decided f dna prev e ps
          ≡ some (
            d,
            record e { current_ceiling = d.ceiling; evolution_log = logged f e.evolution_log d },
          )
    decided-led prev e ps others best led = rw led refl

    pub tick-Decides :
        (e : Engine F) (w : W)
        → length e.population ≡ population_size
        → (d : Decision F) × (e' : Engine F) × (w' : W) × (tick f r dna e w ≡ some ((d, e'), w'))
          × Decides e d e'
    unfolding tick
    tick-Decides e w size =
        let (e1, w1, is, bred, count, log) =
          evolve_for-Bred 5 (record e { last_dna = some dna }) w size in
        let d = decision_of f dna e.current_ceiling e1 (genome f bred.best) bred.others in
        (
          d,
          record e1 { current_ceiling = d.ceiling; evolution_log = logged f e1.evolution_log d },
          w1,
          ap (ticked f r dna e.current_ceiling) is
              ∙ ap (beside f r w1)
                  (decided-led e.current_ceiling e1 e1.population bred.others bred.best bred.led),
          record {
            bred = bred;
            ceiling_is = refl;
            kept = refl;
            scored_none = refl;
            generation_is = count;
            log_is = ap (λ log. logged f log d) log;
          },
        )
