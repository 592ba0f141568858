-- ===== src/Genetic/Sorted.antt =====
-- Sorting by fitness.
use mozilla_ai.Common.{
  suc, ◌≡◌, refl, ap, ◌∙◌, true, false, List, [], ◌∷◌, All, length, if_holds, if_cases,
}
use mozilla_ai.Genetic.{Floats, BudgetGenome, insert_genome, sort_genomes}

-- no NaN: `<=` is a total order, and `<` its strict part
pub record IsOrdered {F : Type 0} (f : Floats F) : Type 0 where
  pub le_refl : (x : F) → f.le x x ≡ true
  pub le_trans : (x y z : F) → f.le x y ≡ true → f.le y z ≡ true → f.le x z ≡ true
  pub le_of_lt : (x y : F) → f.lt x y ≡ true → f.le x y ≡ true
  pub le_of_not_lt : (x y : F) → f.lt x y ≡ false → f.le y x ≡ true

module _ {F : Type 0} (f : Floats F) where
  pub All-insert_genome :
      (P : BudgetGenome F → Type 0) (g : BudgetGenome F) (gs : List (BudgetGenome F))
      → P g
      → All P gs
      → All P (insert_genome f g gs)
  All-insert_genome P g [] p ps = (p, tt)
  All-insert_genome P g (h ∷ hs) p (q, ps) =
      if_holds (All P) (f.lt g.fitness h.fitness) _ _ (q, All-insert_genome P g hs p ps)
        (p, (q, ps))

  pub All-sort_genomes :
      (P : BudgetGenome F → Type 0) (gs : List (BudgetGenome F))
      → All P gs
      → All P (sort_genomes f gs)
  unfolding sort_genomes
  All-sort_genomes P [] ps = tt
  All-sort_genomes P (g ∷ gs) (p, ps) =
      All-insert_genome P g (sort_genomes f gs) p (All-sort_genomes P gs ps)

  insert_genome-All :
      (P : BudgetGenome F → Type 0) (g : BudgetGenome F) (gs : List (BudgetGenome F))
      → All P (insert_genome f g gs)
      → All P (g ∷ gs)
  insert_genome-All P g [] = λ ps. ps
  insert_genome-All P g (h ∷ hs) =
      if_cases (λ l. All P l → All P (g ∷ h ∷ hs)) (f.lt g.fitness h.fitness) _ _
        (λ e (q, ps). let (p, rest) = insert_genome-All P g hs ps in (p, (q, rest))) (λ e ps. ps)

  pub sort_genomes-All :
      (P : BudgetGenome F → Type 0) (gs : List (BudgetGenome F))
      → All P (sort_genomes f gs)
      → All P gs
  unfolding sort_genomes
  sort_genomes-All P [] ps = tt
  sort_genomes-All P (g ∷ gs) ps =
      let (p, rest) = insert_genome-All P g (sort_genomes f gs) ps in
      (p, sort_genomes-All P gs rest)

  length-insert_genome :
      (g : BudgetGenome F) (gs : List (BudgetGenome F))
      → length (insert_genome f g gs) ≡ suc (length gs)
  length-insert_genome g [] = refl
  length-insert_genome g (h ∷ hs) =
      if_holds (λ l. length l ≡ suc (suc (length hs))) (f.lt g.fitness h.fitness) _ _
        (ap suc (length-insert_genome g hs)) refl

  pub length-sort_genomes : (gs : List (BudgetGenome F)) → length (sort_genomes f gs) ≡ length gs
  unfolding sort_genomes
  length-sort_genomes [] = refl
  length-sort_genomes (g ∷ gs) =
      length-insert_genome g (sort_genomes f gs) ∙ ap suc (length-sort_genomes gs)

  module _ (laws : IsOrdered f) where
    open laws use {le_refl, le_trans, le_of_lt, le_of_not_lt}

    abbrev pub IsAtMost : F → BudgetGenome F → Type 0
    IsAtMost x g = f.le g.fitness x ≡ true

    -- the first is the fittest
    abbrev pub IsLed : List (BudgetGenome F) → Type 0
    IsLed [] = Unit
    IsLed (g ∷ gs) = All (IsAtMost g.fitness) (g ∷ gs)

    pub All-IsAtMost :
        (x y : F) (gs : List (BudgetGenome F))
        → f.le x y ≡ true
        → All (IsAtMost x) gs
        → All (IsAtMost y) gs
    All-IsAtMost x y [] le ps = tt
    All-IsAtMost x y (g ∷ gs) le (p, ps) = (le_trans g.fitness x y p le, All-IsAtMost x y gs le ps)

    insert_genome-IsLed :
        (g : BudgetGenome F) (gs : List (BudgetGenome F)) → IsLed gs → IsLed (insert_genome f g gs)
    insert_genome-IsLed g [] led = (le_refl g.fitness, tt)
    insert_genome-IsLed g (h ∷ hs) (p, ps) =
        if_cases IsLed (f.lt g.fitness h.fitness) _ _
          (λ less.
            (p, All-insert_genome (IsAtMost h.fitness) g hs (le_of_lt g.fitness h.fitness less) ps))
          (λ not_less. (
            le_refl g.fitness,
            All-IsAtMost h.fitness g.fitness (h ∷ hs) (le_of_not_lt g.fitness h.fitness not_less)
                (p, ps),
          ))

    pub sort_genomes-IsLed : (gs : List (BudgetGenome F)) → IsLed (sort_genomes f gs)
    unfolding sort_genomes
    sort_genomes-IsLed [] = tt
    sort_genomes-IsLed (g ∷ gs) = insert_genome-IsLed g (sort_genomes f gs) (sort_genomes-IsLed gs)
