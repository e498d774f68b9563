-- ===== src/State/Unblocked.antt =====
-- A plan in the order of its needs never blocks: while a stage is unfinished, one is open.
use contractplane.Prelude.Dict
use contractplane.Prelude.Index.{get-index_onto_distinct}
use contractplane.Prelude.{
  all-Member, String, ◌≡◌, refl, subst, inl, inr, Bool, true, false, not, none, some, List, [], ◌∷◌,
  ◌++◌, map, arith, ◌==◌, eq_iff, Bool-cases, and-eq-true, all, any, any-append, contains,
  are_distinct, Member, Member-append_left, Member-append_right,
}
use contractplane.Errors.{ok}
use contractplane.Plan.{CompiledStage, Wave, ExecutionPlan, stages_of, stages}
use contractplane.Compiler.Plans.{are_behind}
use contractplane.Compiler.Waves.{all_at}
use contractplane.State.{Machine, group_of, needs_satisfied, stage_contract, dependencies_satisfied}
use contractplane.State.Finished.{is_finished}

-- The stage is sealed and its units are done.
abbrev pub is_done_at : Machine → String → Bool
is_done_at m id = elim (Dict.get m.stage_groups id) [
  | none ↦ false
  | some group ↦ is_finished group
]

module _ {A : Type 0} (p : A → Bool) where
  any-Member : (xs : List A) → any p xs ≡ true → (x : A) × Member x xs × (p x ≡ true)
  any-Member [] h = cc
  any-Member (x ∷ xs) h = elim (Bool-cases (p x)) [
    | inl holds ↦ (x, inl refl, holds)
    | inr fails ↦ let (y, m, holds) = any-Member xs (ground arith) in (y, inr m, holds)
  ]

module _ (m : Machine) where
  needs_satisfied-done :
      (needs : List String)
      → ((k : String) → contains needs k ≡ true → is_done_at m k ≡ true)
      → needs_satisfied m needs ≡ ok true
  unfolding needs_satisfied group_of
  needs_satisfied-done [] h = refl
  needs_satisfied-done (need ∷ needs) h =
      let here = h need (ground (arith, eq_iff need need)) in
      let rest = needs_satisfied-done needs (λ k e. h k (ground arith)) in ground arith

  all_done :
      (ss : List CompiledStage) (k : String)
      → any (λ s. not (is_done_at m s.id)) ss ≡ false
      → contains (map (λ s. s.id) ss) k ≡ true
      → is_done_at m k ≡ true
  all_done [] k h there = cc
  all_done (s ∷ ss) k h there = elim (Bool-cases (s.id == k)) [
    | inl here ↦
        let same : s.id ≡ k = ground (arith, eq_iff s.id k) in
        subst (λ j. is_done_at m j ≡ true) same (ground arith)
    | inr elsewhere ↦ all_done ss k (ground arith) (ground arith)
  ]

  first_open :
      (before : List String) (waves : List Wave)
      → ((k : String) → contains before k ≡ true → is_done_at m k ≡ true)
      → are_behind before waves ≡ true
      → any (λ s. not (is_done_at m s.id)) (stages_of waves) ≡ true
      → (s : CompiledStage) × Member s (stages_of waves)
        × (is_done_at m s.id ≡ false)
        × (needs_satisfied m s.needs ≡ ok true)
  first_open before [] done behind unfinished = cc
  first_open before (wave ∷ waves) done behind unfinished =
      let left : CompiledStage → Bool = λ s. not (is_done_at m s.id) in
      let (placed, later) =
        and-eq-true (all (λ s. all (contains before) s.needs) wave.stages) _ behind in
      elim (Bool-cases (any left wave.stages)) [
        | inl here ↦
            let (s, member, fails) = any-Member left wave.stages here in
            (
              s,
              Member-append_left s wave.stages (stages_of waves) member,
              ground arith,
              needs_satisfied-done s.needs (λ k wanted. done k (
                  all_at (contains before) s.needs k
                    (all-Member (λ x. all (contains before) x.needs) wave.stages s placed member)
                    wanted)),
            )
        | inr finished ↦
            let (s, member, fails, satisfied) =
              first_open (before ++ map (λ s. s.id) wave.stages) waves
                (λ k there. elim (Bool-cases (contains before k)) [
                  | inl early ↦ done k early
                  | inr e ↦ all_done wave.stages k finished (
                      ground (arith, any-append (λ x. x == k) before (map (λ s. s.id) wave.stages)))
                ])
                later (ground (arith, any-append left wave.stages (stages_of waves))) in
            (s, Member-append_right s wave.stages (stages_of waves) member, fails, satisfied)
      ]

-- If the needs of a plan's stages are ids of stages of earlier waves, no two of its stages have the
-- same id, and a stage of it is not finished in a machine (sealed with all its units done), then
-- there is a stage that is not finished and whose dependencies are satisfied.
pub dependencies_satisfied-some :
    (plan : ExecutionPlan) (m : Machine)
    → are_behind [] plan.waves ≡ true
    → are_distinct (map (λ stage. stage.id) (stages plan)) ≡ true
    → any (λ stage. not (is_done_at m stage.id)) (stages plan) ≡ true
    → (stage : CompiledStage) × Member stage (stages plan)
      × (is_done_at m stage.id ≡ false)
      × (dependencies_satisfied plan m stage.id ≡ ok true)
unfolding dependencies_satisfied stage_contract
dependencies_satisfied-some plan m behind distinct unfinished =
    let (s, member, fails, satisfied) = first_open m [] plan.waves (λ k h. cc) behind unfinished in
    let at = get-index_onto_distinct (λ stage. stage.id) [] (stages plan) s distinct member in
    (s, member, fails, rw at satisfied)
