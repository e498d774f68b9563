-- ===== src/Compiler/Reference.antt =====
-- What `topological_waves` is to compute, without its tables: round by round, all stages that need
-- no pending stage.
use contractplane.Prelude.{
  ℕ, zero, suc, String, Bool, not, List, [], ◌∷◌, keep, all, contains, length,
}
use contractplane.Errors.{cycle_involving, compile_error, no_rounds_left, Result, ok, raise, ◌>>=◌}
use contractplane.Models.{Stage, Flow}
use contractplane.Compiler.{ids_of}

-- No need of the stage is pending.
abbrev pub is_free : List Stage → Stage → Bool
is_free pending stage = all (λ need. not (contains (ids_of pending) need)) stage.needs

abbrev pub ready_of : List Stage → List Stage
ready_of pending = keep (is_free pending) pending

abbrev pub rest_of : List Stage → List Stage
rest_of pending = keep (λ stage. not (is_free pending stage)) pending

-- The round behind the choice of the ready stages.
abbrev pub with_ready :
    String → List Stage → List Stage → Result (List (List Stage)) → Result (List (List Stage))
with_ready flow pending [] rest = raise (compile_error (cycle_involving flow (ids_of pending)))
with_ready flow pending (stage ∷ stages) rest = do waves ← rest; ok ((stage ∷ stages) ∷ waves)

unfoldable pub rounds : ℕ → String → List Stage → Result (List (List Stage))
rounds bound flow [] = ok []
rounds zero flow (stage ∷ stages) = raise no_rounds_left
rounds (suc bound) flow (stage ∷ stages) =
    let pending = stage ∷ stages in
    with_ready flow pending (ready_of pending) (rounds bound flow (rest_of pending))

unfoldable pub reference_waves : Flow → Result (List (List Stage))
unfolding rounds
reference_waves flow = rounds (length flow.stages) flow.id flow.stages
