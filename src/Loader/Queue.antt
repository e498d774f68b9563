-- ===== src/Loader/Queue.antt =====
-- `_cycle_nodes` of contractplane/loader.py.
use contractplane.Prelude.{
  ℕ, zero, suc, ◌+◌, String, true, false, not, List, [], ◌∷◌, ◌++◌, if◌then◌else◌, contains, keep,
  length,
}
use contractplane.Prelude.Dict
use contractplane.Prelude.Dict.{Dict, keys}
use contractplane.Prelude.Int.{ℤ, pos, negsuc, pred, is_zero}
use contractplane.Errors.{no_rounds_left, Result, ok, raise, ◌>>=◌}
use contractplane.Models.{Stage, Flow, found_at}
use contractplane.Compiler.{table_onto, ids_of, no_dependents, free_among}

-- indegree[id] += 1
abbrev pub increase : ℤ → ℤ
increase (pos n) = pos (suc n)
increase (negsuc zero) = pos 0
increase (negsuc (suc n)) = negsuc n

-- The two tables.
pub record Links : Type 0 where
  pub indegree : Dict ℤ
  pub dependents : Dict (List String)

-- for need in stage.needs: ...
unfoldable pub count_needs : List String → String → List String → Links → Result Links
count_needs ids id [] l = ok l
count_needs ids id (need ∷ needs) l = elim (contains ids need) [
  | false ↦ count_needs ids id needs l
  | true ↦ do
    degree ← found_at id (Dict.get l.indegree id)
    behind ← found_at need (Dict.get l.dependents need)
    count_needs ids id needs (record {
      indegree = Dict.put l.indegree id (increase degree);
      dependents = Dict.put l.dependents need (behind ++ id ∷ []);
    })
]

unfoldable pub count_all : List String → List Stage → Links → Result Links
count_all ids [] l = ok l
count_all ids (stage ∷ stages) l = do
  l' ← count_needs ids stage.id stage.needs l
  count_all ids stages l'

-- The variables that the `while` loop changes.
pub record Queue : Type 0 where
  pub indegree : Dict ℤ
  pub ready : List String

-- for dependent in dependents[current]: ...
unfoldable pub lower_and_queue : List String → Queue → Result Queue
lower_and_queue [] q = ok q
lower_and_queue (id ∷ ids) q = do
  degree ← found_at id (Dict.get q.indegree id)
  lower_and_queue ids (record {
    indegree = Dict.put q.indegree id (pred degree);
    ready = if is_zero (pred degree) then q.ready ++ id ∷ [] else q.ready;
  })

-- `while ready`, for at most `rounds` rounds: the visited ids.
unfoldable pub visit :
    ℕ → Dict (List String) → List String → Dict ℤ → List String → Result (List String)
visit rounds dependents visited indegree [] = ok visited
visit zero dependents visited indegree (id ∷ ids) = raise no_rounds_left
visit (suc rounds) dependents visited indegree (id ∷ ids) = do
  behind ← found_at id (Dict.get dependents id)
  q ← lower_and_queue behind (record { indegree = indegree; ready = ids })
  visit rounds dependents (visited ++ id ∷ []) q.indegree q.ready

-- {stage_id: 0 for stage_id in stage_ids}
abbrev pub no_needs : List Stage → Dict ℤ
no_needs stages = table_onto (λ stage. pos 0) [] stages

-- A round takes an id from the queue, and an id joins the queue when its degree comes down to 0: so
-- there are no more rounds than ready ids and keys together.
unfoldable pub cycle_nodes : Flow → Result (List String)
cycle_nodes flow = do
  let ids = ids_of flow.stages
  l ←
      count_all ids flow.stages
        (record { indegree = no_needs flow.stages; dependents = no_dependents flow.stages })
  ready ← free_among l.indegree ids
  visited ← visit (length ready + length (keys l.indegree)) l.dependents [] l.indegree ready
  ok (keep (λ id. not (contains visited id)) ids)
