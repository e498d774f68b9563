-- ===== src/Compiler.antt =====
-- contractplane/compiler.py: `topological_waves`, `_resolve_flow` and `compile_plan`.
-- `_compile_stage` is in Plan/Compile.
pub mod Reference
pub mod Lookup
pub mod Sorting
pub mod Release
pub mod Rounding
pub mod Plans
pub mod Unknown
pub mod Inspect
pub mod Agrees
pub mod Rounds
pub mod Cycles
pub mod Waves
use contractplane.Prelude.{
  ℕ, zero, suc, ◌+◌, String, Bool, true, false, not, ◌&&◌, Option, none, some, List, [], ◌∷◌, ◌++◌,
  map, ◌==◌, leb, if◌then◌else◌, is_empty, contains, without, length, same_number,
}
use contractplane.Prelude.Dict
use contractplane.Prelude.Dict.{Dict, keys, has, index_by}
use contractplane.Prelude.Int.{ℤ, pos, pred, is_zero}
use contractplane.Errors.{
  CompileReason, unknown_need, cycle_involving, flow_and_entrypoint, several_flows,
  unknown_entrypoint, unknown_flow, Exception, compile_error, no_rounds_left, key_error, Result, ok,
  raise, ◌>>=◌, ◌>>◌, require,
}
use contractplane.Models.{Stage, Flow, EntryPoint, DomainPack, flow_map, entrypoint_map, found_at}
use contractplane.Plan.{CompiledStage, Wave, ExecutionPlan}
use contractplane.Plan.Compile.{compile_stage}

-- {stage.id: value(stage) for stage in stages}
unfoldable pub table_onto {ℓ} : {V : Type ℓ} → (Stage → V) → Dict V → List Stage → Dict V
table_onto value d [] = d
table_onto value d (stage ∷ stages) = table_onto value (Dict.put d stage.id (value stage)) stages

abbrev pub ids_of : List Stage → List String
ids_of stages = map (λ stage. stage.id) stages

-- {stage.id: index for index, stage in enumerate(stages)}, from an index on
unfoldable pub order_onto : ℕ → Dict ℕ → List Stage → Dict ℕ
order_onto index d [] = d
order_onto index d (stage ∷ stages) = order_onto (suc index) (Dict.put d stage.id index) stages

-- The inner loop over `stage.needs`.
unfoldable pub link_needs :
    String → Dict Stage → String → List String → Dict (List String) → Result (Dict (List String))
link_needs flow stages id [] dependents = ok dependents
link_needs flow stages id (need ∷ needs) dependents = do
  require (has stages need) (compile_error (unknown_need flow id need))
  behind ← found_at need (Dict.get dependents need)
  link_needs flow stages id needs (Dict.put dependents need (behind ++ id ∷ []))

unfoldable pub link_stages :
    String → Dict Stage → List Stage → Dict (List String) → Result (Dict (List String))
link_stages flow stages [] dependents = ok dependents
link_stages flow stages (stage ∷ rest) dependents = do
  dependents' ← link_needs flow stages stage.id stage.needs dependents
  link_stages flow stages rest dependents'

-- (stage_id for stage_id in remaining if indegree[stage_id] == 0)
unfoldable pub free_among : Dict ℤ → List String → Result (List String)
free_among indegree [] = ok []
free_among indegree (id ∷ ids) = do
  degree ← found_at id (Dict.get indegree id)
  free ← free_among indegree ids
  ok (if is_zero degree then id ∷ free else free)

-- sorted(ids, key=order.__getitem__), which is stable.
unfoldable pub keyed : Dict ℕ → List String → Result (List (ℕ × String))
keyed order [] = ok []
keyed order (id ∷ ids) = do
  index ← found_at id (Dict.get order id)
  rest ← keyed order ids
  ok ((index, id) ∷ rest)

unfoldable pub insert_keyed : ℕ × String → List (ℕ × String) → List (ℕ × String)
insert_keyed x [] = x ∷ []
insert_keyed x (y ∷ ys) = if leb x.0 y.0 then x ∷ y ∷ ys else y ∷ insert_keyed x ys

unfoldable pub sort_keyed : List (ℕ × String) → List (ℕ × String)
sort_keyed [] = []
sort_keyed (x ∷ xs) = insert_keyed x (sort_keyed xs)

unfoldable pub sorted_by : Dict ℕ → List String → Result (List String)
unfolding keyed insert_keyed sort_keyed
sorted_by order ids = do pairs ← keyed order ids; ok (map (λ pair. pair.1) (sort_keyed pairs))

-- tuple(d[key] for key in keys)
unfoldable pub items_at {ℓ} : {V : Type ℓ} → Dict V → List String → Result (List V)
items_at d [] = ok []
items_at d (key ∷ rest) = do
  item ← found_at key (Dict.get d key)
  items ← items_at d rest
  ok (item ∷ items)

-- for dependent in dependents[stage_id]: indegree[dependent] -= 1
unfoldable pub lower_all : List String → Dict ℤ → Result (Dict ℤ)
lower_all [] indegree = ok indegree
lower_all (id ∷ ids) indegree = do
  degree ← found_at id (Dict.get indegree id)
  lower_all ids (Dict.put indegree id (pred degree))

-- The variables that the `while` loop changes.
pub record Waiting : Type 0 where
  pub remaining : List String
  pub indegree : Dict ℤ

-- remaining.remove(id)
unfoldable pub remove : String → List String → Result (List String)
remove id ids = if contains ids id then ok (without id ids) else raise (key_error id)

-- for stage_id in ready_ids: ...
unfoldable pub release : Dict (List String) → List String → Waiting → Result Waiting
unfolding remove lower_all
release dependents [] w = ok w
release dependents (id ∷ ids) w = do
  remaining ← remove id w.remaining
  behind ← found_at id (Dict.get dependents id)
  indegree ← lower_all behind w.indegree
  release dependents ids (record { remaining = remaining; indegree = indegree })

-- The tables that the loop reads.
pub record Tables : Type 0 where
  pub flow : String
  pub order : Dict ℕ
  pub stage_map : Dict Stage
  pub dependents : Dict (List String)

-- if not ready_ids: raise CompileError
unfoldable pub check_ready : Tables → List String → List String → Result (Unit {0})
check_ready t remaining [] = do
  blocked ← sorted_by t.order remaining
  raise (compile_error (cycle_involving t.flow blocked))
check_ready t remaining (id ∷ ids) = ok tt

-- `while remaining`, for at most `rounds` rounds.
unfoldable pub waves_from : ℕ → Tables → List String → Dict ℤ → Result (List (List Stage))
waves_from rounds t [] indegree = ok []
waves_from zero t (id ∷ ids) indegree = raise no_rounds_left
waves_from (suc rounds) t (id ∷ ids) indegree = do
  free ← free_among indegree (id ∷ ids)
  ready ← sorted_by t.order free
  check_ready t (id ∷ ids) ready
  wave ← items_at t.stage_map ready
  w ← release t.dependents ready (record { remaining = id ∷ ids; indegree = indegree })
  waves ← waves_from rounds t w.remaining w.indegree
  ok (wave ∷ waves)

abbrev pub order_of : List Stage → Dict ℕ
order_of stages = order_onto 0 [] stages

abbrev pub stages_by_id : List Stage → Dict Stage
stages_by_id stages = table_onto (λ stage. stage) [] stages

abbrev pub indegrees : List Stage → Dict ℤ
indegrees stages = table_onto (λ stage. pos (length stage.needs)) [] stages

abbrev pub no_dependents : List Stage → Dict (List String)
no_dependents stages = table_onto (λ stage. []) [] stages

-- A round takes away at least one stage, so there are no more rounds than stages.
unfoldable pub topological_waves : Flow → Result (List (List Stage))
topological_waves flow = do
  let stage_map = stages_by_id flow.stages
  dependents ← link_stages flow.id stage_map flow.stages (no_dependents flow.stages)
  let t : Tables = record {
    flow = flow.id;
    order = order_of flow.stages;
    stage_map = stage_map;
    dependents = dependents;
  }
  waves_from (length (keys stage_map)) t (keys stage_map) (indegrees flow.stages)

-- `if text`: an empty text counts as none.
abbrev pub given : Option String → Option String
given none = none
given (some t) = if t == "" then none else some t

-- A flow, and the id of the entry point that named it.
pub record Selected : Type 0 where
  pub flow : Flow
  pub entrypoint : Option String

-- pack.flow_map[entrypoint.flow], entrypoint.id
unfoldable pub flow_of_entrypoint : DomainPack → EntryPoint → Result Selected
flow_of_entrypoint pack entrypoint = do
  flow ← found_at entrypoint.flow (Dict.get (flow_map pack) entrypoint.flow)
  ok (record { flow = flow; entrypoint = some entrypoint.id })

-- The part of `_resolve_flow` behind the two options.
unfoldable pub only_flow : DomainPack → List EntryPoint → List Flow → Result Selected
unfolding flow_of_entrypoint
only_flow pack (entrypoint ∷ []) flows = flow_of_entrypoint pack entrypoint
only_flow pack entrypoints (flow ∷ []) = ok (record { flow = flow; entrypoint = none })
only_flow pack entrypoints flows = raise (compile_error several_flows)

abbrev pub known_or {ℓ} : {A : Type ℓ} → CompileReason → Option A → Result A
known_or reason none = raise (compile_error reason)
known_or reason (some a) = ok a

unfoldable pub resolve_given : DomainPack → Option String → Option String → Result Selected
unfolding flow_of_entrypoint only_flow
resolve_given pack (some flow_id) (some entrypoint_id) = raise (compile_error flow_and_entrypoint)
resolve_given pack none (some entrypoint_id) = do
  entrypoint ←
      known_or (unknown_entrypoint entrypoint_id) (Dict.get (entrypoint_map pack) entrypoint_id)
  flow_of_entrypoint pack entrypoint
resolve_given pack (some flow_id) none = do
  flow ← known_or (unknown_flow flow_id) (Dict.get (flow_map pack) flow_id)
  ok (record { flow = flow; entrypoint = none })
resolve_given pack none none = only_flow pack pack.entrypoints pack.flows

unfoldable pub resolve_flow : DomainPack → (flow_id entrypoint_id : Option String) → Result Selected
unfolding resolve_given
resolve_flow pack flow_id entrypoint_id = resolve_given pack (given flow_id) (given entrypoint_id)

unfoldable pub compile_stages : DomainPack → List Stage → Result (List CompiledStage)
compile_stages pack [] = ok []
compile_stages pack (stage ∷ rest) = do
  compiled ← compile_stage pack stage
  others ← compile_stages pack rest
  ok (compiled ∷ others)

-- The waves, with their indexes from `index` on.
unfoldable pub compile_waves : DomainPack → ℕ → List (List Stage) → Result (List Wave)
unfolding compile_stages
compile_waves pack index [] = ok []
compile_waves pack index (wave ∷ waves) = do
  compiled ← compile_stages pack wave
  others ← compile_waves pack (suc index) waves
  ok (record { index = index; stages = compiled } ∷ others)

unfoldable pub compile_plan :
    DomainPack → (flow_id entrypoint_id : Option String) → Result ExecutionPlan
compile_plan pack flow_id entrypoint_id = do
  selected ← resolve_flow pack flow_id entrypoint_id
  stage_waves ← topological_waves selected.flow
  waves ← compile_waves pack 0 stage_waves
  ok (record {
    domain_name = pack.metadata.name;
    domain_version = pack.metadata.version;
    flow = selected.flow.id;
    entrypoint = selected.entrypoint;
    input_schema = selected.flow.input_schema;
    waves = waves;
  })
