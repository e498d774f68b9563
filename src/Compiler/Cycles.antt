-- ===== src/Compiler/Cycles.antt =====
-- When `topological_waves` raises: the stages that are left wait for one another, and a flow whose
-- needs go down some order has its waves.
use contractplane.Prelude.{
  ℕ, zero, suc, ◌<◌, String, ◌≡◌, refl, sym, ap, ◌∙◌, subst, ◌≢◌, inl, inr, Bool, true, false, not,
  List, [], ◌∷◌, arith, ◌==◌, eq_iff, Bool-cases, length, all, any, is_empty, contains,
  are_distinct, Member, Member-keep, keep-Member,
}
use contractplane.Errors.{cycle_involving, compile_error, no_rounds_left, Result, ok, raise}
use contractplane.Models.{Stage, Flow}
use contractplane.Compiler.{ids_of, topological_waves}
use contractplane.Compiler.Lookup.{Member-ids_of}
use contractplane.Compiler.Reference.{
  is_free, ready_of, rest_of, with_ready, rounds, reference_waves,
}
use contractplane.Compiler.Agrees.{needs_known, topological_waves-eq-reference_waves}
use contractplane.Compiler.Rounds.{topological_waves-ends}

-- Stages that wait for one another: each needs one of them.
pub record IsBlocked (stages : List Stage) (blocked : List String) : Type 0 where
  pub filled : is_empty blocked ≡ false
  pub known : (k : String) → contains blocked k ≡ true → contains (ids_of stages) k ≡ true
  pub waiting :
      (s : Stage)
      → Member s stages
      → contains blocked s.id ≡ true
      → any (contains blocked) s.needs ≡ true

-- The stage of an id.
pub stage_at :
    (ss : List Stage) (k : String)
    → contains (ids_of ss) k ≡ true
    → (s : Stage) × Member s ss × (s.id ≡ k)
stage_at [] k h = cc
stage_at (s ∷ ss) k h = elim (Bool-cases (s.id == k)) [
  | inl here ↦ (s, inl refl, ground (arith, eq_iff s.id k))
  | inr elsewhere ↦ let (x, m, same) = stage_at ss k (ground arith) in (x, inr m, same)
]

-- Without an id twice, a stage of a part's id is in the part.
pub part-Member :
    (ss : List Stage) (s x : Stage)
    → are_distinct (ids_of ss) ≡ true
    → Member s ss
    → Member x ss
    → x.id ≡ s.id
    → x ≡ s
part-Member [] s x distinct m n same = absurd m
part-Member (y ∷ ys) s x distinct (inl a) (inl b) same = sym b ∙ a
part-Member (y ∷ ys) s x distinct (inl a) (inr n) same =
    let twice = Member-ids_of x ys n in
    let e : y.id ≡ x.id = ap (λ z. z.id) a ∙ sym same in
    let absent : contains (ids_of ys) y.id ≡ false = ground (arith) in
    let there : contains (ids_of ys) y.id ≡ true = ap (contains (ids_of ys)) e ∙ twice in cc
part-Member (y ∷ ys) s x distinct (inr m) (inl b) same =
    let twice = Member-ids_of s ys m in
    let e : y.id ≡ s.id = ap (λ z. z.id) b ∙ same in
    let absent : contains (ids_of ys) y.id ≡ false = ground (arith) in
    let there : contains (ids_of ys) y.id ≡ true = ap (contains (ids_of ys)) e ∙ twice in cc
part-Member (y ∷ ys) s x distinct (inr m) (inr n) same = part-Member ys s x (ground arith) m n same

waits_on_one :
    (p : String → Bool) (ks : List String) → all (λ k. not (p k)) ks ≡ false → any p ks ≡ true
waits_on_one p [] h = cc
waits_on_one p (k ∷ ks) h = ground (arith, waits_on_one p ks)

any_at :
    (p : String → Bool) (ks : List String)
    → any p ks ≡ true
    → (k : String) × (contains ks k ≡ true) × (p k ≡ true)
any_at p [] h = cc
any_at p (k ∷ ks) h = elim (Bool-cases (p k)) [
  | inl holds ↦ (k, ground (arith, eq_iff k k), holds)
  | inr fails ↦ let (j, there, holds) = any_at p ks (ground arith) in (j, ground arith, holds)
]

none_free :
    (pending : List Stage) (s : Stage)
    → ready_of pending ≡ []
    → Member s pending
    → is_free pending s ≡ false
none_free pending s none_ready m = elim (Bool-cases (is_free pending s)) [
  | inl free ↦ absurd (subst (Member s) none_ready (keep-Member (is_free pending) s pending m free))
  | inr waits ↦ waits
]

-- What a part of the stages is left with when none of it is free.
left-IsBlocked :
    (stages pending : List Stage)
    → are_distinct (ids_of stages) ≡ true
    → ((s : Stage) → Member s pending → Member s stages)
    → is_empty (ids_of pending) ≡ false
    → ready_of pending ≡ []
    → IsBlocked stages (ids_of pending)
left-IsBlocked stages pending distinct inside filled none_ready = record {
  filled = filled;
  known = λ k h.
      let (s, m, same) = stage_at pending k h in
      subst (λ j. contains (ids_of stages) j ≡ true) same (Member-ids_of s stages (inside s m));
  waiting = λ s m h.
      let (x, n, same) = stage_at pending s.id h in
      let e = part-Member stages s x distinct m (inside x n) same in
      waits_on_one (contains (ids_of pending)) s.needs
        (none_free pending s none_ready (subst (λ y. Member y pending) e n));
}

data Ends (stages : List Stage) (flow : String) : Result (List (List Stage)) → Type 0 where
  scheduled : (waves : List (List Stage)) → Ends stages flow (ok waves)
  blocked_at :
      (blocked : List String)
      → IsBlocked stages blocked
      → Ends stages flow (raise (compile_error (cycle_involving flow blocked)))
  out_of_rounds : Ends stages flow (raise no_rounds_left)

with_ready-Ends :
    (stages : List Stage) (flow : String) (pending ready : List Stage)
    (rest : Result (List (List Stage)))
    → (ready ≡ [] → IsBlocked stages (ids_of pending))
    → Ends stages flow rest
    → Ends stages flow (with_ready flow pending ready rest)
with_ready-Ends stages flow pending [] rest left e = blocked_at (ids_of pending) (left refl)
with_ready-Ends stages flow pending (s ∷ ss) rest left (scheduled waves) = scheduled _
with_ready-Ends stages flow pending (s ∷ ss) rest left (blocked_at blocked b) = blocked_at blocked b
with_ready-Ends stages flow pending (s ∷ ss) rest left out_of_rounds = out_of_rounds

rounds-Ends :
    (stages : List Stage) (bound : ℕ) (flow : String) (pending : List Stage)
    → are_distinct (ids_of stages) ≡ true
    → ((s : Stage) → Member s pending → Member s stages)
    → Ends stages flow (rounds bound flow pending)
unfolding rounds
rounds-Ends stages bound flow [] distinct inside = scheduled []
rounds-Ends stages zero flow (s ∷ ss) distinct inside = out_of_rounds
rounds-Ends stages (suc bound) flow (s ∷ ss) distinct inside =
    let pending = s ∷ ss in
    let left = λ (x : Stage). not (is_free pending x) in
    with_ready-Ends stages flow pending (ready_of pending) _
      (λ none_ready. left-IsBlocked stages pending distinct inside refl none_ready)
      (rounds-Ends stages bound flow (rest_of pending) distinct
        (λ x m. inside x (Member-keep left x pending m).0))

-- What `topological_waves` ends with, where the ids are distinct and the needs are known.
Ends-topological_waves :
    (flow : Flow)
    → are_distinct (ids_of flow.stages) ≡ true
    → needs_known flow.stages ≡ true
    → Ends flow.stages flow.id (topological_waves flow)
unfolding reference_waves
Ends-topological_waves flow distinct known =
    subst (Ends flow.stages flow.id)
      (sym (topological_waves-eq-reference_waves flow distinct known))
      (rounds-Ends flow.stages (length flow.stages) flow.id flow.stages distinct (λ s m. m))

Ends-cycle :
    {stages : List Stage} {flow f : String} {blocked : List String}
    → Ends stages flow (raise (compile_error (cycle_involving f blocked)))
    → IsBlocked stages blocked
Ends-cycle (blocked_at blocked b) = b

-- If the ids of a flow's stages are distinct and their needs are known, and `topological_waves`
-- raises that there is a cycle that involves certain stages, then there are such stages, and each
-- of them needs one of them.
pub topological_waves-IsBlocked :
    (flow : Flow) (id : String) (blocked : List String)
    → are_distinct (ids_of flow.stages) ≡ true
    → needs_known flow.stages ≡ true
    → topological_waves flow ≡ raise (compile_error (cycle_involving id blocked))
    → IsBlocked flow.stages blocked
topological_waves-IsBlocked flow id blocked distinct known h =
    Ends-cycle (subst (Ends flow.stages flow.id) h (Ends-topological_waves flow distinct known))

-- Every need of a stage stands lower than the stage.
pub record Descends (stages : List Stage) (rank : String → ℕ) : Type 0 where
  pub lower :
      (s : Stage)
      → Member s stages
      → (need : String) → contains s.needs need ≡ true
      → rank need < rank s.id

-- Then no stages wait for one another: a need of theirs always stands lower.
not-IsBlocked :
    (stages : List Stage) (rank : String → ℕ) (blocked : List String) (bound : ℕ) (k : String)
    → Descends stages rank
    → IsBlocked stages blocked
    → contains blocked k ≡ true
    → rank k < bound
    → ⊥
not-IsBlocked stages rank blocked zero k d b h low = omega arith
not-IsBlocked stages rank blocked (suc bound) k d b h low =
    let (s, m, same) = stage_at stages k (b.known k h) in
    let (need, wanted, next) =
      any_at (contains blocked) s.needs
        (b.waiting s m (subst (λ j. contains blocked j ≡ true) (sym same) h)) in
    let lower = d.lower s m need wanted in
    let e : rank s.id ≡ rank k = ap rank same in
    not-IsBlocked stages rank blocked bound need d b next (omega arith)

first_at : (ks : List String) → is_empty ks ≡ false → (k : String) × (contains ks k ≡ true)
first_at [] h = cc
first_at (k ∷ ks) h = (k, ground (arith, eq_iff k k))

Ends-ok :
    (stages : List Stage) (flow : String) (rank : String → ℕ) (r : Result (List (List Stage)))
    → Descends stages rank
    → r ≢ raise no_rounds_left
    → Ends stages flow r
    → (waves : List (List Stage)) × (r ≡ ok waves)
Ends-ok stages flow rank _ d enough (scheduled waves) = (waves, refl)
Ends-ok stages flow rank _ d enough (blocked_at blocked b) =
    let (k, there) = first_at blocked b.filled in
    absurd (not-IsBlocked stages rank blocked (suc (rank k)) k d b there (omega arith))
Ends-ok stages flow rank _ d enough out_of_rounds = absurd (enough refl)

-- If the ids of a flow's stages are distinct, their needs are known, and there is a ranking of the
-- ids in which every need of a stage stands lower than the stage, then `topological_waves` returns
-- waves.
pub topological_waves-total :
    (flow : Flow) (rank : String → ℕ)
    → are_distinct (ids_of flow.stages) ≡ true
    → needs_known flow.stages ≡ true
    → Descends flow.stages rank
    → (waves : List (List Stage)) × (topological_waves flow ≡ ok waves)
topological_waves-total flow rank distinct known d =
    Ends-ok flow.stages flow.id rank (topological_waves flow) d (topological_waves-ends flow)
      (Ends-topological_waves flow distinct known)
