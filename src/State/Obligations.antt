-- ===== src/State/Obligations.antt =====
-- The obligations of a compiled stage, as the kernel looks them up.
use contractplane.Prelude.Dict
use contractplane.Prelude.Dict.{Dict, index_onto, get-put}
use contractplane.Prelude.{
  String, ◌≡◌, sym, ap, ◌∙◌, inl, inr, true, Option, none, some, List, [], ◌∷◌, arith, ◌==◌, eq_iff,
  Bool-cases, any,
}
use contractplane.Json.{str}
use contractplane.Errors.{evidence_not_required, ok, >>=-eq-ok, ok-injective}
use contractplane.Plan.{CompiledStage}
use contractplane.State.{or_refuse}
use contractplane.State.Validate.{find_evidence, evidence_contract}
use contractplane.Models.{
  Evidence, Stage, DomainPack, found_at, capability_map, evidence_map, policy_for,
}
use contractplane.Plan.Compile.{evidence_of, compile_stage}

-- Every value stands under its id.
Keyed {ℓ} : {V : Type ℓ} → (V → String) → Dict V → Type ℓ
Keyed {V = V} id d = (k : String) (v : V) → Dict.get d k ≡ some v → id v ≡ k

put-Keyed {ℓ} :
    {V : Type ℓ} (id : V → String) (d : Dict V) (x : V)
    → Keyed id d
    → Keyed id (Dict.put d (id x) x)
unfolding Keyed
put-Keyed id d x keyed k v found =
    let e = sym (get-put d (id x) k x) ∙ found in
    elim (Bool-cases (id x == k)) [
      | inl here ↦
          let same : x ≡ v = ground arith in ap id (sym same) ∙ ground (arith, eq_iff (id x) k)
      | inr elsewhere ↦ keyed k v (ground arith)
    ]

index_onto-Keyed {ℓ} :
    {V : Type ℓ} (id : V → String) (d : Dict V) (xs : List V)
    → Keyed id d
    → Keyed id (index_onto id d xs)
unfolding index_onto
index_onto-Keyed id d [] keyed = keyed
index_onto-Keyed id d (x ∷ xs) keyed =
    index_onto-Keyed id (Dict.put d (id x) x) xs (put-Keyed id d x keyed)

evidence_map-Keyed : (pack : DomainPack) → Keyed (λ e. e.id) (evidence_map pack)
unfolding Keyed Dict.get
evidence_map-Keyed pack = index_onto-Keyed (λ e. e.id) [] pack.evidence (λ k v found. cc)

found_at-eq-ok {ℓ} :
    {A : Type ℓ} (key : String) (o : Option A) {a : A} → found_at key o ≡ ok a → o ≡ some a
found_at-eq-ok key none h = cc
found_at-eq-ok key (some a) h = cc

find_evidence-evidence_of :
    (d : Dict Evidence) (ids : List String) (contracts : List Evidence) (id : String)
    → Keyed (λ e. e.id) d
    → evidence_of d ids ≡ ok contracts
    → any (λ k. k == id) ids ≡ true
    → (e : Evidence) × (find_evidence contracts (str id) ≡ some e) × (Dict.get d id ≡ some e)
unfolding evidence_of find_evidence Keyed
find_evidence-evidence_of d [] contracts id keyed h there = cc
find_evidence-evidence_of d (k ∷ ks) contracts id keyed h there =
    let (e, found, h₁) = >>=-eq-ok (found_at k (Dict.get d k)) _ h in
    let (es, rest, result) = >>=-eq-ok (evidence_of d ks) _ h₁ in
    let at = found_at-eq-ok k (Dict.get d k) found in
    let named = keyed k e at in
    let whole = ok-injective result in
    elim (Bool-cases (k == id)) [
      | inl here ↦
          let same : k ≡ id = ground (arith, eq_iff k id) in
          (e, rw (← whole) (ground (arith, eq_iff id e.id)), rw (← same) at)
      | inr elsewhere ↦
          let (e', search_rest, at') =
            find_evidence-evidence_of d ks es id keyed rest (ground arith) in
          (e', rw (← whole) (ground (arith, eq_iff id e.id, eq_iff k id)), at')
    ]

-- If a stage compiles, then for each of its required evidence ids the kernel finds a contract in
-- the compiled stage, and this is the one that the pack declares under the id.
pub compile_stage-evidence_contract :
    (pack : DomainPack) (stage : Stage) (compiled : CompiledStage) (id : String)
    → compile_stage pack stage ≡ ok compiled
    → any (λ k. k == id) compiled.requires_evidence ≡ true
    → (e : Evidence) × (evidence_contract compiled (str id) ≡ ok e)
      × (Dict.get (evidence_map pack) id ≡ some e)
unfolding compile_stage evidence_contract
compile_stage-evidence_contract pack stage compiled id h there =
    let (capability, _, h₁) =
      >>=-eq-ok (found_at stage.capability (Dict.get (capability_map pack) stage.capability)) _ h in
    let (policy, _, h₂) = >>=-eq-ok (policy_for pack stage) _ h₁ in
    let (contracts, listed, result) =
      >>=-eq-ok (evidence_of (evidence_map pack) stage.requires_evidence) _ h₂ in
    let whole = ok-injective result in
    let (e, found, at) =
      find_evidence-evidence_of (evidence_map pack) stage.requires_evidence contracts id
        (evidence_map-Keyed pack) listed
        (ap (λ s. any (λ k. k == id) s.requires_evidence) whole ∙ there) in
    (
      e,
      ap (λ s. evidence_contract s (str id)) (sym whole)
          ∙ ap (or_refuse evidence_not_required) found,
      at,
    )
