-- ===== src/Loader/Checked.antt =====
-- What a pack without semantic issues is like.
use contractplane.Prelude.Dict
use contractplane.Prelude.Dict.{get-put}
use contractplane.Prelude.{
  ℕ, suc, String, ◌≡◌, refl, sym, ap, ◌∙◌, subst, inl, inr, Bool, true, false, not, ◌&&◌, List, [],
  ◌∷◌, ◌++◌, map, arith, eq_iff, Bool-cases, Option-cases, all, contains, are_distinct, Member,
}
use contractplane.Errors.{PathPart, IssueMessage, ValidationIssue, ok, >>=-eq-ok, ok-injective}
use contractplane.Platform.{Platform}
use contractplane.Models.{Stage, Flow, DomainPack, capability_map}
use contractplane.Compiler.{ids_of}
use contractplane.Compiler.Agrees.{needs_known}
use contractplane.Loader.Queue.{cycle_nodes}
use contractplane.Loader.Issues.{
  joined, issue_if, each_item, duplicates_from, is_given, unknown_ids, need_issues, or_empty,
  stage_issues, flow_issues, all_flow_issues, semantic_issues,
}

-- No part of an empty list has a member.
append-eq-nil : {A : Type 0} (xs ys : List A) → xs ++ ys ≡ [] → (xs ≡ []) × (ys ≡ [])
append-eq-nil [] ys h = (refl, h)
append-eq-nil (x ∷ xs) ys h = cc

abbrev AllEmpty : List (List ValidationIssue) → Type 0
AllEmpty [] = Unit
AllEmpty (part ∷ parts) = (part ≡ []) × AllEmpty parts

joined-eq-nil : (parts : List (List ValidationIssue)) → joined parts ≡ [] → AllEmpty parts
unfolding joined
joined-eq-nil [] h = tt
joined-eq-nil (part ∷ parts) h =
    let (here, later) = append-eq-nil part (joined parts) h in (here, joined-eq-nil parts later)

issue_if-eq-nil :
    (b : Bool) (path : List PathPart) (m : IssueMessage) → issue_if b path m ≡ [] → b ≡ false
issue_if-eq-nil true path m h = cc
issue_if-eq-nil false path m h = refl

each_item-eq-nil :
    {A : Type 0} (round : ℕ → A → List ValidationIssue) (n : ℕ) (xs : List A)
    → each_item round n xs ≡ []
    → (x : A) → Member x xs
    → (i : ℕ) × (round i x ≡ [])
unfolding each_item
each_item-eq-nil round n [] h x m = absurd m
each_item-eq-nil round n (y ∷ ys) h x m =
    let (here, later) = append-eq-nil (round n y) (each_item round (suc n) ys) h in
    elim m [
      | inl same ↦ (n, ap (round n) (sym same) ∙ here)
      | inr rest ↦ each_item-eq-nil round (suc n) ys later x rest
    ]

-- A test of all members, from what no round says of them.
each_item-all :
    {A : Type 0} (p : A → Bool) (round : ℕ → A → List ValidationIssue)
    → ((i : ℕ) (x : A) → round i x ≡ [] → p x ≡ true)
    → (n : ℕ) (xs : List A) → each_item round n xs ≡ []
    → all p xs ≡ true
unfolding each_item
each_item-all p round good n [] h = refl
each_item-all p round good n (x ∷ xs) h =
    let (here, later) = append-eq-nil (round n x) (each_item round (suc n) xs) h in
    rw (good n x here) (each_item-all p round good (suc n) xs later)

duplicates_from-eq-nil :
    (path : List PathPart) (n : ℕ) (seen : Dict.Dict ℕ) (ids : List String)
    → duplicates_from path n seen ids ≡ []
    → (are_distinct ids ≡ true) × ((k : String) → contains ids k ≡ true → Dict.has seen k ≡ false)
unfolding duplicates_from
duplicates_from-eq-nil path n seen [] h = (refl, λ k m. cc)
duplicates_from-eq-nil path n seen (id ∷ ids) h = elim (Option-cases (Dict.get seen id)) [
  | inl e ↦
      let (distinct, new) =
        duplicates_from-eq-nil path (suc n) (Dict.put seen id n) ids (let r = h in ground arith) in
      let apart : contains ids id ≡ false = elim (Bool-cases (contains ids id)) [
        | inl twice ↦ let no = new id twice in ground (arith, get-put seen id id n, eq_iff id id)
        | inr a ↦ a
      ] in
      (
        ground arith,
        λ k m. elim (Bool-cases (contains ids k)) [
          | inl later ↦ let no = new k later in ground (arith, get-put seen id k n)
          | inr a ↦ ground (arith, eq_iff id k)
        ],
      )
  | inr (first, e) ↦ ground arith
]

-- What the compiler takes from a stage of an accepted pack.
pub record StageChecked (pack : DomainPack) (stage : Stage) : Type 0 where
  pub capability_known : Dict.has (capability_map pack) stage.capability ≡ true
  pub evidence_known :
      all (contains (map (λ evidence. evidence.id) pack.evidence)) stage.requires_evidence ≡ true
  pub policy_known :
      (is_given stage.policy
        && not (contains (map (λ policy. policy.id) pack.policies) (or_empty stage.policy)))
      ≡ false

module _ (pack : DomainPack) (flow : Flow) (f n : ℕ) (stage : Stage)
    (h : stage_issues pack f flow n stage ≡ []) where
  stage_issues-eq-nil :
      StageChecked pack stage × (all (contains (ids_of flow.stages)) stage.needs ≡ true)
  unfolding stage_issues need_issues unknown_ids
  stage_issues-eq-nil =
      let (
        capability,
        (role_known, (role_wanted, (role_lists, (needs, (evidence, (policy, rest)))))),
      ) =
        joined-eq-nil _ h in
      let known = issue_if-eq-nil _ _ _ capability in
      (
        record {
          capability_known = ground (arith, known);
          evidence_known =
              each_item-all (contains (map (λ x. x.id) pack.evidence)) _
                (λ i id e. ground (arith, e)) 0 stage.requires_evidence evidence;
          policy_known = issue_if-eq-nil _ _ _ policy;
        },
        each_item-all (contains (ids_of flow.stages)) _ (λ i need e. ground (arith, e)) 0
            stage.needs needs,
      )

-- What the compiler takes from a flow of an accepted pack.
pub record FlowChecked (pack : DomainPack) (flow : Flow) : Type 0 where
  pub distinct : are_distinct (ids_of flow.stages) ≡ true
  pub needs_fine : needs_known flow.stages ≡ true
  pub acyclic : cycle_nodes flow ≡ ok []
  pub stages_fine : (s : Stage) → Member s flow.stages → StageChecked pack s

module _ (platform : Platform) (pack : DomainPack) where
  flow_issues-eq-nil :
      (f : ℕ) (flow : Flow) → flow_issues platform pack f flow ≡ ok [] → FlowChecked pack flow
  unfolding flow_issues
  flow_issues-eq-nil f flow h =
      let (cycle, found, h₁) = >>=-eq-ok (cycle_nodes flow) _ h in
      let (schema, (duplicates, (stages, (cyclic, rest)))) = joined-eq-nil _ (ok-injective h₁) in
      let empty = issue_if-eq-nil _ _ _ cyclic in
      record {
        distinct = (duplicates_from-eq-nil _ 0 [] _ duplicates).0;
        needs_fine =
            each_item-all _ (stage_issues pack f flow)
              (λ i s e. (stage_issues-eq-nil pack flow f i s e).1) 0 flow.stages stages;
        acyclic = found ∙ ap ok (let e : cycle ≡ [] = ground (arith, empty) in e);
        stages_fine = λ s m.
            let (i, e) = each_item-eq-nil (stage_issues pack f flow) 0 flow.stages stages s m in
            (stage_issues-eq-nil pack flow f i s e).0;
      }

  all_flow_issues-eq-nil :
      (n : ℕ) (flows : List Flow)
      → all_flow_issues platform pack n flows ≡ ok []
      → (flow : Flow) → Member flow flows
      → FlowChecked pack flow
  unfolding all_flow_issues
  all_flow_issues-eq-nil n [] h flow m = absurd m
  all_flow_issues-eq-nil n (x ∷ xs) h flow m =
      let (issues, found, h₁) = >>=-eq-ok (flow_issues platform pack n x) _ h in
      let (rest, others, h₂) = >>=-eq-ok (all_flow_issues platform pack (suc n) xs) _ h₁ in
      let (no_issues, no_others) = append-eq-nil issues rest (ok-injective h₂) in
      elim m [
        | inl same ↦
            subst (FlowChecked pack) same (flow_issues-eq-nil n x (found ∙ ap ok no_issues))
        | inr later ↦ all_flow_issues-eq-nil (suc n) xs (others ∙ ap ok no_others) flow later
      ]

  -- What holds of a pack without semantic issues.
  pub semantic_issues-eq-nil :
      semantic_issues platform pack ≡ ok []
      → (contains (map (λ policy. policy.id) pack.policies) pack.default_policy ≡ true)
        × ((flow : Flow) → Member flow pack.flows → FlowChecked pack flow)
  unfolding semantic_issues
  semantic_issues-eq-nil h =
      let (in_flows, found, h₁) = >>=-eq-ok (all_flow_issues platform pack 0 pack.flows) _ h in
      let (a, (b, (c, (d, (e, (f, (default, (g, (i, (j, (flows, rest))))))))))) =
        joined-eq-nil _ (ok-injective h₁) in
      let known = issue_if-eq-nil _ _ _ default in
      (ground (arith, known), all_flow_issues-eq-nil 0 pack.flows (found ∙ ap ok flows))
