-- ===== src/State/Recorded.antt =====
-- What is known of an evidence event that `_validate_event` lets pass.
use contractplane.Prelude.{
  String, ◌≡◌, refl, sym, ap, ◌∙◌, ◌≢◌, inl, inr, Bool, true, false, not, some, List, [], ◌∷◌,
  arith, eq_iff, Option-cases,
}
use contractplane.Prelude.Dict.{has}
use contractplane.Json.{Json, null, bool, str, obj, Fields, get_field?, or_null, get_field, is_bool}
use contractplane.Errors.{
  TransitionReason, not_awaiting_evidence, evidence_again, accepted_not_bool, receipt_not_object,
  ok, refuse_if, >>=-eq-ok, refuse_if-eq-ok,
}
use contractplane.Models.{Evidence}
use contractplane.Plan.{CompiledStage}
use contractplane.Platform.{Platform}
use contractplane.State.UnitStep.{or_refuse-eq-ok}
use contractplane.State.{WorkUnitState, is_awaiting_evidence, item}
use contractplane.State.Kind.{evidence_recorded}
use contractplane.State.Validate.{
  find_evidence, evidence_contract, object_field, receipt_valid, validate_unit,
}

item-eq-ok : (p : Fields) (k : String) (v : Json) → get_field p k ≡ v → v ≢ null → item p k ≡ ok v
item-eq-ok p k v h n = elim (Option-cases (get_field? p k)) [
  | inl e ↦ absurd (n (sym h ∙ ap or_null e))
  | inr (w, e) ↦ rw e (ap ok (sym (ap or_null e) ∙ h))
]

-- The contract that is found has the id that was asked for.
find_evidence-id :
    (contracts : List Evidence) (v : Json) (e : Evidence)
    → find_evidence contracts v ≡ some e
    → v ≡ str e.id
unfolding find_evidence
find_evidence-id [] v e h = cc
find_evidence-id (x ∷ xs) (str t) e h = ground (arith, eq_iff t x.id, find_evidence-id xs (str t) e)
find_evidence-id (x ∷ xs) v e h = find_evidence-id xs v e h

evidence_contract-id :
    (contract : CompiledStage) (v : Json) (e : Evidence)
    → evidence_contract contract v ≡ ok e
    → v ≡ str e.id
unfolding evidence_contract
evidence_contract-id contract v e h =
    find_evidence-id contract.evidence_contracts v e (or_refuse-eq-ok _ _ h)

not-eq-false : (b : Bool) → not b ≡ false → b ≡ true
not-eq-false true h = refl
not-eq-false false h = cc

is_bool-eq-true : (v : Json) → is_bool v ≡ true → (b : Bool) × (v ≡ bool b)
is_bool-eq-true (bool b) h = (b, refl)
is_bool-eq-true _ h = cc

object_field-eq-ok :
    (r : TransitionReason) (v : Json) (fs : Fields) → object_field r v ≡ ok fs → v ≡ obj fs
object_field-eq-ok r (obj fs) gs h = ground arith
object_field-eq-ok r _ gs h = cc

-- What is known of an evidence event that is validated.
pub record Recorded (platform : Platform) (contract : CompiledStage) (p : Fields)
    (unit : WorkUnitState) : Type 0 where
  pub evidence : Evidence
  pub accepted : Bool
  pub receipt : Fields
  pub awaiting : is_awaiting_evidence unit.status ≡ true
  pub planned : evidence_contract contract (str evidence.id) ≡ ok evidence
  pub new : has unit.evidence evidence.id ≡ false
  pub id_field : item p "evidence" ≡ ok (str evidence.id)
  pub accepted_field : item p "accepted" ≡ ok (bool accepted)
  pub receipt_field : item p "receipt" ≡ ok (obj receipt)
  pub valid : accepted ≡ true → receipt_valid platform evidence.schema (obj receipt) ≡ true

module _ (platform : Platform) (contract : CompiledStage) where
  pub validate-Recorded :
      (p : Fields) (unit : WorkUnitState)
      → validate_unit platform evidence_recorded p contract unit ≡ ok tt
      → Recorded platform contract p unit
  unfolding validate_unit
  validate-Recorded p unit v =
      let (_, awaits, v₁) =
        >>=-eq-ok (refuse_if (not (is_awaiting_evidence unit.status)) not_awaiting_evidence) _ v in
      let (evidence, planned, v₂) =
        >>=-eq-ok (evidence_contract contract (get_field p "evidence")) _ v₁ in
      let (_, fresh, v₃) =
        >>=-eq-ok (refuse_if (has unit.evidence evidence.id) evidence_again) _ v₂ in
      let (_, boolean, v₄) =
        >>=-eq-ok (refuse_if (not (is_bool (get_field p "accepted"))) accepted_not_bool) _ v₃ in
      let (receipt, object, v₅) =
        >>=-eq-ok (object_field receipt_not_object (get_field p "receipt")) _ v₄ in
      let id_text = evidence_contract-id contract (get_field p "evidence") evidence planned in
      let (b, accepts) =
        is_bool-eq-true (get_field p "accepted") (not-eq-false _ (refuse_if-eq-ok _ _ boolean)) in
      let received = object_field-eq-ok receipt_not_object (get_field p "receipt") receipt object in
      record {
        evidence = evidence;
        accepted = b;
        receipt = receipt;
        awaiting = not-eq-false _ (refuse_if-eq-ok _ _ awaits);
        planned = rw (← id_text) planned;
        new = refuse_if-eq-ok _ _ fresh;
        id_field = item-eq-ok p "evidence" (str evidence.id) id_text (λ e. cc);
        accepted_field = item-eq-ok p "accepted" (bool b) accepts (λ e. cc);
        receipt_field = item-eq-ok p "receipt" (obj receipt) received (λ e. cc);
        valid = ground (arith, accepts, refuse_if-eq-ok _ _ v₅);
      }
