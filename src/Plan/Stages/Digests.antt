-- ===== src/Plan/Stages/Digests.antt =====
-- Normalising an approval's digest again changes nothing.
use pane_fleet.Base.{
  ◌≡◌, refl, ap, ◌∙◌, true, Bool-cases, inl, inr, arith, [], ◌∷◌, Text, is_empty, is_hex, every,
}
use pane_fleet.Delivery.Fields.{is_digest}
use pane_fleet.Delivery.Fields.Ids.{inline-hex}
use pane_fleet.Plan.Types.{PlanHost, Plan}
use pane_fleet.Plan.Normal.{normalized_lower, normalize_delivery_plan, normalized_approval}
use pane_fleet.Plan.Shape.{is_valid_approval}
use pane_fleet.Plan.Valid.{IsValidated}
use pane_fleet.Plan.Stages.{stage_of}

-- `String.prototype.toLowerCase` leaves digits and the letters a to f alone.
abbrev pub KeepsHex : PlanHost → Type 0
KeepsHex host = (s : Text) → every is_hex s ≡ true → host.platform.to_lower_case s ≡ s

lower-hex :
    (host : PlanHost)
    → KeepsHex host
    → (s : Text) → every is_hex s ≡ true
    → normalized_lower host s ≡ s
unfolding normalized_lower
lower-hex host keeps s h = rw (normalized_lower, inline-hex s h) (keeps s h)

every-hex-empty : (s : Text) → is_empty s ≡ true → every is_hex s ≡ true
every-hex-empty [] h = refl
every-hex-empty (c ∷ s) h = cc

whole-hex :
    (host : PlanHost) (plan : Plan)
    → is_valid_approval host plan.approval ≡ true
    → every is_hex plan.approval.digest ≡ true
unfolding is_valid_approval is_digest
whole-hex host plan h = elim (Bool-cases (is_empty plan.approval.digest)) [
  | inl e ↦ every-hex-empty plan.approval.digest e
  | inr e ↦ ground arith
]

pub lower-whole :
    (host : PlanHost)
    → KeepsHex host
    → (plan : Plan) → is_valid_approval host plan.approval ≡ true
    → normalized_lower host plan.approval.digest ≡ plan.approval.digest
lower-whole host keeps plan h = lower-hex host keeps plan.approval.digest (whole-hex host plan h)

-- Normalising a plan whose approval is then whole leaves its stage alone.
pub stage_of-normal :
    (host : PlanHost)
    → KeepsHex host
    → (value next : Plan) → next ≡ normalize_delivery_plan host value host.now
    → is_valid_approval host next.approval ≡ true
    → stage_of host next ≡ stage_of host value
unfolding normalize_delivery_plan normalized_approval
stage_of-normal host keeps value next normal whole =
    let same : normalized_lower host next.approval.digest
        ≡ normalized_lower host value.approval.digest =
      lower-whole host keeps next whole ∙ ap (λ (p : Plan). p.approval.digest) normal in
    let phase : next.phase ≡ value.phase = ap (λ (p : Plan). p.phase) normal in
    rw (same, phase) refl

-- The stage of a plan that validation returns.
pub stage_of-validated :
    (host : PlanHost)
    → KeepsHex host
    → (value next : Plan) → IsValidated host value next
    → stage_of host next ≡ stage_of host value
stage_of-validated host keeps value next v = stage_of-normal host keeps value next v.normal v.whole
