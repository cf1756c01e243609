-- ===== src/Tests/Conditions.antt =====
-- Conditions as operatorpkg sets them.
use karpenter_provider_hetzn.Base.{
  String, ◌≡◌, refl, inl, inr, Bool, true, false, ◌&&◌, Option, none, some, List, ◌∷◌, str_eq,
  eq_iff, if◌then◌else◌, Bool-cases,
}
use karpenter_provider_hetzn.Base.Int.{ℤ}
use karpenter_provider_hetzn.Errors.{Error}
use karpenter_provider_hetzn.Api.{}
use karpenter_provider_hetzn.Api.NodeClass.{
  ConditionStatus, condition_true, condition_false, condition_unknown, Condition, HCloudNodeClass,
  condition_type_images_ready, condition_type_network_ready, condition_type_resources_ready,
  condition_type_user_data_ready, images_ready_generation, resolved_images_generation,
}
use karpenter_provider_hetzn.InstanceType.{}
use karpenter_provider_hetzn.Controller.{
  SetCondition, condition_ready, condition_status, has_condition, IsSetCondition,
}
use karpenter_provider_hetzn.Tests.Fixtures.{images_condition}

-- The conditions, with ImagesReady added where it is missing.
abbrev with_images_ready : HCloudNodeClass → List Condition
with_images_ready nc =
    if has_condition condition_type_images_ready nc
    then nc.status.conditions
    else images_condition nc.generation ∷ nc.status.conditions

is_true : List Condition → String → Bool
unfolding condition_status
is_true cs t = elim (condition_status t cs) [
  | some condition_true ↦ true
  | some condition_false ↦ false
  | some condition_unknown ↦ false
  | none ↦ false
]

-- Ready, true exactly if the four others are.
ready_of : ℤ → List Condition → Condition
unfolding is_true
ready_of generation cs = record {
  type = condition_ready;
  status =
      if is_true cs condition_type_images_ready
        && (is_true cs condition_type_network_ready
            && (is_true cs condition_type_resources_ready
                && is_true cs condition_type_user_data_ready))
      then condition_true
      else condition_unknown;
  reason = "";
  message = none;
  observed_generation = generation;
}

abbrev with_ready : ℤ → List Condition → List Condition
with_ready generation cs = ready_of generation cs ∷ cs

-- A condition that is set goes before the others, and Ready before it.
unfoldable pub set_condition : SetCondition
unfolding ready_of
set_condition t s r m nc = record nc {
  status = record nc.status {
    conditions = with_ready nc.generation (
        record {
          type = t;
          status = s;
          reason = r;
          message = m;
          observed_generation = nc.generation;
        }
        ∷ with_images_ready nc);
  };
}

str_eq_refl : (s : String) → str_eq s s ≡ true
str_eq_refl s = (eq_iff s s).1 refl

set_condition-stamp :
    (t : String) (s : ConditionStatus) (r : String) (m : Option Error) (nc : HCloudNodeClass)
    → str_eq t condition_type_images_ready ≡ false
    → resolved_images_generation (set_condition t s r m nc) ≡ (
        if has_condition condition_type_images_ready nc
        then resolved_images_generation nc
        else nc.generation)
unfolding resolved_images_generation images_ready_generation ready_of set_condition
set_condition-stamp t s r m nc other =
    elim (Bool-cases (has_condition condition_type_images_ready nc)) [
      | inl there ↦ rw (other, there) refl
      | inr missing ↦ rw (other, missing) refl
    ]

set_condition-status :
    (t t' : String) (s s' : ConditionStatus) (r : String) (m : Option Error) (nc : HCloudNodeClass)
    → str_eq t t' ≡ false
    → str_eq condition_ready t' ≡ false
    → condition_status t' nc.status.conditions ≡ some s'
    → condition_status t' (set_condition t s r m nc).status.conditions ≡ some s'
unfolding condition_status ready_of set_condition
set_condition-status t t' s s' r m nc other dependent h =
    elim (Bool-cases (has_condition condition_type_images_ready nc)) [
      | inl there ↦ rw (dependent, other, there) h
      | inr missing ↦ elim (Bool-cases (str_eq condition_type_images_ready t')) [
        | inl same ↦
            let e : condition_type_images_ready ≡ t' =
              (eq_iff condition_type_images_ready t').0 same in
            let there : condition_status condition_type_images_ready nc.status.conditions
                ≡ some s' =
              rw e h in
            absurd (cc (rw there at missing))
        | inr differ ↦ rw (dependent, other, missing, differ) h
      ]
    ]

pub set_condition-IsSetCondition : IsSetCondition set_condition
unfolding resolved_images_generation images_ready_generation condition_status ready_of set_condition
set_condition-IsSetCondition = record {
  keeps_spec = λ t s r m nc. refl;
  keeps_generation = λ t s r m nc. refl;
  keeps_images = λ t s r m nc. refl;
  stamps = λ s r m nc. refl;
  stamp_lem = set_condition-stamp;
  keeps_status = set_condition-status;
  stores = λ t s r m nc dependent. rw (dependent, str_eq_refl t) refl;
}
