-- ===== src/Controller.antt =====
-- pkg/controllers/nodeclass/controller.go: the controller that keeps the status of an HCloudNodeClass.
-- The conditions are set by operatorpkg, a parameter with its documented behaviour.
pub mod Validation
pub mod Images
pub mod Reconcile
use karpenter_provider_hetzn.Base.{
  String, ◌≡◌, refl, inl, inr, Bool, false, not, Option, none, some, List, [], ◌∷◌, ◌++◌, str_eq,
  if◌then◌else◌, Bool-cases, is_none,
}
use karpenter_provider_hetzn.Errors.{Error}
use karpenter_provider_hetzn.Metrics.{Metrics}
use karpenter_provider_hetzn.Api.NodeClass.{
  ConditionStatus, Condition, HCloudNodeClass, condition_type_images_ready,
  resolved_images_generation,
}

-- StatusConditions().Set of operatorpkg, by the condition's type, status, reason and message.
abbrev pub SetCondition : Type 0
SetCondition = String → ConditionStatus → String → Option Error → HCloudNodeClass → HCloudNodeClass

unfoldable pub condition_status : String → List Condition → Option ConditionStatus
condition_status type [] = none
condition_status type (c ∷ cs) =
    if str_eq c.type type then some c.status else condition_status type cs

abbrev pub has_condition : String → HCloudNodeClass → Bool
has_condition t nc = not (is_none (condition_status t nc.status.conditions))

-- The root condition, which operatorpkg keeps itself.
abbrev pub condition_ready : String
condition_ready = "Ready"

-- Setting a condition stores its status with the object's generation, and changes neither the other
-- conditions that are there nor anything else; but first the conditions that are missing are added, and
-- afterwards Ready is computed from the others.
pub record IsSetCondition (set : SetCondition) : Type 0 where
  pub keeps_spec :
      (t : String) (s : ConditionStatus) (r : String) (m : Option Error) (nc : HCloudNodeClass)
      → (set t s r m nc).spec ≡ nc.spec
  pub keeps_generation :
      (t : String) (s : ConditionStatus) (r : String) (m : Option Error) (nc : HCloudNodeClass)
      → (set t s r m nc).generation ≡ nc.generation
  pub keeps_images :
      (t : String) (s : ConditionStatus) (r : String) (m : Option Error) (nc : HCloudNodeClass)
      → (set t s r m nc).status.resolved_images ≡ nc.status.resolved_images
  pub stamps :
      (s : ConditionStatus) (r : String) (m : Option Error) (nc : HCloudNodeClass)
      → resolved_images_generation (set condition_type_images_ready s r m nc) ≡ nc.generation
  -- A condition set that has no ImagesReady yet gets one, of the present generation.
  pub stamp_lem :
      (t : String) (s : ConditionStatus) (r : String) (m : Option Error) (nc : HCloudNodeClass)
      → str_eq t condition_type_images_ready ≡ false
      → resolved_images_generation (set t s r m nc) ≡ (
          if has_condition condition_type_images_ready nc
          then resolved_images_generation nc
          else nc.generation)
  pub keeps_status :
      (t t' : String) (s s' : ConditionStatus) (r : String) (m : Option Error)
      (nc : HCloudNodeClass)
      → str_eq t t' ≡ false
      → str_eq condition_ready t' ≡ false
      → condition_status t' nc.status.conditions ≡ some s'
      → condition_status t' (set t s r m nc).status.conditions ≡ some s'
  pub stores :
      (t : String) (s : ConditionStatus) (r : String) (m : Option Error) (nc : HCloudNodeClass)
      → str_eq condition_ready t ≡ false
      → condition_status t (set t s r m nc).status.conditions ≡ some s

-- A Warning event.
pub record Event : Type 0 where
  pub reason : String
  pub action : String
  pub message : Option Error

-- What Reconcile changes before it writes the status back.
pub record Pass : Type 0 where
  pub nc : HCloudNodeClass
  pub events : List Event
  pub metrics : Metrics

-- `warnf`; without a recorder it does nothing.
unfoldable pub warnf : Bool → Event → Pass → Pass
warnf recording event s = if recording then record s { events = s.events ++ (event ∷ []) } else s

unfoldable pub on_class : (HCloudNodeClass → HCloudNodeClass) → Pass → Pass
on_class f s = record s { nc = f s.nc }

pub warnf-nc : (recording : Bool) (e : Event) (s : Pass) → (warnf recording e s).nc ≡ s.nc
unfolding warnf
warnf-nc recording e s = elim (Bool-cases recording) [
  | inl on ↦ rw (on, warnf) refl
  | inr off ↦ rw (off, warnf) refl
]

-- `after` is `before` with a condition set, whatever its reason and message.
abbrev pub Sets :
    SetCondition → String → ConditionStatus → HCloudNodeClass → HCloudNodeClass → Type 0
Sets set type status before after =
    (reason : String) × (message : Option Error) × (after ≡ set type status reason message before)
