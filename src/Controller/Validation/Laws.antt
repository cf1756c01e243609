-- ===== src/Controller/Validation/Laws.antt =====
-- When the checks of the controller succeed.
use karpenter_provider_hetzn.Base.{
  String, ◌≡◌, refl, ◌↔◌, inl, inr, Bool, true, false, Option, none, some, List, [], ◌∷◌, arith,
  if◌then◌else◌, Bool-cases, Option-cases, All,
}
use karpenter_provider_hetzn.Base.Dict.{Dict, lookup}
use karpenter_provider_hetzn.Base.Int.{ℤ}
use karpenter_provider_hetzn.Base.Text.{Bytes, codes}
use karpenter_provider_hetzn.Errors.{
  text, errorf, is_kube_not_found, Result, ok, err, ◌>>=◌, context,
}
use karpenter_provider_hetzn.Metrics.{}
use karpenter_provider_hetzn.Api.NodeClass.{
  UserDataSecretReference, ConditionStatus, condition_true, condition_false, condition_unknown,
  HCloudNodeClass, condition_type_network_ready,
}
use karpenter_provider_hetzn.CloudProvider.{
  secret_value, user_data_from, KubeClient, resolve_user_data,
}
use karpenter_provider_hetzn.Controller.{warnf-nc, Sets, SetCondition, Pass, on_class}
use karpenter_provider_hetzn.Controller.Validation.{
  network_answer, Getter, Verdict, ready, unclear, missing, validate_resources, validate_user_data,
  network_pass, verdict_pass, check_found, check_ids, key_verdict, secret_verdict,
}

check_found_iff :
    (kind format : String) (id : ℤ) (answer : Result Bool) (rest : Verdict)
    → (check_found kind format id answer rest ≡ ready) ↔ ((answer ≡ ok true) × (rest ≡ ready))
unfolding check_found
check_found_iff kind format id (err e) rest = ground arith
check_found_iff kind format id (ok false) rest = ground arith
check_found_iff kind format id (ok true) rest = ((λ h. (refl, h)), (λ h. h.1))

check_ids_iff :
    (get : Getter) (kind format : String) (after : Verdict) (ids : List ℤ)
    → (check_ids get kind format after ids ≡ ready)
      ↔ (All (λ id. get id ≡ ok true) ids × (after ≡ ready))
unfolding check_ids
check_ids_iff get kind format after [] = ((λ h. (tt, h)), (λ h. h.1))
check_ids_iff get kind format after (id ∷ ids) =
    let rest = check_ids get kind format after ids in
    let (to, from) = check_found_iff kind format id (get id) rest in
    let (to', from') = check_ids_iff get kind format after ids in
    (
      (λ h. (((to h).0, (to' (to h).1).0), (to' (to h).1).1)),
      (λ h. from (h.0.0, from' (h.0.1, h.1))),
    )

-- validateResources succeeds exactly if every firewall and every SSH key of the NodeClass is found.
pub validate_resources_iff :
    (firewalls ssh_keys : Getter) (nc : HCloudNodeClass)
    → (validate_resources firewalls ssh_keys nc ≡ ready) ↔ (
        All (λ id. firewalls id ≡ ok true) nc.spec.firewall_ids
        × All (λ id. ssh_keys id ≡ ok true) nc.spec.ssh_key_ids)
unfolding validate_resources
validate_resources_iff firewalls ssh_keys nc =
    let keys = check_ids ssh_keys "SSHKey" "ssh key %d does not exist" ready nc.spec.ssh_key_ids in
    let (to, from) =
      check_ids_iff firewalls "Firewall" "firewall %d does not exist" keys nc.spec.firewall_ids in
    let (to', from') =
      check_ids_iff ssh_keys "SSHKey" "ssh key %d does not exist" ready nc.spec.ssh_key_ids in
    ((λ h. ((to h).0, (to' (to h).1).0)), (λ h. from (h.0, from' (h.1, refl))))

key_iff :
    (kube : KubeClient) (ref : UserDataSecretReference) (o : Option Bytes)
    → (key_verdict ref o ≡ ready) ↔ ((b : Bytes) × (secret_value kube ref o ≡ ok b))
unfolding key_verdict secret_value
key_iff kube ref none = ((λ h. absurd (cc h)), (λ (b, h). absurd (cc h)))
key_iff kube ref (some []) = ((λ h. absurd (cc h)), (λ (b, h). absurd (cc h)))
key_iff kube ref (some (c ∷ value)) = ((λ h. (c ∷ value, refl)), (λ h. refl))

-- The loading of the secret's value, from the answer to the reading of the secret.
abbrev loaded : KubeClient → UserDataSecretReference → Result (Dict Bytes) → Result Bytes
loaded kube ref secret =
    context "reading userData secret %s/%s: %w" (text ref.namespace ∷ text ref.name ∷ []) secret
    >>= λ s. secret_value kube ref (lookup ref.key s)

secret_iff :
    (kube : KubeClient) (ref : UserDataSecretReference) (secret : Result (Dict Bytes))
    → (secret_verdict ref secret ≡ ready) ↔ ((b : Bytes) × (loaded kube ref secret ≡ ok b))
unfolding secret_verdict context
secret_iff kube ref (ok secret) = key_iff kube ref (lookup ref.key secret)
secret_iff kube ref (err e) = elim (Bool-cases (is_kube_not_found e)) [
  | inl gone ↦ rw (gone, secret_verdict) ((λ h. absurd (cc h)), (λ (b, h). absurd (cc h)))
  | inr other ↦ rw (other, secret_verdict) ((λ h. absurd (cc h)), (λ (b, h). absurd (cc h)))
]

-- validateUserData succeeds exactly if a launch with the NodeClass finds its user data.
pub validate_user_data_iff :
    (kube : KubeClient) (nc : HCloudNodeClass)
    → (validate_user_data kube nc ≡ ready) ↔ ((b : Bytes) × (resolve_user_data kube nc ≡ ok b))
unfolding validate_user_data resolve_user_data user_data_from
validate_user_data_iff kube nc = elim (Option-cases nc.spec.user_data_secret_ref) [
  | inl inline ↦
      rw (inline, validate_user_data, resolve_user_data)
        ((λ h. (codes nc.spec.user_data, refl)), (λ h. refl))
  | inr (ref, h) ↦
      rw (h, validate_user_data, resolve_user_data)
        (secret_iff kube ref (kube.get_secret ref.namespace ref.name))
]

-- The condition for a verdict.
abbrev pub verdict_status : Verdict → ConditionStatus
verdict_status ready = condition_true
verdict_status (unclear r e) = condition_unknown
verdict_status (missing r e) = condition_false

pub verdict_status_iff : (v : Verdict) → (verdict_status v ≡ condition_true) ↔ (v ≡ ready)
verdict_status_iff ready = ((λ h. refl), (λ h. refl))
verdict_status_iff (unclear r e) = ((λ h. absurd (cc h)), (λ h. absurd (cc h)))
verdict_status_iff (missing r e) = ((λ h. absurd (cc h)), (λ h. absurd (cc h)))

pub verdict_pass-Sets :
    (set : SetCondition) (recording : Bool) (type action : String) (v : Verdict) (s : Pass)
    → Sets set type (verdict_status v) s.nc (verdict_pass set recording type action v s).nc
unfolding verdict_pass on_class
verdict_pass-Sets set recording type action ready s = (_, _, refl)
verdict_pass-Sets set recording type action (unclear r e) s =
    (_, _, warnf-nc recording _ (on_class (set type condition_unknown r (some e)) s))
verdict_pass-Sets set recording type action (missing r e) s =
    (_, _, warnf-nc recording _ (on_class (set type condition_false r (some e)) s))

-- The condition for the answer to the reading of the network.
abbrev pub network_status : Result Bool → ConditionStatus
network_status (err e) = condition_unknown
network_status (ok found) = if found then condition_true else condition_false

pub network_status_iff : (r : Result Bool) → (network_status r ≡ condition_true) ↔ (r ≡ ok true)
network_status_iff (err e) = ((λ h. absurd (cc h)), (λ h. absurd (cc h)))
network_status_iff (ok true) = ((λ h. refl), (λ h. refl))
network_status_iff (ok false) = ((λ h. absurd (cc h)), (λ h. absurd (cc h)))

network_answer-Sets :
    (set : SetCondition) (recording : Bool) (r : Result Bool) (s : Pass)
    → Sets set condition_type_network_ready
        (network_status r)
        s.nc
        (network_answer set recording r s).nc
unfolding network_answer on_class
network_answer-Sets set recording (err e) s = (
  _,
  _,
  warnf-nc recording _ (
      on_class (set condition_type_network_ready condition_unknown "NetworkCheckFailed" (some e))
        s),
)
network_answer-Sets set recording (ok false) s = (
  _,
  _,
  warnf-nc recording _ (
      on_class
        (set condition_type_network_ready condition_false "NetworkNotFound"
          (some (errorf "configured networkID does not exist" [])))
        s),
)
network_answer-Sets set recording (ok true) s = (_, _, refl)

pub network_pass-Sets :
    (set : SetCondition) (recording : Bool) (networks : Getter) (s : Pass)
    → Sets set condition_type_network_ready
        (network_status (networks s.nc.spec.network_id))
        s.nc
        (network_pass set recording networks s).nc
unfolding network_pass
network_pass-Sets set recording networks s =
    network_answer-Sets set recording (networks s.nc.spec.network_id) s
