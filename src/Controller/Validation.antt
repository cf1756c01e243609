-- ===== src/Controller/Validation.antt =====
-- The checks of the network, the firewalls, the SSH keys and the user data in
-- pkg/controllers/nodeclass/controller.go.
pub mod Laws
use karpenter_provider_hetzn.Base.{
  String, ◌<>◌, Bool, true, false, Option, none, some, List, [], ◌∷◌, if◌then◌else◌,
}
use karpenter_provider_hetzn.Base.Dict.{Dict, lookup}
use karpenter_provider_hetzn.Base.Int.{ℤ}
use karpenter_provider_hetzn.Base.Text.{Bytes}
use karpenter_provider_hetzn.Errors.{
  int, text, Error, errorf, wrapf, is_kube_not_found, Result, ok, err,
}
use karpenter_provider_hetzn.Api.NodeClass.{
  UserDataSecretReference, condition_true, condition_false, condition_unknown, HCloudNodeClass,
  condition_type_network_ready,
}
use karpenter_provider_hetzn.CloudProvider.{KubeClient}
use karpenter_provider_hetzn.Controller.{SetCondition, Pass, warnf, on_class}

-- GetByID of a resource: whether it exists.
abbrev pub Getter : Type 0
Getter = ℤ → Result Bool

-- The answer of a check: ok, unknown with a reason and a message, or neither.
pub data Verdict : Type 0 where
  ready : Verdict
  unclear missing : String → Error → Verdict

check_found : String → String → ℤ → Result Bool → Verdict → Verdict
check_found kind format id (err e) rest = unclear (kind <> "CheckFailed") e
check_found kind format id (ok false) rest =
    missing (kind <> "NotFound") (errorf format (int id ∷ []))
check_found kind format id (ok true) rest = rest

-- One of the two loops of validateResources, and what follows it.
check_ids : Getter → String → String → Verdict → List ℤ → Verdict
unfolding check_found
check_ids get kind format after [] = after
check_ids get kind format after (id ∷ ids) =
    check_found kind format id (get id) (check_ids get kind format after ids)

unfoldable pub validate_resources : Getter → Getter → HCloudNodeClass → Verdict
unfolding check_ids
validate_resources firewalls ssh_keys nc =
    check_ids firewalls "Firewall" "firewall %d does not exist"
      (check_ids ssh_keys "SSHKey" "ssh key %d does not exist" ready nc.spec.ssh_key_ids)
      nc.spec.firewall_ids

key_verdict : UserDataSecretReference → Option Bytes → Verdict
key_verdict ref (some (c ∷ value)) = ready
key_verdict ref _ = missing "UserDataKeyMissing" (
    errorf "secret %s/%s has no non-empty key %q"
      (text ref.namespace ∷ text ref.name ∷ text ref.key ∷ []))

secret_verdict : UserDataSecretReference → Result (Dict Bytes) → Verdict
unfolding key_verdict is_kube_not_found lookup
secret_verdict ref (ok secret) = key_verdict ref (lookup ref.key secret)
secret_verdict ref (err e) =
    if is_kube_not_found e
    then missing "UserDataSecretNotFound"
        (errorf "secret %s/%s not found" (text ref.namespace ∷ text ref.name ∷ []))
    else unclear "UserDataCheckFailed" e

unfoldable pub validate_user_data : KubeClient → HCloudNodeClass → Verdict
unfolding secret_verdict
validate_user_data kube nc = elim nc.spec.user_data_secret_ref [
  | none ↦ ready
  | some ref ↦ secret_verdict ref (kube.get_secret ref.namespace ref.name)
]

-- The network check, whose event names the network though the condition does not.
network_answer : SetCondition → Bool → Result Bool → Pass → Pass
unfolding warnf on_class
network_answer set recording (err e) s =
    warnf recording
      (record {
        reason = "NetworkCheckFailed";
        action = "ValidateNetwork";
        message = some (wrapf "network check failed: %v" [] e);
      })
      (on_class (set condition_type_network_ready condition_unknown "NetworkCheckFailed" (some e))
        s)
network_answer set recording (ok false) s =
    warnf recording
      (record {
        reason = "NetworkNotFound";
        action = "ValidateNetwork";
        message = some (errorf "networkID %d does not exist" (int s.nc.spec.network_id ∷ []));
      })
      (on_class
        (set condition_type_network_ready condition_false "NetworkNotFound"
          (some (errorf "configured networkID does not exist" [])))
        s)
network_answer set recording (ok true) s =
    on_class (set condition_type_network_ready condition_true condition_type_network_ready none) s

unfoldable pub network_pass : SetCondition → Bool → Getter → Pass → Pass
unfolding network_answer
network_pass set recording networks s =
    network_answer set recording (networks s.nc.spec.network_id) s

-- A verdict becomes a condition and, unless all is well, an event.
unfoldable pub verdict_pass : SetCondition → Bool → String → String → Verdict → Pass → Pass
unfolding warnf on_class
verdict_pass set recording type action ready s = on_class (set type condition_true type none) s
verdict_pass set recording type action (unclear reason e) s =
    warnf recording (record { reason = reason; action = action; message = some e })
      (on_class (set type condition_unknown reason (some e)) s)
verdict_pass set recording type action (missing reason e) s =
    warnf recording (record { reason = reason; action = action; message = some e })
      (on_class (set type condition_false reason (some e)) s)
