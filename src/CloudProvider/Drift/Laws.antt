-- ===== src/CloudProvider/Drift/Laws.antt =====
-- When a server is in sync with its claim and its NodeClass.
use karpenter_provider_hetzn.Base.{
  String, ◌≡◌, refl, ◌↔◌, ◌⊎◌, inl, inr, Bool, true, false, Option, none, some, List, [], ◌∷◌,
  arith, str_eq, eq_iff, if◌then◌else◌, Option-cases, is_empty, any, all, All, Within, any_iff,
}
use karpenter_provider_hetzn.Base.Dict.{Dict, lookup}
use karpenter_provider_hetzn.Base.Int.{ℤ, eq_ℤ_iff, is_pos}
use karpenter_provider_hetzn.Base.Text.{format_int}
use karpenter_provider_hetzn.Base.Text.Laws.{bytes_eq_iff}
use karpenter_provider_hetzn.Api.{label_instance_type}
use karpenter_provider_hetzn.Api.NodeClass.{HCloudNodeClassSpec}
use karpenter_provider_hetzn.Api.NodeClaim.{NodeClaim}
use karpenter_provider_hetzn.ImageFamily.{}
use karpenter_provider_hetzn.Hcloud.{Server}
use karpenter_provider_hetzn.CloudProvider.Drift.{
  drift_image, drift_network, drift_firewall, drift_server_type, drift_location, drift_labels,
  id_is, image_differs, network_missing, firewall_missing, label_of, server_type_differs,
  location_differs, has_label, labels_differ, drift_reason,
}

-- What is asked of a part that the server may not report.
abbrev pub Known : {A : Type 0} → (A → Type 0) → Option A → Type 0
Known P none = Unit
Known P (some a) = P a

-- The server has the image that the claim records, if it records one.
abbrev pub ImageInSync : NodeClaim → Server → Type 0
ImageInSync claim server =
    Known (λ image. (claim.image_id ≡ []) ⊎ (claim.image_id ≡ format_int image.id)) server.image

abbrev pub NetworkInSync : HCloudNodeClassSpec → Server → Type 0
NetworkInSync spec server =
    is_pos spec.network_id ≡ true → Within (some spec.network_id) server.private_net

abbrev pub FirewallsInSync : HCloudNodeClassSpec → Server → Type 0
FirewallsInSync spec server = All (λ want. Within (some want) server.firewalls) spec.firewall_ids

abbrev pub ServerTypeInSync : NodeClaim → Server → Type 0
ServerTypeInSync claim server =
    Known
      (λ st.
        (label_of label_instance_type claim.labels ≡ "")
        ⊎ (st.name ≡ label_of label_instance_type claim.labels))
      server.server_type

abbrev pub LocationInSync : HCloudNodeClassSpec → Server → Type 0
LocationInSync spec server =
    Known (λ location. (spec.locations ≡ []) ⊎ Within location spec.locations) server.location

abbrev pub LabelsInSync : HCloudNodeClassSpec → Server → Type 0
LabelsInSync spec server = All (λ e. lookup e.0 server.labels ≡ some e.1) spec.labels

is_empty_iff : {A : Type 0} (xs : List A) → (is_empty xs ≡ true) ↔ (xs ≡ [])
is_empty_iff [] = ground arith
is_empty_iff (x ∷ xs) = ground arith

image_iff :
    (claim : NodeClaim) (server : Server)
    → (image_differs claim server ≡ false) ↔ ImageInSync claim server
unfolding image_differs
image_iff claim server = elim (Option-cases server.image) [
  | inl h ↦ rw (h, image_differs) (ground arith)
  | inr (image, h) ↦
      let (to, from) = bytes_eq_iff claim.image_id (format_int image.id) in
      let (empty_to, empty_from) = is_empty_iff claim.image_id in
      rw (h, image_differs) (ground arith)
]

id_is_iff : (id : ℤ) (o : Option ℤ) → (id_is id o ≡ true) ↔ (o ≡ some id)
unfolding id_is
id_is_iff id none = ground arith
id_is_iff id (some i) = let (to, from) = eq_ℤ_iff i id in ground arith

network_iff :
    (spec : HCloudNodeClassSpec) (server : Server)
    → (network_missing spec server ≡ false) ↔ NetworkInSync spec server
unfolding network_missing
network_iff spec server =
    let (to, from) =
      any_iff (id_is spec.network_id) (some spec.network_id) (id_is_iff spec.network_id)
        server.private_net in
    ground arith

firewalls_from :
    (attached : List (Option ℤ)) (wanted : List ℤ)
    → (all (λ want. any (id_is want) attached) wanted ≡ true)
      ↔ All (λ want. Within (some want) attached) wanted
unfolding all
firewalls_from attached [] = ground arith
firewalls_from attached (want ∷ wanted) =
    let (to, from) = firewalls_from attached wanted in
    let (to', from') = any_iff (id_is want) (some want) (id_is_iff want) attached in ground arith

firewall_iff :
    (spec : HCloudNodeClassSpec) (server : Server)
    → (firewall_missing spec server ≡ false) ↔ FirewallsInSync spec server
unfolding firewall_missing
firewall_iff spec server =
    let (to, from) = firewalls_from server.firewalls spec.firewall_ids in ground arith

server_type_iff :
    (claim : NodeClaim) (server : Server)
    → (server_type_differs claim server ≡ false) ↔ ServerTypeInSync claim server
unfolding server_type_differs
server_type_iff claim server = elim (Option-cases server.server_type) [
  | inl h ↦ rw (h, server_type_differs) (ground arith)
  | inr (st, h) ↦
      let want = label_of label_instance_type claim.labels in
      rw (h, server_type_differs) (ground (arith, eq_iff want "", eq_iff st.name want))
]

location_iff :
    (spec : HCloudNodeClassSpec) (server : Server)
    → (location_differs spec server ≡ false) ↔ LocationInSync spec server
unfolding location_differs
location_iff spec server = elim (Option-cases server.location) [
  | inl h ↦ rw (h, location_differs) (ground arith)
  | inr (location, h) ↦
      let (to, from) =
        any_iff (λ l. str_eq l location) location (λ l. eq_iff l location) spec.locations in
      let (empty_to, empty_from) = is_empty_iff spec.locations in
      rw (h, location_differs) (ground arith)
]

has_label_iff :
    (labels : Dict String) (k v : String)
    → (has_label labels (k, v) ≡ true) ↔ (lookup k labels ≡ some v)
unfolding has_label
has_label_iff labels k v = elim (Option-cases (lookup k labels)) [
  | inl h ↦ rw h (ground arith)
  | inr (got, h) ↦ rw h (ground (arith, eq_iff got v))
]

labels_from :
    (labels wanted : Dict String)
    → (all (has_label labels) wanted ≡ true) ↔ All (λ e. lookup e.0 labels ≡ some e.1) wanted
unfolding all
labels_from labels [] = ground arith
labels_from labels ((k, v) ∷ wanted) =
    let (to, from) = labels_from labels wanted in
    let (to', from') = has_label_iff labels k v in ground arith

labels_iff :
    (spec : HCloudNodeClassSpec) (server : Server)
    → (labels_differ spec server ≡ false) ↔ LabelsInSync spec server
unfolding labels_differ
labels_iff spec server = let (to, from) = labels_from server.labels spec.labels in ground arith

-- The server is as the claim and the NodeClass want it.
pub record InSync (claim : NodeClaim) (spec : HCloudNodeClassSpec) (server : Server) : Type 0 where
  pub image : ImageInSync claim server
  pub network : NetworkInSync spec server
  pub firewalls : FirewallsInSync spec server
  pub server_type : ServerTypeInSync claim server
  pub location : LocationInSync spec server
  pub labels : LabelsInSync spec server

none_of :
    (a b c d e f : Bool)
    → (if a
        then drift_image
        else if b
        then drift_network
        else if c
        then drift_firewall
        else if d
        then drift_server_type
        else if e
        then drift_location
        else if f
        then drift_labels
        else "")
      ≡ ""
    → (a ≡ false) × (b ≡ false) × (c ≡ false) × (d ≡ false) × (e ≡ false) × (f ≡ false)
none_of a b c d e f h = ground (
  arith,
  eq_iff drift_image "",
  eq_iff drift_network "",
  eq_iff drift_firewall "",
  eq_iff drift_server_type "",
  eq_iff drift_location "",
  eq_iff drift_labels "",
)

no_reason :
    (claim : NodeClaim) (spec : HCloudNodeClassSpec) (server : Server)
    → drift_reason claim spec server ≡ ""
    → (image_differs claim server ≡ false)
      × (network_missing spec server ≡ false)
      × (firewall_missing spec server ≡ false)
      × (server_type_differs claim server ≡ false)
      × (location_differs spec server ≡ false)
      × (labels_differ spec server ≡ false)
unfolding drift_reason
no_reason claim spec server h =
    none_of (image_differs claim server) (network_missing spec server)
      (firewall_missing spec server) (server_type_differs claim server)
      (location_differs spec server) (labels_differ spec server) h

-- No drift is found exactly if the server is in sync: its image is the recorded one, the network and
-- the firewalls of the NodeClass are attached, its type is that of the claim's label, its location is
-- among the NodeClass's, and it has the NodeClass's labels; what the server does not report is not
-- asked for.
pub drift_reason_iff :
    (claim : NodeClaim) (spec : HCloudNodeClassSpec) (server : Server)
    → (drift_reason claim spec server ≡ "") ↔ InSync claim spec server
unfolding drift_reason
drift_reason_iff claim spec server = (
  λ h.
      let (image, network, firewalls, server_type, location, labels) =
        no_reason claim spec server h in
      record {
        image = (image_iff claim server).0 image;
        network = (network_iff spec server).0 network;
        firewalls = (firewall_iff spec server).0 firewalls;
        server_type = (server_type_iff claim server).0 server_type;
        location = (location_iff spec server).0 location;
        labels = (labels_iff spec server).0 labels;
      },
  λ sync.
      rw
        (
          drift_reason,
          (image_iff claim server).1 sync.image,
          (network_iff spec server).1 sync.network,
          (firewall_iff spec server).1 sync.firewalls,
          (server_type_iff claim server).1 sync.server_type,
          (location_iff spec server).1 sync.location,
          (labels_iff spec server).1 sync.labels,
        )
        refl,
)
