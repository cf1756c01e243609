-- ===== src/Tests/Instances.antt =====
-- The instance provider at the small cloud.
use karpenter_provider_hetzn.Base.{◌≡◌, refl, ◌↔◌, true, false, none, some, [], ◌∷◌, ◌++◌, arith}
use karpenter_provider_hetzn.Base.Dict.{lookup, NodupKeys}
use karpenter_provider_hetzn.Base.Int.{pos, negsuc, IsInt64}
use karpenter_provider_hetzn.Base.Text.{Bytes, codes, strip_prefix, parse_int}
use karpenter_provider_hetzn.Errors.{as_api, is_insufficient_capacity, ok}
use karpenter_provider_hetzn.Api.{provider_id_prefix}
use karpenter_provider_hetzn.Instance.{CreateOpts}
use karpenter_provider_hetzn.Instance.ProviderId.{
  parse_provider_id, format_provider_id, parse_provider_id-format_provider_id, parse_provider_id-ok,
}
use karpenter_provider_hetzn.Instance.CreateError.{map_create_error}
use karpenter_provider_hetzn.Tests.Cloud.{no_capacity, provider, provider-HasForeignErrors}
use karpenter_provider_hetzn.Instance.Lifecycle.{delete_server}
use karpenter_provider_hetzn.Instance.Lifecycle.Deletion.{reports_gone, is_gone, delete_server_gone}
use karpenter_provider_hetzn.Instance.CreateError.Laws.{SaysCapacity, map_create_error_iff}

parse_provider_id-format_provider_id_example :
    parse_provider_id (format_provider_id (negsuc 41)) ≡ ok (negsuc 41)
parse_provider_id-format_provider_id_example =
    parse_provider_id-format_provider_id (negsuc 41) (omega arith)

abbrev id_text : Bytes
id_text = provider_id_prefix ++ codes "100"

id_text-parsed : parse_provider_id id_text ≡ ok (pos 100)
unfolding parse_provider_id strip_prefix parse_int
id_text-parsed = refl

parse_provider_id-ok_example :
    IsInt64 (pos 100)
    × ((digits : Bytes) × (id_text ≡ provider_id_prefix ++ digits)
        × (parse_int digits ≡ some (pos 100)))
parse_provider_id-ok_example = parse_provider_id-ok id_text id_text-parsed

delete_server_gone_example :
    reports_gone (delete_server (provider none) id_text []).0 ≡ is_gone (provider none) (pos 100) []
delete_server_gone_example =
    delete_server_gone (provider none) provider-HasForeignErrors id_text (pos 100) [] id_text-parsed

map_create_error_iff_example :
    (is_insufficient_capacity (map_create_error no_capacity) ≡ true)
    ↔ SaysCapacity (as_api no_capacity)
unfolding is_insufficient_capacity
map_create_error_iff_example = map_create_error_iff no_capacity refl

abbrev opts : CreateOpts
opts = record {
  name = "n";
  server_type = "cx22";
  location = "fsn1";
  image = none;
  network_id = pos 7;
  firewall_ids = [];
  ssh_key_ids = [];
  labels = ("team", "a") ∷ [];
  user_data = [];
  node_claim = "n";
  node_pool = "";
  placement_group_strategy = "none";
  enable_public_ipv4 = true;
  enable_public_ipv6 = false;
}

labels-NodupKeys : NodupKeys opts.labels
unfolding lookup
labels-NodupKeys = (refl, tt)
