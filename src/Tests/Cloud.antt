-- ===== src/Tests/Cloud.antt =====
-- A cloud that keeps its servers in a list. It has no capacity in the location "full", and waiting for
-- an action with the ID 13 fails.
use mathlib.Core.Path.{subst}
use mathlib.Core.Option.{some-injective}
use karpenter_provider_hetzn.Base.{
  ℕ, ◌+◌, ◌≡◌, refl, ap, ◌⊎◌, inl, inr, not, Option, none, some, List, [], ◌∷◌, map, arith, str_eq,
  eq_iff, any, String, ◌<>◌, Bool, true, ◌∙◌, if◌then◌else◌, Bool-cases, length, select, first, All,
  Within, All-by_Within, first-Within,
}
use karpenter_provider_hetzn.Base.Dict.{Dict, lookup}
use karpenter_provider_hetzn.Base.Int.{ℤ, pos, eq_ℤ, IsInt64}
use karpenter_provider_hetzn.Base.Text.{}
use karpenter_provider_hetzn.Effects.{}
use karpenter_provider_hetzn.Errors.{
  resource_unavailable, Error, errorf, api_error, Result, ok, err, ok-injective,
}
use karpenter_provider_hetzn.Metrics.{}
use karpenter_provider_hetzn.Api.{}
use karpenter_provider_hetzn.ImageFamily.{Image}
use karpenter_provider_hetzn.Hcloud.{Server, ServerCreateOpts, Action, ServerCreateResult}
use karpenter_provider_hetzn.Instance.{ServerClient, ActionWaiter, Provider}
use karpenter_provider_hetzn.Instance.Lifecycle.Stored.{Reported, IsAsRequested, IsAttached, Stores}
use karpenter_provider_hetzn.Instance.Lifecycle.Creation.{Counts}
use karpenter_provider_hetzn.Instance.Lifecycle.Deletion.{HasForeignErrors}

abbrev pub Cloud : Type 0
Cloud = List Server

abbrev pub server_of : ServerCreateOpts → Server
server_of o = record {
  id = pos 100;
  image = o.image;
  server_type = none;
  location = some o.location;
  labels = o.labels;
  private_net = map (λ n. some n) o.networks;
  firewalls = map (λ n. some n) o.firewalls;
}

abbrev pub no_capacity : Error
no_capacity = api_error resource_unavailable "no capacity"

add_server : ServerCreateOpts → Cloud → Result ServerCreateResult × Cloud
add_server o w = if str_eq o.location "full" then (err no_capacity, w) else (
  ok (record { server = server_of o; action = some (record { id = pos 13 }); next_actions = [] }),
  server_of o ∷ w,
)

find_server : ℤ → Cloud → Option Server
find_server id w = first (λ s. eq_ℤ s.id id) w

-- The text of the label selector that asks for both labels.
abbrev selects_both : String → String → String → String → String
selects_both k v l u = k <> ("=" <> (v <> ("," <> (l <> ("=" <> u)))))

-- Whether the selector asks for two labels of the server.
selects : String → Dict String → Bool
unfolding any
selects selector labels =
    any (λ (k, v). any (λ (l, u). str_eq selector (selects_both k v l u)) labels) labels

unfoldable pub client : ServerClient Cloud
unfolding add_server find_server first eq_ℤ select selects
client = record {
  create = add_server;
  delete_with_result = λ s w. (ok tt, select (λ x. not (eq_ℤ x.id s.id)) w);
  get_by_id = λ id w. (ok (find_server id w), w);
  all_with_opts = λ selector w. (ok (select (λ s. selects selector s.labels) w), w);
}

abbrev pub slow_waiter : ActionWaiter Cloud
slow_waiter = record { wait_for = λ actions w. (err (errorf "timeout" []), w) }

unfoldable pub provider : Option (ActionWaiter Cloud) → Provider Cloud
unfolding client
provider waiter = record {
  client = client;
  pg_client = none;
  waiter = waiter;
  cluster_name = "prod";
}

abbrev pub count : Cloud → ℕ
count w = length w

add_server-created :
    (o : ServerCreateOpts) (w v : Cloud) (r : ServerCreateResult)
    → add_server o w ≡ (ok r, v)
    → count v ≡ count w + 1
unfolding add_server
add_server-created o w v r h = elim (Bool-cases (str_eq o.location "full")) [
  | inl full ↦ absurd (cc (ap (λ x. x.0) (rw (full, add_server) at h)))
  | inr room ↦ rw (← ap (λ x. x.1) (rw (room, add_server) at h)) (omega arith)
]

add_server-refused :
    (o : ServerCreateOpts) (w v : Cloud) (e : Error)
    → add_server o w ≡ (err e, v)
    → count v ≡ count w
unfolding add_server
add_server-refused o w v e h = elim (Bool-cases (str_eq o.location "full")) [
  | inl full ↦ rw (← ap (λ x. x.1) (rw (full, add_server) at h)) refl
  | inr room ↦ absurd (cc (ap (λ x. x.0) (rw (room, add_server) at h)))
]

waited-count :
    (w : Option (ActionWaiter Cloud)) (waiter : ActionWaiter Cloud)
    → (w ≡ none) ⊎ (w ≡ some slow_waiter)
    → w ≡ some waiter
    → (actions : List Action) (v : Cloud) → count (waiter.wait_for actions v).1 ≡ count v
waited-count w waiter (inl e) h actions v = absurd (cc (e, h))
waited-count w waiter (inr e) h actions v =
    let same : slow_waiter ≡ waiter = cc (e, h) in rw (← same) refl

pub provider-Counts :
    (w : Option (ActionWaiter Cloud))
    → (w ≡ none) ⊎ (w ≡ some slow_waiter)
    → Counts (provider w) count
unfolding provider client
provider-Counts w kind = record {
  created = add_server-created;
  refused = add_server-refused;
  groups_listed = λ pg h name v. absurd (cc h);
  group_created = λ pg h name v. absurd (cc h);
  waited = λ waiter h actions v. waited-count w waiter kind h actions v;
}

pub provider-HasForeignErrors : HasForeignErrors (provider none)
unfolding provider client
provider-HasForeignErrors = record {
  on_get = λ id w e h. absurd (cc h);
  on_delete = λ s w e h. absurd (cc h);
}

attached-All : (ids : List ℤ) → All (λ n. Within (some n) (map (λ m. some m) ids)) ids
attached-All ids = All-by_Within _ ids (λ n w. go ids n w)
  where
    go : (xs : List ℤ) (n : ℤ) → Within n xs → Within (some n) (map (λ m. some m) xs)
    go [] n w = absurd w
    go (x ∷ xs) n (inl e) = inl (ap (λ m. some m) e)
    go (x ∷ xs) n (inr w) = inr (go xs n w)

server_of-IsAsRequested : (o : ServerCreateOpts) → IsAsRequested o (server_of o)
server_of-IsAsRequested o = record {
  image = go o.image;
  server_type = tt;
  location = refl;
  labels = λ k. refl;
}
  where
    go : (x : Option Image) → Reported (λ i. (j : Image) → x ≡ some j → i.id ≡ j.id) x
    go none = tt
    go (some i) = λ j e. let same : i ≡ j = cc e in ap (λ (k : Image). k.id) same

server_of-IsAttached : (o : ServerCreateOpts) → IsAttached o (server_of o)
server_of-IsAttached o = record {
  networks = attached-All o.networks;
  firewalls = attached-All o.firewalls;
}

abbrev Held : ServerCreateOpts → Server → Cloud → Type 0
Held o s w = (s ≡ server_of o) × (find_server (pos 100) w ≡ some (server_of o))

add_server-Held :
    (o : ServerCreateOpts) (w v : Cloud) (r : ServerCreateResult)
    → add_server o w ≡ (ok r, v)
    → Held o r.server v × IsInt64 r.server.id × IsAsRequested o r.server
unfolding add_server find_server first eq_ℤ
add_server-Held o w v r h = elim (Bool-cases (str_eq o.location "full")) [
  | inl full ↦ absurd (cc (ap (λ x. x.0) (rw (full, add_server) at h)))
  | inr room ↦
      let result = rw (room, add_server) at h in
      let same : server_of o ≡ r.server =
        ap (λ (x : ServerCreateResult). x.server) (ok-injective (ap (λ x. x.0) result)) in
      let kept : server_of o ∷ w ≡ v = ap (λ x. x.1) result in
      rw (← same, ← kept) ((refl, refl), omega arith, server_of-IsAsRequested o)
]

waited-Held :
    (w : Option (ActionWaiter Cloud)) (waiter : ActionWaiter Cloud)
    → (w ≡ none) ⊎ (w ≡ some slow_waiter)
    → w ≡ some waiter
    → (o : ServerCreateOpts) (s : Server) (actions : List Action) (v : Cloud) → Held o s v
    → Held o s (waiter.wait_for actions v).1
waited-Held w waiter (inl e) h o s actions v held = absurd (cc (e, h))
waited-Held w waiter (inr e) h o s actions v held =
    let same : slow_waiter ≡ waiter = cc (e, h) in rw (← same) held

lookup-Within :
    (labels : Dict String) (k v : String) → lookup k labels ≡ some v → Within (k, v) labels
unfolding lookup
lookup-Within [] k v h = absurd (cc h)
lookup-Within ((l, u) ∷ labels) k v h = elim (Bool-cases (str_eq l k)) [
  | inl same ↦
      let key : l ≡ k = (eq_iff l k).0 same in
      let value : u ≡ v = some-injective _ _ (rw same at h) in inl (cc (key, value))
  | inr other ↦ inr (lookup-Within labels k v (rw other at h))
]

any-of :
    {A : Type 0} (p : A → Bool) (xs : List A) (a : A) → Within a xs → p a ≡ true → any p xs ≡ true
unfolding any
any-of p [] a w h = absurd w
any-of p (x ∷ xs) a (inl e) h = let first_one : p x ≡ true = ap p e ∙ h in rw first_one refl
any-of p (x ∷ xs) a (inr w) h = let rest = any-of p xs a w h in ground (arith, rest)

selects-both :
    (labels : Dict String) (k v l u : String)
    → lookup k labels ≡ some v
    → lookup l labels ≡ some u
    → selects (selects_both k v l u) labels ≡ true
unfolding selects
selects-both labels k v l u one other =
    any-of _ labels (k, v) (lookup-Within labels k v one)
      (any-of _ labels (l, u) (lookup-Within labels l u other)
        ((eq_iff (selects_both k v l u) (selects_both k v l u)).1 refl))

select-Within :
    (p : Server → Bool) (w : Cloud) (s : Server) → Within s w → p s ≡ true → Within s (select p w)
unfolding select
select-Within p [] s w h = absurd w
select-Within p (x ∷ xs) s (inl e) h = let chosen : p x ≡ true = ap p e ∙ h in rw chosen (inl e)
select-Within p (x ∷ xs) s (inr w) h = elim (Bool-cases (p x)) [
  | inl on ↦ rw on (inr (select-Within p xs s w h))
  | inr off ↦ rw off (select-Within p xs s w h)
]

pub provider-Stores :
    (w : Option (ActionWaiter Cloud)) → (w ≡ none) ⊎ (w ≡ some slow_waiter) → Stores (provider w)
unfolding provider client find_server
provider-Stores w kind = record {
  Holds = Held;
  created = add_server-Held;
  awaited = λ waiter h o s actions v held. waited-Held w waiter kind h o s actions v held;
  found = λ o s v (same, kept). (
    server_of o,
    rw same (ap (λ x. ok x) kept),
    rw same refl,
    server_of-IsAsRequested o,
    server_of-IsAttached o,
  );
  listed = λ o s w servers k v l u (same, kept) one other h. (
    server_of o,
    subst (Within (server_of o)) (ok-injective h) (
        select-Within (λ x. selects (selects_both k v l u) x.labels) w (server_of o)
          (first-Within (λ x. eq_ℤ x.id (pos 100)) w (server_of o) kept).0
          (selects-both o.labels k v l u one other)),
    rw same refl,
  );
}
