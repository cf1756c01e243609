-- ===== src/Instance/Lifecycle/Stored.antt =====
-- A server that Create has made is found by Get under its provider ID, as it was requested.
use mathlib.Core.Path.{subst}
use karpenter_provider_hetzn.Effects.{
  ◌>>=◌, return, rewrap, mapping_error, >>=-post, mapping_error-post,
}
use karpenter_provider_hetzn.Base.{
  String, ◌<>◌, ◌≡◌, refl, Option, none, some, List, [], ◌∷◌, All, Within,
}
use karpenter_provider_hetzn.Base.Int.{ℤ, IsInt64}
use karpenter_provider_hetzn.Base.Dict.{lookup, NodupKeys}
use karpenter_provider_hetzn.Base.Text.{}
use karpenter_provider_hetzn.Errors.{wrapf, Result, ok, err, ok-injective}
use karpenter_provider_hetzn.Metrics.{}
use karpenter_provider_hetzn.ImageFamily.{Image}
use karpenter_provider_hetzn.Hcloud.{Server, ServerCreateOpts, Action, ServerCreateResult}
use karpenter_provider_hetzn.Api.{
  group, server_label_managed_by, server_label_cluster, server_value_managed_by,
}
use karpenter_provider_hetzn.Instance.Lifecycle.Labels.{lookup-server_labels}
use karpenter_provider_hetzn.Instance.{ActionWaiter, Provider, CreateOpts}
use karpenter_provider_hetzn.Instance.Lifecycle.{
  create_request, list_selector, create_server, get, list, created_actions, placement,
  wait_for_actions, found_or_none, get_by,
}
use karpenter_provider_hetzn.Instance.ProviderId.{
  format_provider_id, parse_provider_id-format_provider_id,
}
use karpenter_provider_hetzn.Instance.CreateError.{map_create_error}

-- What is asked of a part that the API may leave out.
abbrev pub Reported : {A : Type 0} → (A → Type 0) → Option A → Type 0
Reported P none = Unit
Reported P (some a) = P a

-- The server that the API shows is the one that was requested.
pub record IsAsRequested (o : ServerCreateOpts) (server : Server) : Type 0 where
  pub image : Reported (λ i. (j : Image) → o.image ≡ some j → i.id ≡ j.id) server.image
  pub server_type : Reported (λ st. st.name ≡ o.server_type) server.server_type
  pub location : Reported (λ l. l ≡ o.location) server.location
  pub labels : (k : String) → lookup k server.labels ≡ lookup k o.labels

-- The networks and the firewalls of the request are attached.
pub record IsAttached (o : ServerCreateOpts) (server : Server) : Type 0 where
  pub networks : All (λ n. Within (some n) server.private_net) o.networks
  pub firewalls : All (λ f. Within (some f) server.firewalls) o.firewalls

-- `Holds o s w`: in the state `w` the API keeps the server that it answered with `s` to the request `o`.
-- It keeps a server from its creation on, also while its actions are awaited, and shows it by its ID.
pub record Stores {W : Type 0} (p : Provider W) : Type 1 where
  pub Holds : ServerCreateOpts → Server → W → Type 0
  pub created :
      (o : ServerCreateOpts) (w v : W) (r : ServerCreateResult)
      → p.client.create o w ≡ (ok r, v)
      → Holds o r.server v × IsInt64 r.server.id × IsAsRequested o r.server
  pub awaited :
      (waiter : ActionWaiter W)
      → p.waiter ≡ some waiter
      → (o : ServerCreateOpts) (s : Server) (actions : List Action) (w : W) → Holds o s w
      → Holds o s (waiter.wait_for actions w).1
  pub found :
      (o : ServerCreateOpts) (s : Server) (w : W)
      → Holds o s w
      → (t : Server) × ((p.client.get_by_id s.id w).0 ≡ ok (some t))
        × (t.id ≡ s.id)
        × IsAsRequested o t
        × IsAttached o t
  -- The label selector `k=v,l=u` selects the servers that have both labels.
  pub listed :
      (o : ServerCreateOpts) (s : Server) (w : W) (servers : List Server) (k v l u : String)
      → Holds o s w
      → lookup k o.labels ≡ some v
      → lookup l o.labels ≡ some u
      → (p.client.all_with_opts (k <> ("=" <> (v <> ("," <> (l <> ("=" <> u)))))) w).0 ≡ ok servers
      → (t : Server) × Within t servers × (t.id ≡ s.id)

module _ {W : Type 0} (p : Provider W) (st : Stores p) where
  -- The server was requested with these options, in some placement group, and the API keeps it.
  abbrev pub Made : CreateOpts → Server → W → Type 0
  Made opts s w =
      (group : Option ℤ) × st.Holds (create_request p.cluster_name opts group) s w
      × IsInt64 s.id
      × IsAsRequested (create_request p.cluster_name opts group) s

  abbrev Answers : CreateOpts → Result Server × W → Type 0
  Answers opts (ok s, v) = Made opts s v
  Answers opts (err e, v) = Unit

  abbrev Requested : CreateOpts → Result ServerCreateResult × W → Type 0
  Requested opts (ok r, v) = Made opts r.server v
  Requested opts (err e, v) = Unit

  abbrev Awaited : CreateOpts → Server → Result (Unit {0}) × W → Type 0
  Awaited opts s (r, v) = Made opts s v

  request-Requested :
      (opts : CreateOpts) (group : Option ℤ) (w : W)
      → Requested opts (p.client.create (create_request p.cluster_name opts group) w)
  request-Requested opts group w = go (p.client.create _ w) refl
    where
      go :
          (r : Result ServerCreateResult × W)
          → p.client.create (create_request p.cluster_name opts group) w ≡ r
          → Requested opts r
      go (ok r, v) e = let (held, id, asked) = st.created _ w v r e in (group, held, id, asked)
      go (err d, v) e = tt

  wait-Awaited :
      (waiter : Option (ActionWaiter W)) (opts : CreateOpts) (s : Server) (actions : List Action)
      (w : W)
      → p.waiter ≡ waiter
      → Made opts s w
      → Awaited opts s (wait_for_actions waiter opts.name actions w)
  unfolding wait_for_actions
  wait-Awaited none opts s actions w h m = m
  wait-Awaited (some waiter) opts s [] w h m = m
  wait-Awaited (some waiter) opts s (a ∷ actions) w h (group, held, id, asked) =
      mapping_error-post (Awaited opts s) (Awaited opts s) _ (waiter.wait_for (a ∷ actions)) w
        (group, st.awaited waiter h _ s (a ∷ actions) w held, id, asked) (λ u v k. k) (λ e v k. k)

  -- The server that a successful Create returns was requested with Create's options, and is kept.
  create_server-Made : (opts : CreateOpts) (w : W) → Answers opts (create_server p opts w)
  unfolding create_server
  create_server-Made opts w =
      >>=-post {0, 0, 0, 0} (λ r. Unit) (Answers opts) (placement p.pg_client p.cluster_name opts)
        (λ group.
          mapping_error map_create_error
            (p.client.create (create_request p.cluster_name opts group))
          >>= λ r. wait_for_actions p.waiter opts.name (created_actions r) >>= λ x. return r.server)
        w tt
        (λ group v k.
          >>=-post (Requested opts) (Answers opts)
            (mapping_error map_create_error
              (p.client.create (create_request p.cluster_name opts group)))
            (λ r. wait_for_actions p.waiter opts.name (created_actions r) >>= λ x. return r.server)
            v
            (mapping_error-post (Requested opts) (Requested opts) map_create_error
              (p.client.create (create_request p.cluster_name opts group)) v
              (request-Requested opts group v) (λ r u l. l) (λ e u l. tt))
            (λ r u l.
              >>=-post (Awaited opts r.server) (Answers opts)
                (wait_for_actions p.waiter opts.name (created_actions r)) (λ x. return r.server) u
                (wait-Awaited p.waiter opts r.server (created_actions r) u refl l) (λ x t m. m)
                (λ e t m. tt))
            (λ e u l. tt))
        (λ e v k. tt)

  pub create_server-ok :
      (opts : CreateOpts) (w : W) (s : Server)
      → (create_server p opts w).0 ≡ ok s
      → Made opts s (create_server p opts w).1
  create_server-ok opts w s h = go (create_server p opts w) (create_server-Made opts w) h
    where
      go : (r : Result Server × W) → Answers opts r → r.0 ≡ ok s → Made opts s r.1
      go (ok t, v) m e = subst (λ x. Made opts x v) (ok-injective e) m
      go (err d, v) m e = absurd (cc e)

  -- Get finds the server by its provider ID.
  pub Made-get :
      (opts : CreateOpts) (s : Server) (w : W) (m : Made opts s w)
      → (t : Server) × ((get p (format_provider_id s.id) w).0 ≡ ok (some t))
        × (t.id ≡ s.id)
        × IsAsRequested (create_request p.cluster_name opts m.0) t
        × IsAttached (create_request p.cluster_name opts m.0) t
  unfolding get get_by found_or_none
  Made-get opts s w (group, held, id, asked) =
      let (t, shown, same, asked', attached) = st.found _ s w held in
      (
        t,
        rw (parse_provider_id-format_provider_id s.id id, get)
            (go (p.client.get_by_id s.id w) shown),
        same,
        asked',
        attached,
      )
    where
      go :
          {t : Server} (r : Result (Option Server) × W)
          → r.0 ≡ ok (some t)
          → (found_or_none p s.id r).0 ≡ ok (some t)
      go (ok u, v) e = e
      go (err d, v) e = absurd (cc e)

  -- List returns the server: the management labels that it is found by are never overwritten.
  pub Made-list :
      (opts : CreateOpts) (s : Server) (w : W) (servers : List Server)
      → NodupKeys opts.labels
      → Made opts s w
      → (list p w).0 ≡ ok servers
      → (t : Server) × Within t servers × (t.id ≡ s.id)
  unfolding list create_request list_selector
  Made-list opts s w servers distinct (spread, held, id, asked) h =
      st.listed _ s w servers server_label_managed_by server_value_managed_by server_label_cluster
        p.cluster_name held
        (lookup-server_labels p.cluster_name opts server_label_managed_by distinct)
        (lookup-server_labels p.cluster_name opts server_label_cluster distinct)
        (unwrapped (p.client.all_with_opts (list_selector p.cluster_name) w) h)
    where
      unwrapped :
          (r : Result (List Server) × W)
          → (rewrap (wrapf "listing karpenter servers: %w" []) r).0 ≡ ok servers
          → r.0 ≡ ok servers
      unwrapped (ok x, v) e = e
      unwrapped (err d, v) e = absurd (cc e)
