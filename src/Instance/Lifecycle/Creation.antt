-- ===== src/Instance/Lifecycle/Creation.antt =====
-- How many servers a call of Create leaves behind.
use karpenter_provider_hetzn.Effects.{
  Eff, ◌>>=◌, return, mapping_error, >>=-post, mapping_error-post,
}
use karpenter_provider_hetzn.Base.Int.{ℤ}
use karpenter_provider_hetzn.Base.{
  ℕ, ◌+◌, String, ◌≡◌, refl, ◌∙◌, ◌⊎◌, inl, inr, Option, none, some, List, [], ◌∷◌, arith, str_eq,
  Bool-cases,
}
use karpenter_provider_hetzn.Hcloud.{Server, ServerCreateOpts, Action, ServerCreateResult}
use karpenter_provider_hetzn.Errors.{text, Error, wrapf, Result, ok, err}
use karpenter_provider_hetzn.Instance.{PlacementGroupClient, ActionWaiter, Provider, CreateOpts}
use karpenter_provider_hetzn.Instance.Lifecycle.{
  placement_group_name, create_request, get_or_create_placement_group, create_server,
  created_actions, first_or_create, placement, wait_for_actions,
}
use karpenter_provider_hetzn.Instance.CreateError.{map_create_error}

-- `count` is the number of servers in the remote state: a create request adds one if it succeeds and
-- none if it fails, and no other call adds any.
pub record Counts {W : Type 0} (p : Provider W) (count : W → ℕ) : Type 0 where
  pub created :
      (o : ServerCreateOpts) (w v : W) (r : ServerCreateResult)
      → p.client.create o w ≡ (ok r, v)
      → count v ≡ count w + 1
  pub refused :
      (o : ServerCreateOpts) (w v : W) (e : Error)
      → p.client.create o w ≡ (err e, v)
      → count v ≡ count w
  pub groups_listed :
      (pg : PlacementGroupClient W)
      → p.pg_client ≡ some pg
      → (name : String) (w : W) → count (pg.all_with_opts name w).1 ≡ count w
  pub group_created :
      (pg : PlacementGroupClient W)
      → p.pg_client ≡ some pg
      → (name : String) (w : W) → count (pg.create name w).1 ≡ count w
  pub waited :
      (waiter : ActionWaiter W)
      → p.waiter ≡ some waiter
      → (actions : List Action) (w : W) → count (waiter.wait_for actions w).1 ≡ count w

module _ {W : Type 0} (p : Provider W) (count : W → ℕ) (c : Counts p count) where
  abbrev Keeps {ℓ} : {A : Type ℓ} → ℕ → Result A × W → Type 0
  Keeps n r = count r.1 ≡ n

  first_or_create-Keeps :
      (pg : PlacementGroupClient W) (name : String) (ids : List ℤ) (w : W)
      → p.pg_client ≡ some pg
      → Keeps (count w) (first_or_create pg name ids w)
  unfolding first_or_create
  first_or_create-Keeps pg name (id ∷ ids) w h = refl
  first_or_create-Keeps pg name [] w h =
      mapping_error-post (Keeps (count w)) (Keeps (count w)) _ (pg.create name) w
        (c.group_created pg h name w) (λ a v k. k) (λ e v k. k)

  get_or_create-Keeps :
      (pg : PlacementGroupClient W) (name : String) (w : W)
      → p.pg_client ≡ some pg
      → Keeps (count w) (get_or_create_placement_group pg name w)
  unfolding get_or_create_placement_group
  get_or_create-Keeps pg name w h =
      >>=-post (Keeps (count w)) (Keeps (count w))
        (mapping_error (wrapf "listing placement groups: %w" []) (pg.all_with_opts name))
        (first_or_create pg name) w
        (mapping_error-post (Keeps (count w)) (Keeps (count w))
          (wrapf "listing placement groups: %w" []) (pg.all_with_opts name) w
          (c.groups_listed pg h name w) (λ a v k. k) (λ e v k. k))
        (λ a v k. first_or_create-Keeps pg name a v h ∙ k) (λ e v k. k)

  placement-Keeps :
      (pg : Option (PlacementGroupClient W)) (opts : CreateOpts) (w : W)
      → p.pg_client ≡ pg
      → Keeps (count w) (placement pg p.cluster_name opts w)
  unfolding placement
  placement-Keeps none opts w h = refl
  placement-Keeps (some pg) opts w h =
      elim (Bool-cases (str_eq opts.placement_group_strategy "none")) [
        | inl off ↦ rw (off, placement) refl
        | inr on ↦
            rw (on, placement)
              (>>=-post (Keeps (count w)) (Keeps (count w))
                (mapping_error (wrapf "resolving placement group: %w" []) (
                  get_or_create_placement_group pg
                    (placement_group_name p.cluster_name opts.node_pool)))
                (λ id. return (some id)) w
                (mapping_error-post (Keeps (count w)) (Keeps (count w))
                  (wrapf "resolving placement group: %w" [])
                  (get_or_create_placement_group pg
                    (placement_group_name p.cluster_name opts.node_pool))
                  w (get_or_create-Keeps pg _ w h) (λ a v k. k) (λ e v k. k))
                (λ a v k. k) (λ e v k. k))
      ]

  -- The error of a failed wait for the actions of the server `name`.
  abbrev pub IsWaitError : String → Error → Type 0
  IsWaitError name e =
      (cause : Error) × (e
        ≡ wrapf "waiting for server %q create actions: %w" (text name ∷ []) cause)

  abbrev pub Waited {ℓ} : {A : Type ℓ} → String → ℕ → Result A × W → Type 0
  Waited name n (ok a, v) = count v ≡ n
  Waited name n (err e, v) = (count v ≡ n) × IsWaitError name e

  wait_for_actions-Waited :
      (waiter : Option (ActionWaiter W)) (name : String) (actions : List Action) (w : W)
      → p.waiter ≡ waiter
      → Waited name (count w) (wait_for_actions waiter name actions w)
  unfolding wait_for_actions
  wait_for_actions-Waited none name actions w h = refl
  wait_for_actions-Waited (some waiter) name [] w h = refl
  wait_for_actions-Waited (some waiter) name (a ∷ actions) w h =
      mapping_error-post (Keeps (count w)) (Waited name (count w)) _ (waiter.wait_for (a ∷ actions))
        w (c.waited waiter h (a ∷ actions) w) (λ u v k. k) (λ e v k. (k, (e, refl)))

  -- What Create has done, by its outcome, if `n` servers were there before.
  abbrev pub Outcome : String → ℕ → Result Server × W → Type 0
  Outcome name n (ok s, v) = count v ≡ n + 1
  Outcome name n (err e, v) = (count v ≡ n) ⊎ ((count v ≡ n + 1) × IsWaitError name e)

  abbrev Requested : ℕ → Result ServerCreateResult × W → Type 0
  Requested n (ok r, v) = count v ≡ n + 1
  Requested n (err e, v) = count v ≡ n

  client_create-Requested :
      (o : ServerCreateOpts) (w : W) → Requested (count w) (p.client.create o w)
  client_create-Requested o w = go (p.client.create o w) refl
    where
      go : (r : Result ServerCreateResult × W) → p.client.create o w ≡ r → Requested (count w) r
      go (ok r, v) e = c.created o w v r e
      go (err d, v) e = c.refused o w v d e

  abbrev request : CreateOpts → Option ℤ → Eff W ServerCreateResult
  request opts group =
      mapping_error map_create_error (p.client.create (create_request p.cluster_name opts group))

  abbrev finish : CreateOpts → ServerCreateResult → Eff W Server
  finish opts r = wait_for_actions p.waiter opts.name (created_actions r) >>= λ x. return r.server

  -- A successful Create leaves exactly one server more. A failed one leaves none, but for a failed
  -- wait for the actions of the new server: then the server stays although Create reports an error.
  pub create_server_count :
      (opts : CreateOpts) (w : W) → Outcome opts.name (count w) (create_server p opts w)
  unfolding create_server
  create_server_count opts w =
      >>=-post (Keeps (count w)) (Outcome opts.name (count w))
        (placement p.pg_client p.cluster_name opts) (λ group. request opts group >>= finish opts) w
        (placement-Keeps p.pg_client opts w refl)
        (λ group v k.
          >>=-post (Requested (count w)) (Outcome opts.name (count w)) (request opts group)
            (finish opts) v
            (mapping_error-post (Requested (count v)) (Requested (count w)) map_create_error
              (p.client.create (create_request p.cluster_name opts group)) v
              (client_create-Requested _ v) (λ r u l. omega arith) (λ e u l. omega arith))
            (λ r u l.
              >>=-post (Waited opts.name (count u)) (Outcome opts.name (count w))
                (wait_for_actions p.waiter opts.name (created_actions r)) (λ x. return r.server) u
                (wait_for_actions-Waited p.waiter opts.name (created_actions r) u refl)
                (λ x t m. omega arith) (λ e t m. inr (omega arith, m.1)))
            (λ e u l. inl l))
        (λ e v k. inl k)
