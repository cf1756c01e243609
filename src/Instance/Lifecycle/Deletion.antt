-- ===== src/Instance/Lifecycle/Deletion.antt =====
-- When Delete reports that the server is gone, and how it is counted.
use karpenter_provider_hetzn.Base.Int.{ℤ}
use karpenter_provider_hetzn.Base.Text.{Bytes}
use karpenter_provider_hetzn.Effects.{then_run, rewrap}
use karpenter_provider_hetzn.Base.{
  ◌+◌, String, ◌≡◌, refl, ◌∙◌, ◌↔◌, Bool, true, false, not, ◌||◌, Option, none, some, arith, str_eq,
  if◌then◌else◌,
}
use karpenter_provider_hetzn.Hcloud.{Server}
use karpenter_provider_hetzn.Errors.{
  not_found, Error, is_error, is_node_claim_not_found, Result, ok, err,
}
use karpenter_provider_hetzn.Metrics.{Metrics, result_success, result_error, inc}
use karpenter_provider_hetzn.Instance.{Provider}
use karpenter_provider_hetzn.Instance.Lifecycle.{
  delete_server, delete, get, gone, unless_gone, delete_found, delete_by, delete_label,
  found_or_none, get_by,
}
use karpenter_provider_hetzn.Instance.ProviderId.{parse_provider_id}

-- A NodeClaimNotFoundError.
abbrev pub reports_gone {ℓ} : {A : Type ℓ} → Result A → Bool
reports_gone (ok u) = false
reports_gone (err e) = is_node_claim_not_found e

-- An error that counts as one.
abbrev pub failed {ℓ} : {A : Type ℓ} → Result A → Bool
failed (ok u) = false
failed (err e) = not (is_node_claim_not_found e)

-- The API's answers that mean that there is no such server.
abbrev pub says_absent : Result (Option Server) → Bool
says_absent (ok none) = true
says_absent (ok (some s)) = false
says_absent (err e) = is_error e not_found

abbrev pub says_deleted : Result (Unit {0}) → Bool
says_deleted (ok u) = false
says_deleted (err e) = is_error e not_found

or_false : (b : Bool) → b ≡ (b || false)
or_false true = refl
or_false false = refl

module _ {W : Type 0} (p : Provider W) where
  -- The answer to the delete request, for a server that was found.
  abbrev pub absent_on_delete : Result (Option Server) → W → Bool
  absent_on_delete (ok (some s)) w = says_deleted (p.client.delete_with_result s w).0
  absent_on_delete (ok none) w = false
  absent_on_delete (err e) w = false

  -- The server with this ID is gone before the call, or between the two requests.
  abbrev pub is_gone : ℤ → W → Bool
  is_gone id w =
      let (found, w') = p.client.get_by_id id w in says_absent found || absent_on_delete found w'

  -- The hcloud client returns no errors of karpenter's own types.
  pub record HasForeignErrors : Type 0 where
    pub on_get :
        (id : ℤ) (w : W) (e : Error)
        → (p.client.get_by_id id w).0 ≡ err e
        → is_node_claim_not_found e ≡ false
    pub on_delete :
        (s : Server) (w : W) (e : Error)
        → (p.client.delete_with_result s w).0 ≡ err e
        → is_node_claim_not_found e ≡ false

  unless_gone_lem :
      (id : ℤ) (what : String) (e : Error)
      → is_node_claim_not_found e ≡ false
      → is_node_claim_not_found (unless_gone p id what e) ≡ is_error e not_found
  unfolding unless_gone gone is_node_claim_not_found
  unless_gone_lem id what e h = ground arith

  module _ (foreign : HasForeignErrors) where
    delete_found_gone :
        (id : ℤ) (found : Option Server) (w : W)
        → reports_gone (delete_found p id found w).0
          ≡ (says_absent (ok found) || absent_on_delete (ok found) w)
    unfolding delete_found gone is_node_claim_not_found
    delete_found_gone id none w = refl
    delete_found_gone id (some s) w = go (p.client.delete_with_result s w) (foreign.on_delete s w)
      where
        go :
            (r : Result (Unit {0}) × W)
            → ((e : Error) → r.0 ≡ err e → is_node_claim_not_found e ≡ false)
            → reports_gone (rewrap (unless_gone p id "deleting server %d: %w") r).0
              ≡ says_deleted r.0
        go (ok u, v) h = refl
        go (err e, v) h = unless_gone_lem id _ e (h e refl)

    -- For a valid provider ID, and an API that returns no NodeClaimNotFoundError itself, Delete reports NodeClaimNotFound exactly if the API says that the server
    -- does not exist, on the lookup or on the deletion.
    pub delete_server_gone :
        (provider_id : Bytes) (id : ℤ) (w : W)
        → parse_provider_id provider_id ≡ ok id
        → reports_gone (delete_server p provider_id w).0 ≡ is_gone id w
    unfolding delete_server delete_by
    delete_server_gone provider_id id w parsed =
        rw (parsed, delete_server) (go (p.client.get_by_id id w) (foreign.on_get id w))
      where
        go :
            (r : Result (Option Server) × W)
            → ((e : Error) → r.0 ≡ err e → is_node_claim_not_found e ≡ false)
            → reports_gone
                (then_run
                  (rewrap (unless_gone p id "getting server %d: %w") r)
                  (delete_found p id)).0
              ≡ (says_absent r.0 || absent_on_delete r.0 r.1)
        go (ok found, v) h = delete_found_gone id found v
        go (err e, v) h = unless_gone_lem id _ e (h e refl) ∙ or_false (is_error e not_found)

  delete_label_lem :
      (r : Result (Unit {0}))
      → delete_label p r ≡ (if failed r then result_error else result_success)
  unfolding delete_label
  delete_label_lem (ok u) = refl
  delete_label_lem (err e) = ground arith

  -- Delete adds one to the counter of its result: "error" for an error that is not NodeClaimNotFound,
  -- and "success" for the others; the other counters stay.
  pub delete_counted :
      (provider_id : Bytes) (w : W) (m : Metrics) (label : String)
      → let (r, w', m') = delete p provider_id w m in
        m'.server_delete_total label ≡ (
          if str_eq (if failed r then result_error else result_success) label
          then m.server_delete_total label + 1
          else m.server_delete_total label)
  unfolding delete inc
  delete_counted provider_id w m label = rw (delete_label_lem (delete_server p provider_id w).0)

  -- For a valid provider ID, Get returns no server, and no error, exactly if the API says that there is none.
  pub get_absent :
      (provider_id : Bytes) (id : ℤ) (w : W)
      → parse_provider_id provider_id ≡ ok id
      → ((get p provider_id w).0 ≡ ok none) ↔ (says_absent (p.client.get_by_id id w).0 ≡ true)
  unfolding get get_by
  get_absent provider_id id w parsed = rw (parsed, get) (go (p.client.get_by_id id w))
    where
      go :
          (r : Result (Option Server) × W)
          → ((found_or_none p id r).0 ≡ ok none) ↔ (says_absent r.0 ≡ true)
      go (ok none, v) = ground arith
      go (ok (some s), v) = ground arith
      go (err e, v) = ground arith
