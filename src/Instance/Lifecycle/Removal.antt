-- ===== src/Instance/Lifecycle/Removal.antt =====
-- Delete of a server that Create has made.
use mathlib.Core.Path.{subst}
use karpenter_provider_hetzn.Effects.{then_run, rewrap}
use karpenter_provider_hetzn.Base.{◌≡◌, refl, sym, ◌↔◌, Option, some}
use karpenter_provider_hetzn.Errors.{Error, Result, ok, err, ok-injective}
use karpenter_provider_hetzn.Hcloud.{Server}
use karpenter_provider_hetzn.Instance.{Provider, CreateOpts}
use karpenter_provider_hetzn.Instance.Lifecycle.{
  create_request, delete_server, unless_gone, delete_found, delete_by,
}
use karpenter_provider_hetzn.Instance.Lifecycle.Stored.{IsAsRequested, Stores, Made}
use karpenter_provider_hetzn.Instance.ProviderId.{
  format_provider_id, parse_provider_id-format_provider_id,
}

rewrap-ok_iff :
    {W : Type 0} (f : Error → Error) (r : Result (Unit {0}) × W)
    → (((rewrap f r).0 ≡ ok tt) ↔ (r.0 ≡ ok tt)) × ((rewrap f r).1 ≡ r.1)
rewrap-ok_iff f (ok u, v) = (((λ h. h), λ h. h), refl)
rewrap-ok_iff f (err e, v) = (((λ h. absurd (cc h)), λ h. absurd (cc h)), refl)

module _ {W : Type 0} (p : Provider W) (st : Stores p) where
  -- Delete looks the server up and requests its deletion, with the outcome of that request.
  pub Made-delete :
      (opts : CreateOpts) (s : Server) (w : W) (m : Made p st opts s w)
      → (t : Server) × (t.id ≡ s.id)
        × IsAsRequested (create_request p.cluster_name opts m.0) t
        × (let (r, u) = delete_server p (format_provider_id s.id) w in
            let (answer, v) = p.client.delete_with_result t (p.client.get_by_id t.id w).1 in
            ((r ≡ ok tt) ↔ (answer ≡ ok tt)) × (u ≡ v))
  unfolding delete_server delete_by delete_found
  Made-delete opts s w (group, held, id, asked) =
      let (t, shown, same, asked', attached) = st.found _ s w held in
      (
        t,
        same,
        asked',
        subst
            (λ i.
              let (r, u) = delete_server p (format_provider_id s.id) w in
              let (answer, v) = p.client.delete_with_result t (p.client.get_by_id i w).1 in
              ((r ≡ ok tt) ↔ (answer ≡ ok tt)) × (u ≡ v))
            (sym same)
            (rw (parse_provider_id-format_provider_id s.id id, delete_server)
              (go t (p.client.get_by_id s.id w) shown)),
      )
    where
      go :
          (t : Server) (r : Result (Option Server) × W)
          → r.0 ≡ ok (some t)
          → let (d, u) =
              then_run
                (rewrap (unless_gone p s.id "getting server %d: %w") r)
                (delete_found p s.id) in
            let (answer, v) = p.client.delete_with_result t r.1 in
            ((d ≡ ok tt) ↔ (answer ≡ ok tt)) × (u ≡ v)
      go t (ok u, v) e = rw (ok-injective e) (
          rewrap-ok_iff (unless_gone p s.id "deleting server %d: %w")
            (p.client.delete_with_result t v))
      go t (err d, v) e = absurd (cc e)
