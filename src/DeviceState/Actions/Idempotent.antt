-- ===== src/DeviceState/Actions/Idempotent.antt =====
-- A repeated Prepare of cmd/kube-ovn-dra-kubeletplugin/state.go.
use kube_ovn_dra_driver.Prelude.{some, List, ◌≡◌, ap, ◌∙◌, inl, inr, ok, eq_refl, if◌then◌else◌}
use kube_ovn_dra_driver.Claim.{ResourceClaim}
use kube_ovn_dra_driver.Cdi.{ApiDevice}
use kube_ovn_dra_driver.DeviceState.Host.{Settings, Host, IsHost, State, lookup_claim, insert_claim}
use kube_ovn_dra_driver.DeviceState.Actions.{prepare}
use kube_ovn_dra_driver.DeviceState.Actions.Outcome.{
  prepare-outcome, prepare-again, lookup_claim-insert_claim,
}

module _ {W : Type 0} (s : Settings) (host : Host W) (laws : IsHost host) where
  -- On a host that reads back the checkpoint written last (IsHost), Prepare is idempotent: after a
  -- Prepare that succeeded, a second Prepare of the claim returns the same devices and changes
  -- nothing, whether the first one prepared the claim or found it prepared.
  pub prepare_twice :
      (claim : ResourceClaim) (st st' : State W) (ids : List ApiDevice)
      → prepare s host claim st ≡ (ok ids, st')
      → prepare s host claim st' ≡ (ok ids, st')
  prepare_twice claim st st' ids h =
      let (p, e, (ds, i, cases)) = prepare-outcome s host laws claim st st' ids h in
      elim cases [
        | inl (z, same) ↦ rw (same, i) (prepare-again s host laws claim p ds st e z)
        | inr (z, o, n, c) ↦ rw i (
            prepare-again s host laws claim (insert_claim claim.uid ds p) ds st' c (
              lookup_claim-insert_claim claim.uid claim.uid ds p
              ∙ ap (λ b. if b then some ds else lookup_claim claim.uid p) (eq_refl claim.uid)))
      ]
