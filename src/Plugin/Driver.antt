-- ===== src/Plugin/Driver.antt =====
-- The driver of cmd/kube-ovn-dra-kubeletplugin/driver.go: claims of the kubelet, one after the other.
-- `nri_ready` is nil where the plugin runs without NRI.
use kube_ovn_dra_driver.Prelude.{
  String, Bool, false, Option, some, List, [], ◌∷◌, ◌≡◌, refl, Error, message, Result, err, map,
}
use kube_ovn_dra_driver.Claim.{ResourceClaim}
use kube_ovn_dra_driver.Cdi.{ApiDevice}
use kube_ovn_dra_driver.Exec.{Exec, fail, wrapping}
use kube_ovn_dra_driver.DeviceState.Host.{Settings, Host, State}
use kube_ovn_dra_driver.DeviceState.Actions.{prepare, unprepare}

abbrev pub not_ready : Error
not_ready =
    message "NRI plugin is not connected to the container runtime, DRA NICs cannot be attached yet"
      []

module _ {W : Type 0} (s : Settings) (host : Host W) where
  unfoldable pub prepare_resource_claim :
      Option Bool → ResourceClaim → Exec (State W) (List ApiDevice)
  prepare_resource_claim (some false) claim = fail not_ready
  prepare_resource_claim _ claim =
      wrapping "error preparing devices for claim %v" (claim.uid ∷ []) (prepare s host claim)

  -- The entries of the result map, in the order in which they are set.
  unfoldable pub prepare_resource_claims :
      Option Bool → List ResourceClaim → State W → List (String × Result (List ApiDevice)) × State W
  unfolding prepare_resource_claim
  prepare_resource_claims nri_ready [] st = ([], st)
  prepare_resource_claims nri_ready (c ∷ cs) st =
      let (r, st') = prepare_resource_claim nri_ready c st in
      let (rs, st'') = prepare_resource_claims nri_ready cs st' in ((c.uid, r) ∷ rs, st'')

  unfoldable pub unprepare_resource_claim : String → Exec (State W) (Unit {0})
  unprepare_resource_claim uid =
      wrapping "error unpreparing devices for claim %v" (uid ∷ []) (unprepare s host uid)

  unfoldable pub unprepare_resource_claims :
      List String → State W → List (String × Result (Unit {0})) × State W
  unfolding unprepare_resource_claim
  unprepare_resource_claims [] st = ([], st)
  unprepare_resource_claims (uid ∷ uids) st =
      let (r, st') = unprepare_resource_claim uid st in
      let (rs, st'') = unprepare_resource_claims uids st' in ((uid, r) ∷ rs, st'')

  -- The driver fails closed: while the NRI plugin is not connected, each claim of a request gets an
  -- error under its UID, and nothing is changed.
  pub prepare_fails_closed :
      (claims : List ResourceClaim) (st : State W)
      → prepare_resource_claims (some false) claims st
        ≡ (map (λ (c : ResourceClaim). (c.uid, err not_ready)) claims, st)
  unfolding prepare_resource_claims
  prepare_fails_closed [] st = refl
  prepare_fails_closed (c ∷ cs) st = rw (prepare_fails_closed cs st) refl
