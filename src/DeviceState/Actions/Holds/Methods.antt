-- ===== src/DeviceState/Actions/Holds/Methods.antt =====
-- Each method of DeviceState in cmd/kube-ovn-dra-kubeletplugin/state.go keeps the claims that it is not
-- called to unprepare.
use kube_ovn_dra_driver.Prelude.{
  String, List, [], ◌≢◌, sym, ap, ◌∙◌, inl, inr, Result, ok, err, Option-cases,
}
use mathlib.Core.Path.{subst}
use kube_ovn_dra_driver.Exec.{Exec, pure, lift, wrapping, ◌>>=◌, ◌>>◌}
use kube_ovn_dra_driver.Exec.Frames.{Frames, Frames-pure, Frames-wrapping, Frames-bind}
use kube_ovn_dra_driver.Claim.{ResourceClaim}
use kube_ovn_dra_driver.Cdi.{ApiDevice, PreparedDevice, claim_spec_name}
use kube_ovn_dra_driver.DeviceState.Host.{
  PreparedClaims, Settings, Host, IsHost, State, lookup_claim, insert_claim, delete_claim,
}
use kube_ovn_dra_driver.DeviceState.Devices.{get_devices, call, prepare_devices}
use kube_ovn_dra_driver.DeviceState.Devices.Checkpointed.{Prepared, prepare_devices-Prepared}
use kube_ovn_dra_driver.DeviceState.Actions.{
  prepare_new, prepare, unprepare, refresh_devices, create_claim_spec_file,
}
use kube_ovn_dra_driver.DeviceState.Actions.Outcome.{
  prepare-again, prepare-first, forgotten, unprepare-known, unprepare_with-first,
  unprepare_with-found,
}
use kube_ovn_dra_driver.DeviceState.Actions.Restart.{refresh_devices-kept}
use kube_ovn_dra_driver.DeviceState.Actions.Holds.{
  IsAtomic, IsGood, Holds, call-Frames, write-Frames, get-create_claim_spec_file,
  insert_claim-IsGood, delete_claim-IsGood, added-Holds, removed-Holds, Keeps-IsPreorder, Keeps,
  same-Holds,
}

module _ {W : Type 0} (s : Settings) (host : Host W) (laws : IsHost host) (atomic : IsAtomic host)
    (uid : String) (ds : List PreparedDevice) where
  -- What follows prepareDevices for a claim that is not in the checkpoint `p`.
  finish_prepare : String → PreparedClaims → List PreparedDevice → Exec (State W) (List ApiDevice)
  finish_prepare c p ds' =
      wrapping "unable to create CDI spec file for claim" []
        (call (create_claim_spec_file s host c ds'))
      >> (wrapping "unable to sync to checkpoint" []
            (call (host.create_checkpoint (insert_claim c ds' p)))
          >> pure (get_devices ds'))

  finish_prepare-Frames :
      (c : String) (p : PreparedClaims) (ds' : List PreparedDevice)
      → IsGood uid ds (insert_claim c ds' p)
      → Frames (Keeps s host laws atomic uid ds) (finish_prepare c p ds')
  unfolding finish_prepare
  finish_prepare-Frames c p ds' g =
      Frames-bind (Keeps-IsPreorder s host laws atomic uid ds) _ _
        (Frames-wrapping (Keeps-IsPreorder s host laws atomic uid ds) _ []
          (call (create_claim_spec_file s host c ds'))
          (call-Frames s host laws atomic uid ds _
            (get-create_claim_spec_file s host laws atomic uid ds c ds')))
        (λ _.
          Frames-bind (Keeps-IsPreorder s host laws atomic uid ds) _ _
            (Frames-wrapping (Keeps-IsPreorder s host laws atomic uid ds) _ []
              (call (host.create_checkpoint (insert_claim c ds' p)))
              (write-Frames s host laws atomic uid ds (insert_claim c ds' p) g))
            (λ _. Frames-pure (Keeps-IsPreorder s host laws atomic uid ds) (get_devices ds')))

  prepare_new-Holds :
      (claim : ResourceClaim) (st : State W) (k : Holds host uid ds st)
      → claim.uid ≢ uid
      → Holds host uid ds (prepare_new s host claim k.claims st).1
  unfolding prepare_new finish_prepare
  prepare_new-Holds claim st k other =
      go (prepare_devices s host claim st) (prepare_devices-Prepared s host laws claim st)
    where
      go :
          (r : Result (List PreparedDevice) × State W)
          → Prepared s host laws claim.uid st r
          → Holds host uid ds
              ((wrapping "prepare failed" [] (lift r.0) >>= finish_prepare claim.uid k.claims)
                r.1).1
      go (err e, t) (d, n) = same-Holds s host laws atomic uid ds st t d n k
      go (ok ds', t) (d, n, o) =
          (finish_prepare-Frames claim.uid k.claims ds' (
              insert_claim-IsGood s host laws atomic uid ds claim.uid ds' k.claims other o
                k.good)).at
            t (added-Holds s host laws atomic uid ds claim.uid ds' st t other o d n k)

  -- Prepare, of any claim and with any outcome.
  pub prepare-Holds :
      (claim : ResourceClaim) (st : State W)
      → Holds host uid ds st
      → Holds host uid ds (prepare s host claim st).1
  prepare-Holds claim st k = elim (Option-cases (lookup_claim claim.uid k.claims)) [
    | inr (ds', z) ↦
        subst (λ r. Holds host uid ds r.1)
          (sym (prepare-again s host laws claim k.claims ds' st k.on_disk z)) k
    | inl z ↦
        subst (λ r. Holds host uid ds r.1)
          (sym (prepare-first s host laws claim k.claims st k.on_disk z))
          (prepare_new-Holds claim st k
            (λ same. cc (z, k.good.entry, ap (λ c. lookup_claim c k.claims) same)))
  ]

  -- Unprepare of another claim, with any outcome.
  pub unprepare-Holds :
      (c : String) (st : State W)
      → c ≢ uid
      → Holds host uid ds st
      → Holds host uid ds (unprepare s host c st).1
  unprepare-Holds c st other k =
      let known = unprepare-known s host laws c k.claims st k.on_disk in
      elim (Option-cases (lookup_claim c k.claims)) [
        | inl z ↦
            subst (λ r. Holds host uid ds r.1)
              (sym (known ∙ unprepare_with-first s host laws c k.claims st z)) k
        | inr (ds', z) ↦
            subst (λ r. Holds host uid ds r.1)
              (sym (known ∙ unprepare_with-found s host laws c k.claims ds' st z))
              ((Frames-bind (Keeps-IsPreorder s host laws atomic uid ds) _ _
                  (Frames-wrapping (Keeps-IsPreorder s host laws atomic uid ds) _ []
                    (call (host.remove_spec (claim_spec_name s.cdi c)))
                    (call-Frames s host laws atomic uid ds _
                      (laws.get-remove_spec (claim_spec_name s.cdi c))))
                  (λ _.
                    Frames-wrapping (Keeps-IsPreorder s host laws atomic uid ds) _ []
                      (call (host.create_checkpoint (delete_claim c k.claims)))
                      (write-Frames s host laws atomic uid ds (delete_claim c k.claims) (
                        delete_claim-IsGood s host laws atomic uid ds c k.claims other k.good)))).at
                (forgotten s host laws c st) (removed-Holds s host laws atomic uid ds c st other k))
      ]

  pub refresh_devices-Holds :
      (st : State W) → Holds host uid ds st → Holds host uid ds (refresh_devices s host st).1
  refresh_devices-Holds st k =
      let (n, w) = refresh_devices-kept s host st in
      same-Holds s host laws atomic uid ds st (refresh_devices s host st).1
        (ap host.get_checkpoint w) n k
