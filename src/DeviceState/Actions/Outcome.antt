-- ===== src/DeviceState/Actions/Outcome.antt =====
-- What Prepare and Unprepare of cmd/kube-ovn-dra-kubeletplugin/state.go leave when they succeed.
use kube_ovn_dra_driver.Prelude.{
  String, ◌==◌, Option, none, some, List, [], ◌∷◌, ◌≡◌, refl, sym, ap, ◌∙◌, ◌⊎◌, inl, inr, arith,
  Error, Result, ok, eq_iff, if◌then◌else◌, Option-cases, Result-cases,
}
use mathlib.Core.Path.{subst}
use kube_ovn_dra_driver.Exec.{Exec, pure, wrapping, ◌>>◌, bind-eq-ok, wrapping-eq-ok}
use kube_ovn_dra_driver.Claim.{ResourceClaim}
use kube_ovn_dra_driver.Store.{remove_claim}
use kube_ovn_dra_driver.Cdi.{ApiDevice, PreparedDevice, claim_spec_name}
use kube_ovn_dra_driver.DeviceState.Host.{
  PreparedClaims, Settings, Host, IsHost, State, lookup_claim, insert_claim, delete_claim,
}
use kube_ovn_dra_driver.DeviceState.Parts.{add_nics}
use kube_ovn_dra_driver.DeviceState.Actions.{
  prepare_new, prepare_with, prepare, unprepare_devices, unprepare_with, unprepare,
  create_claim_spec_file,
}
use kube_ovn_dra_driver.DeviceState.Devices.{get_devices, call, prepare_devices}
use kube_ovn_dra_driver.DeviceState.Devices.Checkpointed.{
  OfClaim, Prepared, prepare_devices-Prepared,
}

pub lookup_claim-insert_claim :
    (uid c : String) (ds : List PreparedDevice) (p : PreparedClaims)
    → lookup_claim c (insert_claim uid ds p) ≡ (if uid == c then some ds else lookup_claim c p)
unfolding lookup_claim insert_claim
lookup_claim-insert_claim uid c ds [] = refl
lookup_claim-insert_claim uid c ds ((k, old) ∷ p) =
    ground (arith, lookup_claim-insert_claim uid c ds p, eq_iff k uid, eq_iff uid c, eq_iff k c)

pub lookup_claim-delete_claim :
    (uid c : String) (p : PreparedClaims)
    → lookup_claim c (delete_claim uid p) ≡ (if uid == c then none else lookup_claim c p)
unfolding lookup_claim delete_claim
lookup_claim-delete_claim uid c [] = ground arith
lookup_claim-delete_claim uid c ((k, old) ∷ p) =
    ground (arith, lookup_claim-delete_claim uid c p, eq_iff k uid, eq_iff uid c, eq_iff k c)

module _ {W : Type 0} (s : Settings) (host : Host W) (laws : IsHost host) where
  -- The claim was prepared before, or it is now, with its devices in the checkpoint.
  abbrev pub PrepareOutcome :
      ResourceClaim → PreparedClaims → State W → List ApiDevice → State W → Type 0
  PrepareOutcome claim p st ids st' =
      (ds : List PreparedDevice) × (ids ≡ get_devices ds)
      × (((lookup_claim claim.uid p ≡ some ds) × (st' ≡ st))
          ⊎ ((lookup_claim claim.uid p ≡ none)
              × OfClaim claim.uid ds
              × (st'.nic_store ≡ add_nics ds st.nic_store)
              × (host.get_checkpoint st'.world ≡ ok (insert_claim claim.uid ds p))))

  pub call-eq-ok :
      (f : W → Option Error × W) (st st' : State W)
      → call f st ≡ (ok tt, st')
      → ((f st.world).0 ≡ none) × (record st { world = (f st.world).1 } ≡ st')
  call-eq-ok f st st' h = elim (Option-cases (f st.world).0) [
    | inl e ↦ (e, ap (λ r. r.1) h)
    | inr (x, e) ↦ absurd (ground (arith, h, e))
  ]

  -- A call that succeeds changes the world, and the rest goes on.
  then_call-eq-ok :
      {A : Type 0} (t : String) (args : List String) (f : W → Option Error × W)
      (m : Exec (State W) A) (st st' : State W) (a : A)
      → (wrapping t args (call f) >> m) st ≡ (ok a, st')
      → ((f st.world).0 ≡ none) × (m (record st { world = (f st.world).1 }) ≡ (ok a, st'))
  then_call-eq-ok t args f m st st' a h = elim (Option-cases (f st.world).0) [
    | inl e ↦ (e, ground (arith, h, e))
    | inr (x, e) ↦ absurd (ground (arith, h, e))
  ]

  -- The devices are written to the CDI cache and to the checkpoint.
  stored :
      (claim : ResourceClaim) (p : PreparedClaims) (ds : List PreparedDevice) (st st' : State W)
      (ids : List ApiDevice)
      → (wrapping "unable to create CDI spec file for claim" []
              (call (create_claim_spec_file s host claim.uid ds))
            >> (wrapping "unable to sync to checkpoint" []
                  (call (host.create_checkpoint (insert_claim claim.uid ds p)))
                >> pure (get_devices ds)))
          st
        ≡ (ok ids, st')
      → (ids ≡ get_devices ds)
        × (st'.nic_store ≡ st.nic_store)
        × (host.get_checkpoint st'.world ≡ ok (insert_claim claim.uid ds p))
  stored claim p ds st st' ids h =
      let (a, h₁) =
        then_call-eq-ok _ [] (create_claim_spec_file s host claim.uid ds) _ st st' ids h in
      let w = (create_claim_spec_file s host claim.uid ds st.world).1 in
      let (b, h₂) =
        then_call-eq-ok _ [] (host.create_checkpoint (insert_claim claim.uid ds p)) _
          (record st { world = w }) st' ids h₁ in
      (
        ground (arith, h₂),
        ap (λ (r : Result (List ApiDevice) × State W). r.1.nic_store) (sym h₂),
        ap (λ (r : Result (List ApiDevice) × State W). host.get_checkpoint r.1.world) (sym h₂)
            ∙ laws.read_back (insert_claim claim.uid ds p) w b,
      )

  prepare_new-outcome :
      (claim : ResourceClaim) (p : PreparedClaims) (st st' : State W) (ids : List ApiDevice)
      → lookup_claim claim.uid p ≡ none
      → prepare_new s host claim p st ≡ (ok ids, st')
      → PrepareOutcome claim p st ids st'
  unfolding prepare_new
  prepare_new-outcome claim p st st' ids z h =
      let (ds, t, e, h₁) =
        bind-eq-ok (wrapping "prepare failed" [] (prepare_devices s host claim)) _ st st' ids h in
      let (_, n, o) =
        subst (Prepared s host laws claim.uid st)
          (wrapping-eq-ok "prepare failed" [] (prepare_devices s host claim) st t ds e)
          (prepare_devices-Prepared s host laws claim st) in
      let (i, k, c) = stored claim p ds t st' ids h₁ in (ds, i, inr (z, o, k ∙ n, c))

  prepare-known :
      (claim : ResourceClaim) (p : PreparedClaims) (st : State W)
      → host.get_checkpoint st.world ≡ ok p
      → prepare s host claim st ≡ prepare_with s host claim p st
  unfolding prepare
  prepare-known claim p st e = rw (e, prepare) refl

  pub prepare-again :
      (claim : ResourceClaim) (p : PreparedClaims) (ds : List PreparedDevice) (st : State W)
      → host.get_checkpoint st.world ≡ ok p
      → lookup_claim claim.uid p ≡ some ds
      → prepare s host claim st ≡ (ok (get_devices ds), st)
  unfolding prepare_with
  prepare-again claim p ds st e z = prepare-known claim p st e ∙ rw (z, prepare_with) refl

  pub prepare-first :
      (claim : ResourceClaim) (p : PreparedClaims) (st : State W)
      → host.get_checkpoint st.world ≡ ok p
      → lookup_claim claim.uid p ≡ none
      → prepare s host claim st ≡ prepare_new s host claim p st
  unfolding prepare_with
  prepare-first claim p st e z = prepare-known claim p st e ∙ rw (z, prepare_with) refl

  pub prepare-outcome :
      (claim : ResourceClaim) (st st' : State W) (ids : List ApiDevice)
      → prepare s host claim st ≡ (ok ids, st')
      → (p : PreparedClaims) × (host.get_checkpoint st.world ≡ ok p)
        × PrepareOutcome claim p st ids st'
  unfolding prepare
  prepare-outcome claim st st' ids h = elim (Result-cases (host.get_checkpoint st.world)) [
    | inr (x, e) ↦ absurd (ground (arith, h, e))
    | inl (p, e) ↦ elim (Option-cases (lookup_claim claim.uid p)) [
      | inl z ↦
          (p, e, prepare_new-outcome claim p st st' ids z (sym (prepare-first claim p st e z) ∙ h))
      | inr (ds, z) ↦
          let same = sym h ∙ prepare-again claim p ds st e z in
          (p, e, (ds, ground (arith, same), inl (z, ap (λ r. r.1) same)))
    ]
  ]

  -- What Unprepare leaves when it succeeds and the checkpoint can be read: nothing is changed where
  -- the claim is not in the checkpoint; else its NICs and its entry are gone.
  abbrev pub UnprepareOutcome : String → PreparedClaims → State W → State W → Type 0
  UnprepareOutcome uid p st st' =
      ((lookup_claim uid p ≡ none) × (st' ≡ st))
      ⊎ ((ds : List PreparedDevice) × (lookup_claim uid p ≡ some ds)
          × (st'.nic_store ≡ elim st.nic_store [ none ↦ none | some q ↦ some (remove_claim q uid) ])
          × (host.get_checkpoint st'.world ≡ ok (delete_claim uid p)))

  pub unprepare_with-first :
      (uid : String) (p : PreparedClaims) (st : State W)
      → lookup_claim uid p ≡ none
      → unprepare_with s host uid p st ≡ (ok tt, st)
  unfolding unprepare_with
  unprepare_with-first uid p st z = rw (z, unprepare_with) refl

  abbrev pub forgotten : String → State W → State W
  forgotten uid st = record st {
    nic_store = elim st.nic_store [ none ↦ none | some q ↦ some (remove_claim q uid) ];
  }

  pub unprepare_with-found :
      (uid : String) (p : PreparedClaims) (ds : List PreparedDevice) (st : State W)
      → lookup_claim uid p ≡ some ds
      → unprepare_with s host uid p st
        ≡ (wrapping "unable to delete CDI spec file for claim" []
                (call (host.remove_spec (claim_spec_name s.cdi uid)))
              >> wrapping "unable to sync to checkpoint" []
                  (call (host.create_checkpoint (delete_claim uid p))))
            (forgotten uid st)
  unfolding unprepare_with unprepare_devices
  unprepare_with-found uid p ds st z = rw (z, unprepare_with) refl

  unprepare_with-outcome :
      (uid : String) (p : PreparedClaims) (st st' : State W)
      → unprepare_with s host uid p st ≡ (ok tt, st')
      → UnprepareOutcome uid p st st'
  unprepare_with-outcome uid p st st' h = elim (Option-cases (lookup_claim uid p)) [
    | inl z ↦ inl (z, ap (λ r. r.1) (sym h ∙ unprepare_with-first uid p st z))
    | inr (ds, z) ↦
        let (a, h₁) =
          then_call-eq-ok "unable to delete CDI spec file for claim" []
            (host.remove_spec (claim_spec_name s.cdi uid))
            (wrapping "unable to sync to checkpoint" []
              (call (host.create_checkpoint (delete_claim uid p))))
            (forgotten uid st) st' tt (sym (unprepare_with-found uid p ds st z) ∙ h) in
        let w = (host.remove_spec (claim_spec_name s.cdi uid) st.world).1 in
        let (b, same) =
          call-eq-ok (host.create_checkpoint (delete_claim uid p))
            (record (forgotten uid st) { world = w }) st'
            (wrapping-eq-ok "unable to sync to checkpoint" []
              (call (host.create_checkpoint (delete_claim uid p)))
              (record (forgotten uid st) { world = w }) st' tt h₁) in
        inr (
          ds,
          z,
          ap (λ (t : State W). t.nic_store) (sym same),
          ap (λ (t : State W). host.get_checkpoint t.world) (sym same)
              ∙ laws.read_back (delete_claim uid p) w b,
        )
  ]

  pub unprepare-known :
      (uid : String) (p : PreparedClaims) (st : State W)
      → host.get_checkpoint st.world ≡ ok p
      → unprepare s host uid st ≡ unprepare_with s host uid p st
  unfolding unprepare
  unprepare-known uid p st e = rw (e, unprepare) refl

  pub unprepare-outcome :
      (uid : String) (p : PreparedClaims) (st st' : State W)
      → host.get_checkpoint st.world ≡ ok p
      → unprepare s host uid st ≡ (ok tt, st')
      → UnprepareOutcome uid p st st'
  unprepare-outcome uid p st st' e h =
      unprepare_with-outcome uid p st st' (sym (unprepare-known uid p st e) ∙ h)
